-- ===== src/Tools/Edits.antt =====
-- What `_edit_distance` of dealfinder/tool_trust.py promises: the least number of edits, and a
-- recursive definition of that number.
use tutorial_dealfinder.Base.{
  sym, ℕ, suc, ◌+◌, ◌≤◌, min, List, [], ◌∷◌, ◌≡◌, ◌⊎◌, inl, inr, subst, arith, length, nat_beq,
  nat_beq_iff, Bool-cases,
}
use tutorial_dealfinder.Tools.{cost}

-- `Edits n a b`: `n` insertions, deletions and replacements of single characters turn `a` into `b`.
pub data Edits : ℕ → List ℕ → List ℕ → Type 0 where
  done : Edits 0 [] []
  same : {n : ℕ} {a b : List ℕ} (c : ℕ) → Edits n a b → Edits n (c ∷ a) (c ∷ b)
  replace : {n : ℕ} {a b : List ℕ} (c d : ℕ) → Edits n a b → Edits (suc n) (c ∷ a) (d ∷ b)
  delete : {n : ℕ} {a b : List ℕ} (c : ℕ) → Edits n a b → Edits (suc n) (c ∷ a) b
  insert : {n : ℕ} {a b : List ℕ} (c : ℕ) → Edits n a b → Edits (suc n) a (c ∷ b)

unfoldable pub rev_append : List ℕ → List ℕ → List ℕ
rev_append [] b = b
rev_append (c ∷ a) b = rev_append a (c ∷ b)

pub recount : {n m : ℕ} {a b : List ℕ} → Edits n a b → n ≡ m → Edits m a b
recount {a} {b} h e = subst (λ k. Edits k a b) e h

pub Edits-rev_append :
    {n m : ℕ} {a b c d : List ℕ}
    → Edits n a b
    → Edits m c d
    → Edits (n + m) (rev_append a c) (rev_append b d)
unfolding rev_append
Edits-rev_append Edits.done k = recount k (omega arith)
Edits-rev_append (Edits.same c h) k = Edits-rev_append h (Edits.same c k)
Edits-rev_append {m} (Edits.replace {n} {a} {b} c d h) k =
    recount (Edits-rev_append h (Edits.replace c d k)) (omega arith)
Edits-rev_append {m} (Edits.delete {n} {a} {b} c h) k =
    recount (Edits-rev_append h (Edits.delete c k)) (omega arith)
Edits-rev_append {m} (Edits.insert {n} {a} {b} c h) k =
    recount (Edits-rev_append h (Edits.insert c k)) (omega arith)

pub Edits-length :
    {n : ℕ} {a b : List ℕ} → Edits n a b → (length a ≤ length b + n) × (length b ≤ length a + n)
Edits-length Edits.done = (omega arith, omega arith)
Edits-length (Edits.same c h) = ground (arith, Edits-length h)
Edits-length (Edits.replace c d h) = ground (arith, Edits-length h)
Edits-length (Edits.delete c h) = ground (arith, Edits-length h)
Edits-length (Edits.insert c h) = ground (arith, Edits-length h)

-- the least number of edits, by recursion
unfoldable pub lev : List ℕ → List ℕ → ℕ
lev [] b = length b
lev (c ∷ a) [] = suc (length a)
lev (c ∷ a) (d ∷ b) = min (min (lev a (d ∷ b) + 1) (lev (c ∷ a) b + 1)) (lev a b + cost c d)

min-cases : (a b : ℕ) → (min a b ≡ a) ⊎ (min a b ≡ b)
min-cases a b = ground arith

lev-delete : (c : ℕ) (a b : List ℕ) → lev (c ∷ a) b ≤ lev a b + 1
unfolding lev
lev-delete c [] [] = ground arith
lev-delete c (e ∷ a) [] = ground arith
lev-delete c a (d ∷ b) = ground arith

lev-insert : (d : ℕ) (a b : List ℕ) → lev a (d ∷ b) ≤ lev a b + 1
unfolding lev
lev-insert d [] b = ground arith
lev-insert d (c ∷ a) b = ground arith

pub lev-least : {n : ℕ} {a b : List ℕ} → Edits n a b → lev a b ≤ n
unfolding lev
lev-least Edits.done = omega arith
lev-least (Edits.same c h) = ground (arith, lev-least h)
lev-least (Edits.replace c d h) = ground (arith, lev-least h)
lev-least (Edits.delete {n} {a} {b} c h) = ground (arith, lev-least h, lev-delete c a b)
lev-least (Edits.insert {n} {a} {b} c h) = ground (arith, lev-least h, lev-insert c a b)

inserts : (b : List ℕ) → Edits (length b) [] b
inserts [] = Edits.done
inserts (c ∷ b) = Edits.insert c (inserts b)

deletes : (a : List ℕ) → Edits (length a) a []
deletes [] = Edits.done
deletes (c ∷ a) = Edits.delete c (deletes a)

Edits-corner : (c d : ℕ) {n : ℕ} {a b : List ℕ} → Edits n a b → Edits (n + cost c d) (c ∷ a) (d ∷ b)
Edits-corner c d {n} {a} {b} h = elim (Bool-cases (nat_beq c d)) [
  | inl e ↦
      recount (subst (λ x. Edits n (c ∷ a) (x ∷ b)) ((nat_beq_iff c d).0 e) (Edits.same c h))
        (ground (arith, e))
  | inr e ↦ recount (Edits.replace c d h) (ground (arith, e))
]

pub Edits-lev : (a b : List ℕ) → Edits (lev a b) a b
unfolding lev
Edits-lev [] b = inserts b
Edits-lev (c ∷ a) [] = deletes (c ∷ a)
Edits-lev (c ∷ a) (d ∷ b) =
    let up = lev a (d ∷ b) + 1 in
    let left = lev (c ∷ a) b + 1 in
    let corner = lev a b + cost c d in
    elim (min-cases (min up left) corner) [
      | inl e ↦ elim (min-cases up left) [
        | inl f ↦ recount (Edits.delete c (Edits-lev a (d ∷ b))) (omega (arith, e, f))
        | inr f ↦ recount (Edits.insert d (Edits-lev (c ∷ a) b)) (omega (arith, e, f))
      ]
      | inr e ↦ recount (Edits-corner c d (Edits-lev a b)) (sym e)
    ]
