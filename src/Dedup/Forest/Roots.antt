-- ===== src/Dedup/Forest/Roots.antt =====
-- The union-find of dealfinder/dedup.py as a table of representatives.
use tutorial_dealfinder.Base.{
  ℕ, zero, suc, ◌+◌, ◌≤◌, ◌≡◌, true, List, [], ◌∷◌, nat_beq, if◌then◌else◌, length, arith, refl,
  sym, ap, ◌∙◌, Bool-cases, inl, inr, subst,
}
use tutorial_dealfinder.Dedup.Forest.{Parent, assign, find, union, unite}

-- `k` steps to the parent
unfoldable pub climb : Parent → ℕ → ℕ → ℕ
climb p zero x = x
climb p (suc k) x = climb p k (p x)

climb_fixed : (p : Parent) (k x : ℕ) → p x ≡ x → climb p k x ≡ x
unfolding climb
climb_fixed p zero x h = refl
climb_fixed p (suc k) x h = ap (λ y. climb p k y) h ∙ climb_fixed p k x h

-- a step more at the end stays at a root
climb-parent : (p : Parent) (k x r : ℕ) → p r ≡ r → climb p k x ≡ r → climb p k (p x) ≡ r
unfolding climb
climb-parent p zero x r h e = ap p e ∙ h
climb-parent p (suc k) x r h e = climb-parent p k (p x) r h e

nat_beq_iff : (x y : ℕ) → nat_beq x y ≡ true → x ≡ y
nat_beq_iff x y h = ground (arith, h)

-- halving a path keeps the roots, and every item is as near to its root as before
halved-climb :
    (p : Parent) (x k y r : ℕ) → p r ≡ r → climb p k y ≡ r → climb (assign p x (p (p x))) k y ≡ r
unfolding climb
halved-climb p x zero y r h e = e
halved-climb p x (suc k) y r h e = elim (Bool-cases (nat_beq y x)) [
  | inl same ↦
      let yx : y ≡ x = nat_beq_iff y x same in
      rw same (
        halved-climb p x k (p (p x)) r h
          (ap (λ z. climb p k (p (p z))) (sym yx) ∙ climb-parent p k (p y) r h e))
  | inr other ↦ rw other (halved-climb p x k (p y) r h e)
]

halved-root : (p : Parent) (x r : ℕ) → p r ≡ r → assign p x (p (p x)) r ≡ r
halved-root p x r h = elim (Bool-cases (nat_beq r x)) [
  | inl same ↦
      let rx : r ≡ x = nat_beq_iff r x same in rw same (ap (λ z. p (p z)) (sym rx) ∙ ap p h ∙ h)
  | inr other ↦ rw other h
]

-- The list is a table of representatives: whatever the item, at most `h` steps to the parent lead to
-- its representative, which is its own parent.
abbrev pub Implements : Parent → ℕ → (ℕ → ℕ) → Type 0
Implements p h rep = (y : ℕ) → (climb p h y ≡ rep y) × (p (rep y) ≡ rep y)

rep-parent : (p : Parent) (h : ℕ) (rep : ℕ → ℕ) (y : ℕ) → Implements p h rep → rep (p y) ≡ rep y
rep-parent p h rep y i = sym (i (p y)).0 ∙ climb-parent p h y (rep y) (i y).1 (i y).0

halved-Implements :
    (p : Parent) (h x : ℕ) (rep : ℕ → ℕ)
    → Implements p h rep
    → Implements (assign p x (p (p x))) h rep
halved-Implements p h x rep i y =
    (halved-climb p x h y (rep y) (i y).1 (i y).0, halved-root p x (rep y) (i y).1)

find-Implements :
    (fuel : ℕ) (p : Parent) (h k x : ℕ) (rep : ℕ → ℕ)
    → Implements p h rep
    → k ≤ fuel
    → climb p k x ≡ rep x
    → ((find fuel p x).1 ≡ rep x) × Implements (find fuel p x).0 h rep
unfolding find climb
find-Implements zero p h zero x rep i le e = (e, i)
find-Implements zero p h (suc k) x rep i le e = absurd (omega (arith, le))
find-Implements (suc fuel) p h zero x rep i le e =
    let root : p x ≡ x = ap p e ∙ (i x).1 ∙ sym e in
    let same : nat_beq (p x) x ≡ true = ground (arith, root) in rw same (e, i)
find-Implements (suc fuel) p h (suc k) x rep i le e = elim (Bool-cases (nat_beq (p x) x)) [
  | inl same ↦
      let root : p x ≡ x = nat_beq_iff (p x) x same in
      rw same (sym (climb_fixed p (suc k) x root) ∙ e, i)
  | inr other ↦
      let up : rep (p (p x)) ≡ rep x = rep-parent p h rep (p x) i ∙ rep-parent p h rep x i in
      let near : climb p k (p (p x)) ≡ rep (p (p x)) =
        climb-parent p k (p x) (rep x) (i x).1 e ∙ sym up in
      let (found, kept) =
        find-Implements fuel (assign p x (p (p x))) h k (p (p x)) rep
          (halved-Implements p h x rep i) (omega (arith, le))
          (halved-climb p x k (p (p x)) (rep (p (p x))) (i (p (p x))).1 near) in
      rw other (found ∙ up, kept)
]

-- With as much fuel as there are steps, `find` returns the representative and changes none.
pub find_lem :
    (fuel h : ℕ) (p : Parent) (x : ℕ) (rep : ℕ → ℕ)
    → Implements p h rep
    → h ≤ fuel
    → ((find fuel p x).1 ≡ rep x) × Implements (find fuel p x).0 h rep
find_lem fuel h p x rep i le = find-Implements fuel p h h x rep i le (i x).0

-- two representatives become the second
abbrev pub merge : (ℕ → ℕ) → ℕ → ℕ → ℕ → ℕ
merge rep a b y = if nat_beq (rep y) (rep a) then rep b else rep y

-- a root `a` put under a root `b`
linked-climb :
    (p : Parent) (a b k y r : ℕ)
    → p a ≡ a
    → p b ≡ b
    → p r ≡ r
    → climb p k y ≡ r
    → climb (assign p a b) (suc k) y ≡ (if nat_beq r a then b else r)
unfolding climb
linked-climb p a b zero y r ha hb hr e = ground (arith, e, ap p e ∙ hr)
linked-climb p a b (suc k) y r ha hb hr e = elim (Bool-cases (nat_beq y a)) [
  | inl same ↦
      let ya : y ≡ a = nat_beq_iff y a same in
      let ra : r ≡ a = sym e ∙ ap (λ z. climb p (suc k) z) ya ∙ climb_fixed p (suc k) a ha in
      let root : nat_beq r a ≡ true = ground (arith, ra) in
      rw (same, root) (climb_fixed (assign p a b) (suc k) b (ground (arith, hb)))
  | inr other ↦ rw other (linked-climb p a b k (p y) r ha hb hr e)
]

linked-root :
    (p : Parent) (a b r : ℕ)
    → p b ≡ b
    → p r ≡ r
    → assign p a b (if nat_beq r a then b else r) ≡ (if nat_beq r a then b else r)
linked-root p a b r hb hr = ground (arith, hb, hr)

-- A union is a merge of the representatives, and takes an item at most one step further from its own.
pub union-Implements :
    (fuel h : ℕ) (p : Parent) (a b : ℕ) (rep : ℕ → ℕ)
    → Implements p h rep
    → h ≤ fuel
    → Implements (union fuel p a b) (suc h) (merge rep a b)
unfolding union
union-Implements fuel h p a b rep i le y =
    let (found_b, i') = find_lem fuel h p b rep i le in
    let p' = (find fuel p b).0 in
    let (found_a, i'') = find_lem fuel h p' a rep i' le in
    let p'' = (find fuel p' a).0 in
    rw (found_a, found_b)
      (
        linked-climb p'' (rep a) (rep b) h y (rep y) (i'' a).1 (i'' b).1 (i'' y).1 (i'' y).0,
        linked-root p'' (rep a) (rep b) (rep y) (i'' b).1 (i'' y).1,
      )

-- the merges of a list of pairs
unfoldable pub merge_all : (ℕ → ℕ) → List (ℕ × ℕ) → ℕ → ℕ
merge_all rep [] = rep
merge_all rep ((a, b) ∷ pairs) = merge_all (merge rep a b) pairs

-- The unions of a list of pairs are its merges, with as much fuel as there are steps and pairs.
pub unite-Implements :
    (fuel h : ℕ) (p : Parent) (pairs : List (ℕ × ℕ)) (rep : ℕ → ℕ)
    → Implements p h rep
    → h + length pairs ≤ fuel
    → Implements (unite fuel p pairs) (h + length pairs) (merge_all rep pairs)
unfolding unite merge_all
unite-Implements fuel h p [] rep i le = subst (λ k. Implements p k rep) (omega arith) i
unite-Implements fuel h p ((a, b) ∷ pairs) rep i le =
    subst
      (λ k. Implements (unite fuel (union fuel p a b) pairs) k (merge_all (merge rep a b) pairs))
      (omega arith)
      (unite-Implements fuel (suc h) (union fuel p a b) pairs (merge rep a b)
        (union-Implements fuel h p a b rep i (omega (arith, le))) (omega (arith, le)))
