-- ===== src/Dedup/Clusters.antt =====
-- Which items the union-find of dealfinder/dedup.py puts together.
use tutorial_dealfinder.Base.{
  ℕ, ◌+◌, ◌≡◌, ◌↔◌, String, true, List, [], ◌∷◌, nat_beq, nat_eq, pair_eq, contains, All,
  All-weaken, All-contains, All-self, length, if◌then◌else◌, arith, refl, sym, ap, ◌∙◌, Bool-cases,
  inl, inr, subst,
}
use tutorial_dealfinder.Aggregate.{Product}
use tutorial_dealfinder.Dedup.Forest.{find, unite}
use tutorial_dealfinder.Dedup.Forest.Roots.{
  Implements, climb, merge, merge_all, unite-Implements, find_lem,
}
use tutorial_dealfinder.Dedup.{linked_pairs, enumerate, united}

-- The least equivalence that holds of the pairs.
pub data Linked (pairs : List (ℕ × ℕ)) : ℕ → ℕ → Type 0 where
  linked : (a b : ℕ) → contains pairs (a, b) ≡ true → Linked pairs a b
  same : (a : ℕ) → Linked pairs a a
  back : {a b : ℕ} → Linked pairs a b → Linked pairs b a
  through : {a b c : ℕ} → Linked pairs a b → Linked pairs b c → Linked pairs a c

merge-eq : (rep : ℕ → ℕ) (a b x y : ℕ) → rep x ≡ rep y → merge rep a b x ≡ merge rep a b y
merge-eq rep a b x y h = ap (λ r. if nat_beq r (rep a) then rep b else r) h

merge_all-eq :
    (pairs : List (ℕ × ℕ)) (rep : ℕ → ℕ) (x y : ℕ)
    → rep x ≡ rep y
    → merge_all rep pairs x ≡ merge_all rep pairs y
unfolding merge_all
merge_all-eq [] rep x y h = h
merge_all-eq ((a, b) ∷ pairs) rep x y h =
    merge_all-eq pairs (merge rep a b) x y (merge-eq rep a b x y h)

merged-pair : (rep : ℕ → ℕ) (a b : ℕ) → merge rep a b a ≡ merge rep a b b
merged-pair rep a b = ground arith

-- every pair has one representative in the end
merge_all-All :
    (pairs : List (ℕ × ℕ)) (rep : ℕ → ℕ)
    → All (λ c. merge_all rep pairs c.0 ≡ merge_all rep pairs c.1) pairs
unfolding merge_all
merge_all-All [] rep = tt
merge_all-All ((a, b) ∷ pairs) rep = (
  merge_all-eq pairs (merge rep a b) a b (merged-pair rep a b),
  merge_all-All pairs (merge rep a b),
)

-- a label that the pairs agree on is the same of all that is linked
pub Linked-eq {ℓ} :
    {A : Type ℓ} (pairs : List (ℕ × ℕ)) (m : ℕ → A) (x y : ℕ)
    → All (λ c. m c.0 ≡ m c.1) pairs
    → Linked pairs x y
    → m x ≡ m y
Linked-eq pairs m _ _ h (Linked.linked a b k) = All-contains (λ c. m c.0 ≡ m c.1) pairs (a, b) h k
Linked-eq pairs m _ _ h (Linked.same a) = refl
Linked-eq pairs m _ _ h (Linked.back {a} {b} l) = sym (Linked-eq pairs m a b h l)
Linked-eq pairs m _ _ h (Linked.through {a} {b} {c} l k) =
    Linked-eq pairs m a b h l ∙ Linked-eq pairs m b c h k

-- what is united is linked
merge-Linked :
    (pairs : List (ℕ × ℕ)) (rep : ℕ → ℕ) (a b : ℕ)
    → Linked pairs a b
    → ((y : ℕ) → Linked pairs y (rep y))
    → (y : ℕ) → Linked pairs y (merge rep a b y)
merge-Linked pairs rep a b l h y = elim (Bool-cases (nat_beq (rep y) (rep a))) [
  | inl e ↦
      let ya : rep y ≡ rep a = (nat_eq.same_iff (rep y) (rep a)).0 e in
      rw e (
        Linked.through (subst (λ r. Linked pairs y r) ya (h y))
          (Linked.through (Linked.back (h a)) (Linked.through l (h b))))
  | inr e ↦ rw e (h y)
]

merge_all-Linked :
    (pairs : List (ℕ × ℕ)) (todo : List (ℕ × ℕ)) (rep : ℕ → ℕ)
    → All (λ c. Linked pairs c.0 c.1) todo
    → ((y : ℕ) → Linked pairs y (rep y))
    → (y : ℕ) → Linked pairs y (merge_all rep todo y)
unfolding merge_all
merge_all-Linked pairs [] rep t h = h
merge_all-Linked pairs ((a, b) ∷ todo) rep t h =
    merge_all-Linked pairs todo (merge rep a b) t.1 (merge-Linked pairs rep a b t.0 h)

-- the representatives after all unions
abbrev pub rep_of : List (ℕ × ℕ) → ℕ → ℕ
rep_of pairs = merge_all (λ x. x) pairs

pub rep_of-Linked :
    (pairs : List (ℕ × ℕ)) (i j : ℕ) → (rep_of pairs i ≡ rep_of pairs j) ↔ Linked pairs i j
rep_of-Linked pairs i j =
    let all : All (λ c. Linked pairs c.0 c.1) pairs =
      All-weaken (λ c. contains pairs c ≡ true) (λ c. Linked pairs c.0 c.1) pairs
        (λ c h. Linked.linked c.0 c.1 h) (All-self pairs) in
    let to = merge_all-Linked pairs pairs (λ x. x) all (λ y. Linked.same y) in
    (
      λ h. Linked.through (subst (λ r. Linked pairs i r) h (to i)) (Linked.back (to j)),
      λ l. Linked-eq pairs (rep_of pairs) i j (merge_all-All pairs (λ x. x)) l,
    )

module _ (tokens : String → List String) (sim : ℕ → ℕ → ℕ)
    (sim_threshold no_model_threshold : ℕ) where
  -- the pairs of the same product
  abbrev pub pairs_of : List Product → List (ℕ × ℕ)
  pairs_of items = linked_pairs tokens sim sim_threshold no_model_threshold (enumerate 0 items)

  pub united-Implements :
      (items : List Product)
      → Implements
          (united tokens sim sim_threshold no_model_threshold items)
          (length (pairs_of items))
          (rep_of (pairs_of items))
  unfolding united climb
  united-Implements items =
      let pairs = pairs_of items in
      let zero_plus : 0 + length pairs ≡ length pairs = omega arith in
      subst (λ k. Implements (unite (length pairs) (λ x. x) pairs) k (rep_of pairs)) zero_plus
        (unite-Implements (length pairs) 0 (λ x. x) pairs (λ x. x) (λ y. (refl, refl))
          (omega arith))

  -- Two items end under one root exactly where the least equivalence that holds of the pairs found to
  -- be the same product holds of them, in whatever order the pairs were united and the paths halved;
  -- as many steps as there are such pairs are enough for `find`.
  pub find-Linked :
      (items : List Product) (i j : ℕ)
      → let pairs = pairs_of items in
        let parent = united tokens sim sim_threshold no_model_threshold items in
        ((find (length pairs) parent i).1 ≡ (find (length pairs) parent j).1) ↔ Linked pairs i j
  find-Linked items i j =
      let pairs = pairs_of items in
      let parent = united tokens sim sim_threshold no_model_threshold items in
      let implements = united-Implements items in
      let at_i =
        (find_lem (length pairs) (length pairs) parent i (rep_of pairs) implements
          (omega arith)).0 in
      let at_j =
        (find_lem (length pairs) (length pairs) parent j (rep_of pairs) implements
          (omega arith)).0 in
      rw (at_i, at_j) (rep_of-Linked pairs i j)
