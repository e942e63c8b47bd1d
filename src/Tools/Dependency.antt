-- ===== src/Tools/Dependency.antt =====
-- What `check_dependency` of dealfinder/tool_trust.py flags.
use tutorial_dealfinder.Base.{
  List, [], ◌∷◌, ◌≡◌, ◌≢◌, subst, sym, arith, String, string_eq, Bool-cases, true, false, inl, inr,
  ◌⊎◌, Option, none, some, contains, All, nat_beq, nat_beq_iff,
}
use tutorial_dealfinder.Tools.{edit_distance, near_length, lookalike, check_dependency}
use tutorial_dealfinder.Tools.Edits.{Edits-length}
use tutorial_dealfinder.Tools.Distance.{edit_distance_lem}

-- the test on the lengths passes over no package at distance one
near_lem : (name good : String) → edit_distance name good ≡ 1 → near_length name good ≡ true
unfolding near_length
near_lem name good h = ground (arith, h, Edits-length (edit_distance_lem name good).0)

-- what an answer of `check_dependency` means
Verdict : String → List String → Option String → Type 0
Verdict name known none = All (λ good. edit_distance name good ≢ 1) known
Verdict name known (some good) = (contains known good ≡ true) × (edit_distance name good ≡ 1)

Verdict-skip :
    (name good : String) (known : List String) (answer : Option String)
    → edit_distance name good ≢ 1
    → Verdict name known answer
    → Verdict name (good ∷ known) answer
unfolding Verdict contains
Verdict-skip name good known none h v = (h, v)
Verdict-skip name good known (some other) h v = (ground (arith, v.0), v.1)

lookalike_lem : (name : String) (known : List String) → Verdict name known (lookalike name known)
unfolding lookalike Verdict contains
lookalike_lem name [] = tt
lookalike_lem name (good ∷ known) = elim (Bool-cases (nat_beq (edit_distance name good) 1)) [
  | inl e ↦
      let one = (nat_beq_iff (edit_distance name good) 1).0 e in
      rw (near_lem name good one, one) (ground (arith, string_eq.same_iff good good), one)
  | inr e ↦
      let next : lookalike name (good ∷ known) ≡ lookalike name known = ground (arith, e) in
      subst (λ v. Verdict name (good ∷ known) v) (sym next)
        (Verdict-skip name good known (lookalike name known) (ground (arith, e))
          (lookalike_lem name known))
]

-- `check_dependency` answers with a known package exactly one edit away from the name, which is then
-- not known itself; where it answers with nothing, the name is known or no known package is exactly
-- one edit away.
check_dependency_lem :
    (name : String) (known : List String)
    → ((good : String)
        → check_dependency name known ≡ some good
        → (contains known name ≡ false)
          × (contains known good ≡ true)
          × (edit_distance name good ≡ 1))
      × (check_dependency name known ≡ none
          → (contains known name ≡ true) ⊎ All (λ good. edit_distance name good ≢ 1) known)
unfolding check_dependency Verdict
check_dependency_lem name known = elim (Bool-cases (contains known name)) [
  | inl e ↦ (λ good h. ground (arith, h, e), λ h. inl e)
  | inr e ↦ (
    λ good h.
        let found : lookalike name known ≡ some good = ground (arith, h, e) in
        let (listed, near) = subst (Verdict name known) found (lookalike_lem name known) in
        (e, listed, near),
    λ h.
        let found : lookalike name known ≡ none = ground (arith, h, e) in
        inr (subst (Verdict name known) found (lookalike_lem name known)),
  )
]
