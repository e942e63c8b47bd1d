-- ===== src/Compliance/Tests.antt =====
-- Runs of dealfinder/compliance.py, and the theorems at concrete inputs.
use tutorial_dealfinder.Base.{
  string_eq, leb, ◌||◌, ◌++◌, ◌==◌, keep, Bool, length, ℕ, ◌≤◌, String, ◌≡◌, refl, List, [], ◌∷◌,
  arith, ltb, count, lookup, insert, none,
}
use tutorial_dealfinder.Compliance.Window.{SlidingWindow, init, evict, allow, remaining}
use tutorial_dealfinder.Compliance.Window.Bound.{granted, within, granted_bound}
use tutorial_dealfinder.Compliance.Window.Valid.{IsValid, init-IsValid}
use tutorial_dealfinder.Compliance.Subjects.{Request, adding, deleting}
use tutorial_dealfinder.Compliance.Subjects.Erasure.{added_since, kept}
use tutorial_dealfinder.Compliance.Abuse as Abuse
use tutorial_dealfinder.Compliance.Abuse.Recent.{live}
use tutorial_dealfinder.Compliance.Abuse.Signals.{Call, observe_all, calls_of, observe_lem}

program : Unit {0}
unfolding init evict allow remaining granted lookup insert count
program = tt

-- at most 2 requests in 10 ticks
abbrev two_in_ten : SlidingWindow
two_in_ten = record { limit = 2; window = 10; events = [] }

abbrev calls : List (String × ℕ)
calls = ("ann", 1) ∷ ("bob", 1) ∷ ("ann", 2) ∷ ("ann", 3) ∷ ("ann", 11) ∷ ("ann", 11) ∷ []

ann_granted : granted "ann" two_in_ten calls ≡ 1 ∷ 2 ∷ 11 ∷ []
unfolding program
ann_granted = refl

limit_zero : init 0 10 ≡ none
unfolding program
limit_zero = refl

two_in_ten-IsValid : IsValid two_in_ten 0
unfolding program
two_in_ten-IsValid = init-IsValid 2 10 0 two_in_ten refl

granted_bound_example : count (within 10 1) (granted "ann" two_in_ten calls) ≤ 2
granted_bound_example = granted_bound "ann" two_in_ten calls 1 refl (omega arith)

abbrev requests : List (Request ℕ)
requests = adding "ann" 1 ∷ adding "bob" 2 ∷ deleting "ann" ∷ adding "ann" 3 ∷ []

shown_after_erasure : added_since "ann" [] requests ≡ 3 ∷ []
unfolding added_since kept
shown_after_erasure = refl

-- a text is found where it is the whole text
abbrev whole : String → String → Bool
whole p s = p == s

abbrev abuse_calls : List Call
abuse_calls = ("ann", ("shoes", 1)) ∷ ("ann", ("system prompt", 2)) ∷ ("bob", ("tv", 2)) ∷ []

observe_lem_example :
    let d0 = Abuse.init 10 2 2 in
    let signal =
      (Abuse.observe whole (observe_all whole d0 abuse_calls) "ann" "system prompt" 11).1 in
    let recent =
      keep
        (live 10 11)
        (calls_of whole "ann" (abuse_calls ++ ("ann", ("system prompt", 11)) ∷ [])) in
    (signal.reasons ≡ Abuse.reasons_of d0 recent)
    × (signal.flagged ≡ (ltb 2 (length recent) || leb 2 (count (λ e. e.1) recent)))
observe_lem_example =
    observe_lem whole 10 2 2 abuse_calls "ann" "system prompt" 11
      (omega arith, (omega arith, (omega arith, (omega arith, tt))))
