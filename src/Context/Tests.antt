-- ===== src/Context/Tests.antt =====
-- Runs of dealfinder/context.py, and the theorems at concrete inputs.
use tutorial_dealfinder.Context.History.{user_intent}
use tutorial_dealfinder.Base.{
  List, starts_with, occurs, after_colon, String, ◌<◌, ◌≤◌, ℕ, ◌+◌, ◌≤◌, ◌<◌, ◌≡◌, Bool, [], ◌∷◌,
  All, count, refl,
}
use tutorial_dealfinder.Context.{pack_from, pack_deals, deal_out, reversed, lost_in_the_middle}
use tutorial_dealfinder.Context.Packing.{total, pack_deals_lem}

-- a deal is its number of tokens
abbrev tokens_of : ℕ → ℕ
tokens_of n = n

-- a cheap deal is packed after a dear one was dropped
packed :
    pack_deals tokens_of (5 ∷ 9 ∷ 4 ∷ []) 10
    ≡ record { included = 5 ∷ 4 ∷ []; dropped = 9 ∷ []; tokens = 9; budget = 10 }
unfolding pack_deals pack_from
packed = refl

ordered : lost_in_the_middle {Item = ℕ} (1 ∷ 2 ∷ 3 ∷ 4 ∷ 5 ∷ []) ≡ 1 ∷ 3 ∷ 5 ∷ 4 ∷ 2 ∷ []
unfolding lost_in_the_middle deal_out reversed
ordered = refl

pack_deals_lem_example :
    let p = pack_deals tokens_of (5 ∷ 9 ∷ 4 ∷ []) 10 in
    (p.tokens ≡ total tokens_of p.included)
    × (p.tokens ≤ 10)
    × All (λ d. 10 < p.tokens + tokens_of d) p.dropped
    × ((q : ℕ → Bool) → count q p.included + count q p.dropped ≡ count q (5 ∷ 9 ∷ 4 ∷ []))
pack_deals_lem_example = pack_deals_lem tokens_of (5 ∷ 9 ∷ 4 ∷ []) 10

abbrev turns : List String
turns = "user: tvs" ∷ "assistant: here" ∷ "user: cheaper" ∷ []

abbrev kept : ℕ
kept = 1

abbrev as_is : String → String
as_is text = text

intent : user_intent as_is as_is as_is "user: tvs" ≡ " tvs"
unfolding user_intent starts_with occurs after_colon
intent = refl
