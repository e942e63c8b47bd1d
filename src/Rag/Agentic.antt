-- ===== src/Rag/Agentic.antt =====
-- dealfinder/agentic_rag.py: retrieval that is judged and repeated. The tokens of a title, the
-- counter's order of a category's phrases and the case of words are parameters.
pub mod Trajectory
pub mod Phrases
use tutorial_dealfinder.Base.{
  ℕ, zero, suc, ◌+◌, String, Bool, true, false, not, ◌&&◌, ◌||◌, ◌==◌, Option, none, some, List, [],
  ◌∷◌, ◌++◌, map, keep, count, all, any, leb, ltb, nat_beq, contains, string_eq, Dict, lookup,
  insert, get_or, join, concat, if◌then◌else◌, append_once, length, sort, take,
}
use tutorial_dealfinder.Dealscore.{Label, deal, suspicious, fair, overpriced}
use tutorial_dealfinder.Rag.{Product, RetrievedItem, Index, retrieve}
use tutorial_dealfinder.Rag.Grounding.{Texts}
use tutorial_dealfinder.Rag.Answers.{RagAnswer, Llm, is_deal, is_trap, answer}

-- `_VAGUE`, `_CAPABILITY_KEYS`, `_STRONG`
abbrev pub vague : List String
vague = "cheap" ∷ "good" ∷ "best" ∷ "top" ∷ "nice" ∷ "affordable" ∷ "budget" ∷ []

abbrev pub capability_keys : List String
capability_keys =
    "noise" ∷ "cancelling" ∷ "canceling" ∷ "wireless" ∷ "waterproof" ∷ "mechanical" ∷ "gaming"
    ∷ "portable" ∷ "hybrid" ∷ "active" ∷ "over" ∷ "true" ∷ []

abbrev pub strong : List String
strong =
    "noise" ∷ "cancelling" ∷ "canceling" ∷ "waterproof" ∷ "mechanical" ∷ "gaming" ∷ "hybrid"
    ∷ "active" ∷ []

-- The gate's reason.
pub data Reason : Type 0 where
  no_items : Reason
  top_not_deal : Label → Reason
  too_few : ℕ → ℕ → Reason
  too_many_traps good_evidence : ℕ → ℕ → Reason

pub record Hop : Type 0 where
  pub query : String
  pub sufficient : Bool
  pub reason : Reason
  pub verdicts : List Label

pub record AgenticAnswer : Type 0 where
  pub answer : String
  pub grounded : Bool
  pub hops : List Hop
  pub sources : List String
  pub used_llm : Bool

-- `sufficiency`
unfoldable pub sufficiency : List RetrievedItem → Bool × Reason
sufficiency [] = (false, no_items)
sufficiency (it ∷ items) =
    let deals = count is_deal (it ∷ items) in
    let traps = count is_trap (it ∷ items) in
    if not (is_deal it)
    then (false, top_not_deal it.verdict)
    else if ltb deals 2
    then (false, too_few deals (length (it ∷ items)))
    else if leb deals traps
    then (false, too_many_traps traps deals)
    else (true, good_evidence deals traps)

-- `zip(toks, toks[1:])`
unfoldable pub pairs : List String → List (String × String)
pairs [] = []
pairs (a ∷ []) = []
pairs (a ∷ b ∷ toks) = (a, b) ∷ pairs (b ∷ toks)

-- the pairs that name a capability, as phrases
unfoldable pub phrases_of : List (String × String) → List String
phrases_of [] = []
phrases_of ((a, b) ∷ toks) =
    let rest = phrases_of toks in
    if contains capability_keys a || contains capability_keys b
    then concat (a ∷ " " ∷ b ∷ []) ∷ rest
    else rest

-- `counter[phrase] += 1` over the phrases
unfoldable pub count_phrases : Dict String ℕ → List String → Dict String ℕ
count_phrases counter [] = counter
count_phrases counter (phrase ∷ phrases) =
    count_phrases (insert counter phrase (get_or (lookup counter phrase) 0 + 1)) phrases

-- What the code takes from regular expressions and `str`.
pub record Words : Type 0 where
  -- the lower-case letter runs of a title
  pub tokens : String → List String
  pub split : String → List String
  pub strip : String → String
  pub lower : String → String

-- `tuple(a) < tuple(b)` of the rank (strong, frequency)
abbrev pub rank_lt : Bool × ℕ → Bool × ℕ → Bool
rank_lt (false, f) (true, g) = true
rank_lt (true, f) (false, g) = false
rank_lt (false, f) (false, g) = ltb f g
rank_lt (true, f) (true, g) = ltb f g

-- `" ".join(kept) if kept else query`
unfoldable pub join_or : List String → String → String
join_or [] query = query
join_or (k ∷ kept) query = join " " (k ∷ kept)

-- `items[0].category if items else "other"`
unfoldable pub category_of : List RetrievedItem → String
category_of [] = "other"
category_of (it ∷ items) = it.category

-- `if phrase is not None: tried.add(phrase)`
unfoldable pub try_phrase : List String → Option String → List String
try_phrase tried none = tried
try_phrase tried (some phrase) = append_once tried phrase

module _ (w : Words) where
  -- the loop over the products of `_capability_lexicon`
  unfoldable pub count_capabilities :
      Dict String (Dict String ℕ) → List Product → Dict String (Dict String ℕ)
  count_capabilities per_cat [] = per_cat
  count_capabilities per_cat (p ∷ products) =
      let cat = if p.category == "" then "other" else p.category in
      let phrases = phrases_of (pairs (w.tokens p.title)) in
      count_capabilities (add_phrases per_cat cat phrases) products
    where
      -- a category enters with its first phrase
      add_phrases : Dict String (Dict String ℕ) → String → List String → Dict String (Dict String ℕ)
      add_phrases per_cat cat [] = per_cat
      add_phrases per_cat cat (ph ∷ phrases) =
          insert per_cat cat (count_phrases (get_or (lookup per_cat cat) []) (ph ∷ phrases))

  -- `rank`
  unfoldable pub rank : String × ℕ → Bool × ℕ
  rank (phrase, freq) = (any (λ x. contains strong x) (w.split phrase), freq)

  -- the eight best phrases, in `sorted(..., reverse=True)`, which keeps the order of equals
  unfoldable pub best_phrases : Dict String ℕ → List String
  best_phrases counter =
      map (λ x. x.0) (take 8 (sort (λ x y. not (rank_lt (rank x) (rank y))) counter))

  -- `_capability_lexicon`
  unfoldable pub capability_lexicon : List Product → Dict String (List String)
  capability_lexicon products = map (λ x. (x.0, best_phrases x.1)) (count_capabilities [] products)

  -- `_strip_vague`
  unfoldable pub strip_vague : String → String
  strip_vague query = join_or (keep (λ x. not (contains vague (w.lower x))) (w.split query)) query

  -- `set(phrase.split()).issubset(base_words)`
  unfoldable pub is_covered : List String → String → Bool
  is_covered base_words phrase = all (λ x. contains base_words x) (w.split phrase)

  -- the loop over the lexicon of `reformulate`
  unfoldable pub expand : String → List String → List String → String × Option String
  expand base tried [] = (w.strip (concat (base ∷ " deal" ∷ [])), none)
  expand base tried (phrase ∷ phrases) =
      let base_words = w.split base in
      let rest = expand base tried phrases in
      if contains tried phrase || is_covered base_words phrase
      then rest
      else (let novel = join " " (keep (λ x. not (contains base_words x)) (w.split phrase)) in
          (w.strip (concat (base ∷ " " ∷ novel ∷ " deal" ∷ [])), some phrase))

  -- `reformulate`
  unfoldable pub reformulate :
      String → List RetrievedItem → Dict String (List String) → List String → String × Option String
  reformulate base items lexicon tried =
      expand base tried (get_or (lookup lexicon (category_of items)) [])

  module _ (search : String → List RetrievedItem) (lexicon : Dict String (List String))
      (base : String) where
    -- the loop of `agentic_answer` with `n` hops left: the hops, the phrases tried, the last query
    unfoldable pub run_hops : ℕ → String → List String → List Hop × List String × String
    run_hops zero current tried = ([], tried, current)
    run_hops (suc n) current tried =
        let items = search current in
        let (ok, reason) = sufficiency items in
        let hop : Hop = record {
          query = current;
          sufficient = ok;
          reason = reason;
          verdicts = map (λ it. it.verdict) items;
        } in
        let (next, phrase) = reformulate base items lexicon tried in
        let (hops, tried', last) = run_hops n next (try_phrase tried phrase) in
        if ok then (hop ∷ [], tried, current) else (hop ∷ hops, tried', last)

  -- `agentic_answer`, over the products it is given; the answer is always made over the catalog
  unfoldable pub agentic_answer :
      Texts → Index → List Product → Llm → String → ℕ → List Product → AgenticAnswer
  agentic_answer texts index catalog client query max_hops products =
      let base = w.lower (strip_vague query) in
      let (hops, tried, current) =
        run_hops (λ q. retrieve index products q 5 false) (capability_lexicon products) base
          max_hops query [] in
      let final = answer texts index catalog current 5 client false in
      record {
        answer = final.answer;
        grounded = final.grounded;
        hops = hops;
        sources = final.sources;
        used_llm = final.used_llm;
      }
