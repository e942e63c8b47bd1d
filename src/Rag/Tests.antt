-- ===== src/Rag/Tests.antt =====
-- Runs of dealfinder/rag.py, dealfinder/orchestrate.py and dealfinder/agentic_rag.py, and their theorems
-- at concrete inputs.
use tutorial_dealfinder.Base.{
  ℕ, ◌≤◌, ◌≡◌, ◌⊎◌, ◌==◌, String, true, false, none, some, List, [], ◌∷◌, map, keep, any, all,
  count, contains, leb, string_eq, All, lookup, insert, length, refl, if◌then◌else◌, join, concat,
  take,
}
use tutorial_dealfinder.Dealscore.{
  deal, suspicious, nil, verdict, label_of, median_signal, residual_fraction,
}
use tutorial_dealfinder.Rag.{
  Product, RetrievedItem, Index, retrieve, retrieved_item, category_models, by_category,
  verdict_for, by_id, known_rows, retrieve_pgvector,
}
use tutorial_dealfinder.Rag.Grounding.{Texts}
use tutorial_dealfinder.Rag.Answers.{
  Llm, hero_of, picked, extract, best_part, runner_part, trap_part, answer, deterministic_answer,
}
use tutorial_dealfinder.Rag.Answers.Picks.{IsModels, IsPicked, answer_picks}
use tutorial_dealfinder.Rag.Review.{recommend, review, orchestrate, snapshot}
use tutorial_dealfinder.Rag.Review.Approved.{Sound, orchestrate_lem}
use tutorial_dealfinder.Rag.Agentic.{
  Words, top_not_deal, sufficiency, pairs, phrases_of, count_phrases, capability_lexicon,
  strip_vague, is_covered, expand, category_of, reformulate, agentic_answer,
}
use tutorial_dealfinder.Rag.Agentic.Trajectory.{Judged, Ended, Exhausted, agentic_answer_lem}

program : Unit {0}
unfolding retrieve retrieved_item category_models by_category verdict_for by_id known_rows
    retrieve_pgvector verdict label_of median_signal residual_fraction hero_of picked extract
    best_part runner_part trap_part deterministic_answer keep join concat sufficiency pairs
    phrases_of count_phrases count contains expand is_covered all any category_of reformulate lookup
    insert
program = tt

abbrev qc45 : Product
qc45 = record {
  id = "qc45";
  title = "Bose QC45";
  category = "audio";
  price = 4600;
  source = "demo";
}

abbrev q20i : Product
q20i = record {
  id = "q20i";
  title = "Anker Q20i";
  category = "audio";
  price = 4499;
  source = "demo";
}

abbrev catalog : List Product
catalog = qc45 ∷ q20i ∷ []

abbrev model_price : Product → ℕ
model_price p = if p.id == "qc45" then 28515 else 10833

-- the catalog in its order; the median is $162.97, and a model is fitted to any two products
abbrev index : Index
index = record {
  search_catalog = λ q ps m k. map (λ p. (p, nil)) (take k ps);
  semantic_search = λ q k. ("q20i", nil) ∷ ("gone", nil) ∷ [];
  fit = λ ps p. model_price p;
  round_part = λ f. f;
  reason_of = λ v. "";
  medians = ("qc45", 16297) ∷ ("q20i", 16297) ∷ [];
}

abbrev texts : Texts
texts = record {
  number = λ n. "1";
  money = λ n. if leb n 4499 then "44.99" else "46.00";
  percent = λ f. "70";
  norm = λ s. s;
  prices_in = λ s. [];
  codes_in = λ s. [];
  words = λ s. s ∷ [];
  strip = λ s. s;
  lower = λ s. s;
  before_dash = λ s. s;
}

abbrev offline : Llm
offline = record { available = false; chat = λ s u. none }

abbrev failing : Llm
failing = record { available = true; chat = λ s u. none }

-- without three products of a category there is no model, and both are deals
verdicts : map (λ it. it.verdict) (retrieve index catalog "headphones" 5 false) ≡ deal ∷ deal ∷ []
unfolding program
verdicts = refl

from_store : map (λ it. it.id) (retrieve index catalog "headphones" 5 true) ≡ "q20i" ∷ []
unfolding program
from_store = refl

abbrev three : List Product
three = qc45 ∷ q20i ∷ record q20i { id = "other" } ∷ []

-- the third product makes a model, which finds the trap; the answer leads with the deal behind it
sources :
    (deterministic_answer texts index three "headphones" 5 false).sources
    ≡ "q20i" ∷ "other" ∷ "qc45" ∷ []
unfolding program
sources = refl

gate : sufficiency (retrieve index three "headphones" 5 false) ≡ (false, top_not_deal suspicious)
unfolding program
gate = refl

answer_picks_example :
    let items = retrieve index three "headphones" 5 false in
    let a = answer texts index three "headphones" 5 failing false in
    IsModels texts "headphones" items failing a ⊎ IsPicked texts "headphones" items failing a
answer_picks_example = answer_picks texts index three "headphones" 5 failing false

abbrev lead_title : String → String
lead_title text = "Anker Q20i"

orchestrate_lem_example :
    let result = orchestrate texts lead_title (λ s. s) index three "headphones" 5 failing in
    let items = retrieve index three "headphones" 5 snapshot in
    let draft = recommend texts lead_title (λ s. s) index three "headphones" 5 failing in
    (result.approved ≡ true → Sound texts lead_title (λ s. s) result.answer items)
    × (((result.revised ≡ false) × (result.answer ≡ draft.answer) × (result.approved ≡ true))
        ⊎ ((result.revised ≡ true)
            × (result.answer
                ≡ (deterministic_answer texts index three "headphones" 5 snapshot).answer)
            × ((review texts lead_title (λ s. s) index three "headphones" draft 5).approved
                ≡ false)))
orchestrate_lem_example =
    orchestrate_lem texts lead_title (λ s. s) index three "headphones" 5 failing

abbrev split : String → List String
split s = if s == "noise cancelling" then "noise" ∷ "cancelling" ∷ [] else s ∷ []

abbrev w : Words
w = record {
  tokens = λ t. "noise" ∷ "cancelling" ∷ "headphones" ∷ [];
  split = split;
  strip = λ s. s;
  lower = λ s. s;
}

-- the phrase that was tried is passed over
phrase :
    (expand w "earbuds" ("noise cancelling" ∷ []) ("noise cancelling" ∷ "over ear" ∷ [])).1
    ≡ some "over ear"
unfolding program
phrase = refl

agentic_answer_lem_example :
    let r = agentic_answer w texts index three offline "earbuds" 3 three in
    let search : String → List RetrievedItem = λ q. retrieve index three q 5 false in
    All Judged r.hops
    × (length r.hops ≤ 3)
    × ((last : String) × (r.answer ≡ (answer texts index three last 5 offline false).answer)
        × (Ended r.hops last
            ⊎ Exhausted w search
                (capability_lexicon w three)
                (w.lower (strip_vague w "earbuds"))
                3
                "earbuds"
                r.hops
                last))
agentic_answer_lem_example = agentic_answer_lem w texts index three offline "earbuds" 3 three
