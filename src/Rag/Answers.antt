-- ===== src/Rag/Answers.antt =====
-- The answers of dealfinder/rag.py: the extractive one, the language model's, and the choice between
-- them. The language model is a parameter.
pub mod Sources
pub mod Picks
use tutorial_dealfinder.Base.{
  ℕ, String, Bool, true, false, not, ◌&&◌, ◌||◌, ◌==◌, Option, none, some, List, [], ◌∷◌, ◌++◌, map,
  keep, contains, string_eq, join, concat, occurs, if◌then◌else◌, take, get_or,
}
use tutorial_dealfinder.Dealscore.{Label, deal, suspicious, fair, overpriced}
use tutorial_dealfinder.Rag.{Product, RetrievedItem, Index, retrieve}
use tutorial_dealfinder.Rag.Grounding.{Texts, build_context, is_grounded}

pub record RagAnswer : Type 0 where
  pub answer : String
  pub sources : List String
  pub grounded : Bool
  pub used_llm : Bool

-- A client for a language model: whether it is available, and what a chat returns, the system's and
-- the user's message given: none is an error, and a reply may be None.
pub record Llm : Type 0 where
  pub available : Bool
  pub chat : String → String → Option (Option String)

-- `it.verdict == "deal"`, `it.verdict == "suspicious"`
abbrev pub is_deal : RetrievedItem → Bool
is_deal it = elim it.verdict [ deal ↦ true | _ ↦ false ]

abbrev pub is_trap : RetrievedItem → Bool
is_trap it = elim it.verdict [ suspicious ↦ true | _ ↦ false ]

-- `deals[0] if deals else items[0]`
unfoldable pub hero_of : List RetrievedItem → RetrievedItem → RetrievedItem
hero_of [] it = it
hero_of (d ∷ deals) it = d

-- the first of a list, as a list
abbrev pub first : List RetrievedItem → List RetrievedItem
first [] = []
first (it ∷ items) = it ∷ []

-- `_SYSTEM`
abbrev pub system : String
system =
    "You are DealFinder's shopping assistant. Answer ONLY using the numbered listings provided. Cite every item you mention by its exact title and price. If none of the listings qualify, say so plainly. Do NOT invent products, prices, brands, or specs that are not in the listings."

-- `used`, or all ids where it is empty
unfoldable pub used_or_all : List String → List RetrievedItem → List String
used_or_all [] items = map (λ it. it.id) items
used_or_all (u ∷ used) items = u ∷ used

module _ (texts : Texts) where
  -- the sentence about the best pick
  unfoldable pub best_part : RetrievedItem → String
  best_part hero = concat (
      "Best value: "
      ∷ hero.title
      ∷ " at $"
      ∷ texts.money hero.price
      ∷ " ("
      ∷ texts.percent hero.median_part
      ∷ "% under the same-query median)."
      ∷ [])

  unfoldable pub runner_part : RetrievedItem → String
  runner_part r = concat ("Also consider: " ∷ r.title ∷ " at $" ∷ texts.money r.price ∷ "." ∷ [])

  unfoldable pub trap_part : RetrievedItem → String
  trap_part s = concat (
      "Avoid: "
      ∷ s.title
      ∷ " at $"
      ∷ texts.money s.price
      ∷ " — flagged SUSPICIOUS: it reads "
      ∷ texts.percent s.median_part
      ∷ "% under median but sits far below its modeled fair price, the signature of a refurb/mislisting rather than a real bargain."
      ∷ [])

  -- the answer from the picks
  unfoldable pub picked :
      RetrievedItem → List RetrievedItem → List RetrievedItem → List RetrievedItem → RagAnswer
  picked hero runner trap items =
      let text = join " " (best_part hero ∷ map runner_part runner ++ map trap_part trap) in
      record {
        answer = text;
        sources = hero.id ∷ map (λ it. it.id) runner ++ map (λ it. it.id) trap;
        grounded = is_grounded texts text items;
        used_llm = false;
      }

  -- `_deterministic_answer`
  unfoldable pub extract : List RetrievedItem → RagAnswer
  extract [] = record {
    answer = "No matching listings were retrieved, so there's nothing to recommend.";
    sources = [];
    grounded = true;
    used_llm = false;
  }
  extract (it ∷ items) =
      let hero = hero_of (keep is_deal (it ∷ items)) it in
      picked hero (first (keep (λ x. not (x.id == hero.id) && not (is_trap x)) (it ∷ items)))
        (first (keep is_trap (it ∷ items))) (it ∷ items)

  -- `_title_cited`
  unfoldable pub title_cited : RetrievedItem → String → Bool
  title_cited it text =
      let head = join " " (take 3 (texts.words (texts.norm it.title))) in
      (not (head == "") && occurs head (texts.norm text))
      || contains (texts.prices_in text) (texts.money it.price)

  -- the ids whose title the text cites
  unfoldable pub cited_ids : List RetrievedItem → String → List String
  cited_ids items text =
      map (λ it. it.id)
        (keep (λ it. not (texts.norm (texts.before_dash it.title) == "") && title_cited it text)
          items)

  -- the user's message
  unfoldable pub question : String → List RetrievedItem → String
  question query items = concat (
      "Question: "
      ∷ query
      ∷ "\n\nListings (the ONLY evidence you may use):\n"
      ∷ build_context texts items
      ∷ "\n\nRecommend the best pick, a runner-up, and warn about any SUSPICIOUS trap. Cite each by title and price."
      ∷ [])

  -- `_llm_answer`, of the model's reply
  unfoldable pub llm_answer : List RetrievedItem → Option String → RagAnswer
  llm_answer items reply =
      let text = texts.strip (get_or reply "") in
      record {
        answer = text;
        sources = used_or_all (cited_ids items text) items;
        grounded = is_grounded texts text items;
        used_llm = true;
      }

  -- `answer`, once the items are retrieved
  unfoldable pub answer_from : String → List RetrievedItem → Llm → RagAnswer
  answer_from query items client =
      if client.available
      then (elim (client.chat system (question query items)) [
        | some reply ↦ llm_answer items reply
        | none ↦ extract items
      ])
      else extract items

  module _ (index : Index) where
    -- `answer`; the client is the given one or the configured one
    unfoldable pub answer : List Product → String → ℕ → Llm → Bool → RagAnswer
    answer catalog query k client use_db =
        answer_from query (retrieve index catalog query k use_db) client

    -- `deterministic_answer`
    unfoldable pub deterministic_answer : List Product → String → ℕ → Bool → RagAnswer
    deterministic_answer catalog query k use_db = extract (retrieve index catalog query k use_db)
