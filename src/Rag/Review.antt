-- ===== src/Rag/Review.antt =====
-- dealfinder/orchestrate.py: the writer, the reviewer, and the revision. The regular expressions of
-- the lead pick and of the white space are parameters; an issue is a constructor with what its text
-- is made of.
pub mod Approved
use tutorial_dealfinder.Base.{
  ℕ, String, Bool, true, false, not, ◌&&◌, ◌||◌, ◌==◌, Option, none, some, List, [], ◌∷◌, ◌++◌,
  keep, Dict, insert, string_eq, occurs, if◌then◌else◌,
}
use tutorial_dealfinder.Dealscore.{Label, deal, suspicious, fair, overpriced}
use tutorial_dealfinder.Rag.{Product, RetrievedItem, Index, retrieve}
use tutorial_dealfinder.Rag.Grounding.{Texts, is_grounded}
use tutorial_dealfinder.Rag.Answers.{RagAnswer, Llm, is_deal, is_trap, answer, deterministic_answer}

pub data Issue : Type 0 where
  ungrounded no_lead : Issue
  lead_not_deal : Label → String → Issue
  trap_unwarned : String → Issue

pub record Checks : Type 0 where
  pub grounded : Bool
  pub lead_is_a_deal : Bool
  pub trap_warned : Bool

pub record Review : Type 0 where
  pub approved : Bool
  pub issues : List Issue
  pub checks : Checks

pub record Orchestrated : Type 0 where
  pub answer : String
  pub approved : Bool
  pub review : Review
  pub revised : Bool
  pub used_llm : Bool

-- `_SNAPSHOT`
abbrev pub snapshot : Bool
snapshot = false

-- `"suspicious" in text or "avoid" in text`, of the text in lower case
unfoldable pub warns : String → Bool
warns text = occurs "suspicious" text || occurs "avoid" text

-- `next((it for t, it in by_title.items() if lead and lead in t), None)`
unfoldable pub lead_item : String → Dict String RetrievedItem → Option RetrievedItem
lead_item lead [] = none
lead_item lead ((t, it) ∷ table) =
    if not (lead == "") && occurs lead t then some it else lead_item lead table

-- the check of the lead pick, and its issue
unfoldable pub check_lead : Option RetrievedItem → Bool × List Issue
check_lead none = (false, no_lead ∷ [])
check_lead (some it) =
    (is_deal it, if is_deal it then [] else lead_not_deal it.verdict it.title ∷ [])

-- the check of the warning, of the traps, and its issue
unfoldable pub check_traps : List RetrievedItem → Bool → Bool × List Issue
check_traps [] warned = (true, [])
check_traps (it ∷ traps) warned = (warned, if warned then [] else trap_unwarned it.title ∷ [])

-- `all(checks.values())`
abbrev pub all_checks : Checks → Bool
all_checks c = c.grounded && c.lead_is_a_deal && c.trap_warned

module _ (texts : Texts) (lead_title : String → String) (norm : String → String) where
  -- `{_norm(it.title): it for it in items}`
  unfoldable pub by_title :
      Dict String RetrievedItem → List RetrievedItem → Dict String RetrievedItem
  by_title table [] = table
  by_title table (it ∷ items) = by_title (insert table (norm it.title) it) items

  -- the lead pick of a text among the items
  abbrev pub lead_of : String → List RetrievedItem → Option RetrievedItem
  lead_of text items = lead_item (norm (lead_title text)) (by_title [] items)

  -- `review`, once the reviewer has retrieved
  unfoldable pub review_items : String → List RetrievedItem → Review
  review_items text items =
      let grounded = is_grounded texts text items in
      let (lead_ok, lead_issues) = check_lead (lead_of text items) in
      let (warned, trap_issues) = check_traps (keep is_trap items) (warns (texts.lower text)) in
      let checks : Checks = record {
        grounded = grounded;
        lead_is_a_deal = lead_ok;
        trap_warned = warned;
      } in
      record {
        approved = all_checks checks;
        issues = (if grounded then [] else ungrounded ∷ []) ++ lead_issues ++ trap_issues;
        checks = checks;
      }

  module _ (index : Index) (catalog : List Product) where
    -- `recommend`
    unfoldable pub recommend : String → ℕ → Llm → RagAnswer
    recommend query k llm = answer texts index catalog query k llm snapshot

    -- `review`
    unfoldable pub review : String → RagAnswer → ℕ → Review
    review query a k = review_items a.answer (retrieve index catalog query k snapshot)

    -- the revision of `orchestrate`
    unfoldable pub revise : String → ℕ → Orchestrated
    revise query k =
        let fixed = deterministic_answer texts index catalog query k snapshot in
        let r2 = review query fixed k in
        record {
          answer = fixed.answer;
          approved = r2.approved;
          review = r2;
          revised = true;
          used_llm = false;
        }

    -- `orchestrate`
    unfoldable pub orchestrate : String → ℕ → Llm → Orchestrated
    orchestrate query k llm =
        let draft = recommend query k llm in
        let r = review query draft k in
        if r.approved
        then record {
          answer = draft.answer;
          approved = true;
          review = r;
          revised = false;
          used_llm = draft.used_llm;
        }
        else revise query k
