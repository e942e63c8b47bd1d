-- ===== src/Context.antt =====
-- dealfinder/context.py: packing retrieved deals into a token budget, and the order of the packed
-- deals. The token count of a deal's line, which a tokenizer gives, is a parameter.
pub mod Packing
pub mod Ordering
pub mod History
mod Tests
use tutorial_dealfinder.Base.{
  ℕ, suc, ◌+◌, ◌%◌, Bool, true, false, List, [], ◌∷◌, ◌++◌, leb, nat_beq, if◌then◌else◌,
}

pub record Packed (Item : Type 0) : Type 0 where
  pub included : List Item
  pub dropped : List Item
  pub tokens : ℕ
  pub budget : ℕ

module _ {Item : Type 0} where
  -- the loop of `pack_deals`, from the tokens used so far on
  unfoldable pub pack_from : (Item → ℕ) → ℕ → ℕ → List Item → Packed Item
  pack_from cost budget used [] = record {
    included = [];
    dropped = [];
    tokens = used;
    budget = budget;
  }
  pack_from cost budget used (it ∷ items) =
      let with_it = pack_from cost budget (used + cost it) items in
      let without = pack_from cost budget used items in
      if leb (used + cost it) budget
      then record with_it { included = it ∷ with_it.included }
      else record without { dropped = it ∷ without.dropped }

  -- `pack_deals`
  unfoldable pub pack_deals : (Item → ℕ) → List Item → ℕ → Packed Item
  pack_deals cost items budget_tokens = pack_from cost budget_tokens 0 items

  -- the loop of `lost_in_the_middle` from the index `i` on: `head` and `tail`
  unfoldable pub deal_out : ℕ → List Item → List Item × List Item
  deal_out i [] = ([], [])
  deal_out i (it ∷ items) =
      let (head, tail) = deal_out (suc i) items in
      if nat_beq (i % 2) 0 then (it ∷ head, tail) else (head, it ∷ tail)

  -- `tail[::-1]`
  unfoldable pub reversed : List Item → List Item
  reversed [] = []
  reversed (it ∷ items) = reversed items ++ it ∷ []

  -- `lost_in_the_middle`
  unfoldable pub lost_in_the_middle : List Item → List Item
  lost_in_the_middle items = let (head, tail) = deal_out 0 items in head ++ reversed tail
