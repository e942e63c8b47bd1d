-- ===== src/Rag.antt =====
-- dealfinder/rag.py: retrieval with a verdict for each listing, and grounded answers; and the two
-- modules that stand on it, dealfinder/orchestrate.py and dealfinder/agentic_rag.py. Prices are whole
-- cents and signals exact fractions. The catalog search, the vector store, the fitting of a price
-- model and the rounding of a fraction are parameters.
pub mod Grounding
pub mod Answers
pub mod Review
pub mod Agentic
mod Tests
use tutorial_dealfinder.Base.{
  ℕ, String, Bool, true, false, Option, none, some, List, [], ◌∷◌, ◌++◌, map, if◌then◌else◌, leb,
  keep, length, Dict, lookup, insert, get_or, string_eq,
}
use tutorial_dealfinder.Dealscore.{Fraction, Label, Verdict, verdict}

-- `_MIN_CAT`
abbrev pub min_cat : ℕ
min_cat = 3

-- What retrieval reads of a product of the catalog.
pub record Product : Type 0 where
  pub id : String
  pub title : String
  pub category : String
  pub price : ℕ
  pub source : String

pub record RetrievedItem : Type 0 where
  pub id : String
  pub title : String
  pub price : ℕ
  pub source : String
  pub category : String
  pub similarity : Fraction
  pub verdict : Label
  pub median_part : Fraction
  pub fair_price : ℕ
  pub residual_part : Fraction
  pub reason : String

-- What retrieval takes from the numeric code and the stores.
pub record Index : Type 0 where
  -- `search_catalog`
  pub search_catalog : String → List Product → Dict String ℕ → ℕ → List (Product × Fraction)
  -- the rows of `pgstore.semantic_search`
  pub semantic_search : String → ℕ → List (String × Fraction)
  -- `LinearModel().fit(...)`, as the fair price that it gives to a product
  pub fit : List Product → Product → ℕ
  -- `round(x, 4)`
  pub round_part : Fraction → Fraction
  -- the text that `verdict` gives for its label
  pub reason_of : Verdict → String
  -- the snapshot's median at capture, by id
  pub medians : Dict String ℕ

-- `by_cat.setdefault(p.category, []).append(p)` over the products
unfoldable pub by_category : Dict String (List Product) → List Product → Dict String (List Product)
by_category groups [] = groups
by_category groups (p ∷ products) =
    by_category (insert groups p.category (get_or (lookup groups p.category) [] ++ p ∷ [])) products

module _ (index : Index) where
  -- `_category_models`
  unfoldable pub category_models : List Product → Dict String (Product → ℕ)
  category_models products =
      map (λ x. (x.0, index.fit x.1))
        (keep (λ x. leb min_cat (length x.1)) (by_category [] products))

  -- `_verdict_for`
  unfoldable pub verdict_for : Product → ℕ → Dict String (Product → ℕ) → Verdict
  verdict_for p median models = elim (lookup models p.category) [
    | some model ↦ verdict p.price median (model p)
    | none ↦ verdict p.price median p.price
  ]

  -- `{p.id: p for p in products}`
  unfoldable pub by_id : Dict String Product → List Product → Dict String Product
  by_id table [] = table
  by_id table (p ∷ products) = by_id (insert table p.id p) products

  -- the rows of `_retrieve_pgvector` whose product is known
  unfoldable pub known_rows :
      Dict String Product → List (String × Fraction) → List (Product × Fraction)
  known_rows table [] = []
  known_rows table ((id, score) ∷ rows) =
      let rest = known_rows table rows in
      elim (lookup table id) [ none ↦ rest | some p ↦ (p, score) ∷ rest ]

  -- `_retrieve_pgvector`
  unfoldable pub retrieve_pgvector : String → List Product → ℕ → List (Product × Fraction)
  retrieve_pgvector query products k =
      known_rows (by_id [] products) (index.semantic_search query k)

  -- a round of the loop of `retrieve`
  unfoldable pub retrieved_item : Dict String (Product → ℕ) → Product × Fraction → RetrievedItem
  retrieved_item models (p, score) =
      let v = verdict_for p (get_or (lookup index.medians p.id) 0) models in
      record {
        id = p.id;
        title = p.title;
        price = p.price;
        source = p.source;
        category = p.category;
        similarity = index.round_part score;
        verdict = v.label;
        median_part = index.round_part v.median_part;
        fair_price = v.fair_price;
        residual_part = index.round_part v.residual_part;
        reason = index.reason_of v;
      }

  -- `retrieve`, over the products it is given or loads
  unfoldable pub retrieve : List Product → String → ℕ → Bool → List RetrievedItem
  retrieve products query k use_db =
      let ranked =
        if use_db
        then retrieve_pgvector query products k
        else index.search_catalog query products index.medians k in
      map (retrieved_item (category_models products)) ranked
