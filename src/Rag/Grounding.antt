-- ===== src/Rag/Grounding.antt =====
-- The context block and the faithfulness check of dealfinder/rag.py. The regular expressions and the
-- formatting of numbers are parameters.
use tutorial_dealfinder.Base.{
  ℕ, suc, String, Bool, false, ◌&&◌, ◌||◌, List, [], ◌∷◌, map, ltb, all, contains, string_eq, join,
  concat, occurs, str_len,
}
use tutorial_dealfinder.Dealscore.{Fraction, Label, deal, suspicious, fair, overpriced}
use tutorial_dealfinder.Rag.{RetrievedItem}

pub record Texts : Type 0 where
  -- `f"{n}"`, `f"{price:.2f}"` and `f"{part * 100:.0f}"`
  pub number : ℕ → String
  pub money : ℕ → String
  pub percent : Fraction → String
  -- `_norm`, `_prices_in`, and the model codes that `re.findall` finds in a normalized text
  pub norm : String → String
  pub prices_in : String → List String
  pub codes_in : String → List String
  -- `str.split()`, `str.strip()`, `str.lower()`, and `title.split(" — ")[0]`
  pub words : String → List String
  pub strip : String → String
  pub lower : String → String
  pub before_dash : String → String

-- `verdict.upper()`
unfoldable pub upper : Label → String
upper deal = "DEAL"
upper suspicious = "SUSPICIOUS"
upper fair = "FAIR"
upper overpriced = "OVERPRICED"

module _ (texts : Texts) where
  -- the line of an item
  unfoldable pub context_line : ℕ → RetrievedItem → String
  context_line i it = concat (
      "["
      ∷ texts.number i
      ∷ "] "
      ∷ it.title
      ∷ " — $"
      ∷ texts.money it.price
      ∷ " ("
      ∷ it.source
      ∷ ") ["
      ∷ upper it.verdict
      ∷ "] — "
      ∷ it.reason
      ∷ [])

  -- `for i, it in enumerate(items, 1)`
  unfoldable pub context_lines : ℕ → List RetrievedItem → List String
  context_lines i [] = []
  context_lines i (it ∷ items) = context_line i it ∷ context_lines (suc i) items

  -- `build_context`
  unfoldable pub build_context : List RetrievedItem → String
  build_context items = join "\n" (context_lines 1 items)

  -- the titles that a model code is looked for in
  unfoldable pub haystack : List RetrievedItem → String
  haystack retrieved =
      concat (" " ∷ texts.norm (join " " (map (λ it. it.title) retrieved)) ∷ " " ∷ [])

  -- a code that is too short, or stands in a title
  unfoldable pub code_known : String → String → Bool
  code_known titles tok = ltb (str_len tok) 3 || occurs (concat (" " ∷ tok ∷ " " ∷ [])) titles

  -- `is_grounded`
  unfoldable pub is_grounded : String → List RetrievedItem → Bool
  is_grounded answer_text [] = false
  is_grounded answer_text (it ∷ retrieved) =
      all (λ price. contains (texts.prices_in (build_context (it ∷ retrieved))) price)
        (texts.prices_in answer_text)
      && all (λ tok. code_known (haystack (it ∷ retrieved)) tok)
          (texts.codes_in (texts.norm answer_text))
