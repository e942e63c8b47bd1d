-- ===== src/Rag/Agentic/Phrases.antt =====
-- The choice of a capability phrase by `reformulate` of dealfinder/agentic_rag.py.
use tutorial_dealfinder.Base.{
  ◌≡◌, String, true, false, ◌||◌, Option, none, some, List, [], ◌∷◌, ◌++◌, all, contains, string_eq,
  Dict, lookup, get_or, contains-append_once, ap, ◌∙◌, arith, refl, Bool-cases, inl, inr,
}
use tutorial_dealfinder.Rag.{RetrievedItem}
use tutorial_dealfinder.Rag.Agentic.{
  Words, is_covered, expand, category_of, reformulate, try_phrase,
}

module _ (w : Words) where
  -- the phrases before the chosen one, or all, were tried or add nothing
  abbrev pub Spent : String → List String → List String → Type 0
  Spent base tried phrases =
      all (λ p. contains tried p || is_covered w (w.split base) p) phrases ≡ true

  -- the choice among the phrases
  abbrev pub Chosen : String → List String → List String → Option String → Type 0
  Chosen base tried phrases none = Spent base tried phrases
  Chosen base tried phrases (some phrase) =
      (before : List String) × (after : List String) × (phrases ≡ before ++ phrase ∷ after)
      × Spent base tried before
      × (contains tried phrase ≡ false)
      × (is_covered w (w.split base) phrase ≡ false)

  Chosen-later :
      (base : String) (tried : List String) (p : String) (phrases : List String) (o : Option String)
      → (contains tried p || is_covered w (w.split base) p) ≡ true
      → Chosen base tried phrases o
      → Chosen base tried (p ∷ phrases) o
  unfolding all
  Chosen-later base tried p phrases none e h = ground (arith, e, h)
  Chosen-later base tried p phrases (some phrase) e (before, after, same, spent, new, adds) =
      (p ∷ before, after, (λ i. p ∷ same i), ground (arith, e, spent), new, adds)

  expand-Chosen :
      (base : String) (tried phrases : List String)
      → Chosen base tried phrases (expand w base tried phrases).1
  unfolding expand all
  expand-Chosen base tried [] = refl
  expand-Chosen base tried (p ∷ phrases) =
      elim (Bool-cases (contains tried p || is_covered w (w.split base) p)) [
        | inl e ↦ rw e (
            Chosen-later base tried p phrases (expand w base tried phrases).1 e
              (expand-Chosen base tried phrases))
        | inr e ↦ rw e ([], phrases, refl, refl, ground (arith, e), ground (arith, e))
      ]

  -- `reformulate` chooses the first phrase of the category that was not tried and adds a word to the
  -- query, and says none only where there is no such phrase; the phrase that it says is tried then.
  pub reformulate_lem :
      (base : String) (items : List RetrievedItem) (lexicon : Dict String (List String))
      (tried : List String)
      → let phrase = (reformulate w base items lexicon tried).1 in
        Chosen base tried (get_or (lookup lexicon (category_of items)) []) phrase
        × ((p : String) → phrase ≡ some p → contains (try_phrase tried phrase) p ≡ true)
  unfolding reformulate try_phrase
  reformulate_lem base items lexicon tried =
      let phrases = get_or (lookup lexicon (category_of items)) [] in
      (
        expand-Chosen base tried phrases,
        λ p h.
            ap (λ o. contains (try_phrase tried o) p) h
            ∙ ground (arith, contains-append_once tried p p, string_eq.same_iff p p),
      )
