-- ===== src/Rag/Answers/Picks.antt =====
-- The picks of the extractive answer of dealfinder/rag.py, and when the answer is the model's.
use tutorial_dealfinder.Base.{
  subst, sym, ℕ, ◌≡◌, ◌⊎◌, ◌==◌, String, Bool, true, false, not, ◌&&◌, Option, none, some, List, [],
  ◌∷◌, ◌++◌, keep, any, string_eq, Bool-cases, Option-cases, inl, inr, refl, get_or, ap, sym,
}
use tutorial_dealfinder.Rag.{Product, RetrievedItem, Index, retrieve}
use tutorial_dealfinder.Rag.Grounding.{Texts}
use tutorial_dealfinder.Rag.Answers.{
  RagAnswer, Llm, is_deal, is_trap, hero_of, first, picked, extract, llm_answer, answer_from,
  answer, system, question,
}
use tutorial_dealfinder.Rag.Answers.Sources.{ids}

-- the first item of the list that passes the test
abbrev pub IsFirst : (RetrievedItem → Bool) → List RetrievedItem → RetrievedItem → Type 0
IsFirst p items x =
    (before : List RetrievedItem) × (after : List RetrievedItem) × (items ≡ before ++ (x ∷ after))
    × (any p before ≡ false)
    × (p x ≡ true)

-- no item passes the test, or the first that does is the first one kept
keep-IsFirst :
    (p : RetrievedItem → Bool) (items : List RetrievedItem)
    → ((any p items ≡ false) × (keep p items ≡ []))
      ⊎ ((x : RetrievedItem) × (rest : List RetrievedItem) × IsFirst p items x
          × (keep p items ≡ x ∷ rest))
unfolding any keep
keep-IsFirst p [] = inl (refl, refl)
keep-IsFirst p (it ∷ items) = elim (Bool-cases (p it)) [
  | inl e ↦ inr (it, keep p items, ([], items, refl, refl, e), rw e refl)
  | inr e ↦ elim (keep-IsFirst p items) [
    | inl (nothing, kept) ↦ inl (rw e nothing, rw e kept)
    | inr (x, rest, (before, after, split, other, here), kept) ↦
        inr (
          x,
          rest,
          (it ∷ before, after, ap (λ l. it ∷ l) split, rw (e, other) refl, here),
          rw e kept,
        )
  ]
]

-- the first item that passes the test is named, if there is one
abbrev pub Names : (RetrievedItem → Bool) → List RetrievedItem → List String → Type 0
Names p items named =
    ((any p items ≡ false) × (named ≡ []))
    ⊎ ((x : RetrievedItem) × IsFirst p items x × (named ≡ x.id ∷ []))

-- the first deal, if there is one, and the first item if not
abbrev pub IsHero : List RetrievedItem → RetrievedItem → Type 0
IsHero items hero =
    IsFirst is_deal items hero
    ⊎ ((any is_deal items ≡ false) × ((others : List RetrievedItem) × (items ≡ hero ∷ others)))

-- nothing is named where nothing was retrieved; else the hero, the first other item that is not
-- suspicious, and the first that is
abbrev pub Picks : List RetrievedItem → List String → Type 0
Picks items sources =
    ((items ≡ []) × (sources ≡ []))
    ⊎ ((hero : RetrievedItem) × (runner : List String) × (trap : List String) × (sources
          ≡ hero.id ∷ (runner ++ trap))
        × IsHero items hero
        × Names (λ it. not (it.id == hero.id) && not (is_trap it)) items runner
        × Names is_trap items trap)

keep-Names :
    (p : RetrievedItem → Bool) (items : List RetrievedItem)
    → Names p items (ids (first (keep p items)))
keep-Names p items = elim (keep-IsFirst p items) [
  | inl (nothing, kept) ↦ inl (nothing, ap (λ l. ids (first l)) kept)
  | inr (x, rest, split, kept) ↦ inr (x, split, ap (λ l. ids (first l)) kept)
]

hero_of-IsHero :
    (it : RetrievedItem) (items : List RetrievedItem)
    → IsHero (it ∷ items) (hero_of (keep is_deal (it ∷ items)) it)
unfolding hero_of
hero_of-IsHero it items = elim (keep-IsFirst is_deal (it ∷ items)) [
  | inl (nothing, kept) ↦ inr (nothing, (items, rw (kept, hero_of) refl))
  | inr (x, rest, split, kept) ↦ inl (rw (kept, hero_of) split)
]

module _ (texts : Texts) where
  extract-Picks : (items : List RetrievedItem) → Picks items (extract texts items).sources
  unfolding extract picked
  extract-Picks [] = inl (refl, refl)
  extract-Picks (it ∷ items) =
      let hero = hero_of (keep is_deal (it ∷ items)) it in
      inr (
        hero,
        _,
        _,
        refl,
        hero_of-IsHero it items,
        keep-Names (λ x. not (x.id == hero.id) && not (is_trap x)) (it ∷ items),
        keep-Names is_trap (it ∷ items),
      )

  extract-used : (items : List RetrievedItem) → (extract texts items).used_llm ≡ false
  unfolding extract picked
  extract-used [] = refl
  extract-used (it ∷ items) = refl

  -- the model answered
  abbrev pub IsModels : String → List RetrievedItem → Llm → RagAnswer → Type 0
  IsModels query items client a =
      (reply : Option String) × (client.available ≡ true)
      × (client.chat system (question texts query items) ≡ some reply)
      × (a.used_llm ≡ true)
      × (a.answer ≡ texts.strip (get_or reply ""))

  -- the model is not there or failed, and the answer is picked from the items
  abbrev pub IsPicked : String → List RetrievedItem → Llm → RagAnswer → Type 0
  IsPicked query items client a =
      ((client.available ≡ false) ⊎ (client.chat system (question texts query items) ≡ none))
      × (a.used_llm ≡ false)
      × Picks items a.sources

  extract-IsPicked :
      (query : String) (items : List RetrievedItem) (client : Llm)
      → (client.available ≡ false) ⊎ (client.chat system (question texts query items) ≡ none)
      → IsPicked query items client (extract texts items)
  extract-IsPicked query items client failed = (failed, extract-used items, extract-Picks items)

  -- which of the two answers is given
  answer_from-cases :
      (query : String) (items : List RetrievedItem) (client : Llm)
      → (((client.available ≡ false) ⊎ (client.chat system (question texts query items) ≡ none))
          × (answer_from texts query items client ≡ extract texts items))
        ⊎ ((reply : Option String) × (client.available ≡ true)
            × (client.chat system (question texts query items) ≡ some reply)
            × (answer_from texts query items client ≡ llm_answer texts items reply))
  unfolding answer_from
  answer_from-cases query items client = elim (Bool-cases client.available) [
    | inr e ↦ inl (inl e, rw e refl)
    | inl e ↦ elim (Option-cases (client.chat system (question texts query items))) [
      | inl f ↦ inl (inr f, rw (e, f) refl)
      | inr (reply, f) ↦ inr (reply, e, f, rw (e, f) refl)
    ]
  ]

  llm_answer-IsModels :
      (query : String) (items : List RetrievedItem) (client : Llm) (reply : Option String)
      → client.available ≡ true
      → client.chat system (question texts query items) ≡ some reply
      → IsModels query items client (llm_answer texts items reply)
  unfolding llm_answer
  llm_answer-IsModels query items client reply e f = (reply, e, f, refl, refl)

  -- An answer is the language model's text, stripped, exactly where the model is available and its
  -- chat does not fail. Where it is not there, or fails, the answer's sources are picked: none where
  -- nothing was retrieved; else first the best-ranked deal, or the best-ranked listing where none is
  -- a deal, then the best-ranked listing of another id that is not suspicious, and last the
  -- best-ranked suspicious one, where there are such.
  pub answer_picks :
      (index : Index) (catalog : List Product) (query : String) (k : ℕ) (client : Llm)
      (use_db : Bool)
      → let items = retrieve index catalog query k use_db in
        let a = answer texts index catalog query k client use_db in
        IsModels query items client a ⊎ IsPicked query items client a
  unfolding answer
  answer_picks index catalog query k client use_db =
      let items = retrieve index catalog query k use_db in
      elim (answer_from-cases query items client) [
        | inl (failed, same) ↦ inr (
            subst (IsPicked query items client) (sym same)
              (extract-IsPicked query items client failed))
        | inr (reply, e, f, same) ↦ inl (
            subst (IsModels query items client) (sym same)
              (llm_answer-IsModels query items client reply e f))
      ]
