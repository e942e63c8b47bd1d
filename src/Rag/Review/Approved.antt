-- ===== src/Rag/Review/Approved.antt =====
-- What the approval of dealfinder/orchestrate.py stands for.
use tutorial_dealfinder.Base.{
  ℕ, ◌≡◌, ◌⊎◌, ◌↔◌, String, Bool, true, false, ◌&&◌, Option, none, some, List, [], ◌∷◌, ◌++◌, keep,
  any, Bool-cases, inl, inr, refl, arith, if◌then◌else◌,
}
use tutorial_dealfinder.Rag.{Product, RetrievedItem, Index, retrieve}
use tutorial_dealfinder.Rag.Grounding.{Texts, is_grounded}
use tutorial_dealfinder.Rag.Answers.{RagAnswer, Llm, is_deal, is_trap, deterministic_answer}
use tutorial_dealfinder.Rag.Review.{
  Issue, ungrounded, warns, check_lead, check_traps, lead_of, review_items, recommend, review,
  revise, orchestrate, snapshot,
}

-- no issue and a passed check come together
Agrees : Bool × List Issue → Type 0
Agrees (passed, issues) = (passed ≡ true) ↔ (issues ≡ [])

check_lead-Agrees : (o : Option RetrievedItem) → Agrees (check_lead o)
unfolding check_lead Agrees
check_lead-Agrees none = (λ h. cc, λ h. cc)
check_lead-Agrees (some it) = (λ h. ground (arith, h), λ h. ground (arith, h))

check_traps-Agrees :
    (traps : List RetrievedItem) (warned : Bool) → Agrees (check_traps traps warned)
unfolding check_traps Agrees
check_traps-Agrees [] warned = (λ h. refl, λ h. refl)
check_traps-Agrees (it ∷ traps) warned = (λ h. ground (arith, h), λ h. ground (arith, h))

append-empty : (xs ys : List Issue) → (xs ++ ys ≡ []) ↔ ((xs ≡ []) × (ys ≡ []))
append-empty [] ys = (λ h. (refl, h), λ h. h.1)
append-empty (x ∷ xs) ys = (λ h. absurd (cc), λ h. absurd (cc))

-- three checks and their issues
combined :
    (b : Bool) (c d : Bool × List Issue)
    → Agrees c
    → Agrees d
    → ((b && c.0 && d.0) ≡ true) ↔ ((if b then [] else ungrounded ∷ []) ++ c.1 ++ d.1 ≡ [])
unfolding Agrees
combined false c d h k = (λ e. absurd (cc), λ e. absurd (cc))
combined true c d h k = (
  λ e. (append-empty c.1 d.1).1 (h.0 (ground (arith, e)), k.0 (ground (arith, e))),
  λ e. let (left, right) = (append-empty c.1 d.1).0 e in ground (arith, h.1 left, k.1 right),
)

check_lead-deal :
    (o : Option RetrievedItem)
    → (check_lead o).0 ≡ true
    → (it : RetrievedItem) × (o ≡ some it) × (is_deal it ≡ true)
unfolding check_lead
check_lead-deal none h = absurd (cc)
check_lead-deal (some it) h = (it, refl, h)

check_traps-warned :
    (items : List RetrievedItem) (warned : Bool)
    → (check_traps (keep is_trap items) warned).0 ≡ true
    → any is_trap items ≡ true
    → warned ≡ true
unfolding check_traps keep any
check_traps-warned [] warned h t = absurd (cc)
check_traps-warned (it ∷ items) warned h t = elim (Bool-cases (is_trap it)) [
  | inl e ↦ rw (e, check_traps) at h
  | inr e ↦ check_traps-warned items warned (rw e at h) (rw e at t)
]

module _ (texts : Texts) (lead_title : String → String) (norm : String → String) where
  -- what an approval says of a text
  abbrev pub Sound : String → List RetrievedItem → Type 0
  Sound text items =
      (is_grounded texts text items ≡ true)
      × ((it : RetrievedItem) × (lead_of texts lead_title norm text items ≡ some it)
          × (is_deal it ≡ true))
      × (any is_trap items ≡ true → warns (texts.lower text) ≡ true)

  review_items-Sound :
      (text : String) (items : List RetrievedItem)
      → (review_items texts lead_title norm text items).approved ≡ true
      → Sound text items
  unfolding review_items
  review_items-Sound text items h =
      let lead = check_lead (lead_of texts lead_title norm text items) in
      let traps = check_traps (keep is_trap items) (warns (texts.lower text)) in
      (
        ground (arith, h),
        check_lead-deal (lead_of texts lead_title norm text items) (ground (arith, h)),
        check_traps-warned items (warns (texts.lower text)) (ground (arith, h)),
      )

  module _ (index : Index) (catalog : List Product) where
    -- A review approves exactly when it has no issue to report.
    pub review_lem :
        (query : String) (a : RagAnswer) (k : ℕ)
        → let r = review texts lead_title norm index catalog query a k in
          (r.approved ≡ true) ↔ (r.issues ≡ [])
    unfolding review review_items
    review_lem query a k =
        combined (is_grounded texts a.answer (retrieve index catalog query k snapshot))
          (check_lead
            (lead_of texts lead_title norm a.answer (retrieve index catalog query k snapshot)))
          (check_traps (keep is_trap (retrieve index catalog query k snapshot))
            (warns (texts.lower a.answer)))
          (check_lead-Agrees
            (lead_of texts lead_title norm a.answer (retrieve index catalog query k snapshot)))
          (check_traps-Agrees (keep is_trap (retrieve index catalog query k snapshot))
            (warns (texts.lower a.answer)))

    -- What `orchestrate` returns as approved is grounded in what was retrieved, leads with a deal
    -- of it, and warns if a suspicious listing was retrieved; what it returns is the writer's draft
    -- where the reviewer approved that, and else the extractive answer, whether approved or not.
    pub orchestrate_lem :
        (query : String) (k : ℕ) (llm : Llm)
        → let result = orchestrate texts lead_title norm index catalog query k llm in
          let items = retrieve index catalog query k snapshot in
          let draft = recommend texts lead_title norm index catalog query k llm in
          (result.approved ≡ true → Sound result.answer items)
          × (((result.revised ≡ false) × (result.answer ≡ draft.answer) × (result.approved ≡ true))
              ⊎ ((result.revised ≡ true)
                  × (result.answer
                      ≡ (deterministic_answer texts index catalog query k snapshot).answer)
                  × ((review texts lead_title norm index catalog query draft k).approved ≡ false)))
    unfolding orchestrate revise review
    orchestrate_lem query k llm =
        let items = retrieve index catalog query k snapshot in
        let draft = recommend texts lead_title norm index catalog query k llm in
        let fixed = deterministic_answer texts index catalog query k snapshot in
        elim (Bool-cases (review texts lead_title norm index catalog query draft k).approved) [
          | inl e ↦
              rw (e, orchestrate)
                (λ h. review_items-Sound draft.answer items e, inl (refl, refl, refl))
          | inr e ↦
              rw (e, orchestrate)
                (λ h. review_items-Sound fixed.answer items h, inr (refl, refl, refl))
        ]
