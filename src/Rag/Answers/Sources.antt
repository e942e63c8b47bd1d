-- ===== src/Rag/Answers/Sources.antt =====
-- What an answer of dealfinder/rag.py cites.
use tutorial_dealfinder.Base.{
  ℕ, ◌≡◌, ◌⊎◌, ◌==◌, String, Bool, true, not, ◌&&◌, Option, List, [], ◌∷◌, map, keep, any, contains,
  contains-append, subst, string_eq, All, All-append, All-weaken, All-keep, Bool-cases,
  Option-cases, inl, inr, refl, arith, get_or, ap,
}
use tutorial_dealfinder.Rag.{Product, RetrievedItem, Index, retrieve}
use tutorial_dealfinder.Rag.Grounding.{Texts, is_grounded}
use tutorial_dealfinder.Rag.Answers.{
  RagAnswer, Llm, is_deal, is_trap, hero_of, first, picked, extract, cited_ids, used_or_all,
  title_cited, deterministic_answer, llm_answer, answer_from, answer, system, question,
}

abbrev pub ids : List RetrievedItem → List String
ids items = map (λ it. it.id) items

-- an id of the items
abbrev IsId : List RetrievedItem → String → Type 0
IsId items id = contains (ids items) id ≡ true

All-map :
    (P : String → Type 0) (items : List RetrievedItem)
    → All (λ it. P it.id) items
    → All P (ids items)
All-map P [] h = tt
All-map P (it ∷ items) h = (h.0, All-map P items h.1)

items-IsId : (items : List RetrievedItem) → All (λ it. IsId items it.id) items
unfolding contains
items-IsId [] = tt
items-IsId (it ∷ items) = (
  ground (arith, string_eq.same_iff it.id it.id),
  All-weaken (λ x. IsId items x.id) (λ x. IsId (it ∷ items) x.id) items (λ x h. ground (arith, h))
      (items-IsId items),
)

All-first :
    (P : RetrievedItem → Type 0) (items : List RetrievedItem) → All P items → All P (first items)
All-first P [] h = tt
All-first P (it ∷ items) h = (h.0, tt)

hero_of-All :
    (P : RetrievedItem → Type 0) (deals : List RetrievedItem) (it : RetrievedItem)
    → All P deals
    → P it
    → P (hero_of deals it)
unfolding hero_of
hero_of-All P [] it h k = k
hero_of-All P (d ∷ deals) it h k = h.0

-- what is kept of the items by a test has ids of the items
kept-IsId :
    (p : RetrievedItem → Bool) (items : List RetrievedItem)
    → All (IsId items) (ids (first (keep p items)))
kept-IsId p items = All-map (IsId items) (first (keep p items)) (
    All-first (λ it. IsId items it.id) (keep p items)
      (All-keep (λ it. IsId items it.id) p items (items-IsId items)))

hero_of-is_deal :
    (items : List RetrievedItem) (it : RetrievedItem)
    → any is_deal items ≡ true
    → is_deal (hero_of (keep is_deal items) it) ≡ true
unfolding hero_of any keep
hero_of-is_deal [] it h = absurd (cc)
hero_of-is_deal (x ∷ items) it h = elim (Bool-cases (is_deal x)) [
  | inl e ↦ rw (e, hero_of) e
  | inr e ↦ rw (e, hero_of) (hero_of-is_deal items it (rw e at h))
]

-- the test of `cited_ids`
abbrev cited : Texts → String → RetrievedItem → Bool
cited texts text it =
    not (texts.norm (texts.before_dash it.title) == "") && title_cited texts it text

used_or_all-All :
    (P : String → Type 0) (used : List String) (items : List RetrievedItem)
    → All P used
    → All P (ids items)
    → All P (used_or_all used items)
unfolding used_or_all
used_or_all-All P [] items h k = k
used_or_all-All P (u ∷ used) items h k = h

module _ (texts : Texts) where
  extract-IsId : (items : List RetrievedItem) → All (IsId items) (extract texts items).sources
  unfolding extract picked
  extract-IsId [] = tt
  extract-IsId (it ∷ items) =
      let all = it ∷ items in
      let hero = hero_of (keep is_deal all) it in
      let known = items-IsId all in
      (
        hero_of-All (λ x. IsId all x.id) (keep is_deal all) it
            (All-keep (λ x. IsId all x.id) is_deal all known) known.0,
        All-append (IsId all)
            (ids (first (keep (λ x. not (x.id == hero.id) && not (is_trap x)) all)))
            (ids (first (keep is_trap all)))
            (kept-IsId (λ x. not (x.id == hero.id) && not (is_trap x)) all) (kept-IsId is_trap all),
      )

  llm_answer-IsId :
      (items : List RetrievedItem) (reply : Option String)
      → All (IsId items) (llm_answer texts items reply).sources
  unfolding llm_answer cited_ids
  llm_answer-IsId items reply =
      let text = texts.strip (get_or reply "") in
      used_or_all-All (IsId items) (cited_ids texts items text) items
        (All-map (IsId items) (keep (cited texts text) items)
          (All-keep (λ it. IsId items it.id) (cited texts text) items (items-IsId items)))
        (All-map (IsId items) items (items-IsId items))

  -- the answer follows the items, or there was nothing to follow
  abbrev Follows : List RetrievedItem → RagAnswer → Type 0
  Follows items a =
      All (IsId items) a.sources
      × ((a.grounded ≡ is_grounded texts a.answer items) ⊎ ((items ≡ []) × (a.sources ≡ [])))

  extract-Follows : (items : List RetrievedItem) → Follows items (extract texts items)
  unfolding extract picked
  extract-Follows [] = (tt, inr (refl, refl))
  extract-Follows (it ∷ items) = (extract-IsId (it ∷ items), inl refl)

  llm_answer-Follows :
      (items : List RetrievedItem) (reply : Option String)
      → Follows items (llm_answer texts items reply)
  unfolding llm_answer
  llm_answer-Follows items reply = (llm_answer-IsId items reply, inl refl)

  -- Whatever the language model does, an answer comes, and it cites only listings that were
  -- retrieved; its `grounded` is what the faithfulness check says of it, unless nothing was
  -- retrieved and nothing is cited.
  answer_lem :
      (index : Index) (catalog : List Product) (query : String) (k : ℕ) (client : Llm)
      (use_db : Bool)
      → Follows
          (retrieve index catalog query k use_db)
          (answer texts index catalog query k client use_db)
  unfolding answer answer_from
  answer_lem index catalog query k client use_db =
      let items = retrieve index catalog query k use_db in
      elim (Bool-cases client.available) [
        | inr e ↦ rw (e, answer, answer_from) (extract-Follows items)
        | inl e ↦ elim (Option-cases (client.chat system (question texts query items))) [
          | inl f ↦ rw (e, f, answer, answer_from) (extract-Follows items)
          | inr (reply, f) ↦ rw (e, f, answer, answer_from) (llm_answer-Follows items reply)
        ]
      ]

  any-first :
      (p : RetrievedItem → Bool) (items : List RetrievedItem)
      → any p items ≡ true
      → (x : RetrievedItem) × (first (keep p items) ≡ x ∷ []) × (p x ≡ true)
  unfolding any keep
  any-first p [] h = absurd (cc)
  any-first p (it ∷ items) h = elim (Bool-cases (p it)) [
    | inl e ↦ (it, rw e refl, e)
    | inr e ↦ let (x, f, q) = any-first p items (rw e at h) in (x, rw e f, q)
  ]

  abbrev pub Leads : List RetrievedItem → List String → Type 0
  Leads items sources =
      (x : RetrievedItem) × (rest : List String) × (is_deal x ≡ true)
      × IsId items x.id
      × (sources ≡ x.id ∷ rest)

  abbrev pub Warns : List RetrievedItem → List String → Type 0
  Warns items sources =
      (x : RetrievedItem) × (is_trap x ≡ true) × IsId items x.id × (contains sources x.id ≡ true)

  extract-Leads :
      (items : List RetrievedItem)
      → any is_deal items ≡ true
      → Leads items (extract texts items).sources
  unfolding extract picked any
  extract-Leads [] h = absurd (cc)
  extract-Leads (it ∷ items) h =
      let all = it ∷ items in
      let known = items-IsId all in
      let deals = keep is_deal all in
      (
        hero_of deals it,
        _,
        hero_of-is_deal all it h,
        hero_of-All (λ x. IsId all x.id) deals it (All-keep (λ x. IsId all x.id) is_deal all known)
            known.0,
        refl,
      )

  extract-Warns :
      (items : List RetrievedItem)
      → any is_trap items ≡ true
      → Warns items (extract texts items).sources
  unfolding extract picked any contains
  extract-Warns [] h = absurd (cc)
  extract-Warns (it ∷ items) h =
      let all = it ∷ items in
      let (x, f, q) = any-first is_trap all h in
      let hero = hero_of (keep is_deal all) it in
      let runner = ids (first (keep (λ y. not (y.id == hero.id) && not (is_trap y)) all)) in
      let id : IsId all x.id = (subst (All (IsId all)) (ap ids f) (kept-IsId is_trap all)).0 in
      (
        x,
        q,
        id,
        ground (
          arith,
          contains-append runner (ids (first (keep is_trap all))) x.id,
          ap (λ l. contains (ids l) x.id) f,
          string_eq.same_iff x.id x.id,
        ),
      )

  -- The extractive answer leads with a listing that is a deal whenever one was retrieved, and names
  -- a suspicious listing whenever one was retrieved.
  deterministic_answer_lem :
      (index : Index) (catalog : List Product) (query : String) (k : ℕ) (use_db : Bool)
      → let items = retrieve index catalog query k use_db in
        let a = deterministic_answer texts index catalog query k use_db in
        (any is_deal items ≡ true → Leads items a.sources)
        × (any is_trap items ≡ true → Warns items a.sources)
  unfolding deterministic_answer
  deterministic_answer_lem index catalog query k use_db =
      let items = retrieve index catalog query k use_db in
      (extract-Leads items, extract-Warns items)
