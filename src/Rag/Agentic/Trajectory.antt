-- ===== src/Rag/Agentic/Trajectory.antt =====
-- The hops of `agentic_answer` of dealfinder/agentic_rag.py.
use tutorial_dealfinder.Base.{
  ℕ, zero, suc, ◌≤◌, ◌<◌, ◌≡◌, ◌⊎◌, ◌↔◌, String, Bool, true, false, List, [], ◌∷◌, ◌++◌, map, count,
  All, Dict, length, arith, refl, Bool-cases, inl, inr, ap, ◌∙◌,
}
use tutorial_dealfinder.Dealscore.{Label, deal, suspicious, fair, overpriced}
use tutorial_dealfinder.Rag.{Product, RetrievedItem, Index, retrieve}
use tutorial_dealfinder.Rag.Grounding.{Texts}
use tutorial_dealfinder.Rag.Answers.{Llm, answer}
use tutorial_dealfinder.Rag.Agentic.{
  Hop, sufficiency, Words, capability_lexicon, strip_vague, reformulate, try_phrase, run_hops,
  agentic_answer,
}

abbrev pub says_deal : Label → Bool
says_deal v = elim v [ deal ↦ true | _ ↦ false ]

abbrev pub says_trap : Label → Bool
says_trap v = elim v [ suspicious ↦ true | _ ↦ false ]

-- the first is a deal, there are two deals or more, and fewer traps than deals
abbrev pub IsStrong : List Label → Type 0
IsStrong [] = ⊥
IsStrong (v ∷ vs) =
    (v ≡ deal)
    × (2 ≤ count says_deal (v ∷ vs))
    × (count says_trap (v ∷ vs) < count says_deal (v ∷ vs))

count-verdicts :
    (p : Label → Bool) (items : List RetrievedItem)
    → count p (map (λ it. it.verdict) items) ≡ count (λ it. p it.verdict) items
unfolding count
count-verdicts p [] = refl
count-verdicts p (it ∷ items) = ground (arith, count-verdicts p items)

says_deal-deal : (v : Label) → (says_deal v ≡ true) ↔ (v ≡ deal)
says_deal-deal deal = (λ h. refl, λ h. refl)
says_deal-deal suspicious = (λ h. absurd (cc), λ h. absurd (cc))
says_deal-deal fair = (λ h. absurd (cc), λ h. absurd (cc))
says_deal-deal overpriced = (λ h. absurd (cc), λ h. absurd (cc))

-- the hop tells whether its verdicts are strong
abbrev pub Judged : Hop → Type 0
Judged h = (h.sufficient ≡ true) ↔ IsStrong h.verdicts

sufficiency-IsStrong :
    (items : List RetrievedItem)
    → ((sufficiency items).0 ≡ true) ↔ IsStrong (map (λ it. it.verdict) items)
unfolding sufficiency
sufficiency-IsStrong [] = (λ h. absurd (cc), λ h. absurd h)
sufficiency-IsStrong (it ∷ items) =
    let deals = count-verdicts says_deal (it ∷ items) in
    let traps = count-verdicts says_trap (it ∷ items) in
    let top = says_deal-deal it.verdict in
    (
      λ h. (ground (arith, h, top), ground (arith, h, deals), ground (arith, h, deals, traps)),
      λ h. ground (arith, h.0, h.1, h.2, deals, traps, top),
    )

-- the loop ended at a hop that was sufficient, and the last query is that hop's
abbrev pub Ended : List Hop → String → Type 0
Ended hops last =
    (init : List Hop) × (h : Hop) × (hops ≡ init ++ h ∷ [])
    × All (λ x. x.sufficient ≡ false) init
    × (h.sufficient ≡ true)
    × (h.query ≡ last)

module _ (w : Words) (search : String → List RetrievedItem) (lexicon : Dict String (List String))
    (base : String) where
  -- the query comes from the reformulation, which no hop has searched yet
  abbrev pub Reformulated : String → Type 0
  Reformulated last =
      (items : List RetrievedItem) × (tried : List String) × (last
        ≡ (reformulate w base items lexicon tried).0)

  -- all `n` hops were used, none was sufficient
  abbrev pub Exhausted : ℕ → String → List Hop → String → Type 0
  Exhausted n query hops last =
      (length hops ≡ n)
      × All (λ x. x.sufficient ≡ false) hops
      × (((n ≡ 0) × (last ≡ query)) ⊎ Reformulated last)

  Exhausted-step :
      (n : ℕ) (query next : String) (hop : Hop) (hops : List Hop) (last : String)
      → hop.sufficient ≡ false
      → Reformulated next
      → Exhausted n next hops last
      → Exhausted (suc n) query (hop ∷ hops) last
  Exhausted-step n query next hop hops last e r (l, a, inl (z, same)) =
      (omega (arith, l), (e, a), inr (r.0, r.1, same ∙ r.2))
  Exhausted-step n query next hop hops last e r (l, a, inr r') = (omega (arith, l), (e, a), inr r')

  Ended-step :
      (hop : Hop) (hops : List Hop) (last : String)
      → hop.sufficient ≡ false
      → Ended hops last
      → Ended (hop ∷ hops) last
  Ended-step hop hops last e (init, h, same, a, ok, q) =
      (hop ∷ init, h, ap (λ x. hop ∷ x) same, (e, a), ok, q)

  pub run_hops_lem :
      (n : ℕ) (query : String) (tried : List String)
      → let (hops, tried', last) = run_hops w search lexicon base n query tried in
        All Judged hops × (length hops ≤ n) × (Ended hops last ⊎ Exhausted n query hops last)
  unfolding run_hops
  run_hops_lem zero query tried = (tt, omega arith, inr (refl, tt, inl (refl, refl)))
  run_hops_lem (suc n) query tried =
      let items = search query in
      let strong = sufficiency-IsStrong items in
      let (next, phrase) = reformulate w base items lexicon tried in
      let (judged, bound, outcome) = run_hops_lem n next (try_phrase tried phrase) in
      let hop : Hop = record {
        query = query;
        sufficient = false;
        reason = (sufficiency items).1;
        verdicts = map (λ it. it.verdict) items;
      } in
      elim (Bool-cases (sufficiency items).0) [
        | inl e ↦ rw e ((rw e at strong, tt), omega arith, inl ([], _, refl, tt, refl, refl))
        | inr e ↦ rw e (
          (rw e at strong, judged),
          omega (arith, bound),
          elim outcome [
            | inl x ↦ inl (Ended-step hop _ _ refl x)
            | inr x ↦ inr (Exhausted-step n query next hop _ _ refl (items, tried, refl) x)
          ],
        )
      ]

-- A run of `agentic_answer` makes at most `max_hops` hops, a hop is sufficient exactly where its
-- verdicts are strong, and the answer is `answer`'s to the last query: either some hop was
-- sufficient, it is the last, and the last query is that hop's; or all `max_hops` hops failed, and
-- the last query is a reformulation made after the last hop.
pub agentic_answer_lem :
    (w : Words) (texts : Texts) (index : Index) (catalog : List Product) (client : Llm)
    (query : String) (max_hops : ℕ) (products : List Product)
    → let r = agentic_answer w texts index catalog client query max_hops products in
      let search : String → List RetrievedItem = λ q. retrieve index products q 5 false in
      All Judged r.hops
      × (length r.hops ≤ max_hops)
      × ((last : String) × (r.answer ≡ (answer texts index catalog last 5 client false).answer)
          × (Ended r.hops last
              ⊎ Exhausted w search
                  (capability_lexicon w products)
                  (w.lower (strip_vague w query))
                  max_hops
                  query
                  r.hops
                  last))
unfolding agentic_answer
agentic_answer_lem w texts index catalog client query max_hops products =
    let search : String → List RetrievedItem = λ q. retrieve index products q 5 false in
    let lexicon = capability_lexicon w products in
    let base = w.lower (strip_vague w query) in
    let (judged, bound, outcome) = run_hops_lem w search lexicon base max_hops query [] in
    (judged, bound, (_, refl, outcome))
