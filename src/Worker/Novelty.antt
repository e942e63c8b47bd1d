-- ===== src/Worker/Novelty.antt =====
-- `run_suggestions` of dealfinder/worker.py tells a user of each deal once.
use tutorial_dealfinder.Base.{
  ◌&&◌, pair_beq_iff, ℕ, String, ◌≡◌, refl, ap, ◌∙◌, Bool, true, false, ◌||◌, not, inl, inr, List,
  [], ◌∷◌, ◌++◌, map, if◌then◌else◌, contains, contains-append, lookup, get_or, string_eq, pair_eq,
  ◌==◌, lookup-insert, arith, All, Bool-cases,
}
use tutorial_dealfinder.Worker.{
  SavedSearch, SuggestionState, key, already_seen, update, mark_seen, Product, Notification, Hit,
  note_of, fresh, remember, find_deals, run_suggestions,
}

contains-update :
    (ids xs : List String) (a : String)
    → contains (update ids xs) a ≡ (contains ids a || contains xs a)
unfolding update contains
contains-update ids [] a = ground arith
contains-update ids (x ∷ xs) a = elim (Bool-cases (contains ids x)) [
  | inl old ↦ rw old (contains-update ids xs a ∙ ground (arith, old, string_eq.same_iff a x))
  | inr new ↦
      rw new (contains-update (ids ++ x ∷ []) xs a ∙ ground (arith, contains-append ids (x ∷ []) a))
]

-- a state that has seen at least what another has
abbrev pub Covers : SuggestionState → SuggestionState → Type 0
Covers b a =
    (s : SavedSearch) (id : String)
    → contains (already_seen a s) id ≡ true
    → contains (already_seen b s) id ≡ true

seen-mark :
    (state : SuggestionState) (s t : SavedSearch) (ids : List String) (a : String)
    → contains (already_seen (mark_seen state s ids) t) a ≡ (
        if key s == key t
        then contains (already_seen state s) a || contains ids a
        else contains (already_seen state t) a)
unfolding mark_seen already_seen
seen-mark state s t ids a = ground (
  arith,
  lookup-insert state (key s) (key t) (update (get_or (lookup state (key s)) []) ids),
  contains-update (get_or (lookup state (key s)) []) ids a,
)

same_key :
    (state : SuggestionState) (s t : SavedSearch)
    → (key s == key t) ≡ true
    → already_seen state s ≡ already_seen state t
unfolding already_seen
same_key state s t h = ap (λ k. get_or (lookup state k) []) ((pair_beq_iff (key s) (key t)).0 h)

seen-remember :
    (state : SuggestionState) (s t : SavedSearch) (ids : List String) (a : String)
    → contains (already_seen (remember state s ids) t) a
      ≡ (contains (already_seen state t) a || ((key s == key t) && contains ids a))
unfolding remember
seen-remember state s t [] a = unfold contains in ground arith
seen-remember state s t (x ∷ xs) a = elim (Bool-cases (key s == key t)) [
  | inl same ↦ rw (same, seen-mark state s t (x ∷ xs) a, same, same_key state s t same) refl
  | inr other ↦ rw (other, seen-mark state s t (x ∷ xs) a, other) (ground arith)
]

module _ {Price Score : Type 0} where
  abbrev pub ids_of : List (Product Price × Score) → List String
  ids_of = map (λ d. d.0.id)

  -- the fresh ids are those of the deals, less the seen ones
  contains-fresh :
      (s : SavedSearch) (seen : List String) (deals : List (Product Price × Score)) (a : String)
      → contains (fresh s seen deals).1 a ≡ (contains (ids_of deals) a && not (contains seen a))
  unfolding fresh contains
  contains-fresh s seen [] a = refl
  contains-fresh s seen (d ∷ deals) a =
      ground (arith, contains-fresh s seen deals a, string_eq.same_iff a d.0.id)

  -- a notification for this item of this saved search is among them
  pub told : List (Notification Price Score) → SavedSearch → String → Bool
  told [] s id = false
  told (n ∷ notes) s id = ((n.user_id, n.query) == key s && n.item_id == id) || told notes s id

  told-append :
      (xs ys : List (Notification Price Score)) (s : SavedSearch) (id : String)
      → told (xs ++ ys) s id ≡ (told xs s id || told ys s id)
  unfolding told
  told-append [] ys s id = refl
  told-append (x ∷ xs) ys s id = ground (arith, told-append xs ys s id)

  told-fresh :
      (s t : SavedSearch) (seen : List String) (deals : List (Product Price × Score)) (a : String)
      → told (fresh s seen deals).0 t a ≡ ((key s == key t) && contains (fresh s seen deals).1 a)
  unfolding fresh contains told note_of
  told-fresh s t seen [] a = ground arith
  told-fresh s t seen (d ∷ deals) a =
      ground (
        arith,
        told-fresh s t seen deals a,
        string_eq.same_iff a d.0.id,
        string_eq.same_iff d.0.id a,
      )

  module _ (search : String → ℕ → List (Hit Price Score)) (clears : Score → Bool) where
    abbrev pub deals_of : SavedSearch → List (Product Price × Score)
    deals_of s = find_deals search clears s.query s.k

    -- The job's memory is exact: after a run, an item counts as seen for a saved search exactly if
    -- it did before or the run told the user of it.
    pub run_suggestions-seen :
        (saved : List SavedSearch) (state : SuggestionState) (t : SavedSearch) (id : String)
        → contains (already_seen (run_suggestions search clears saved state).1 t) id ≡ (
            contains (already_seen state t) id
            || told (run_suggestions search clears saved state).0 t id)
    unfolding run_suggestions
    run_suggestions-seen [] state t id = unfold told in ground arith
    run_suggestions-seen (s ∷ saved) state t id =
        let seen = already_seen state s in
        let first = fresh s seen (deals_of s) in
        let next = remember state s first.1 in
        rw
          (
            run_suggestions-seen saved next t id,
            told-append first.0 (run_suggestions search clears saved next).0 t id,
            told-fresh s t seen (deals_of s) id,
            seen-remember state s t first.1 id,
          )
          (ground arith)

    -- every deal of the saved search counts as seen
    abbrev pub IsTold : SuggestionState → SavedSearch → Type 0
    IsTold state s =
        (id : String)
        → contains (ids_of (deals_of s)) id ≡ true
        → contains (already_seen state s) id ≡ true

    Covers-run :
        (saved : List SavedSearch) (state : SuggestionState)
        → Covers (run_suggestions search clears saved state).1 state
    Covers-run saved state s id h = rw (run_suggestions-seen saved state s id, h) refl

    run-IsTold :
        (saved : List SavedSearch) (state : SuggestionState)
        → All (IsTold (run_suggestions search clears saved state).1) saved
    unfolding run_suggestions
    run-IsTold [] state = tt
    run-IsTold (s ∷ saved) state =
        let seen = already_seen state s in
        let first = fresh s seen (deals_of s) in
        let next = remember state s first.1 in
        (
          λ id deal. Covers-run saved next s id (
              rw (seen-remember state s s first.1 id, contains-fresh s seen (deals_of s) id, deal)
                (ground (arith, pair_beq_iff (key s) (key s)))),
          run-IsTold saved next,
        )

    fresh_told :
        (s : SavedSearch) (seen : List String) (deals : List (Product Price × Score))
        → ((id : String) → contains (ids_of deals) id ≡ true → contains seen id ≡ true)
        → fresh s seen deals ≡ ([], [])
    unfolding fresh
    fresh_told s seen [] h = refl
    fresh_told s seen (d ∷ deals) h = rw (
      h d.0.id (unfold contains in ground (arith, string_eq.same_iff d.0.id d.0.id)),
      fresh_told s seen deals (λ id q. h id (unfold contains in ground (arith, q))),
    )

    run_told :
        (saved : List SavedSearch) (state : SuggestionState)
        → All (IsTold state) saved
        → run_suggestions search clears saved state ≡ ([], state)
    unfolding run_suggestions remember
    run_told [] state h = refl
    run_told (s ∷ saved) state h =
        rw (fresh_told s (already_seen state s) (deals_of s) h.0, run_told saved state h.1)

    -- A second run over the same saved searches and the same catalog tells nobody anything, and
    -- leaves the memory as it is.
    pub run_suggestions_twice :
        (saved : List SavedSearch) (state : SuggestionState)
        → run_suggestions search clears saved (run_suggestions search clears saved state).1
          ≡ ([], (run_suggestions search clears saved state).1)
    run_suggestions_twice saved state =
        run_told saved (run_suggestions search clears saved state).1 (run-IsTold saved state)

    -- No notification repeats what the user had seen before the run.
    pub run_suggestions_new :
        (saved : List SavedSearch) (state : SuggestionState) (t : SavedSearch) (id : String)
        → contains (already_seen state t) id ≡ true
        → told (run_suggestions search clears saved state).0 t id ≡ false
    unfolding run_suggestions
    run_suggestions_new [] state t id h = unfold told in refl
    run_suggestions_new (s ∷ saved) state t id h =
        let seen = already_seen state s in
        let first = fresh s seen (deals_of s) in
        let next = remember state s first.1 in
        let still : contains (already_seen next t) id ≡ true =
          rw (seen-remember state s t first.1 id, h) refl in
        rw
          (
            told-append first.0 (run_suggestions search clears saved next).0 t id,
            run_suggestions_new saved next t id still,
            told-fresh s t seen (deals_of s) id,
            contains-fresh s seen (deals_of s) id,
          )
          (elim (Bool-cases (key s == key t)) [
            | inl same ↦
                let known : contains seen id ≡ true = rw (same_key state s t same) h in
                ground (arith, same, known)
            | inr other ↦ ground (arith, other)
          ])
