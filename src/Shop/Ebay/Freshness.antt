-- ===== src/Shop/Ebay/Freshness.antt =====
-- How old an answer from the eBay box can be, whatever requests come and in whatever order the
-- threads take the lock.
use tutorial_dealfinder.Base.{
  ◌∙◌, sym, All, All-append, All-weaken, subst, ap, ℕ, ◌+◌, ◌≤◌, ◌<◌, ◌≡◌, String, Option, none,
  some, List, [], ◌∷◌, ltb, length, length-append, Dict, lookup, remove, string_eq, ◌==◌, arith,
  Bool-cases, Option-cases, inl, inr, refl, length-remove-le,
}
use tutorial_dealfinder.Licensing.{ebay}
use tutorial_dealfinder.Shop.Ebay.{
  Product, Item, Entry, Cache, cache_max, move_to_end, peek, trim, store, entry_of,
}

-- what holds of every pair of a dictionary holds of what is looked up
lookup-All :
    {V : Type 0} (P : String → V → Type 0) (d : Dict String V) (k : String) (v : V)
    → All (λ x. P x.0 x.1) d
    → lookup d k ≡ some v
    → P k v
unfolding lookup
lookup-All P [] k v h e = absurd (cc)
lookup-All P ((j, w) ∷ d) k v h e = elim (Bool-cases (j == k)) [
  | inl same ↦
      let value : w ≡ v = ground (arith, e, same) in
      subst (λ i. P i v) ((string_eq.same_iff j k).0 same) (subst (P j) value h.0)
  | inr other ↦ lookup-All P d k v h.1 (rw other at e)
]

All-remove :
    {V : Type 0} (P : String × V → Type 0) (d : Dict String V) (k : String)
    → All P d
    → All P (remove d k)
unfolding remove
All-remove P [] k h = tt
All-remove P ((j, w) ∷ d) k h = elim (Bool-cases (j == k)) [
  | inl same ↦ rw same (All-remove P d k h.1)
  | inr other ↦ rw other (h.0, All-remove P d k h.1)
]

entry_of-at : (at limit : ℕ) (o : Option (List Product)) → (entry_of at limit o).at ≡ at
unfolding entry_of
entry_of-at at limit none = refl
entry_of-at at limit (some found) = refl

entry_of-ttl : (at limit : ℕ) (o : Option (List Product)) → (entry_of at limit o).ttl ≤ 900
unfolding entry_of
entry_of-ttl at limit none = omega arith
entry_of-ttl at limit (some found) = omega arith

-- an entry that is there makes way for itself
length-remove-lt :
    (c : Cache) (k : String) (e : Entry) → lookup c k ≡ some e → length (remove c k) < length c
unfolding lookup remove
length-remove-lt [] k e h = absurd (cc)
length-remove-lt ((j, w) ∷ c) k e h = ground (arith, length-remove-lt c k e, length-remove-le c k)

length-trim-le : (c : Cache) → length (trim c) ≤ cache_max
unfolding trim
length-trim-le [] = omega arith
length-trim-le (x ∷ c) = ground (arith, length-trim-le c)

length-peek-le : (c : Cache) (key : String) (at : ℕ) → length (peek c key at).0 ≤ length c
unfolding peek
length-peek-le c key at = elim (Option-cases (lookup c key)) [
  | inl e ↦ ground (arith, e)
  | inr (entry, e) ↦
      ground
        (arith, e, length-remove-lt c key entry e, length-append (remove c key) ((key, entry) ∷ []))
]

module _ (answers : String → ℕ → ℕ → Option (List Product)) where
  -- an entry is what eBay answered for the key at the entry's time, which is past
  abbrev Fetched : ℕ → String → Entry → Type 0
  Fetched now key e =
      (e.at ≤ now) × ((limit : ℕ) × (e ≡ entry_of e.at limit (answers key e.at limit)))

  -- The cache at the time `now`, after any blocks of any threads. A thread reads the clock before it
  -- takes the lock, and calls eBay at that time.
  pub data Runs : ℕ → Cache → Type 0 where
    start : (now : ℕ) → Runs now []
    wait : {now : ℕ} {c : Cache} (now' : ℕ) → Runs now c → now ≤ now' → Runs now' c
    peeked :
        {now : ℕ} {c : Cache} (key : String) (at : ℕ)
        → Runs now c
        → at ≤ now
        → Runs now (peek c key at).0
    stored :
        {now : ℕ} {c : Cache} (key : String) (at limit : ℕ)
        → Runs now c
        → at ≤ now
        → Runs now (store c key (entry_of at limit (answers key at limit)))

  AllFetched : ℕ → Cache → Type 0
  AllFetched now c = All (λ x. Fetched now x.0 x.1) c

  AllFetched-move :
      (now : ℕ) (c : Cache) (key : String) (e : Entry)
      → AllFetched now c
      → Fetched now key e
      → AllFetched now (move_to_end c key e)
  unfolding AllFetched
  AllFetched-move now c key e h k =
      All-append (λ x. Fetched now x.0 x.1) (remove c key) ((key, e) ∷ [])
        (All-remove (λ x. Fetched now x.0 x.1) c key h) (k, tt)

  AllFetched-peek :
      (now : ℕ) (c : Cache) (key : String) (at : ℕ)
      → AllFetched now c
      → AllFetched now (peek c key at).0
  unfolding peek
  AllFetched-peek now c key at h = elim (Option-cases (lookup c key)) [
    | inl e ↦ rw (e, peek) h
    | inr (entry, e) ↦ elim (Bool-cases (ltb at (entry.at + entry.ttl))) [
      | inl fresh ↦
          rw (e, fresh, peek)
            (AllFetched-move now c key entry h
              (lookup-All (Fetched now) c key entry (unfold AllFetched in h) e))
      | inr stale ↦ rw (e, stale, peek) h
    ]
  ]

  AllFetched-trim : (now : ℕ) (c : Cache) → AllFetched now c → AllFetched now (trim c)
  unfolding trim AllFetched
  AllFetched-trim now [] h = tt
  AllFetched-trim now (x ∷ c) h = elim (Bool-cases (ltb 256 (length (x ∷ c)))) [
    | inl e ↦ rw e (AllFetched-trim now c h.1)
    | inr e ↦ rw e h
  ]

  AllFetched-later : (now now' : ℕ) (c : Cache) → now ≤ now' → AllFetched now c → AllFetched now' c
  unfolding AllFetched
  AllFetched-later now now' c le h =
      All-weaken (λ x. Fetched now x.0 x.1) (λ x. Fetched now' x.0 x.1) c
        (λ x k. (omega (arith, k.0, le), k.1)) h

  entry-Fetched :
      (now : ℕ) (key : String) (at limit : ℕ)
      → at ≤ now
      → Fetched now key (entry_of at limit (answers key at limit))
  entry-Fetched now key at limit le =
      let same = entry_of-at at limit (answers key at limit) in
      (
        omega (arith, same, le),
        (limit, ap (λ s. entry_of s limit (answers key s limit)) (sym same) ∙ refl),
      )

  Runs-Fetched : {now : ℕ} {c : Cache} → Runs now c → AllFetched now c
  unfolding store
  Runs-Fetched (Runs.start now) = unfold AllFetched in tt
  Runs-Fetched (Runs.wait {now} {c} now' r le) = AllFetched-later now now' c le (Runs-Fetched r)
  Runs-Fetched (Runs.peeked {now} {c} key at r le) = AllFetched-peek now c key at (Runs-Fetched r)
  Runs-Fetched (Runs.stored {now} {c} key at limit r le) =
      AllFetched-trim now (move_to_end c key (entry_of at limit (answers key at limit))) (
        AllFetched-move now c key (entry_of at limit (answers key at limit)) (Runs-Fetched r)
          (entry-Fetched now key at limit le))

  Runs-length : {now : ℕ} {c : Cache} → Runs now c → length c ≤ 256
  unfolding store
  Runs-length (Runs.start now) = omega arith
  Runs-length (Runs.wait now' r le) = Runs-length r
  Runs-length (Runs.peeked {now} {c} key at r le) =
      omega (arith, length-peek-le c key at, Runs-length r)
  Runs-length (Runs.stored {now} {c} key at limit r le) =
      length-trim-le (move_to_end c key (entry_of at limit (answers key at limit)))

  -- Whatever blocks of whatever threads have run before: what the box takes from its cache is what
  -- eBay answered for that very query, less than 15 minutes and so less than eBay's maximum age
  -- before; and the cache holds at most 256 queries.
  pub cached_answer_fresh :
      {now : ℕ} {c : Cache} (key : String) (t : ℕ) (items : List Item)
      → Runs now c
      → (peek c key t).1 ≡ some items
      → ((at : ℕ) × (limit : ℕ) × (items ≡ (entry_of at limit (answers key at limit)).items)
          × (t < at + 900)
          × (t < at + ebay.max_age_s))
        × (length c ≤ 256)
  unfolding peek AllFetched
  cached_answer_fresh {now} {c} key t items r hit = elim (Option-cases (lookup c key)) [
    | inl e ↦ ground (arith, hit, e)
    | inr (entry, e) ↦
        let (past, (limit, same)) = lookup-All (Fetched now) c key entry (Runs-Fetched r) e in
        let short : entry.ttl ≤ 900 =
          omega (
            arith,
            ap (λ x. x.ttl) same,
            entry_of-ttl entry.at limit (answers key entry.at limit),
          ) in
        (
          (
            entry.at,
            limit,
            ground (arith, hit, e, ap (λ x. x.items) same),
            ground (arith, hit, e, short),
            ground (arith, hit, e, short),
          ),
          Runs-length r,
        )
  ]
