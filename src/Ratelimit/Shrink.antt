-- ===== src/Ratelimit/Shrink.antt =====
-- `_shrink` of dealfinder/ratelimit.py: it never raises, and whom it may forget.
use tutorial_dealfinder.Base.{
  ℕ, ◌-◌, ◌≤◌, String, ◌≡◌, refl, ap, ◌⊎◌, inl, inr, Bool, true, false, List, [], ◌∷◌, map, leb,
  ltb, arith, length, keep, take, All, All-take, All-sort, contains, Dict, IsDict, lookup,
  keys_where, contains-keys_where, lookup-keys_where, drop_keys, drop_keys-IsDict, lookup-drop_keys,
  length-drop_keys-le, All-lookup, sort, none, some, ok, string_eq, ◌==◌, Bool-cases,
}
use tutorial_dealfinder.Compliance.Window.{SlidingWindow}
use tutorial_dealfinder.Ratelimit.{
  last?, is_idle, idle_keys, tuple_le, open_keys, room_after, shrink,
}

last?-cons : (t : ℕ) (ts : List ℕ) → (u : ℕ) × (last? (t ∷ ts) ≡ some u)
unfolding last?
last?-cons t [] = (t, refl)
last?-cons t (u ∷ us) = last?-cons u us

-- An entry that is not idle has a last event.
last?-busy : (w now : ℕ) (ev : List ℕ) → is_idle w now ev ≡ false → (u : ℕ) × (last? ev ≡ some u)
unfolding is_idle last?
last?-busy w now [] h = cc
last?-busy w now (t ∷ ts) h = last?-cons t ts

abbrev is_open : ℕ → List ℕ → Bool
is_open limit ev = ltb (length ev) limit

-- On busy entries `open_keys` does not raise, and lists the keys below the limit.
open_keys_lem :
    (w now limit : ℕ) (d : Dict String (List ℕ))
    → All (λ e. is_idle w now e.1 ≡ false) d
    → (os : List (ℕ × String)) × (open_keys limit d ≡ ok os)
      × (map (λ p. p.1) os ≡ keys_where (is_open limit) d)
unfolding open_keys keep
open_keys_lem w now limit [] h = ([], refl, refl)
open_keys_lem w now limit ((k, ev) ∷ d) h =
    let (os, returned, names) = open_keys_lem w now limit d h.1 in
    let (u, last) = last?-busy w now ev h.0 in
    elim (Bool-cases (is_open limit ev)) [
      | inl below ↦ ((u, k) ∷ os, rw (below, returned, last) refl, rw below (ap (◌∷◌ k) names))
      | inr at_limit ↦ (os, rw (at_limit, returned), rw at_limit names)
    ]

-- a sublist of a sorted list names no new key
names_sorted :
    (n : ℕ) (os : List (ℕ × String)) (k : String)
    → contains (map (λ p. p.1) (take n (sort tuple_le os))) k ≡ true
    → contains (map (λ p. p.1) os) k ≡ true
unfolding contains
names_sorted n os k h =
    any_of (take n (sort tuple_le os))
      (All-take P n (sort tuple_le os) (All-sort P tuple_le os (self os (λ p q. q)))) h
  where
    P : ℕ × String → Type 0
    P p = (k == p.1) ≡ true → contains (map (λ q. q.1) os) k ≡ true

    self :
        (xs : List (ℕ × String))
        → ((j : String)
            → contains (map (λ q. q.1) xs) k ≡ true
            → contains (map (λ q. q.1) os) k ≡ true)
        → All P xs
    self [] sub = tt
    self ((t, j) ∷ xs) sub =
        (λ same. sub j (ground (arith, same)), self xs (λ i q. sub i (ground (arith, q))))

    any_of :
        (xs : List (ℕ × String))
        → All P xs
        → contains (map (λ q. q.1) xs) k ≡ true
        → contains (map (λ q. q.1) os) k ≡ true
    any_of [] a q = absurd (cc)
    any_of ((t, j) ∷ xs) a q = ground (arith, a.0, any_of xs a.1)

-- the entries that survive the removal of idle clients
abbrev pub kept_of : SlidingWindow → ℕ → Dict String (List ℕ)
kept_of w now = drop_keys (idle_keys w now) w.events

lookup-kept :
    (w : SlidingWindow) (now : ℕ) (k : String) (ev : List ℕ)
    → lookup (kept_of w now) k ≡ some ev
    → (lookup w.events k ≡ some ev) × (is_idle w.window now ev ≡ false)
unfolding idle_keys
lookup-kept w now k ev h = (
  ground (arith, lookup-drop_keys (idle_keys w now) w.events k),
  ground (
    arith,
    lookup-drop_keys (idle_keys w now) w.events k,
    contains-keys_where (is_idle w.window now) w.events k ev,
  ),
)

kept_busy :
    (w : SlidingWindow) (now : ℕ) (d : Dict String (List ℕ))
    → All (λ e. lookup (kept_of w now) e.0 ≡ some e.1) d
    → All (λ e. is_idle w.window now e.1 ≡ false) d
kept_busy w now [] h = tt
kept_busy w now ((k, ev) ∷ d) h = ((lookup-kept w now k ev h.0).1, kept_busy w now d h.1)

-- What a clean-up did: nothing new, nothing changed, no longer, and a client at its limit stays.
pub record Shrinks (w : SlidingWindow) (now : ℕ) (w' : SlidingWindow) : Type 0 where
  pub same_limit : w'.limit ≡ w.limit
  pub same_window : w'.window ≡ w.window
  pub dict : IsDict w'.events
  pub shorter : length w'.events ≤ length w.events
  pub kept_or_gone :
      (k : String) → (lookup w'.events k ≡ none) ⊎ (lookup w'.events k ≡ lookup w.events k)
  pub at_limit_stays :
      (k : String) (ev : List ℕ)
      → lookup w.events k ≡ some ev
      → is_idle w.window now ev ≡ false
      → w.limit ≤ length ev
      → lookup w'.events k ≡ some ev

kept_not_idle :
    (w : SlidingWindow) (now : ℕ) (k : String) (ev : List ℕ)
    → IsDict w.events
    → lookup w.events k ≡ some ev
    → is_idle w.window now ev ≡ false
    → lookup (kept_of w now) k ≡ some ev
unfolding idle_keys
kept_not_idle w now k ev d h busy = elim (Bool-cases (contains (idle_keys w now) k)) [
  | inl idle ↦
      let (v, found, passes) = lookup-keys_where (is_idle w.window now) w.events k d idle in
      absurd (ground arith)
  | inr stays ↦ ground (arith, lookup-drop_keys (idle_keys w now) w.events k, stays)
]

Shrinks-kept :
    (w : SlidingWindow) (now : ℕ)
    → IsDict w.events
    → Shrinks w now (record w { events = kept_of w now })
Shrinks-kept w now d = record {
  same_limit = refl;
  same_window = refl;
  dict = drop_keys-IsDict (idle_keys w now) w.events d;
  shorter = length-drop_keys-le (idle_keys w now) w.events;
  kept_or_gone = λ k. ground (arith, lookup-drop_keys (idle_keys w now) w.events k);
  at_limit_stays = λ k ev h busy full. kept_not_idle w now k ev d h busy;
}

Shrinks-dropped :
    (w : SlidingWindow) (now n : ℕ) (os : List (ℕ × String))
    → IsDict w.events
    → map (λ p. p.1) os ≡ keys_where (is_open w.limit) (kept_of w now)
    → Shrinks w now (record w {
      events = drop_keys (map (λ p. p.1) (take n (sort tuple_le os))) (kept_of w now);
    })
Shrinks-dropped w now n os d names =
    let kept = kept_of w now in
    let gone = map (λ p. p.1) (take n (sort tuple_le os)) in
    let before = Shrinks-kept w now d in
    record {
      same_limit = refl;
      same_window = refl;
      dict = drop_keys-IsDict gone kept before.dict;
      shorter = omega (arith, length-drop_keys-le gone kept, before.shorter);
      kept_or_gone = λ k. ground (arith, lookup-drop_keys gone kept k, before.kept_or_gone k);
      at_limit_stays = λ k ev h busy full.
          let here = before.at_limit_stays k ev h busy full in
          elim (Bool-cases (contains gone k)) [
            | inl out ↦
                let (v, found, below) =
                  lookup-keys_where (is_open w.limit) kept k before.dict
                    (rw names at (names_sorted n os k out)) in
                absurd (ground arith)
            | inr stays ↦ ground (arith, lookup-drop_keys gone kept k, stays, here)
          ];
    }

-- `_shrink` never raises. It forgets clients and changes no count that it keeps; and it never
-- forgets a client that is at its limit with a request still in the window.
pub shrink_lem :
    (max_keys : ℕ) (w : SlidingWindow) (now : ℕ)
    → IsDict w.events
    → (w' : SlidingWindow) × (shrink max_keys w now ≡ ok w') × Shrinks w now w'
unfolding shrink
shrink_lem max_keys w now d =
    let kept = kept_of w now in
    let (os, returned, names) =
      open_keys_lem w.window now w.limit kept
        (kept_busy w now kept (All-lookup kept (Shrinks-kept w now d).dict)) in
    elim (Bool-cases (leb (length kept) (room_after max_keys))) [
      | inl fits ↦ (record w { events = kept }, rw fits, Shrinks-kept w now d)
      | inr over ↦ (
        record w {
          events =
              drop_keys
                (map (λ p. p.1) (take (length kept - room_after max_keys) (sort tuple_le os))) kept;
        },
        rw (over, returned),
        Shrinks-dropped w now (length kept - room_after max_keys) os d names,
      )
    ]
