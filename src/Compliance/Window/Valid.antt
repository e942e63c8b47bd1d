-- ===== src/Compliance/Window/Valid.antt =====
-- The well-formedness of a `SlidingWindowRateLimiter` (dealfinder/compliance.py), and how `allow`
-- and `remaining` agree on a well-formed one.
use tutorial_dealfinder.Base.{
  ℕ, ◌+◌, ◌-◌, ◌≤◌, ◌<◌, String, ◌≡◌, refl, Bool, true, false, not, List, [], ◌∷◌, ◌++◌, ltb, arith,
  length, length-append, count, count-append, length-keep, lookup, string_eq, ◌==◌, Bool-cases, inl,
  inr, All, All-append, append-nil, if◌then◌else◌, subst, some,
}
use tutorial_dealfinder.Compliance.Window.{
  SlidingWindow, init, evict, expired, events_of, allow, remaining,
}
use tutorial_dealfinder.Compliance.Window.Eviction.{
  IsOrdered, IsPast, IsPast-later, IsPast-evict, IsOrdered-evict, IsOrdered-snoc, evict-keep,
  evict-fresh, length-evict-le,
}
use tutorial_dealfinder.Compliance.Window.Bound.{allow_self, allow_other, allow-limit, allow-room}

-- At time `now`: every deque is in time order, holds no later time, and is no longer than the limit.
pub record IsValid (s : SlidingWindow) (now : ℕ) : Type 0 where
  pub limited : 1 ≤ s.limit
  pub ordered : (user : String) → IsOrdered (events_of s user)
  pub past : (user : String) → IsPast now (events_of s user)
  pub short : (user : String) → length (events_of s user) ≤ s.limit

-- The constructor refuses a limit below one, and otherwise builds a valid limiter.
pub init-IsValid :
    (limit window now : ℕ) (s : SlidingWindow) → init limit window ≡ some s → IsValid s now
unfolding init lookup
init-IsValid limit window now s h = elim (Bool-cases (ltb limit 1)) [
  | inl low ↦ absurd (ground arith)
  | inr fine ↦
      let fresh : SlidingWindow = record { limit = limit; window = window; events = [] } in
      let e : fresh ≡ s = ground arith in
      subst (λ z. IsValid z now) e
        (record {
          limited = ground arith;
          ordered = λ user. tt;
          past = λ user. tt;
          short = λ user. omega arith;
        })
]

-- the conditions on one deque
record IsDeque (limit now : ℕ) (ts : List ℕ) : Type 0 where
  ordered : IsOrdered ts
  past : IsPast now ts
  short : length ts ≤ limit

IsDeque-of :
    {s : SlidingWindow} {now : ℕ} (user : String)
    → IsValid s now
    → IsDeque s.limit now (events_of s user)
IsDeque-of user v = record { ordered = v.ordered user; past = v.past user; short = v.short user }

allow-IsDeque :
    (s : SlidingWindow) (caller : String) (last now : ℕ)
    → last ≤ now
    → IsValid s last
    → (b : Bool) → (allow s caller now).1 ≡ b
    → IsDeque s.limit now (evict s.window now (events_of s caller) ++ (if b then now ∷ [] else []))
allow-IsDeque s caller last now later v true ok =
    let e = evict s.window now (events_of s caller) in
    let p =
      IsPast-evict s.window now now (events_of s caller)
        (IsPast-later last now _ later (v.past caller)) in
    record {
      ordered = IsOrdered-snoc now e (IsOrdered-evict s.window now _ (v.ordered caller)) p;
      past = All-append (λ u. u ≤ now) e (now ∷ []) p (omega arith);
      short = omega (arith, allow-room s caller now ok, length-append e (now ∷ []));
    }
allow-IsDeque s caller last now later v false refused =
    let e = evict s.window now (events_of s caller) in
    rw append-nil (record {
      ordered = IsOrdered-evict s.window now _ (v.ordered caller);
      past =
          IsPast-evict s.window now now (events_of s caller)
            (IsPast-later last now _ later (v.past caller));
      short = omega (arith, v.short caller, length-evict-le s.window now (events_of s caller));
    })

allow-at :
    (s : SlidingWindow) (caller : String) (last now : ℕ)
    → last ≤ now
    → IsValid s last
    → (user : String) → IsDeque s.limit now (events_of (allow s caller now).0 user)
allow-at s caller last now later v user = elim (Bool-cases (caller == user)) [
  | inl same ↦
      let e : caller ≡ user = (string_eq.same_iff caller user).0 same in
      rw (← e, allow_self) (allow-IsDeque s caller last now later v (allow s caller now).1 refl)
  | inr other ↦ rw (allow_other s user caller now other) (record {
    ordered = v.ordered user;
    past = IsPast-later last now _ later (v.past user);
    short = v.short user;
  })
]

-- `allow` at a later time keeps the limiter valid, whether it says yes or no.
pub allow-IsValid :
    (s : SlidingWindow) (caller : String) (last now : ℕ)
    → last ≤ now
    → IsValid s last
    → IsValid (allow s caller now).0 now
allow-IsValid s caller last now later v = record {
  limited = rw ((allow-limit s caller now).0) v.limited;
  ordered = λ user. (allow-at s caller last now later v user).ordered;
  past = λ user. (allow-at s caller last now later v user).past;
  short = λ user. rw ((allow-limit s caller now).0) (allow-at s caller last now later v user).short;
}

count_fresh :
    (w now : ℕ) (ts : List ℕ)
    → All (λ t. now < t + w) ts
    → count (λ t. not (expired w now t)) ts ≡ length ts
unfolding count
count_fresh w now [] h = refl
count_fresh w now (t ∷ ts) h = ground (arith, count_fresh w now ts h.1)

-- what `remaining` reports is the room that eviction would leave
remaining-evict :
    (s : SlidingWindow) (user : String) (now : ℕ)
    → IsOrdered (events_of s user)
    → (remaining s user now).1 ≡ s.limit - length (evict s.window now (events_of s user))
unfolding remaining
remaining-evict s user now h =
    rw (evict-keep s.window now _ h, length-keep (λ t. not (expired s.window now t))) refl

remaining_granted :
    (w now : ℕ) (b : Bool) (ts : List ℕ)
    → 0 < w
    → All (λ t. now < t + w) ts
    → count (λ t. not (expired w now t)) (ts ++ (if b then now ∷ [] else []))
      ≡ length ts + (if b then 1 else 0)
unfolding count
remaining_granted w now true ts h k =
    ground (arith, count-append (λ t. not (expired w now t)) ts (now ∷ []), count_fresh w now ts k)
remaining_granted w now false ts h k = rw append-nil (ground (arith, count_fresh w now ts k))

pub allow-full :
    (s : SlidingWindow) (user : String) (now : ℕ)
    → (allow s user now).1 ≡ ltb (length (evict s.window now (events_of s user))) s.limit
unfolding allow
allow-full s user now = ground arith

remaining-allowed :
    (s : SlidingWindow) (user : String) (now : ℕ)
    → 0 < s.window
    → IsOrdered (events_of s user)
    → (remaining (allow s user now).0 user now).1
      ≡ s.limit
        - (length (evict s.window now (events_of s user)) + (if (allow s user now).1 then 1 else 0))
unfolding remaining
remaining-allowed s user now wide h = rw (
  (allow-limit s user now).0,
  (allow-limit s user now).1,
  allow_self s user now,
  remaining_granted s.window now (allow s user now).1 _ wide (evict-fresh s.window now _ h),
)

-- On a valid limiter `allow` says yes exactly when `remaining` is positive, and afterwards
-- `remaining` at the same time is one lower, or still 0. (With an empty window a request would
-- expire at once, so the window is positive.)
pub remaining-allow :
    (s : SlidingWindow) (user : String) (last now : ℕ)
    → 0 < s.window
    → last ≤ now
    → IsValid s last
    → ((allow s user now).1 ≡ ltb 0 (remaining s user now).1)
      × ((remaining (allow s user now).0 user now).1 ≡ (remaining s user now).1 - 1)
remaining-allow s user last now wide later v =
    let h = v.ordered user in
    (
      rw (remaining-evict s user now h, allow-full) (ground arith),
      rw (remaining-allowed s user now wide h, remaining-evict s user now h, allow-full)
          (ground arith),
    )
