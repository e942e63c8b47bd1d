-- ===== src/Ratelimit/Moves.antt =====
-- The steps of `check` in dealfinder/ratelimit.py: what a clean-up of one table does to the limiter.
use tutorial_dealfinder.Base.{
  ℕ, ◌*◌, ◌≤◌, String, ◌≡◌, refl, ◌∙◌, inl, inr, false, ltb, arith, length, IsDict, lookup, insert,
  lookup-insert, lookup-insert_self, some, ok, string_eq, ◌==◌, Bool-cases,
}
use tutorial_dealfinder.Compliance.Window.{SlidingWindow}
use tutorial_dealfinder.Compliance.Window.Valid.{IsValid}
use tutorial_dealfinder.Ratelimit.{Limiter, shrink_due, maybe_shrink, shrink_above}
use tutorial_dealfinder.Ratelimit.Shrink.{Shrinks, shrink_lem}

-- A path's table: a valid limiter, a dict, and at most twice `max_keys` clients.
pub record IsTable (max_keys now : ℕ) (w : SlidingWindow) : Type 0 where
  pub valid : IsValid w now
  pub dict : IsDict w.events
  pub ceiling : length w.events ≤ 2 * max_keys

pub record IsReady (l : Limiter) (now : ℕ) : Type 0 where
  pub table :
      (path : String) (w : SlidingWindow)
      → lookup l.windows path ≡ some w
      → IsTable l.max_keys now w

-- The limiter goes on with `w'` under the path, and with the other paths as they were.
pub record Moves (l : Limiter) (path : String) (l' : Limiter) (w' : SlidingWindow) : Type 0 where
  pub same_cap : l'.max_keys ≡ l.max_keys
  pub here : lookup l'.windows path ≡ some w'
  pub others : (p : String) → (path == p) ≡ false → lookup l'.windows p ≡ lookup l.windows p

pub Moves-trans :
    {l l' l'' : Limiter} {path : String} {w' w'' : SlidingWindow}
    → Moves l path l' w'
    → Moves l' path l'' w''
    → Moves l path l'' w''
Moves-trans a b = record {
  same_cap = b.same_cap ∙ a.same_cap;
  here = b.here;
  others = λ p ne. b.others p ne ∙ a.others p ne;
}

pub Moves-insert :
    (l l' : Limiter) (path : String) (w' : SlidingWindow)
    → l'.max_keys ≡ l.max_keys
    → l'.windows ≡ insert l.windows path w'
    → Moves l path l' w'
Moves-insert l l' path w' cap e = record {
  same_cap = cap;
  here = rw e (lookup-insert_self l.windows path w');
  others = λ p ne. rw e (ground (arith, lookup-insert l.windows path p w'));
}

Shrinks-refl : (w : SlidingWindow) (now : ℕ) → IsDict w.events → Shrinks w now w
Shrinks-refl w now d = record {
  same_limit = refl;
  same_window = refl;
  dict = d;
  shorter = omega arith;
  kept_or_gone = λ k. inr refl;
  at_limit_stays = λ k ev h busy full. h;
}

pub maybe_shrink_lem :
    (l : Limiter) (path : String) (w : SlidingWindow) (now : ℕ)
    → lookup l.windows path ≡ some w
    → IsDict w.events
    → (l' : Limiter) × (w' : SlidingWindow) × (maybe_shrink l path w now ≡ ok (l', w'))
      × Shrinks w now w'
      × Moves l path l' w'
unfolding maybe_shrink
maybe_shrink_lem l path w now held d = elim (Bool-cases (shrink_due l.last_shrink path now)) [
  | inl due ↦
      let (w', returned, shrinks) = shrink_lem l.max_keys w now d in
      let l' : Limiter = record l {
        windows = insert l.windows path w';
        last_shrink = insert l.last_shrink path now;
      } in
      (l', w', rw (due, returned), shrinks, Moves-insert l l' path w' refl refl)
  | inr early ↦ (
    l,
    w,
    rw early,
    Shrinks-refl w now d,
    record { same_cap = refl; here = held; others = λ p ne. refl },
  )
]

pub shrink_above_lem :
    (l : Limiter) (path : String) (w : SlidingWindow) (now : ℕ)
    → lookup l.windows path ≡ some w
    → IsDict w.events
    → (l' : Limiter) × (w' : SlidingWindow) × (shrink_above l path w now ≡ ok (l', w'))
      × Shrinks w now w'
      × Moves l path l' w'
unfolding shrink_above
shrink_above_lem l path w now held d = elim (Bool-cases (ltb l.max_keys (length w.events))) [
  | inl above ↦ rw above (maybe_shrink_lem l path w now held d)
  | inr below ↦ (
    l,
    w,
    rw below,
    Shrinks-refl w now d,
    record { same_cap = refl; here = held; others = λ p ne. refl },
  )
]

-- A clean-up keeps a table a table.
Shrinks-IsValid :
    {w w' : SlidingWindow} {now : ℕ} → Shrinks w now w' → IsValid w now → IsValid w' now
Shrinks-IsValid {w} {w'} {now} s v = record {
  limited = rw (s.same_limit) v.limited;
  ordered =
      λ k. elim (s.kept_or_gone k) [ inl gone ↦ rw gone tt | inr stays ↦ rw stays (v.ordered k) ];
  past = λ k. elim (s.kept_or_gone k) [ inl gone ↦ rw gone tt | inr stays ↦ rw stays (v.past k) ];
  short = λ k. elim (s.kept_or_gone k) [
    | inl gone ↦ rw gone (omega arith)
    | inr stays ↦ rw (stays, s.same_limit) (v.short k)
  ];
}

pub Shrinks-IsTable :
    {w w' : SlidingWindow} {now max_keys : ℕ}
    → Shrinks w now w'
    → IsTable max_keys now w
    → IsTable max_keys now w'
Shrinks-IsTable s t = record {
  valid = Shrinks-IsValid s t.valid;
  dict = s.dict;
  ceiling = omega (arith, s.shorter, t.ceiling);
}
