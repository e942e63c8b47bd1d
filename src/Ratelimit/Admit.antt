-- ===== src/Ratelimit/Admit.antt =====
-- The part of `check` (dealfinder/ratelimit.py) from the call of `allow` on: it returns, and answers
-- as the sliding window does.
use tutorial_dealfinder.Base.{
  ℕ, ◌+◌, ◌-◌, ◌*◌, ◌≤◌, ◌<◌, String, ◌≡◌, refl, ap, ◌∙◌, ◌⊎◌, inl, inr, true, false, List, [], ◌∷◌,
  ◌++◌, leb, arith, length, All, lookup, insert, has, insert-IsDict, length-insert,
  lookup-insert_self, Option, none, some, ok, string_eq, Bool-cases, if◌then◌else◌,
}
use tutorial_dealfinder.Compliance.Window.{SlidingWindow, allow, evict, events_of}
use tutorial_dealfinder.Compliance.Window.Eviction.{evict-fresh}
use tutorial_dealfinder.Compliance.Window.Bound.{allow-limit}
use tutorial_dealfinder.Compliance.Window.Valid.{IsValid, allow-IsValid}
use tutorial_dealfinder.Ratelimit.{Limiter, last?, is_idle, first, retry_after, admit}
use tutorial_dealfinder.Ratelimit.Shrink.{Shrinks}
use tutorial_dealfinder.Ratelimit.Moves.{
  IsTable, Moves, Moves-trans, Moves-insert, shrink_above_lem, Shrinks-IsTable,
}

pub allow-events :
    (s : SlidingWindow) (user : String) (now : ℕ)
    → (ev : List ℕ) × ((allow s user now).0.events ≡ insert s.events user ev)
unfolding allow
allow-events s user now =
    let e = evict s.window now (events_of s user) in
    elim (Bool-cases (leb s.limit (length e))) [
      | inl full ↦ (e, rw full)
      | inr free ↦ (e ++ now ∷ [], rw free)
    ]

pub allow-refused :
    (s : SlidingWindow) (user : String) (now : ℕ)
    → (allow s user now).1 ≡ false
    → (lookup (allow s user now).0.events user ≡ some (evict s.window now (events_of s user)))
      × (s.limit ≤ length (evict s.window now (events_of s user)))
unfolding allow
allow-refused s user now h =
    let e = evict s.window now (events_of s user) in
    (ground (arith, lookup-insert_self s.events user e), ground arith)

-- A client is admitted to its table, or it is there already.
abbrev pub HasRoom : ℕ → SlidingWindow → String → Type 0
HasRoom max_keys w key = (has w.events key ≡ true) ⊎ (length w.events < 2 * max_keys)

pub allow-IsTable :
    (max_keys : ℕ) (w : SlidingWindow) (key : String) (last now : ℕ)
    → last ≤ now
    → HasRoom max_keys w key
    → IsTable max_keys last w
    → IsTable max_keys now (allow w key now).0
allow-IsTable max_keys w key last now later room t =
    let (ev, e) = allow-events w key now in
    record {
      valid = allow-IsValid w key last now later t.valid;
      dict = rw e (insert-IsDict w.events key ev t.dict);
      ceiling = rw e (ground (arith, length-insert w.events key ev, t.ceiling, room));
    }

busy_of_fresh :
    (w now : ℕ) (ts : List ℕ) → All (λ t. now < t + w) ts → 0 < length ts → is_idle w now ts ≡ false
unfolding is_idle last?
busy_of_fresh w now [] h n = absurd (omega arith)
busy_of_fresh w now (t ∷ []) h n = ground arith
busy_of_fresh w now (t ∷ u ∷ us) h n = busy_of_fresh w now (u ∷ us) h.1 (omega arith)

-- the wait that is reported for a deque
abbrev pub wait_of : ℕ → ℕ → List ℕ → ℕ
wait_of w now [] = 0
wait_of w now (t ∷ ts) = t + w - now

retry_after_lem :
    (w : SlidingWindow) (key : String) (now : ℕ) (ev : List ℕ)
    → lookup w.events key ≡ some ev
    → 0 < length ev
    → retry_after w key now ≡ ok (wait_of w.window now ev)
unfolding retry_after first
retry_after_lem w key now [] h n = absurd (omega arith)
retry_after_lem w key now (t ∷ ts) h n = rw h

-- What `admit` answers: nothing if `allow` says yes, and otherwise the time until the oldest
-- request in the window leaves it.
abbrev pub answer_of : SlidingWindow → String → ℕ → Option ℕ
answer_of w key now =
    if (allow w key now).1
    then none
    else some (wait_of w.window now (evict w.window now (events_of w key)))

retry_refused :
    (w : SlidingWindow) (key : String) (last now : ℕ) (final : SlidingWindow)
    → last ≤ now
    → IsValid w last
    → (allow w key now).1 ≡ false
    → Shrinks (allow w key now).0 now final
    → retry_after final key now ≡ ok (wait_of w.window now (evict w.window now (events_of w key)))
retry_refused w key last now final later v refused s =
    let e = evict w.window now (events_of w key) in
    let (held, full) = allow-refused w key now refused in
    let (same_limit, same_window) = allow-limit w key now in
    let some_room : 0 < length e = omega (arith, v.limited) in
    let busy =
      busy_of_fresh w.window now e (evict-fresh w.window now _ (v.ordered key)) some_room in
    let stays = s.at_limit_stays key e held (rw same_window busy) (rw same_limit full) in
    retry_after_lem final key now e stays some_room
    ∙ ap (λ (x : ℕ). ok (wait_of x now e)) (s.same_window ∙ same_window)

-- the limiter after a call, and the table of its path
abbrev pub Ends : Limiter → String → ℕ → Limiter → Type 0
Ends l path now l' = (w : SlidingWindow) × Moves l path l' w × IsTable l'.max_keys now w

pub admit_lem :
    (l : Limiter) (path : String) (w : SlidingWindow) (key : String) (last now : ℕ)
    → last ≤ now
    → HasRoom l.max_keys w key
    → IsTable l.max_keys last w
    → (l' : Limiter) × (admit l path w key now ≡ ok (l', answer_of w key now)) × Ends l path now l'
unfolding admit
admit_lem l path w key last now later room t =
    let called = (allow w key now).0 in
    let table = allow-IsTable l.max_keys w key last now later room t in
    let written : Limiter = record l { windows = insert l.windows path called } in
    let (l', final, returned, shrinks, moves) =
      shrink_above_lem written path called now (lookup-insert_self l.windows path called)
        table.dict in
    let whole = Moves-trans (Moves-insert l written path called refl refl) moves in
    let ends : Ends l path now l' =
      (final, whole, rw whole.same_cap (Shrinks-IsTable shrinks table)) in
    elim (Bool-cases (allow w key now).1) [
      | inl allowed ↦ (l', rw (returned, allowed), ends)
      | inr refused ↦ (
        l',
        rw (returned, refused, retry_refused w key last now final later t.valid refused shrinks),
        ends,
      )
    ]
