-- ===== src/Ratelimit/Check.antt =====
-- `check` of dealfinder/ratelimit.py: it never raises, keeps every table below its ceiling and
-- leaves the other paths alone.
use tutorial_dealfinder.Base.{
  ℕ, ◌*◌, ◌≤◌, String, ◌≡◌, refl, sym, ◌∙◌, inl, inr, false, List, [], ◌∷◌, ltb, arith, length,
  Dict, IsDict, lookup, has, subst, Option, none, some, Result, ok, ◌>>=◌, string_eq, ◌==◌,
  Bool-cases, Option-cases, leb→lt,
}
use tutorial_dealfinder.Compliance.Window.{SlidingWindow, init}
use tutorial_dealfinder.Compliance.Window.Eviction.{IsPast-later}
use tutorial_dealfinder.Compliance.Window.Valid.{init-IsValid}
use tutorial_dealfinder.Ratelimit.{
  Error, Limiter, windows_of, create, is_full, check_window, check, client_entry,
}
use tutorial_dealfinder.Ratelimit.Moves.{
  IsTable, IsReady, Moves-trans, maybe_shrink_lem, Shrinks-IsTable,
}
use tutorial_dealfinder.Ratelimit.Admit.{Ends, admit_lem, answer_of}

IsTable-later :
    {max_keys a b : ℕ} {w : SlidingWindow} → a ≤ b → IsTable max_keys a w → IsTable max_keys b w
IsTable-later {a = a} {b} later t = record {
  valid = record {
    limited = t.valid.limited;
    ordered = t.valid.ordered;
    past = λ k. IsPast-later a b _ later (t.valid.past k);
    short = t.valid.short;
  };
  dict = t.dict;
  ceiling = t.ceiling;
}

Ends-IsReady :
    {l l' : Limiter} {path : String} {last now : ℕ}
    → last ≤ now
    → IsReady l last
    → Ends l path now l'
    → IsReady l' now
Ends-IsReady {l} {l'} {path} {last} {now} later ready (w', moves, table) = record {
  table = λ p w h. elim (Bool-cases (path == p)) [
    | inl same ↦
        let e : w' ≡ w = ground (arith, moves.here, (string_eq.same_iff path p).0 same, h) in
        rw (← e) table
    | inr other ↦
        rw moves.same_cap (IsTable-later later (ready.table p w (sym (moves.others p other) ∙ h)))
  ];
}

window_lem :
    (l : Limiter) (path : String) (w : SlidingWindow) (key : String) (last now : ℕ)
    → last ≤ now
    → lookup l.windows path ≡ some w
    → IsTable l.max_keys last w
    → (l' : Limiter) × (r : Option ℕ) × (check_window l path w key now ≡ ok (l', r))
      × Ends l path now l'
unfolding check_window
window_lem l path w key last now later held t = elim (Bool-cases (has w.events key)) [
  | inl tracked ↦
      let (l', returned, ends) = admit_lem l path w key last now later (inl tracked) t in
      (l', answer_of w key now, rw (tracked, returned), ends)
  | inr fresh ↦ elim (Bool-cases (is_full l w)) [
    | inr free ↦
        let (l', returned, ends) =
          admit_lem l path w key last now later (inr (leb→lt _ _ free)) t in
        (l', answer_of w key now, rw (fresh, free, returned), ends)
    | inl full ↦
        let (l', w', shrunk, shrinks, moves) = maybe_shrink_lem l path w now held t.dict in
        let table = Shrinks-IsTable shrinks (IsTable-later later t) in
        elim (Bool-cases (is_full l' w')) [
          | inl still ↦ (
            l',
            some w'.window,
            rw (fresh, full, shrunk, still),
            (w', moves, rw moves.same_cap table),
          )
          | inr free ↦
              let (l'', returned, ends) =
                admit_lem l' path w' key now now (omega arith) (inr (leb→lt _ _ free))
                  (rw moves.same_cap table) in
              (
                l'',
                answer_of w' key now,
                rw (fresh, full, shrunk, free, returned),
                (ends.0, Moves-trans moves ends.1, ends.2),
              )
        ]
  ]
]

-- On a limiter whose tables are valid, at a time that is not before the last call, `check` returns:
-- it never raises a KeyError or an IndexError. Every table is valid again and holds at most twice
-- `max_keys` clients, and the tables of all other paths are as they were.
pub check_lem :
    (l : Limiter) (path client : String) (last now : ℕ)
    → last ≤ now
    → IsReady l last
    → (l' : Limiter) × (r : Option ℕ) × (check l path client now ≡ ok (l', r))
      × IsReady l' now
      × (l'.max_keys ≡ l.max_keys)
      × ((p : String) → (path == p) ≡ false → lookup l'.windows p ≡ lookup l.windows p)
unfolding check
check_lem l path client last now later ready = elim (Option-cases (lookup l.windows path)) [
  | inl free ↦ (
    l,
    none,
    rw (free, check),
    record { table = λ p w h. IsTable-later later (ready.table p w h) },
    refl,
    λ p ne. refl,
  )
  | inr (w, held) ↦
      let (l', r, returned, ends) =
        window_lem l path w (client_entry path client) last now later held
          (ready.table path w held) in
      (
        l',
        r,
        rw (held, check) returned,
        Ends-IsReady later ready ends,
        ends.1.same_cap,
        ends.1.others,
      )
]

-- a sequence of calls, as the middleware makes them
unfoldable pub serve :
    Limiter → List (String × (String × ℕ)) → Result Error (Limiter × List (Option ℕ))
serve l [] = ok (l, [])
serve l ((path, (client, now)) ∷ requests) = do
  (l', r) ← check l path client now
  (l'', rs) ← serve l' requests
  ok (l'', r ∷ rs)

abbrev pub IsTimed : ℕ → List (String × (String × ℕ)) → Type 0
IsTimed last [] = Unit
IsTimed last ((_, (_, now)) ∷ rs) = (last ≤ now) × IsTimed now rs

init-IsDict : (n w : ℕ) (s : SlidingWindow) → init n w ≡ some s → IsDict s.events
unfolding init
init-IsDict n w s h = elim (Bool-cases (ltb n 1)) [
  | inl low ↦ absurd (ground arith)
  | inr fine ↦ let e : s.events ≡ [] = ground arith in rw e tt
]

init_empty : (n w m : ℕ) (s : SlidingWindow) → init n w ≡ some s → length s.events ≤ 2 * m
unfolding init
init_empty n w m s h = elim (Bool-cases (ltb n 1)) [
  | inl low ↦ absurd (ground arith)
  | inr fine ↦ let e : s.events ≡ [] = ground arith in rw e (omega arith)
]

windows_of-IsTable :
    (ls : Dict String (ℕ × ℕ)) (max_keys : ℕ) (ws : Dict String SlidingWindow)
    → windows_of ls ≡ some ws
    → (path : String) (w : SlidingWindow) → lookup ws path ≡ some w
    → IsTable max_keys 0 w
unfolding windows_of lookup
windows_of-IsTable [] max_keys ws h path w q = absurd (ground arith)
windows_of-IsTable ((p, (n, span)) ∷ ls) max_keys ws h path w q =
    elim (Option-cases (init n span)) [
      | inl bad ↦ absurd (ground arith)
      | inr (w', made) ↦ elim (Option-cases (windows_of ls)) [
        | inl bad ↦ absurd (ground arith)
        | inr (rest, others) ↦ elim (Bool-cases (p == path)) [
          | inl here ↦
              let e : w' ≡ w = ground arith in
              rw (← e) (record {
                valid = init-IsValid n span 0 w' made;
                dict = init-IsDict n span w' made;
                ceiling = init_empty n span max_keys w' made;
              })
          | inr later ↦ windows_of-IsTable ls max_keys rest others path w (ground arith)
        ]
      ]
    ]

-- The constructor builds a ready limiter, or raises.
pub create-IsReady :
    (ls : Dict String (ℕ × ℕ)) (max_keys : ℕ) (l : Limiter)
    → create ls max_keys ≡ some l
    → IsReady l 0
unfolding create
create-IsReady ls max_keys l h = elim (Option-cases (windows_of ls)) [
  | inl bad ↦ absurd (ground arith)
  | inr (ws, made) ↦
      let fresh : Limiter = record { windows = ws; max_keys = max_keys; last_shrink = [] } in
      let e : fresh ≡ l = ground arith in
      subst (λ x. IsReady x 0) e (record { table = windows_of-IsTable ls max_keys ws made })
]

-- Whatever requests come in, at times that never go back, no `check` raises: the whole sequence
-- returns.
pub serve_lem :
    (requests : List (String × (String × ℕ))) (l : Limiter) (last : ℕ)
    → IsTimed last requests
    → IsReady l last
    → (l' : Limiter) × (answers : List (Option ℕ)) × (serve l requests ≡ ok (l', answers))
      × (length answers ≡ length requests)
unfolding serve
serve_lem [] l last t ready = (l, [], refl, refl)
serve_lem ((path, (client, now)) ∷ requests) l last t ready =
    let (l1, r, returned, ready1, _, _) = check_lem l path client last now t.0 ready in
    let (l2, answers, rest, n) = serve_lem requests l1 now t.1 ready1 in
    (l2, r ∷ answers, rw (returned, rest), omega (arith, n))
