-- ===== src/Compliance/Window/Bound.antt =====
-- The limit over whole histories: `allow` of dealfinder/compliance.py, called by many users at
-- times that never go back.
use tutorial_dealfinder.Base.{
  count-le-length, count_mono, leb→le, append_assoc, count-append, ℕ, ◌+◌, ◌≤◌, ◌<◌, String, ◌≡◌,
  refl, sym, ◌∙◌, Bool, true, false, ◌&&◌, List, [], ◌∷◌, ◌++◌, leb, ltb, arith, length, count,
  lookup-insert, string_eq, ◌==◌, Bool-cases, inl, inr, append-nil, if◌then◌else◌,
}
use tutorial_dealfinder.Compliance.Window.{SlidingWindow, evict, events_of, allow}
use tutorial_dealfinder.Compliance.Window.Eviction.{count-evict}

-- the times at which requests of `user` were allowed
unfoldable pub granted : String → SlidingWindow → List (String × ℕ) → List ℕ
granted user s [] = []
granted user s ((caller, now) ∷ calls) =
    let rest = granted user (allow s caller now).0 calls in
    if (caller == user) && (allow s caller now).1 then now ∷ rest else rest

-- the clock never goes back
abbrev pub IsClock : ℕ → List (String × ℕ) → Type 0
IsClock last [] = Unit
IsClock last ((_, now) ∷ calls) = (last ≤ now) × IsClock now calls

abbrev pub after : ℕ → ℕ → Bool
after x t = ltb x t

-- `x < t <= x + window`
abbrev pub within : ℕ → ℕ → ℕ → Bool
within w x t = ltb x t && leb t (x + w)

-- what an allowed request adds to the history of `user`
abbrev grant : String → String → Bool → ℕ → List ℕ
grant user caller allowed now = if (caller == user) && allowed then now ∷ [] else []

pub allow_self :
    (s : SlidingWindow) (user : String) (now : ℕ)
    → events_of (allow s user now).0 user
      ≡ evict s.window now (events_of s user) ++ (if (allow s user now).1 then now ∷ [] else [])
unfolding allow
allow_self s user now =
    let e = evict s.window now (events_of s user) in
    elim (Bool-cases (leb s.limit (length e))) [
      | inl full ↦
          rw (full, lookup-insert s.events user user e, (string_eq.same_iff user user).1 refl)
            (sym (append-nil e))
      | inr free ↦ rw (
        free,
        lookup-insert s.events user user (e ++ now ∷ []),
        (string_eq.same_iff user user).1 refl,
      )
    ]

pub allow_other :
    (s : SlidingWindow) (user caller : String) (now : ℕ)
    → (caller == user) ≡ false
    → events_of (allow s caller now).0 user ≡ events_of s user
unfolding allow
allow_other s user caller now other =
    let e = evict s.window now (events_of s caller) in
    ground (
      arith,
      other,
      lookup-insert s.events caller user e,
      lookup-insert s.events caller user (e ++ now ∷ []),
    )

pub allow-limit :
    (s : SlidingWindow) (user : String) (now : ℕ)
    → ((allow s user now).0.limit ≡ s.limit) × ((allow s user now).0.window ≡ s.window)
unfolding allow
allow-limit s user now = ground arith

-- an allowed request found room
pub allow-room :
    (s : SlidingWindow) (user : String) (now : ℕ)
    → (allow s user now).1 ≡ true
    → length (evict s.window now (events_of s user)) < s.limit
unfolding allow
allow-room s user now h = ground arith

-- The deque of `user` holds what still counts of its allowed requests `past`, the latest call being at `last`.
record Tracks (user : String) (w limit last : ℕ) (past : List ℕ) (s : SlidingWindow) : Type 0 where
  same_limit : s.limit ≡ limit
  same_window : s.window ≡ w
  held : (x : ℕ) → last ≤ x + w → count (after x) past ≤ count (after x) (events_of s user)
  bounded : (x : ℕ) → count (within w x) past ≤ limit

module _ {user : String} {w limit last : ℕ} {past : List ℕ} {s : SlidingWindow} (now : ℕ)
    (later : last ≤ now) (t : Tracks user w limit last past s) where
  held_evict :
      (x : ℕ)
      → now ≤ x + w
      → count (after x) past ≤ count (after x) (evict w now (events_of s user))
  held_evict x h = omega (arith, t.held x, count-evict w now x (events_of s user) h)

  Tracks-other :
      (caller : String)
      → (caller == user) ≡ false
      → Tracks user w limit now past (allow s caller now).0
  Tracks-other caller other = record {
    same_limit = (allow-limit s caller now).0 ∙ t.same_limit;
    same_window = (allow-limit s caller now).1 ∙ t.same_window;
    held = λ x h. rw (allow_other s user caller now other) (t.held x (omega arith));
    bounded = t.bounded;
  }

  Tracks-refused : (allow s user now).1 ≡ false → Tracks user w limit now past (allow s user now).0
  Tracks-refused refused = record {
    same_limit = (allow-limit s user now).0 ∙ t.same_limit;
    same_window = (allow-limit s user now).1 ∙ t.same_window;
    held = λ x h. rw (allow_self s user now, refused, append-nil, t.same_window) (held_evict x h);
    bounded = t.bounded;
  }

  Tracks-allowed :
      (allow s user now).1 ≡ true → Tracks user w limit now (past ++ now ∷ []) (allow s user now).0
  Tracks-allowed allowed = record {
    same_limit = (allow-limit s user now).0 ∙ t.same_limit;
    same_window = (allow-limit s user now).1 ∙ t.same_window;
    held = λ x h.
        rw (allow_self s user now, allowed, t.same_window)
          (omega (
            arith,
            held_evict x h,
            count-append (after x) past (now ∷ []),
            count-append (after x) (evict w now (events_of s user)) (now ∷ []),
          ));
    bounded = λ x. elim (Bool-cases (leb now (x + w))) [
      | inl inside ↦ omega (
        arith,
        held_evict x (leb→le now (x + w) inside),
        count-append (within w x) past (now ∷ []),
        count_mono (within w x) (after x) past (λ y h. ground arith),
        count-le-length (after x) (evict w now (events_of s user)),
        room,
        new_one x,
      )
      | inr outside ↦
          omega (arith, t.bounded x, count-append (within w x) past (now ∷ []), none_new x outside)
    ];
  }
    where
      room : length (evict w now (events_of s user)) < limit
      room = rw (← t.same_window, ← t.same_limit) (allow-room s user now allowed)

      new_one : (x : ℕ) → count (within w x) (now ∷ []) ≤ 1
      new_one x = unfold count in ground arith

      none_new : (x : ℕ) → leb now (x + w) ≡ false → count (within w x) (now ∷ []) ≡ 0
      none_new x h = unfold count in ground arith

  Tracks-same :
      (caller : String) (allowed : Bool)
      → (caller == user) ≡ true
      → (allow s caller now).1 ≡ allowed
      → Tracks user w limit now (past ++ (if allowed then now ∷ [] else [])) (allow s caller now).0
  Tracks-same caller allowed same r =
      let e : caller ≡ user = (string_eq.same_iff caller user).0 same in
      rw e (Tracks-either allowed (rw e at r))
    where
      Tracks-either :
          (b : Bool)
          → (allow s user now).1 ≡ b
          → Tracks user w limit now (past ++ (if b then now ∷ [] else [])) (allow s user now).0
      Tracks-either true q = Tracks-allowed q
      Tracks-either false q = rw append-nil (Tracks-refused q)

granted_tracked :
    (user : String) (w limit last : ℕ) (past : List ℕ) (s : SlidingWindow)
    (calls : List (String × ℕ))
    → IsClock last calls
    → Tracks user w limit last past s
    → (x : ℕ) → count (within w x) (past ++ granted user s calls) ≤ limit
unfolding granted
granted_tracked user w limit last past s [] c t x = rw append-nil (t.bounded x)
granted_tracked user w limit last past s ((caller, now) ∷ calls) c t x =
    let s' = (allow s caller now).0 in
    elim (Bool-cases (caller == user)) [
      | inr other ↦ rw other (
          granted_tracked user w limit now past s' calls c.1 (Tracks-other now c.0 t caller other)
            x)
      | inl same ↦ elim (Bool-cases (allow s caller now).1) [
        | inl ok ↦
            rw (same, ok, ← append_assoc past (now ∷ []) (granted user s' calls))
              (granted_tracked user w limit now (past ++ now ∷ []) s' calls c.1
                (Tracks-same now c.0 t caller true same ok) x)
        | inr refused ↦
            rw (same, refused)
              (granted_tracked user w limit now past s' calls c.1
                (rw append-nil at (Tracks-same now c.0 t caller false same refused)) x)
      ]
    ]

-- From a limiter with no recorded requests, whoever calls and whenever, as long as the clock does
-- not go back: among the allowed requests of one user, at most `limit` fall in any interval of the
-- window's length.
pub granted_bound :
    (user : String) (s : SlidingWindow) (calls : List (String × ℕ)) (x : ℕ)
    → s.events ≡ []
    → IsClock 0 calls
    → count (within s.window x) (granted user s calls) ≤ s.limit
granted_bound user s calls x fresh c =
    granted_tracked user s.window s.limit 0 [] s calls c
      (record {
        same_limit = refl;
        same_window = refl;
        held = λ y h. unfold count in omega arith;
        bounded = λ y. unfold count in omega arith;
      })
      x
