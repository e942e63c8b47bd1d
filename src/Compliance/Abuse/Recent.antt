-- ===== src/Compliance/Abuse/Recent.antt =====
-- What the deques of `AbuseDetector` hold: on times in order, eviction is the filter on the window.
use tutorial_dealfinder.Base.{
  All-append, All-keep, ℕ, ◌+◌, ◌≤◌, ◌<◌, ◌≡◌, refl, Bool, not, List, [], ◌∷◌, ◌++◌, arith, keep,
  All, Bool-cases, inl, inr, ◌∙◌, ap, sym,
}
use tutorial_dealfinder.Compliance.Window.{expired}
use tutorial_dealfinder.Compliance.Abuse.{evict}

-- `(t, inj)` is inside the window at `now`
abbrev pub live : ℕ → ℕ → ℕ × Bool → Bool
live w now e = not (expired w now e.0)

-- in time order
abbrev pub IsOrdered : List (ℕ × Bool) → Type 0
IsOrdered [] = Unit
IsOrdered (e ∷ es) = All (λ f. e.0 ≤ f.0) es × IsOrdered es

keep-live :
    (w now : ℕ) (t : ℕ) (es : List (ℕ × Bool))
    → now < t + w
    → All (λ f. t ≤ f.0) es
    → keep (live w now) es ≡ es
unfolding keep
keep-live w now t [] h k = refl
keep-live w now t (e ∷ es) h k = ground (arith, keep-live w now t es h k.1, k.0)

pub evict-live :
    (w now : ℕ) (es : List (ℕ × Bool)) → IsOrdered es → evict w now es ≡ keep (live w now) es
unfolding evict keep
evict-live w now [] h = refl
evict-live w now (e ∷ es) h = ground (arith, evict-live w now es h.1, keep-live w now e.0 es)

-- what has left the window does not come back
pub keep-live_again :
    (w last now : ℕ) (es : List (ℕ × Bool))
    → last ≤ now
    → keep (live w now) (keep (live w last) es) ≡ keep (live w now) es
unfolding keep
keep-live_again w last now [] h = refl
keep-live_again w last now (e ∷ es) h = ground (arith, keep-live_again w last now es h)

pub keep-append :
    (p : ℕ × Bool → Bool) (es fs : List (ℕ × Bool)) → keep p (es ++ fs) ≡ keep p es ++ keep p fs
unfolding keep
keep-append p [] fs = refl
keep-append p (e ∷ es) fs = ground (arith, keep-append p es fs)

pub IsOrdered-snoc :
    (es : List (ℕ × Bool)) (e : ℕ × Bool)
    → IsOrdered es
    → All (λ f. f.0 ≤ e.0) es
    → IsOrdered (es ++ e ∷ [])
IsOrdered-snoc [] e h k = (tt, tt)
IsOrdered-snoc (f ∷ es) e h k =
    (All-append (λ g. f.0 ≤ g.0) es (e ∷ []) h.0 (k.0, tt), IsOrdered-snoc es e h.1 k.1)

pub IsOrdered-keep :
    (p : ℕ × Bool → Bool) (es : List (ℕ × Bool)) → IsOrdered es → IsOrdered (keep p es)
unfolding keep
IsOrdered-keep p [] h = tt
IsOrdered-keep p (e ∷ es) h = elim (Bool-cases (p e)) [
  | inl k ↦ rw k (All-keep (λ f. e.0 ≤ f.0) p es h.0, IsOrdered-keep p es h.1)
  | inr k ↦ rw k (IsOrdered-keep p es h.1)
]

-- A deque that holds what was live of the past, appended to and evicted, holds what is live now.
pub evict-window :
    (w last now : ℕ) (past : List (ℕ × Bool)) (b : Bool)
    → last ≤ now
    → IsOrdered past
    → All (λ e. e.0 ≤ now) past
    → evict w now (keep (live w last) past ++ (now, b) ∷ [])
      ≡ keep (live w now) (past ++ (now, b) ∷ [])
evict-window w last now past b later order early =
    evict-live w now (keep (live w last) past ++ (now, b) ∷ []) (
      IsOrdered-snoc (keep (live w last) past) (now, b) (IsOrdered-keep (live w last) past order)
        (All-keep (λ e. e.0 ≤ now) (live w last) past early))
    ∙ keep-append (live w now) (keep (live w last) past) ((now, b) ∷ [])
    ∙ ap (λ es. es ++ keep (live w now) ((now, b) ∷ [])) (keep-live_again w last now past later)
    ∙ sym (keep-append (live w now) past ((now, b) ∷ []))
