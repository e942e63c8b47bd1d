-- ===== src/Compliance/Abuse/Signals.antt =====
-- What `AbuseDetector` reports, against the whole history of calls.
use tutorial_dealfinder.Base.{
  ℕ, ◌≤◌, ◌≡◌, refl, String, Bool, false, List, [], ◌∷◌, ◌++◌, leb, ltb, arith, keep, All,
  if◌then◌else◌, Bool-cases, inl, inr, ◌∙◌, ap, length, count, lookup, insert, lookup-insert,
  lookup-insert_self, get_or, string_eq, ◌==◌, All-weaken, All-append, append_assoc, ◌||◌,
}
use tutorial_dealfinder.Safety.{detect_prompt_injection}
use tutorial_dealfinder.Compliance.Abuse.{
  AbuseDetector, init, events_of, evict, observe, reasons_of, is_flagged,
}
use tutorial_dealfinder.Compliance.Abuse.Recent.{evict-window, live, IsOrdered, IsOrdered-snoc}

-- A call: the user, the text and the time.
abbrev pub Call : Type 0
Call = String × (String × ℕ)

-- times that never go back, from `last` on
abbrev pub IsClock : ℕ → List Call → Type 0
IsClock last [] = Unit
IsClock last ((_, (_, now)) ∷ calls) = (last ≤ now) × IsClock now calls

module _ (search : String → String → Bool) where
  -- a call, as a deque holds it
  abbrev pub noted : String → ℕ → ℕ × Bool
  noted text now = (now, detect_prompt_injection search text)

  -- the detector after some calls
  unfoldable pub observe_all : AbuseDetector → List Call → AbuseDetector
  observe_all d [] = d
  observe_all d ((user, (text, now)) ∷ calls) = observe_all (observe search d user text now).0 calls

  -- one user's calls: their times, and whether they were injections
  unfoldable pub calls_of : String → List Call → List (ℕ × Bool)
  calls_of user [] = []
  calls_of user ((who, (text, now)) ∷ calls) =
      let rest = calls_of user calls in if who == user then noted text now ∷ rest else rest

  flagged_lem :
      (d : AbuseDetector) (es : List (ℕ × Bool))
      → is_flagged (reasons_of d es)
        ≡ (ltb d.max_events (length es) || leb d.max_injections (count (λ e. e.1) es))
  unfolding is_flagged reasons_of
  flagged_lem d es = ground arith

  -- The deque of `user` is what was inside the window at the user's last call, of all its calls.
  record Tracks (user : String) (d0 : AbuseDetector) (last : ℕ) (past : List (ℕ × Bool))
      (d : AbuseDetector) : Type 0 where
    same_window : d.window ≡ d0.window
    same_reasons : (es : List (ℕ × Bool)) → reasons_of d es ≡ reasons_of d0 es
    ordered : IsOrdered past
    earlier : All (λ e. e.0 ≤ last) past
    at : ℕ
    behind : at ≤ last
    held : events_of d user ≡ keep (live d0.window at) past

  module _ {user : String} {d0 : AbuseDetector} {last : ℕ} {past : List (ℕ × Bool)}
      {d : AbuseDetector} (text : String) (now : ℕ) (later : last ≤ now)
      (t : Tracks user d0 last past d) where
    earlier_now : All (λ e. e.0 ≤ now) past
    earlier_now =
        All-weaken (λ e. e.0 ≤ last) (λ e. e.0 ≤ now) past (λ e h. omega (arith, h, later))
          t.earlier

    deque_after :
        evict d.window now (events_of d user ++ noted text now ∷ [])
        ≡ keep (live d0.window now) (past ++ noted text now ∷ [])
    deque_after =
        rw (t.held, t.same_window)
          (evict-window d0.window t.at now past (detect_prompt_injection search text)
            (omega (arith, t.behind, later)) t.ordered earlier_now)

    Tracks-self :
        Tracks user d0 now (past ++ noted text now ∷ []) (observe search d user text now).0
    unfolding observe reasons_of
    Tracks-self = record {
      same_window = t.same_window;
      same_reasons = t.same_reasons;
      ordered = IsOrdered-snoc past (noted text now) t.ordered earlier_now;
      earlier =
          All-append (λ e. e.0 ≤ now) past (noted text now ∷ []) earlier_now (omega arith, tt);
      at = now;
      behind = omega arith;
      held =
          ap (λ o. get_or o [])
            (lookup-insert_self d.events user
              (evict d.window now (events_of d user ++ noted text now ∷ [])))
          ∙ deque_after;
    }

    other_deque :
        (caller : String) (es : List (ℕ × Bool))
        → (caller == user) ≡ false
        → get_or (lookup (insert d.events caller es) user) [] ≡ events_of d user
    other_deque caller es other = ground (arith, other, lookup-insert d.events caller user es)

    Tracks-other :
        (caller : String)
        → (caller == user) ≡ false
        → Tracks user d0 now past (observe search d caller text now).0
    unfolding observe reasons_of
    Tracks-other caller other = record {
      same_window = t.same_window;
      same_reasons = t.same_reasons;
      ordered = t.ordered;
      earlier = earlier_now;
      at = t.at;
      behind = omega (arith, t.behind, later);
      held =
          other_deque caller (evict d.window now (events_of d caller ++ noted text now ∷ [])) other
          ∙ t.held;
    }

    signal_now :
        (observe search d user text now).1.reasons
        ≡ reasons_of d0 (keep (live d0.window now) (past ++ noted text now ∷ []))
    unfolding observe
    signal_now =
        rw (deque_after) (t.same_reasons (keep (live d0.window now) (past ++ noted text now ∷ [])))

  Tracks-init : {user : String} (d : AbuseDetector) → d.events ≡ [] → Tracks user d 0 [] d
  unfolding lookup keep
  Tracks-init {user} d h = record {
    same_window = refl;
    same_reasons = λ es. refl;
    ordered = tt;
    earlier = tt;
    at = 0;
    behind = omega arith;
    held = ap (λ es. get_or (lookup es user) []) h;
  }

  signals_from :
      (user text : String) (now : ℕ) (d0 d : AbuseDetector) (last : ℕ) (past : List (ℕ × Bool))
      (calls : List Call)
      → IsClock last (calls ++ (user, (text, now)) ∷ [])
      → Tracks user d0 last past d
      → (observe search (observe_all d calls) user text now).1.reasons
        ≡ reasons_of d0
            (keep (live d0.window now) (past ++ calls_of user (calls ++ (user, (text, now)) ∷ [])))
  unfolding observe_all calls_of
  signals_from user text now d0 d last past [] c t =
      rw ((string_eq.same_iff user user).1 refl) (signal_now text now c.0 t)
  signals_from user text now d0 d last past ((caller, (said, at)) ∷ calls) c t =
      elim (Bool-cases (caller == user)) [
        | inl same ↦
            let e : caller ≡ user = (string_eq.same_iff caller user).0 same in
            rw (same, e)
              (signals_from user text now d0 (observe search d user said at).0 at
                  (past ++ noted said at ∷ []) calls c.1 (Tracks-self said at c.0 t)
                ∙ ap (λ es. reasons_of d0 (keep (live d0.window now) es))
                    (append_assoc past (noted said at ∷ []) _))
        | inr other ↦ rw other (
            signals_from user text now d0 (observe search d caller said at).0 at past calls c.1
              (Tracks-other said at c.0 t caller other))
      ]

  -- Where the clock never goes back, the signal for a call is the one of the user's whole history:
  -- its reasons are those of the calls of this user, this one included, that lie in the window that
  -- ends now, and the user is flagged exactly when these are more than `max_events`, or at least
  -- `max_injections` of them are injections.
  pub observe_lem :
      (window max_events max_injections : ℕ) (calls : List Call) (user text : String) (now : ℕ)
      → IsClock 0 (calls ++ (user, (text, now)) ∷ [])
      → let d0 = init window max_events max_injections in
        let signal = (observe search (observe_all d0 calls) user text now).1 in
        let recent = keep (live window now) (calls_of user (calls ++ (user, (text, now)) ∷ [])) in
        (signal.reasons ≡ reasons_of d0 recent)
        × (signal.flagged
            ≡ (ltb max_events (length recent) || leb max_injections (count (λ e. e.1) recent)))
  unfolding observe
  observe_lem window max_events max_injections calls user text now c =
      let d0 = init window max_events max_injections in
      let same = signals_from user text now d0 d0 0 [] calls c (Tracks-init d0 refl) in
      (same, ap is_flagged same ∙ flagged_lem d0 _)
