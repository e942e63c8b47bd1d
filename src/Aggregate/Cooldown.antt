-- ===== src/Aggregate/Cooldown.antt =====
-- The circuit breaker of dealfinder/aggregate.py: which sources are benched, and for how long.
use tutorial_dealfinder.Base.{
  ℕ, ◌+◌, ◌≤◌, ◌<◌, ◌≡◌, String, true, some, List, [], ◌∷◌, ◌++◌, map, leb, All, All-append,
  All-weaken, Dict, lookup, lookup-insert, lookup-insert_self, keep, nat_beq, length, string_eq,
  ◌==◌, arith, Bool-cases, inl, inr,
}
use tutorial_dealfinder.Aggregate.{
  Source, Outcome, late, failed, found, Progress, World, settle, run, escalate, gather, fall_back,
  nothing_yet, bench, is_benched, tier_of, is_fallback, distinct, dedup_key,
}

-- the name is benched until at least 90 seconds after `start`
abbrev pub Benched : ℕ → Dict String ℕ → String → Type 0
Benched start cooldown name =
    (until : ℕ) × ((lookup cooldown name ≡ some until) × (start + 90 ≤ until))

Benched-bench :
    (start : ℕ) (cooldown : Dict String ℕ) (name other : String) (now : ℕ)
    → start ≤ now
    → Benched start cooldown other
    → Benched start (bench cooldown name now) other
unfolding bench
Benched-bench start cooldown name other now h (until, (here, far)) =
    elim (Bool-cases (name == other)) [
      | inl same ↦ (
        now + 90,
        (ground (arith, same, lookup-insert cooldown name other (now + 90)), omega arith),
      )
      | inr apart ↦
          (until, (ground (arith, apart, here, lookup-insert cooldown name other (now + 90)), far))
    ]

Benched-this :
    (start : ℕ) (cooldown : Dict String ℕ) (name : String) (now : ℕ)
    → start ≤ now
    → Benched start (bench cooldown name now) name
unfolding bench
Benched-this start cooldown name now h =
    (now + 90, (lookup-insert_self cooldown name (now + 90), omega arith))

module _ (w : World) (start : ℕ) (clock : (s : Source) → start ≤ w.benched_at s) where
  abbrev AllBenched : Progress → Type 0
  AllBenched p = All (Benched start p.cooldown) p.throttled

  -- one more source is throttled and benched
  AllBenched-throttle :
      (p : Progress) (src : Source)
      → AllBenched p
      → All
          (Benched start (bench p.cooldown src.name (w.benched_at src)))
          (p.throttled ++ src.name ∷ [])
  AllBenched-throttle p src h =
      let later = bench p.cooldown src.name (w.benched_at src) in
      All-append (Benched start later) p.throttled (src.name ∷ [])
        (All-weaken (Benched start p.cooldown) (Benched start later) p.throttled
          (λ other. Benched-bench start p.cooldown src.name other (w.benched_at src) (clock src)) h)
        (Benched-this start p.cooldown src.name (w.benched_at src) (clock src), tt)

  AllBenched-settle :
      (p : Progress) (src : Source) (o : Outcome) → AllBenched p → AllBenched (settle w p src o)
  unfolding settle
  AllBenched-settle p src late h = AllBenched-throttle p src h
  AllBenched-settle p src failed h = AllBenched-throttle p src h
  AllBenched-settle p src (found []) h = h
  AllBenched-settle p src (found (x ∷ xs)) h = h

  AllBenched-run : (p : Progress) (batch : List Source) → AllBenched p → AllBenched (run w p batch)
  unfolding run
  AllBenched-run p [] h = h
  AllBenched-run p (src ∷ batch) h =
      AllBenched-run (settle w p src (w.outcome src)) batch
        (AllBenched-settle p src (w.outcome src) h)

  AllBenched-fall_back :
      (available : List Source) (p : Progress) → AllBenched p → AllBenched (fall_back w available p)
  unfolding fall_back
  AllBenched-fall_back available p h =
      elim p.products
        as (λ products.
          AllBenched (elim products [ [] ↦ run w p (keep is_fallback available) | ◌∷◌ _ _ ↦ p ])) [
            | [] ↦ AllBenched-run p (keep is_fallback available) h
            | ◌∷◌ _ _ ↦ h
          ]

  module _ (strip lower : String → String) where
    AllBenched-escalate :
        (real : List Source) (target : ℕ) (p : Progress) (tiers : List ℕ)
        → AllBenched p
        → AllBenched (escalate strip lower w real target p tiers)
    unfolding escalate
    AllBenched-escalate real target p [] h = h
    AllBenched-escalate real target p (tier ∷ tiers) h =
        let p' = run w p (keep (λ s. nat_beq (tier_of s) tier) real) in
        let run_h = AllBenched-run p (keep (λ s. nat_beq (tier_of s) tier) real) h in
        elim (Bool-cases
          (leb target (length (distinct (map (dedup_key strip lower) p'.products))))) [
            | inl e ↦ rw e run_h
            | inr e ↦ rw e (AllBenched-escalate real target p' tiers run_h)
          ]

    gather-AllBenched :
        (cooldown : Dict String ℕ) (sources : List Source) (target : ℕ)
        → AllBenched (gather strip lower w cooldown sources target).1
    unfolding gather
    gather-AllBenched cooldown sources target =
        AllBenched-fall_back _ _ (AllBenched-escalate _ target (nothing_yet cooldown) _ tt)

    -- Where no source is benched before the time `start`, every source that a search reports as
    -- throttled is benched after the search at every time before `start` plus 90 seconds.
    pub gather_benches :
        (cooldown : Dict String ℕ) (sources : List Source) (target : ℕ)
        → let p = (gather strip lower w cooldown sources target).1 in
          All
            (λ name. (now : ℕ) → now < start + 90 → is_benched p.cooldown now name ≡ true)
            p.throttled
    unfolding is_benched
    gather_benches cooldown sources target =
        let p = (gather strip lower w cooldown sources target).1 in
        All-weaken (Benched start p.cooldown)
          (λ name. (now : ℕ) → now < start + 90 → is_benched p.cooldown now name ≡ true) p.throttled
          (λ name b now h. ground (arith, b.1.0, b.1.1, h))
          (gather-AllBenched cooldown sources target)
