-- ===== src/Auth/Jwks/Fetches.antt =====
-- How often `key_for` of dealfinder/auth.py goes to the network.
use tutorial_dealfinder.Base.{
  ℕ, ◌+◌, ◌≤◌, ◌<◌, String, ◌≡◌, ◌⊎◌, inl, inr, true, false, Option, some, ok, arith, List, [], ◌∷◌,
  Bool-cases, if◌then◌else◌, nat_beq,
}
use tutorial_dealfinder.Auth.Jwks.{
  Jwks, Wait, find_key, needs_fetch, key_for, elapsed, ttl, retry, min_refresh,
}

-- One call, with its clock readings and what the network gives it.
pub record Call (KeySet : Type 0) : Type 0 where
  pub kid : Option String
  pub now : ℕ
  pub now' : ℕ
  pub wait : Wait KeySet

-- the clock readings of the calls, one after the other
abbrev pub IsTimed : {KeySet : Type 0} → ℕ → List (Call KeySet) → Type 0
IsTimed last [] = Unit
IsTimed last (k ∷ ks) =
    (last ≤ k.now)
    × (k.now ≤ k.now')
    × (k.now' ≤ k.wait.checked_at)
    × (k.wait.checked_at ≤ k.wait.returned_at)
    × IsTimed k.wait.returned_at ks

-- each time is at least 30 after the one before
abbrev pub IsSpaced : List ℕ → Type 0
IsSpaced [] = Unit
IsSpaced (a ∷ []) = Unit
IsSpaced (a ∷ b ∷ ts) = (a + retry ≤ b) × IsSpaced (b ∷ ts)

module _ {KeySet Key : Type 0} (key_of : KeySet → Option String → Option Key) where
  -- Without a lock wait, a known key in a set younger than 10 minutes is answered from the cache.
  pub key_for_cached :
      (c later : Jwks KeySet) (kid : Option String) (now now' at : ℕ) (w : Wait KeySet) (k : Key)
      → find_key key_of c kid ≡ some k
      → c.fetched_at ≡ some at
      → now < at + ttl
      → key_for key_of c kid now now' later w ≡ record { cache = c; answer = ok k; requests = 0 }
  unfolding key_for
  key_for_cached c later kid now now' at w k h f age = ground arith

  -- A request is made only 30 seconds or more after the last failure that the call knew of, and 60
  -- seconds or more after the last fetch that it found under the lock; it then counts as one of them.
  pub key_for_requests :
      (c later : Jwks KeySet) (kid : Option String) (now now' : ℕ) (w : Wait KeySet)
      → (key_for key_of c kid now now' later w).requests ≡ 1
      → (elapsed c.failed_at retry now' ≡ true)
        × (elapsed later.fetched_at min_refresh w.checked_at ≡ true)
        × (((key_for key_of c kid now now' later w).cache.failed_at ≡ some w.returned_at)
            ⊎ ((key_for key_of c kid now now' later w).cache.fetched_at ≡ some w.returned_at))
  unfolding key_for
  key_for_requests c later kid now now' w h = (ground arith, ground arith, ground arith)

  -- a call that does not go to the network leaves the cache alone
  key_for_quiet :
      (c : Jwks KeySet) (kid : Option String) (now now' : ℕ) (w : Wait KeySet)
      → nat_beq (key_for key_of c kid now now' c w).requests 1 ≡ false
      → (key_for key_of c kid now now' c w).cache ≡ c
  unfolding key_for
  key_for_quiet c kid now now' w h = ground arith

  -- the times at which calls, one after the other, went to the network
  unfoldable pub request_times : Jwks KeySet → List (Call KeySet) → List ℕ
  request_times c [] = []
  request_times c (k ∷ ks) =
      let r = key_for key_of c k.kid k.now k.now' c k.wait in
      let rest = request_times r.cache ks in
      if nat_beq r.requests 1 then k.wait.returned_at ∷ rest else rest

  IsSpaced-from :
      (calls : List (Call KeySet)) (c : Jwks KeySet) (last t : ℕ)
      → IsTimed last calls
      → (c.failed_at ≡ some t) ⊎ (c.fetched_at ≡ some t)
      → IsSpaced (t ∷ request_times c calls)
  unfolding request_times
  IsSpaced-from [] c last t timed known = tt
  IsSpaced-from (k ∷ ks) c last t timed known =
      let r = key_for key_of c k.kid k.now k.now' c k.wait in
      elim (Bool-cases (nat_beq r.requests 1)) [
        | inl asked ↦
            let (a, b, d) = key_for_requests c c k.kid k.now k.now' k.wait (ground arith) in
            rw asked (
              gap known a b,
              IsSpaced-from ks r.cache k.wait.returned_at k.wait.returned_at timed.4 d,
            )
        | inr quiet ↦ rw quiet (
            IsSpaced-from ks r.cache k.wait.returned_at t timed.4
              (rw (key_for_quiet c k.kid k.now k.now' k.wait quiet) known))
      ]
    where
      gap :
          (c.failed_at ≡ some t) ⊎ (c.fetched_at ≡ some t)
          → elapsed c.failed_at retry k.now' ≡ true
          → elapsed c.fetched_at min_refresh k.wait.checked_at ≡ true
          → t + retry ≤ k.wait.returned_at
      gap (inl f) a b = ground arith
      gap (inr f) a b = ground arith

  -- One call after the other, whatever key ids they ask for and whatever the network answers, two
  -- requests to the network are at least 30 seconds apart.
  pub request_times-IsSpaced :
      (calls : List (Call KeySet)) (c : Jwks KeySet) (last : ℕ)
      → IsTimed last calls
      → IsSpaced (request_times c calls)
  unfolding request_times
  request_times-IsSpaced [] c last timed = tt
  request_times-IsSpaced (k ∷ ks) c last timed =
      let r = key_for key_of c k.kid k.now k.now' c k.wait in
      elim (Bool-cases (nat_beq r.requests 1)) [
        | inl asked ↦
            let (a, b, d) = key_for_requests c c k.kid k.now k.now' k.wait (ground arith) in
            rw asked (IsSpaced-from ks r.cache k.wait.returned_at k.wait.returned_at timed.4 d)
        | inr quiet ↦ rw quiet (request_times-IsSpaced ks r.cache k.wait.returned_at timed.4)
      ]

  -- Two calls at once: one that waited for the lock while another call's fetch failed goes to the
  -- network again, however recent that failure is.
  pub key_for_queued :
      (c later : Jwks KeySet) (kid : Option String) (now now' : ℕ) (w : Wait KeySet) (failed : ℕ)
      → needs_fetch key_of c kid now ≡ true
      → elapsed c.failed_at retry now' ≡ true
      → w.acquired ≡ true
      → later ≡ record c { failed_at = some failed }
      → now ≤ w.checked_at
      → w.checked_at < failed + retry
      → (key_for key_of c kid now now' later w).requests ≡ 1
  unfolding key_for needs_fetch
  key_for_queued c later kid now now' w failed h a q e le recent = ground arith
