-- ===== src/Auth/Jwks/Keys.antt =====
-- Which keys `key_for` of dealfinder/auth.py hands out.
use tutorial_dealfinder.Base.{
  ℕ, String, ◌≡◌, ◌⊎◌, inl, inr, true, false, Option, none, some, ok, arith,
}
use tutorial_dealfinder.Auth.Jwks.{
  Jwks, Wait, unavailable, invalid_key, find_key, needs_fetch, key_for, elapsed, key_or, retry,
}

module _ {KeySet Key : Type 0} (key_of : KeySet → Option String → Option Key) where
  -- A key that is handed out is in the cached set: the one that the call found when it began, or
  -- the one that it leaves behind.
  pub key_for_sound :
      (c later : Jwks KeySet) (kid : Option String) (now now' : ℕ) (w : Wait KeySet) (k : Key)
      → (key_for key_of c kid now now' later w).answer ≡ ok k
      → (find_key key_of c kid ≡ some k)
        ⊎ (find_key key_of (key_for key_of c kid now now' later w).cache kid ≡ some k)
  unfolding key_for
  key_for_sound c later kid now now' w k h = ground arith

  -- A fetch that succeeds decides alone: whatever was cached before, the cache is the new set, the
  -- answer is its key, and a key that it lacks is refused.
  key_for_rotates :
      (c later : Jwks KeySet) (kid : Option String) (now now' : ℕ) (w : Wait KeySet) (ks : KeySet)
      → (key_for key_of c kid now now' later w).requests ≡ 1
      → w.network ≡ some ks
      → ((key_for key_of c kid now now' later w).cache.keys ≡ some ks)
        × ((key_for key_of c kid now now' later w).answer ≡ key_or (key_of ks kid) invalid_key)
  unfolding key_for
  key_for_rotates c later kid now now' w ks h n = ground arith

  -- When the fetch fails, or failed less than 30 seconds ago, or another thread holds the lock too
  -- long, a key of the last good set is still handed out; without one the answer is an outage, and
  -- never that the key is invalid.
  key_for_outage :
      (c later : Jwks KeySet) (kid : Option String) (now now' : ℕ) (w : Wait KeySet)
      → needs_fetch key_of c kid now ≡ true
      → (elapsed c.failed_at retry now' ≡ false)
        ⊎ ((w.acquired ≡ false)
            ⊎ ((needs_fetch key_of later kid w.checked_at ≡ true) × (w.network ≡ none)))
      → (key_for key_of c kid now now' later w).answer ≡ key_or (find_key key_of c kid) unavailable
  unfolding key_for
  key_for_outage c later kid now now' w h (inl recent) = ground arith
  key_for_outage c later kid now now' w h (inr (inl busy)) = ground arith
  key_for_outage c later kid now now' w h (inr (inr down)) = ground arith
