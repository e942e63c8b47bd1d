-- ===== src/Compliance/Window/Eviction.antt =====
-- What `evict` keeps, on deques in time order.
use tutorial_dealfinder.Base.{
  length, ℕ, ◌+◌, ◌≤◌, ◌<◌, ◌≡◌, refl, List, [], ◌∷◌, ◌++◌, ltb, not, arith, count, keep, All,
}
use tutorial_dealfinder.Compliance.Window.{evict, expired}

-- in time order
abbrev pub IsOrdered : List ℕ → Type 0
IsOrdered [] = Unit
IsOrdered (t ∷ ts) = All (λ u. t ≤ u) ts × IsOrdered ts

pub All-le_trans : (a b : ℕ) (ts : List ℕ) → a ≤ b → All (λ u. b ≤ u) ts → All (λ u. a ≤ u) ts
All-le_trans a b [] h k = tt
All-le_trans a b (t ∷ ts) h k = (omega arith, All-le_trans a b ts h k.1)

-- no time is later than `now`
abbrev pub IsPast : ℕ → List ℕ → Type 0
IsPast now ts = All (λ u. u ≤ now) ts

pub IsPast-later : (a b : ℕ) (ts : List ℕ) → a ≤ b → IsPast a ts → IsPast b ts
IsPast-later a b [] h k = tt
IsPast-later a b (t ∷ ts) h k = (omega arith, IsPast-later a b ts h k.1)

pub IsPast-evict : (w now b : ℕ) (ts : List ℕ) → IsPast b ts → IsPast b (evict w now ts)
unfolding evict
IsPast-evict w now b [] h = tt
IsPast-evict w now b (t ∷ ts) h = ground (arith, IsPast-evict w now b ts h.1)

pub IsOrdered-evict : (w now : ℕ) (ts : List ℕ) → IsOrdered ts → IsOrdered (evict w now ts)
unfolding evict
IsOrdered-evict w now [] h = tt
IsOrdered-evict w now (t ∷ ts) h = ground (arith, IsOrdered-evict w now ts h.1)

pub IsOrdered-snoc :
    (now : ℕ) (ts : List ℕ) → IsOrdered ts → IsPast now ts → IsOrdered (ts ++ now ∷ [])
IsOrdered-snoc now [] h k = (tt, tt)
IsOrdered-snoc now (t ∷ ts) h k = (All-snoc ts h.0, IsOrdered-snoc now ts h.1 k.1)
  where
    All-snoc : (us : List ℕ) → All (λ u. t ≤ u) us → All (λ u. t ≤ u) (us ++ now ∷ [])
    All-snoc [] p = (k.0, tt)
    All-snoc (u ∷ us) p = (p.0, All-snoc us p.1)

-- Eviction never drops a time that is still inside the window.
pub count-evict :
    (w now x : ℕ) (ts : List ℕ)
    → now ≤ x + w
    → count (λ t. ltb x t) (evict w now ts) ≡ count (λ t. ltb x t) ts
unfolding count evict
count-evict w now x [] h = refl
count-evict w now x (t ∷ ts) h = ground (arith, count-evict w now x ts h)

keep_fresh :
    (w now t : ℕ) (ts : List ℕ)
    → now < t + w
    → All (λ u. t ≤ u) ts
    → keep (λ u. not (expired w now u)) ts ≡ ts
unfolding keep
keep_fresh w now t [] h k = refl
keep_fresh w now t (u ∷ ts) h k = ground (arith, keep_fresh w now t ts h k.1)

-- On a deque in time order, eviction from the left is the filter on the window.
pub evict-keep :
    (w now : ℕ) (ts : List ℕ) → IsOrdered ts → evict w now ts ≡ keep (λ t. not (expired w now t)) ts
unfolding evict keep
evict-keep w now [] h = refl
evict-keep w now (t ∷ ts) h = ground (arith, evict-keep w now ts h.1, keep_fresh w now t ts)

-- Every time that eviction leaves is inside the window.
pub evict-fresh : (w now : ℕ) (ts : List ℕ) → IsOrdered ts → All (λ t. now < t + w) (evict w now ts)
unfolding evict
evict-fresh w now [] h = tt
evict-fresh w now (t ∷ ts) h = ground (arith, evict-fresh w now ts h.1, fresh t ts)
  where
    fresh : (t : ℕ) (us : List ℕ) → now < t + w → All (λ u. t ≤ u) us → All (λ u. now < u + w) us
    fresh t [] p q = tt
    fresh t (u ∷ us) p q = (omega arith, fresh t us p q.1)

pub length-evict-le : (w now : ℕ) (ts : List ℕ) → length (evict w now ts) ≤ length ts
unfolding evict
length-evict-le w now [] = omega arith
length-evict-le w now (t ∷ ts) = ground (arith, length-evict-le w now ts)
