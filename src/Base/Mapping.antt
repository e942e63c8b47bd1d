-- ===== src/Base/Mapping.antt =====
-- Python's `dict`: an association list in insertion order. A write to a present key keeps its
-- place, and `del` or `pop` takes the key out.
use Prim.Native.Nat.{suc, ◌≤◌}
use mathlib.Core.Path.{◌≡◌, refl}
use mathlib.Core.Bool.{Bool, true, false}
use mathlib.Core.List.{List, [], ◌∷◌, map}
use mathlib.Core.Option.{Option, none, some}
use native.Mathlib.Omega.{arith}
use tutorial_dealfinder.Base.Tests.{if◌then◌else◌, Comparable, ◌==◌, Bool-cases}
use tutorial_dealfinder.Base.Lists.{length, All, contains, keep}
use mathlib.Core.Logic.{◌≢◌, inl, inr}

abbrev pub Dict {ℓ κ} : Type ℓ → Type κ → Type (ℓ ⊔ κ)
Dict K V = List (K × V)

abbrev pub is_some {ℓ} : {A : Type ℓ} → Option A → Bool
is_some none = false
is_some (some a) = true

abbrev pub get_or {ℓ} : {A : Type ℓ} → Option A → A → A
get_or none d = d
get_or (some a) d = a

module _ {ℓ κ} {K : Type ℓ} {V : Type κ} ⦃e : Comparable K⦄ where
  -- `d.get(k)`
  unfoldable pub lookup : Dict K V → K → Option V
  lookup [] k = none
  lookup ((j, v) ∷ d) k = if j == k then some v else lookup d k

  -- `k in d`
  abbrev pub has : Dict K V → K → Bool
  has d k = is_some (lookup d k)

  -- `d[k] = v`
  unfoldable pub insert : Dict K V → K → V → Dict K V
  insert [] k v = (k, v) ∷ []
  insert ((j, w) ∷ d) k v = if j == k then (j, v) ∷ d else (j, w) ∷ insert d k v

  -- `d.pop(k, None)`
  unfoldable pub remove : Dict K V → K → Dict K V
  remove [] k = []
  remove ((j, w) ∷ d) k = let rest = remove d k in if j == k then rest else (j, w) ∷ rest

  pub lookup-insert :
      (d : Dict K V) (k j : K) (v : V)
      → lookup (insert d k v) j ≡ (if k == j then some v else lookup d j)
  unfolding lookup insert
  lookup-insert [] k j v = refl
  lookup-insert ((i, w) ∷ d) k j v =
      ground (arith, e.same_iff k j, e.same_iff i k, e.same_iff i j, lookup-insert d k j v)

  pub lookup-insert_self : (d : Dict K V) (k : K) (v : V) → lookup (insert d k v) k ≡ some v
  lookup-insert_self d k v = ground (arith, lookup-insert d k k v, e.same_iff k k)

  pub lookup-remove :
      (d : Dict K V) (k j : K) → lookup (remove d k) j ≡ (if k == j then none else lookup d j)
  unfolding lookup remove
  lookup-remove [] k j = ground arith
  lookup-remove ((i, w) ∷ d) k j =
      ground (arith, e.same_iff k j, e.same_iff i k, e.same_iff i j, lookup-remove d k j)

  pub lookup-remove_self : (d : Dict K V) (k : K) → lookup (remove d k) k ≡ none
  lookup-remove_self d k = ground (arith, lookup-remove d k k, e.same_iff k k)

  -- a write adds an entry exactly when the key is new
  pub length-insert :
      (d : Dict K V) (k : K) (v : V)
      → length (insert d k v) ≡ (if has d k then length d else suc (length d))
  unfolding lookup insert
  length-insert [] k v = refl
  length-insert ((i, w) ∷ d) k v = ground (arith, length-insert d k v)

  pub length-remove-le : (d : Dict K V) (k : K) → length (remove d k) ≤ length d
  unfolding remove
  length-remove-le [] k = omega arith
  length-remove-le ((i, w) ∷ d) k = ground (arith, length-remove-le d k)

  -- no key stands twice
  abbrev pub IsDict : Dict K V → Type κ
  IsDict [] = Unit
  IsDict ((k, v) ∷ d) = (lookup d k ≡ none) × IsDict d

  pub insert-IsDict : (d : Dict K V) (k : K) (v : V) → IsDict d → IsDict (insert d k v)
  unfolding insert lookup
  insert-IsDict [] k v h = (refl, tt)
  insert-IsDict ((j, w) ∷ d) k v h = elim (Bool-cases (j == k)) [
    | inl here ↦ rw here h
    | inr later ↦ rw later (
      ground (arith, h.0, lookup-insert d k j v, e.same_iff k j, e.same_iff j k),
      insert-IsDict d k v h.1,
    )
  ]

  pub remove-IsDict : (d : Dict K V) (k : K) → IsDict d → IsDict (remove d k)
  unfolding remove lookup
  remove-IsDict [] k h = tt
  remove-IsDict ((j, w) ∷ d) k h = elim (Bool-cases (j == k)) [
    | inl here ↦ rw here (remove-IsDict d k h.1)
    | inr later ↦ rw later (ground (arith, h.0, lookup-remove d k j), remove-IsDict d k h.1)
  ]

  -- what iteration sees under a key is what `d[k]` returns
  pub All-lookup : (d : Dict K V) → IsDict d → All (λ x. lookup d x.0 ≡ some x.1) d
  unfolding lookup
  All-lookup d h = agree d (λ k v q. q) h
    where
      agree :
          (s : Dict K V)
          → ((k : K) (v : V) → lookup s k ≡ some v → lookup d k ≡ some v)
          → IsDict s
          → All (λ x. lookup d x.0 ≡ some x.1) s
      agree [] sub p = tt
      agree ((j, w) ∷ s) sub p = (
        sub j w (ground (arith, e.same_iff j j)),
        agree s (λ k v q. sub k v (ground (arith, q, p.0, e.same_iff j k))) p.1,
      )

  -- `for k in ks: del d[k]`
  unfoldable pub drop_keys : List K → Dict K V → Dict K V
  drop_keys [] d = d
  drop_keys (k ∷ ks) d = drop_keys ks (remove d k)

  pub drop_keys-IsDict : (ks : List K) (d : Dict K V) → IsDict d → IsDict (drop_keys ks d)
  unfolding drop_keys
  drop_keys-IsDict [] d h = h
  drop_keys-IsDict (k ∷ ks) d h = drop_keys-IsDict ks (remove d k) (remove-IsDict d k h)

  pub lookup-drop_keys :
      (ks : List K) (d : Dict K V) (j : K)
      → lookup (drop_keys ks d) j ≡ (if contains ks j then none else lookup d j)
  unfolding drop_keys contains
  lookup-drop_keys [] d j = refl
  lookup-drop_keys (k ∷ ks) d j = ground (
    arith,
    lookup-drop_keys ks (remove d k) j,
    lookup-remove d k j,
    e.same_iff k j,
    e.same_iff j k,
  )

  pub length-drop_keys-le : (ks : List K) (d : Dict K V) → length (drop_keys ks d) ≤ length d
  unfolding drop_keys
  length-drop_keys-le [] d = omega arith
  length-drop_keys-le (k ∷ ks) d =
      omega (arith, length-drop_keys-le ks (remove d k), length-remove-le d k)

  -- the keys of the entries that pass a test
  abbrev pub keys_where : (V → Bool) → Dict K V → List K
  keys_where p d = map (λ x. x.0) (keep (λ x. p x.1) d)

  pub contains-keys_where :
      (p : V → Bool) (d : Dict K V) (k : K) (v : V)
      → lookup d k ≡ some v
      → p v ≡ true
      → contains (keys_where p d) k ≡ true
  unfolding lookup contains keep
  contains-keys_where p [] k v h q = cc
  contains-keys_where p ((j, w) ∷ d) k v h q =
      ground (arith, contains-keys_where p d k v, e.same_iff j k, e.same_iff k j)

  has_of_keys_where :
      (p : V → Bool) (d : Dict K V) (k : K) → contains (keys_where p d) k ≡ true → lookup d k ≢ none
  unfolding lookup contains keep
  has_of_keys_where p [] k h = cc
  has_of_keys_where p ((j, w) ∷ d) k h =
      ground (arith, has_of_keys_where p d k, e.same_iff j k, e.same_iff k j)

  -- such a key is there, and what `d[k]` returns passes the test
  pub lookup-keys_where :
      (p : V → Bool) (d : Dict K V) (k : K)
      → IsDict d
      → contains (keys_where p d) k ≡ true
      → (v : V) × (lookup d k ≡ some v) × (p v ≡ true)
  unfolding lookup contains keep
  lookup-keys_where p [] k g h = cc
  lookup-keys_where p ((j, w) ∷ d) k g h = elim (Bool-cases (j == k)) [
    | inl here ↦
        (w, rw here, ground (arith, has_of_keys_where p d k, g.0, e.same_iff j k, e.same_iff k j))
    | inr later ↦
        let (v, found, passes) =
          lookup-keys_where p d k g.1 (ground (arith, e.same_iff j k, e.same_iff k j)) in
        (v, rw later found, passes)
  ]
