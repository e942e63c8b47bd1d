-- ===== src/Sources/Listing.antt =====
-- What holds of every product that a connector of dealfinder/live_sources.py lists: it is shown of
-- one item, and carried over the loop.
use tutorial_dealfinder.Base.{
  ◌≡◌, refl, true, false, Option, none, some, List, [], ◌∷◌, All, Amount, if◌then◌else◌, Bool,
  Result, ok, raise, ◌>>=◌, Bool-cases, inl, inr,
}
use tutorial_dealfinder.Sources.{
  Json, Error, Product, is_zero, when_priced, add_product, list_items,
}

-- if the call returns, what it returns meets `P`
abbrev pub Ensures : {A : Type 0} → (A → Type 0) → Result Error A → Type 0
Ensures P (ok a) = P a
Ensures P (raise e) = Unit

-- nothing, or a product that meets `P`
abbrev pub Maybe : (Product → Type 0) → Option Product → Type 0
Maybe P none = Unit
Maybe P (some p) = P p

module _ {B : Type 0} (P : B → Type 0) where
  pub bind-Ensures :
      {A : Type 0} (m : Result Error A) (f : A → Result Error B)
      → ((a : A) → Ensures P (f a))
      → Ensures P (m >>= f)
  bind-Ensures (ok a) f h = h a
  bind-Ensures (raise e) f h = tt

  pub if-Ensures :
      (test : Bool) (r s : Result Error B)
      → (test ≡ true → Ensures P r)
      → (test ≡ false → Ensures P s)
      → Ensures P (if test then r else s)
  if-Ensures true r s h k = h refl
  if-Ensures false r s h k = k refl

module _ (P : Product → Type 0) where
  pub when_priced-Ensures :
      (price : Option Amount) (f : Amount → Result Error (Option Product))
      → ((a : Amount) → is_zero a ≡ false → Ensures (Maybe P) (f a))
      → Ensures (Maybe P) (when_priced price f)
  when_priced-Ensures none f h = tt
  when_priced-Ensures (some a) f h = elim (Bool-cases (is_zero a)) [
    | inl zero_price ↦ rw zero_price tt
    | inr priced ↦ rw priced (h a priced)
  ]

  add_product-All :
      (x : Option Product) (ps : List Product) → Maybe P x → All P ps → All P (add_product x ps)
  add_product-All none ps h k = k
  add_product-All (some p) ps h k = (h, k)

  pub list_items-Ensures :
      (read : Json → Result Error (Option Product)) (vs : List Json)
      → ((v : Json) → Ensures (Maybe P) (read v))
      → Ensures (All P) (list_items read vs)
  unfolding list_items
  list_items-Ensures read [] h = tt
  list_items-Ensures read (v ∷ vs) h =
      item (read v) (h v) (list_items read vs) (list_items-Ensures read vs h)
    where
      item :
          (x : Result Error (Option Product))
          → Ensures (Maybe P) x
          → (rest : Result Error (List Product)) → Ensures (All P) rest
          → Ensures (All P) (x >>= λ p. rest >>= λ ps. ok (add_product p ps))
      item (ok x) hx (ok ps) hs = add_product-All x ps hx hs
      item (ok x) hx (raise e) hs = tt
      item (raise e) hx rest hs = tt
