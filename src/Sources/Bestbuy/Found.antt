-- ===== src/Sources/Bestbuy/Found.antt =====
-- The table that `lookup_skus` of dealfinder/live_sources.py fills.
use tutorial_dealfinder.Base.{
  ◌≡◌, ◌⊎◌, refl, ◌∙◌, ap, inl, inr, String, true, false, ◌==◌, Option, none, some, Dict, lookup,
  insert, has, lookup-insert, string_eq, arith, Bool-cases,
}
use tutorial_dealfinder.Sources.{Product, is_zero}
use tutorial_dealfinder.Sources.Listing.{Maybe}
use tutorial_dealfinder.Sources.Bestbuy.{add_sku, add_found}

-- `has` only grows
abbrev pub Grows : Dict String Product → Dict String Product → Type 0
Grows found found' = (s : String) → has found s ≡ true → has found' s ≡ true

-- each product under its own SKU, with a price
abbrev pub IsKeyed : Dict String Product → Type 0
IsKeyed found =
    (s : String) (p : Product)
    → lookup found s ≡ some p
    → (p.sku ≡ some s) × (is_zero p.price ≡ false)

-- the product is there under its SKU, if it has one
abbrev pub IsUnder : Dict String Product → Option String → Type 0
IsUnder found none = Unit
IsUnder found (some s) = (s ≡ "") ⊎ (has found s ≡ true)

abbrev pub IsThere : Dict String Product → Option Product → Type 0
IsThere found none = Unit
IsThere found (some p) = IsUnder found p.sku

add_sku-Grows :
    (found : Dict String Product) (sku : Option String) (p : Product)
    → Grows found (add_sku found sku p) × IsUnder (add_sku found sku p) sku
add_sku-Grows found none p = (λ s h. h, tt)
add_sku-Grows found (some k) p = elim (Bool-cases (k == "")) [
  | inl bare ↦ rw bare (λ s h. h, inl ((string_eq.same_iff k "").0 bare))
  | inr full ↦ rw full (
    λ s h. ground (arith, h, lookup-insert found k s p),
    inr (ground (arith, lookup-insert found k k p, string_eq.same_iff k k)),
  )
]

add_sku-IsKeyed :
    (found : Dict String Product) (sku : Option String) (p : Product)
    → p.sku ≡ sku
    → is_zero p.price ≡ false
    → IsKeyed found
    → IsKeyed (add_sku found sku p)
add_sku-IsKeyed found none p own priced keyed = keyed
add_sku-IsKeyed found (some k) p own priced keyed = elim (Bool-cases (k == "")) [
  | inl bare ↦ rw bare keyed
  | inr full ↦ rw full (λ s q h. written s q h)
]
  where
    written :
        (s : String) (q : Product)
        → lookup (insert found k p) s ≡ some q
        → (q.sku ≡ some s) × (is_zero q.price ≡ false)
    written s q h = elim (Bool-cases (k == s)) [
      | inl same ↦
          let it : p ≡ q = ground (arith, h, same, lookup-insert found k s p) in
          rw (← it) (own ∙ ap some ((string_eq.same_iff k s).0 same), priced)
      | inr other ↦ keyed s q (ground (arith, h, other, lookup-insert found k s p))
    ]

pub IsUnder-Grows :
    (found found' : Dict String Product) (sku : Option String)
    → Grows found found'
    → IsUnder found sku
    → IsUnder found' sku
IsUnder-Grows found found' none g h = h
IsUnder-Grows found found' (some s) g (inl bare) = inl bare
IsUnder-Grows found found' (some s) g (inr h) = inr (g s h)

abbrev pub IsPriced : Product → Type 0
IsPriced p = is_zero p.price ≡ false

pub add_found-Grows :
    (found : Dict String Product) (x : Option Product)
    → Grows found (add_found found x) × IsThere (add_found found x) x
add_found-Grows found none = (λ s h. h, tt)
add_found-Grows found (some p) = add_sku-Grows found p.sku p

pub add_found-IsKeyed :
    (found : Dict String Product) (x : Option Product)
    → Maybe IsPriced x
    → IsKeyed found
    → IsKeyed (add_found found x)
add_found-IsKeyed found none priced keyed = keyed
add_found-IsKeyed found (some p) priced keyed = add_sku-IsKeyed found p.sku p refl priced keyed
