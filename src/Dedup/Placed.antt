-- ===== src/Dedup/Placed.antt =====
-- Where the items of dealfinder/dedup.py are put: every cluster holds the items of one representative.
use mathlib.Core.List.{Memᴰ}
use mathlib.Core.List.Memᴰ.{head, tail, append_left, append_right}
use tutorial_dealfinder.Base.{
  ℕ, ◌≡◌, List, [], ◌∷◌, ◌++◌, All, All-append, lookup, get_or, IsDict, insert-IsDict,
  lookup-insert, lookup-insert_self, Option, none, some, nat_eq, arith, refl, sym, ap, ◌∙◌,
  Bool-cases, inl, inr, subst, ◌==◌,
}
use tutorial_dealfinder.Dedup.Gathered.{Item, Clusters, gather_one, gather_items}

pub All-at {ℓ κ} : {A : Type ℓ} {x : A} (P : A → Type κ) (xs : List A) → All P xs → Memᴰ x xs → P x
All-at P [] h m = elim m [ ]
All-at P (y ∷ xs) h (head e) = subst P (sym e) h.0
All-at P (y ∷ xs) h (tail m) = All-at P xs h.1 m

-- what holds of every item found is so of those of a cluster that may be missing
All-get_or :
    (P : Item → Type 0) (found : Option (List Item))
    → ((l : List Item) → found ≡ some l → All P l)
    → All P (get_or found [])
All-get_or P none h = tt
All-get_or P (some l) h = h l refl

module _ (rep : ℕ → ℕ) (Source : Item → Type 0) where
  -- every cluster holds items of its own representative
  abbrev pub IsSound : Clusters → Type 0
  IsSound d = (k : ℕ) (l : List Item) → lookup d k ≡ some l → All (λ x. (rep x.0 ≡ k) × Source x) l

  gather_one-IsSound :
      (d : Clusters) (x : Item) → Source x → IsSound d → IsSound (gather_one rep d x)
  gather_one-IsSound d x here sound k l found =
      let old = get_or (lookup d (rep x.0)) [] in
      let P : Item → Type 0 = λ y. (rep y.0 ≡ k) × Source y in
      elim (Bool-cases (rep x.0 == k)) [
        | inl e ↦
            let same : rep x.0 ≡ k = (nat_eq.same_iff (rep x.0) k).0 e in
            let l_is : old ++ x ∷ [] ≡ l =
              (ground (arith, lookup-insert d (rep x.0) k (old ++ x ∷ []), found, e)) in
            let olds : All P old =
              All-get_or P (lookup d (rep x.0))
                (λ l' h. sound k l' (subst (λ r. lookup d r ≡ some l') same h)) in
            subst (All P) l_is (All-append P old (x ∷ []) olds ((same, here), tt))
        | inr e ↦ sound k l (ground (arith, lookup-insert d (rep x.0) k (old ++ x ∷ []), found, e))
      ]

  pub gather_items-IsSound :
      (d : Clusters) (xs : List Item) → All Source xs → IsSound d → IsSound (gather_items rep d xs)
  unfolding gather_items
  gather_items-IsSound d [] h sound = sound
  gather_items-IsSound d (x ∷ xs) h sound =
      gather_items-IsSound (gather_one rep d x) xs h.1 (gather_one-IsSound d x h.0 sound)

  pub gather_items-IsDict :
      (d : Clusters) (xs : List Item) → IsDict d → IsDict (gather_items rep d xs)
  unfolding gather_items
  gather_items-IsDict d [] h = h
  gather_items-IsDict d (x ∷ xs) h =
      gather_items-IsDict (gather_one rep d x) xs (insert-IsDict d _ _ h)

-- the item stands in the cluster of its representative
module _ (rep : ℕ → ℕ) where
  abbrev pub IsIn : Clusters → Item → Type 0
  IsIn d x = (l : List Item) × (lookup d (rep x.0) ≡ some l) × Memᴰ x l

  gather_one-new : (d : Clusters) (x : Item) → IsIn (gather_one rep d x) x
  gather_one-new d x =
      let old = get_or (lookup d (rep x.0)) [] in
      (old ++ x ∷ [], lookup-insert_self d (rep x.0) (old ++ x ∷ []), append_right old (head refl))

  gather_one-IsIn : (d : Clusters) (x y : Item) → IsIn d y → IsIn (gather_one rep d x) y
  gather_one-IsIn d x y (l, found, m) =
      let old = get_or (lookup d (rep x.0)) [] in
      elim (Bool-cases (rep x.0 == rep y.0)) [
        | inl e ↦
            let same : rep x.0 ≡ rep y.0 = (nat_eq.same_iff (rep x.0) (rep y.0)).0 e in
            let l_is : l ≡ old =
              sym (ap (λ r. get_or (lookup d r) []) same ∙ ap (λ o. get_or o []) found) in
            (
              old ++ x ∷ [],
              (ground (arith, lookup-insert d (rep x.0) (rep y.0) (old ++ x ∷ []), e)),
              append_left (x ∷ []) (subst (λ z. Memᴰ y z) l_is m),
            )
        | inr e ↦
            (l, (ground (arith, lookup-insert d (rep x.0) (rep y.0) (old ++ x ∷ []), e, found)), m)
      ]

  gather_items-kept :
      (d : Clusters) (xs : List Item) (y : Item) → IsIn d y → IsIn (gather_items rep d xs) y
  unfolding gather_items
  gather_items-kept d [] y h = h
  gather_items-kept d (x ∷ xs) y h =
      gather_items-kept (gather_one rep d x) xs y (gather_one-IsIn d x y h)

  pub gather_items-IsIn : (d : Clusters) (xs : List Item) → All (IsIn (gather_items rep d xs)) xs
  unfolding gather_items
  gather_items-IsIn d [] = tt
  gather_items-IsIn d (x ∷ xs) = (
    gather_items-kept (gather_one rep d x) xs x (gather_one-new d x),
    gather_items-IsIn (gather_one rep d x) xs,
  )
