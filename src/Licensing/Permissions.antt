-- ===== src/Licensing/Permissions.antt =====
-- What the policy table allows.
use tutorial_dealfinder.Base.{
  subst, Bool-cases, not, Bool-cases, not, String, false, ◌&&◌, Option, none, some, ◌≡◌, refl,
  lookup, has, string_eq, ◌==◌, arith, inl, inr,
}
use tutorial_dealfinder.Licensing.{
  policies, source_key, policy_for, may_verdict, may_store, may_embed, may_comingle,
}

-- Whatever the source, each of the four permissions is given exactly when the text before the
-- source's first colon is a key of the table other than "eBay".
pub permissions_lem :
    (source : Option String)
    → let allowed = has policies (source_key source) && not ("eBay" == source_key source) in
      (may_verdict source ≡ allowed)
      × (may_store source ≡ allowed)
      × (may_embed source ≡ allowed)
      × (may_comingle source ≡ allowed)
unfolding may_verdict may_store may_embed may_comingle policy_for lookup
permissions_lem source = elim (Bool-cases ("eBay" == source_key source)) [
  | inl e ↦
      subst
        (λ k.
          let allowed = has policies k && not ("eBay" == k) in
          ((elim (lookup policies k) [ none ↦ false | some p ↦ p.verdicts ]) ≡ allowed)
          × ((elim (lookup policies k) [ none ↦ false | some p ↦ p.store ]) ≡ allowed)
          × ((elim (lookup policies k) [ none ↦ false | some p ↦ p.embed ]) ≡ allowed)
          × ((elim (lookup policies k) [ none ↦ false | some p ↦ p.comingle ]) ≡ allowed))
        ((string_eq.same_iff "eBay" (source_key source)).0 e) (refl, refl, refl, refl)
  | inr e ↦ ground (arith, e)
]
