-- ===== src/Tools/Vetting/Gate.antt =====
-- What `vet_tools` of dealfinder/tool_trust.py lets in.
use tutorial_dealfinder.Base.{
  occurs, ap, ◌+◌, String, Bool, false, not, ◌&&◌, List, [], ◌∷◌, ◌++◌, ◌≡◌, ◌≢◌, refl, arith, All,
  keep, any, length, get_or, contains, string_eq, Bool-cases, inl, inr,
}
use tutorial_dealfinder.Safety.{detect_prompt_injection}
use tutorial_dealfinder.Tools.Vetting.{
  Tool, redflags, scanned, hits, suspicious, issues_of, no_issues, scan_tool, verdict_of, vet_tools,
}

no_issues-append : (xs ys : List String) → no_issues (xs ++ ys) ≡ no_issues xs && no_issues ys
no_issues-append [] ys = refl
no_issues-append (x ∷ xs) ys = refl

no_issues-suspicious :
    (p : String → Bool) (flags : List String)
    → no_issues (suspicious (keep p flags)) ≡ not (any p flags)
unfolding suspicious keep any
no_issues-suspicious p [] = refl
no_issues-suspicious p (f ∷ flags) = ground (arith, no_issues-suspicious p flags)

module _ (search : String → String → Bool) (lower : String → String) where
  -- what a tool must be to be registered
  unfoldable pub trusted : List String → Tool → Bool
  trusted allowlist t =
      contains allowlist (get_or t.server "")
      && not (detect_prompt_injection search (scanned search lower t))
      && not (any (λ f. occurs f (scanned search lower t)) redflags)

  safe_lem :
      (allowlist : List String) (t : Tool)
      → (verdict_of search lower allowlist t).safe ≡ trusted allowlist t
  unfolding verdict_of scan_tool trusted issues_of hits
  safe_lem allowlist t =
      ground (arith, no_issues-suspicious (λ f. occurs f (scanned search lower t)) redflags)

  reported_lem :
      (allowlist : List String) (t : Tool)
      → (verdict_of search lower allowlist t).safe ≡ false
      → (verdict_of search lower allowlist t).issues ≢ []
  unfolding verdict_of scan_tool
  reported_lem allowlist t h = elim (Bool-cases (contains allowlist (get_or t.server ""))) [
    | inl listed ↦ ground (arith, h, listed)
    | inr unlisted ↦ ground (arith, unlisted)
  ]

  -- `vet_tools` registers exactly the tools whose server is on the allowlist and whose description,
  -- put in lower case, shows neither an injection nor a red flag, in their order. Every other tool
  -- is quarantined, with a verdict that says unsafe and gives at least one reason.
  pub vet_tools_lem :
      (tools : List Tool) (allowlist : List String)
      → let v = vet_tools search lower tools allowlist in
        (v.registered ≡ keep (trusted allowlist) tools)
        × (length v.registered + length v.quarantined ≡ length tools)
        × All (λ verdict. (verdict.safe ≡ false) × (verdict.issues ≢ [])) v.quarantined
  unfolding vet_tools keep
  vet_tools_lem [] allowlist = (refl, refl, tt)
  vet_tools_lem (t ∷ tools) allowlist =
      elim (Bool-cases (verdict_of search lower allowlist t).safe) [
        | inl e ↦
            let (same, total, reported) = vet_tools_lem tools allowlist in
            rw (← safe_lem allowlist t, e) (ap (λ ts. t ∷ ts) same, omega (arith, total), reported)
        | inr e ↦
            let (same, total, reported) = vet_tools_lem tools allowlist in
            rw (← safe_lem allowlist t, e)
              (same, omega (arith, total), ((refl, reported_lem allowlist t e), reported))
      ]
