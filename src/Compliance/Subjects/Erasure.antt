-- ===== src/Compliance/Subjects/Erasure.antt =====
-- What an export of `DataSubjectStore` shows after any requests.
use tutorial_dealfinder.Base.{
  ap, ℕ, suc, ◌+◌, String, List, [], ◌∷◌, ◌++◌, ◌≡◌, refl, length, length-append, lookup, string_eq,
  ◌==◌, if◌then◌else◌, lookup-insert, lookup-remove, arith, ◌∙◌,
}
use tutorial_dealfinder.Compliance.Subjects.{
  DataSubjectStore, Request, adding, exporting, deleting, records_of, audited, add, export, delete,
  serve, serve_all,
}

module _ {Record : Type 0} where
  -- the records that one request leaves a user with
  unfoldable pub kept : String → List Record → Request Record → List Record
  kept user held (adding who r) = if who == user then held ++ r ∷ [] else held
  kept user held (exporting who) = held
  kept user held (deleting who) = if who == user then [] else held

  -- the records added for a user since the user's last erasure, after `held`
  unfoldable pub added_since : String → List Record → List (Request Record) → List Record
  added_since user held [] = held
  added_since user held (q ∷ qs) = added_since user (kept user held q) qs

  -- how many requests the audit log must hold
  unfoldable pub audited_requests : List (Request Record) → ℕ
  audited_requests [] = 0
  audited_requests (adding who r ∷ qs) = audited_requests qs
  audited_requests (exporting who ∷ qs) = suc (audited_requests qs)
  audited_requests (deleting who ∷ qs) = suc (audited_requests qs)

  records_of-serve :
      (s : DataSubjectStore Record) (q : Request Record) (user : String)
      → records_of (serve s q) user ≡ kept user (records_of s user) q
  unfolding serve add export delete kept
  records_of-serve s (adding who r) user = ground (
    arith,
    lookup-insert s.records who user (records_of s who ++ r ∷ []),
    string_eq.same_iff who user,
  )
  records_of-serve s (exporting who) user = refl
  records_of-serve s (deleting who) user = ground (arith, lookup-remove s.records who user)

  records_of-serve_all :
      (s : DataSubjectStore Record) (qs : List (Request Record)) (user : String)
      → records_of (serve_all s qs) user ≡ added_since user (records_of s user) qs
  unfolding serve_all added_since
  records_of-serve_all s [] user = refl
  records_of-serve_all s (q ∷ qs) user =
      records_of-serve_all (serve s q) qs user
      ∙ ap (λ held. added_since user held qs) (records_of-serve s q user)

  audit-record :
      (s : DataSubjectStore Record) (action user : String) (n : ℕ)
      → length (audited s action user n) ≡ length s.audit + 1
  audit-record s action user n = length-append s.audit _

  audit-serve_all :
      (s : DataSubjectStore Record) (qs : List (Request Record))
      → length (serve_all s qs).audit ≡ length s.audit + audited_requests qs
  unfolding serve_all serve add export delete audited_requests
  audit-serve_all s [] = omega arith
  audit-serve_all s (adding who r ∷ qs) = audit-serve_all (add s who r) qs
  audit-serve_all s (exporting who ∷ qs) = omega (
    arith,
    audit-serve_all (export s who).0 qs,
    audit-record s "gdpr_export" who (length (records_of s who)),
  )
  audit-serve_all s (deleting who ∷ qs) = omega (
    arith,
    audit-serve_all (delete s who).0 qs,
    audit-record s "gdpr_delete" who (length (records_of s who)),
  )

  -- After any requests on a new store, an export returns exactly the records that were added for
  -- the user since the user's last erasure, in order, and the audit log holds one entry for every
  -- export and every erasure so far, this one included.
  export_lem :
      (qs : List (Request Record)) (user : String)
      → let (s, shown) = export (serve_all (record { audit = []; records = [] }) qs) user in
        (shown ≡ added_since user [] qs) × (length s.audit ≡ audited_requests qs + 1)
  unfolding export lookup
  export_lem qs user =
      let empty : DataSubjectStore Record = record { audit = []; records = [] } in
      (
        records_of-serve_all empty qs user,
        omega (
          arith,
          audit-serve_all empty qs,
          audit-record (serve_all empty qs) "gdpr_export" user
              (length (records_of (serve_all empty qs) user)),
        ),
      )
