-- ===== src/Compliance/Subjects.antt =====
-- `DataSubjectStore` of dealfinder/compliance.py: the records held of each user, with export and
-- erasure. A record is left abstract.
pub mod Erasure
use tutorial_dealfinder.Base.{
  ℕ, ◌+◌, String, Bool, true, false, Option, none, some, List, [], ◌∷◌, ◌++◌, ◌≡◌, ◌⊎◌, refl,
  length, Dict, lookup, insert, remove, get_or, string_eq, ◌==◌, if◌then◌else◌, IsDict, arith,
}
use tutorial_dealfinder.Safety.{AuditLog, Entry, Meta, text, number, record_action}

pub record DataSubjectStore (Record : Type 0) : Type 0 where
  pub audit : AuditLog
  pub records : Dict String (List Record)

-- What a caller asks of the store.
pub data Request (Record : Type 0) : Type 0 where
  adding : String → Record → Request Record
  exporting deleting : String → Request Record

module _ {Record : Type 0} where
  -- `self._records.get(user_id, [])`
  abbrev pub records_of : DataSubjectStore Record → String → List Record
  records_of s user = get_or (lookup s.records user) []

  -- `add`
  unfoldable pub add : DataSubjectStore Record → String → Record → DataSubjectStore Record
  add s user r = record s { records = insert s.records user (records_of s user ++ r ∷ []) }

  -- `self.audit.record(action, user_id=user_id, count=n)`
  abbrev pub audited : DataSubjectStore Record → String → String → ℕ → AuditLog
  audited s action user n =
      record_action s.audit action (("user_id", text user) ∷ ("count", number n) ∷ [])

  -- `export`
  unfoldable pub export : DataSubjectStore Record → String → DataSubjectStore Record × List Record
  export s user =
      let held = records_of s user in
      (record s { audit = audited s "gdpr_export" user (length held) }, held)

  -- `delete`
  unfoldable pub delete : DataSubjectStore Record → String → DataSubjectStore Record × ℕ
  delete s user =
      let removed = length (records_of s user) in
      (
        record { audit = audited s "gdpr_delete" user removed; records = remove s.records user },
        removed,
      )

  -- `count`
  abbrev pub held_count : DataSubjectStore Record → String → ℕ
  held_count s user = length (records_of s user)

  -- the store after a request
  unfoldable pub serve : DataSubjectStore Record → Request Record → DataSubjectStore Record
  serve s (adding user r) = add s user r
  serve s (exporting user) = (export s user).0
  serve s (deleting user) = (delete s user).0

  unfoldable pub serve_all :
      DataSubjectStore Record → List (Request Record) → DataSubjectStore Record
  serve_all s [] = s
  serve_all s (q ∷ qs) = serve_all (serve s q) qs
