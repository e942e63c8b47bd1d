-- ===== src/Migrate.antt =====
-- dealfinder/migrate.py, and `schema_current` of dealfinder/db.py: numbered SQL files that run once
-- each, in order. What a file's SQL does to the tables is a parameter, and so is psycopg's connection.
pub mod Run
pub mod Ready
mod Tests
use tutorial_dealfinder.Base.{
  ℕ, ◌≡◌, String, Bool, true, false, not, Option, none, some, List, [], ◌∷◌, ◌++◌, if◌then◌else◌,
  keep, all, contains, string_eq,
}

-- The database: `dealfinder.schema_migrations`, where it exists, and all other tables.
pub record Database (S : Type 0) : Type 0 where
  pub tables : S
  pub log : Option (List String)

-- What the code relies on of psycopg: a connection sees its own open transaction, others see what is
-- saved; a statement opens a transaction, in which a `transaction()` block is a savepoint.
pub record Client (D Conn : Type 0) : Type 0 where
  pub connect : D → Conn
  pub seen : Conn → D
  pub saved : Conn → D
  pub is_open : Conn → Bool
  -- `execute`; no connection where the statement raises
  pub execute : Conn → (D → Option D) → Option Conn
  pub commit : Conn → Conn
  -- `with conn.transaction():` around statements, and whether they passed
  pub transaction : Conn → (D → Option D) → Conn × Bool
  pub connect_lem : (d : D) → (seen (connect d) ≡ d) × (saved (connect d) ≡ d)
  pub execute_some :
      (c : Conn) (f : D → Option D) (d : D)
      → f (seen c) ≡ some d
      → (c' : Conn) × (execute c f ≡ some c')
        × (seen c' ≡ d)
        × (saved c' ≡ saved c)
        × (is_open c' ≡ true)
  pub commit_lem : (c : Conn) → (seen (commit c) ≡ seen c) × (saved (commit c) ≡ seen c)
  pub transaction_some :
      (c : Conn) (f : D → Option D) (d : D)
      → is_open c ≡ true
      → f (seen c) ≡ some d
      → let (c', passed) = transaction c f in
        (passed ≡ true) × (seen c' ≡ d) × (saved c' ≡ saved c) × (is_open c' ≡ true)
  pub transaction_none :
      (c : Conn) (f : D → Option D)
      → is_open c ≡ true
      → f (seen c) ≡ none
      → let (c', passed) = transaction c f in
        (passed ≡ false) × (seen c' ≡ seen c) × (saved c' ≡ saved c) × (is_open c' ≡ true)

-- `names == []`
abbrev pub is_empty : List String → Bool
is_empty [] = true
is_empty (_ ∷ _) = false

module _ {S : Type 0} where
  -- `_BOOTSTRAP`
  unfoldable pub bootstrap : Database S → Option (Database S)
  bootstrap db = elim db.log [ none ↦ some (record db { log = some [] }) | some done ↦ some db ]

  -- `_applied`; none where the table is missing
  abbrev pub applied_of : Database S → Option (List String)
  applied_of db = db.log

  -- `pending`, of the sorted names of the files
  unfoldable pub pending : List String → Database S → List String
  pending files db = elim (applied_of db) [
    | none ↦ keep (λ f. not (contains [] f)) files
    | some done ↦ keep (λ f. not (contains done f)) files
  ]

  -- `schema_ready`; none is a database that cannot be reached
  unfoldable pub schema_ready : List String → Option (Database S) → Bool
  schema_ready files none = false
  schema_ready files (some db) = is_empty (pending files db)

  -- `schema_current`
  unfoldable pub schema_current : List String → Option (Database S) → Bool
  schema_current files none = false
  schema_current files (some db) = elim (applied_of db) [
    | none ↦ false
    | some done ↦ all (λ f. contains done f) files
  ]

  -- the INSERT of a file's row, whose name is the primary key
  unfoldable pub record_file : String → Database S → Option (Database S)
  record_file name db = elim db.log [
    | none ↦ none
    | some done ↦
        if contains done name then none else some (record db { log = some (done ++ name ∷ []) })
  ]

  -- a file's SQL and its row
  unfoldable pub run_file : (String → S → Option S) → String → Database S → Option (Database S)
  run_file sql name db = elim (sql name db.tables) [
    | none ↦ none
    | some tables ↦ record_file name (record db { tables = tables })
  ]

  module _ {Conn : Type 0} (client : Client (Database S) Conn) (sql : String → S → Option S) where
    -- the loop of `apply`: the connection, the names applied, and whether no file failed
    unfoldable pub apply_files :
        List String → List String → Conn → List String → Conn × List String × Bool
    apply_files done [] conn applied = (conn, applied, true)
    apply_files done (name ∷ files) conn applied =
        if contains done name
        then apply_files done files conn applied
        else (let (conn', passed) = client.transaction conn (run_file sql name) in
            elim passed [
              | true ↦ apply_files done files conn' (applied ++ name ∷ [])
              | false ↦ (conn', applied, false)
            ])

    -- leaving `with psycopg.connect(...)`: a commit, or a rollback where an error passes
    abbrev pub leave : Conn × List String × Bool → Database S × Option (List String)
    leave (conn, applied, true) = (client.saved (client.commit conn), some applied)
    leave (conn, applied, false) = (client.saved conn, none)

    -- from the reading of the log on
    unfoldable pub apply_done :
        List String → Conn → Option (List String) → Database S × Option (List String)
    apply_done files conn none = (client.saved conn, none)
    apply_done files conn (some done) = elim (client.execute conn some) [
      | none ↦ (client.saved conn, none)
      | some conn' ↦ leave (apply_files done files conn' [])
    ]

    -- `apply`: the database afterwards, and the names applied, or none where an error passes
    unfoldable pub apply : List String → Database S → Database S × Option (List String)
    apply files db =
        let conn = client.connect db in
        elim (client.execute conn bootstrap) [
          | none ↦ (client.saved conn, none)
          | some conn' ↦
              let conn'' = client.commit conn' in
              apply_done files conn'' (applied_of (client.seen conn''))
        ]
