-- ===== src/Migrate/Ready.antt =====
-- One run of `apply` of dealfinder/migrate.py, and what the readiness tests say before and after it.
use tutorial_dealfinder.Base.{
  ◌≡◌, String, Bool, true, false, Option, none, some, List, [], ◌∷◌, ◌++◌, keep, all, contains,
  string_eq, get_or, IsOnce, arith, refl, sym, ap, ◌∙◌, Option-cases, inl, inr, append-nil,
  contains-append,
}
use tutorial_dealfinder.Migrate.{
  Database, Client, bootstrap, pending, is_empty, schema_ready, schema_current, apply_files, leave,
  apply_done, apply,
}
use tutorial_dealfinder.Migrate.Run.{run_sql, missing, apply_files_all, apply_files_stop}

-- the names that the log holds
abbrev pub logged : {S : Type 0} → Database S → List String
logged db = get_or db.log []

pub pending-missing :
    {S : Type 0} (files : List String) (db : Database S)
    → pending files db ≡ missing (logged db) files
unfolding pending
pending-missing files db = elim (Option-cases db.log) [
  | inl e ↦ rw (e, pending) refl
  | inr (done, e) ↦ rw (e, pending) refl
]

empty_of : (names : List String) → is_empty names ≡ true → names ≡ []
empty_of [] h = refl
empty_of (f ∷ names) h = absurd (cc)

is_empty-missing :
    (files done : List String) → is_empty (missing done files) ≡ all (λ f. contains done f) files
unfolding keep all
is_empty-missing [] done = refl
is_empty-missing (f ∷ files) done = ground (arith, is_empty-missing files done)

all-contains :
    (p : String → Bool) (files : List String)
    → ((f : String) → contains files f ≡ true → p f ≡ true)
    → all p files ≡ true
unfolding all contains
all-contains p [] h = refl
all-contains p (f ∷ files) h = ground (
  arith,
  h f (ground (arith, string_eq.same_iff f f)),
  all-contains p files (λ g k. h g (ground (arith, k))),
)

contains-missing :
    (done files : List String) (f : String)
    → contains files f ≡ true
    → contains done f ≡ false
    → contains (missing done files) f ≡ true
unfolding keep contains
contains-missing done [] f h k = absurd (cc)
contains-missing done (g ∷ files) f h k =
    ground (arith, contains-missing done files f, h, k, string_eq.same_iff f g)

-- with what was missing, nothing is missing
all-missing :
    (done files : List String) → all (λ f. contains (done ++ missing done files) f) files ≡ true
all-missing done files =
    all-contains (λ f. contains (done ++ missing done files) f) files
      (λ f h.
        ground
          (arith, contains-append done (missing done files) f, contains-missing done files f h))

-- Where the log table is there, the web process's test and the CLI's say the same of the database.
pub schema_current_lem :
    {S : Type 0} (files : List String) (db : Database S) (done : List String)
    → db.log ≡ some done
    → schema_current files (some db) ≡ schema_ready files (some db)
unfolding schema_current schema_ready pending
schema_current_lem files db done h =
    rw (h, schema_current, schema_ready, pending) (sym (is_empty-missing files done))

module _ {S Conn : Type 0} (client : Client (Database S) Conn) (sql : String → S → Option S) where
  leave_pass :
      (x : Conn × List String × Bool)
      → x.2 ≡ true
      → leave client sql x ≡ (client.saved (client.commit x.0), some x.1)
  leave_pass (conn, names, true) h = refl
  leave_pass (conn, names, false) h = absurd (cc)

  leave_fail :
      (x : Conn × List String × Bool) → x.2 ≡ false → leave client sql x ≡ (client.saved x.0, none)
  leave_fail (conn, names, true) h = absurd (cc)
  leave_fail (conn, names, false) h = refl

  run-loop :
      (files : List String) (conn : Conn) (log : List String)
      → IsOnce files
      → (client.seen conn).log ≡ some log
      → client.saved conn ≡ client.seen conn
      → ((tables : S)
          → run_sql sql (missing log files) (client.seen conn).tables ≡ some tables
          → apply_done client sql files conn (some log) ≡ (
            record { tables = tables; log = some (log ++ missing log files) },
            some (missing log files),
          ))
        × (run_sql sql (missing log files) (client.seen conn).tables ≡ none
            → apply_done client sql files conn (some log) ≡ (client.seen conn, none))
  unfolding apply_done
  run-loop files conn log once l s =
      let (conn', step, same, kept, busy) = client.execute_some conn some (client.seen conn) refl in
      let read : (client.seen conn').log ≡ some log = ap (λ x. x.log) same ∙ l in
      (
        λ tables r.
            let (a, b, c) =
              apply_files_all client sql log files conn' [] log tables once (λ f h k. k) busy read
                (ap (λ x. run_sql sql (missing log files) x.tables) same ∙ r) in
            rw (step, apply_done)
              (leave_pass (apply_files client sql log files conn' []) a ∙ (λ i. (
                ((client.commit_lem (apply_files client sql log files conn' []).0).1 ∙ c) i,
                some (b i),
              ))),
        λ r.
            let (a, b) =
              apply_files_stop client sql log files conn' [] log once (λ f h k. k) busy read
                (ap (λ x. run_sql sql (missing log files) x.tables) same ∙ r) in
            rw (step, apply_done)
              (leave_fail (apply_files client sql log files conn' []) a
                ∙ (λ i. ((b ∙ kept ∙ s) i, none))),
      )

  -- the database with its log table
  abbrev pub with_log : Database S → Database S
  with_log db = record db { log = some (logged db) }

  bootstrap-with_log : (db : Database S) → bootstrap db ≡ some (with_log db)
  unfolding bootstrap
  bootstrap-with_log db = elim (Option-cases db.log) [
    | inl e ↦ rw (e, bootstrap) refl
    | inr (done, e) ↦ rw (e, bootstrap) (ap (λ x. some (record db { log = x })) e)
  ]

  -- A run of `apply` goes through all of its files or leaves nothing of them: if the SQL of the
  -- pending files succeeds one after the other, the tables are what it makes of them and the log
  -- gains exactly those names, in order; if one fails, the database is as before but for the log
  -- table, and the call raises.
  pub apply_lem :
      (files : List String) (db : Database S)
      → IsOnce files
      → ((tables : S)
          → run_sql sql (pending files db) db.tables ≡ some tables
          → apply client sql files db ≡ (
            record { tables = tables; log = some (logged db ++ pending files db) },
            some (pending files db),
          ))
        × (run_sql sql (pending files db) db.tables ≡ none
            → apply client sql files db ≡ (record db { log = some (logged db) }, none))
  unfolding apply
  apply_lem files db once =
      let (conn', step, same, kept, busy) =
        client.execute_some (client.connect db) bootstrap (with_log db)
          (ap bootstrap (client.connect_lem db).0 ∙ bootstrap-with_log db) in
      let fresh : client.seen (client.commit conn') ≡ with_log db =
        (client.commit_lem conn').0 ∙ same in
      let (all, stop) =
        run-loop files (client.commit conn') (logged db) once (ap (λ x. x.log) fresh)
          ((client.commit_lem conn').1 ∙ sym ((client.commit_lem conn').0)) in
      rw (pending-missing files db) (
        λ tables r.
            rw (step, apply)
              (ap (λ o. apply_done client sql files (client.commit conn') o) (ap (λ x. x.log) fresh)
                ∙ all tables
                    (ap (λ x. run_sql sql (missing (logged db) files) x.tables) fresh ∙ r)),
        λ r.
            rw (step, apply)
              (ap (λ o. apply_done client sql files (client.commit conn') o) (ap (λ x. x.log) fresh)
                ∙ stop (ap (λ x. run_sql sql (missing (logged db) files) x.tables) fresh ∙ r)
                ∙ (λ i. (fresh i, none))),
      )

  -- If the SQL of the pending files succeeds one after the other, then after a run of `apply` the
  -- database is ready by both tests, and a second run applies nothing and changes nothing.
  pub apply_ready :
      (files : List String) (db : Database S) (tables : S)
      → IsOnce files
      → run_sql sql (pending files db) db.tables ≡ some tables
      → let after = (apply client sql files db).0 in
        (schema_ready files (some after) ≡ true)
        × (schema_current files (some after) ≡ true)
        × (apply client sql files after ≡ (after, some []))
  unfolding schema_current run_sql
  apply_ready files db tables once r =
      let done : List String = logged db ++ pending files db in
      let new : Database S = record { tables = tables; log = some done } in
      let first : apply client sql files db ≡ (new, some (pending files db)) =
        (apply_lem files db once).0 tables r in
      let ready : schema_current files (some new) ≡ true =
        ap (λ x. all (λ f. contains (logged db ++ x) f) files) (pending-missing files db)
        ∙ all-missing (logged db) files in
      let idle : pending files new ≡ [] =
        pending-missing files new
        ∙ empty_of (missing done files) (is_empty-missing files done ∙ ready) in
      rw first (
        sym (schema_current_lem files new done refl) ∙ ready,
        ready,
        (apply_lem files new once).0 tables (ap (λ x. run_sql sql x tables) idle) ∙ (λ i. (
          record { tables = tables; log = some ((ap (λ x. done ++ x) idle ∙ append-nil done) i) },
          some (idle i),
        )),
      )
