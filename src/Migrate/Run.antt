-- ===== src/Migrate/Run.antt =====
-- What a run of `apply` of dealfinder/migrate.py leaves behind.
use tutorial_dealfinder.Base.{
  ◌≡◌, String, true, false, not, Option, none, some, List, [], ◌∷◌, ◌++◌, keep, contains, string_eq,
  IsOnce, arith, refl, sym, ap, ◌∙◌, Bool-cases, Option-cases, inl, inr, append-nil, append_assoc,
  contains-append,
}
use tutorial_dealfinder.Migrate.{Database, Client, record_file, run_file, apply_files}

-- the SQL of the files, one after the other
unfoldable pub run_sql : {S : Type 0} → (String → S → Option S) → List String → S → Option S
run_sql sql [] tables = some tables
run_sql sql (name ∷ files) tables = elim (sql name tables) [
  | none ↦ none
  | some tables' ↦ run_sql sql files tables'
]

-- the names that the log lacks
abbrev pub missing : List String → List String → List String
missing done files = keep (λ f. not (contains done f)) files

contains-missing :
    (done files : List String) (f : String)
    → contains files f ≡ false
    → contains (missing done files) f ≡ false
unfolding keep contains
contains-missing done [] f h = refl
contains-missing done (g ∷ files) f h = ground (arith, contains-missing done files f)

module _ {S Conn : Type 0} (client : Client (Database S) Conn) (sql : String → S → Option S) where
  -- no file of the rest is logged since the run began
  abbrev Untouched : List String → List String → List String → Type 0
  Untouched done files log =
      (f : String) → contains files f ≡ true → contains done f ≡ false → contains log f ≡ false

  Untouched-tail :
      (done : List String) (name : String) (files log : List String)
      → IsOnce (name ∷ files)
      → Untouched done (name ∷ files) log
      → Untouched done files (log ++ name ∷ [])
  unfolding contains
  Untouched-tail done name files log once u f h k = ground (
    arith,
    h,
    contains-append log (name ∷ []) f,
    u f (ground (arith, h)) k,
    once.0,
    string_eq.same_iff f name,
  )

  Untouched-skip :
      (done : List String) (name : String) (files log : List String)
      → Untouched done (name ∷ files) log
      → Untouched done files log
  unfolding contains
  Untouched-skip done name files log u f h k = u f (ground (arith, h)) k

  run_file-some :
      (db : Database S) (name : String) (log : List String) (tables : S)
      → db.log ≡ some log
      → contains log name ≡ false
      → sql name db.tables ≡ some tables
      → run_file sql name db ≡ some (record { tables = tables; log = some (log ++ name ∷ []) })
  unfolding run_file record_file
  run_file-some db name log tables l k e = rw (e, l, k, run_file, record_file) refl

  run_file-none :
      (db : Database S) (name : String) → sql name db.tables ≡ none → run_file sql name db ≡ none
  unfolding run_file
  run_file-none db name e = rw (e, run_file) refl

  pub apply_files_all :
      (done files : List String) (conn : Conn) (applied log : List String) (tables : S)
      → IsOnce files
      → Untouched done files log
      → client.is_open conn ≡ true
      → (client.seen conn).log ≡ some log
      → run_sql sql (missing done files) (client.seen conn).tables ≡ some tables
      → let (conn', names, passed) = apply_files client sql done files conn applied in
        (passed ≡ true)
        × (names ≡ applied ++ missing done files)
        × (client.seen conn' ≡ record { tables = tables; log = some (log ++ missing done files) })
  unfolding apply_files run_sql keep contains
  apply_files_all done [] conn applied log tables once u busy l r =
      (refl, sym (append-nil applied), ground (arith, l, r, append-nil log))
  apply_files_all done (name ∷ files) conn applied log tables once u busy l r =
      elim (Bool-cases (contains done name)) [
        | inl e ↦ rw e (
            apply_files_all done files conn applied log tables once.1
              (Untouched-skip done name files log u) busy l (rw e at r))
        | inr e ↦ elim (Option-cases (sql name (client.seen conn).tables)) [
          | inl stop ↦ absurd (ground (arith, (rw (e, stop) at r)))
          | inr (tables', go) ↦
              let db : Database S = record { tables = tables'; log = some (log ++ name ∷ []) } in
              let step = client.transaction_some conn (run_file sql name) db busy (
                run_file-some (client.seen conn) name log tables' l
                  (u name (ground (arith, string_eq.same_iff name name)) e) go) in
              let (a, b, c) =
                apply_files_all done files (client.transaction conn (run_file sql name)).0
                  (applied ++ name ∷ []) (log ++ name ∷ []) tables once.1
                  (Untouched-tail done name files log once u) step.3 (ap (λ x. x.log) step.1)
                  (ap (λ x. run_sql sql (missing done files) x.tables) step.1 ∙ rw (e, go) at r) in
              rw (e, step.0)
                (
                  a,
                  b ∙ append_assoc applied (name ∷ []) (missing done files),
                  c
                      ∙ ap (λ x. record { tables = tables; log = some x })
                          (append_assoc log (name ∷ []) (missing done files)),
                )
        ]
      ]

  pub apply_files_stop :
      (done files : List String) (conn : Conn) (applied log : List String)
      → IsOnce files
      → Untouched done files log
      → client.is_open conn ≡ true
      → (client.seen conn).log ≡ some log
      → run_sql sql (missing done files) (client.seen conn).tables ≡ none
      → let (conn', names, passed) = apply_files client sql done files conn applied in
        (passed ≡ false) × (client.saved conn' ≡ client.saved conn)
  unfolding apply_files run_sql keep contains
  apply_files_stop done [] conn applied log once u busy l r = absurd (cc)
  apply_files_stop done (name ∷ files) conn applied log once u busy l r =
      elim (Bool-cases (contains done name)) [
        | inl e ↦ rw e (
            apply_files_stop done files conn applied log once.1
              (Untouched-skip done name files log u) busy l (rw e at r))
        | inr e ↦ elim (Option-cases (sql name (client.seen conn).tables)) [
          | inl stop ↦
              let step =
                client.transaction_none conn (run_file sql name) busy
                  (run_file-none (client.seen conn) name stop) in
              rw (e, step.0) (refl, step.2)
          | inr (tables', go) ↦
              let db : Database S = record { tables = tables'; log = some (log ++ name ∷ []) } in
              let step = client.transaction_some conn (run_file sql name) db busy (
                run_file-some (client.seen conn) name log tables' l
                  (u name (ground (arith, string_eq.same_iff name name)) e) go) in
              let (a, b) =
                apply_files_stop done files (client.transaction conn (run_file sql name)).0
                  (applied ++ name ∷ []) (log ++ name ∷ []) once.1
                  (Untouched-tail done name files log once u) step.3 (ap (λ x. x.log) step.1)
                  (ap (λ x. run_sql sql (missing done files) x.tables) step.1 ∙ rw (e, go) at r) in
              rw (e, step.0) (a, b ∙ step.2)
        ]
      ]
