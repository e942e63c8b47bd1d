-- ===== src/Migrate/Tests.antt =====
-- Runs of dealfinder/migrate.py, and its theorems at concrete inputs. The tables are the list of the
-- statements that were run.
use tutorial_dealfinder.Base.{
  ◌≡◌, String, Bool, true, false, ◌==◌, Option, none, some, List, [], ◌∷◌, ◌++◌, if◌then◌else◌,
  contains, keep, all, string_eq, refl,
}
use tutorial_dealfinder.Migrate.{
  Database, Client, bootstrap, pending, schema_ready, schema_current, apply, record_file, run_file,
  apply_files, apply_done,
}
use tutorial_dealfinder.Migrate.Run.{run_sql}
use tutorial_dealfinder.Migrate.Ready.{logged, apply_lem, apply_ready}

program : Unit {0}
unfolding bootstrap pending schema_ready schema_current apply record_file run_file apply_files
    apply_done run_sql contains keep all
program = tt

abbrev Db : Type 0
Db = Database (List String)

-- a connection that keeps what it sees, what is saved, and whether a transaction is open
record Session : Type 0 where
  seen : Db
  saved : Db
  is_open : Bool

abbrev after_block : Session → Option Db → Session × Bool
after_block c none = (c, false)
after_block c (some d) =
    (record { seen = d; saved = if c.is_open then c.saved else d; is_open = c.is_open }, true)

abbrev after_execute : Session → Option Db → Option Session
after_execute c none = none
after_execute c (some d) = some (record { seen = d; saved = c.saved; is_open = true })

block_some :
    (c : Session) (o : Option Db) (d : Db)
    → c.is_open ≡ true
    → o ≡ some d
    → let (c', passed) = after_block c o in
      (passed ≡ true) × (c'.seen ≡ d) × (c'.saved ≡ c.saved) × (c'.is_open ≡ true)
block_some c none d h e = absurd (cc)
block_some c (some x) d h e = (refl, cc, rw h refl, h)

block_none :
    (c : Session) (o : Option Db)
    → c.is_open ≡ true
    → o ≡ none
    → let (c', passed) = after_block c o in
      (passed ≡ false) × (c'.seen ≡ c.seen) × (c'.saved ≡ c.saved) × (c'.is_open ≡ true)
block_none c none h e = (refl, refl, refl, h)
block_none c (some x) h e = absurd (cc)

execute_some :
    (c : Session) (o : Option Db) (d : Db)
    → o ≡ some d
    → (c' : Session) × (after_execute c o ≡ some c')
      × (c'.seen ≡ d)
      × (c'.saved ≡ c.saved)
      × (c'.is_open ≡ true)
execute_some c none d e = absurd (cc)
execute_some c (some x) d e =
    (record { seen = x; saved = c.saved; is_open = true }, refl, cc, refl, refl)

abbrev client : Client Db Session
client = record {
  connect = λ d. record { seen = d; saved = d; is_open = false };
  seen = λ c. c.seen;
  saved = λ c. c.saved;
  is_open = λ c. c.is_open;
  execute = λ c f. after_execute c (f c.seen);
  commit = λ c. record { seen = c.seen; saved = c.seen; is_open = false };
  transaction = λ c f. after_block c (f c.seen);
  connect_lem = λ d. (refl, refl);
  execute_some = λ c f d e. execute_some c (f c.seen) d e;
  commit_lem = λ c. (refl, refl);
  transaction_some = λ c f d h e. block_some c (f c.seen) d h e;
  transaction_none = λ c f h e. block_none c (f c.seen) h e;
}

abbrev sql : String → List String → Option (List String)
sql name tables = if name == "0003_bad.sql" then none else some (tables ++ name ∷ [])

abbrev files : List String
files = "0001_init.sql" ∷ "0002_users.sql" ∷ []

abbrev with_bad : List String
with_bad = "0001_init.sql" ∷ "0002_users.sql" ∷ "0003_bad.sql" ∷ []

abbrev old : Db
old = record { tables = "0001_init.sql" ∷ []; log = some ("0001_init.sql" ∷ []) }

abbrev newer : Db
newer = record { tables = files; log = some files }

apply_one : apply client sql files old ≡ (newer, some ("0002_users.sql" ∷ []))
unfolding program
apply_one = refl

-- the second file is rolled back with the third
apply_bad : apply client sql with_bad old ≡ (old, none)
unfolding program
apply_bad = refl

fresh_ready : schema_ready files (some (record { tables = tt; log = none })) ≡ false
unfolding program
fresh_ready = refl

apply_lem_example :
    ((tables : List String)
      → run_sql sql (pending files old) old.tables ≡ some tables
      → apply client sql files old ≡ (
        record { tables = tables; log = some (logged old ++ pending files old) },
        some (pending files old),
      ))
    × (run_sql sql (pending files old) old.tables ≡ none
        → apply client sql files old ≡ (record old { log = some (logged old) }, none))
unfolding program
apply_lem_example = apply_lem client sql files old (refl, (refl, tt))

apply_ready_example :
    let after = (apply client sql files old).0 in
    (schema_ready files (some after) ≡ true)
    × (schema_current files (some after) ≡ true)
    × (apply client sql files after ≡ (after, some []))
unfolding program
apply_ready_example = apply_ready client sql files old files (refl, (refl, tt)) refl
