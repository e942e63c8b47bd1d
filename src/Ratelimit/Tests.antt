-- ===== src/Ratelimit/Tests.antt =====
-- Runs of dealfinder/ratelimit.py, and the theorems at concrete inputs.
use tutorial_dealfinder.Base.{
  ℕ, ◌+◌, ◌<◌, String, ◌≡◌, refl, false, List, [], ◌∷◌, arith, leb, lookup, insert, some, none,
  Option, Dict, ok, inr, ◌==◌, string_eq, keep, drop_keys, sort,
}
use tutorial_dealfinder.Compliance.Window.{SlidingWindow, init, evict, allow}
use tutorial_dealfinder.Compliance.Window.Valid.{IsValid, init-IsValid, allow-IsValid}
use tutorial_dealfinder.Ratelimit.{
  Limiter, windows_of, create, last?, is_idle, idle_keys, tuple_le, open_keys, shrink, shrink_due,
  maybe_shrink, client_entry, first, retry_after, shrink_above, admit, check_window, check,
}
use tutorial_dealfinder.Ratelimit.Moves.{IsReady, IsTable}
use tutorial_dealfinder.Ratelimit.Check.{create-IsReady, check_lem, serve}
use tutorial_dealfinder.Ratelimit.Retry.{admit_exact}

program : Unit {0}
unfolding init evict allow lookup insert keep drop_keys sort windows_of create last? is_idle
    idle_keys tuple_le open_keys shrink shrink_due maybe_shrink client_entry first retry_after
    shrink_above admit check_window check
program = tt

abbrev tables : Dict String SlidingWindow
tables = ("/ask", record { limit = 1; window = 60000; events = [] }) ∷ []

abbrev small : Limiter
small = record { windows = tables; max_keys = 1; last_shrink = [] }

abbrev small_limits : Dict String (ℕ × ℕ)
small_limits = ("/ask", (1, 60000)) ∷ []

small-IsReady : IsReady small 0
unfolding program
small-IsReady = create-IsReady small_limits 1 small refl

-- Two clients fill the table of `/ask`, and a third waits one window.
abbrev crowd : List (String × (String × ℕ))
crowd = ("/ask", ("a", 0)) ∷ ("/ask", ("b", 10)) ∷ ("/ask", ("c", 20)) ∷ ("/ask", ("a", 1000)) ∷ []

abbrev answers_of :
    Dict String SlidingWindow → List (String × (String × ℕ)) → Option (List (Option ℕ))
answers_of ws rs = elim (serve (record { windows = ws; max_keys = 1; last_shrink = [] }) rs) [
  | ok p ↦ some p.1
  | _ ↦ none
]

crowd_answers : answers_of tables crowd ≡ some (none ∷ none ∷ some 60000 ∷ some 59000 ∷ [])
unfolding program serve
crowd_answers = refl

check_lem_example :
    (l' : Limiter) × (r : Option ℕ) × (check small "/ask" "a" 7 ≡ ok (l', r))
    × IsReady l' 7
    × (l'.max_keys ≡ 1)
    × ((p : String) → ("/ask" == p) ≡ false → lookup l'.windows p ≡ lookup tables p)
check_lem_example = check_lem small "/ask" "a" 0 7 (omega arith) small-IsReady

abbrev asked : SlidingWindow
asked = record { limit = 1; window = 60000; events = ("k", 100 ∷ []) ∷ [] }

asked-IsValid : IsValid asked 100
unfolding program
asked-IsValid =
    allow-IsValid (record { limit = 1; window = 60000; events = [] }) "k" 0 100 (omega arith)
      (init-IsValid 1 60000 0 (record { limit = 1; window = 60000; events = [] }) refl)

abbrev after_refusal : Limiter
after_refusal = record small { windows = ("/ask", asked) ∷ [] }

asked_again : admit small "/ask" asked "k" 200 ≡ ok (after_refusal, some 59900)
unfolding program
asked_again = refl

asked-IsTable : IsTable 1 100 asked
unfolding program
asked-IsTable = record { valid = asked-IsValid; dict = (refl, tt); ceiling = omega arith }

admit_exact_example :
    (0 < 59900)
    × ((later : ℕ) → (allow (allow asked "k" 200).0 "k" later).1 ≡ leb (200 + 59900) later)
admit_exact_example =
    admit_exact small "/ask" asked "k" 100 200 59900 after_refusal (omega arith) (inr (omega arith))
      asked-IsTable asked_again
