-- ===== src/Tools.antt =====
-- dealfinder/tool_trust.py: the check of a suggested dependency against the packages known to be
-- good.
pub mod Edits
pub mod Distance
pub mod Dependency
pub mod Vetting
mod Tests
use Prim.Native.Char.{code}
use tutorial_dealfinder.Base.{
  ℕ, suc, ◌+◌, ◌-◌, min, String, Bool, true, false, not, ◌&&◌, Option, none, some, List, [], ◌∷◌,
  nat_beq, leb, if◌then◌else◌, length, contains, string_eq, ◌==◌,
}

-- the characters of a text, as code points
unfoldable pub chars : String → List ℕ
chars String.[] = []
chars (String.◌∷◌ c s) = code c ∷ chars s

-- `ca != cb`, as a number
abbrev pub cost : ℕ → ℕ → ℕ
cost a b = if nat_beq a b then 0 else 1

-- `list(range(n, n + len(b) + 1))`
unfoldable pub range_from : ℕ → List ℕ → List ℕ
range_from n [] = n ∷ []
range_from n (b ∷ bs) = n ∷ range_from (suc n) bs

-- the inner loop of `_edit_distance`: `left` is `cur[j - 1]`, `corner` is `prev[j - 1]`, and the list
-- before `b` is `prev` from `j` on, which is as long as the rest of `b`
unfoldable pub cells : ℕ → ℕ → ℕ → List ℕ → List ℕ → List ℕ
cells ca left corner (up ∷ prev) (cb ∷ b) =
    let cell = min (min (up + 1) (left + 1)) (corner + cost ca cb) in cell ∷ cells ca cell up prev b
cells ca left corner _ _ = []

-- one round of the outer loop, `cur = [i]` first
unfoldable pub next_row : ℕ → ℕ → List ℕ → List ℕ → List ℕ
next_row i ca [] b = i ∷ []
next_row i ca (corner ∷ prev) b = i ∷ cells ca i corner prev b

-- the outer loop
unfoldable pub rows : ℕ → List ℕ → List ℕ → List ℕ → List ℕ
rows i prev [] b = prev
rows i prev (ca ∷ a) b = rows (suc i) (next_row i ca prev b) a b

-- `prev[-1]`, of a row that is not empty
unfoldable pub last_cell : List ℕ → ℕ
last_cell [] = 0
last_cell (n ∷ []) = n
last_cell (_ ∷ n ∷ row) = last_cell (n ∷ row)

-- `_edit_distance`
unfoldable pub edit_distance : String → String → ℕ
edit_distance a b =
    if a == b then 0 else last_cell (rows 1 (range_from 0 (chars b)) (chars a) (chars b))

-- `abs(len(name) - len(good)) <= 1`
unfoldable pub near_length : String → String → Bool
near_length name good =
    let n = length (chars name) in let k = length (chars good) in leb n (k + 1) && leb k (n + 1)

-- the loop of `check_dependency`
unfoldable pub lookalike : String → List String → Option String
lookalike name [] = none
lookalike name (good ∷ known) =
    if near_length name good && nat_beq (edit_distance name good) 1
    then some good
    else lookalike name known

-- `check_dependency`; the set of known packages is a list in the order of its iteration
unfoldable pub check_dependency : String → List String → Option String
check_dependency name known_good =
    if contains known_good name then none else lookalike name known_good
