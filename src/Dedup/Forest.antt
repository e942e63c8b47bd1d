-- ===== src/Dedup/Forest.antt =====
-- The union-find of dealfinder/dedup.py. The list `parent` is a function of the index; `find` runs on
-- fuel, of which the number of unions so far is enough.
pub mod Roots
use tutorial_dealfinder.Base.{
  ℕ, zero, suc, Bool, true, false, List, [], ◌∷◌, nat_beq, if◌then◌else◌,
}

-- `parent`
abbrev pub Parent : Type 0
Parent = ℕ → ℕ

-- `parent[i] = v`
abbrev pub assign : Parent → ℕ → ℕ → Parent
assign parent i v = λ x. if nat_beq x i then v else parent x

-- `find`: the list with its path halved, and the root
unfoldable pub find : ℕ → Parent → ℕ → Parent × ℕ
find zero parent x = (parent, x)
find (suc fuel) parent x =
    let halved = assign parent x (parent (parent x)) in
    let rest = find fuel halved (parent (parent x)) in
    if nat_beq (parent x) x then (parent, x) else rest

-- `union`: the right-hand side `find(b)` is run first
unfoldable pub union : ℕ → Parent → ℕ → ℕ → Parent
union fuel parent a b =
    let (parent', root_b) = find fuel parent b in
    let (parent'', root_a) = find fuel parent' a in assign parent'' root_a root_b

-- the unions of a list of pairs
unfoldable pub unite : ℕ → Parent → List (ℕ × ℕ) → Parent
unite fuel parent [] = parent
unite fuel parent ((a, b) ∷ pairs) = unite fuel (union fuel parent a b) pairs
