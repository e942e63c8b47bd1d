-- ===== src/Tools/Distance.antt =====
-- `_edit_distance` of dealfinder/tool_trust.py, whose rows hold the distances between prefixes.
use tutorial_dealfinder.Base.{
  ℕ, suc, ◌≤◌, List, [], ◌∷◌, ◌≡◌, refl, subst, ap, ◌∙◌, arith, length, String, string_eq, ◌==◌,
  Bool-cases, inl, inr,
}
use tutorial_dealfinder.Tools.{chars, range_from, cells, next_row, rows, last_cell, edit_distance}
use tutorial_dealfinder.Tools.Edits.{
  recount, Edits, rev_append, Edits-rev_append, lev, lev-least, Edits-lev,
}

-- the distances of one reversed prefix of the first text to all longer prefixes of the second
cells_of : List ℕ → List ℕ → List ℕ → List ℕ
cells_of a b [] = []
cells_of a b (d ∷ rest) = lev a (d ∷ b) ∷ cells_of a (d ∷ b) rest

abbrev row_of : List ℕ → List ℕ → List ℕ → List ℕ
row_of a b rest = lev a b ∷ cells_of a b rest

cells_lem :
    (c : ℕ) (a b rest : List ℕ)
    → cells c (lev (c ∷ a) b) (lev a b) (cells_of a b rest) rest ≡ cells_of (c ∷ a) b rest
unfolding cells cells_of lev
cells_lem c a b [] = refl
cells_lem c a b (d ∷ rest) = ap (λ r. lev (c ∷ a) (d ∷ b) ∷ r) (cells_lem c a (d ∷ b) rest)

range_from_lem : (b rest : List ℕ) → range_from (length b) rest ≡ row_of [] b rest
unfolding range_from cells_of lev
range_from_lem b [] = refl
range_from_lem b (d ∷ rest) = ap (λ r. length b ∷ r) (range_from_lem (d ∷ b) rest)

next_row_lem :
    (c : ℕ) (a b : List ℕ) → next_row (suc (length a)) c (row_of a [] b) b ≡ row_of (c ∷ a) [] b
unfolding next_row lev
next_row_lem c a b = ap (λ r. suc (length a) ∷ r) (cells_lem c a [] b)

rows_lem :
    (a rest b : List ℕ)
    → rows (suc (length a)) (row_of a [] b) rest b ≡ row_of (rev_append rest a) [] b
unfolding rows rev_append
rows_lem a [] b = refl
rows_lem a (c ∷ rest) b = rw (next_row_lem c a b) (rows_lem (c ∷ a) rest b)

last_cell_lem : (a b rest : List ℕ) → last_cell (row_of a b rest) ≡ lev a (rev_append rest b)
unfolding last_cell cells_of rev_append
last_cell_lem a b [] = refl
last_cell_lem a b (d ∷ rest) = last_cell_lem a (d ∷ b) rest

pub table_lem :
    (a b : List ℕ)
    → last_cell (rows 1 (range_from 0 b) a b) ≡ lev (rev_append a []) (rev_append b [])
table_lem a b =
    ap (λ r. last_cell (rows 1 r a b)) (range_from_lem [] b)
    ∙ ap last_cell (rows_lem [] a b)
    ∙ last_cell_lem (rev_append a []) [] b

rev_append-twice : (a b : List ℕ) → rev_append (rev_append a b) [] ≡ rev_append b a
unfolding rev_append
rev_append-twice [] b = refl
rev_append-twice (c ∷ a) b = rev_append-twice a (c ∷ b)

turned : {n : ℕ} (a b : List ℕ) → Edits n a b → Edits n (rev_append a []) (rev_append b [])
turned a b h = recount (Edits-rev_append h Edits.done) (omega arith)

turned_back : {n : ℕ} (a b : List ℕ) → Edits n (rev_append a []) (rev_append b []) → Edits n a b
unfolding rev_append
turned_back {n} a b h =
    subst (λ x. Edits n x b) (rev_append-twice a [])
      (subst (λ y. Edits n (rev_append (rev_append a []) []) y) (rev_append-twice b [])
        (turned (rev_append a []) (rev_append b []) h))

unchanged : (a : List ℕ) → Edits 0 a a
unchanged [] = Edits.done
unchanged (c ∷ a) = Edits.same c (unchanged a)

-- `_edit_distance` is the Levenshtein distance: that many insertions, deletions and replacements of
-- single characters turn the first text into the second, and no smaller number does.
pub edit_distance_lem :
    (a b : String)
    → Edits (edit_distance a b) (chars a) (chars b)
      × ((n : ℕ) → Edits n (chars a) (chars b) → edit_distance a b ≤ n)
unfolding edit_distance
edit_distance_lem a b = elim (Bool-cases (a == b)) [
  | inl e ↦ rw e (
    subst (λ x. Edits 0 (chars a) (chars x)) ((string_eq.same_iff a b).0 e) (unchanged (chars a)),
    λ n h. omega arith,
  )
  | inr e ↦
      rw (e, table_lem (chars a) (chars b))
        (
          turned_back (chars a) (chars b)
              (Edits-lev (rev_append (chars a) []) (rev_append (chars b) [])),
          λ n h. lev-least (turned (chars a) (chars b) h),
        )
]
