-- ===== src/Base/Strings.antt =====
-- What the code calls of `str`.
use Prim.Native.Char.{code}
use Prim.Native.Nat.{ℕ, suc}
use Prim.Native.String.{String, ◌++◌ as str_append}
use mathlib.Core.Bool.{Bool, true, false, ◌&&◌, ◌||◌}
use mathlib.Core.List.{List, [], ◌∷◌}
use tutorial_dealfinder.Base.Tests.{nat_beq, if◌then◌else◌}

-- `text.startswith(f)`
unfoldable pub starts_with : String → String → Bool
starts_with String.[] s = true
starts_with (String.◌∷◌ c f) String.[] = false
starts_with (String.◌∷◌ c f) (String.◌∷◌ d s) = nat_beq (code c) (code d) && starts_with f s

-- `f in text`
unfoldable pub occurs : String → String → Bool
occurs f String.[] = starts_with f ""
occurs f (String.◌∷◌ c s) = starts_with f (String.◌∷◌ c s) || occurs f s

-- `separator.join(texts)`
unfoldable pub join : String → List String → String
join separator [] = ""
join separator (h ∷ []) = h
join separator (h ∷ k ∷ texts) = str_append h (str_append separator (join separator (k ∷ texts)))

-- `len(text)`
unfoldable pub str_len : String → ℕ
str_len String.[] = 0
str_len (String.◌∷◌ c s) = suc (str_len s)

-- the concatenation of the parts of an f-string
unfoldable pub concat : List String → String
concat [] = ""
concat (s ∷ texts) = str_append s (concat texts)

-- `text.split(":", 1)[1]`, and "" where there is no colon
unfoldable pub after_colon : String → String
after_colon String.[] = ""
after_colon (String.◌∷◌ c s) = let rest = after_colon s in if nat_beq (code c) b':' then s else rest
