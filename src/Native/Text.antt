-- ===== src/Native/Text.antt =====
-- Names, as the lists of their code points, and objects whose attributes have names.
use Prim.Native.Char.{code}
use Prim.Native.String.{String}
use dumpulator.Prelude.{
  ℕ, ◌≡◌, refl, arith, ◌+◌, Bool, true, false, ◌&&◌, List, [], ◌∷◌, leb, ◌==◌, if◌then◌else◌,
}

abbrev pub Name : Type 0
Name = List ℕ

-- The code points of a literal.
abbrev pub codes : String → Name
codes String.[] = []
codes (String.◌∷◌ c s) = code c ∷ codes s

unfoldable pub same_name : Name → Name → Bool
same_name [] [] = true
same_name [] (y ∷ ys) = false
same_name (x ∷ xs) [] = false
same_name (x ∷ xs) (y ∷ ys) = let rest = same_name xs ys in if x == y then rest else false

unfoldable pub starts_with : (prefix name : Name) → Bool
starts_with [] name = true
starts_with (x ∷ xs) [] = false
starts_with (x ∷ xs) (y ∷ ys) = let rest = starts_with xs ys in if x == y then rest else false

abbrev lower_code : ℕ → ℕ
lower_code c = if leb 65 c && leb c 90 then c + 32 else c

-- `name.lower()`, of ASCII
unfoldable pub lower : Name → Name
lower [] = []
lower (c ∷ cs) = lower_code c ∷ lower cs

-- `setattr(object, name, value)` and `object.name = value`
unfoldable pub set_attr : Name → ℕ → (Name → ℕ) → Name → ℕ
unfolding same_name
set_attr name value attrs other = if same_name name other then value else attrs other

pub same_name_refl : (n : Name) → same_name n n ≡ true
unfolding same_name
same_name_refl [] = refl
same_name_refl (c ∷ cs) = let same : (c == c) ≡ true = ground arith in rw same (same_name_refl cs)
