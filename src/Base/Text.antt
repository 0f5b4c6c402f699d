-- ===== src/Base/Text.antt =====
-- `str.strip` as far as the source uses it: whether anything is left.
use Prim.Native.Nat.{ℕ}
use Prim.Native.Char.{code}
use Prim.Native.String.{String, [], ◌∷◌, ◌++◌}
use mathlib.Core.Path.{◌≡◌, refl}
use native.Mathlib.Omega.{arith}
use mathlib.Core.Bool.{Bool, true, false, not, ◌&&◌, ◌||◌}
use ha_vacuum_planner.Base.Tests.{leb, ltb, nat_beq}

-- The code points for which `str.isspace` holds.
unfoldable pub is_space : ℕ → Bool
is_space c =
    (leb 9 c && leb c 13)
    || (leb 28 c && leb c 32)
    || nat_beq c 133
    || nat_beq c 160
    || nat_beq c 5760
    || (leb 8192 c && leb c 8202)
    || nat_beq c 8232
    || nat_beq c 8233
    || nat_beq c 8239
    || nat_beq c 8287
    || nat_beq c 12288

-- `bool(value.strip())`
unfoldable pub has_text : String → Bool
unfolding is_space
has_text [] = false
has_text (c ∷ s) = not (is_space (code c)) || has_text s

unfoldable pub str_append : String → String → String
str_append a b = a ++ b

-- `a < b`, by code points
unfoldable pub string_lt : String → String → Bool
string_lt [] [] = false
string_lt [] (d ∷ t) = true
string_lt (c ∷ s) [] = false
string_lt (c ∷ s) (d ∷ t) =
    let rest = string_lt s t in ltb (code c) (code d) || (nat_beq (code c) (code d) && rest)

pub string_lt-asym : (a b : String) → string_lt a b ≡ true → string_lt b a ≡ false
unfolding string_lt
string_lt-asym [] [] h = refl
string_lt-asym [] (d ∷ t) h = refl
string_lt-asym (c ∷ s) [] h = cc
string_lt-asym (c ∷ s) (d ∷ t) h = ground (arith, string_lt-asym s t)
