-- ===== src/Base/Letters.antt =====
-- `str.strip` and `str.lower`, on the code points of a string.
use Prim.Native.Nat.{ℕ, ◌+◌}
use Prim.Native.Char.{code}
use Prim.Native.String.{String, [] as no_letter, ◌∷◌ as letter}
use mathlib.Core.Bool.{◌&&◌}
use mathlib.Core.List.{List, [], ◌∷◌}
use ha_vacuum_planner.Base.Tests.{if◌then◌else◌, leb, nat_beq}
use ha_vacuum_planner.Base.Lists.{is_empty}
use ha_vacuum_planner.Base.Text.{is_space}

-- the code points of a string
unfoldable pub code_points : String → List ℕ
code_points no_letter = []
code_points (letter c s) = code c ∷ code_points s

unfoldable pub drop_spaces : List ℕ → List ℕ
drop_spaces [] = []
drop_spaces (c ∷ cs) = let rest = drop_spaces cs in if is_space c then rest else c ∷ cs

unfoldable pub drop_last_spaces : List ℕ → List ℕ
drop_last_spaces [] = []
drop_last_spaces (c ∷ cs) =
    let rest = drop_last_spaces cs in if is_empty rest && is_space c then [] else c ∷ rest

-- `value.strip()`, as code points
unfoldable pub strip : String → List ℕ
strip s = drop_last_spaces (drop_spaces (code_points s))

-- `str.lower` of one character, as far as an ASCII letter comes out of it: of an ASCII capital, and of
-- the Kelvin sign. What other characters become is never equal to an ASCII text.
unfoldable pub lower : ℕ → ℕ
lower c = if leb 65 c && leb c 90 then c + 32 else if nat_beq c 8490 then 107 else c
