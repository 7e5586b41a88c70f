-- ===== src/Shared/Text.antt =====
-- Strings of JavaScript: `trim`, `join`, and the values that `typeof` tells apart.
use Prim.Native.Char.{Char, code}
use Prim.Native.String.{String, [], ◌∷◌, ◌++◌}
use mathlib.Core.Bool.{Bool, true, false, ◌&&◌, ◌||◌}
use mathlib.Core.List.{List}
use memos_qdrant.Shared.Tests.{leb, nat_beq, if◌then◌else◌}

-- White space and line ends of ECMAScript.
abbrev pub is_space : Char → Bool
is_space c =
    let k = code c in
    leb 9 k && leb k 13
    || nat_beq k 32
    || nat_beq k 160
    || nat_beq k 0x1680
    || leb 0x2000 k && leb k 0x200a
    || nat_beq k 0x2028
    || nat_beq k 0x2029
    || nat_beq k 0x202f
    || nat_beq k 0x205f
    || nat_beq k 0x3000
    || nat_beq k 0xfeff

abbrev pub is_empty : String → Bool
is_empty [] = true
is_empty (c ∷ s) = false

unfoldable pub trim_start : String → String
trim_start [] = []
trim_start (c ∷ s) = if is_space c then trim_start s else c ∷ s

unfoldable pub trim_end : String → String
trim_end [] = []
trim_end (c ∷ s) = let r = trim_end s in if is_space c && is_empty r then [] else c ∷ r

unfoldable pub trim : String → String
unfolding trim_start trim_end
trim s = trim_end (trim_start s)

unfoldable pub join : String → List String → String
join sep List.[] = []
join sep (List.◌∷◌ s List.[]) = s
join sep (List.◌∷◌ s (List.◌∷◌ t ts)) = s ++ (sep ++ join sep (List.◌∷◌ t ts))
