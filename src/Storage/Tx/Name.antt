-- ===== src/Storage/Tx/Name.antt =====
-- core/storage/tx.ts: the test of `sanitizeName`, `/^[a-zA-Z_][a-zA-Z0-9_]*$/`.
use Prim.Native.Nat.{ℕ}
use Prim.Native.Char.{code}
use Prim.Native.String.{String, [], ◌∷◌}
use mathlib.Core.Bool.{Bool, true, false, ◌&&◌, ◌||◌}
use memos_qdrant.Shared.{leb, nat_beq}

abbrev is_letter : ℕ → Bool
is_letter c = leb 97 c && leb c 122 || leb 65 c && leb c 90 || nat_beq c 95

abbrev is_word : String → Bool
is_word [] = true
is_word (c ∷ s) = (is_letter (code c) || leb 48 (code c) && leb (code c) 57) && is_word s

unfoldable pub is_savepoint_name : String → Bool
is_savepoint_name [] = false
is_savepoint_name (c ∷ s) = is_letter (code c) && is_word s
