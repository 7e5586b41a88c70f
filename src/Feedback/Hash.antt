-- ===== src/Feedback/Hash.antt =====
-- core/feedback/signals.ts: `contextHashOf`. SHA-1 (node:crypto) is the parameter `sha1_hex`, from
-- a text to its digest in hexadecimal.
use Prim.Native.Nat.{ℕ, zero, suc}
use Prim.Native.String.{String, [], ◌∷◌, ◌++◌}

-- `s.slice(0, n)`, for a text whose characters are single code units, as hexadecimal digits are.
abbrev slice : ℕ → String → String
slice zero s = []
slice (suc n) [] = []
slice (suc n) (c ∷ s) = c ∷ slice n s

unfoldable pub context_hash_of : (String → String) → String → String → String
context_hash_of sha1_hex tool_id context = slice 16 (sha1_hex (tool_id ++ "\n" ++ context))
