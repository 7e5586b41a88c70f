-- ===== src/Memory/CandidateId.antt =====
-- core/memory/l2/candidate-pool.ts: `signatureHash` and `candidateIdFor`. The 32-bit word of the
-- hash is kept as a natural number below 2 ^ 32, which is what `h >>> 0` reads.
use Prim.Native.Nat.{ℕ, zero, suc, ◌+◌, ◌-◌, ◌*◌, ◌/◌, ◌%◌, ◌^◌}
use Prim.Native.Char.{Char, code}
use Prim.Native.String.{String, [], ◌∷◌, ◌++◌, slice}
use mathlib.Core.Bool.{Bool, ◌&&◌, ◌||◌}
use memos_qdrant.Shared.{ltb, leb, nat_beq, if◌then◌else◌}

-- One unit of `h = ((h << 5) + h + sig.charCodeAt(i)) | 0`.
abbrev djb2 : ℕ → ℕ → ℕ
djb2 h unit = (h * 2 ^ 5 % 2 ^ 32 + h + unit) % 2 ^ 32

-- The UTF-16 code units of a character: one, or a surrogate pair.
abbrev djb2_char : ℕ → Char → ℕ
djb2_char h c =
    if ltb (code c) 65536
    then djb2 h (code c)
    else djb2 (djb2 h (55296 + (code c - 65536) / 1024)) (56320 + (code c - 65536) % 1024)

abbrev djb2_from : ℕ → String → ℕ
djb2_from h [] = h
djb2_from h (c ∷ sig) = djb2_from (djb2_char h c) sig

abbrev digit36 : ℕ → String
digit36 d = slice "0123456789abcdefghijklmnopqrstuvwxyz" d (d + 1)

-- `n.toString(36)`, on a bound for the number of digits.
abbrev to_string36 : ℕ → ℕ → String
to_string36 zero n = []
to_string36 (suc digits) n =
    let high = to_string36 digits (n / 36) in
    if ltb n 36 then digit36 n else high ++ digit36 (n % 36)

-- Seven digits are enough, since 2 ^ 32 < 36 ^ 7.
unfoldable pub signature_hash : String → String
signature_hash sig = to_string36 7 (djb2_from 5381 sig)

-- `[a-zA-Z0-9_-]`
abbrev allowed : ℕ → Bool
allowed c =
    leb 97 c && leb c 122
    || leb 65 c && leb c 90
    || leb 48 c && leb c 57
    || nat_beq c 95
    || nat_beq c 45

-- `traceId.replace(/[^a-zA-Z0-9_-]+/g, "")`
abbrev sanitized : String → String
sanitized [] = []
sanitized (c ∷ s) = if allowed (code c) then c ∷ sanitized s else sanitized s

-- `.slice(0, n)` of a text whose characters are single code units.
abbrev prefix : ℕ → String → String
prefix zero s = []
prefix (suc n) [] = []
prefix (suc n) (c ∷ s) = c ∷ prefix n s

unfoldable pub candidate_id_for : String → String → String
unfolding signature_hash
candidate_id_for sig trace_id =
    "cand_" ++ signature_hash sig ++ "_" ++ prefix 24 (sanitized trace_id)
