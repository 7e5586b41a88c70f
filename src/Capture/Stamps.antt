-- ===== src/Capture/Stamps.antt =====
-- core/capture/step-extractor.ts: `uniqueTs`, the next time stamp that no step of the segment has.
pub mod Fresh
use memos_qdrant.Shared.{ℕ, zero, suc, ◌+◌, true, false, List, nat_eq, length, includes, string_eq}

-- `while (usedTs.has(t)) t = t + 1`, on a bound for the rounds.
unfoldable pub unique_ts_from : ℕ → List ℕ → ℕ → ℕ
unique_ts_from zero used t = t
unique_ts_from (suc fuel) used t = elim (includes t used) [
  | true ↦ unique_ts_from fuel used (t + 1)
  | false ↦ t
]

-- One round more than there are stamps in use is enough.
unfoldable pub unique_ts : List ℕ → ℕ → ℕ
unfolding unique_ts_from
unique_ts used base = unique_ts_from (suc (length used)) used base
