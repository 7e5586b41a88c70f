-- ===== src/Memory/Tests.antt =====
-- core/memory/l2/candidate-pool.ts: runs at concrete inputs.
use mathlib.Core.List.{Perm}
use memos_qdrant.Shared.{
  ℕ, ◌+◌, ◌≤◌, max, String, ◌≡◌, refl, Bool, Option, none, some, [], ◌∷◌, inr, string_eq, includes,
  length, All, if◌then◌else◌, ◌==◌, ◌&&◌, not, arith,
}
use memos_qdrant.Shared.Keyed.{get, set, Entries, Distinct}
use memos_qdrant.Memory.CandidateId.{signature_hash, candidate_id_for}
use memos_qdrant.Memory.CandidateRepo.{CandidatePoolRow, Pool, prune}
use memos_qdrant.Memory.CandidatePool.{
  Added, AddCandidateInput, CandidateBucket, add_candidate, buckets_ready_for_induction, group,
  promote,
}
use memos_qdrant.Memory.CandidatePool.Adding.{IsSound, PoolSound, IsAdded, add_candidate_lem}
use memos_qdrant.Memory.CandidatePool.Order.{IsOrder, Ordered}
use memos_qdrant.Memory.CandidatePool.Buckets.{buckets_reference}
use memos_qdrant.Memory.CandidatePool.Ready.{IsReady, Descending, ready_lem, prune_lem}
use memos_qdrant.Memory.CandidatePool.Promoting.{promoted, promote_lem}

-- The id that the code gives to a trace of one signature.
id_run : candidate_id_for "pip|_|_|_" "tr:1/2" ≡ "cand_19uubrz_tr12"
unfolding candidate_id_for signature_hash
id_run = refl

abbrev row : String → String → String → ℕ → CandidatePoolRow ℕ
row id trace sig expires_at = record {
  id = id;
  policy_id = none;
  evidence_trace_ids = trace ∷ [];
  signature = sig;
  similarity = 0;
  expires_at = expires_at;
}

abbrev pool : Pool ℕ
pool = record {
  rows =
      ("c1", row "c1" "t1" "pip" 50)
      ∷ ("c2", row "c2" "t2" "apt" 50)
      ∷ ("c3", row "c3" "t3" "pip" 50)
      ∷ ("c4", row "c4" "t4" "pip" 10)
      ∷ [];
  policies = "po_1" ∷ [];
}

pool-Sound : PoolSound pool
pool-Sound = (sound, (sound, (sound, (sound, tt))))
  where
    sound : {id trace sig : String} {n : ℕ} → IsSound ℕ ("po_1" ∷ []) id (row id trace sig n)
    sound = record { keyed = refl; referred = refl; once = (refl, tt) }

pool-Distinct : Distinct pool.rows
unfolding get
pool-Distinct = (refl, (refl, (refl, (refl, tt))))

-- The traces t1 and t3 are of two episodes, t2 of one without a name.
abbrev episode_of : String → Option String
episode_of t = some (if t == "t2" then "" else t)

-- `apt` is later than every other string.
abbrev later : String → String → Bool
later a b = (a == "apt") && not (b == "apt")

later-IsOrder : IsOrder later
later-IsOrder = record {
  one_way = λ a b h. ground (arith, h);
  chains = λ a b c h k. ground (arith, h, k);
}

abbrev input : AddCandidateInput ℕ
input = record { trace_id = "t1"; signature = "pip"; ttl_ms = 30; similarity = some 2; now = 40 }

add_candidate_lem_example :
    (a : Added) × (p' : Pool ℕ) × (add_candidate max 0 input pool ≡ inr (a, p'))
    × IsAdded ℕ input pool p' a
add_candidate_lem_example = add_candidate_lem max 0 input pool pool-Sound

-- Only the signature with two waiting rows is ready.
abbrev pip : CandidateBucket
pip = record {
  signature = "pip";
  candidate_ids = "c1" ∷ "c3" ∷ [];
  evidence_trace_ids = "t1" ∷ "t3" ∷ [];
  episode_ids = "t1" ∷ "t3" ∷ [];
}

buckets_reference_example :
    Perm (buckets_ready_for_induction episode_of later 2 40 pool) (pip ∷ [])
    × Ordered later (buckets_ready_for_induction episode_of later 2 40 pool)
buckets_reference_example = buckets_reference episode_of later 2 40 later-IsOrder pool

buckets_run : buckets_ready_for_induction episode_of later 1 40 pool ≡ pip ∷ []
unfolding buckets_ready_for_induction group get set
buckets_run = refl

ready_lem_example :
    All (IsReady 1) (buckets_ready_for_induction episode_of later 1 40 pool)
    × Descending (buckets_ready_for_induction episode_of later 1 40 pool)
ready_lem_example = ready_lem later episode_of 1 40 pool

prune_lem_example :
    Entries (λ k r. 40 ≤ r.expires_at) (prune 40 pool).1.rows
    × (length (prune 40 pool).1.rows + (prune 40 pool).0 ≡ 4)
    × (buckets_ready_for_induction episode_of later 2 40 (prune 40 pool).1
        ≡ buckets_ready_for_induction episode_of later 2 40 pool)
prune_lem_example = prune_lem 40 episode_of later 2 pool

promote_lem_example :
    ((promote ("c1" ∷ "c9" ∷ []) "po_1" pool).0 ≡ none)
    × ((promote ("c1" ∷ "c9" ∷ []) "po_1" pool).1.policies ≡ pool.policies)
    × PoolSound (promote ("c1" ∷ "c9" ∷ []) "po_1" pool).1
    × ((j : String)
        → get j (promote ("c1" ∷ "c9" ∷ []) "po_1" pool).1.rows ≡ (
            if includes j ("c1" ∷ "c9" ∷ [])
            then promoted "po_1" (get j pool.rows)
            else get j pool.rows))
promote_lem_example = promote_lem "po_1" ("c1" ∷ "c9" ∷ []) pool refl pool-Sound
