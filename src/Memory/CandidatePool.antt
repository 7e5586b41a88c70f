-- ===== src/Memory/CandidatePool.antt =====
-- core/memory/l2/candidate-pool.ts: `makeCandidatePool`. A trace is its id and its signature;
-- `episode_of` is what the table of traces holds, `later` the string order of `localeCompare`.
pub mod Adding
pub mod Tables
pub mod Grouping
pub mod Described
pub mod Order
pub mod Buckets
pub mod Ready
pub mod Promoting
use memos_qdrant.Shared.{
  ℕ, ◌+◌, String, Bool, true, false, Option, none, some, List, [], ◌∷◌, ◌++◌, map, string_eq, ◌==◌,
  ◌&&◌, not, if◌then◌else◌, keep, length, leb, ltb, nat_beq, includes, ◌⊎◌, inl, inr,
}
use memos_qdrant.Shared.Keyed.{Map, get, set}
use memos_qdrant.Memory.CandidateId.{candidate_id_for}
use memos_qdrant.Memory.CandidateRepo.{
  CandidatePoolRow, Pool, SqlError, insert, upsert, get_by_id, delete_row, promote_row,
}

-- The loop of `unique`, with the elements seen so far.
abbrev pub unique_from : List String → List String → List String
unique_from seen [] = []
unique_from seen (x ∷ xs) =
    if includes x seen then unique_from seen xs else x ∷ unique_from (x ∷ seen) xs

unfoldable pub unique : List String → List String
unique = unique_from []

pub record Added : Type 0 where
  pub candidate_id : String
  pub signature : String
  pub created : Bool

pub record CandidateBucket : Type 0 where
  pub signature : String
  pub candidate_ids : List String
  pub evidence_trace_ids : List String
  pub episode_ids : List String

pub record AddCandidateInput (Num : Type 0) : Type 0 where
  pub trace_id : String
  pub signature : String
  pub ttl_ms : ℕ
  pub similarity : Option Num
  pub now : ℕ

module _ {Num : Type 0} (max : Num → Num → Num) (zero_num : Num) where
  abbrev pub or_zero : Option Num → Num
  or_zero none = zero_num
  or_zero (some x) = x

  abbrev pub added :
      String
      → String
      → Bool
      → Option SqlError × Pool Num
      → (SqlError × Pool Num) ⊎ (Added × Pool Num)
  added id signature created (none, p) =
      inr (record { candidate_id = id; signature = signature; created = created }, p)
  added id signature created (some e, p) = inl (e, p)

  -- What `addCandidate` returns, or the error of a statement.
  unfoldable pub add_candidate :
      AddCandidateInput Num → Pool Num → (SqlError × Pool Num) ⊎ (Added × Pool Num)
  unfolding candidate_id_for insert upsert unique
  add_candidate input p =
      let id = candidate_id_for input.signature input.trace_id in
      let expires_at = input.now + input.ttl_ms in
      elim (get_by_id id p) [
        | some existing ↦ added id input.signature false (
            upsert
              (record {
                id = id;
                policy_id = existing.policy_id;
                evidence_trace_ids = unique (existing.evidence_trace_ids ++ (input.trace_id ∷ []));
                signature = input.signature;
                similarity = max existing.similarity (or_zero input.similarity);
                expires_at = expires_at;
              })
              p)
        | none ↦ added id input.signature true (
            insert
              (record {
                id = id;
                policy_id = none;
                evidence_trace_ids = input.trace_id ∷ [];
                signature = input.signature;
                similarity = or_zero input.similarity;
                expires_at = expires_at;
              })
              p)
      ]

-- `for (const tid of traceIds) if (!b.evidenceTraceIds.includes(tid)) b.evidenceTraceIds.push(tid)`
abbrev pub push_new : List String → List String → List String
push_new seen [] = seen
push_new seen (tid ∷ tids) =
    if includes tid seen then push_new seen tids else push_new (seen ++ (tid ∷ [])) tids

abbrev pub bucket_or_new : String → Option CandidateBucket → CandidateBucket
bucket_or_new sig (some b) = b
bucket_or_new sig none = record {
  signature = sig;
  candidate_ids = [];
  evidence_trace_ids = [];
  episode_ids = [];
}

-- `if (tr?.episodeId) eps.add(tr.episodeId)`, for a Set.
abbrev pub add_episode : Option String → List String → List String
add_episode none eps = eps
add_episode (some e) eps = if e == "" then eps else push_new eps (e ∷ [])

abbrev pub episodes_from : (String → Option String) → List String → List String → List String
episodes_from episode_of eps [] = eps
episodes_from episode_of eps (tid ∷ tids) =
    episodes_from episode_of (add_episode (episode_of tid) eps) tids

abbrev pub enrich : (String → Option String) → CandidateBucket → CandidateBucket
enrich episode_of b = record b { episode_ids = episodes_from episode_of [] b.evidence_trace_ids }

-- The comparison of `sort`: whether `a` may stay before `b`.
abbrev pub precedes : (String → String → Bool) → CandidateBucket → CandidateBucket → Bool
precedes later a b =
    if nat_beq (length b.evidence_trace_ids) (length a.evidence_trace_ids)
    then not (later a.signature b.signature)
    else ltb (length b.evidence_trace_ids) (length a.evidence_trace_ids)

-- `Array.prototype.sort` is stable; so is insertion.
abbrev pub insert_sorted :
    (String → String → Bool) → CandidateBucket → List CandidateBucket → List CandidateBucket
insert_sorted later b [] = b ∷ []
insert_sorted later b (c ∷ cs) =
    if precedes later b c then b ∷ c ∷ cs else c ∷ insert_sorted later b cs

abbrev pub sort_buckets : (String → String → Bool) → List CandidateBucket → List CandidateBucket
sort_buckets later [] = []
sort_buckets later (b ∷ bs) = insert_sorted later b (sort_buckets later bs)

abbrev pub buckets_of : Map String CandidateBucket → List CandidateBucket
buckets_of = map (λ e. e.1)

module _ {Num : Type 0} where
  -- `WHERE policy_id IS NULL AND expires_at >= @now`
  abbrev pub is_waiting : ℕ → CandidatePoolRow Num → Bool
  is_waiting now r = elim r.policy_id [ none ↦ leb now r.expires_at | some _ ↦ false ]

  abbrev pub waiting : ℕ → Map String (CandidatePoolRow Num) → List (CandidatePoolRow Num)
  waiting now [] = []
  waiting now ((id, r) ∷ rows) = if is_waiting now r then r ∷ waiting now rows else waiting now rows

  -- The body of the first loop of `bucketsReadyForInduction`.
  abbrev pub grow : CandidatePoolRow Num → CandidateBucket → CandidateBucket
  grow r b = record b {
    candidate_ids = b.candidate_ids ++ (r.id ∷ []);
    evidence_trace_ids = push_new b.evidence_trace_ids r.evidence_trace_ids;
  }

  unfoldable pub group :
      List (CandidatePoolRow Num) → Map String CandidateBucket → Map String CandidateBucket
  group [] by_sig = by_sig
  group (r ∷ rows) by_sig =
      group rows
        (set r.signature (grow r (bucket_or_new r.signature (get r.signature by_sig))) by_sig)

  unfoldable pub buckets_ready_for_induction :
      (String → Option String) → (String → String → Bool) → ℕ → ℕ → Pool Num → List CandidateBucket
  unfolding group
  buckets_ready_for_induction episode_of later min_distinct_episodes now p = sort_buckets later (
      keep (λ b. leb min_distinct_episodes (length b.episode_ids))
        (map (enrich episode_of) (buckets_of (group (waiting now p.rows) []))))

  -- The loop stops at a statement that throws.
  unfoldable pub promote : List String → String → Pool Num → Option SqlError × Pool Num
  unfolding promote_row
  promote [] policy_id p = (none, p)
  promote (id ∷ ids) policy_id p =
      let (e, p') = promote_row id policy_id p in
      let rest = promote ids policy_id p' in elim e [ none ↦ rest | some err ↦ (some err, p') ]

  abbrev pub ids_with : String → Map String (CandidatePoolRow Num) → List String
  ids_with sig [] = []
  ids_with sig ((id, r) ∷ rows) =
      if r.signature == sig then r.id ∷ ids_with sig rows else ids_with sig rows

  abbrev pub delete_all : List String → Pool Num → Pool Num
  delete_all [] p = p
  delete_all (id ∷ ids) p = delete_all ids (delete_row id p)

  unfoldable pub delete_bucket : String → Pool Num → ℕ × Pool Num
  delete_bucket sig p = let ids = ids_with sig p.rows in (length ids, delete_all ids p)
