-- ===== src/Memory/CandidatePool/Buckets.antt =====
-- core/memory/l2/candidate-pool.ts: `bucketsReadyForInduction` against a direct description.
use mathlib.Core.List.{Perm}
use memos_qdrant.Shared.{ℕ, String, ◌≡◌, ap, ◌∙◌, Bool, Option, length, leb, keep, map}
use memos_qdrant.Memory.CandidateRepo.{Pool}
use memos_qdrant.Memory.CandidatePool.{waiting, enrich, sort_buckets, buckets_ready_for_induction}
use memos_qdrant.Memory.CandidatePool.Grouping.{buckets_of-group}
use memos_qdrant.Memory.CandidatePool.Described.{due, due_lem, all_described, all_described_lem}
use memos_qdrant.Memory.CandidatePool.Order.{IsOrder, Ordered, sort-perm, sort-Ordered}

module _ {Num : Type 0} (episode_of : String → Option String) (later : String → String → Bool)
    (min now : ℕ) where
  pub sorted_lem :
      (p : Pool Num)
      → buckets_ready_for_induction episode_of later min now p
        ≡ sort_buckets later (all_described episode_of min (due now p.rows))
  unfolding buckets_ready_for_induction
  sorted_lem p = ap (sort_buckets later) (
      ap (λ bs. keep (λ b. leb min (length b.episode_ids)) (map (enrich episode_of) bs))
        (buckets_of-group (waiting now p.rows))
      ∙ all_described_lem episode_of min (waiting now p.rows)
      ∙ ap (all_described episode_of min) (due_lem now p.rows))

  -- Where `localeCompare` orders the signatures, the buckets that are ready for induction are
  -- exactly these, none left out or repeated: for each signature of a row that waits (no policy,
  -- not expired), the bucket of the ids of its waiting rows, of their evidence with each trace
  -- once, and of the episodes of that evidence, each once and none with an empty id, if there
  -- are at least the wanted number of episodes. They come with most evidence first, and with
  -- equal evidence in the order of their signatures.
  pub buckets_reference :
      IsOrder later
      → (p : Pool Num)
      → Perm
          (buckets_ready_for_induction episode_of later min now p)
          (all_described episode_of min (due now p.rows))
        × Ordered later (buckets_ready_for_induction episode_of later min now p)
  buckets_reference o p =
      let e = sorted_lem p in
      let bs = all_described episode_of min (due now p.rows) in
      rw e (sort-perm later bs, sort-Ordered later o bs)
