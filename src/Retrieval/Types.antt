-- ===== src/Retrieval/Types.antt =====
-- core/retrieval/types.ts: candidates of the three tiers, and the part of the configuration that
-- the ranker reads. A number of JavaScript is one of `Arith`.
use memos_qdrant.Shared.{ℕ, String, Bool, Option, List}
use memos_qdrant.Shared.Num.{Arith}

pub data TierKind : Type 0 where
  tier1 tier2 tier3 : TierKind

pub data RetrievalChannel : Type 0 where
  vec_summary vec_action vec fts pattern_match structural : RetrievalChannel

module _ (n : Arith) where
  pub record ChannelRank : Type 0 where
    pub channel : RetrievalChannel
    pub rank : ℕ
    pub score : n.Num

  -- What tells the four kinds of a candidate apart, with the fields that the ranker reads.
  pub data Ref : Type 0 where
    skill : (eta : n.Num) → Ref
    trace episode : (value ts : n.Num) → Ref
    world_model : Ref

  -- No `channels` is the empty list: the ranker reads `c.channels ?? []` only.
  pub record TierCandidate : Type 0 where
    pub ref_id : String
    pub ref : Ref
    pub cosine : n.Num
    pub vec : Option (List n.Num)
    pub channels : List ChannelRank

  abbrev pub tier_of : Ref → TierKind
  tier_of (skill eta) = tier1
  tier_of (trace value ts) = tier2
  tier_of (episode value ts) = tier2
  tier_of world_model = tier3

  pub record RetrievalConfig : Type 0 where
    pub weight_priority : Option n.Num
    pub mmr_lambda : n.Num
    pub rrf_constant : n.Num
    pub relative_threshold_floor : Option n.Num
    pub skill_eta_blend : Option n.Num
    pub smart_seed : Option Bool
    pub smart_seed_ratio : Option n.Num
    pub multi_channel_bypass : Option Bool
    pub decay_half_life_days : n.Num
