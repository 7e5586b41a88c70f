-- ===== src/Retrieval/Tests.antt =====
-- core/retrieval: runs at concrete inputs.
use memos_qdrant.Shared.{
  All, ℕ, ◌+◌, ◌-◌, ◌*◌, ◌/◌, min, max, String, ◌≡◌, refl, Bool, true, false, Option, none, some,
  List, [], ◌∷◌, length, ltb, leb, ◌==◌, nat_eq, Option-cases, inl, inr,
}
use memos_qdrant.Shared.Num.{Arith, zero_num, one_num}
use memos_qdrant.Retrieval.Types.{ChannelRank, vec, TierCandidate, skill, trace, world_model}
use memos_qdrant.Shared.Keyed.{get, set}
use memos_qdrant.Storage.Vector.{norm2}
use memos_qdrant.Reward.Backprop.{priority_for}
use memos_qdrant.Retrieval.Relevance.{
  relevance_for, RankerInput, RankedCandidate, RankerResult, all_candidates, clamp,
}
use memos_qdrant.Retrieval.Ranker.{mmr, max_cos, rank, survivors_of}
use memos_qdrant.Retrieval.Ranker.Among.{IsVecOf}
use memos_qdrant.Retrieval.Ranker.Ranking.{IsRanking, rank_lem}
use memos_qdrant.Retrieval.Ranker.Full.{rank_full}
use memos_qdrant.Retrieval.Ranker.Returns.{rank_returns}

-- Whole numbers, and -Infinity.
abbrev value : Option ℕ → ℕ
value none = 0
value (some x) = x

abbrev below : Option ℕ → Option ℕ → Bool
below none none = false
below none (some y) = true
below (some x) none = false
below (some x) (some y) = ltb x y

abbrev lifted : (ℕ → ℕ → ℕ) → Option ℕ → Option ℕ → Option ℕ
lifted f x y = some (f (value x) (value y))

abbrev whole : Arith
whole = record {
  Num = Option ℕ;
  is_finite = λ x. true;
  lt = below;
  le = λ x y. leb (value x) (value y);
  eq = λ x y. value x == value y;
  add = lifted (λ x y. x + y);
  sub = lifted (λ x y. x - y);
  mul = lifted (λ x y. x * y);
  div = lifted (λ x y. x / y);
  max = lifted max;
  min = lifted min;
  pow = λ x y. some 1;
  sqrt = λ x. x;
  abs = λ x. x;
  of_nat = some;
  neg_infinity = none;
}

abbrev candidate : String → List (ChannelRank whole) → TierCandidate whole
candidate id channels = record {
  ref_id = id;
  ref = trace (some 1) (some 0);
  cosine = some 0;
  vec = some (some 1 ∷ some 0 ∷ []);
  channels = channels;
}

abbrev hit : ℕ → ChannelRank whole
hit score = record { channel = vec; rank = 0; score = some score }

abbrev input : RankerInput whole
input = record {
  of_tier1 = record (candidate "sk_1" (hit 3 ∷ [])) { ref = skill (some 1) } ∷ [];
  tier2_traces = candidate "tr_1" (hit 9 ∷ hit 2 ∷ []) ∷ candidate "tr_2" (hit 1 ∷ []) ∷ [];
  tier2_episodes = [];
  of_tier3 = record (candidate "wm_1" []) { ref = world_model; vec = none } ∷ [];
  limit = 2;
  config = record {
    weight_priority = none;
    mmr_lambda = some 1;
    rrf_constant = some 60;
    relative_threshold_floor = some (some 1);
    skill_eta_blend = none;
    smart_seed = some false;
    smart_seed_ratio = none;
    multi_channel_bypass = none;
    decay_half_life_days = some 30;
  };
  now = some 5;
}

-- The best trace is the only one that the threshold leaves.
abbrev ranking : RankerResult whole
ranking = record {
  ranked =
      record {
        candidate = candidate "tr_1" (hit 9 ∷ hit 2 ∷ []);
        relevance = some 9;
        rrf = some 0;
        score = some 9;
        norm_sq = some (some 1);
        bypassed_threshold = true;
      }
      ∷ [];
  tier_sizes = record { at_tier1 = 1; at_tier2 = 2; at_tier3 = 1 };
  kept = record { at_tier1 = 0; at_tier2 = 1; at_tier3 = 0 };
  top_relevance = some 9;
  dropped_by_threshold = 3;
  threshold_floor = some 9;
  channel_hits = ("vec", 4) ∷ [];
}

runs : rank whole input ≡ some ranking
unfolding rank relevance_for priority_for norm2 set get
runs = refl

-- A relevance above -Infinity.
abbrev IsFinite : RankedCandidate whole → Type 0
IsFinite c = below none c.relevance ≡ true

-- Every score of these numbers is above -Infinity.
above :
    (lam : Option ℕ) (selected : List (List (Option ℕ) × Option ℕ)) (c : RankedCandidate whole)
    (s : Option ℕ)
    → All (IsVecOf whole IsFinite) selected
    → IsFinite c
    → mmr whole lam selected c ≡ some s
    → below none s ≡ true
above lam selected c none k f h = elim (Option-cases (max_cos whole c selected)) [
  | inl e ↦ absurd (cc (rw (mmr, e) at h))
  | inr (m, e) ↦ absurd (cc (rw (mmr, e) at h))
]
above lam selected c (some s) k f h = refl

rank_lem_example : IsRanking whole input ranking
rank_lem_example = rank_lem whole input ranking runs

finite : All IsFinite (survivors_of whole input)
unfolding relevance_for priority_for norm2
finite = (refl, tt)

rank_full_example : length ranking.ranked ≡ min 2 (length (all_candidates whole input) - 3)
rank_full_example =
    rank_full whole IsFinite input ranking
      (above (clamp whole (some 1) (zero_num whole) (one_num whole))) finite runs

rank_returns_example : (r : RankerResult whole) × (rank whole input ≡ some r)
rank_returns_example = rank_returns whole 2 input (refl, (refl, (refl, (tt, tt))))
