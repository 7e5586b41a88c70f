-- ===== src/Retrieval/Ranker.antt =====
-- core/retrieval/ranker.ts: the greedy pick and `rank`. `none` is the error that `dot` throws where
-- the dimensions of two vectors differ. The early returns, for no candidates and no survivors, give
-- what the rest of the function gives for them.
pub mod Among
pub mod Kept
pub mod Rounds
pub mod Ranking
pub mod Full
pub mod Returns
pub use memos_qdrant.Shared.{get_elem?}
use memos_qdrant.Shared.{
  ℕ, zero, suc, ◌+◌, min, String, Bool, true, false, Option, none, some, List, [], ◌∷◌, ◌++◌, map,
  ◌&&◌, ◌||◌, not, if◌then◌else◌, ltb, leb, length, string_eq,
}
use memos_qdrant.Shared.Keyed.{Map, get, set}
use memos_qdrant.Shared.Num.{Arith, zero_num, one_num}
use memos_qdrant.Storage.Vector.{norm2, cosine_prenormed, is_zero}
use memos_qdrant.Reward.Backprop.{priority_for, or_else}
use memos_qdrant.Retrieval.Types.{
  TierKind, tier1, tier2, tier3, RetrievalChannel, vec_summary, vec_action, vec, fts, pattern_match,
  structural, ChannelRank, Ref, skill, trace, episode, world_model, TierCandidate, tier_of,
  RetrievalConfig,
}
use memos_qdrant.Retrieval.Relevance.{
  is_tier, Tiers, bump, unless_false, ratio, RankerInput, RankedCandidate, RankerResult, clamp,
  tally, top_from, survivors, dropped, fused_bag, cutoff_of,
}

module _ {ℓ} {A : Type ℓ} where
  -- `xs.splice(i, 1)`, without the element
  abbrev pub splice : List A → ℕ → List A
  splice [] i = []
  splice (x ∷ xs) zero = xs
  splice (x ∷ xs) (suc i) = x ∷ splice xs i

module _ (n : Arith) where
  -- The variables of the greedy pick.
  pub record Picks : Type 0 where
    pub out : List (RankedCandidate n)
    pub kept : Tiers
    pub selected : List (List n.Num × n.Num)
    pub pool : List (RankedCandidate n)

  -- `sim > m` over the selected vectors, each with its squared norm
  abbrev pub max_cos_from : List n.Num → n.Num → n.Num → List (List n.Num × n.Num) → Option n.Num
  max_cos_from v norm m [] = some m
  max_cos_from v norm m ((w, w2) ∷ ws) =
      elim (if is_zero n (n.sqrt w2) then some m else elim (cosine_prenormed n v norm w w2) [
        | none ↦ none
        | some sim ↦ some (if n.lt m sim then sim else m)
      ]) [ none ↦ none | some m' ↦ max_cos_from v norm m' ws ]

  abbrev pub max_cos_of :
      Option (List n.Num) → Option n.Num → List (List n.Num × n.Num) → Option n.Num
  max_cos_of none norm ws = some (zero_num n)
  max_cos_of (some v) none ws = some (zero_num n)
  max_cos_of (some v) (some norm) [] = some (zero_num n)
  max_cos_of (some v) (some norm_sq) (w ∷ ws) =
      let norm = n.sqrt norm_sq in
      if is_zero n norm then some (zero_num n) else max_cos_from v norm (zero_num n) (w ∷ ws)

  unfoldable pub max_cos : RankedCandidate n → List (List n.Num × n.Num) → Option n.Num
  max_cos c selected = max_cos_of c.candidate.vec c.norm_sq selected

  abbrev pub push_vec :
      Option (List n.Num) → Option n.Num → List (List n.Num × n.Num) → List (List n.Num × n.Num)
  push_vec none norm ws = ws
  push_vec (some v) norm ws = ws ++ ((v, or_else n norm (norm2 n v)) ∷ [])

  abbrev pub better : ℕ → n.Num → Option (ℕ × n.Num) → Option (ℕ × n.Num)
  better i s none = if n.lt n.neg_infinity s then some (i, s) else none
  better i s (some (j, best)) = if n.lt best s then some (i, s) else some (j, best)

  -- One round of a scan: a candidate that is not eligible is passed over.
  abbrev pub considered :
      (RankedCandidate n → Bool)
      → (RankedCandidate n → Option n.Num)
      → RankedCandidate n
      → ℕ
      → Option (ℕ × n.Num)
      → Option (Option (ℕ × n.Num))
  considered eligible score c i best =
      if eligible c
      then elim (score c) [ none ↦ none | some s ↦ some (better i s best) ]
      else some best

  -- The scan for `bestIdx`, from an index on; no index is -1.
  unfoldable pub scan :
      (RankedCandidate n → Bool)
      → (RankedCandidate n → Option n.Num)
      → List (RankedCandidate n)
      → ℕ
      → Option (ℕ × n.Num)
      → Option (Option (ℕ × n.Num))
  scan eligible score [] i best = some best
  scan eligible score (c ∷ cs) i best = elim (considered eligible score c i best) [
    | none ↦ none
    | some b ↦ scan eligible score cs (i + 1) b
  ]

  -- The candidate at an index goes from the pool to the output, with its score.
  abbrev pub moved : n.Num → Option (RankedCandidate n) → List (RankedCandidate n) → Picks → Picks
  moved s none rest p = p
  moved s (some c) rest p = record {
    out = p.out ++ (record c { score = s } ∷ []);
    kept = bump (tier_of n c.candidate.ref) p.kept;
    selected = push_vec c.candidate.vec c.norm_sq p.selected;
    pool = rest;
  }

  abbrev pub take_at : ℕ → n.Num → Picks → Picks
  take_at i s p = moved s (get_elem? p.pool i) (splice p.pool i) p

  abbrev pub in_tier : TierKind → RankedCandidate n → Bool
  in_tier tk c = is_tier (tier_of n c.candidate.ref) tk

  abbrev pub relevance_of : RankedCandidate n → Option n.Num
  relevance_of c = some c.relevance

  -- The body of phase A for one tier.
  abbrev pub seeded : n.Num → Option (ℕ × n.Num) → Picks → Picks
  seeded cutoff none p = p
  seeded cutoff (some (i, rel)) p = if n.lt rel cutoff then p else take_at i rel p

  unfoldable pub seed : ℕ → n.Num → TierKind → Picks → Option Picks
  unfolding scan
  seed limit cutoff tk p =
      if leb limit (length p.out)
      then some p
      else elim (scan (in_tier tk) relevance_of p.pool 0 none) [
        | none ↦ none
        | some best ↦ some (seeded cutoff best p)
      ]

  abbrev pub mmr : n.Num → List (List n.Num × n.Num) → RankedCandidate n → Option n.Num
  mmr lam selected c = elim (max_cos c selected) [
    | none ↦ none
    | some redundancy ↦
        some (n.sub (n.mul lam c.relevance) (n.mul (n.sub (one_num n) lam) redundancy))
  ]

  abbrev pub anyone : RankedCandidate n → Bool
  anyone c = true

  -- The test of `while`.
  abbrev pub goes_on : ℕ → Picks → Bool
  goes_on limit p = ltb (length p.out) limit && ltb 0 (length p.pool)

  -- Phase B, on a bound for the rounds: a loop that goes on when they are used up gives no result.
  unfoldable pub mmr_loop : ℕ → ℕ → n.Num → Picks → Option Picks
  unfolding scan max_cos
  mmr_loop zero limit lam p = if goes_on limit p then none else some p
  mmr_loop (suc fuel) limit lam p = elim (goes_on limit p) [
    | false ↦ some p
    | true ↦ elim (scan anyone (mmr lam p.selected) p.pool 0 none) [
      | none ↦ none
      | some none ↦ some p
      | some (some (i, s)) ↦ mmr_loop fuel limit lam (take_at i s p)
    ]
  ]

  -- The comparison of the last sort: `0` and `NaN` are falsy.
  abbrev pub is_falsy : n.Num → Bool
  is_falsy x = is_zero n x || not (n.eq x x)

  abbrev pub goes_after : RankedCandidate n → RankedCandidate n → Bool
  goes_after a b =
      let d = n.sub b.score a.score in
      n.lt (zero_num n) (if is_falsy d then n.sub b.rrf a.rrf else d)

  abbrev pub insert_ranked : RankedCandidate n → List (RankedCandidate n) → List (RankedCandidate n)
  insert_ranked c [] = c ∷ []
  insert_ranked c (d ∷ ds) = if goes_after c d then d ∷ insert_ranked c ds else c ∷ d ∷ ds

  abbrev pub sort_ranked : List (RankedCandidate n) → List (RankedCandidate n)
  sort_ranked [] = []
  sort_ranked (c ∷ cs) = insert_ranked c (sort_ranked cs)

  abbrev pub no_tiers : Tiers
  no_tiers = record { at_tier1 = 0; at_tier2 = 0; at_tier3 = 0 }

  -- `smartSeed ? poolTop * seedRatio : 0`
  abbrev pub seed_cutoff : RetrievalConfig n → List (RankedCandidate n) → n.Num
  seed_cutoff config pool =
      if unless_false config.smart_seed
      then n.mul (top_from n (zero_num n) pool) (or_else n config.smart_seed_ratio (ratio n 7 10))
      else zero_num n

  abbrev pub start_of : List (RankedCandidate n) → Picks
  start_of pool = record { out = []; kept = no_tiers; selected = []; pool = pool }

  -- One round of `for (const tk of seedTiers)`, and phase B, after a part that may have thrown.
  unfoldable pub seed_after : ℕ → n.Num → TierKind → Option Picks → Option Picks
  unfolding seed
  seed_after limit cutoff tk none = none
  seed_after limit cutoff tk (some p) = seed limit cutoff tk p

  unfoldable pub loop_after : ℕ → n.Num → Option Picks → Option Picks
  unfolding mmr_loop
  loop_after limit lam none = none
  loop_after limit lam (some p) = mmr_loop limit limit lam p

  -- Both phases, from the pool of the survivors on.
  unfoldable pub pick : RankerInput n → List (RankedCandidate n) → Option Picks
  unfolding seed_after loop_after
  pick input pool =
      let limit = min input.limit (length pool) in
      let cutoff = seed_cutoff input.config pool in
      loop_after limit (clamp n input.config.mmr_lambda (zero_num n) (one_num n)) (
        seed_after limit cutoff tier3
          (seed_after limit cutoff tier2 (seed_after limit cutoff tier1 (some (start_of pool)))))

  abbrev pub bypass_of : RankerInput n → Bool
  bypass_of input = unless_false input.config.multi_channel_bypass

  abbrev pub floor_of : RankerInput n → n.Num
  floor_of input = cutoff_of n input (top_from n (zero_num n) (fused_bag n input))

  abbrev pub survivors_of : RankerInput n → List (RankedCandidate n)
  survivors_of input = survivors n (bypass_of input) (floor_of input) (fused_bag n input)

  abbrev pub result_of : RankerInput n → Picks → RankerResult n
  result_of input p = record {
    ranked = sort_ranked p.out;
    tier_sizes = record {
      at_tier1 = length input.of_tier1;
      at_tier2 = length input.tier2_traces + length input.tier2_episodes;
      at_tier3 = length input.of_tier3;
    };
    kept = p.kept;
    top_relevance = top_from n (zero_num n) (fused_bag n input);
    dropped_by_threshold = dropped n (bypass_of input) (floor_of input) (fused_bag n input);
    threshold_floor = floor_of input;
    channel_hits = tally n (fused_bag n input) [];
  }

  abbrev pub finish : RankerInput n → Option Picks → Option (RankerResult n)
  finish input none = none
  finish input (some p) = some (result_of input p)

  unfoldable pub rank : RankerInput n → Option (RankerResult n)
  unfolding pick
  rank input = finish input (pick input (survivors_of input))
