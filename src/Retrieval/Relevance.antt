-- ===== src/Retrieval/Relevance.antt =====
-- core/retrieval/ranker.ts: the relevance of candidates, and the relative threshold.
use memos_qdrant.Shared.{
  ℕ, ◌+◌, String, Bool, true, false, Option, none, some, List, [], ◌∷◌, ◌++◌, map, ◌&&◌, not,
  if◌then◌else◌, leb, length, string_eq,
}
use memos_qdrant.Shared.Keyed.{Map, get, set}
use memos_qdrant.Shared.Num.{Arith, zero_num, one_num}
use memos_qdrant.Storage.Vector.{norm2}
use memos_qdrant.Reward.Backprop.{priority_for, or_else}
use memos_qdrant.Retrieval.Types.{
  TierKind, tier1, tier2, tier3, RetrievalChannel, vec_summary, vec_action, vec, fts, pattern_match,
  structural, ChannelRank, Ref, skill, trace, episode, world_model, TierCandidate, RetrievalConfig,
}

abbrev pub channel_name : RetrievalChannel → String
channel_name vec_summary = "vec_summary"
channel_name vec_action = "vec_action"
channel_name vec = "vec"
channel_name fts = "fts"
channel_name pattern_match = "pattern"
channel_name structural = "structural"

abbrev pub is_tier : TierKind → TierKind → Bool
is_tier tier1 tier1 = true
is_tier tier1 tier2 = false
is_tier tier1 tier3 = false
is_tier tier2 tier1 = false
is_tier tier2 tier2 = true
is_tier tier2 tier3 = false
is_tier tier3 tier1 = false
is_tier tier3 tier2 = false
is_tier tier3 tier3 = true

-- `Record<TierKind, number>`
pub record Tiers : Type 0 where
  pub at_tier1 : ℕ
  pub at_tier2 : ℕ
  pub at_tier3 : ℕ

abbrev pub bump : TierKind → Tiers → Tiers
bump tier1 t = record t { at_tier1 = t.at_tier1 + 1 }
bump tier2 t = record t { at_tier2 = t.at_tier2 + 1 }
bump tier3 t = record t { at_tier3 = t.at_tier3 + 1 }

-- `flag !== false`
abbrev pub unless_false : Option Bool → Bool
unless_false none = true
unless_false (some b) = b

module _ (n : Arith) where
  abbrev pub ratio : ℕ → ℕ → n.Num
  ratio a b = n.div (n.of_nat a) (n.of_nat b)

  pub record RankerInput : Type 0 where
    pub of_tier1 : List (TierCandidate n)
    pub tier2_traces : List (TierCandidate n)
    pub tier2_episodes : List (TierCandidate n)
    pub of_tier3 : List (TierCandidate n)
    pub limit : ℕ
    pub config : RetrievalConfig n
    pub now : n.Num

  pub record RankedCandidate : Type 0 where
    pub candidate : TierCandidate n
    pub relevance : n.Num
    pub rrf : n.Num
    pub score : n.Num
    pub norm_sq : Option n.Num
    pub bypassed_threshold : Bool

  pub record RankerResult : Type 0 where
    pub ranked : List RankedCandidate
    pub tier_sizes : Tiers
    pub kept : Tiers
    pub top_relevance : n.Num
    pub dropped_by_threshold : ℕ
    pub threshold_floor : n.Num
    pub channel_hits : Map String ℕ

  abbrev pub clamp : n.Num → n.Num → n.Num → n.Num
  clamp v lo hi = n.max lo (n.min hi v)

  abbrev pub best_from : n.Num → List (ChannelRank n) → n.Num
  best_from best [] = best
  best_from best (ch ∷ chs) = best_from (if n.lt best ch.score then ch.score else best) chs

  abbrev pub best_channel_score : TierCandidate n → List (ChannelRank n) → n.Num
  best_channel_score c [] = clamp c.cosine (zero_num n) (one_num n)
  best_channel_score c (ch ∷ chs) =
      n.max (best_from (zero_num n) (ch ∷ chs)) (clamp c.cosine (zero_num n) (one_num n))

  -- `w == null || w <= 0`
  abbrev pub priority_blend_for : Option n.Num → n.Num
  priority_blend_for none = zero_num n
  priority_blend_for (some w) = if n.le w (zero_num n) then zero_num n else n.min w (ratio 3 10)

  abbrev pub lifted_by : n.Num → Ref n → RankerInput → n.Num
  lifted_by base (skill eta) input = n.add base (
      n.mul (or_else n input.config.skill_eta_blend (ratio 15 100))
        (clamp eta (zero_num n) (one_num n)))
  lifted_by base (trace value ts) input = n.add base (
      n.mul (priority_blend_for input.config.weight_priority)
        (priority_for n value ts input.config.decay_half_life_days input.now))
  lifted_by base (episode value ts) input = n.add base (
      n.mul (priority_blend_for input.config.weight_priority)
        (priority_for n value ts input.config.decay_half_life_days input.now))
  lifted_by base world_model input = base

  unfoldable pub relevance_for : TierCandidate n → RankerInput → n.Num
  relevance_for c input = lifted_by (best_channel_score c c.channels) c.ref input

  abbrev pub norm_of : Option (List n.Num) → Option n.Num
  norm_of none = none
  norm_of (some v) = some (norm2 n v)

  abbrev pub bagged : RankerInput → TierCandidate n → RankedCandidate
  bagged input c =
      let rel = relevance_for c input in
      record {
        candidate = c;
        relevance = rel;
        rrf = zero_num n;
        score = rel;
        norm_sq = norm_of c.vec;
        bypassed_threshold = false;
      }

  abbrev pub all_candidates : RankerInput → List (TierCandidate n)
  all_candidates input =
      input.of_tier1 ++ (input.tier2_traces ++ (input.tier2_episodes ++ input.of_tier3))

  abbrev pub hits_of : List (ChannelRank n) → Map String ℕ → Map String ℕ
  hits_of [] m = m
  hits_of (ch ∷ chs) m =
      let k = channel_name ch.channel in
      hits_of chs (set k (elim (get k m) [ none ↦ 1 | some h ↦ h + 1 ]) m)

  abbrev pub tally : List RankedCandidate → Map String ℕ → Map String ℕ
  tally [] m = m
  tally (c ∷ cs) m = tally cs (hits_of c.candidate.channels m)

  abbrev pub rrf_from : n.Num → n.Num → List (ChannelRank n) → n.Num
  rrf_from k s [] = s
  rrf_from k s (ch ∷ chs) =
      rrf_from k (n.add s (n.div (one_num n) (n.add (n.add k (n.of_nat ch.rank)) (one_num n)))) chs

  -- `assignChannelRrf`, and the line after it.
  abbrev pub fused : n.Num → RankedCandidate → RankedCandidate
  fused k c =
      let r = rrf_from k (zero_num n) c.candidate.channels in
      record c { rrf = r; relevance = n.add c.relevance (n.mul (ratio 4 10) r) }

  abbrev pub top_from : n.Num → List RankedCandidate → n.Num
  top_from m [] = m
  top_from m (c ∷ cs) = top_from (n.max m c.relevance) cs

  abbrev pub many : List (ChannelRank n) → Bool
  many chs = leb 2 (length chs)

  -- The loop of the relative threshold: what survives, and how many do not.
  abbrev pub spared : Bool → RankedCandidate → RankedCandidate
  spared bypass c =
      if bypass && many c.candidate.channels then record c { bypassed_threshold = true } else c

  abbrev pub is_cut : Bool → n.Num → RankedCandidate → Bool
  is_cut bypass cutoff c =
      n.lt (zero_num n) cutoff
      && (n.lt c.relevance cutoff && not (bypass && many c.candidate.channels))

  abbrev pub survivors : Bool → n.Num → List RankedCandidate → List RankedCandidate
  survivors bypass cutoff [] = []
  survivors bypass cutoff (c ∷ cs) =
      let rest = survivors bypass cutoff cs in
      if is_cut bypass cutoff c then rest else spared bypass c ∷ rest

  abbrev pub dropped : Bool → n.Num → List RankedCandidate → ℕ
  dropped bypass cutoff [] = 0
  dropped bypass cutoff (c ∷ cs) =
      let rest = dropped bypass cutoff cs in if is_cut bypass cutoff c then rest + 1 else rest

  abbrev pub fused_bag : RankerInput → List RankedCandidate
  fused_bag input =
      map (λ c. fused input.config.rrf_constant (bagged input c)) (all_candidates input)

  abbrev pub cutoff_of : RankerInput → n.Num → n.Num
  cutoff_of input top =
      if n.lt (zero_num n) top
      then n.mul top (or_else n input.config.relative_threshold_floor (ratio 2 10))
      else zero_num n
