-- ===== src/Skill/Eligibility/Verdicts.antt =====
-- core/skill/eligibility.ts: the verdict on each policy, and the counts.
use memos_qdrant.Shared.{
  ℕ, ◌+◌, String, ◌≡◌, refl, sym, ◌∙◌, ap, Bool, Option, none, some, List, [], ◌∷◌, ◌++◌, ◌&&◌, map,
  string_eq, not, if◌then◌else◌, leb, ltb, keep, length, Bool-cases, inl, inr, arith, append-nil,
  append_assoc,
}
use memos_qdrant.Shared.Keyed.{Map, get}
use memos_qdrant.Skill.Lifecycle.{Numbers, SkillRow, is_archived}
use memos_qdrant.Skill.Eligibility.{
  Action, crystallize, rebuild, skip, is_skip, is_active_policy, PolicyRow, EligibilityConfig,
  EligibilityDecision, EligibilityResult, decide, against, evaluate_from, evaluate_eligibility,
  counted,
}

module _ (n : Numbers) (fmt : n.Num → String) (fmt_nat : ℕ → String)
    (cfg : EligibilityConfig n) where
  -- The rule of the header comment: active, enough gain, enough support.
  abbrev pub qualifies : PolicyRow n → Bool
  qualifies p =
      is_active_policy p.status
      && not (n.lt p.gain cfg.min_gain)
      && not (ltb p.support cfg.min_support)

  -- What a policy that qualifies calls for.
  abbrev pub wanted : PolicyRow n → Option (SkillRow n) → Action
  wanted p none = crystallize
  wanted p (some s) =
      if is_archived n s.status
      then crystallize
      else if leb p.updated_at s.updated_at
      then skip
      else rebuild

  against-wanted :
      (p : PolicyRow n) (o : Option (SkillRow n)) → (against n fmt fmt_nat p o).action ≡ wanted p o
  against-wanted p none = refl
  against-wanted p (some s) = elim (Bool-cases (is_archived n s.status)) [
    | inl a ↦ simp a refl
    | inr a ↦ elim (Bool-cases (leb p.updated_at s.updated_at)) [
      | inl u ↦ simp (a, u) refl
      | inr u ↦ simp (a, u) refl
    ]
  ]

  pub decide-action :
      (p : PolicyRow n) (o : Option (SkillRow n))
      → (decide n fmt fmt_nat p o cfg).action ≡ (if qualifies p then wanted p o else skip)
  unfolding decide
  decide-action p o = elim (Bool-cases (is_active_policy p.status)) [
    | inr a ↦ simp a refl
    | inl a ↦ elim (Bool-cases (n.lt p.gain cfg.min_gain)) [
      | inl g ↦ simp (a, g) refl
      | inr g ↦ elim (Bool-cases (ltb p.support cfg.min_support)) [
        | inl s ↦ simp (a, g, s) refl
        | inr s ↦ simp (a, g, s) (against-wanted p o)
      ]
    ]
  ]

  abbrev pub actions : List (EligibilityDecision n) → List Action
  actions = map (λ d. d.action)

  module _ (skills : Map String (SkillRow n)) where
    abbrev decision : PolicyRow n → EligibilityDecision n
    decision p = decide n fmt fmt_nat p (get p.id skills) cfg

    abbrev pub how_many : (Action → Bool) → List (EligibilityDecision n) → ℕ
    how_many f ds = length (keep (λ d. f d.action) ds)

    -- What the loop has, after the policies `ps`.
    record IsAfter (ps : List (PolicyRow n)) (r r' : EligibilityResult n) : Type 0 where
      decisions : r'.decisions ≡ r.decisions ++ map decision ps
      eligible :
          r'.eligible_count ≡ r.eligible_count + how_many (λ a. not (is_skip a)) (map decision ps)
      skipped : r'.skipped_count ≡ r.skipped_count + how_many is_skip (map decision ps)

    evaluate_from-IsAfter :
        (ps : List (PolicyRow n)) (r : EligibilityResult n)
        → IsAfter ps r (evaluate_from n fmt fmt_nat ps skills cfg r)
    unfolding evaluate_from
    evaluate_from-IsAfter [] r = record {
      decisions = sym (append-nil r.decisions);
      eligible = omega arith;
      skipped = omega arith;
    }
    evaluate_from-IsAfter (p ∷ ps) r = elim (Bool-cases (is_skip (decision p).action)) [
      | inl e ↦
          let ih = evaluate_from-IsAfter ps (record {
            decisions = r.decisions ++ (decision p ∷ []);
            eligible_count = r.eligible_count;
            skipped_count = r.skipped_count + 1;
          }) in
          rw (evaluate_from, counted, e)
            (record {
              decisions =
                  ih.decisions ∙ append_assoc r.decisions (decision p ∷ []) (map decision ps);
              eligible = ih.eligible ∙ rw (how_many, e) refl;
              skipped = ih.skipped ∙ rw (how_many, e) (omega arith);
            })
      | inr e ↦
          let ih = evaluate_from-IsAfter ps (record {
            decisions = r.decisions ++ (decision p ∷ []);
            eligible_count = r.eligible_count + 1;
            skipped_count = r.skipped_count;
          }) in
          rw (evaluate_from, counted, e)
            (record {
              decisions =
                  ih.decisions ∙ append_assoc r.decisions (decision p ∷ []) (map decision ps);
              eligible = ih.eligible ∙ rw (how_many, e) (omega arith);
              skipped = ih.skipped ∙ rw (how_many, e) refl;
            })
    ]

    map-actions :
        (ps : List (PolicyRow n))
        → map (λ (d : EligibilityDecision n). d.action) (map decision ps)
          ≡ map (λ (p : PolicyRow n). if qualifies p then wanted p (get p.id skills) else skip) ps
    map-actions [] = refl
    map-actions (p ∷ ps) =
        rw (decide-action p (get p.id skills))
          (ap (◌∷◌ (if qualifies p then wanted p (get p.id skills) else skip)) (map-actions ps))

    how_many-total :
        (ds : List (EligibilityDecision n))
        → how_many (λ a. not (is_skip a)) ds + how_many is_skip ds ≡ length ds
    how_many-total [] = refl
    how_many-total (d ∷ ds) = elim (Bool-cases (is_skip d.action)) [
      | inl e ↦ rw (how_many, e) (omega (arith, how_many-total ds))
      | inr e ↦ rw (how_many, e) (omega (arith, how_many-total ds))
    ]

    length-decisions : (ps : List (PolicyRow n)) → length (map decision ps) ≡ length ps
    length-decisions [] = refl
    length-decisions (p ∷ ps) = omega (arith, length-decisions ps)

    -- There is one decision for each policy, in order. A policy is skipped unless it is active
    -- with enough gain and support; one that is crystallizes where no skill, or an archived one,
    -- stands for it, is skipped where the skill is as new as the policy, and is rebuilt else. The
    -- two counts are those of the decisions, and add up to the policies.
    pub evaluate_eligibility_lem :
        (ps : List (PolicyRow n))
        → (map
              (λ (d : EligibilityDecision n). d.action)
              (evaluate_eligibility n fmt fmt_nat ps skills cfg).decisions
            ≡ map
                (λ (p : PolicyRow n). if qualifies p then wanted p (get p.id skills) else skip)
                ps)
          × ((evaluate_eligibility n fmt fmt_nat ps skills cfg).skipped_count
              ≡ how_many is_skip (evaluate_eligibility n fmt fmt_nat ps skills cfg).decisions)
          × ((evaluate_eligibility n fmt fmt_nat ps skills cfg).eligible_count
                + (evaluate_eligibility n fmt fmt_nat ps skills cfg).skipped_count
              ≡ length ps)
    unfolding evaluate_eligibility
    evaluate_eligibility_lem ps =
        let a =
          evaluate_from-IsAfter ps
            (record { decisions = []; eligible_count = 0; skipped_count = 0 }) in
        (
          ap (map (λ (d : EligibilityDecision n). d.action)) a.decisions ∙ map-actions ps,
          omega (arith, a.skipped, ap (how_many is_skip) a.decisions),
          omega
              (arith, a.eligible, a.skipped, how_many-total (map decision ps), length-decisions ps),
        )
