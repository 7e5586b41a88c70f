-- ===== src/Skill/Feedback/Effects.antt =====
-- core/skill/skill.ts: when `applySkillFeedback` says that a skill was archived.
use memos_qdrant.Shared.{
  ℕ, ◌+◌, String, ◌≡◌, refl, ◌∙◌, ap, Option, none, some, List, [], ◌∷◌, ◌++◌, ◌&&◌, not, string_eq,
  if◌then◌else◌, Option-cases, inl, inr, arith,
}
use memos_qdrant.Shared.Keyed.{get, get-set_self}
use memos_qdrant.Skill.Lifecycle.{
  Numbers, SkillStatus, candidate, active, archived, SkillLifecycleTransition, SkillFeedbackKind,
  SkillRow, SkillConfig, is_archived, apply_feedback,
}
use memos_qdrant.Skill.Lifecycle.Moves.{
  Move, Source, source, stays, promotes, fails_trials, decays_trial, decays_thumbs_candidate,
  decays_thumbs_active, demotes_candidate, demotes_active, revives, apply_feedback-Move,
}
use memos_qdrant.Skill.Feedback.{
  SkillEvent, eta_updated, status_changed, skill_archived, archive_reason, Skills, report, feed,
  apply_skill_feedback,
}

module _ (n : Numbers) where
  -- The number of `skill.archived` events.
  abbrev pub archivals : List (SkillEvent n) → ℕ
  archivals [] = 0
  archivals (eta_updated _ _ _ _ _ _ _ ∷ es) = archivals es
  archivals (status_changed _ _ _ _ _ ∷ es) = archivals es
  archivals (skill_archived _ _ _ ∷ es) = archivals es + 1

  archivals-append :
      (es fs : List (SkillEvent n)) → archivals (es ++ fs) ≡ archivals es + archivals fs
  archivals-append [] fs = omega arith
  archivals-append (eta_updated _ _ _ _ _ _ _ ∷ es) fs = archivals-append es fs
  archivals-append (status_changed _ _ _ _ _ ∷ es) fs = archivals-append es fs
  archivals-append (skill_archived _ _ _ ∷ es) fs = omega (arith, archivals-append es fs)

  -- One when a state that is not archived becomes archived.
  abbrev pub newly_archived : SkillStatus → SkillStatus → ℕ
  newly_archived old new = if not (is_archived n old) && is_archived n new then 1 else 0

  archivals-changed :
      (es : List (SkillEvent n)) (at : ℕ) (id : String) (s s' : SkillStatus)
      (t : SkillLifecycleTransition)
      → archivals (es ++ (status_changed at id s s' t ∷ [])) ≡ archivals es
  archivals-changed es at id s s' t =
      omega (arith, archivals-append es (status_changed at id s s' t ∷ []))

  changed-archivals :
      (id : String) (kind : SkillFeedbackKind) (s s' : SkillStatus) (t : SkillLifecycleTransition)
      (w : Skills n)
      → archivals (report n id kind s s' (some t) w).events
        ≡ archivals w.events + (if is_archived n s' then 1 else 0)
  changed-archivals id kind s candidate t w =
      omega (arith, archivals-changed w.events (w.clock w.clock_calls) id s candidate t)
  changed-archivals id kind s active t w =
      omega (arith, archivals-changed w.events (w.clock w.clock_calls) id s active t)
  changed-archivals id kind s archived t w =
      let es = w.events ++ (status_changed (w.clock w.clock_calls) id s archived t ∷ []) in
      let e : SkillEvent n =
        skill_archived (w.clock (w.clock_calls + 1)) id (archive_reason kind) in
      omega (
        arith,
        archivals-append es (e ∷ []),
        archivals-changed w.events (w.clock w.clock_calls) id s archived t,
      )

  -- Every move that reports its transition is counted where it enters the archive.
  report-archivals :
      (id : String) (kind : SkillFeedbackKind) (s s' : SkillStatus) (c : Source)
      (t : Option SkillLifecycleTransition) (w : Skills n)
      → Move s c s' t
      → archivals (report n id kind s s' t w).events ≡ archivals w.events + newly_archived s s'
  report-archivals id kind candidate candidate c none w (stays _ _) = omega arith
  report-archivals id kind active active c none w (stays _ _) = omega arith
  report-archivals id kind archived archived c none w (stays _ _) = omega arith
  report-archivals id kind s s' c t w promotes = changed-archivals id kind candidate active _ w
  report-archivals id kind s s' c t w fails_trials =
      changed-archivals id kind candidate archived _ w
  report-archivals id kind s s' c t w decays_trial = changed-archivals id kind active archived _ w
  report-archivals id kind s s' c t w decays_thumbs_candidate =
      changed-archivals id kind candidate archived _ w
  report-archivals id kind s s' c t w decays_thumbs_active =
      changed-archivals id kind active archived _ w
  report-archivals id kind s s' c t w demotes_candidate =
      changed-archivals id kind candidate archived _ w
  report-archivals id kind s s' c t w demotes_active = changed-archivals id kind active archived _ w
  report-archivals id kind s s' c t w revives = changed-archivals id kind archived candidate _ w

  report-rows :
      (id : String) (kind : SkillFeedbackKind) (s s' : SkillStatus)
      (t : Option SkillLifecycleTransition) (w : Skills n)
      → (report n id kind s s' t w).rows ≡ w.rows
  report-rows id kind s s' none w = refl
  report-rows id kind s candidate (some t) w = refl
  report-rows id kind s active (some t) w = refl
  report-rows id kind s archived (some t) w = refl

  feed-get :
      (id : String) (kind : SkillFeedbackKind) (cfg : SkillConfig n) (m : Option n.Num)
      (skill : SkillRow n) (s : Skills n)
      → get id (feed n id kind cfg m skill s).1.rows ≡ some (feed n id kind cfg m skill s).0
  feed-get id kind cfg m skill s =
      ap (get id)
        (report-rows id kind skill.status _ (apply_feedback n skill kind cfg m).transition _)
      ∙ get-set_self id (feed n id kind cfg m skill s).0 s.rows

  feed-archivals :
      (id : String) (kind : SkillFeedbackKind) (cfg : SkillConfig n) (m : Option n.Num)
      (skill : SkillRow n) (s : Skills n)
      → archivals (feed n id kind cfg m skill s).1.events
        ≡ archivals s.events + newly_archived skill.status (feed n id kind cfg m skill s).0.status
  feed-archivals id kind cfg m skill s =
      let u = apply_feedback n skill kind cfg m in
      let e : SkillEvent n =
        eta_updated (s.clock (s.clock_calls + 1)) id skill.eta u.eta u.trials_attempted
          u.trials_passed kind in
      omega (
        arith,
        report-archivals id kind skill.status u.status (source kind) u.transition _
            (apply_feedback-Move n skill kind cfg m),
        archivals-append s.events (e ∷ []),
      )

  -- The archivals between two reads of a row.
  abbrev pub archivals_between : Option (SkillRow n) → Option (SkillRow n) → ℕ
  archivals_between none r = 0
  archivals_between (some a) none = 0
  archivals_between (some a) (some b) = newly_archived a.status b.status

  -- `applySkillFeedback` returns what the table holds under the id afterwards, nothing for a skill
  -- that is missing; and it emits `skill.archived` once where the row goes from another state to
  -- archived, and never otherwise.
  pub apply_skill_feedback_lem :
      (id : String) (kind : SkillFeedbackKind) (cfg : SkillConfig n) (m : Option n.Num)
      (s : Skills n)
      → ((apply_skill_feedback n id kind cfg m s).0
          ≡ get id (apply_skill_feedback n id kind cfg m s).1.rows)
        × (archivals (apply_skill_feedback n id kind cfg m s).1.events
            ≡ archivals s.events
              + archivals_between
                  (get id s.rows)
                  (get id (apply_skill_feedback n id kind cfg m s).1.rows))
  unfolding apply_skill_feedback
  apply_skill_feedback_lem id kind cfg m s = elim (Option-cases (get id s.rows)) [
    | inl e ↦ simp e (refl, omega arith)
    | inr (skill, e) ↦
        simp (e, feed-get id kind cfg m skill s) (refl, feed-archivals id kind cfg m skill s)
  ]
