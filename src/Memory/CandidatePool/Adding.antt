-- ===== src/Memory/CandidatePool/Adding.antt =====
-- core/memory/l2/candidate-pool.ts: what `addCandidate` writes, and the pool over histories of calls.
use memos_qdrant.Shared.{
  ◌+◌, String, ◌≡◌, refl, sym, ◌∙◌, ap, Bool, true, false, Option, none, some, List, [], ◌∷◌, ◌++◌,
  string_eq, ◌==◌, ==_iff, ◌||◌, ◌&&◌, not, includes, Bool-cases, Option-cases, inl, inr, arith,
}
use memos_qdrant.Shared.Keyed.{get, set, has, get-set, Entries, Entries-set, Entries-get}
use memos_qdrant.Memory.CandidateId.{candidate_id_for}
use memos_qdrant.Memory.CandidateRepo.{CandidatePoolRow, Pool, refers, insert, upsert}
use memos_qdrant.Memory.CandidatePool.{
  unique_from, unique, Added, AddCandidateInput, add_candidate, or_zero,
}
use memos_qdrant.Memory.CandidatePool.Tables.{Once, includes-append}

-- `unique` keeps the elements and drops the repetitions.
includes-unique_from :
    (a : String) (seen xs : List String)
    → includes a (unique_from seen xs) ≡ (includes a xs && not (includes a seen))
includes-unique_from a seen [] = refl
includes-unique_from a seen (x ∷ xs) = elim (Bool-cases (includes x seen)) [
  | inl e ↦
      let known : (x == a) ≡ true → includes a seen ≡ true =
        λ h. sym (ap (λ i. includes i seen) ((==_iff x a).0 h)) ∙ e in
      rw e (includes-unique_from a seen xs ∙ ground (arith, known))
  | inr e ↦
      let new : (x == a) ≡ true → includes a seen ≡ false =
        λ h. sym (ap (λ i. includes i seen) ((==_iff x a).0 h)) ∙ e in
      rw e (ground (arith, includes-unique_from a (x ∷ seen) xs, new))
]

unique_from-Once : (seen xs : List String) → Once (unique_from seen xs)
unique_from-Once seen [] = tt
unique_from-Once seen (x ∷ xs) = elim (Bool-cases (includes x seen)) [
  | inl e ↦ rw e (unique_from-Once seen xs)
  | inr e ↦ rw e (
    ground (arith, includes-unique_from x (x ∷ seen) xs, ==_iff x x),
    unique_from-Once (x ∷ seen) xs,
  )
]

-- `unique` returns each element of its list exactly once.
pub unique_lem :
    (xs : List String) → Once (unique xs) × ((a : String) → includes a (unique xs) ≡ includes a xs)
unfolding unique
unique_lem xs = (unique_from-Once [] xs, λ a. includes-unique_from a [] xs ∙ ground arith)

-- A row stands under its id, refers to a policy that exists, and names each trace once.
pub record IsSound (Num : Type 0) (policies : List String) (id : String) (r : CandidatePoolRow Num)
    : Type 0 where
  pub keyed : r.id ≡ id
  pub referred : refers r.policy_id policies ≡ true
  pub once : Once r.evidence_trace_ids

abbrev pub PoolSound : {Num : Type 0} → Pool Num → Type 0
PoolSound {Num} p = Entries (IsSound Num p.policies) p.rows

abbrev pub evidence_at : {Num : Type 0} → Option (CandidatePoolRow Num) → List String
evidence_at none = []
evidence_at (some r) = r.evidence_trace_ids

abbrev pub policy_at : {Num : Type 0} → Option (CandidatePoolRow Num) → Option String
policy_at none = none
policy_at (some r) = r.policy_id

-- What `addCandidate` leaves, from the pool `p`.
pub record IsAdded (Num : Type 0) (input : AddCandidateInput Num) (p p' : Pool Num) (a : Added)
    : Type 0 where
  pub id : a.candidate_id ≡ candidate_id_for input.signature input.trace_id
  pub created : a.created ≡ not (has a.candidate_id p.rows)
  pub row : CandidatePoolRow Num
  pub held : get a.candidate_id p'.rows ≡ some row
  pub evidence :
      (t : String)
      → includes t row.evidence_trace_ids
        ≡ (includes t (evidence_at (get a.candidate_id p.rows)) || (input.trace_id == t))
  pub expires_at : row.expires_at ≡ input.now + input.ttl_ms
  pub policy : row.policy_id ≡ policy_at (get a.candidate_id p.rows)
  pub others : (j : String) → (a.candidate_id == j) ≡ false → get j p'.rows ≡ get j p.rows
  pub sound : PoolSound p'

module _ {Num : Type 0} (max : Num → Num → Num) (zero_num : Num) (input : AddCandidateInput Num)
    (p : Pool Num) (s : PoolSound p) where
  abbrev id_of : String
  id_of = candidate_id_for input.signature input.trace_id

  abbrev new_row : CandidatePoolRow Num
  new_row = record {
    id = id_of;
    policy_id = none;
    evidence_trace_ids = input.trace_id ∷ [];
    signature = input.signature;
    similarity = or_zero max zero_num input.similarity;
    expires_at = input.now + input.ttl_ms;
  }

  abbrev refreshed : CandidatePoolRow Num → CandidatePoolRow Num
  refreshed existing = record existing {
    evidence_trace_ids = unique (existing.evidence_trace_ids ++ (input.trace_id ∷ []));
    similarity = max existing.similarity (or_zero max zero_num input.similarity);
    expires_at = input.now + input.ttl_ms;
  }

  abbrev answer : Bool → Added
  answer created = record { candidate_id = id_of; signature = input.signature; created = created }

  abbrev with_row : CandidatePoolRow Num → Pool Num
  with_row r = record p { rows = set id_of r p.rows }

  -- What holds of any write of a row that is sound.
  written :
      (created : Bool) (r : CandidatePoolRow Num)
      → created ≡ not (has id_of p.rows)
      → IsSound Num p.policies id_of r
      → r.expires_at ≡ input.now + input.ttl_ms
      → r.policy_id ≡ policy_at (get id_of p.rows)
      → ((t : String)
          → includes t r.evidence_trace_ids
            ≡ (includes t (evidence_at (get id_of p.rows)) || (input.trace_id == t)))
      → IsAdded Num input p (with_row r) (answer created)
  written created r c ok x q ev = record {
    id = refl;
    created = c;
    row = r;
    held = ground (arith, get-set id_of id_of r p.rows, ==_iff id_of id_of);
    evidence = ev;
    expires_at = x;
    policy = q;
    others = λ j ne. ground (arith, get-set id_of j r p.rows, ne);
    sound = Entries-set (IsSound Num p.policies) id_of r p.rows ok s;
  }

  abbrev AddLem : Type 0
  AddLem =
      (a : Added) × (p' : Pool Num) × (add_candidate max zero_num input p ≡ inr (a, p'))
      × IsAdded Num input p p' a

  add-new : get id_of p.rows ≡ none → AddLem
  unfolding add_candidate insert has
  add-new e = (
    answer true,
    with_row new_row,
    rw (add_candidate, e, insert, has, e) refl,
    written true new_row (rw (has, e) refl)
        (record { keyed = refl; referred = refl; once = (refl, tt) }) refl (rw e refl)
        (λ t. rw e (ground arith)),
  )

  add-existing : (r : CandidatePoolRow Num) → get id_of p.rows ≡ some r → AddLem
  unfolding add_candidate upsert has unique
  add-existing r e =
      let ok : IsSound Num p.policies id_of r =
        Entries-get (IsSound Num p.policies) id_of r p.rows s e in
      let (once, all) = unique_lem (r.evidence_trace_ids ++ (input.trace_id ∷ [])) in
      (
        answer false,
        with_row (refreshed r),
        rw (add_candidate, e, upsert, e, ok.referred) refl,
        written false (refreshed r) (rw (has, e) refl)
            (record { keyed = ok.keyed; referred = ok.referred; once = once }) refl (rw e refl)
            (λ t. rw e (
              all t ∙ includes-append t r.evidence_trace_ids (input.trace_id ∷ []) ∙ ground arith)),
      )

  -- From a sound pool, `addCandidate` returns the id made from the signature and the trace, and
  -- says that it created the row exactly when there was none; the row then names the traces that
  -- it named before and the new one, each once, keeps its policy, and expires the given time after
  -- now. Every other row is as it was, and the pool is sound again.
  pub add_candidate_lem :
      (a : Added) × (p' : Pool Num) × (add_candidate max zero_num input p ≡ inr (a, p'))
      × IsAdded Num input p p' a
  add_candidate_lem = elim (Option-cases (get id_of p.rows)) [
    | inl e ↦ add-new e
    | inr (r, e) ↦ add-existing r e
  ]
