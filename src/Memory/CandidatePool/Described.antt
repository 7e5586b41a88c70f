-- ===== src/Memory/CandidatePool/Described.antt =====
-- core/memory/l2/candidate-pool.ts: a direct description of the buckets, with the first
-- occurrences of a list in place of the loops that push what is new.
use memos_qdrant.Shared.{
  ℕ, String, ◌≡◌, refl, sym, ◌∙◌, ap, Bool, true, false, Option, none, some, List, [], ◌∷◌, ◌++◌,
  map, string_eq, ◌==◌, ==_iff, ◌&&◌, not, if◌then◌else◌, keep, length, leb, ltb, includes,
  Bool-cases, inl, inr, arith, append-nil, append_assoc,
}
use memos_qdrant.Shared.Keyed.{Map}
use memos_qdrant.Memory.CandidateRepo.{CandidatePoolRow}
use memos_qdrant.Memory.CandidatePool.{
  CandidateBucket, waiting, push_new, add_episode, episodes_from, enrich,
}
use memos_qdrant.Memory.CandidatePool.Tables.{push_new-append, includes-append}
use memos_qdrant.Memory.CandidatePool.Grouping.{
  rows_with, row_ids, evidence_of, bucket_of, signatures,
}

-- The elements of a list, each at its first place.
abbrev pub distinct : List String → List String
distinct [] = []
distinct (x ∷ xs) = x ∷ keep (λ y. not (x == y)) (distinct xs)

-- The episode of a trace, if it has one whose id is not empty.
abbrev pub episode_in : Option String → List String
episode_in none = []
episode_in (some e) = if e == "" then [] else e ∷ []

abbrev pub episodes_of : (String → Option String) → List String → List String
episodes_of episode_of [] = []
episodes_of episode_of (t ∷ ts) = episode_in (episode_of t) ++ episodes_of episode_of ts

abbrev is_none : Option String → Bool
is_none none = true
is_none (some _) = false

is_waiting_lem :
    (now : ℕ) (o : Option String) (expires_at : ℕ)
    → elim o [ none ↦ leb now expires_at | some _ ↦ false ]
      ≡ (is_none o && not (ltb expires_at now))
is_waiting_lem now none expires_at = ground arith
is_waiting_lem now (some p) expires_at = refl

module _ {Num : Type 0} where
  -- The rows without a policy that are not expired.
  abbrev pub due : ℕ → Map String (CandidatePoolRow Num) → List (CandidatePoolRow Num)
  due now rows = keep (λ r. is_none r.policy_id && not (ltb r.expires_at now)) (map (λ e. e.1) rows)

  pub due_lem :
      (now : ℕ) (rows : Map String (CandidatePoolRow Num)) → waiting now rows ≡ due now rows
  due_lem now [] = refl
  due_lem now ((id, r) ∷ rows) = cc (is_waiting_lem now r.policy_id r.expires_at, due_lem now rows)

module _ {Num : Type 0} (episode_of : String → Option String) where
  -- The bucket of a signature: the ids of its rows, their evidence with each trace once, and the
  -- episodes of that evidence, each once.
  abbrev pub described : List (CandidatePoolRow Num) → String → CandidateBucket
  described rows sig =
      let evidence = distinct (evidence_of (rows_with sig rows)) in
      record {
        signature = sig;
        candidate_ids = row_ids (rows_with sig rows);
        evidence_trace_ids = evidence;
        episode_ids = distinct (episodes_of episode_of evidence);
      }

  -- The buckets of all signatures of rows that have at least the wanted number of episodes.
  abbrev pub all_described : ℕ → List (CandidatePoolRow Num) → List CandidateBucket
  all_described min rows =
      keep (λ b. leb min (length b.episode_ids))
        (map (described rows) (distinct (map (λ r. r.signature) rows)))

keep-keep {ℓ} :
    {A : Type ℓ} (p q r : A → Bool) (xs : List A)
    → ((x : A) → r x ≡ (q x && p x))
    → keep p (keep q xs) ≡ keep r xs
keep-keep p q r [] h = refl
keep-keep p q r (x ∷ xs) h = ground (arith, h x, keep-keep p q r xs h)

-- What the loop pushes: the first occurrences of what was not there.
pub push_new_lem :
    (seen xs : List String)
    → push_new seen xs ≡ seen ++ keep (λ y. not (includes y seen)) (distinct xs)
push_new_lem seen [] = sym (append-nil seen)
push_new_lem seen (x ∷ xs) = elim (Bool-cases (includes x seen)) [
  | inl e ↦
      let same : (y : String) → (x == y) ≡ true → includes y seen ≡ true =
        λ y h. ap (λ i. includes i seen) (sym ((==_iff x y).0 h)) ∙ e in
      let known : (y : String) → not (includes y seen) ≡ (not (x == y) && not (includes y seen)) =
        λ y. ground (arith, same y) in
      rw e
        (push_new_lem seen xs ∙ ap (λ ys. seen ++ ys) (sym (keep-keep _ _ _ (distinct xs) known)))
  | inr e ↦
      let new : (y : String)
          → not (includes y (seen ++ (x ∷ []))) ≡ (not (x == y) && not (includes y seen)) =
        λ y. ground (arith, includes-append y seen (x ∷ [])) in
      rw e (
        push_new_lem (seen ++ (x ∷ [])) xs
        ∙ append_assoc seen (x ∷ []) _
        ∙ ap (λ ys. seen ++ (x ∷ ys)) (sym (keep-keep _ _ _ (distinct xs) new)))
]

keep-all {ℓ} : {A : Type ℓ} (xs : List A) → keep (λ x. true) xs ≡ xs
keep-all [] = refl
keep-all (x ∷ xs) = ap (◌∷◌ x) (keep-all xs)

pub push_new-distinct : (xs : List String) → push_new [] xs ≡ distinct xs
push_new-distinct xs = push_new_lem [] xs ∙ keep-all (distinct xs)

add_episode_lem :
    (o : Option String) (eps : List String) → add_episode o eps ≡ push_new eps (episode_in o)
add_episode_lem none eps = refl
add_episode_lem (some e) eps = elim (Bool-cases (e == "")) [ inl b ↦ rw b refl | inr b ↦ rw b refl ]

pub episodes_from_lem :
    (episode_of : String → Option String) (eps tids : List String)
    → episodes_from episode_of eps tids ≡ push_new eps (episodes_of episode_of tids)
episodes_from_lem episode_of eps [] = refl
episodes_from_lem episode_of eps (t ∷ ts) =
    ap (λ xs. episodes_from episode_of xs ts) (add_episode_lem (episode_of t) eps)
    ∙ episodes_from_lem episode_of (push_new eps (episode_in (episode_of t))) ts
    ∙ sym (push_new-append eps (episode_in (episode_of t)) (episodes_of episode_of ts))

module _ {Num : Type 0} (episode_of : String → Option String) where
  pub enrich-bucket_of :
      (rows : List (CandidatePoolRow Num)) (sig : String)
      → enrich episode_of (bucket_of rows sig) ≡ described episode_of rows sig
  enrich-bucket_of rows sig =
      let e = push_new-distinct (evidence_of (rows_with sig rows)) in
      let f =
        episodes_from_lem episode_of [] (distinct (evidence_of (rows_with sig rows)))
        ∙ push_new-distinct
            (episodes_of episode_of (distinct (evidence_of (rows_with sig rows)))) in
      rw e (rw f refl)

  map-enrich :
      (rows : List (CandidatePoolRow Num)) (sigs : List String)
      → map (enrich episode_of) (map (bucket_of rows) sigs) ≡ map (described episode_of rows) sigs
  map-enrich rows [] = refl
  map-enrich rows (sig ∷ sigs) = cc (enrich-bucket_of rows sig, map-enrich rows sigs)

  pub all_described_lem :
      (min : ℕ) (rows : List (CandidatePoolRow Num))
      → keep
          (λ b. leb min (length b.episode_ids))
          (map (enrich episode_of) (map (bucket_of rows) (signatures rows)))
        ≡ all_described episode_of min rows
  all_described_lem min rows =
      let e = push_new-distinct (map (λ (r : CandidatePoolRow Num). r.signature) rows) in
      ap (keep (λ b. leb min (length b.episode_ids)))
        (map-enrich rows (signatures rows) ∙ ap (map (described episode_of rows)) e)
