-- ===== src/Memory/CandidateRepo.antt =====
-- core/storage/repos/candidate_pool.ts over the table `l2_candidate_pool`. A similarity is of any
-- type; the JSON column is kept as the array that reading it gives back. `policies` holds the ids
-- of the table that `policy_id` refers to.
use memos_qdrant.Shared.{
  ℕ, String, Bool, true, Option, none, some, List, ◌-◌, string_eq, if◌then◌else◌, keep, length, ltb,
  includes, not,
}
use memos_qdrant.Shared.Keyed.{Map, get, set, delete, has}

pub record CandidatePoolRow (Num : Type 0) : Type 0 where
  pub id : String
  pub policy_id : Option String
  pub evidence_trace_ids : List String
  pub signature : String
  pub similarity : Num
  pub expires_at : ℕ

pub record Pool (Num : Type 0) : Type 0 where
  pub rows : Map String (CandidatePoolRow Num)
  pub policies : List String

pub data SqlError : Type 0 where
  unique_constraint foreign_key_constraint : SqlError

abbrev pub refers : Option String → List String → Bool
refers none policies = true
refers (some policy_id) policies = includes policy_id policies

module _ {Num : Type 0} where
  -- A statement that throws leaves the table as it was.
  unfoldable pub insert : CandidatePoolRow Num → Pool Num → Option SqlError × Pool Num
  unfolding has
  insert row p =
      if has row.id p.rows
      then (some unique_constraint, p)
      else if refers row.policy_id p.policies
      then (none, record p { rows = set row.id row p.rows })
      else (some foreign_key_constraint, p)

  unfoldable pub upsert : CandidatePoolRow Num → Pool Num → Option SqlError × Pool Num
  unfolding insert
  upsert row p = elim (get row.id p.rows) [
    | none ↦ insert row p
    | some existing ↦
        if refers row.policy_id p.policies
        then (
          none,
          record p {
            rows =
                set row.id
                  (record existing {
                    policy_id = row.policy_id;
                    evidence_trace_ids = row.evidence_trace_ids;
                    similarity = row.similarity;
                    expires_at = row.expires_at;
                  })
                  p.rows;
          },
        )
        else (some foreign_key_constraint, p)
  ]

  abbrev pub get_by_id : String → Pool Num → Option (CandidatePoolRow Num)
  get_by_id id p = get id p.rows

  -- `DELETE … WHERE expires_at < @now`, with the number of rows that it deletes.
  unfoldable pub prune : ℕ → Pool Num → ℕ × Pool Num
  prune now p =
      let left = keep (λ e. not (ltb e.1.expires_at now)) p.rows in
      (length p.rows - length left, record p { rows = left })

  abbrev pub delete_row : String → Pool Num → Pool Num
  delete_row id p = record p { rows = delete id p.rows }

  unfoldable pub promote_row : String → String → Pool Num → Option SqlError × Pool Num
  promote_row id policy_id p = elim (get id p.rows) [
    | none ↦ (none, p)
    | some r ↦
        if includes policy_id p.policies
        then (none, record p { rows = set id (record r { policy_id = some policy_id }) p.rows })
        else (some foreign_key_constraint, p)
  ]
