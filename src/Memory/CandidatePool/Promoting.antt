-- ===== src/Memory/CandidatePool/Promoting.antt =====
-- core/memory/l2/candidate-pool.ts: `promote` and `deleteBucket`, and the pool over histories.
use memos_qdrant.Shared.{
  String, ◌≡◌, refl, sym, ◌∙◌, ap, Bool, true, false, Option, none, some, List, [], ◌∷◌, string_eq,
  ◌==◌, ==_iff, ◌||◌, if◌then◌else◌, includes, Bool-cases, Option-cases, inl, inr, arith,
}
use memos_qdrant.Shared.Keyed.{
  Map, get, set, get-set, get-delete, Entries, Entries-set, Entries-get, Distinct,
}
use memos_qdrant.Memory.CandidateRepo.{CandidatePoolRow, Pool, promote_row, delete_row}
use memos_qdrant.Memory.CandidatePool.{promote, ids_with, delete_all, delete_bucket}
use memos_qdrant.Memory.CandidatePool.Adding.{IsSound, PoolSound}

module _ {Num : Type 0} (policy_id : String) where
  -- The row of a promoted id, when there is one.
  abbrev pub promoted : Option (CandidatePoolRow Num) → Option (CandidatePoolRow Num)
  promoted none = none
  promoted (some r) = some (record r { policy_id = some policy_id })

  absent :
      (id j : String) (p : Pool Num)
      → get id p.rows ≡ none
      → get j p.rows ≡ (if id == j then promoted (get j p.rows) else get j p.rows)
  absent id j p e = elim (Bool-cases (id == j)) [
    | inl same ↦
        let q : get j p.rows ≡ none = sym (ap (λ k. get k p.rows) ((==_iff id j).0 same)) ∙ e in
        rw (same, q) refl
    | inr other ↦ rw other refl
  ]

  present :
      (id j : String) (r : CandidatePoolRow Num) (p : Pool Num)
      → get id p.rows ≡ some r
      → get j (set id (record r { policy_id = some policy_id }) p.rows)
        ≡ (if id == j then promoted (get j p.rows) else get j p.rows)
  present id j r p e =
      get-set id j (record r { policy_id = some policy_id }) p.rows ∙ elim (Bool-cases (id == j)) [
        | inl same ↦
            let q : get j p.rows ≡ some r =
              sym (ap (λ k. get k p.rows) ((==_iff id j).0 same)) ∙ e in
            rw (same, q) refl
        | inr other ↦ rw other refl
      ]

  promote_row_lem :
      (id : String) (p : Pool Num)
      → includes policy_id p.policies ≡ true
      → PoolSound p
      → ((promote_row id policy_id p).0 ≡ none)
        × ((promote_row id policy_id p).1.policies ≡ p.policies)
        × PoolSound (promote_row id policy_id p).1
        × ((j : String)
            → get j (promote_row id policy_id p).1.rows
              ≡ (if id == j then promoted (get j p.rows) else get j p.rows))
  unfolding promote_row
  promote_row_lem id p i s = elim (Option-cases (get id p.rows)) [
    | inl e ↦ rw (e, promote_row) (refl, refl, s, λ j. absent id j p e)
    | inr (r, e) ↦
        let ok = Entries-get (IsSound Num p.policies) id r p.rows s e in
        rw (e, promote_row, i)
          (
            refl,
            refl,
            Entries-set (IsSound Num p.policies) id (record r { policy_id = some policy_id }) p.rows
                (record { keyed = ok.keyed; referred = i; once = ok.once }) s,
            λ j. present id j r p e,
          )
  ]

  promoted-twice : (o : Option (CandidatePoolRow Num)) → promoted (promoted o) ≡ promoted o
  promoted-twice none = refl
  promoted-twice (some r) = refl

  both :
      (a b : Bool) (o o' : Option (CandidatePoolRow Num))
      → o' ≡ (if a then promoted o else o)
      → (if b then promoted o' else o') ≡ (if a || b then promoted o else o)
  both true true o o' h = ap promoted h ∙ promoted-twice o
  both true false o o' h = h
  both false true o o' h = ap promoted h
  both false false o o' h = h

  -- Promoting ids to a policy that exists throws nothing and keeps the pool sound: the rows of
  -- these ids then carry the policy, so that no bucket takes them, and every other row is as it
  -- was. An id that has no row is passed over.
  pub promote_lem :
      (ids : List String) (p : Pool Num)
      → includes policy_id p.policies ≡ true
      → PoolSound p
      → ((promote ids policy_id p).0 ≡ none)
        × ((promote ids policy_id p).1.policies ≡ p.policies)
        × PoolSound (promote ids policy_id p).1
        × ((j : String)
            → get j (promote ids policy_id p).1.rows
              ≡ (if includes j ids then promoted (get j p.rows) else get j p.rows))
  unfolding promote
  promote_lem [] p i s = (refl, refl, s, λ j. refl)
  promote_lem (id ∷ ids) p i s =
      let (z, q, s', g) = promote_row_lem id p i s in
      let (z', q', s'', g') =
        promote_lem ids (promote_row id policy_id p).1 (ap (includes policy_id) q ∙ i) s' in
      rw (promote, z)
        (z', q' ∙ q, s'', λ j. g' j ∙ both (id == j) (includes j ids) (get j p.rows) _ (g j))

-- `deleteBucket` drops exactly the rows of the signature.
module _ {Num : Type 0} where
  delete_all_lem :
      (ids : List String) (k : String) (p : Pool Num)
      → get k (delete_all ids p).rows ≡ (if includes k ids then none else get k p.rows)
  delete_all_lem [] k p = refl
  delete_all_lem (id ∷ ids) k p =
      delete_all_lem ids k (delete_row id p) ∙ ground (arith, get-delete id k p.rows)

  abbrev pub has_signature : String → Option (CandidatePoolRow Num) → Bool
  has_signature sig none = false
  has_signature sig (some r) = r.signature == sig

  includes-ids_with :
      (policies : List String) (sig k : String) (rows : Map String (CandidatePoolRow Num))
      → Distinct rows
      → Entries (IsSound Num policies) rows
      → includes k (ids_with sig rows) ≡ has_signature sig (get k rows)
  unfolding get
  includes-ids_with policies sig k [] d s = refl
  includes-ids_with policies sig k ((j, r) ∷ rows) d s =
      let ih = includes-ids_with policies sig k rows d.1 s.1 in
      let same_id : (r.id == k) ≡ (j == k) = ap (λ i. i == k) (s.0).keyed in
      elim (Bool-cases (j == k)) [
        | inl e ↦
            let n : get k rows ≡ none = sym (ap (λ i. get i rows) ((==_iff j k).0 e)) ∙ d.0 in
            let none_left : includes k (ids_with sig rows) ≡ false =
              ih ∙ ap (has_signature sig) n in
            elim (Bool-cases (r.signature == sig)) [
              | inl m ↦ simp (e, m, same_id) refl
              | inr m ↦ simp (e, m, none_left) refl
            ]
        | inr e ↦ elim (Bool-cases (r.signature == sig)) [
          | inl m ↦ simp (e, m, same_id) ih
          | inr m ↦ simp (e, m) ih
        ]
      ]

  -- In a sound pool, `deleteBucket` drops the rows of exactly that signature and keeps all others.
  pub delete_bucket_lem :
      (sig k : String) (p : Pool Num)
      → Distinct p.rows
      → PoolSound p
      → get k (delete_bucket sig p).1.rows
        ≡ (if has_signature sig (get k p.rows) then none else get k p.rows)
  unfolding delete_bucket
  delete_bucket_lem sig k p d s =
      delete_all_lem (ids_with sig p.rows) k p
      ∙ rw (includes-ids_with p.policies sig k p.rows d s) refl
