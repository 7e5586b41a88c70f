-- ===== src/Memory/CandidatePool/Ready.antt =====
-- core/memory/l2/candidate-pool.ts: the order of the buckets that are ready, and what `prune` and
-- `promote` leave of them.
use memos_qdrant.Shared.{
  ℕ, ◌+◌, ◌≤◌, String, ◌≡◌, refl, sym, subst, ◌∙◌, ◌==◌, includes, ap, Bool, true, false, Option,
  none, some, List, [], ◌∷◌, map, string_eq, not, keep, length, leb, ltb, Bool-cases, inl, inr,
  arith, All, leb→le, length-keep-le,
}
use memos_qdrant.Shared.Keyed.{Map, Entries}
use memos_qdrant.Memory.CandidateRepo.{CandidatePoolRow, Pool, prune}
use memos_qdrant.Memory.CandidatePool.{
  CandidateBucket, waiting, is_waiting, precedes, insert_sorted, sort_buckets,
  buckets_ready_for_induction,
}
use memos_qdrant.Memory.CandidatePool.Tables.{
  Once, push_new-Once, includes-push_new, includes-append,
}
use memos_qdrant.Memory.CandidatePool.Grouping.{evidence_of, rows_with}
use memos_qdrant.Memory.CandidatePool.Described.{
  distinct, push_new-distinct, episode_in, episodes_of, described, due, all_described,
}
use memos_qdrant.Memory.CandidatePool.Order.{evidence, insert-All, sort-All}
use memos_qdrant.Memory.CandidatePool.Buckets.{sorted_lem}

-- Most evidence first.
abbrev pub Descending : List CandidateBucket → Type 0
Descending [] = Unit
Descending (b ∷ bs) = All (λ c. evidence c ≤ evidence b) bs × Descending bs

module _ (later : String → String → Bool) where
  precedes-le : (a b : CandidateBucket) → precedes later a b ≡ true → evidence b ≤ evidence a
  precedes-le a b h = ground (arith, h)

  follows-le : (a b : CandidateBucket) → precedes later a b ≡ false → evidence a ≤ evidence b
  follows-le a b h = ground (arith, h)

  below :
      (m n : ℕ) (bs : List CandidateBucket)
      → m ≤ n
      → All (λ c. evidence c ≤ m) bs
      → All (λ c. evidence c ≤ n) bs
  below m n [] l h = tt
  below m n (b ∷ bs) l h = (omega (arith, h.0, l), below m n bs l h.1)

  insert-Descending :
      (b : CandidateBucket) (bs : List CandidateBucket)
      → Descending bs
      → Descending (insert_sorted later b bs)
  insert-Descending b [] d = (tt, tt)
  insert-Descending b (c ∷ cs) d = elim (Bool-cases (precedes later b c)) [
    | inl e ↦ let l = precedes-le b c e in simp e ((l, below (evidence c) (evidence b) cs l d.0), d)
    | inr e ↦ simp e (
      insert-All later (λ x. evidence x ≤ evidence c) b cs (follows-le b c e) d.0,
      insert-Descending b cs d.1,
    )
  ]

  sort-Descending : (bs : List CandidateBucket) → Descending (sort_buckets later bs)
  sort-Descending [] = tt
  sort-Descending (b ∷ bs) = insert-Descending b (sort_buckets later bs) (sort-Descending bs)

distinct-Once : (xs : List String) → Once (distinct xs)
distinct-Once xs = subst Once (push_new-distinct xs) (push_new-Once [] xs tt)

includes-distinct : (a : String) (xs : List String) → includes a (distinct xs) ≡ includes a xs
includes-distinct a xs = ap (includes a) (sym (push_new-distinct xs)) ∙ includes-push_new a [] xs

named_in : (o : Option String) → includes "" (episode_in o) ≡ false
named_in none = refl
named_in (some e) = elim (Bool-cases (e == "")) [ inl b ↦ rw b refl | inr b ↦ simp b refl ]

episodes-named :
    (episode_of : String → Option String) (ts : List String)
    → includes "" (episodes_of episode_of ts) ≡ false
episodes-named episode_of [] = refl
episodes-named episode_of (t ∷ ts) = ground (
  arith,
  includes-append "" (episode_in (episode_of t)) (episodes_of episode_of ts),
  named_in (episode_of t),
  episodes-named episode_of ts,
)

-- Enough episodes, each once and none with an empty id, and each trace of the evidence once.
abbrev pub IsReady : ℕ → CandidateBucket → Type 0
IsReady min b =
    (min ≤ length b.episode_ids)
    × Once b.episode_ids
    × (includes "" b.episode_ids ≡ false)
    × Once b.evidence_trace_ids

module _ {Num : Type 0} (later : String → String → Bool) (episode_of : String → Option String)
    (min now : ℕ) where
  kept-IsReady :
      (rows : List (CandidatePoolRow Num)) (sigs : List String)
      → All
          (IsReady min)
          (keep (λ b. leb min (length b.episode_ids)) (map (described episode_of rows) sigs))
  kept-IsReady rows [] = tt
  kept-IsReady rows (sig ∷ sigs) =
      let b = described episode_of rows sig in
      elim (Bool-cases (leb min (length b.episode_ids))) [
        | inr e ↦ simp e (kept-IsReady rows sigs)
        | inl e ↦
            let es = episodes_of episode_of b.evidence_trace_ids in
            simp e (
              (
                leb→le min (length b.episode_ids) e,
                distinct-Once es,
                includes-distinct "" es ∙ episodes-named episode_of b.evidence_trace_ids,
                distinct-Once (evidence_of (rows_with sig rows)),
              ),
              kept-IsReady rows sigs,
            )
      ]

  -- Every bucket that is ready has at least the wanted number of episodes, each once and none
  -- with an empty id, and each trace of its evidence once; and the buckets come with most
  -- evidence first, whatever `localeCompare` says.
  pub ready_lem :
      (p : Pool Num)
      → All (IsReady min) (buckets_ready_for_induction episode_of later min now p)
        × Descending (buckets_ready_for_induction episode_of later min now p)
  ready_lem p =
      let e = sorted_lem episode_of later min now p in
      let bs = all_described episode_of min (due now p.rows) in
      rw e (
        sort-All later (IsReady min) bs (
            kept-IsReady (due now p.rows)
              (distinct (map (λ (r : CandidatePoolRow Num). r.signature) (due now p.rows)))),
        sort-Descending later bs,
      )

module _ {Num : Type 0} (now : ℕ) where
  waiting-prune :
      (rows : Map String (CandidatePoolRow Num))
      → waiting now (keep (λ e. not (ltb e.1.expires_at now)) rows) ≡ waiting now rows
  waiting-prune [] = refl
  waiting-prune ((id, r) ∷ rows) = elim (Bool-cases (ltb r.expires_at now)) [
    | inl e ↦
        let w : is_waiting now r ≡ false = gone r.policy_id (ground (arith, e)) in
        simp (e, w) (waiting-prune rows)
    | inr e ↦ elim (Bool-cases (is_waiting now r)) [
      | inl w ↦ simp (e, w) (ap (◌∷◌ r) (waiting-prune rows))
      | inr w ↦ simp (e, w) (waiting-prune rows)
    ]
  ]
    where
      gone :
          (o : Option String)
          → leb now r.expires_at ≡ false
          → elim o [ none ↦ leb now r.expires_at | some _ ↦ false ] ≡ false
      gone none h = h
      gone (some _) h = refl

  unexpired :
      (rows : Map String (CandidatePoolRow Num))
      → Entries (λ k r. now ≤ r.expires_at) (keep (λ e. not (ltb e.1.expires_at now)) rows)
  unexpired [] = tt
  unexpired ((id, r) ∷ rows) = elim (Bool-cases (ltb r.expires_at now)) [
    | inl e ↦ simp e (unexpired rows)
    | inr e ↦ simp e (ground (arith, e), unexpired rows)
  ]

  -- Pruning leaves only rows that are not expired, returns how many rows it dropped, and changes
  -- no bucket that is ready at that time.
  pub prune_lem :
      (episode_of : String → Option String) (later : String → String → Bool) (min : ℕ)
      (p : Pool Num)
      → Entries (λ k r. now ≤ r.expires_at) (prune now p).1.rows
        × (length (prune now p).1.rows + (prune now p).0 ≡ length p.rows)
        × (buckets_ready_for_induction episode_of later min now (prune now p).1
            ≡ buckets_ready_for_induction episode_of later min now p)
  unfolding prune buckets_ready_for_induction
  prune_lem episode_of later min p = (
    unexpired p.rows,
    omega (
      arith,
      length-keep-le (λ (e : String × CandidatePoolRow Num). not (ltb e.1.expires_at now)) p.rows,
    ),
    rw (waiting-prune p.rows) refl,
  )
