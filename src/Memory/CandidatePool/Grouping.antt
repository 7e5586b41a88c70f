-- ===== src/Memory/CandidatePool/Grouping.antt =====
-- core/memory/l2/candidate-pool.ts: the loop of `bucketsReadyForInduction` that groups rows by
-- signature.
use memos_qdrant.Shared.{
  String, ◌≡◌, refl, sym, ◌∙◌, ap, ◌≢◌, false, none, some, List, [], ◌∷◌, ◌++◌, map, string_eq,
  ◌==◌, ==_iff, ==-self, if◌then◌else◌, keep, includes, Bool-cases, inl, inr, arith, keep-append,
  append-nil, append_assoc,
}
use memos_qdrant.Shared.Keyed.{get, set}
use memos_qdrant.Memory.CandidateRepo.{CandidatePoolRow}
use memos_qdrant.Memory.CandidatePool.{
  CandidateBucket, push_new, bucket_or_new, grow, group, buckets_of,
}
use memos_qdrant.Memory.CandidatePool.Tables.{
  push_new-append, includes-push_new, push_new-Once, table, get-table, set-table,
}

buckets_of-table :
    (f : String → CandidateBucket) (ks : List String) → buckets_of (table f ks) ≡ map f ks
buckets_of-table f [] = refl
buckets_of-table f (k ∷ ks) = ap (◌∷◌ (f k)) (buckets_of-table f ks)

map-append {ℓ κ} :
    {A : Type ℓ} {B : Type κ} (f : A → B) (xs ys : List A) → map f (xs ++ ys) ≡ map f xs ++ map f ys
map-append f [] ys = refl
map-append f (x ∷ xs) ys = ap (◌∷◌ (f x)) (map-append f xs ys)

module _ {Num : Type 0} where
  -- The rows of a signature, the ids of rows, and their evidence.
  abbrev pub rows_with : String → List (CandidatePoolRow Num) → List (CandidatePoolRow Num)
  rows_with sig = keep (λ r. r.signature == sig)

  abbrev pub row_ids : List (CandidatePoolRow Num) → List String
  row_ids = map (λ r. r.id)

  abbrev pub evidence_of : List (CandidatePoolRow Num) → List String
  evidence_of [] = []
  evidence_of (r ∷ rows) = r.evidence_trace_ids ++ evidence_of rows

  -- The bucket of a signature: the ids of its rows, and their evidence with each trace once.
  abbrev pub collected : String → List (CandidatePoolRow Num) → CandidateBucket
  collected sig rows = record {
    signature = sig;
    candidate_ids = row_ids rows;
    evidence_trace_ids = push_new [] (evidence_of rows);
    episode_ids = [];
  }

  abbrev pub bucket_of : List (CandidatePoolRow Num) → String → CandidateBucket
  bucket_of rows sig = collected sig (rows_with sig rows)

  abbrev pub signatures : List (CandidatePoolRow Num) → List String
  signatures rows = push_new [] (map (λ r. r.signature) rows)

  evidence_of-append :
      (xs ys : List (CandidatePoolRow Num))
      → evidence_of (xs ++ ys) ≡ evidence_of xs ++ evidence_of ys
  evidence_of-append [] ys = refl
  evidence_of-append (x ∷ xs) ys =
      rw (evidence_of-append xs ys)
        (sym (append_assoc x.evidence_trace_ids (evidence_of xs) (evidence_of ys)))

  collected-grow :
      (sig : String) (rows : List (CandidatePoolRow Num)) (r : CandidatePoolRow Num)
      → collected sig (rows ++ (r ∷ [])) ≡ grow r (collected sig rows)
  collected-grow sig rows r =
      rw
        (
          map-append (λ (x : CandidatePoolRow Num). x.id) rows (r ∷ []),
          evidence_of-append rows (r ∷ []),
          append-nil r.evidence_trace_ids,
          push_new-append [] (evidence_of rows) r.evidence_trace_ids,
        )
        refl

  rows_with-same :
      (rows : List (CandidatePoolRow Num)) (r : CandidatePoolRow Num)
      → rows_with r.signature (rows ++ (r ∷ [])) ≡ rows_with r.signature rows ++ (r ∷ [])
  rows_with-same rows r =
      keep-append (λ x. x.signature == r.signature) rows (r ∷ [])
      ∙ ap (λ xs. rows_with r.signature rows ++ xs) (rw (==-self r.signature) refl)

  rows_with-other :
      (rows : List (CandidatePoolRow Num)) (r : CandidatePoolRow Num) (sig : String)
      → r.signature ≢ sig
      → rows_with sig rows ≡ rows_with sig (rows ++ (r ∷ []))
  rows_with-other rows r sig ne =
      let e : (r.signature == sig) ≡ false = ground (arith, ne, ==_iff r.signature sig) in
      sym (
        keep-append (λ x. x.signature == sig) rows (r ∷ [])
        ∙ ap (λ xs. rows_with sig rows ++ xs) (rw e refl)
        ∙ append-nil (rows_with sig rows))

  rows_with-absent :
      (rows : List (CandidatePoolRow Num)) (sig : String)
      → includes sig (map (λ (r : CandidatePoolRow Num). r.signature) rows) ≡ false
      → rows_with sig rows ≡ []
  rows_with-absent [] sig n = refl
  rows_with-absent (r ∷ rows) sig n = ground (arith, n, rows_with-absent rows sig)

  -- What a row makes of its bucket.
  grown :
      (rows : List (CandidatePoolRow Num)) (r : CandidatePoolRow Num)
      → grow r
          (bucket_or_new r.signature (get r.signature (table (bucket_of rows) (signatures rows))))
        ≡ bucket_of (rows ++ (r ∷ [])) r.signature
  grown rows r = rw (get-table r.signature (bucket_of rows) (signatures rows)) (go ∙ back)
    where
      back : grow r (bucket_of rows r.signature) ≡ bucket_of (rows ++ (r ∷ [])) r.signature
      back = sym (
          ap (collected r.signature) (rows_with-same rows r)
          ∙ collected-grow r.signature (rows_with r.signature rows) r)

      go :
          grow r (
            bucket_or_new r.signature (
              if includes r.signature (signatures rows)
              then some (bucket_of rows r.signature)
              else none))
          ≡ grow r (bucket_of rows r.signature)
      go = elim (Bool-cases (includes r.signature (signatures rows))) [
        | inl e ↦ rw e refl
        | inr e ↦
            let n : includes r.signature (map (λ (x : CandidatePoolRow Num). x.signature) rows)
                ≡ false =
              sym (
                includes-push_new r.signature []
                  (map (λ (x : CandidatePoolRow Num). x.signature) rows))
              ∙ e in
            rw e (rw (rows_with-absent rows r.signature n) refl)
      ]

  group-table :
      (done rows : List (CandidatePoolRow Num))
      → group rows (table (bucket_of done) (signatures done))
        ≡ table (bucket_of (done ++ rows)) (signatures (done ++ rows))
  unfolding group
  group-table done [] = rw (append-nil done) refl
  group-table done (r ∷ rows) =
      let new = done ++ (r ∷ []) in
      let keys : push_new (signatures done) (r.signature ∷ []) ≡ signatures new =
        sym (
          push_new-append [] (map (λ (x : CandidatePoolRow Num). x.signature) done)
            (r.signature ∷ []))
        ∙ ap (push_new [])
            (sym (map-append (λ (x : CandidatePoolRow Num). x.signature) done (r ∷ []))) in
      let one : set r.signature
            (grow r (
              bucket_or_new r.signature
                (get r.signature (table (bucket_of done) (signatures done)))))
            (table (bucket_of done) (signatures done))
          ≡ table (bucket_of new) (signatures new) =
        rw (grown done r) (
          set-table r.signature (bucket_of done) (bucket_of new) (signatures done)
            (push_new-Once [] (map (λ (x : CandidatePoolRow Num). x.signature) done) tt)
            (λ j ne. ap (collected j) (rows_with-other done r j ne))
          ∙ ap (table (bucket_of new)) keys) in
      ap (group rows) one
      ∙ group-table new rows
      ∙ ap (λ xs. table (bucket_of xs) (signatures xs)) (append_assoc done (r ∷ []) rows)

  -- The loop that groups gives the buckets of the signatures.
  pub buckets_of-group :
      (rows : List (CandidatePoolRow Num))
      → buckets_of (group rows []) ≡ map (bucket_of rows) (signatures rows)
  buckets_of-group rows =
      ap buckets_of (group-table [] rows) ∙ buckets_of-table (bucket_of rows) (signatures rows)
