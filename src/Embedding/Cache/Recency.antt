-- ===== src/Embedding/Cache/Recency.antt =====
-- `LruEmbedCache`: how long a vector stays.
use memos_qdrant.Shared.{
  ◌∙◌, ap, ℕ, ◌+◌, ◌≤◌, ◌<◌, String, ◌≡◌, ◌≢◌, refl, sym, subst, none, some, List, [], ◌∷◌, ◌++◌,
  string_eq, arith, length, drop, if◌then◌else◌, Bool-cases, Option-cases, inl, inr, ◌==◌, ==_iff,
  All, length-append,
}
use memos_qdrant.Shared.Keyed.{Map, get, delete, get-delete}
use memos_qdrant.Embedding.Cache.{LruEmbedCache, lookup, store}
use memos_qdrant.Embedding.Cache.Histories.{
  Op, reads, writes, clears, step, run, step-IsBounded, step-max_items,
}
use memos_qdrant.Embedding.Cache.Bounds.{
  IsBounded, store-IsBounded, store_cases, set-append, get-drop,
}

module _ {ℓ} {V : Type ℓ} where
  -- The entries that were used after the one at `k`.
  abbrev newer : String → Map String V → ℕ
  newer k [] = 0
  newer k ((j, w) ∷ m) = if j == k then length m else newer k m

  length-delete-le : (j : String) (m : Map String V) → length (delete j m) ≤ length m
  unfolding delete
  length-delete-le j [] = omega arith
  length-delete-le j ((i, w) ∷ m) = ground (arith, length-delete-le j m)

  newer-delete : (k j : String) (m : Map String V) → j ≢ k → newer k (delete j m) ≤ newer k m
  unfolding delete
  newer-delete k j [] ne = omega arith
  newer-delete k j ((i, w) ∷ m) ne =
      ground (arith, newer-delete k j m ne, length-delete-le j m, ==_iff i k, ==_iff i j)

  newer-append :
      (k j : String) (v w : V) (m : Map String V)
      → get k m ≡ some v
      → newer k (m ++ ((j, w) ∷ [])) ≡ newer k m + 1
  unfolding get
  newer-append k j v w [] h = absurd (cc)
  newer-append k j v w ((i, u) ∷ m) h =
      ground (arith, newer-append k j v w m, length-append m ((j, w) ∷ []))

  newer-drop :
      (k : String) (v : V) (m : Map String V)
      → get k m ≡ some v
      → newer k m + 1 < length m
      → (get k (drop 1 m) ≡ some v) × (newer k (drop 1 m) ≡ newer k m)
  unfolding get
  newer-drop k v [] h l = absurd (cc)
  newer-drop k v ((i, u) ∷ m) h l = ground arith

  get-append :
      (k j : String) (v w : V) (m : Map String V)
      → get k m ≡ some v
      → get k (m ++ ((j, w) ∷ [])) ≡ some v
  unfolding get
  get-append k j v w [] h = absurd (cc)
  get-append k j v w ((i, u) ∷ m) h = ground (arith, get-append k j v w m)

  last-entry :
      (k : String) (v : V) (m : Map String V)
      → get k m ≡ none
      → (get k (m ++ ((k, v) ∷ [])) ≡ some v) × (newer k (m ++ ((k, v) ∷ [])) ≡ 0)
  unfolding get
  last-entry k v [] h = ground (arith, ==_iff k k)
  last-entry k v ((i, u) ∷ m) h = ground (arith, last-entry k v m)

  -- The key is held, with at most `n` entries used after it.
  record IsRecent (k : String) (v : V) (n : ℕ) (c : LruEmbedCache V) : Type ℓ where
    held : get k c.entries ≡ some v
    newer : newer k c.entries ≤ n

  -- A call that is neither a `clear` nor a write of the key.
  abbrev Spares : String → Op V → Type 0
  Spares k (reads key) = Unit
  Spares k (writes key vec) = key ≢ k
  Spares k clears = ⊥

  lookup-IsRecent :
      (k j : String) (v : V) (n : ℕ) (c : LruEmbedCache V)
      → IsRecent k v n c
      → IsRecent k v (n + 1) (lookup j c).1
  unfolding lookup
  lookup-IsRecent k j v n c r = elim (Option-cases (get j c.entries)) [
    | inl e ↦ rw (e, lookup) (record { held = r.held; newer = omega (arith, r.newer) })
    | inr (w, e) ↦
        let gone : get j (delete j c.entries) ≡ none =
          ground (arith, get-delete j j c.entries, ==_iff j j) in
        rw (e, lookup, set-append j w (delete j c.entries) gone)
          (elim (Bool-cases (j == k)) [
            | inl same ↦
                let (h, z) = last-entry j w (delete j c.entries) gone in
                let p : j ≡ k = (==_iff j k).0 same in
                let q : some w ≡ some v = sym e ∙ ap (λ i. get i c.entries) p ∙ r.held in
                record {
                  held =
                      subst (λ i. get i (delete j c.entries ++ ((j, w) ∷ [])) ≡ some v) p (h ∙ q);
                  newer =
                      subst (λ i. newer i (delete j c.entries ++ ((j, w) ∷ [])) ≤ n + 1) p
                        (omega (arith, z));
                }
            | inr other ↦
                let kept : get k (delete j c.entries) ≡ some v =
                  ground (arith, get-delete j k c.entries, other, r.held) in
                let ne : j ≢ k = λ p. ground (arith, other, p, ==_iff j k) in
                record {
                  held = get-append k j v w (delete j c.entries) kept;
                  newer = omega (
                    arith,
                    newer-append k j v w (delete j c.entries) kept,
                    newer-delete k j c.entries ne,
                    r.newer,
                  );
                }
          ])
  ]

  store-IsRecent :
      (k j : String) (v w : V) (n : ℕ) (c : LruEmbedCache V)
      → IsBounded c
      → j ≢ k
      → n + 1 < c.max_items
      → IsRecent k v n c
      → IsRecent k v (n + 1) (store j w c)
  store-IsRecent k j v w n c b ne l r =
      store_cases (IsRecent k v (n + 1)) j w c b
        (λ _. record { held = r.held; newer = omega (arith, r.newer) })
        (λ _ _.
          let kept : get k (delete j c.entries) ≡ some v =
            ground (arith, get-delete j k c.entries, ==_iff j k, ne, r.held) in
          record {
            held = get-append k j v w (delete j c.entries) kept;
            newer = omega (
              arith,
              newer-append k j v w (delete j c.entries) kept,
              newer-delete k j c.entries ne,
              r.newer,
            );
          })
        (λ room new full.
          let (kept, z) = newer-drop k v c.entries r.held (omega (arith, r.newer, full, l)) in
          record {
            held = get-append k j v w (drop 1 c.entries) kept;
            newer = omega (arith, newer-append k j v w (drop 1 c.entries) kept, z, r.newer);
          })

  -- The vector that was just written is held, with none used after it.
  written-IsRecent :
      (k : String) (v : V) (c : LruEmbedCache V)
      → IsBounded c
      → 0 < c.max_items
      → IsRecent k v 0 (store k v c)
  written-IsRecent k v c b room =
      store_cases (IsRecent k v 0) k v c b (λ z. absurd (omega (arith, z, room)))
        (λ _ _.
          let (h, z) =
            last-entry k v (delete k c.entries)
              (ground (arith, get-delete k k c.entries, ==_iff k k)) in
          record { held = h; newer = omega (arith, z) })
        (λ _ new full.
          let (h, z) = last-entry k v (drop 1 c.entries) (get-drop k c.entries new) in
          record { held = h; newer = omega (arith, z) })

  run-IsRecent :
      (k : String) (v : V) (n : ℕ) (ops : List (Op V)) (c : LruEmbedCache V)
      → IsBounded c
      → All (Spares k) ops
      → n + length ops < c.max_items
      → IsRecent k v n c
      → IsRecent k v (n + length ops) (run ops c)
  run-IsRecent k v n [] c b a l r = record { held = r.held; newer = omega (arith, r.newer) }
  run-IsRecent k v n (op ∷ ops) c b a l r =
      subst (λ m. IsRecent k v m (run ops (step op c))) (omega arith)
        (run-IsRecent k v (n + 1) ops (step op c) (step-IsBounded op c b) a.1
          (omega (arith, l, step-max_items op c b)) (one op a.0))
    where
      one : (o : Op V) → Spares k o → IsRecent k v (n + 1) (step o c)
      one (reads j) s = lookup-IsRecent k j v n c r
      one (writes j w) s = store-IsRecent k j v w n c b s (omega (arith, l)) r
      one clears s = absurd s

  -- A vector that was written stays for at least `maxItems - 1` further calls: after fewer than
  -- `maxItems` calls, none of which clears the cache or writes the key, `get` returns it.
  pub stays_recent :
      (k : String) (v : V) (ops : List (Op V)) (c : LruEmbedCache V)
      → IsBounded c
      → All (Spares k) ops
      → length ops < c.max_items
      → (lookup k (run ops (store k v c))).0 ≡ some v
  unfolding lookup
  stays_recent k v ops c b a l =
      let r =
        run-IsRecent k v 0 ops (store k v c) (store-IsBounded k v c b) a
          (omega (arith, l, step-max_items (writes k v) c b))
          (written-IsRecent k v c b (omega (arith, l))) in
      rw (r.held, lookup) refl
