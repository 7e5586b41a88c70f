-- ===== src/Embedding/Cache/Histories.antt =====
-- `LruEmbedCache`: histories of calls.
use memos_qdrant.Shared.{
  ◌∙◌, ◌/◌, ℕ, suc, ◌+◌, ◌≤◌, String, ◌≡◌, refl, subst, some, List, [], ◌∷◌, string_eq, arith,
  length, Option-cases, inl, inr,
}
use memos_qdrant.Shared.Keyed.{get, Distinct}
use memos_qdrant.Embedding.Cache.{LruEmbedCache, fraction, create, lookup, store, clear}
use memos_qdrant.Embedding.Cache.Bounds.{IsBounded, store-IsBounded, lookup-IsBounded, store_cases}

pub data Op {ℓ} (V : Type ℓ) : Type ℓ where
  reads : String → Op V
  writes : String → V → Op V
  clears : Op V

module _ {ℓ} {V : Type ℓ} where
  abbrev pub step : Op V → LruEmbedCache V → LruEmbedCache V
  step (reads key) c = (lookup key c).1
  step (writes key vec) c = store key vec c
  step clears c = clear c

  abbrev pub run : List (Op V) → LruEmbedCache V → LruEmbedCache V
  run [] c = c
  run (op ∷ ops) c = run ops (step op c)

  pub step-IsBounded : (op : Op V) (c : LruEmbedCache V) → IsBounded c → IsBounded (step op c)
  unfolding clear
  step-IsBounded (reads key) c b = lookup-IsBounded key c b
  step-IsBounded (writes key vec) c b = store-IsBounded key vec c b
  step-IsBounded clears c b = record { within = omega arith; distinct = tt }

  pub run-IsBounded :
      (ops : List (Op V)) (c : LruEmbedCache V) → IsBounded c → IsBounded (run ops c)
  run-IsBounded [] c b = b
  run-IsBounded (op ∷ ops) c b = run-IsBounded ops (step op c) (step-IsBounded op c b)

  -- The reads since the last `clear`.
  abbrev pub reads_since_clear : ℕ → List (Op V) → ℕ
  reads_since_clear n [] = n
  reads_since_clear n (reads key ∷ ops) = reads_since_clear (n + 1) ops
  reads_since_clear n (writes key vec ∷ ops) = reads_since_clear n ops
  reads_since_clear n (clears ∷ ops) = reads_since_clear 0 ops

  store-counters :
      (key : String) (vec : V) (c : LruEmbedCache V)
      → IsBounded c
      → ((store key vec c).hits ≡ c.hits) × ((store key vec c).misses ≡ c.misses)
  store-counters key vec c b =
      store_cases (λ d. (d.hits ≡ c.hits) × (d.misses ≡ c.misses)) key vec c b (λ _. (refl, refl))
        (λ _ _. (refl, refl)) (λ _ _ _. (refl, refl))

  lookup-counters :
      (key : String) (c : LruEmbedCache V)
      → (lookup key c).1.hits + (lookup key c).1.misses ≡ c.hits + c.misses + 1
  unfolding lookup
  lookup-counters key c = elim (Option-cases (get key c.entries)) [
    | inl e ↦ rw (e, lookup) (omega arith)
    | inr (v, e) ↦ rw (e, lookup) (omega arith)
  ]

  run-counters :
      (ops : List (Op V)) (c : LruEmbedCache V)
      → IsBounded c
      → (run ops c).hits + (run ops c).misses ≡ reads_since_clear (c.hits + c.misses) ops
  unfolding clear
  run-counters [] c b = refl
  run-counters (reads key ∷ ops) c b =
      subst
        (λ n.
          (run ops (lookup key c).1).hits + (run ops (lookup key c).1).misses
          ≡ reads_since_clear n ops)
        (lookup-counters key c) (run-counters ops (lookup key c).1 (lookup-IsBounded key c b))
  run-counters (writes key vec ∷ ops) c b =
      let (h, m) = store-counters key vec c b in
      subst
        (λ n.
          (run ops (store key vec c)).hits + (run ops (store key vec c)).misses
          ≡ reads_since_clear n ops)
        (omega (arith, h, m)) (run-counters ops (store key vec c) (store-IsBounded key vec c b))
  run-counters (clears ∷ ops) c b = run-counters ops (clear c) (step-IsBounded clears c b)

  pub step-max_items :
      (op : Op V) (c : LruEmbedCache V) → IsBounded c → (step op c).max_items ≡ c.max_items
  unfolding lookup clear
  step-max_items (reads key) c b = elim (Option-cases (get key c.entries)) [
    | inl e ↦ rw (step, e, lookup) refl
    | inr (v, e) ↦ rw (step, e, lookup) refl
  ]
  step-max_items (writes key vec) c b =
      store_cases (λ d. d.max_items ≡ c.max_items) key vec c b (λ _. refl) (λ _ _. refl)
        (λ _ _ _. refl)
  step-max_items clears c b = refl

  run-max_items :
      (ops : List (Op V)) (c : LruEmbedCache V) → IsBounded c → (run ops c).max_items ≡ c.max_items
  run-max_items [] c b = refl
  run-max_items (op ∷ ops) c b =
      run-max_items ops (step op c) (step-IsBounded op c b) ∙ step-max_items op c b

  -- A cache that the constructor made for `maxItems`, after any history of calls: it holds at
  -- most floor(maxItems) vectors, no key twice, and the hits and misses add up to the calls of
  -- `get` since the last `clear`.
  pub history_bounds :
      (n d : ℕ) (c : LruEmbedCache V) (ops : List (Op V))
      → create (fraction n d) ≡ some c
      → (length (run ops c).entries ≤ n / suc d)
        × Distinct (run ops c).entries
        × ((run ops c).hits + (run ops c).misses ≡ reads_since_clear 0 ops)
  unfolding create
  history_bounds n d c ops h =
      let made : record { entries = []; max_items = n / suc d; hits = 0; misses = 0; evictions = 0 }
          ≡ c =
        cc h in
      subst
        (λ c'.
          (length (run ops c').entries ≤ n / suc d)
          × Distinct (run ops c').entries
          × ((run ops c').hits + (run ops c').misses ≡ reads_since_clear 0 ops))
        made (go _ (record { within = omega arith; distinct = tt }) refl refl)
    where
      go :
          (c' : LruEmbedCache V)
          → IsBounded c'
          → c'.max_items ≡ n / suc d
          → c'.hits + c'.misses ≡ 0
          → (length (run ops c').entries ≤ n / suc d)
            × Distinct (run ops c').entries
            × ((run ops c').hits + (run ops c').misses ≡ reads_since_clear 0 ops)
      go c' b m z =
          let b' = run-IsBounded ops c' b in
          (
            omega (arith, b'.within, run-max_items ops c' b, m),
            b'.distinct,
            subst (λ k. (run ops c').hits + (run ops c').misses ≡ reads_since_clear k ops) z
                (run-counters ops c' b),
          )
