-- ===== src/Embedding/Cache/Bounds.antt =====
-- `LruEmbedCache`: the size stays within `maxItems`, no key stands twice, the counters add up.
use memos_qdrant.Shared.{
  sym, subst, ltb→lt, ℕ, ◌+◌, ◌≤◌, ◌<◌, String, ◌≡◌, refl, false, none, some, [], ◌∷◌, ◌++◌,
  string_eq, arith, length, ltb, nat_beq, if◌then◌else◌, Bool-cases, Option-cases, inl, inr, ◌==◌,
  ==_iff, drop, length-append,
}
use memos_qdrant.Shared.Keyed.{Map, get, set, delete, has, get-delete, Distinct, set-Distinct}
use memos_qdrant.Embedding.Cache.{LruEmbedCache, lookup, evict, store}

module _ {ℓ} {V : Type ℓ} where
  pub delete-Distinct : (k : String) (m : Map String V) → Distinct m → Distinct (delete k m)
  unfolding delete
  delete-Distinct k [] d = tt
  delete-Distinct k ((j, w) ∷ m) d = elim (Bool-cases (j == k)) [
    | inl e ↦ rw e (delete-Distinct k m d.1)
    | inr e ↦ rw e (ground (arith, get-delete k j m, d.0), delete-Distinct k m d.1)
  ]

  -- A key that is absent goes to the end.
  pub set-append :
      (k : String) (v : V) (m : Map String V) → get k m ≡ none → set k v m ≡ m ++ ((k, v) ∷ [])
  unfolding get set
  set-append k v [] h = refl
  set-append k v ((j, w) ∷ m) h = ground (arith, set-append k v m)

  pub delete-absent : (k : String) (m : Map String V) → get k m ≡ none → delete k m ≡ m
  unfolding get delete
  delete-absent k [] h = refl
  delete-absent k ((j, w) ∷ m) h = ground (arith, delete-absent k m)

  pub length-delete :
      (k : String) (v : V) (m : Map String V)
      → Distinct m
      → get k m ≡ some v
      → length (delete k m) + 1 ≡ length m
  unfolding get delete
  length-delete k v [] d h = absurd (cc)
  length-delete k v ((j, w) ∷ m) d h = elim (Bool-cases (j == k)) [
    | inl e ↦ ground (arith, e, ==_iff j k, delete-absent k m, d.0)
    | inr e ↦ ground (arith, e, length-delete k v m d.1)
  ]

  -- Within the bound nothing is evicted; one entry over it, the first one goes.
  pub evict-within : (n : ℕ) (m : Map String V) (ev : ℕ) → length m ≤ n → evict n m ev ≡ (m, ev)
  unfolding evict
  evict-within n [] ev h = refl
  evict-within n ((k, v) ∷ m) ev h = ground arith

  pub evict-over :
      (n : ℕ) (k : String) (v : V) (m : Map String V) (ev : ℕ)
      → length m ≡ n
      → evict n ((k, v) ∷ m) ev ≡ (m, ev + 1)
  unfolding evict
  evict-over n k v m ev h = ground (arith, evict-within n m (ev + 1))

-- What `LruEmbedCache` keeps.
pub record IsBounded {ℓ} {V : Type ℓ} (c : LruEmbedCache V) : Type ℓ where
  pub within : length c.entries ≤ c.max_items
  pub distinct : Distinct c.entries

module _ {ℓ} {V : Type ℓ} (key : String) (vec : V) (c : LruEmbedCache V) (b : IsBounded c)
    (room : 0 < c.max_items) where
  -- The entries before the loop of `set`.
  grown :
      set key vec (if has key c.entries then delete key c.entries else c.entries)
      ≡ delete key c.entries ++ ((key, vec) ∷ [])
  unfolding has
  grown = elim (Option-cases (get key c.entries)) [
    | inl e ↦ rw (e, has, delete-absent key c.entries e) (set-append key vec c.entries e)
    | inr (w, e) ↦
        rw (e, has)
          (set-append key vec (delete key c.entries)
            (ground (arith, get-delete key key c.entries, ==_iff key key)))
  ]

  -- A key that is held, or a cache that is not full: nothing is evicted.
  pub store-keeps :
      (get key c.entries ≡ none → length c.entries < c.max_items)
      → store key vec c ≡ record c { entries = delete key c.entries ++ ((key, vec) ∷ []) }
  unfolding store
  store-keeps free =
      let size : length (delete key c.entries ++ ((key, vec) ∷ [])) ≤ c.max_items =
        elim (Option-cases (get key c.entries)) [
          | inl e ↦
              rw (delete-absent key c.entries e)
                (omega (arith, free e, length-append c.entries ((key, vec) ∷ [])))
          | inr (w, e) ↦ omega (
            arith,
            length-append (delete key c.entries) ((key, vec) ∷ []),
            length-delete key w c.entries b.distinct e,
            b.within,
          )
        ] in
      let e : nat_beq c.max_items 0 ≡ false = ground arith in
      rw (e, grown, evict-within c.max_items _ c.evictions size) refl

  -- A new key in a full cache: the first entry goes.
  pub store-evicts :
      get key c.entries ≡ none
      → length c.entries ≡ c.max_items
      → store key vec c
        ≡ record c { entries = drop 1 c.entries ++ ((key, vec) ∷ []); evictions = c.evictions + 1 }
  unfolding store
  store-evicts new full =
      let e : nat_beq c.max_items 0 ≡ false = ground arith in
      rw (e, grown, delete-absent key c.entries new) (go c.entries full)
    where
      go :
          (m : Map String V)
          → length m ≡ c.max_items
          → record c {
            entries = (evict c.max_items (m ++ ((key, vec) ∷ [])) c.evictions).0;
            evictions = (evict c.max_items (m ++ ((key, vec) ∷ [])) c.evictions).1;
          }
            ≡ record c { entries = drop 1 m ++ ((key, vec) ∷ []); evictions = c.evictions + 1 }
      go [] h = absurd (omega (arith, h, room))
      go ((j, w) ∷ m) h =
          rw
            (evict-over c.max_items j w (m ++ ((key, vec) ∷ [])) c.evictions
              (omega (arith, h, length-append m ((key, vec) ∷ []))))
            refl

module _ {ℓ} {V : Type ℓ} where
  append-Distinct :
      (k : String) (v : V) (m : Map String V)
      → Distinct m
      → get k m ≡ none
      → Distinct (m ++ ((k, v) ∷ []))
  append-Distinct k v m d h = subst Distinct (set-append k v m h) (set-Distinct k v m d)

  drop-Distinct : (m : Map String V) → Distinct m → Distinct (drop 1 m)
  drop-Distinct [] d = tt
  drop-Distinct ((j, w) ∷ m) d = d.1

  pub get-drop : (k : String) (m : Map String V) → get k m ≡ none → get k (drop 1 m) ≡ none
  unfolding get
  get-drop k [] h = h
  get-drop k ((j, w) ∷ m) h = ground arith

  moved-Distinct :
      (k : String) (v : V) (m : Map String V) → Distinct m → Distinct (delete k m ++ ((k, v) ∷ []))
  moved-Distinct k v m d =
      append-Distinct k v (delete k m) (delete-Distinct k m d)
        (ground (arith, get-delete k k m, ==_iff k k))

  length-drop1 : (m : Map String V) → 0 < length m → length (drop 1 m) + 1 ≡ length m
  length-drop1 [] h = absurd (omega (arith, h))
  length-drop1 (x ∷ m) h = omega arith

  -- What the write of a key does to the cache, in its three cases.
  pub store_cases {κ} :
      (P : LruEmbedCache V → Type κ) (key : String) (vec : V) (c : LruEmbedCache V)
      → IsBounded c
      → (c.max_items ≡ 0 → P c)
      → (0 < c.max_items
          → (get key c.entries ≡ none → length c.entries < c.max_items)
          → P (record c { entries = delete key c.entries ++ ((key, vec) ∷ []) }))
      → (0 < c.max_items
          → get key c.entries ≡ none
          → length c.entries ≡ c.max_items
          → P (record c {
            entries = drop 1 c.entries ++ ((key, vec) ∷ []);
            evictions = c.evictions + 1;
          }))
      → P (store key vec c)
  unfolding store
  store_cases P key vec c b off keeps evicts = elim (Bool-cases (nat_beq c.max_items 0)) [
    | inl e ↦ rw (e, store) (off (ground (arith, e)))
    | inr e ↦
        let room : 0 < c.max_items = ground (arith, e) in
        elim (Bool-cases (ltb (length c.entries) c.max_items)) [
          | inl l ↦
              subst P (sym (store-keeps key vec c b room (λ _. ltb→lt _ _ l)))
                (keeps room (λ _. ltb→lt _ _ l))
          | inr l ↦ elim (Option-cases (get key c.entries)) [
            | inl n ↦
                let full : length c.entries ≡ c.max_items = ground (arith, l, b.within) in
                subst P (sym (store-evicts key vec c b room n full)) (evicts room n full)
            | inr (w, s) ↦
                let held : get key c.entries ≡ none → length c.entries < c.max_items =
                  λ n. absurd (cc (s, n)) in
                subst P (sym (store-keeps key vec c b room held)) (keeps room held)
          ]
        ]
  ]

  pub store-IsBounded :
      (key : String) (vec : V) (c : LruEmbedCache V) → IsBounded c → IsBounded (store key vec c)
  store-IsBounded key vec c b =
      store_cases IsBounded key vec c b (λ _. b)
        (λ room free. record {
          within = elim (Option-cases (get key c.entries)) [
            | inl e ↦
                rw (delete-absent key c.entries e)
                  (omega (arith, free e, length-append c.entries ((key, vec) ∷ [])))
            | inr (w, e) ↦ omega (
              arith,
              length-append (delete key c.entries) ((key, vec) ∷ []),
              length-delete key w c.entries b.distinct e,
              b.within,
            )
          ];
          distinct = moved-Distinct key vec c.entries b.distinct;
        })
        (λ room new full. record {
          within = omega (
            arith,
            length-append (drop 1 c.entries) ((key, vec) ∷ []),
            length-drop1 c.entries (omega (arith, full, room)),
            full,
          );
          distinct =
              append-Distinct key vec (drop 1 c.entries) (drop-Distinct c.entries b.distinct)
                (get-drop key c.entries new);
        })

  pub lookup-IsBounded :
      (key : String) (c : LruEmbedCache V) → IsBounded c → IsBounded (lookup key c).1
  unfolding lookup
  lookup-IsBounded key c b = elim (Option-cases (get key c.entries)) [
    | inl e ↦ rw (e, lookup) (record { within = b.within; distinct = b.distinct })
    | inr (v, e) ↦
        let moved =
          set-append key v (delete key c.entries)
            (ground (arith, get-delete key key c.entries, ==_iff key key)) in
        rw (e, lookup, moved)
          (record {
            within = omega (
              arith,
              length-append (delete key c.entries) ((key, v) ∷ []),
              length-delete key v c.entries b.distinct e,
              b.within,
            );
            distinct = moved-Distinct key v c.entries b.distinct;
          })
  ]
