-- ===== src/Storage/Tx/Retry.antt =====
-- core/storage/tx.ts: which call `withRetry` settles on.
use memos_qdrant.Shared.{
  ℕ, zero, suc, ◌≤◌, ◌≡◌, refl, ◌∙◌, Bool, true, false, none, some, if◌then◌else◌, Bool-cases, inl,
  inr, arith,
}
use memos_qdrant.Storage.Tx.{Outcome, returned, threw, is_busy, retried, retry_from, with_retry}

module _ {ℓ κ} {A : Type ℓ} {S : Type κ} (fn : S → Outcome A × S) where
  -- The state after some calls.
  abbrev pub after : ℕ → S → S
  after zero s = s
  after (suc k) s = after k (fn s).1

  abbrev pub busy : Outcome A → Bool
  busy (returned a) = false
  busy (threw code) = is_busy code

  -- How many of the first `n` calls report that the database is busy, in a row.
  abbrev pub busy_calls : ℕ → S → ℕ
  busy_calls zero s = 0
  busy_calls (suc n) s = let rest = busy_calls n (fn s).1 in if busy (fn s).0 then suc rest else 0

  settled : (n : ℕ) (r again : Outcome A × S) → busy r.0 ≡ false → retried n r again ≡ r
  settled n (returned a, s) again h = refl
  settled zero (threw code, s) again h = refl
  settled (suc n) (threw code, s) again h = rw h refl

  last_call : (r again : Outcome A × S) → retried 0 r again ≡ r
  last_call (returned a, s) again = refl
  last_call (threw code, s) again = refl

  goes_on : (n : ℕ) (r again : Outcome A × S) → busy r.0 ≡ true → retried (suc n) r again ≡ again
  goes_on n (returned a, s) again h = absurd (cc h)
  goes_on n (threw code, s) again h = rw h refl

  -- With `n + 1` attempts, `withRetry` has the outcome and the state of one call: the first one
  -- that does not report a busy database, or the last one where all before it do. It makes at
  -- most `n + 1` calls.
  pub with_retry_lem :
      (n : ℕ) (s : S)
      → (with_retry (some (suc n)) fn s ≡ fn (after (busy_calls n s) s)) × (busy_calls n s ≤ n)
  unfolding with_retry
  with_retry_lem zero s = (last_call (fn s) (threw none, (fn s).1), omega arith)
  with_retry_lem (suc n) s = elim (Bool-cases (busy (fn s).0)) [
    | inr e ↦
        rw (busy_calls, e) (settled (suc n) (fn s) (retry_from (suc n) fn (fn s).1) e, omega arith)
    | inl e ↦
        let (same, l) = with_retry_lem n (fn s).1 in
        rw (busy_calls, e)
          (goes_on n (fn s) (retry_from (suc n) fn (fn s).1) e ∙ same, omega (arith, l))
  ]
