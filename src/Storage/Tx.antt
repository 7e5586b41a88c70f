-- ===== src/Storage/Tx.antt =====
-- core/storage/tx.ts: `chunkIn`, `buildInClause`, `withRetry` and `withSavepoint`. The function
-- that is run is a step on a state that returns or throws; a chunk size is at least one.
pub mod Name
pub mod Chunks
pub mod Retry
pub mod Savepoints
use Prim.Native.String.{◌++◌ as str_append}
use memos_qdrant.Shared.{
  ℕ, zero, suc, ◌+◌, String, ◌≡◌, Bool, true, false, Option, none, some, List, [], ◌∷◌, ◌++◌, ◌||◌,
  string_eq, ◌==◌, if◌then◌else◌, ltb, take, drop, length,
}
use memos_qdrant.Storage.Tx.Name.{is_savepoint_name}

-- The loop of `chunkIn` on a bound for the number of chunks; the chunk size is `suc size`.
abbrev pub chunks_from {ℓ} : {A : Type ℓ} → ℕ → ℕ → List A → List (List A)
chunks_from zero size items = []
chunks_from (suc fuel) size [] = []
chunks_from (suc fuel) size (x ∷ items) =
    take (suc size) (x ∷ items) ∷ chunks_from fuel size (drop (suc size) (x ∷ items))

-- As many rounds as there are items are enough, for each round takes one at least.
unfoldable pub chunk_in {ℓ} : {A : Type ℓ} → List A → ℕ → List (List A)
chunk_in items size = chunks_from (length items) size items

-- `new Array(n).fill("?").join(",")`
abbrev pub placeholders : ℕ → String
placeholders zero = ""
placeholders (suc n) = elim n [ zero ↦ "?" | suc m ↦ str_append "?," (placeholders n) ]

unfoldable pub build_in_clause : ℕ → String
build_in_clause zero = "IN (NULL)"
build_in_clause (suc n) = str_append "IN (" (str_append (placeholders (suc n)) ")")

-- The outcome of a call: it returns, or throws an error with its `code`.
pub data Outcome {ℓ} (A : Type ℓ) : Type ℓ where
  returned : A → Outcome A
  threw : Option String → Outcome A

abbrev pub is_busy : Option String → Bool
is_busy none = false
is_busy (some code) = code == "SQLITE_BUSY" || code == "SQLITE_LOCKED"

module _ {ℓ κ} {A : Type ℓ} {S : Type κ} where
  -- The body of the loop of `withRetry`, after its call: `again` is what the calls that are left
  -- give. A busy error on the last attempt is thrown like any other.
  abbrev pub retried : ℕ → Outcome A × S → Outcome A × S → Outcome A × S
  retried left (returned a, s) again = (returned a, s)
  retried zero (threw code, s) again = (threw code, s)
  retried (suc left) (threw code, s) again = if is_busy code then again else (threw code, s)

  abbrev pub retry_from : ℕ → (S → Outcome A × S) → S → Outcome A × S
  retry_from zero fn s = (threw none, s)
  retry_from (suc left) fn s = let again = retry_from left fn (fn s).1 in retried left (fn s) again

  -- `attempts` is three where it is not given. With no attempt at all, what is thrown has no code.
  unfoldable pub with_retry : Option ℕ → (S → Outcome A × S) → S → Outcome A × S
  with_retry none fn s = retry_from 3 fn s
  with_retry (some attempts) fn s = retry_from attempts fn s

-- A connection: the tables, and the savepoints with the tables that each restores, latest first.
pub record Connection {κ} (S : Type κ) : Type κ where
  pub tables : S
  pub savepoints : List (String × S)

module _ {κ} {S : Type κ} where
  -- `SAVEPOINT`, `ROLLBACK TO SAVEPOINT` and `RELEASE SAVEPOINT`: the last two drop what is later
  -- than the latest savepoint of the name, and RELEASE drops that one too.
  abbrev pub savepoint : String → Connection S → Connection S
  savepoint name c = record c { savepoints = (name, c.tables) ∷ c.savepoints }

  abbrev pub rollback_from : String → S → List (String × S) → Connection S
  rollback_from name tables [] = record { tables = tables; savepoints = [] }
  rollback_from name tables ((k, old) ∷ rest) =
      if k == name
      then record { tables = old; savepoints = (k, old) ∷ rest }
      else rollback_from name tables rest

  abbrev pub rollback_to : String → Connection S → Connection S
  rollback_to name c = rollback_from name c.tables c.savepoints

  abbrev pub released : String → List (String × S) → List (String × S)
  released name [] = []
  released name ((k, old) ∷ rest) = if k == name then rest else released name rest

  abbrev pub release : String → Connection S → Connection S
  release name c = record c { savepoints = released name c.savepoints }

module _ {ℓ κ} {A : Type ℓ} {S : Type κ} where
  abbrev pub unwound : String → Outcome A × Connection S → Outcome A × Connection S
  unwound name (returned a, c) = (returned a, release name c)
  unwound name (threw code, c) = (threw code, release name (rollback_to name c))

  -- What is thrown for a name that is no identifier has no code.
  unfoldable pub with_savepoint :
      String → (Connection S → Outcome A × Connection S) → Connection S → Outcome A × Connection S
  with_savepoint name fn c =
      if is_savepoint_name name then unwound name (fn (savepoint name c)) else (threw none, c)
