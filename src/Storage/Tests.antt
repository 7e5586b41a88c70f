-- ===== src/Storage/Tests.antt =====
-- core/storage/tx.ts, migrator.ts and vector.ts: runs at concrete inputs.
use memos_qdrant.Shared.{
  ℕ, ◌+◌, ◌≤◌, ◌≡◌, refl, none, some, List, [], ◌∷◌, if◌then◌else◌, leb, Bool, false, Option,
  String, ◌==◌, ◌&&◌, not, ◌++◌, string_eq,
}
use memos_qdrant.Storage.Tx.{
  Outcome, returned, threw, Connection, build_in_clause, with_retry, savepoint, with_savepoint,
}
use memos_qdrant.Storage.Migrator.{
  MigrationFile, MigrationsResult, Db, discover_migrations, run_files, run_found, run_migrations,
}
use memos_qdrant.Storage.Migrator.Rerun.{run_migrations-again}
use memos_qdrant.Storage.Tx.Name.{is_savepoint_name}
use memos_qdrant.Storage.Tx.Retry.{after, busy_calls, with_retry_lem}
use memos_qdrant.Storage.Tx.Savepoints.{tables_after, with_savepoint_lem}
use memos_qdrant.Shared.{arith, true, ◌-◌, ◌*◌, ◌/◌, max, min, map, ltb, nat_eq, nat_beq}
use memos_qdrant.Shared.Num.{Arith, OrderLaws}
use memos_qdrant.Storage.Vector.{norm2}
use memos_qdrant.Storage.Vector.TopK.{VectorRow, VectorHit, with_norm2, top_k_cosine}
use memos_qdrant.Storage.Vector.TopK.Sorted.{candidates, IsTop}
use memos_qdrant.Storage.Vector.TopK.Best.{top_k_lem}

clause : build_in_clause 3 ≡ "IN (?,?,?)"
unfolding build_in_clause
clause = refl

abbrev items : List ℕ
items = 1 ∷ 2 ∷ 3 ∷ []

-- A call that finds the database busy twice.
abbrev locked : ℕ → Outcome ℕ × ℕ
locked s = (if leb 2 s then returned s else threw (some "SQLITE_BUSY"), s + 1)

with_retry_lem_example :
    (with_retry (some 3) locked 0 ≡ locked (after locked (busy_calls locked 2 0) 0))
    × (busy_calls locked 2 0 ≤ 2)
with_retry_lem_example = with_retry_lem locked 2 0

-- A function that writes and throws.
abbrev fails : Connection ℕ → Outcome ℕ × Connection ℕ
fails c = (threw none, record c { tables = 7 })

abbrev connection : Connection ℕ
connection = record { tables = 1; savepoints = [] }

with_savepoint_lem_example : with_savepoint "merge" fails connection ≡ (
    if is_savepoint_name "merge"
    then (
      (fails (savepoint "merge" connection)).0,
      record {
        tables =
            tables_after
              (fails (savepoint "merge" connection)).0
              1
              (fails (savepoint "merge" connection)).1.tables;
        savepoints = [];
      },
    )
    else (threw none, connection))
with_savepoint_lem_example = with_savepoint_lem "merge" fails connection refl

-- Scripts that are their paths; the empty one fails.
abbrev script : String → String
script path = path

abbrev is_unsafe : String → Bool
is_unsafe sql = sql == "swap"

abbrev run_script : Bool → String → List String → Option (List String)
run_script unsafe sql schema =
    if sql == ""
    then none
    else if sql == "swap" && not unsafe
    then none
    else some (schema ++ (sql ∷ []))

abbrev files : List MigrationFile
files =
    record { version = 2; name = "b"; full_path = "swap" }
    ∷ record { version = 1; name = "a"; full_path = "create" }
    ∷ []

abbrev empty_db : Db (List String) script is_unsafe run_script
empty_db = record {
  schema = [];
  schema_migrations = [];
  clock = λ k. k;
  clock_calls = 0;
  unsafe_mode = false;
  ready = false;
}

abbrev first_run : MigrationsResult
first_run = record {
  applied =
      record { version = 1; name = "a"; started = 0; ended = 2 }
      ∷ record { version = 2; name = "b"; started = 3; ended = 5 }
      ∷ [];
  skipped = 0;
  total = 2;
}

runs : (run_migrations (List String) script is_unsafe run_script files empty_db).0 ≡ some first_run
unfolding run_migrations run_found run_files discover_migrations
runs = refl

run_migrations-again_example :
    run_migrations
      (List String)
      script
      is_unsafe
      run_script
      files
      (run_migrations (List String) script is_unsafe run_script files empty_db).1
    ≡ (
      some (record { applied = []; skipped = 2; total = 2 }),
      (run_migrations (List String) script is_unsafe run_script files empty_db).1,
    )
run_migrations-again_example =
    run_migrations-again (List String) script is_unsafe run_script files empty_db first_run runs

-- Natural numbers, each with a root of one.
abbrev naturals : Arith
naturals = record {
  Num = ℕ;
  is_finite = λ x. true;
  lt = ltb;
  le = leb;
  eq = nat_beq;
  add = λ x y. x + y;
  sub = λ x y. x - y;
  mul = λ x y. x * y;
  div = λ x y. x / y;
  max = max;
  min = min;
  pow = λ x y. 1;
  sqrt = λ x. 1;
  abs = λ x. x;
  of_nat = λ x. x;
  neg_infinity = 0;
}

difference : (x y : ℕ) → ltb 0 (y - x) ≡ ltb x y
difference x y = ground arith

abbrev order : OrderLaws naturals
order = record {
  key = λ x. x;
  le_key = λ x y a b. refl;
  lt_key = λ x y a b. refl;
  sub_sign = λ x y a b. difference x y;
}

abbrev row : String → List ℕ → VectorRow naturals ℕ
row id vec = record { id = id; vec = vec; norm2 = none; meta = 0 }

-- Two rows with one score, a row of another dimension, and the best row.
abbrev rows : List (VectorRow naturals ℕ)
rows = row "a" (1 ∷ []) ∷ row "b" (1 ∷ []) ∷ row "x" (5 ∷ 5 ∷ []) ∷ row "c" (2 ∷ []) ∷ []

abbrev ids : Option (List (VectorHit naturals ℕ) × List (VectorRow naturals ℕ)) → List String
ids none = []
ids (some r) = map (λ (h : VectorHit naturals ℕ). h.id) r.0

-- Of the two rows with one score, the later one is kept.
later_tie : ids (top_k_cosine naturals (1 ∷ []) rows 2) ≡ "c" ∷ "b" ∷ []
unfolding top_k_cosine
later_tie = refl

top_k_lem_example :
    (out : List (VectorHit naturals ℕ)) × (top_k_cosine naturals (1 ∷ []) rows 2
      ≡ some (out, map (with_norm2 naturals (1 ∷ [])) rows))
    × IsTop naturals order 2 (candidates naturals order (1 ∷ []) rows) out
unfolding norm2
top_k_lem_example =
    top_k_lem naturals order (1 ∷ []) rows 2 (omega arith) refl (refl, (refl, (refl, tt)))
