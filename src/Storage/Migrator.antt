-- ===== src/Storage/Migrator.antt =====
-- core/storage/migrator.ts: `discoverMigrations`, from the files whose names fit the pattern on,
-- and `runMigrations`. The text of a file, the test for `PRAGMA writable_schema` and what SQLite
-- does with a script are arguments; a script that fails throws.
pub mod Rerun
use memos_qdrant.Shared.{
  ℕ, ◌+◌, String, Bool, true, false, Option, none, some, List, [], ◌∷◌, ◌++◌, ◌==◌, ◌||◌, ◌&&◌, not,
  if◌then◌else◌, leb, length, map, nat_eq,
}

pub record MigrationFile : Type 0 where
  pub version : ℕ
  pub name : String
  pub full_path : String

pub record MigrationRow : Type 0 where
  pub version : ℕ
  pub name : String
  pub applied_at : ℕ

-- An entry of `applied`; `durationMs` is the difference of the two readings of the clock.
pub record Applied : Type 0 where
  pub version : ℕ
  pub name : String
  pub started : ℕ
  pub ended : ℕ

pub record MigrationsResult : Type 0 where
  pub applied : List Applied
  pub skipped : ℕ
  pub total : ℕ

abbrev pub holds : ℕ → List ℕ → Bool
holds v [] = false
holds v (w ∷ ws) = w == v || holds v ws

-- `files.sort((a, b) => a.version - b.version)`, which is stable
abbrev pub insert_file : MigrationFile → List MigrationFile → List MigrationFile
insert_file f [] = f ∷ []
insert_file f (g ∷ gs) = if leb f.version g.version then f ∷ g ∷ gs else g ∷ insert_file f gs

abbrev pub sort_files : List MigrationFile → List MigrationFile
sort_files [] = []
sort_files (f ∷ fs) = insert_file f (sort_files fs)

-- Whether `assertMonotonic` returns, with the versions seen so far.
abbrev pub monotonic : List ℕ → List MigrationFile → Bool
monotonic seen [] = true
monotonic seen (f ∷ fs) = not (holds f.version seen) && monotonic (f.version ∷ seen) fs

unfoldable pub discover_migrations : List MigrationFile → Option (List MigrationFile)
discover_migrations found =
    let files = sort_files found in if monotonic [] files then some files else none

module _ (S : Type 0) (read : String → String) (needs_unsafe : String → Bool)
    (exec : Bool → String → S → Option S) where
  pub record Db : Type 0 where
    pub schema : S
    pub schema_migrations : List MigrationRow
    pub clock : ℕ → ℕ
    pub clock_calls : ℕ
    pub unsafe_mode : Bool
    pub ready : Bool

  abbrev pub versions : List MigrationRow → List ℕ
  versions [] = []
  versions (r ∷ rs) = r.version ∷ versions rs

  abbrev pub tick : Db → Db
  tick db = record db { clock_calls = db.clock_calls + 1 }

  -- The transaction after `db.exec(sql)`. Where it throws, the tables are as before it.
  abbrev pub recorded : MigrationFile → ℕ → Db → Option S → Option Applied × Db
  recorded file t0 db none = (none, db)
  recorded file t0 db (some schema) =
      let done = tick db in
      if holds file.version (versions db.schema_migrations) then (none, done) else (
        some (record {
          version = file.version;
          name = file.name;
          started = t0;
          ended = db.clock done.clock_calls;
        }),
        record (tick done) {
          schema = schema;
          schema_migrations =
              db.schema_migrations
              ++ (record {
                version = file.version;
                name = file.name;
                applied_at = db.clock db.clock_calls;
              }
                  ∷ []);
        },
      )

  abbrev pub apply_file : MigrationFile → Db → Option Applied × Db
  apply_file file db =
      recorded file (db.clock db.clock_calls) (tick db)
        (exec db.unsafe_mode (read file.full_path) db.schema)

  -- The loop, with the versions that were applied before it, and `applied` and `skipped` so far.
  unfoldable pub run_files :
      List MigrationFile → List ℕ → List Applied → ℕ → Db → Option (List Applied × ℕ) × Db
  run_files [] before applied skipped db = (some (applied, skipped), db)
  run_files (f ∷ fs) before applied skipped db = elim (holds f.version before) [
    | true ↦ run_files fs before applied (skipped + 1) db
    | false ↦ elim (apply_file f db).0 [
      | none ↦ (none, (apply_file f db).1)
      | some a ↦ run_files fs before (applied ++ (a ∷ [])) skipped (apply_file f db).1
    ]
  ]

  abbrev pub some_unsafe : List ℕ → List MigrationFile → Bool
  some_unsafe before [] = false
  some_unsafe before (f ∷ fs) =
      not (holds f.version before) && needs_unsafe (read f.full_path) || some_unsafe before fs

  abbrev pub set_unsafe : Bool → Bool → Db → Db
  set_unsafe needed mode db = if needed then record db { unsafe_mode = mode } else db

  abbrev pub finished : ℕ → Option (List Applied × ℕ) × Db → Option MigrationsResult × Db
  finished total (none, db) = (none, db)
  finished total (some (applied, skipped), db) = (
    some (record { applied = applied; skipped = skipped; total = total }),
    record db { ready = true },
  )

  unfoldable pub run_found : Option (List MigrationFile) → Db → Option MigrationsResult × Db
  unfolding run_files
  run_found none db = (none, db)
  run_found (some files) db =
      let before = versions db.schema_migrations in
      let unsafe = some_unsafe before files in
      let (r, after) = run_files files before [] 0 (set_unsafe unsafe true db) in
      finished (length files) (r, set_unsafe unsafe false after)

  unfoldable pub run_migrations : List MigrationFile → Db → Option MigrationsResult × Db
  unfolding run_found
  run_migrations found db = run_found (discover_migrations found) db
