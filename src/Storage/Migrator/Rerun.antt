-- ===== src/Storage/Migrator/Rerun.antt =====
-- core/storage/migrator.ts: a run after a run.
use memos_qdrant.Shared.{
  ℕ, ◌+◌, String, ◌≡◌, refl, sym, ap, subst, ◌∙◌, Bool, true, false, Option, none, some, List, [],
  ◌∷◌, ◌++◌, ==-self, ◌||◌, length, nat_eq, All, Option-cases, Bool-cases, inl, inr, arith,
}
use memos_qdrant.Storage.Migrator.{
  MigrationFile, MigrationRow, Applied, MigrationsResult, holds, discover_migrations, Db, versions,
  recorded, apply_file, run_files, some_unsafe, set_unsafe, finished, run_found, run_migrations,
}

holds-append : (v : ℕ) (ws us : List ℕ) → holds v (ws ++ us) ≡ (holds v ws || holds v us)
holds-append v [] us = refl
holds-append v (w ∷ ws) us = ground (arith, holds-append v ws us)

module _ (S : Type 0) (read : String → String) (needs_unsafe : String → Bool)
    (exec : Bool → String → S → Option S) where
  abbrev the_versions : Db S read needs_unsafe exec → List ℕ
  the_versions db = versions S read needs_unsafe exec db.schema_migrations

  versions-append :
      (rs ss : List MigrationRow)
      → versions S read needs_unsafe exec (rs ++ ss)
        ≡ versions S read needs_unsafe exec rs ++ versions S read needs_unsafe exec ss
  versions-append [] ss = refl
  versions-append (r ∷ rs) ss = ap (◌∷◌ r.version) (versions-append rs ss)

  none-some : {A : Type 0} (a : A) → none ≡ some a → ⊥
  none-some a h = cc h

  -- A file that was applied has its version in the table, after the ones that were there.
  recorded-versions :
      (f : MigrationFile) (t0 : ℕ) (db : Db S read needs_unsafe exec) (o : Option S) (a : Applied)
      → (recorded S read needs_unsafe exec f t0 db o).0 ≡ some a
      → the_versions (recorded S read needs_unsafe exec f t0 db o).1
        ≡ the_versions db ++ (f.version ∷ [])
  recorded-versions f t0 db none a h = absurd (cc h)
  recorded-versions f t0 db (some s) a h = elim (Bool-cases (holds f.version (the_versions db))) [
    | inl e ↦ absurd (none-some a (sym (rw e refl) ∙ h))
    | inr e ↦ simp e (versions-append db.schema_migrations _)
  ]

  -- One that threw leaves the table.
  recorded-stops :
      (f : MigrationFile) (t0 : ℕ) (db : Db S read needs_unsafe exec) (o : Option S)
      → (recorded S read needs_unsafe exec f t0 db o).0 ≡ none
      → the_versions (recorded S read needs_unsafe exec f t0 db o).1 ≡ the_versions db
  recorded-stops f t0 db none h = refl
  recorded-stops f t0 db (some s) h = elim (Bool-cases (holds f.version (the_versions db))) [
    | inl e ↦ simp e refl
    | inr e ↦ let g = rw e at h in absurd (none-some _ (sym g))
  ]

  keeps :
      (v : ℕ) (fs : List MigrationFile) (before : List ℕ) (applied : List Applied) (skipped : ℕ)
      (db : Db S read needs_unsafe exec)
      → holds v (the_versions db) ≡ true
      → holds v (the_versions (run_files S read needs_unsafe exec fs before applied skipped db).1)
        ≡ true
  unfolding run_files
  keeps v [] before applied skipped db h = h
  keeps v (f ∷ fs) before applied skipped db h = elim (Bool-cases (holds f.version before)) [
    | inl e ↦ simp (run_files, e) (keeps v fs before applied (skipped + 1) db h)
    | inr e ↦ elim (Option-cases (apply_file S read needs_unsafe exec f db).0) [
      | inl q ↦ simp (run_files, e, q) (ap (holds v) (recorded-stops f _ _ _ q) ∙ h)
      | inr (a, q) ↦
          let r = recorded-versions f _ _ _ a q in
          simp (run_files, e, q)
            (keeps v fs before (applied ++ (a ∷ [])) skipped _
              (ap (holds v) r ∙ holds-append v (the_versions db) (f.version ∷ []) ∙ simp h refl))
    ]
  ]

  skips :
      (fs : List MigrationFile) (before : List ℕ) (applied : List Applied) (skipped : ℕ)
      (db : Db S read needs_unsafe exec)
      → All (λ f. holds f.version before ≡ true) fs
      → run_files S read needs_unsafe exec fs before applied skipped db
        ≡ (some (applied, skipped + length fs), db)
  unfolding run_files
  skips [] before applied skipped db h = ap (λ k. (some (applied, k), db)) (omega arith)
  skips (f ∷ fs) before applied skipped db h =
      rw (run_files, h.0)
        (skips fs before applied (skipped + 1) db h.1
          ∙ ap (λ k. (some (applied, k), db)) (omega arith))

  abbrev Covers :
      List MigrationFile → Option (List Applied × ℕ) × Db S read needs_unsafe exec → Type 0
  Covers fs w = All (λ f. holds f.version (the_versions w.1) ≡ true) fs

  -- A loop that ends normally leaves every file's version in the table.
  completes :
      (fs : List MigrationFile) (before : List ℕ) (applied : List Applied) (skipped : ℕ)
      (db : Db S read needs_unsafe exec) (r : List Applied × ℕ)
      → ((v : ℕ) → holds v before ≡ true → holds v (the_versions db) ≡ true)
      → (run_files S read needs_unsafe exec fs before applied skipped db).0 ≡ some r
      → Covers fs (run_files S read needs_unsafe exec fs before applied skipped db)
  unfolding run_files
  completes [] before applied skipped db r sub h = tt
  completes (f ∷ fs) before applied skipped db r sub h =
      elim (Bool-cases (holds f.version before)) [
        | inl e ↦
            let g = rw (run_files, e) at h in
            let same : run_files S read needs_unsafe exec (f ∷ fs) before applied skipped db
                ≡ run_files S read needs_unsafe exec fs before applied (skipped + 1) db =
              rw (run_files, e) refl in
            subst (Covers (f ∷ fs)) (sym same) (
              keeps f.version fs before applied (skipped + 1) db (sub f.version e),
              completes fs before applied (skipped + 1) db r sub g,
            )
        | inr e ↦ elim (Option-cases (apply_file S read needs_unsafe exec f db).0) [
          | inl q ↦ let g = rw (run_files, e, q) at h in absurd (none-some _ g)
          | inr (a, q) ↦
              let g = rw (run_files, e, q) at h in
              let new = recorded-versions f _ _ _ a q in
              let there =
                ap (holds f.version) new
                ∙ holds-append f.version (the_versions db) (f.version ∷ []) in
              let same : run_files S read needs_unsafe exec (f ∷ fs) before applied skipped db
                  ≡ run_files S read needs_unsafe exec fs before (applied ++ (a ∷ [])) skipped
                      (apply_file S read needs_unsafe exec f db).1 =
                rw (run_files, e, q) refl in
              subst (Covers (f ∷ fs)) (sym same) (
                keeps f.version fs before (applied ++ (a ∷ [])) skipped _
                    (ground (arith, there, ==-self f.version)),
                completes fs before (applied ++ (a ∷ [])) skipped _ r
                    (λ v k.
                      ap (holds v) new
                      ∙ holds-append v (the_versions db) (f.version ∷ [])
                      ∙ simp (sub v k) refl)
                    g,
              )
        ]
      ]

  nothing-unsafe :
      (fs : List MigrationFile) (before : List ℕ)
      → All (λ f. holds f.version before ≡ true) fs
      → some_unsafe S read needs_unsafe exec before fs ≡ false
  nothing-unsafe [] before h = refl
  nothing-unsafe (f ∷ fs) before h = simp h.0 (nothing-unsafe fs before h.1)

  -- On a database that has every version, a run does nothing.
  nothing-left :
      (fs : List MigrationFile) (db : Db S read needs_unsafe exec)
      → All (λ f. holds f.version (the_versions db) ≡ true) fs
      → run_found S read needs_unsafe exec (some fs) db ≡ (
        some (record { applied = []; skipped = length fs; total = length fs }),
        record db { ready = true },
      )
  unfolding run_found
  nothing-left fs db h =
      let e = nothing-unsafe fs (the_versions db) h in
      let s = skips fs (the_versions db) [] 0 db h in
      let n : 0 + length fs ≡ length fs = omega arith in
      rw (e, s)
        (ap
          (λ k. (
            some (record { applied = []; skipped = k; total = length fs }),
            record db { ready = true },
          ))
          n)

  abbrev total_of : Option MigrationsResult → ℕ
  total_of none = 0
  total_of (some r) = r.total

  ended :
      (fs : List MigrationFile) (n : ℕ) (u : Bool)
      (w : Option (List Applied × ℕ) × Db S read needs_unsafe exec) (r : MigrationsResult)
      → ((p : List Applied × ℕ) → w.0 ≡ some p → Covers fs w)
      → (finished S read needs_unsafe exec n
          (w.0, set_unsafe S read needs_unsafe exec u false w.1)).0
        ≡ some r
      → All
          (λ f.
            holds f.version (
              the_versions
                (finished S read needs_unsafe exec n
                  (w.0, set_unsafe S read needs_unsafe exec u false w.1)).1)
            ≡ true)
          fs
        × ((finished S read needs_unsafe exec n
              (w.0, set_unsafe S read needs_unsafe exec u false w.1)).1.ready
            ≡ true)
        × (r.total ≡ n)
  ended fs n u (none, db) r c h = absurd (none-some r h)
  ended fs n true (some (applied, skipped), db) r c h =
      (c (applied, skipped) refl, refl, sym (ap total_of h))
  ended fs n false (some (applied, skipped), db) r c h =
      (c (applied, skipped) refl, refl, sym (ap total_of h))

  unsafe-versions :
      (b m : Bool) (db : Db S read needs_unsafe exec)
      → the_versions (set_unsafe S read needs_unsafe exec b m db) ≡ the_versions db
  unsafe-versions true m db = refl
  unsafe-versions false m db = refl

  found-covers :
      (fs : List MigrationFile) (db : Db S read needs_unsafe exec) (r : MigrationsResult)
      → (run_found S read needs_unsafe exec (some fs) db).0 ≡ some r
      → All
          (λ f.
            holds f.version (the_versions (run_found S read needs_unsafe exec (some fs) db).1)
            ≡ true)
          fs
        × ((run_found S read needs_unsafe exec (some fs) db).1.ready ≡ true)
        × (r.total ≡ length fs)
  unfolding run_found
  found-covers fs db r h =
      let u = some_unsafe S read needs_unsafe exec (the_versions db) fs in
      let start = set_unsafe S read needs_unsafe exec u true db in
      ended fs (length fs) u (run_files S read needs_unsafe exec fs (the_versions db) [] 0 start) r
        (λ p q.
          completes fs (the_versions db) [] 0 start p
            (λ v k. ap (holds v) (unsafe-versions u true db) ∙ k) q)
        h

  found-again :
      (o : Option (List MigrationFile)) (db : Db S read needs_unsafe exec) (r : MigrationsResult)
      → (run_found S read needs_unsafe exec o db).0 ≡ some r
      → run_found S read needs_unsafe exec o (run_found S read needs_unsafe exec o db).1 ≡ (
        some (record { applied = []; skipped = r.total; total = r.total }),
        (run_found S read needs_unsafe exec o db).1,
      )
  unfolding run_found
  found-again none db r h = absurd (none-some r h)
  found-again (some fs) db r h =
      let after = (run_found S read needs_unsafe exec (some fs) db).1 in
      let (covers, ready, t) = found-covers fs db r h in
      let result : ℕ → Option MigrationsResult =
        λ k. some (record { applied = []; skipped = k; total = k }) in
      nothing-left fs after covers
      ∙ ap (λ b. (result (length fs), record after { ready = b })) (sym ready)
      ∙ ap (λ k. (result k, after)) (sym t)

  -- Once a run of the migrations has returned, a run on the database that it leaves returns too,
  -- applies nothing, skips every file, and leaves the database as it is.
  pub run_migrations-again :
      (found : List MigrationFile) (db : Db S read needs_unsafe exec) (r : MigrationsResult)
      → (run_migrations S read needs_unsafe exec found db).0 ≡ some r
      → run_migrations S read needs_unsafe exec found
          (run_migrations S read needs_unsafe exec found db).1
        ≡ (
          some (record { applied = []; skipped = r.total; total = r.total }),
          (run_migrations S read needs_unsafe exec found db).1,
        )
  unfolding run_migrations
  run_migrations-again found db r h = found-again (discover_migrations found) db r h
