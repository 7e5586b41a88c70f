-- ===== src/Storage/Tx/Savepoints.antt =====
-- core/storage/tx.ts: what `withSavepoint` leaves.
use memos_qdrant.Shared.{
  String, ◌≡◌, refl, none, ◌∷◌, string_eq, ==-self, if◌then◌else◌, Bool-cases, inl, inr,
}
use memos_qdrant.Storage.Tx.{
  Connection, Outcome, returned, threw, savepoint, unwound, with_savepoint,
}
use memos_qdrant.Storage.Tx.Name.{is_savepoint_name}

module _ {ℓ κ} {A : Type ℓ} {S : Type κ} where
  -- The tables that the outcome of the inner function leaves.
  abbrev pub tables_after : Outcome A → S → S → S
  tables_after (returned a) old new = new
  tables_after (threw code) old new = old

  settle :
      (name : String) (c : Connection S) (o : Outcome A) (c' : Connection S)
      → c'.savepoints ≡ (name, c.tables) ∷ c.savepoints
      → unwound name (o, c')
        ≡ (o, record { tables = tables_after o c.tables c'.tables; savepoints = c.savepoints })
  settle name c (returned a) c' e = rw (e, ==-self name) refl
  settle name c (threw code) c' e = rw (e, ==-self name, ==-self name) refl

  -- Around a function that leaves the savepoints as it finds them, `withSavepoint` has that
  -- function's outcome and leaves the savepoints as they were; the tables are the function's
  -- where it returned and those of before where it threw. A name that is no identifier throws and
  -- changes nothing.
  pub with_savepoint_lem :
      (name : String) (fn : Connection S → Outcome A × Connection S) (c : Connection S)
      → (fn (savepoint name c)).1.savepoints ≡ (savepoint name c).savepoints
      → with_savepoint name fn c ≡ (
          if is_savepoint_name name
          then (
            (fn (savepoint name c)).0,
            record {
              tables =
                  tables_after (fn (savepoint name c)).0 c.tables (fn (savepoint name c)).1.tables;
              savepoints = c.savepoints;
            },
          )
          else (threw none, c))
  unfolding with_savepoint
  with_savepoint_lem name fn c h = elim (Bool-cases (is_savepoint_name name)) [
    | inr e ↦ rw e refl
    | inl e ↦ rw e (settle name c (fn (savepoint name c)).0 (fn (savepoint name c)).1 h)
  ]
