-- ===== src/Session/Episodes/Mirror.antt =====
-- The `episodes` table mirrors the snapshots that the episode manager holds.
use memos_qdrant.Shared.{
  ℕ, ◌+◌, String, ◌≡◌, refl, ◌≢◌, Option, none, some, List, [], ◌∷◌, arith, length, length-append,
  inl, inr, string_eq, ==_iff, ◌==◌, sym, Bool-cases, if◌then◌else◌,
}
use Prim.Native.String.{◌++◌ as str_append}
use mathlib.Core.Option
use mathlib.Core.Path.{subst₂}
use memos_qdrant.Shared.Keyed.{Distinct, set-Distinct, get, set, get-set, get-set_ne, get-set_self}
use memos_qdrant.Shared.Json.{Double, Meta, stored}
use memos_qdrant.Session.Types.{
  EpisodeStatus, opened, closed, EpisodeSnapshot, TurnInput, EpisodeStartInput, IntentDecision,
  EpisodeFinalizeInput, TurnRelation,
}
use memos_qdrant.Session.Db.{EpisodeRow}
use memos_qdrant.Session.SessionsRepo.{touch_last_seen}
use memos_qdrant.Session.EpisodesRepo.{close}
use memos_qdrant.Session.World.{World, Result, ok, err, ◌>>=◌, now, mint, given_or}
use memos_qdrant.Session.EpisodesRepo.Laws.{closed_row, get-close, get-reopen, get-append_trace}
use memos_qdrant.Session.Episodes.{
  new_episode, begin_episode, start, add_turn, attach_trace_ids, finalize, abandon, reopen,
}
use memos_qdrant.Session.Episodes.Cases.{
  turn_cases, insert_cases, open_cases, find_cases, status-cases,
}

-- An open episode has no end, a closed one has.
abbrev pub Ended : EpisodeStatus → Option ℕ → Type 0
Ended opened none = Unit
Ended closed (some t) = Unit
Ended _ _ = ⊥

-- The row of a snapshot.
pub record Agrees (s : EpisodeSnapshot) (row : EpisodeRow) : Type 0 where
  pub session_id : row.session_id ≡ s.session_id
  pub started_at : row.started_at ≡ s.started_at
  pub ended_at : row.ended_at ≡ s.ended_at
  pub trace_ids : row.trace_ids ≡ s.trace_ids
  pub status : row.status ≡ s.status

abbrev pub HasRow : EpisodeSnapshot → Option EpisodeRow → Type 0
HasRow s none = ⊥
HasRow s (some row) = Agrees s row

pub record IsSound (id : String) (s : EpisodeSnapshot) : Type 0 where
  pub keyed : s.id ≡ id
  pub counted : s.turn_count ≡ length s.turns
  pub ended : Ended s.status s.ended_at

-- Every snapshot is sound and has a row that agrees with it.
pub record Mirrored (w : World) : Type 0 where
  pub sound : (id : String) (s : EpisodeSnapshot) → get id w.by_id ≡ some s → IsSound id s
  pub row :
      (id : String) (s : EpisodeSnapshot)
      → get id w.by_id ≡ some s
      → HasRow s (get id w.db.episodes)
  pub distinct : Distinct w.by_id

-- One snapshot and its row are replaced; the rest stays.
replace-Mirrored :
    {w w' : World} (id : String) (s : EpisodeSnapshot)
    → Mirrored w
    → w'.by_id ≡ set id s w.by_id
    → IsSound id s
    → HasRow s (get id w'.db.episodes)
    → ((j : String) → id ≢ j → get j w'.db.episodes ≡ get j w.db.episodes)
    → Mirrored w'
replace-Mirrored {w} {w'} id s m e sound here there = record {
  sound = λ j x h. ground (arith, ==_iff id j, get-set id j s w.by_id, m.sound j x);
  row = λ j x h. elim (Bool-cases (id == j)) [
    | inl same ↦
        let y : s ≡ x = ground (arith, same, e, get-set id j s w.by_id) in
        subst₂ (λ k z. HasRow z (get k w'.db.episodes)) ((==_iff id j).0 same) y here
    | inr other ↦
        rw (there j (λ p. ground (arith, other, p, ==_iff id j)))
          (m.row j x (ground (arith, other, e, get-set id j s w.by_id)))
  ];
  distinct = rw e (set-Distinct id s w.by_id m.distinct);
}

-- The row is rewritten by `f`, and so is what it must agree with.
HasRow-map :
    (s s' : EpisodeSnapshot) (f : EpisodeRow → EpisodeRow) (o : Option EpisodeRow)
    → HasRow s o
    → ((x : EpisodeRow) → Agrees s x → Agrees s' (f x))
    → HasRow s' (Option.map f o)
HasRow-map s s' f none h k = h
HasRow-map s s' f (some x) h k = k x h

HasRow-keep :
    (s s' : EpisodeSnapshot) (o : Option EpisodeRow)
    → HasRow s o
    → ((x : EpisodeRow) → Agrees s x → Agrees s' x)
    → HasRow s' o
HasRow-keep s s' none h k = h
HasRow-keep s s' (some x) h k = k x h

at_key {ℓ} : {A : Type ℓ} (id : String) (x y : A) → (if id == id then x else y) ≡ x
at_key id x y = ground (arith, ==_iff id id)

off_key {ℓ} : {A : Type ℓ} (id j : String) (x y : A) → id ≢ j → (if id == j then x else y) ≡ y
off_key id j x y ne = ground (arith, ==_iff id j)

module _ (id : String) (w : World) (m : Mirrored w) where
  pub add_turn-Mirrored : (turn : TurnInput) → Mirrored (add_turn id turn w).1
  unfolding add_turn touch_last_seen
  add_turn-Mirrored turn =
      open_cases (λ r. Mirrored r.1) id _ w m m
        λ s e o.
          let z = m.sound id s e in
          replace-Mirrored id _ m refl
            (record {
              keyed = z.keyed;
              counted = omega (arith, z.counted, length-append {0});
              ended = z.ended;
            })
            (HasRow-keep s _ _ (m.row id s e) (λ x h. ground arith)) (λ j ne. refl)

  pub attach_trace_ids-Mirrored : (ts : List String) → Mirrored (attach_trace_ids id ts w).1
  unfolding attach_trace_ids
  attach_trace_ids-Mirrored [] = find_cases (λ r. Mirrored r.1) id _ w m (λ s e. m)
  attach_trace_ids-Mirrored (t ∷ ts) =
      find_cases (λ r. Mirrored r.1) id _ w m
        λ s e.
          let z = m.sound id s e in
          replace-Mirrored id _ m refl
            (record { keyed = z.keyed; counted = z.counted; ended = z.ended })
            (rw (get-append_trace id id)
              (rw at_key (HasRow-map s _ _ _ (m.row id s e) (λ x h. ground arith))))
            (λ j ne. rw (get-append_trace id j) (off_key id j _ _ ne))

  close-Mirrored :
      (s s' : EpisodeSnapshot) (w' : World) (t : ℕ) (r : Option Double) (meta : Option Meta)
      → get id w.by_id ≡ some s
      → w'.by_id ≡ set id s' w.by_id
      → w'.db ≡ close id t r meta w.db
      → IsSound id s'
      → ((x : EpisodeRow) → Agrees s x → Agrees s' (closed_row t r meta x))
      → Mirrored w'
  close-Mirrored s s' w' t r meta e by_id db sound k =
      replace-Mirrored id s' m by_id sound
        (rw (db, get-close id id) (rw at_key (HasRow-map s s' _ _ (m.row id s e) k)))
        (λ j ne. rw (db, get-close id j) (off_key id j _ _ ne))

  pub finalize-Mirrored : (input : EpisodeFinalizeInput) → Mirrored (finalize id input w).1
  unfolding finalize
  finalize-Mirrored input =
      open_cases (λ r. Mirrored r.1) id _ w m m
        λ s e o.
          let z = m.sound id s e in
          close-Mirrored s _ _ _ _ _ e refl refl
            (record { keyed = z.keyed; counted = z.counted; ended = tt }) (λ x h. ground arith)

  pub abandon-Mirrored : (reason : String) → Mirrored (abandon id reason w).1
  unfolding abandon
  abandon-Mirrored reason =
      find_cases (λ r. Mirrored r.1) id _ w m
        λ s e.
          let z = m.sound id s e in
          elim (status-cases s.status) [
            | inr c ↦ simp c m
            | inl o ↦ simp o (
                close-Mirrored s _ _ _ _ _ e refl refl
                  (record { keyed = z.keyed; counted = z.counted; ended = tt })
                  (λ x h. ground arith))
          ]

  pub reopen-Mirrored : (reason : TurnRelation) → Mirrored (reopen id reason w).1
  unfolding reopen
  reopen-Mirrored reason =
      find_cases (λ r. Mirrored r.1) id _ w m
        λ s e.
          let z = m.sound id s e in
          elim (status-cases s.status) [
            | inl o ↦ simp o m
            | inr c ↦ simp c (
                replace-Mirrored id _ m refl
                  (record { keyed = z.keyed; counted = z.counted; ended = tt })
                  (rw (get-reopen id id)
                    (rw at_key (HasRow-map s _ _ _ (m.row id s e) (λ x h. ground arith))))
                  (λ j ne. rw (get-reopen id j) (off_key id j _ _ ne)))
          ]

-- What holds of the state that a returning operation leaves.
abbrev pub OnOk {ℓ} : {A : Type 0} → (World → Type ℓ) → Result A × World → Type ℓ
OnOk P (ok a, w) = P w
OnOk P (err e, w) = Unit

-- The row that `start` inserts.
abbrev pub new_row : EpisodeSnapshot → EpisodeRow
new_row s = record {
  id = s.id;
  session_id = s.session_id;
  started_at = s.started_at;
  ended_at = none;
  trace_ids = [];
  r_task = none;
  status = opened;
  meta = stored s.meta;
}

pub record IsNew (s : EpisodeSnapshot) : Type 0 where
  pub sound : IsSound s.id s
  pub status : s.status ≡ opened
  pub ended_at : s.ended_at ≡ none
  pub trace_ids : s.trace_ids ≡ []

pub begun-Mirrored :
    (s : EpisodeSnapshot) (w w' : World)
    → Mirrored w
    → IsNew s
    → w'.by_id ≡ set s.id s w.by_id
    → w'.db.episodes ≡ set s.id (new_row s) w.db.episodes
    → Mirrored w'
begun-Mirrored s w w' m z e f =
    replace-Mirrored s.id s m e z.sound
      (rw (f, get-set_self)
        (record {
          session_id = refl;
          started_at = refl;
          ended_at = sym z.ended_at;
          trace_ids = sym z.trace_ids;
          status = sym z.status;
        }))
      (λ j ne. rw f (get-set_ne s.id j _ _ ne))

begin_episode-Mirrored :
    (s : EpisodeSnapshot) (w : World) → Mirrored w → IsNew s → OnOk Mirrored (begin_episode s w)
unfolding begin_episode touch_last_seen
begin_episode-Mirrored s w m z =
    insert_cases (OnOk Mirrored) (record w { by_id = set s.id s w.by_id }) _ _ (λ _. tt) (λ _. tt)
      λ new old. begun-Mirrored s w _ m z refl refl

pub new_episode-IsNew :
    (input : EpisodeStartInput) (intent : IntentDecision) (t : TurnInput) (ts : ℕ) (id tid : String)
    → IsNew (new_episode input intent t ts id tid)
unfolding new_episode
new_episode-IsNew input intent t ts id tid = record {
  sound = record { keyed = refl; counted = refl; ended = tt };
  status = refl;
  ended_at = refl;
  trace_ids = refl;
}

new_episode-Mirrored :
    (input : EpisodeStartInput) (intent : IntentDecision) (t : TurnInput) (id : String) (w : World)
    (n k : ℕ)
    → Mirrored w
    → OnOk Mirrored (
        (do
          turn_id ← mint "sp_"
          begin_episode (new_episode input intent t (w.env.now w.now_calls) id turn_id))
          (record w { now_calls = n; id_calls = k }))
new_episode-Mirrored input intent t id w n k m =
    begin_episode-Mirrored
      (new_episode input intent t (w.env.now w.now_calls) id (str_append "sp_" (w.env.short_id k)))
      (record w { now_calls = n; id_calls = k + 1 })
      (record { sound = m.sound; row = m.row; distinct = m.distinct })
      (new_episode-IsNew input intent t _ id _)

-- A start that returns keeps the mirror, whatever id it was given.
pub start-Mirrored :
    (input : EpisodeStartInput) (intent : IntentDecision) (w : World)
    → Mirrored w
    → OnOk Mirrored (start input intent w)
unfolding start
start-Mirrored input intent w m = turn_cases (OnOk Mirrored) w input.initial_turn _ tt λ t e ne.
    elim input.id
      as (λ o. OnOk Mirrored (
        (do
          started_at ← now
          id ← given_or o (mint "ep_")
          turn_id ← mint "sp_"
          begin_episode (new_episode input intent t started_at id turn_id))
          w)) [
            | none ↦
                new_episode-Mirrored input intent t (str_append "ep_" (w.env.short_id w.id_calls)) w
                  (w.now_calls + 1) (w.id_calls + 1) m
            | some id ↦ new_episode-Mirrored input intent t id w (w.now_calls + 1) w.id_calls m
          ]
