-- ===== src/Session/Episodes/Steps.antt =====
-- Histories of the episode manager: which calls keep the table and the snapshots together, what
-- a closed episode refuses, and a start that breaks the mirror.
use Prim.Native.String.{◌++◌ as str_append}
use memos_qdrant.Shared.{◌+◌, String, ◌≡◌, refl, some, List, [], string_eq, subst, false}
use text.Mathlib.Text.{◌==◌ as str_beq}
use memos_qdrant.Shared.Keyed.{get, set, has, get-set_self}
use memos_qdrant.Session.Types.{
  unique_constraint, TurnInput, EpisodeStartInput, EpisodeFinalizeInput, IntentDecision,
  TurnRelation, closed, EpisodeSnapshot,
}
use memos_qdrant.Session.Db.{EpisodeRow}
use memos_qdrant.Session.EpisodesRepo.{insert}
use memos_qdrant.Session.World.{World, ok, err}
use memos_qdrant.Session.Episodes.{
  start, begin_episode, new_episode, add_turn, attach_trace_ids, finalize, abandon, reopen,
}
use memos_qdrant.Session.Episodes.Mirror.{
  Mirrored, HasRow, OnOk, start-Mirrored, add_turn-Mirrored, attach_trace_ids-Mirrored,
  finalize-Mirrored, abandon-Mirrored, reopen-Mirrored,
}

-- One call on the manager. A call that throws counts too, but for a start.
pub data Step : World → World → Type 0 where
  starts :
      (input : EpisodeStartInput) (intent : IntentDecision) {w w' : World} (s : EpisodeSnapshot)
      → start input intent w ≡ (ok s, w')
      → Step w w'
  adds : (id : String) (turn : TurnInput) (w : World) → Step w (add_turn id turn w).1
  attaches : (id : String) (ts : List String) (w : World) → Step w (attach_trace_ids id ts w).1
  finalizes :
      (id : String) (input : EpisodeFinalizeInput) (w : World) → Step w (finalize id input w).1
  abandons : (id : String) (reason : String) (w : World) → Step w (abandon id reason w).1
  reopens : (id : String) (reason : TurnRelation) (w : World) → Step w (reopen id reason w).1

pub data Reach (w : World) : World → Type 0 where
  here : Reach w w
  next : {u v : World} → Reach w u → Step u v → Reach w v

Step-Mirrored : {w w' : World} → Step w w' → Mirrored w → Mirrored w'
Step-Mirrored (starts input intent {w} s e) m =
    subst (OnOk Mirrored) e (start-Mirrored input intent w m)
Step-Mirrored (adds id turn w) m = add_turn-Mirrored id w m turn
Step-Mirrored (attaches id ts w) m = attach_trace_ids-Mirrored id w m ts
Step-Mirrored (finalizes id input w) m = finalize-Mirrored id w m input
Step-Mirrored (abandons id reason w) m = abandon-Mirrored id w m reason
Step-Mirrored (reopens id reason w) m = reopen-Mirrored id w m reason

pub no_episodes-Mirrored : (w : World) → w.by_id ≡ [] → Mirrored w
unfolding get
no_episodes-Mirrored w e = record {
  sound = λ id s h. absurd (nothing_held id s h);
  row = λ id s h. absurd (nothing_held id s h);
  distinct = rw e tt;
}
  where
    nothing_held : (id : String) (s : EpisodeSnapshot) → get id w.by_id ≡ some s → ⊥
    nothing_held id s h = cc (rw e at h)

-- After any history of calls, from a process that holds no episode yet, over any tables: every
-- snapshot that the manager holds has its id as its key, counts its turns, has an end exactly
-- when it is closed, and has a row in `episodes` with its session, start, end, trace ids and
-- status. Calls that throw are part of a history, but for a start that throws.
pub Reach-Mirrored : {w w' : World} → w.by_id ≡ [] → Reach w w' → Mirrored w'
Reach-Mirrored {w} e here = no_episodes-Mirrored w e
Reach-Mirrored e (next r s) = Step-Mirrored s (Reach-Mirrored e r)

abbrev taken_snapshot :
    EpisodeStartInput → IntentDecision → TurnInput → String → World → EpisodeSnapshot
taken_snapshot input intent t id w =
    new_episode input intent t (w.env.now w.now_calls) id
      (str_append "sp_" (w.env.short_id w.id_calls))

start_taken_lem :
    (input : EpisodeStartInput) (intent : IntentDecision) (w : World) (id : String) (t : TurnInput)
    (row : EpisodeRow)
    → input.id ≡ some id
    → input.initial_turn ≡ some t
    → str_beq t.content "" ≡ false
    → get id w.db.episodes ≡ some row
    → start input intent w ≡ (
      err unique_constraint,
      record w {
        now_calls = w.now_calls + 1;
        id_calls = w.id_calls + 1;
        by_id = set id (taken_snapshot input intent t id w) w.by_id;
      },
    )
unfolding start begin_episode new_episode insert has
start_taken_lem input intent w id t row i f ne r = simp (i, f, ne, r)

-- A start with a pre-minted id whose row in `episodes` is closed throws the uniqueness error of
-- the table. The table stays, but the manager then holds a new open episode under that id, so
-- the mirror is broken.
pub start_taken :
    (input : EpisodeStartInput) (intent : IntentDecision) (w : World) (id : String) (t : TurnInput)
    (row : EpisodeRow)
    → input.id ≡ some id
    → input.initial_turn ≡ some t
    → str_beq t.content "" ≡ false
    → get id w.db.episodes ≡ some row
    → row.status ≡ closed
    → ((start input intent w).0 ≡ err unique_constraint)
      × ((start input intent w).1.db ≡ w.db)
      × (get id (start input intent w).1.by_id ≡ some (taken_snapshot input intent t id w))
      × (¬ Mirrored (start input intent w).1)
unfolding new_episode
start_taken input intent w id t row i f ne r c =
    rw (start_taken_lem input intent w id t row i f ne r)
      (refl, refl, get-set_self id _ w.by_id, broken)
  where
    broken : ¬ Mirrored (record w {
      now_calls = w.now_calls + 1;
      id_calls = w.id_calls + 1;
      by_id = set id (taken_snapshot input intent t id w) w.by_id;
    })
    broken m =
        let agrees : HasRow (taken_snapshot input intent t id w) (some row) =
          rw r at (m.row id _ (get-set_self id _ w.by_id)) in
        cc (agrees.status, c)
