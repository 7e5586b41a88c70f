-- ===== src/Session/Manager/Starts.antt =====
-- A session that is opened and an episode that is started, by the session manager.
use memos_qdrant.Shared.{
  ℕ, ◌+◌, String, ◌≡◌, refl, sym, ◌∙◌, ap, subst, false, Option, none, some, arith, string_eq,
  ==_iff, ◌≢◌, Option-cases, inl, inr,
}
use Prim.Native.String.{◌++◌ as str_append}
use memos_qdrant.Shared.Keyed.{Map, get, set, has, none-has, weigh-set_new}
use memos_qdrant.Session.Types.{
  SessionSnapshot, EpisodeSnapshot, opened, is_open, TurnInput, session_started, user,
  IntentDecision, SessionOpenInput, EpisodeStartInput,
}
use memos_qdrant.Session.Db.{SessionRow}
use memos_qdrant.Session.SessionsRepo.{touch_last_seen, upsert_if_missing}
use memos_qdrant.Session.SessionsRepo.Laws.{
  touch_last_seen-RowsKeyed, upsert_if_missing-RowsKeyed, get-upsert_if_missing,
}
use memos_qdrant.Session.World.{
  World, ok, Run, resume, now, emit, modify_db, mint, given_or, ◌>>=◌, ◌>>◌, pure,
}
use memos_qdrant.Session.Episodes.{begin_episode, start, new_episode, or_empty}
use memos_qdrant.Session.Episodes.Cases.{turn_cases, insert_cases}
use memos_qdrant.Session.Episodes.Mirror.{
  IsNew, begun-Mirrored, new_episode-IsNew, Mirrored, HasRow, OnOk,
}
use memos_qdrant.Session.Manager.{
  StartEpisodeInput, open_session, get_session, start_episode, increment_open_count, snapshot_for,
  row_or_throw, put_live, session_or_throw, classified, write,
}
use memos_qdrant.Session.Manager.Stored.{increment_cases, Stored, live-Stored}
use memos_qdrant.Session.Manager.Counts.{
  length-open_for_session, open_count, open_weight, increment-CountsMatch, moved-CountsMatch,
}
use memos_qdrant.Session.Manager.Consistency.{Consistent, with_counts, get_session-Consistent}

-- A snapshot under a new id adds to the count of its session alone.
module _ (id : String) (s : EpisodeSnapshot) (m : Map String EpisodeSnapshot)
    (e : get id m ≡ none) where
  count_new :
      s.status ≡ opened → open_count s.session_id (set id s m) ≡ open_count s.session_id m + 1
  unfolding is_open
  count_new o =
      ground
        (arith, ==_iff s.session_id s.session_id, weigh-set_new (open_weight s.session_id) id s m e)

  count_new_other : (j : String) → s.session_id ≢ j → open_count j (set id s m) ≡ open_count j m
  count_new_other j ne =
      ground (arith, ==_iff s.session_id j, weigh-set_new (open_weight j) id s m e)

-- An id with no row has no snapshot.
no_snapshot :
    (id : String) (w : World) → Mirrored w → has id w.db.episodes ≡ false → get id w.by_id ≡ none
no_snapshot id w m h = elim (Option-cases (get id w.by_id)) [
  | inl e ↦ e
  | inr (s, e) ↦
      let hasRow : HasRow s none = rw (none-has id w.db.episodes h) at (m.row id s e) in
      absurd hasRow
]

-- `epm.start` and the count that follows it.
abbrev counted : String → Run EpisodeSnapshot → Run EpisodeSnapshot
counted sid m = m >>= λ snap. write (increment_open_count sid) >> pure snap

incremented-Stored : (sid : String) (w : World) → Stored w → Stored (increment_open_count sid w)
incremented-Stored sid w h = increment_cases Stored sid w h (λ l. live-Stored w l h)

begin_episode-Consistent :
    (s : EpisodeSnapshot) (w : World)
    → Consistent w
    → IsNew s
    → OnOk Consistent (counted s.session_id (begin_episode s) w)
unfolding begin_episode touch_last_seen
begin_episode-Consistent s w c z =
    insert_cases
      (λ r.
        OnOk Consistent
          (resume r.0 (λ snap w'. (ok snap, increment_open_count s.session_id w')) r.1))
      (record w { by_id = set s.id s w.by_id }) _ _ (λ _. tt) (λ _. tt)
      λ new old.
        let fresh = no_snapshot s.id w c.mirrored new in
        with_counts
          (incremented-Stored s.session_id _ (record {
            mirrored = begun-Mirrored s w _ c.mirrored z refl refl;
            keyed = touch_last_seen-RowsKeyed s.session_id s.started_at none w.db c.keyed;
          }))
          (increment-CountsMatch s.session_id w.by_id _ (c.counts).at
            (count_new s.id s w.by_id fresh z.status) (count_new_other s.id s w.by_id fresh))

calls-Consistent :
    (w : World) (n k : ℕ) → Consistent w → Consistent (record w { now_calls = n; id_calls = k })
calls-Consistent w n k c = record {
  mirrored = record {
    sound = (c.mirrored).sound;
    row = (c.mirrored).row;
    distinct = (c.mirrored).distinct;
  };
  counts = record { at = (c.counts).at };
  keyed = c.keyed;
}

abbrev first_turn : StartEpisodeInput → TurnInput
first_turn input = record { role = user; content = input.user_message; meta = input.meta }

abbrev start_input : StartEpisodeInput → String → EpisodeStartInput
start_input input id = record {
  session_id = input.session_id;
  id = some id;
  initial_turn = some (first_turn input);
  meta = input.meta;
}

start-Consistent :
    (input : StartEpisodeInput) (id : String) (intent : IntentDecision) (w : World) (n k : ℕ)
    → Consistent w
    → OnOk Consistent (
        counted input.session_id
          (start (start_input input id) intent)
          (record w { now_calls = n; id_calls = k }))
unfolding start
start-Consistent input id intent w n k c =
    turn_cases
      (λ r.
        OnOk Consistent
          (resume r.0 (λ snap w'. (ok snap, increment_open_count input.session_id w')) r.1))
      (record w { now_calls = n; id_calls = k }) (some (first_turn input)) _ tt
      λ t e ne.
        begin_episode-Consistent
          (new_episode (start_input input id) intent t (w.env.now n) id
            (str_append "sp_" (w.env.short_id k)))
          (record w { now_calls = n + 1; id_calls = k + 1 }) (calls-Consistent w (n + 1) (k + 1) c)
          (new_episode-IsNew (start_input input id) intent t (w.env.now n) id
            (str_append "sp_" (w.env.short_id k)))

-- `startEpisode` from the classifier's answer on.
abbrev after_intent : StartEpisodeInput → IntentDecision → Run EpisodeSnapshot
after_intent input intent = do
  id ← given_or input.id (mint "ep_")
  counted input.session_id (start (start_input input id) intent)

after_intent-Consistent :
    (input : StartEpisodeInput) (intent : IntentDecision) (w : World)
    → Consistent w
    → OnOk Consistent (after_intent input intent w)
after_intent-Consistent input intent w c =
    elim input.id
      as (λ o. OnOk Consistent (
        (do
          id ← given_or o (mint "ep_")
          counted input.session_id (start (start_input input id) intent))
          w)) [
            | none ↦
                start-Consistent input (str_append "ep_" (w.env.short_id w.id_calls)) intent w
                  w.now_calls (w.id_calls + 1) c
            | some id ↦ start-Consistent input id intent w w.now_calls w.id_calls c
          ]

-- The rest of `startEpisode`, for the session that was found.
abbrev after_session : StartEpisodeInput → Option SessionSnapshot → Run EpisodeSnapshot
after_session input found = do
  session_or_throw found
  intent ← (λ w. classified (w.env.classify input.user_message) w)
  after_intent input intent

after_session-Consistent :
    (input : StartEpisodeInput) (found : Option SessionSnapshot) (w : World)
    → Consistent w
    → OnOk Consistent (after_session input found w)
after_session-Consistent input none w c = tt
after_session-Consistent input (some s) w c =
    elim (Option-cases (w.env.classify input.user_message)) [
      | inl e ↦ rw e tt
      | inr (intent, e) ↦ rw e (after_intent-Consistent input intent w c)
    ]

get_session-ok :
    (id : String) (w : World) → (found : Option SessionSnapshot) × ((get_session id w).0 ≡ ok found)
unfolding get_session
get_session-ok id w = elim (Option-cases (get id w.live)) [
  | inr (s, e) ↦ (some s, rw (e, get_session))
  | inl e ↦ elim (Option-cases (get id w.db.sessions)) [
    | inl f ↦ (none, rw (e, f, get_session))
    | inr (row, f) ↦ (some (snapshot_for row w), rw (e, f, get_session))
  ]
]

pub start_episode-Consistent :
    (input : StartEpisodeInput) (w : World) → Consistent w → OnOk Consistent (start_episode input w)
unfolding start_episode
start_episode-Consistent input w c =
    let (found, e) = get_session-ok input.session_id w in
    subst (λ r. OnOk Consistent (resume r (after_session input) (get_session input.session_id w).1))
      (sym e) (after_session-Consistent input found _ (get_session-Consistent input.session_id w c))

-- `openSession` from the id on.
abbrev open_as : SessionOpenInput → ℕ → String → Run SessionSnapshot
open_as input ts id = do
  modify_db (
      upsert_if_missing (record {
        id = id;
        agent = input.agent;
        started_at = ts;
        last_seen_at = ts;
        meta = or_empty input.meta;
      }))
  row ← (λ w. row_or_throw (get id w.db.sessions) w)
  snap ← (λ w. (ok (snapshot_for row w), w))
  put_live id snap
  emit (session_started snap)
  pure snap

open_as-Consistent :
    (input : SessionOpenInput) (ts : ℕ) (id : String) (w : World) (n k : ℕ)
    → Consistent w
    → Consistent (open_as input ts id (record w { now_calls = n; id_calls = k })).1
unfolding snapshot_for
open_as-Consistent input ts id w n k c =
    let new : SessionRow = record {
      id = id;
      agent = input.agent;
      started_at = ts;
      last_seen_at = ts;
      meta = or_empty input.meta;
    } in
    let (row, g, eps, _) = get-upsert_if_missing new w.db in
    let keyed = upsert_if_missing-RowsKeyed new w.db c.keyed in
    let w' : World = record w { now_calls = n; id_calls = k; db = upsert_if_missing new w.db } in
    rw g (record {
      mirrored = record {
        sound = (c.mirrored).sound;
        row = rw eps ((c.mirrored).row);
        distinct = (c.mirrored).distinct;
      };
      counts = record {
        at =
            (moved-CountsMatch id (snapshot_for row w') w.by_id w' (c.counts).at
              (length-open_for_session row.id w' ∙ ap (λ i. open_count i w.by_id) (keyed id row g))
              (λ j ne. refl)).at;
      };
      keyed = keyed;
    })

pub open_session-Consistent :
    (input : SessionOpenInput) (w : World) → Consistent w → Consistent (open_session input w).1
unfolding open_session
open_session-Consistent input w c =
    elim input.id
      as (λ o. Consistent ((do ts ← now; id ← given_or o (mint "se_"); open_as input ts id) w).1) [
        | none ↦
            open_as-Consistent input (w.env.now w.now_calls)
              (str_append "se_" (w.env.short_id w.id_calls)) w (w.now_calls + 1) (w.id_calls + 1) c
        | some id ↦
            open_as-Consistent input (w.env.now w.now_calls) id w (w.now_calls + 1) w.id_calls c
      ]
