-- ===== src/Session/Manager/Histories.antt =====
-- core/session/manager.ts: histories of calls on the session manager.
use memos_qdrant.Shared.{
  ℕ, ◌+◌, ◌-◌, String, ◌≡◌, sym, ap, ◌∙◌, subst, true, Option, some, List, [], arith, string_eq,
  ltb,
}
use memos_qdrant.Shared.Keyed.{get, set, get-set_self}
use memos_qdrant.Session.Types.{
  SessionSnapshot, EpisodeSnapshot, opened, closed, EpisodeFinalizeInput, TurnRelation, TurnInput,
  SessionOpenInput, is_open,
}
use memos_qdrant.Session.SessionsRepo.Laws.{RowsKeyed}
use memos_qdrant.Session.World.{World, ok}
use memos_qdrant.Session.Episodes.{abandon, add_turn, attach_trace_ids}
use memos_qdrant.Session.Episodes.Mirror.{OnOk}
use memos_qdrant.Session.Episodes.Steps.{no_episodes-Mirrored}
use memos_qdrant.Session.Manager.{
  StartEpisodeInput, open_session, get_session, close_session, start_episode, finalize_episode,
  abandon_episode, reopen_episode, decrement_open_count, prune_idle, shutdown,
}
use memos_qdrant.Session.Manager.Counts.{CountsMatch}
use memos_qdrant.Session.Manager.Consistency.{
  Consistent, stored_of, with_counts, finalize_episode-Consistent, abandon_episode-Consistent,
  reopen_episode-Consistent, add_turn-Consistent, attach_trace_ids-Consistent,
  get_session-Consistent,
}
use memos_qdrant.Session.Manager.Idle.{prune_idle-Consistent}
use memos_qdrant.Session.Manager.Shutdown.{shutdown_lem}
use memos_qdrant.Session.Manager.Starts.{start_episode-Consistent, open_session-Consistent}
use memos_qdrant.Session.Manager.Closing.{close_session-CountsMatch, close_session-Stored}

-- One call that changes state, on the manager or on the episode manager behind it. A call that
-- throws counts too, but for a start; an episode is abandoned while it is open.
pub data Call : World → World → Type 0 where
  opens : (input : SessionOpenInput) (w : World) → Call w (open_session input w).1
  reads : (id : String) (w : World) → Call w (get_session id w).1
  closes : (id reason : String) (w : World) → Call w (close_session id reason w).1
  starts :
      (input : StartEpisodeInput) {w w' : World} (s : EpisodeSnapshot)
      → start_episode input w ≡ (ok s, w')
      → Call w w'
  adds : (id : String) (turn : TurnInput) (w : World) → Call w (add_turn id turn w).1
  attaches : (id : String) (ts : List String) (w : World) → Call w (attach_trace_ids id ts w).1
  finalizes :
      (id : String) (input : EpisodeFinalizeInput) (w : World)
      → Call w (finalize_episode id input w).1
  abandons :
      (id reason : String) (w : World)
      → ((s : EpisodeSnapshot) → get id w.by_id ≡ some s → s.status ≡ opened)
      → Call w (abandon_episode id reason w).1
  reopens :
      (id : String) (reason : TurnRelation) (w : World) → Call w (reopen_episode id reason w).1
  prunes : (given : Option ℕ) (w : World) → Call w (prune_idle given w).1
  shuts : (reason : String) (w : World) → Call w (shutdown reason w).1

pub data History (w : World) : World → Type 0 where
  here : History w w
  next : {u v : World} → History w u → Call u v → History w v

call-Consistent : {w w' : World} → Call w w' → Consistent w → Consistent w'
call-Consistent (opens input w) c = open_session-Consistent input w c
call-Consistent (reads id w) c = get_session-Consistent id w c
call-Consistent (closes id reason w) c =
    with_counts (close_session-Stored id reason w (stored_of c))
      (close_session-CountsMatch id reason w (stored_of c) c.counts)
call-Consistent (starts input {w} s e) c =
    subst (OnOk Consistent) e (start_episode-Consistent input w c)
call-Consistent (adds id turn w) c = add_turn-Consistent id w c turn
call-Consistent (attaches id ts w) c = attach_trace_ids-Consistent id w c ts
call-Consistent (finalizes id input w) c = finalize_episode-Consistent id w c input
call-Consistent (abandons id reason w o) c = abandon_episode-Consistent id w c reason o
call-Consistent (reopens id reason w) c = reopen_episode-Consistent id w c reason
call-Consistent (prunes given w) c = prune_idle-Consistent given w c
call-Consistent (shuts reason w) c = (shutdown_lem reason w c).3

fresh-Consistent : (w : World) → w.by_id ≡ [] → w.live ≡ [] → RowsKeyed w.db → Consistent w
unfolding get
fresh-Consistent w e f k = record {
  mirrored = no_episodes-Mirrored w e;
  counts = record { at = λ j c h. absurd (ground (arith, f, h)) };
  keyed = k;
}

-- After any history of calls of a manager that starts with nothing in memory, over tables whose
-- session rows stand under their own ids: each held episode agrees with its row, each session
-- row stands under its id, and each cached session carries exactly the number of its episodes
-- that are open. The calls are those of the manager that change state, pruning and shutdown among
-- them, and those that add turns and trace ids. A call that throws is part of a history, but for
-- a start that throws, and only an episode that is still open, or that is not held, is abandoned.
pub History-Consistent :
    {w w' : World} → w.by_id ≡ [] → w.live ≡ [] → RowsKeyed w.db → History w w' → Consistent w'
History-Consistent {w} e f k here = fresh-Consistent w e f k
History-Consistent e f k (next h c) = call-Consistent c (History-Consistent e f k h)

abandon_closed_lem :
    (id reason : String) (s : EpisodeSnapshot) (c : SessionSnapshot) (w : World)
    → get id w.by_id ≡ some s
    → s.status ≡ closed
    → get s.session_id w.live ≡ some c
    → ltb 0 c.open_episode_count ≡ true
    → abandon_episode id reason w ≡ (
      ok s,
      record w {
        live = set s.session_id (record c { open_episode_count = c.open_episode_count - 1 }) w.live;
      },
    )
unfolding abandon_episode decrement_open_count abandon is_open
abandon_closed_lem id reason s c w e f g p =
    rw (e, abandon_episode) (simp (f, g, decrement_open_count, p))

-- Abandoning an episode that is closed already, of a session that is cached with n + 1 open ones,
-- returns the snapshot, and changes nothing in the state but the cached count of the session,
-- which becomes n: counts that were exact are exact no more.
pub abandon_episode_twice :
    (id reason : String) (s : EpisodeSnapshot) (c : SessionSnapshot) (n : ℕ) (w : World)
    → get id w.by_id ≡ some s
    → s.status ≡ closed
    → get s.session_id w.live ≡ some c
    → c.open_episode_count ≡ n + 1
    → CountsMatch w
    → (abandon_episode id reason w
        ≡ (ok s, record w { live = set s.session_id (record c { open_episode_count = n }) w.live }))
      × (¬ CountsMatch (abandon_episode id reason w).1)
abandon_episode_twice id reason s c n w e f g h m =
    let less : c.open_episode_count - 1 ≡ n = omega (arith, h) in
    let r =
      abandon_closed_lem id reason s c w e f g (ground (arith, h))
      ∙ ap
          (λ k. (
            ok s,
            record w { live = set s.session_id (record c { open_episode_count = k }) w.live },
          ))
          less in
    (r, subst (λ v. ¬ CountsMatch v.1) (sym r) broken)
  where
    broken :
        ¬ CountsMatch
          (record w { live = set s.session_id (record c { open_episode_count = n }) w.live })
    broken m' =
        let after = m'.at s.session_id _ (get-set_self s.session_id _ w.live) in
        omega (arith, m.at s.session_id c g, after, h)
