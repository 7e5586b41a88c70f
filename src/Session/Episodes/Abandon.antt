-- ===== src/Session/Episodes/Abandon.antt =====
-- What `abandon` does to an episode that the manager holds.
use memos_qdrant.Shared.{String, ◌≡◌, refl, sym, some, [], ◌∷◌, string_eq, inl, inr}
use memos_qdrant.Shared.Keyed.{get, set, set-get}
use memos_qdrant.Shared.Json.{str, spread}
use memos_qdrant.Session.Types.{closed, EpisodeSnapshot}
use memos_qdrant.Session.World.{World, Result, ok}
use memos_qdrant.Session.Episodes.{abandon}
use memos_qdrant.Session.Episodes.Cases.{status-cases}

-- It returns the snapshot, closed and of the same session, and that is what is held under its id
-- afterwards; the cache of sessions stays.
pub record Abandoned (id : String) (s : EpisodeSnapshot) (w : World)
    (r : Result EpisodeSnapshot × World) : Type 0 where
  pub snap : EpisodeSnapshot
  pub returns : r.0 ≡ ok snap
  pub session_id : snap.session_id ≡ s.session_id
  pub status : snap.status ≡ closed
  pub live : r.1.live ≡ w.live
  pub by_id : r.1.by_id ≡ set id snap w.by_id

pub abandon_lem :
    (id reason : String) (s : EpisodeSnapshot) (w : World)
    → get id w.by_id ≡ some s
    → Abandoned id s w (abandon id reason w)
unfolding abandon
abandon_lem id reason s w e = elim (status-cases s.status) [
  | inr c ↦ record {
    snap = s;
    returns = simp (e, c);
    session_id = refl;
    status = c;
    live = simp (e, c);
    by_id = simp (e, c) (sym (set-get id s w.by_id e));
  }
  | inl o ↦ record {
    snap = record s {
      status = closed;
      ended_at = some (w.env.now w.now_calls);
      meta = spread s.meta (("closeReason", str "abandoned") ∷ ("abandonReason", str reason) ∷ []);
    };
    returns = simp (e, o);
    session_id = refl;
    status = refl;
    live = simp (e, o);
    by_id = simp (e, o);
  }
]
