-- ===== src/Session/Manager/Closing.antt =====
-- `closeSession`.
use Prim.Native.String.{◌++◌ as str_append}
use memos_qdrant.Shared.{
  String, ◌≡◌, refl, sym, ◌∙◌, ap, ◌≢◌, false, some, List, ◌∷◌, inl, inr, arith, string_eq, ==_iff,
  ◌==◌, Bool-cases, All, All-keep, All-both,
}
use memos_qdrant.Shared.Keyed.{get, delete, get-delete}
use memos_qdrant.Session.Types.{opened, closed, is_open, EpisodeSnapshot}
use memos_qdrant.Session.Db.{values}
use memos_qdrant.Session.World.{World, ok, for_each_rule}
use memos_qdrant.Session.Episodes.{abandon, list_for_session}
use memos_qdrant.Session.Episodes.Cases.{status-cases}
use memos_qdrant.Session.Episodes.Mirror.{abandon-Mirrored}
use memos_qdrant.Session.Episodes.Abandon.{Abandoned, abandon_lem}
use memos_qdrant.Session.Manager.{close_session, abandon_if_open}
use memos_qdrant.Session.Manager.Counts.{open_count, CountsMatch, count_other}
use memos_qdrant.Session.Manager.Stored.{Stored, abandon-RowsKeyed}
use memos_qdrant.Session.Manager.Pending.{
  survivor, Pending-tail, Pending-closed, Pending, Held, held_after, values-Held, All-test,
  Pending-values,
}

-- What the loop keeps, for the listed snapshots still to come; `w₀` is the state at its start.
record Loop (id : String) (w₀ : World) (eps : List EpisodeSnapshot) (w : World) : Type 0 where
  stored : Stored w
  live : w.live ≡ w₀.live
  others : (j : String) → id ≢ j → open_count j w.by_id ≡ open_count j w₀.by_id
  held : All (Held (λ x. x ≡ id) w) eps
  left :
      (k : String) (s : EpisodeSnapshot)
      → get k w.by_id ≡ some s
      → s.session_id ≡ id
      → s.status ≡ opened
      → Pending k eps
  older :
      (k : String) (s : EpisodeSnapshot)
      → get k w.by_id ≡ some s
      → s.status ≡ opened
      → (s' : EpisodeSnapshot) × (get k w₀.by_id ≡ some s') × (s'.status ≡ opened)

module _ (id reason : String) (w₀ : World) where
  Abandoned-Loop :
      (ep s : EpisodeSnapshot) (eps : List EpisodeSnapshot) (w : World)
      → Loop id w₀ (ep ∷ eps) w
      → get ep.id w.by_id ≡ some s
      → s.session_id ≡ id
      → Abandoned ep.id s w (abandon ep.id reason w)
      → Loop id w₀ eps (abandon ep.id reason w).1
  Abandoned-Loop ep s eps w l e mine a = record {
    stored = record {
      mirrored = abandon-Mirrored ep.id w (l.stored).mirrored reason;
      keyed = abandon-RowsKeyed ep.id w (l.stored).keyed reason;
    };
    live = a.live ∙ l.live;
    others = λ j ne. rw a.by_id (
        count_other ep.id s a.snap w.by_id e a.session_id j (λ p. ne (sym mine ∙ p))
        ∙ l.others j ne);
    held =
        held_after (λ x. x ≡ id) w (abandon ep.id reason w).1 ep.id a.snap eps a.by_id
          (a.session_id ∙ mine) l.held.1;
    left = λ k x h i o.
        let (ne, before) = survivor ep.id k a.snap x w.by_id _ a.by_id a.status h o in
        Pending-tail k ep eps (l.left k x before i o) ne;
    older = λ k x h o.
        let (ne, before) = survivor ep.id k a.snap x w.by_id _ a.by_id a.status h o in
        l.older k x before o;
  }

  closed-Loop :
      (ep : EpisodeSnapshot) (eps : List EpisodeSnapshot) (w : World)
      → Loop id w₀ (ep ∷ eps) w
      → is_open ep.status ≡ false
      → Loop id w₀ eps w
  closed-Loop ep eps w l e = record {
    stored = l.stored;
    live = l.live;
    others = l.others;
    held = l.held.1;
    left = λ k x h i o. Pending-closed k ep eps (l.left k x h i o) e;
    older = l.older;
  }

  body :
      (ep : EpisodeSnapshot) (eps : List EpisodeSnapshot) (w : World)
      → Loop id w₀ (ep ∷ eps) w
      → ((abandon_if_open reason ep w).0 ≡ ok tt) × Loop id w₀ eps (abandon_if_open reason ep w).1
  body ep eps w l = elim (Bool-cases (is_open ep.status)) [
    | inr e ↦ rw e (refl, closed-Loop ep eps w l e)
    | inl e ↦
        let (s, g, mine) = l.held.0 in
        let a = abandon_lem ep.id reason s w g in
        rw e (rw a.returns (refl, Abandoned-Loop ep s eps w l g mine a))
  ]

-- The loop over the snapshots of the session, from a state that is stored soundly.
listed-Loop : (id : String) (w : World) → Stored w → Loop id w (list_for_session id w) w
unfolding list_for_session is_open
listed-Loop id w s = record {
  stored = s;
  live = refl;
  others = λ j ne. refl;
  held =
      All-both (list_for_session id w) (λ x h t. (x, h, (==_iff x.session_id id).0 t))
        (All-keep _ (λ y. y.session_id == id) (values w.by_id) (values-Held w s.mirrored))
        (All-test (λ y. y.session_id == id) (values w.by_id));
  left = λ k x h i o.
      Pending-values (λ y. y.session_id == id) k x w.by_id h ((s.mirrored).sound k x h).keyed
        ((==_iff x.session_id id).1 i) (rw o refl);
  older = λ k x h o. (x, h, o);
}

-- What `closeSession` does.
pub record SessionClosed (id : String) (w w' : World) : Type 0 where
  pub stored : Stored w'
  pub live : w'.live ≡ delete id w.live
  pub others : (j : String) → id ≢ j → open_count j w'.by_id ≡ open_count j w.by_id
  pub none_open :
      (k : String) (s : EpisodeSnapshot)
      → get k w'.by_id ≡ some s
      → s.session_id ≡ id
      → s.status ≡ closed
  pub older :
      (k : String) (s : EpisodeSnapshot)
      → get k w'.by_id ≡ some s
      → s.status ≡ opened
      → (s' : EpisodeSnapshot) × (get k w.by_id ≡ some s') × (s'.status ≡ opened)

-- From tables and snapshots that agree, `closeSession` returns; they agree again, the session has
-- left the cache and every other cached session is as it was. No episode of the session is open
-- any more, other sessions keep their number of open episodes, and nothing that is open was
-- closed before.
pub close_session_lem :
    (id reason : String) (w : World)
    → Stored w
    → ((close_session id reason w).0 ≡ ok tt) × SessionClosed id w (close_session id reason w).1
unfolding close_session
close_session_lem id reason w s =
    let (returns, l) =
      for_each_rule (abandon_if_open (str_append "session_closed:" reason)) (Loop id w)
        (body id (str_append "session_closed:" reason) w) (list_for_session id w) w
        (listed-Loop id w s) in
    rw returns (
      refl,
      record {
        stored = record {
          mirrored = record {
            sound = ((l.stored).mirrored).sound;
            row = ((l.stored).mirrored).row;
            distinct = ((l.stored).mirrored).distinct;
          };
          keyed = (l.stored).keyed;
        };
        live = ap (delete id) l.live;
        others = l.others;
        none_open = λ k x h i. elim (status-cases x.status) [
          | inl o ↦ absurd (l.left k x h i o)
          | inr c ↦ c
        ];
        older = l.older;
      },
    )

-- Closing a session, with whatever is open in it, keeps the cache exact.
pub close_session-CountsMatch :
    (id reason : String) (w : World)
    → Stored w
    → CountsMatch w
    → CountsMatch (close_session id reason w).1
close_session-CountsMatch id reason w s m =
    let (_, c) = close_session_lem id reason w s in
    record {
      at = λ j x h. elim (Bool-cases (id == j)) [
        | inl same ↦ absurd (ground (arith, same, c.live, get-delete id j w.live))
        | inr other ↦ ground (
          arith,
          m.at j x (ground (arith, other, c.live, get-delete id j w.live)),
          c.others j (λ p. ground (arith, other, p, ==_iff id j)),
        )
      ];
    }

pub close_session-Stored :
    (id reason : String) (w : World) → Stored w → Stored (close_session id reason w).1
close_session-Stored id reason w s = ((close_session_lem id reason w s).1).stored
