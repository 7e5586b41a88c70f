-- ===== src/Session/Manager/Shutdown.antt =====
-- `shutdown`, which abandons the open episodes and closes the cached sessions.
use Prim.Native.String.{◌++◌ as str_append}
use memos_qdrant.Shared.{
  String, ◌≡◌, refl, sym, subst, ap, ◌∙◌, ◌≢◌, none, some, List, [], ◌∷◌, arith, string_eq, ==_iff,
  ◌==◌, All, Bool-cases, inl, inr, keep, includes, false,
}
use memos_qdrant.Shared.Keyed.{
  Map, Entries, Entries-imp, Distinct, Distinct-get, get, set, get-set, get-delete,
}
use memos_qdrant.Session.Types.{opened, closed, is_open, EpisodeSnapshot, SessionSnapshot}
use memos_qdrant.Session.Db.{values}
use memos_qdrant.Session.World.{World, ok, for_each, for_each_rule, Run, pure, ◌>>◌}
use memos_qdrant.Session.Episodes.{abandon, list_open}
use memos_qdrant.Session.Episodes.Abandon.{abandon_lem}
use memos_qdrant.Session.Episodes.Cases.{status-cases}
use memos_qdrant.Session.Manager.{abandon_episode, close_session, shutdown, keys}
use memos_qdrant.Session.Manager.Stored.{decrement_cases}
use memos_qdrant.Session.Manager.Consistency.{
  Consistent, stored_of, with_counts, abandon_episode-Consistent,
}
use memos_qdrant.Session.Manager.Pending.{Pending, Pending-values, Pending-tail, survivor}
use memos_qdrant.Session.Manager.Closing.{close_session_lem, close_session-CountsMatch}

-- The episode that the snapshot names is held, and open.
abbrev StillOpen : World → EpisodeSnapshot → Type 0
StillOpen w ep = (s : EpisodeSnapshot) × (get ep.id w.by_id ≡ some s) × (s.status ≡ opened)

-- The listed episodes are open and have different ids.
abbrev Waiting : World → List EpisodeSnapshot → Type 0
Waiting w [] = Unit
Waiting w (ep ∷ eps) = StillOpen w ep × All (λ y. ep.id ≢ y.id) eps × Waiting w eps

other_values :
    (k : String) (m : Map String EpisodeSnapshot)
    → get k m ≡ none
    → Entries (λ j s. s.id ≡ j) m
    → All (λ y. k ≢ y.id) (keep (λ s. is_open s.status) (values m))
unfolding values get
other_values k [] e h = tt
other_values k ((j, s) ∷ m) e h =
    let ne : k ≢ s.id = λ p. absurd (ground (arith, e, ==_iff j k, p, h.0)) in
    let rest = other_values k m (ground (arith, e)) h.1 in
    elim (Bool-cases (is_open s.status)) [ inl o ↦ rw o (ne, rest) | inr o ↦ rw o rest ]

open-Waiting :
    (w : World) (m : Map String EpisodeSnapshot)
    → Distinct m
    → Entries (λ j s. s.id ≡ j) m
    → Entries (λ j s. get s.id w.by_id ≡ some s) m
    → Waiting w (keep (λ s. is_open s.status) (values m))
unfolding values is_open
open-Waiting w [] d h g = tt
open-Waiting w ((j, s) ∷ m) d h g =
    let rest = open-Waiting w m d.1 h.1 g.1 in
    let others =
      subst (λ i. All (λ (y : EpisodeSnapshot). i ≢ y.id) (keep (λ x. is_open x.status) (values m)))
        (sym h.0) (other_values j m d.0 h.1) in
    elim (status-cases s.status) [
      | inl o ↦ simp o ((s, g.0, o), others, rest)
      | inr c ↦ simp c rest
    ]

list_open-Waiting : (w : World) → Consistent w → Waiting w (list_open w)
unfolding list_open
list_open-Waiting w c =
    let at = Distinct-get w.by_id (c.mirrored).distinct in
    open-Waiting w w.by_id (c.mirrored).distinct
      (Entries-imp w.by_id (λ k s h. ((c.mirrored).sound k s h).keyed) at)
      (Entries-imp w.by_id (λ k s h. ap (λ i. get i w.by_id) ((c.mirrored).sound k s h).keyed ∙ h)
        at)

-- A write under another id leaves them waiting.
still-Waiting :
    (id : String) (snap : EpisodeSnapshot) (w w' : World) (eps : List EpisodeSnapshot)
    → w'.by_id ≡ set id snap w.by_id
    → All (λ y. id ≢ y.id) eps
    → Waiting w eps
    → Waiting w' eps
still-Waiting id snap w w' [] e ne h = tt
still-Waiting id snap w w' (ep ∷ eps) e ne ((s, g, o), ds, h) = (
  (s, rw (e, get-set id ep.id) (ground (arith, ==_iff id ep.id, ne.0)), o),
  ds,
  still-Waiting id snap w w' eps e ne.1 h,
)

-- An episode that is held, abandoned: the snapshot that comes back is closed.
abandon_episode_lem :
    (id reason : String) (s : EpisodeSnapshot) (w : World)
    → get id w.by_id ≡ some s
    → (snap : EpisodeSnapshot) × ((abandon_episode id reason w).0 ≡ ok snap)
      × (snap.status ≡ closed)
      × ((abandon_episode id reason w).1.by_id ≡ set id snap w.by_id)
unfolding abandon_episode
abandon_episode_lem id reason s w e =
    let a = abandon_lem id reason s w e in
    rw a.returns (
      a.snap,
      refl,
      a.status,
      decrement_cases (λ v. v.by_id ≡ set id a.snap w.by_id) a.snap.session_id
          (abandon id reason w).1 a.by_id (λ l. a.by_id),
    )

-- The open episodes are among those listed.
abbrev Left : List EpisodeSnapshot → World → Type 0
Left eps w =
    (k : String) (s : EpisodeSnapshot) → get k w.by_id ≡ some s → s.status ≡ opened → Pending k eps

list_open-Left : (w : World) → Consistent w → Left (list_open w) w
unfolding list_open is_open
list_open-Left w c k s h o =
    Pending-values (λ x. is_open x.status) k s w.by_id h ((c.mirrored).sound k s h).keyed
      (rw o refl) (rw o refl)

-- What the first loop of `shutdown` keeps, for the episodes still to come.
abbrev Leaving : List EpisodeSnapshot → World → Type 0
Leaving eps w = Consistent w × Waiting w eps × Left eps w

-- Every held episode is closed.
abbrev pub AllClosed : World → Type 0
AllClosed w = (k : String) (s : EpisodeSnapshot) → get k w.by_id ≡ some s → s.status ≡ closed

Left-AllClosed : (w : World) → Left [] w → AllClosed w
Left-AllClosed w l k s g = elim (status-cases s.status) [ inr p ↦ p | inl p ↦ absurd (l k s g p) ]

-- The cached sessions are among those listed.
abbrev Cached : List String → World → Type 0
Cached ids w = (j : String) → includes j ids ≡ false → get j w.live ≡ none

keys-Cached :
    (m : Map String SessionSnapshot) (j : String) → includes j (keys m) ≡ false → get j m ≡ none
unfolding get
keys-Cached [] j h = refl
keys-Cached ((k, s) ∷ m) j h = ground (arith, h, keys-Cached m j)

-- What the second loop keeps, for the sessions still to come.
abbrev Closing : List String → World → Type 0
Closing ids w = Consistent w × AllClosed w × Cached ids w

-- The body of the first loop.
abbrev leave_one : String → EpisodeSnapshot → Run (Unit {0})
leave_one reason ep = abandon_episode ep.id reason >> pure tt

module _ (reason : String) where
  leave :
      (ep : EpisodeSnapshot) (eps : List EpisodeSnapshot) (w : World)
      → Leaving (ep ∷ eps) w
      → ((leave_one reason ep w).0 ≡ ok tt) × Leaving eps (leave_one reason ep w).1
  leave ep eps w (c, ((s, e, o), ds, h), l) =
      let (snap, returns, done, by_id) = abandon_episode_lem ep.id reason s w e in
      let still = λ (x : EpisodeSnapshot) (g : get ep.id w.by_id ≡ some x).
        let q : s ≡ x = cc (sym e ∙ g) in subst (λ y. y.status ≡ opened) q o in
      rw returns (
        refl,
        (
          abandon_episode-Consistent ep.id w c reason still,
          still-Waiting ep.id snap w (abandon_episode ep.id reason w).1 eps by_id ds h,
          λ k x g p.
              let (ne, before) = survivor ep.id k snap x w.by_id _ by_id done g p in
              Pending-tail k ep eps (l k x before p) ne,
        ),
      )

  close :
      (id : String) (rest : List String) (w : World)
      → Closing (id ∷ rest) w
      → ((close_session id reason w).0 ≡ ok tt) × Closing rest (close_session id reason w).1
  close id rest w (c, idle, cached) =
      let (returns, d) = close_session_lem id reason w (stored_of c) in
      (
        returns,
        (
          with_counts d.stored (close_session-CountsMatch id reason w (stored_of c) c.counts),
          λ k s g. elim (status-cases s.status) [
            | inr p ↦ p
            | inl p ↦
                let (s', g', p') = d.older k s g p in
                let clash : closed ≡ opened = sym (idle k s' g') ∙ p' in absurd (cc clash)
          ],
          λ j n. elim (Bool-cases (id == j)) [
            | inl same ↦ ground (arith, same, d.live, get-delete id j w.live)
            | inr other ↦
                ground (
                  arith,
                  other,
                  d.live,
                  get-delete id j w.live,
                  cached j (ground (arith, other, n)),
                )
          ],
        ),
      )

-- From a state where snapshots, rows and cached counts agree, `shutdown` returns. Every episode
-- that the manager holds is closed then, no session is cached, and snapshots, rows and counts
-- agree again.
pub shutdown_lem :
    (reason : String) (w : World)
    → Consistent w
    → ((shutdown reason w).0 ≡ ok tt)
      × AllClosed (shutdown reason w).1
      × ((j : String) → get j (shutdown reason w).1.live ≡ none)
      × Consistent (shutdown reason w).1
unfolding shutdown
shutdown_lem reason w c =
    let why = str_append "shutdown:" reason in
    let (returns, (k, h, l)) =
      for_each_rule (leave_one why) Leaving (leave why) (list_open w) w
        (c, list_open-Waiting w c, list_open-Left w c) in
    let v = (for_each (leave_one why) (list_open w) w).1 in
    let (ends, (d, e, f)) =
      for_each_rule (λ id. close_session id why) Closing (close why) (keys v.live) v
        (k, Left-AllClosed v l, keys-Cached v.live) in
    rw returns (ends, e, λ j. f j refl, d)
