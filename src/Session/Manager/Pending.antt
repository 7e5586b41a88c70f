-- ===== src/Session/Manager/Pending.antt =====
-- The loops of `closeSession` and `shutdown` over snapshots that were listed before: which open
-- episodes are still to come, and that each listed one is still held.
use memos_qdrant.Shared.{
  String, ◌≡◌, refl, sym, subst, ◌∙◌, ap, ◌≢◌, Bool, true, false, some, List, [], ◌∷◌, ◌⊎◌, inl,
  inr, arith, string_eq, ==_iff, ◌==◌, if◌then◌else◌, Bool-cases, keep, All,
}
use memos_qdrant.Shared.Keyed.{Map, get, set, get-set, Entries, Entries-imp, Distinct-get}
use memos_qdrant.Session.Types.{opened, closed, is_open, EpisodeSnapshot}
use memos_qdrant.Session.Db.{values}
use memos_qdrant.Session.World.{World}
use memos_qdrant.Session.Episodes.Mirror.{Mirrored}

-- A listed snapshot with the id, open when it was listed.
abbrev pub Pending : String → List EpisodeSnapshot → Type 0
Pending k [] = ⊥
Pending k (ep ∷ eps) = ((ep.id ≡ k) × (is_open ep.status ≡ true)) ⊎ Pending k eps

-- An episode of a session that `P` picks is held under the id of the snapshot.
abbrev pub Held {ℓ} : (String → Type ℓ) → World → EpisodeSnapshot → Type ℓ
Held P w ep = (s : EpisodeSnapshot) × (get ep.id w.by_id ≡ some s) × P s.session_id

pub held_after {ℓ} :
    (P : String → Type ℓ) (w w' : World) (id : String) (snap : EpisodeSnapshot)
    (eps : List EpisodeSnapshot)
    → w'.by_id ≡ set id snap w.by_id
    → P snap.session_id
    → All (Held P w) eps
    → All (Held P w') eps
held_after P w w' id snap [] e p h = tt
held_after P w w' id snap (ep ∷ eps) e p h = (
  elim (Bool-cases (id == ep.id)) [
    | inl same ↦ (snap, rw (e, get-set id ep.id) (rw same refl), p)
    | inr other ↦ (h.0.0, rw (e, get-set id ep.id) (rw other h.0.1), h.0.2)
  ],
  held_after P w w' id snap eps e p h.1,
)

values-All {ℓ} :
    (P : EpisodeSnapshot → Type ℓ) (m : Map String EpisodeSnapshot)
    → Entries (λ k s. P s) m
    → All P (values m)
unfolding values
values-All P [] h = tt
values-All P ((k, s) ∷ m) h = (h.0, values-All P m h.1)

-- What is held is held under its id.
pub values-Held : (w : World) → Mirrored w → All (λ s. get s.id w.by_id ≡ some s) (values w.by_id)
values-Held w m = values-All _ w.by_id (
    Entries-imp w.by_id (λ k s h. ap (λ i. get i w.by_id) (m.sound k s h).keyed ∙ h)
      (Distinct-get w.by_id m.distinct))

-- A test that every listed snapshot passes.
pub All-test :
    (p : EpisodeSnapshot → Bool) (xs : List EpisodeSnapshot) → All (λ s. p s ≡ true) (keep p xs)
All-test p [] = tt
All-test p (x ∷ xs) = elim (Bool-cases (p x)) [
  | inl e ↦ rw e (e, All-test p xs)
  | inr e ↦ rw e (All-test p xs)
]

-- An open episode that passes the test is pending when the list is made.
pub Pending-values :
    (p : EpisodeSnapshot → Bool) (k : String) (s : EpisodeSnapshot) (m : Map String EpisodeSnapshot)
    → get k m ≡ some s
    → s.id ≡ k
    → p s ≡ true
    → is_open s.status ≡ true
    → Pending k (keep p (values m))
unfolding values get
Pending-values p k s [] h i t o = absurd (cc)
Pending-values p k s ((j, x) ∷ m) h i t o = elim (Bool-cases (j == k)) [
  | inl same ↦
      let q : s ≡ x = ground (arith, same, h) in
      subst (λ y. Pending k (if p y then y ∷ keep p (values m) else keep p (values m))) q
        (rw t (inl (i, o)))
  | inr other ↦ elim (Bool-cases (p x)) [
    | inl e ↦ rw e (inr (Pending-values p k s m (ground (arith, other)) i t o))
    | inr e ↦ rw e (Pending-values p k s m (ground (arith, other)) i t o)
  ]
]

-- What is still open after a closed snapshot is written is another episode, as it was before.
pub survivor :
    (id k : String) (snap x : EpisodeSnapshot) (m m' : Map String EpisodeSnapshot)
    → m' ≡ set id snap m
    → snap.status ≡ closed
    → get k m' ≡ some x
    → x.status ≡ opened
    → (id ≢ k) × (get k m ≡ some x)
survivor id k snap x m m' e c h o = elim (Bool-cases (id == k)) [
  | inl same ↦
      let q : snap ≡ x = ground (arith, same, e, get-set id k snap m) in
      let clash : closed ≡ opened = sym c ∙ ap (λ y. y.status) q ∙ o in absurd (cc clash)
  | inr other ↦
      (λ p. ground (arith, other, p, ==_iff id k), ground (arith, other, e, get-set id k snap m))
]

pub Pending-tail :
    (k : String) (ep : EpisodeSnapshot) (eps : List EpisodeSnapshot)
    → Pending k (ep ∷ eps)
    → ep.id ≢ k
    → Pending k eps
Pending-tail k ep eps (inl h) ne = absurd (ne h.0)
Pending-tail k ep eps (inr h) ne = h

-- A snapshot that was listed closed leaves nothing pending.
pub Pending-closed :
    (k : String) (ep : EpisodeSnapshot) (eps : List EpisodeSnapshot)
    → Pending k (ep ∷ eps)
    → is_open ep.status ≡ false
    → Pending k eps
Pending-closed k ep eps (inl h) e = absurd (cc (h.1, e))
Pending-closed k ep eps (inr h) e = h
