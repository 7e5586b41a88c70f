-- ===== src/Capture/Segments/Split.antt =====
-- core/capture/step-extractor.ts: the loop that splits the turns.
use memos_qdrant.Shared.{
  ◌≡◌, refl, ap, true, false, List, [], ◌∷◌, ◌++◌, All, Bool-cases, inl, inr, ◌∙◌, append_assoc,
  drop, All-append,
}
use memos_qdrant.Session.Types.{EpisodeTurn}
use memos_qdrant.Capture.Segments.{is_user, segments_from}

abbrev pub concat_all : List (List EpisodeTurn) → List EpisodeTurn
concat_all [] = []
concat_all (s ∷ ss) = s ++ concat_all ss

abbrev pub NoUser : List EpisodeTurn → Type 0
NoUser = All (λ t. is_user t.role ≡ false)

-- A segment has a turn, and no turn after the first is one of the user.
abbrev pub IsSegment : List EpisodeTurn → Type 0
IsSegment [] = ⊥
IsSegment (t ∷ ts) = NoUser ts

abbrev pub StartsByUser : List EpisodeTurn → Type 0
StartsByUser [] = ⊥
StartsByUser (t ∷ ts) = is_user t.role ≡ true

cut :
    (c : EpisodeTurn) (cs : List EpisodeTurn) (t : EpisodeTurn) (ts : List EpisodeTurn)
    → is_user t.role ≡ true
    → segments_from (c ∷ cs) (t ∷ ts) ≡ (c ∷ cs) ∷ segments_from (t ∷ []) ts
unfolding segments_from
cut c cs t ts e = rw (e, segments_from) refl

grown :
    (c : EpisodeTurn) (cs : List EpisodeTurn) (t : EpisodeTurn) (ts : List EpisodeTurn)
    → is_user t.role ≡ false
    → segments_from (c ∷ cs) (t ∷ ts) ≡ segments_from (c ∷ cs ++ (t ∷ [])) ts
unfolding segments_from
grown c cs t ts e = rw (e, segments_from) refl

started :
    (t : EpisodeTurn) (ts : List EpisodeTurn)
    → segments_from [] (t ∷ ts) ≡ segments_from (t ∷ []) ts
unfolding segments_from
started t ts = elim (Bool-cases (is_user t.role)) [
  | inl e ↦ rw (e, segments_from) refl
  | inr e ↦ rw (e, segments_from) refl
]

concat_all-segments_from :
    (c : EpisodeTurn) (cs ts : List EpisodeTurn)
    → concat_all (segments_from (c ∷ cs) ts) ≡ c ∷ cs ++ ts
unfolding segments_from
concat_all-segments_from c cs [] = refl
concat_all-segments_from c cs (t ∷ ts) = elim (Bool-cases (is_user t.role)) [
  | inl e ↦
      ap concat_all (cut c cs t ts e) ∙ ap (λ l. c ∷ cs ++ l) (concat_all-segments_from t [] ts)
  | inr e ↦
      ap concat_all (grown c cs t ts e)
      ∙ (concat_all-segments_from c (cs ++ (t ∷ [])) ts ∙ ap (◌∷◌ c) (append_assoc cs (t ∷ []) ts))
]

segments_from-IsSegment :
    (c : EpisodeTurn) (cs ts : List EpisodeTurn)
    → NoUser cs
    → All IsSegment (segments_from (c ∷ cs) ts)
unfolding segments_from
segments_from-IsSegment c cs [] h = (h, tt)
segments_from-IsSegment c cs (t ∷ ts) h = elim (Bool-cases (is_user t.role)) [
  | inl e ↦ rw (cut c cs t ts e) (h, segments_from-IsSegment t [] ts tt)
  | inr e ↦ rw (grown c cs t ts e) (
      segments_from-IsSegment c (cs ++ (t ∷ [])) ts
        (All-append (λ t. is_user t.role ≡ false) cs (t ∷ []) h (e, tt)))
]

segments_from-StartsByUser :
    (c : EpisodeTurn) (cs ts : List EpisodeTurn)
    → is_user c.role ≡ true
    → All StartsByUser (segments_from (c ∷ cs) ts)
unfolding segments_from
segments_from-StartsByUser c cs [] h = (h, tt)
segments_from-StartsByUser c cs (t ∷ ts) h = elim (Bool-cases (is_user t.role)) [
  | inl e ↦ rw (cut c cs t ts e) (h, segments_from-StartsByUser t [] ts e)
  | inr e ↦ rw (grown c cs t ts e) (segments_from-StartsByUser c (cs ++ (t ∷ [])) ts h)
]

later-StartsByUser :
    (c : EpisodeTurn) (cs ts : List EpisodeTurn)
    → All StartsByUser (drop 1 (segments_from (c ∷ cs) ts))
unfolding segments_from
later-StartsByUser c cs [] = tt
later-StartsByUser c cs (t ∷ ts) = elim (Bool-cases (is_user t.role)) [
  | inl e ↦ rw (cut c cs t ts e) (segments_from-StartsByUser t [] ts e)
  | inr e ↦ rw (grown c cs t ts e) (later-StartsByUser c (cs ++ (t ∷ [])) ts)
]

-- The split of the turns of an episode: the segments one after the other are the turns, each
-- segment has a turn, its turns after the first are none of the user's, and each segment but the
-- first starts at a turn of the user.
pub segments_lem :
    (turns : List EpisodeTurn)
    → (concat_all (segments_from [] turns) ≡ turns)
      × All IsSegment (segments_from [] turns)
      × All StartsByUser (drop 1 (segments_from [] turns))
unfolding segments_from
segments_lem [] = (refl, tt, tt)
segments_lem (t ∷ ts) = rw (started t ts) (
  concat_all-segments_from t [] ts,
  segments_from-IsSegment t [] ts tt,
  later-StartsByUser t [] ts,
)
