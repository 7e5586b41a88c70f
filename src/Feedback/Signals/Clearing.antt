-- ===== src/Feedback/Signals/Clearing.antt =====
-- core/feedback/signals.ts: what `clear` forgets.
use text.Mathlib.Text.{◌==◌ as str_beq}
use memos_qdrant.Shared.{
  String, ◌≡◌, refl, sym, ◌∙◌, ap, true, false, Option, none, some, [], ◌∷◌, string_eq, ◌==◌,
  ==_iff, if◌then◌else◌, Bool-cases, inl, inr,
}
use memos_qdrant.Shared.Keyed.{Map, get, delete, get-delete, Distinct}
use memos_qdrant.Feedback.Hash.{context_hash_of}
use memos_qdrant.Feedback.Signals.{
  FeedbackConfig, FailureState, FailureSignals, clear, clear_matching,
}

module _ (sha1_hex : String → String) (config : FeedbackConfig) (context_hash : String) where
  -- What is left of a value of the pair whose state is `o`.
  abbrev pub spared {ℓ} : {A : Type ℓ} → Option FailureState → Option A → Option A
  spared none a = a
  spared (some v) a =
      if context_hash_of sha1_hex v.tool_id v.context == context_hash then none else a

  spared-none {ℓ} : {A : Type ℓ} (o : Option FailureState) → spared {A = A} o none ≡ none
  spared-none none = refl
  spared-none (some v) =
      elim (Bool-cases (context_hash_of sha1_hex v.tool_id v.context == context_hash)) [
        | inl e ↦ rw e refl
        | inr e ↦ rw e refl
      ]

  spared-match {ℓ} :
      {A : Type ℓ} (v : FailureState) (a : Option A)
      → (context_hash_of sha1_hex v.tool_id v.context == context_hash) ≡ true
      → spared (some v) a ≡ none
  spared-match v a e = rw (spared, e) refl

  module _ {ℓ} {A : Type ℓ} (j k : String) (v : FailureState) (o : Option FailureState)
      (m : Map String A) where
    hit :
        (context_hash_of sha1_hex v.tool_id v.context == context_hash) ≡ true
        → spared o (get k (delete j m)) ≡ spared (if j == k then some v else o) (get k m)
    hit e = elim (Bool-cases (j == k)) [
      | inl same ↦ rw (get-delete j k m, same) (spared-none o ∙ sym (spared-match v (get k m) e))
      | inr other ↦ rw (get-delete j k m, other) refl
    ]

    miss :
        (context_hash_of sha1_hex v.tool_id v.context == context_hash) ≡ false
        → ((j == k) ≡ true → o ≡ none)
        → spared o (get k m) ≡ spared (if j == k then some v else o) (get k m)
    miss e d = elim (Bool-cases (j == k)) [
      | inl same ↦ rw (same, d same, spared, e) refl
      | inr other ↦ rw other refl
    ]

  matching_lem :
      (k : String) (rest : Map String FailureState) (s : FailureSignals)
      → Distinct rest
      → (get k (clear_matching sha1_hex config context_hash rest s).states
          ≡ spared (get k rest) (get k s.states))
        × (get k (clear_matching sha1_hex config context_hash rest s).successes
            ≡ spared (get k rest) (get k s.successes))
  unfolding clear_matching get
  matching_lem k [] s d = (refl, refl)
  matching_lem k ((j, v) ∷ rest) s d =
      elim (Bool-cases (context_hash_of sha1_hex v.tool_id v.context == context_hash)) [
        | inl e ↦
            let (p, q) =
              matching_lem k rest
                (record { states = delete j s.states; successes = delete j s.successes }) d.1 in
            rw (get, clear_matching, e)
              (p ∙ hit j k v (get k rest) s.states e, q ∙ hit j k v (get k rest) s.successes e)
        | inr e ↦
            let (p, q) = matching_lem k rest s d.1 in
            let absent : (j == k) ≡ true → get k rest ≡ none =
              λ same. ap (λ i. get i rest) (sym ((==_iff j k).0 same)) ∙ d.0 in
            rw (get, clear_matching, e)
              (
                p ∙ miss j k v (get k rest) s.states e absent,
                q ∙ miss j k v (get k rest) s.successes e absent,
              )
      ]

  -- Clearing by a hash that is not empty drops the state and the success of exactly the keys
  -- whose state has that hash. The success of a key that has no state stays.
  pub clear_lem :
      (k : String) (s : FailureSignals)
      → str_beq context_hash "" ≡ false
      → Distinct s.states
      → (get k (clear sha1_hex config (some context_hash) s).states
          ≡ spared (get k s.states) (get k s.states))
        × (get k (clear sha1_hex config (some context_hash) s).successes
            ≡ spared (get k s.states) (get k s.successes))
  unfolding clear
  clear_lem k s ne d = rw (ne, clear) (matching_lem k s.states s d)
