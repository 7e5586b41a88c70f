-- ===== src/Capture/Normalizer/Bounds.antt =====
-- core/capture/normalizer.ts: how long a text is after `clampText`.
use Prim.Native.String.{◌++◌ as str_append}
use Prim.Native.String as S
use memos_qdrant.Shared.{
  ℕ, ◌+◌, ◌-◌, ◌≤◌, max, String, ◌≡◌, true, false, Bool-cases, ◌⊎◌, ◌<◌, refl, ap, inl, inr, arith,
  leb, leb→le,
}
use memos_qdrant.Shared.Text.{is_empty, trim_start, trim_end}
use memos_qdrant.Capture.Normalizer.{Texts, clamp_text, slice_tail, trunc_marker}

-- What a string of UTF-16 units and the two roundings have: a product with 0.55 that is rounded up
-- and one with 0.45 that is rounded down add up to one more than the number at most.
pub record TextLaws (x : Texts) : Type 0 where
  pub size-empty : x.size "" ≡ 0
  pub size-append : (s t : String) → x.size (str_append s t) ≤ x.size s + x.size t
  pub size-slice : (s : String) (i j : ℕ) → x.size (x.slice s i j) ≤ j - i
  pub size-trim_start : (s : String) → x.size (trim_start s) ≤ x.size s
  pub size-trim_end : (s : String) → x.size (trim_end s) ≤ x.size s
  pub parts : (n : ℕ) → x.ceil_55 n + x.floor_45 n ≤ n + 1

module _ (x : Texts) (laws : TextLaws x) where
  slice_tail-le : (s : String) (k : ℕ) → x.size (slice_tail x s k) ≤ k
  slice_tail-le s k =
      let n = x.size s in
      elim (Bool-cases (leb k n)) [
        | inl e ↦ rw e (omega (arith, laws.size-slice s (n - k) n, leb→le k n e))
        | inr e ↦
            rw e (
              let lt : n ≤ k = ground arith in omega (arith, laws.size-slice s (n - (k - n)) n, lt))
      ]

  cut-le :
      (text : String) (n : ℕ)
      → x.size (
          str_append
            (trim_end (x.slice text 0 (x.ceil_55 n)))
            (str_append trunc_marker (trim_start (slice_tail x text (x.floor_45 n)))))
        ≤ n + x.size trunc_marker + 1
  cut-le text n =
      let head = x.slice text 0 (x.ceil_55 n) in
      let tail = slice_tail x text (x.floor_45 n) in
      let m = laws.size-append (trim_end head) (str_append trunc_marker (trim_start tail)) in
      let k = laws.size-append trunc_marker (trim_start tail) in
      omega (
        arith,
        m,
        k,
        laws.size-trim_end head,
        laws.size-trim_start tail,
        laws.size-slice text 0 (x.ceil_55 n),
        slice_tail-le text (x.floor_45 n),
        laws.parts n,
      )

  empty_eq : (text : String) → is_empty text ≡ true → "" ≡ text
  empty_eq S.[] e = refl
  empty_eq (S.◌∷◌ c s) e = absurd (cc e)

  -- `clampText` leaves a text of at most `maxChars` units as it is and says so; it says that a
  -- longer one is truncated, to at most 200 or `maxChars` less the marker, whichever is more, plus
  -- the marker and one unit.
  pub clamp_text_bound :
      (text : String) (max_chars : ℕ)
      → let r = clamp_text x text max_chars in
        ((r.1 ≡ false) × (r.0 ≡ text) × (x.size text ≤ max_chars))
        ⊎ ((r.1 ≡ true)
            × (max_chars < x.size text)
            × (x.size r.0 ≤ max 200 (max_chars - x.size trunc_marker) + x.size trunc_marker + 1))
  unfolding clamp_text
  clamp_text_bound text max_chars =
      let budget = max 200 (max_chars - x.size trunc_marker) in
      elim (Bool-cases (is_empty text)) [
        | inl e ↦
            let q = empty_eq text e in
            simp e (inl (refl, q, omega (arith, ap x.size q, laws.size-empty)))
        | inr e ↦ elim (Bool-cases (leb (x.size text) max_chars)) [
          | inl l ↦ simp (e, l) (inl (refl, refl, leb→le (x.size text) max_chars l))
          | inr l ↦ simp (e, l) (inr (refl, ground arith, cut-le text budget))
        ]
      ]
