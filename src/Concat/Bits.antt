-- ===== src/Concat/Bits.antt =====
-- The bits that a concatenation of slices stands for, the highest first, and what the operations
-- do to them.
use Prim.Native.Nat.{min, max}
use mathlib.Core.List.{append-nil}
use hwt_hls.Prelude.{
  inl, inr, ℕ, zero, suc, ◌+◌, ◌-◌, ◌≤◌, ◌<◌, ◌≡◌, refl, ap, ap₂, sym, ◌∙◌, Bool, List, [], ◌∷◌,
  ◌++◌, length, take, drop, length-append, ltb, leb, subst, Bool-cases, ltb→lt, ltb→le, leb→le,
  leb→lt, arith,
}
use hwt_hls.Prelude.Windows.{take_within, take_past, drop_within, drop_past, length-drop}
use hwt_hls.Concat.{Slice, ConcatOfSlices, width, cut, total_width}

module _ {Value : Type 0} (bit : Value → ℕ → Bool) where
  -- the n bits of `v` from number `low` upwards, the highest first
  abbrev pub bits_down : Value → ℕ → ℕ → List Bool
  bits_down v low zero = []
  bits_down v low (suc n) = bit v (low + n) ∷ bits_down v low n

  abbrev pub slice_bits : Slice Value → List Bool
  slice_bits s = bits_down s.value s.low (width s)

  abbrev pub slices_bits : List (Slice Value) → List Bool
  slices_bits [] = []
  slices_bits (s ∷ rest) = slice_bits s ++ slices_bits rest

  -- What a concatenation of slices stands for.
  abbrev pub bits : ConcatOfSlices Value → List Bool
  bits c = slices_bits c.slices

  pub length-bits_down : (v : Value) (low n : ℕ) → length (bits_down v low n) ≡ n
  length-bits_down v low zero = refl
  length-bits_down v low (suc n) = ap suc (length-bits_down v low n)

  drop-bits_down : (v : Value) (low n k : ℕ) → drop k (bits_down v low n) ≡ bits_down v low (n - k)
  drop-bits_down v low n zero = let whole : n - 0 ≡ n = omega arith in rw whole
  drop-bits_down v low zero (suc k) = let nothing : zero - suc k ≡ zero = omega arith in rw nothing
  drop-bits_down v low (suc n) (suc k) =
      let less : suc n - suc k ≡ n - k = omega arith in rw less (drop-bits_down v low n k)

  take-bits_down :
      (v : Value) (low n k : ℕ) → k ≤ n → take k (bits_down v low n) ≡ bits_down v (low + (n - k)) k
  take-bits_down v low n zero h = refl
  take-bits_down v low zero (suc k) h = absurd (omega arith)
  take-bits_down v low (suc n) (suc k) h =
      let less : n - k ≡ suc n - suc k = omega arith in
      let same : low + n ≡ low + (suc n - suc k) + k = omega arith in
      ap₂ (λ x y. bit v x ∷ y) same
        (subst (λ m. take k (bits_down v low n) ≡ bits_down v (low + m) k) less
          (take-bits_down v low n k (omega arith)))

  -- A piece of one slice.
  piece_bits :
      (v : Value) (low n skip k : ℕ)
      → skip + k ≤ n
      → take k (drop skip (bits_down v low n)) ≡ bits_down v (low + (n - skip - k)) k
  piece_bits v low n skip k h =
      rw (drop-bits_down v low n skip) (take-bits_down v low (n - skip) k (omega arith))

  pub length-slices_bits : (ss : List (Slice Value)) → length (slices_bits ss) ≡ total_width ss
  unfolding total_width
  length-slices_bits [] = refl
  length-slices_bits (s ∷ rest) = omega (
    arith,
    length-append (slice_bits s) (slices_bits rest),
    length-bits_down s.value s.low (width s),
    length-slices_bits rest,
  )

  -- The loop of `slice` takes the bits from `low` up to `high` of what is left.
  abbrev TakesWindow : ℕ → ℕ → List (Slice Value) → Type 0
  TakesWindow high low ss =
      slices_bits (cut high low (total_width ss) ss)
      ≡ take (min (total_width ss) high - low) (drop (total_width ss - high) (slices_bits ss))

  module _ (high low : ℕ) (s : Slice Value) (rest : List (Slice Value)) (h : low < high)
      (k : low < width s + total_width rest) where
    abbrev a : ℕ
    a = total_width rest

    abbrev top : ℕ
    top = min (width s + a) high

    abbrev window : List Bool
    window = take (top - low) (drop (width s + a - high) (slice_bits s ++ slices_bits rest))

    abbrev piece : List Bool
    piece = bits_down s.value (s.low + max a low - a) (s.low + top - a - (s.low + max a low - a))

    width_is : length (slice_bits s) ≡ width s
    width_is = length-bits_down s.value s.low (width s)

    -- The slice lies above `high`.
    cut_above : high ≤ a → take (min a high - low) (drop (a - high) (slices_bits rest)) ≡ window
    cut_above le =
        let same : min a high - low ≡ top - low = omega arith in
        ap₂ take same (
          sym (
            drop_past (width s + a - high) (a - high) (slice_bits s) (slices_bits rest)
              (omega (arith, width_is))))

    kept :
        a < high
        → drop (width s + a - high) (slice_bits s ++ slices_bits rest)
          ≡ drop (width s + a - high) (slice_bits s) ++ slices_bits rest
    kept lt =
        drop_within (width s + a - high) (slice_bits s) (slices_bits rest) (omega (arith, width_is))

    kept_length : length (drop (width s + a - high) (slice_bits s)) ≡ width s - (width s + a - high)
    kept_length = omega (arith, width_is, length-drop (width s + a - high) (slice_bits s))

    -- The slice holds the last bits that are wanted.
    cut_last : a < high → a ≤ low → piece ++ [] ≡ window
    cut_last lt le =
        let from_low : s.low + (width s - (width s + a - high) - (top - low))
            ≡ s.low + max a low - a =
          omega arith in
        let size : top - low ≡ s.low + top - a - (s.low + max a low - a) = omega arith in
        rw
          (
            append-nil,
            kept lt,
            take_within (top - low) (drop (width s + a - high) (slice_bits s)) (slices_bits rest)
                (omega (arith, kept_length)),
          )
          (sym (
            piece_bits s.value s.low (width s) (width s + a - high) (top - low) (omega arith)
            ∙ ap₂ (bits_down s.value) from_low size))

    -- More slices follow.
    cut_across :
        a < high
        → low < a
        → piece ++ take (min a high - low) (drop (a - high) (slices_bits rest)) ≡ window
    cut_across lt gt =
        let from_low : s.low ≡ s.low + max a low - a = omega arith in
        let size : width s - (width s + a - high) ≡ s.low + top - a - (s.low + max a low - a) =
          omega arith in
        let none_skipped : a - high ≡ 0 = omega arith in
        let count : min a high - low ≡ a - low = omega arith in
        rw
          (
            kept lt,
            none_skipped,
            count,
            take_past (top - low) (a - low) (drop (width s + a - high) (slice_bits s))
                (slices_bits rest) (omega (arith, kept_length)),
          )
          (ap (λ x. x ++ take (a - low) (slices_bits rest))
            (sym (
              drop-bits_down s.value s.low (width s) (width s + a - high)
              ∙ ap₂ (bits_down s.value) from_low size)))

  pub cut-TakesWindow :
      (high low : ℕ) (ss : List (Slice Value))
      → low < high
      → low < total_width ss
      → TakesWindow high low ss
  unfolding cut total_width
  cut-TakesWindow high low [] h k = absurd (omega arith)
  cut-TakesWindow high low (s ∷ rest) h k =
      let rest_is : width s + total_width rest - width s ≡ total_width rest = omega arith in
      rw rest_is (elim (Bool-cases (ltb (total_width rest) high)) [
        | inl e ↦ elim (Bool-cases (leb (total_width rest) low)) [
          | inl f ↦ rw (e, f) (cut_last high low s rest h k (ltb→lt _ _ e) (leb→le _ _ f))
          | inr f ↦
              rw (e, f)
                (rw (cut-TakesWindow high low rest h (leb→lt _ _ f))
                  (cut_across high low s rest h k (ltb→lt _ _ e) (leb→lt _ _ f)))
        ]
        | inr e ↦ rw e (
            rw (cut-TakesWindow high low rest h (omega (arith, ltb→le _ _ e)))
              (cut_above high low s rest h k (ltb→le _ _ e)))
      ])
