-- ===== src/Concat/Slicing.antt =====
-- What the operations of `ConcatOfSlices` do to the bits.
use mathlib.Core.List.{append_assoc}
use Prim.Native.Nat.{min}
use hwt_hls.Prelude.{
  ℕ, ◌+◌, ◌-◌, ◌≤◌, ◌<◌, ◌≡◌, ◌↔◌, inl, inr, refl, ap, sym, ◌∙◌, Bool, List, [], ◌∷◌, ◌++◌, length,
  take, drop, All, ltb, leb, Bool-cases, ltb→lt, ltb→le, leb→lt, lt→ltb, le→leb, ◌&&◌, ◌==◌, arith,
}
use hwt_hls.Prelude.Windows.{take_all, take_within, drop_past, length-drop, length-take}
use hwt_hls.Prelude.Int.{ℤ, pos, negsuc}
use hwt_hls.Prelude.Result.{ok, err, index_error}
use hwt_hls.Concat.{
  Slice, IsSlice, ConcatOfSlices, width, cut, total_width, concat, slice_at, slice,
}
use hwt_hls.Concat.Bits.{bits, slices_bits, length-slices_bits, cut-TakesWindow}

module _ {Value : Type 0} where
  -- The width that is kept beside the slices is theirs, and no slice ends below its low end.
  pub record IsValid (c : ConcatOfSlices Value) : Type 0 where
    pub ordered : All IsSlice c.slices
    pub sized : c.bit_length ≡ total_width c.slices

  total_width-append :
      (xs ys : List (Slice Value)) → total_width (xs ++ ys) ≡ total_width xs + total_width ys
  unfolding total_width
  total_width-append [] ys = omega arith
  total_width-append (x ∷ xs) ys = omega (arith, total_width-append xs ys)

  pub All-append :
      (xs ys : List (Slice Value)) → All IsSlice xs → All IsSlice ys → All IsSlice (xs ++ ys)
  All-append [] ys h k = k
  All-append (x ∷ xs) ys (h, hs) k = (h, All-append xs ys hs k)

  pub concat-IsValid : (c d : ConcatOfSlices Value) → IsValid c → IsValid d → IsValid (concat c d)
  unfolding concat
  concat-IsValid c d v w = record {
    ordered = All-append c.slices d.slices v.ordered w.ordered;
    sized = omega (arith, total_width-append c.slices d.slices, v.sized, w.sized);
  }

  bit_length-concat :
      (c d : ConcatOfSlices Value) → (concat c d).bit_length ≡ c.bit_length + d.bit_length
  unfolding concat
  bit_length-concat c d = refl

  cut-ordered :
      (high low : ℕ) (ss : List (Slice Value))
      → low < high
      → low < total_width ss
      → All IsSlice ss
      → All IsSlice (cut high low (total_width ss) ss)
  unfolding cut total_width
  cut-ordered high low [] h k o = tt
  cut-ordered high low (s ∷ rest) h k (o, os) =
      let rest_is : width s + total_width rest - width s ≡ total_width rest = omega arith in
      let more = λ (lt : low < total_width rest). cut-ordered high low rest h lt os in
      rw rest_is (elim (Bool-cases (ltb (total_width rest) high)) [
        | inl e ↦ elim (Bool-cases (leb (total_width rest) low)) [
          | inl f ↦ rw (e, f) (omega (arith, ltb→lt _ _ e), tt)
          | inr f ↦ rw (e, f) (omega (arith, ltb→lt _ _ e), more (leb→lt _ _ f))
        ]
        | inr e ↦ rw e (more (omega (arith, ltb→le _ _ e)))
      ])

  module _ (bit : Value → ℕ → Bool) where
    pub slices_bits-append :
        (xs ys : List (Slice Value))
        → slices_bits bit (xs ++ ys) ≡ slices_bits bit xs ++ slices_bits bit ys
    slices_bits-append [] ys = refl
    slices_bits-append (x ∷ xs) ys = rw (slices_bits-append xs ys, append_assoc)

    pub bits-concat :
        (c d : ConcatOfSlices Value) → bits bit (concat c d) ≡ bits bit c ++ bits bit d
    unfolding concat
    bits-concat c d = slices_bits-append c.slices d.slices

    length-bits : (c : ConcatOfSlices Value) → IsValid c → length (bits bit c) ≡ c.bit_length
    length-bits c v = length-slices_bits bit c.slices ∙ sym v.sized

    cut_part : ConcatOfSlices Value → ℕ → ℕ → ConcatOfSlices Value
    cut_part c high low =
        let res = cut high low c.bit_length c.slices in
        record { slices = res; bit_length = total_width res }

    module _ (c : ConcatOfSlices Value) (high low : ℕ) (v : IsValid c) (h : low < high)
        (k : high ≤ c.bit_length) where
      bits-cut_part :
          bits bit (cut_part c high low)
          ≡ take (high - low) (drop (c.bit_length - high) (bits bit c))
      unfolding cut_part
      bits-cut_part =
          let least : min c.bit_length high - low ≡ high - low = omega arith in
          rw (v.sized) (
            cut-TakesWindow bit high low c.slices h (omega (arith, v.sized))
            ∙ ap (λ n. take n (drop (total_width c.slices - high) (slices_bits bit c.slices)))
                (rw v.sized at least))

      kept_is : length (take (high - low) (drop (c.bit_length - high) (bits bit c))) ≡ high - low
      kept_is =
          length-take (high - low) (drop (c.bit_length - high) (bits bit c))
            (omega (arith, length-drop (c.bit_length - high) (bits bit c), length-bits c v))

      slices_width : length (bits bit (cut_part c high low)) ≡ (cut_part c high low).bit_length
      unfolding cut_part
      slices_width = length-slices_bits bit (cut high low c.bit_length c.slices)

      width-cut_part : (cut_part c high low).bit_length ≡ high - low
      width-cut_part = omega (arith, kept_is, slices_width, ap length bits-cut_part)

      cut_part-IsValid : IsValid (cut_part c high low)
      unfolding cut_part
      cut_part-IsValid = record {
        ordered = rw v.sized (cut-ordered high low c.slices h (omega (arith, v.sized)) v.ordered);
        sized = refl;
      }

    -- `slice(high, low)` returns for every range within the value, and what it returns stands
    -- for the bits from `low` up to, and without, `high`; it is valid and has that width.
    pub bits-slice :
        (c : ConcatOfSlices Value) (high low : ℕ)
        → IsValid c
        → low < high
        → high ≤ c.bit_length
        → (r : ConcatOfSlices Value) × (slice c (pos high) (pos low) ≡ ok r)
          × IsValid r
          × (r.bit_length ≡ high - low)
          × (bits bit r ≡ take (high - low) (drop (c.bit_length - high) (bits bit c)))
    unfolding slice slice_at
    bits-slice c high low v h k = elim (Bool-cases (low == 0 && high == c.bit_length)) [
      | inl e ↦
          let from_zero : low ≡ 0 = ground arith in
          let to_end : high ≡ c.bit_length = ground arith in
          let skip : c.bit_length - high ≡ 0 = omega arith in
          (
            record { slices = c.slices; bit_length = total_width c.slices },
            rw (lt→ltb low high h, le→leb high c.bit_length k, e),
            record { ordered = v.ordered; sized = refl },
            omega (arith, v.sized),
            rw skip (sym (take_all (high - low) (bits bit c) (omega (arith, length-bits c v)))),
          )
      | inr e ↦ (
        cut_part c high low,
        rw (lt→ltb low high h, le→leb high c.bit_length k, e) (unfold cut_part in refl),
        cut_part-IsValid c high low v h k,
        width-cut_part c high low v h k,
        bits-cut_part c high low v h k,
      )
    ]

    -- Concatenating two values that are not empty and slicing at the seam gives back the bits of
    -- both parts.
    pub slice-concat :
        (c d : ConcatOfSlices Value)
        → IsValid c
        → IsValid d
        → 0 < c.bit_length
        → 0 < d.bit_length
        → ((r : ConcatOfSlices Value) × (slice
                (concat c d)
                (pos (c.bit_length + d.bit_length))
                (pos d.bit_length)
              ≡ ok r)
            × (bits bit r ≡ bits bit c))
          × ((r : ConcatOfSlices Value) × (slice (concat c d) (pos d.bit_length) (pos 0) ≡ ok r)
              × (bits bit r ≡ bits bit d))
    slice-concat c d v w c_pos d_pos = (upper, lower)
      where
        both : IsValid (concat c d)
        both = concat-IsValid c d v w

        sum : (concat c d).bit_length ≡ c.bit_length + d.bit_length
        sum = bit_length-concat c d

        upper_window :
            take (c.bit_length + d.bit_length - d.bit_length) (
              drop
                ((concat c d).bit_length - (c.bit_length + d.bit_length))
                (bits bit (concat c d)))
            ≡ bits bit c
        upper_window =
            let skip : (concat c d).bit_length - (c.bit_length + d.bit_length) ≡ 0 =
              omega (arith, sum) in
            let count : c.bit_length + d.bit_length - d.bit_length ≡ length (bits bit c) =
              omega (arith, length-bits c v) in
            rw (bits-concat c d, skip, count)
              (take_within (length (bits bit c)) (bits bit c) (bits bit d) (omega arith)
                ∙ take_all (length (bits bit c)) (bits bit c) (omega arith))

        lower_window :
            take
              (d.bit_length - 0)
              (drop ((concat c d).bit_length - d.bit_length) (bits bit (concat c d)))
            ≡ bits bit d
        lower_window =
            let seam : (concat c d).bit_length - d.bit_length ≡ length (bits bit c) + 0 =
              omega (arith, sum, length-bits c v) in
            rw
              (
                bits-concat c d,
                drop_past ((concat c d).bit_length - d.bit_length) 0 (bits bit c) (bits bit d) seam,
              )
              (take_all (d.bit_length - 0) (bits bit d) (omega (arith, length-bits d w)))

        upper :
            (r : ConcatOfSlices Value) × (slice
                (concat c d)
                (pos (c.bit_length + d.bit_length))
                (pos d.bit_length)
              ≡ ok r)
            × (bits bit r ≡ bits bit c)
        upper =
            let (r, e, _, _, b) =
              bits-slice (concat c d) (c.bit_length + d.bit_length) d.bit_length both (omega arith)
                (omega (arith, sum)) in
            (r, e, b ∙ upper_window)

        lower :
            (r : ConcatOfSlices Value) × (slice (concat c d) (pos d.bit_length) (pos 0) ≡ ok r)
            × (bits bit r ≡ bits bit d)
        lower =
            let (r, e, _, _, b) =
              bits-slice (concat c d) d.bit_length 0 both d_pos (omega (arith, sum)) in
            (r, e, b ∙ lower_window)

  -- The ranges that `slice` accepts.
  abbrev pub InRange : ConcatOfSlices Value → ℤ → ℤ → Type 0
  InRange c (pos high) (pos low) = (low < high) × (high ≤ c.bit_length)
  InRange c (negsuc high) (pos low) = ⊥
  InRange c high (negsuc low) = ⊥

  -- `slice` raises IndexError exactly for the ranges that are empty, or not within the value.
  pub slice_refuses :
      (c : ConcatOfSlices Value) (high low : ℤ)
      → (slice c high low ≡ err index_error) ↔ ¬ InRange c high low
  unfolding slice slice_at
  slice_refuses c (pos high) (pos low) = ground arith
  slice_refuses c (negsuc high) (pos low) = (λ e x. x, λ x. refl)
  slice_refuses c (pos high) (negsuc low) = (λ e x. x, λ x. refl)
  slice_refuses c (negsuc high) (negsuc low) = (λ e x. x, λ x. refl)
