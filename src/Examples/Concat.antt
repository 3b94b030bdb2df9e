-- ===== src/Examples/Concat.antt =====
-- The concatenation of tests/utils/concatOfSlices_test.py: variables a, b and c of 1, 2 and 3 bits.
use hwt_hls.Prelude.{
  ℕ, ◌-◌, ◌≡◌, ◌↔◌, refl, Bool, true, List, [], ◌∷◌, ◌==◌, take, drop, length, All, arith,
}
use hwt_hls.Prelude.Int.{pos}
use hwt_hls.Prelude.Result.{ok, err, index_error}
use hwt_hls.Concat.{
  Slice, IsSlice, ConcatOfSlices, Item, concat_item, tuple_item, value_item, new, total_width,
  concat, slice,
}
use hwt_hls.Concat.Bits.{bits}
use hwt_hls.Concat.Slicing.{IsValid, InRange, bits-slice, slice_refuses, slice-concat}
use hwt_hls.Concat.Construct.{kept, IsValidItem, items_bits, new-bits}

data Var : Type 0 where
  a b c : Var

abbrev width_of : Var → ℕ
width_of a = 1
width_of b = 2
width_of c = 3

abbrev is_bit : Var → ℕ → Bool
is_bit a i = true
is_bit b i = i == 1
is_bit c i = i == 0

abbrev items : List (Item Var)
items = value_item a ∷ value_item b ∷ value_item c ∷ []

abbrev part : Var → ℕ → ℕ → Slice Var
part v high low = record { value = v; high = high; low = low }

abbrev abc : ConcatOfSlices Var
abc = record { slices = part a 1 0 ∷ part b 2 0 ∷ part c 3 0 ∷ []; bit_length = 6 }

new-items : new width_of items ≡ abc
unfolding new
new-items = refl

slice_at_seam :
    slice abc (pos 4) (pos 2)
    ≡ ok (record { slices = part b 1 0 ∷ part c 3 2 ∷ []; bit_length = 2 })
unfolding slice
slice_at_seam = refl

slice_empty : slice abc (pos 0) (pos 0) ≡ err index_error
unfolding slice
slice_empty = refl

abc-IsValid : IsValid abc
unfolding total_width
abc-IsValid = record { ordered = (omega arith, (omega arith, (omega arith, tt))); sized = refl }

bits-slice_example :
    (r : ConcatOfSlices Var) × (slice abc (pos 4) (pos 2) ≡ ok r)
    × IsValid r
    × (r.bit_length ≡ 4 - 2)
    × (bits is_bit r ≡ take (4 - 2) (drop (6 - 4) (bits is_bit abc)))
bits-slice_example = bits-slice is_bit abc 4 2 abc-IsValid (omega arith) (omega arith)

slice_refuses_example :
    (slice abc (pos 7) (pos 0) ≡ err index_error) ↔ ¬ InRange abc (pos 7) (pos 0)
slice_refuses_example = slice_refuses abc (pos 7) (pos 0)

slice-concat_example :
    ((r : ConcatOfSlices Var) × (slice (concat abc abc) (pos 12) (pos 6) ≡ ok r)
      × (bits is_bit r ≡ bits is_bit abc))
    × ((r : ConcatOfSlices Var) × (slice (concat abc abc) (pos 6) (pos 0) ≡ ok r)
        × (bits is_bit r ≡ bits is_bit abc))
slice-concat_example =
    slice-concat is_bit abc abc abc-IsValid abc-IsValid (omega arith) (omega arith)

-- A plain tuple in front of the first ConcatOfSlices is lost, but its width is counted.
abbrev nested : List (Item Var)
nested =
    tuple_item (part a 1 0)
    ∷ concat_item (record { slices = part b 2 0 ∷ []; bit_length = 2 })
    ∷ value_item c
    ∷ []

new-nested : new width_of nested ≡ record { slices = part b 2 0 ∷ part c 3 0 ∷ []; bit_length = 6 }
unfolding new
new-nested = refl

-- Behind a value it is kept.
new-value_first :
    new width_of (value_item c ∷ nested)
    ≡ record { slices = part c 3 0 ∷ part a 1 0 ∷ part b 2 0 ∷ part c 3 0 ∷ []; bit_length = 9 }
unfolding new
new-value_first = refl

nested-IsValidItem : All IsValidItem nested
unfolding total_width
nested-IsValidItem = (omega arith, (record { ordered = (omega arith, tt); sized = refl }, (tt, tt)))

new-bits_example :
    All IsSlice (new width_of nested).slices
    × (bits is_bit (new width_of nested) ≡ items_bits is_bit width_of (kept nested))
    × ((new width_of nested).bit_length ≡ length (items_bits is_bit width_of nested))
new-bits_example = new-bits is_bit width_of nested nested-IsValidItem
