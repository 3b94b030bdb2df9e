-- ===== src/Concat.antt =====
-- `ConcatOfSlices` (hwtHls/ssa/transformation/utils/concatOfSlices.py). The variables and constants
-- that are sliced are a parameter, with the width of their type.
pub mod Bits
pub mod Slicing
pub mod Construct
use hwt_hls.Prelude.{
  ℕ, ◌+◌, ◌-◌, ◌≤◌, List, [], ◌∷◌, ◌++◌, Bool, Option, none, some, ◌&&◌, ltb, leb, ◌==◌,
  if◌then◌else◌,
}
use Prim.Native.Nat.{min, max}
use hwt_hls.Prelude.Int.{ℤ, pos, negsuc}
use hwt_hls.Prelude.Result.{Result, ok, err, index_error}

module _ (Value : Type 0) where
  -- (variable, high bit number, low bit number); the high bit is not included
  pub record Slice : Type 0 where
    pub value : Value
    pub high : ℕ
    pub low : ℕ

  pub record ConcatOfSlices : Type 0 where
    pub slices : List Slice
    pub bit_length : ℕ

  -- The items that the constructor takes: `isinstance` tells them apart.
  pub data Item : Type 0 where
    concat_item : ConcatOfSlices → Item
    tuple_item : Slice → Item
    value_item : Value → Item

module _ {Value : Type 0} where
  abbrev pub width : Slice Value → ℕ
  width s = s.high - s.low

  abbrev pub IsSlice : Slice Value → Type 0
  IsSlice s = s.low ≤ s.high

  -- `_slices`, or another list where it is None
  abbrev pub list_or : List (Slice Value) → Option (List (Slice Value)) → List (Slice Value)
  list_or other none = other
  list_or other (some own) = own

  -- `_slices.append(s)`, where it is not None
  abbrev pub append_to : Option (List (Slice Value)) → Slice Value → Option (List (Slice Value))
  append_to none s = none
  append_to (some own) s = some (own ++ s ∷ [])

  module _ (dtype_bit_length : Value → ℕ) where
    -- A value without a range is taken as a whole.
    abbrev pub normalize : Value → Slice Value
    normalize v = record { value = v; high = dtype_bit_length v; low = 0 }

    -- The loop of the constructor: the items before the current one, as long as they are tuples;
    -- `_slices`; and `w`. The first item that is no tuple makes the list `_slices`: a value starts
    -- it with the tuples before, a ConcatOfSlices starts it empty.
    unfoldable pub add_items :
        List (Slice Value)
        → Option (List (Slice Value))
        → ℕ
        → List (Item Value)
        → ConcatOfSlices Value
    add_items before own w [] = record { slices = list_or before own; bit_length = w }
    add_items before own w (concat_item c ∷ rest) =
        add_items before (some (list_or [] own ++ c.slices)) (w + c.bit_length) rest
    add_items before own w (tuple_item s ∷ rest) =
        add_items (before ++ s ∷ []) (append_to own s) (w + width s) rest
    add_items before own w (value_item v ∷ rest) =
        add_items before (some (list_or before own ++ normalize v ∷ [])) (w + dtype_bit_length v)
          rest

    -- `__init__`
    unfoldable pub new : List (Item Value) → ConcatOfSlices Value
    unfolding add_items
    new items = add_items [] none 0 items

  unfoldable pub concat : ConcatOfSlices Value → ConcatOfSlices Value → ConcatOfSlices Value
  concat self other = record {
    slices = self.slices ++ other.slices;
    bit_length = self.bit_length + other.bit_length;
  }

  -- The loop of `slice`; `h_offset` is the position of the current slice's high end. The list that
  -- is returned goes to the constructor, which for tuples adds up their widths.
  unfoldable pub cut : (high low h_offset : ℕ) → List (Slice Value) → List (Slice Value)
  cut high low h_offset [] = []
  cut high low h_offset (s ∷ rest) =
      let abs_low = h_offset - width s in
      let piece : Slice Value = record {
        value = s.value;
        high = s.low + min h_offset high - abs_low;
        low = s.low + max abs_low low - abs_low;
      } in
      let later = cut high low (h_offset - width s) rest in
      if ltb abs_low high then piece ∷ (if leb abs_low low then [] else later) else later

  unfoldable pub total_width : List (Slice Value) → ℕ
  total_width [] = 0
  total_width (s ∷ rest) = width s + total_width rest

  -- the tests of `slice` for positions that are not negative
  unfoldable pub slice_at : ConcatOfSlices Value → ℕ → ℕ → Result (ConcatOfSlices Value)
  unfolding cut total_width
  slice_at self high low =
      let res = cut high low self.bit_length self.slices in
      if ltb low high && leb high self.bit_length
      then (if low == 0 && high == self.bit_length
          then ok (record { slices = self.slices; bit_length = total_width self.slices })
          else ok (record { slices = res; bit_length = total_width res }))
      else err index_error

  -- `not (high > low and high <= self.bit_length and low >= 0)` is an IndexError
  unfoldable pub slice : ConcatOfSlices Value → ℤ → ℤ → Result (ConcatOfSlices Value)
  unfolding slice_at
  slice self (pos high) (pos low) = slice_at self high low
  slice self (negsuc high) (pos low) = err index_error
  slice self high (negsuc low) = err index_error
