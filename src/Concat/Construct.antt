-- ===== src/Concat/Construct.antt =====
-- What the constructor of `ConcatOfSlices` makes of its three forms of items.
use mathlib.Core.List.{append-nil, append_assoc}
use hwt_hls.Prelude.{
  ℕ, ◌+◌, ◌-◌, ◌≡◌, refl, sym, ap, ◌∙◌, Bool, true, false, Option, none, some, List, [], ◌∷◌, ◌++◌,
  All, length, length-append, if◌then◌else◌, Bool-cases, inl, inr, arith,
}
use hwt_hls.Concat.{
  Slice, IsSlice, Item, concat_item, tuple_item, value_item, normalize, add_items, list_or,
  append_to, new, total_width,
}
use hwt_hls.Concat.Bits.{
  bits, slice_bits, slices_bits, bits_down, length-bits_down, length-slices_bits,
}
use hwt_hls.Concat.Slicing.{IsValid, All-append, slices_bits-append}

module _ {Value : Type 0} where
  -- Whether the first item that is no tuple is a ConcatOfSlices.
  abbrev pub starts_nested : List (Item Value) → Bool
  starts_nested [] = false
  starts_nested (concat_item c ∷ rest) = true
  starts_nested (tuple_item s ∷ rest) = starts_nested rest
  starts_nested (value_item v ∷ rest) = false

  abbrev pub after_tuples : List (Item Value) → List (Item Value)
  after_tuples (tuple_item s ∷ rest) = after_tuples rest
  after_tuples items = items

  -- The items without the tuples in front of a first ConcatOfSlices.
  abbrev pub kept : List (Item Value) → List (Item Value)
  kept items = if starts_nested items then after_tuples items else items

  abbrev pub IsValidItem : Item Value → Type 0
  IsValidItem (concat_item c) = IsValid c
  IsValidItem (tuple_item s) = IsSlice s
  IsValidItem (value_item v) = Unit

  module _ (bit : Value → ℕ → Bool) (dtype_bit_length : Value → ℕ) where
    -- What an item of the constructor's list stands for.
    abbrev pub item_bits : Item Value → List Bool
    item_bits (concat_item c) = bits bit c
    item_bits (tuple_item s) = slice_bits bit s
    item_bits (value_item v) = bits_down bit v 0 (dtype_bit_length v)

    abbrev pub items_bits : List (Item Value) → List Bool
    items_bits [] = []
    items_bits (i ∷ rest) = item_bits i ++ items_bits rest

    slices_bits-snoc :
        (ss : List (Slice Value)) (s : Slice Value) (rest : List Bool)
        → slices_bits bit (ss ++ s ∷ []) ++ rest ≡ slices_bits bit ss ++ (slice_bits bit s ++ rest)
    slices_bits-snoc ss s rest =
        rw (slices_bits-append bit ss (s ∷ []), append-nil, append_assoc) refl

    whole : (v : Value) → dtype_bit_length v - 0 ≡ dtype_bit_length v
    whole v = omega arith

    -- Once `_slices` is there, every item is added to it.
    own-bits :
        (before own : List (Slice Value)) (w : ℕ) (items : List (Item Value))
        → bits bit (add_items dtype_bit_length before (some own) w items)
          ≡ slices_bits bit own ++ items_bits items
    unfolding add_items
    own-bits before own w [] = sym (append-nil _)
    own-bits before own w (concat_item c ∷ rest) =
        own-bits before (own ++ c.slices) (w + c.bit_length) rest
        ∙ rw (slices_bits-append bit own c.slices, append_assoc) refl
    own-bits before own w (tuple_item s ∷ rest) =
        own-bits (before ++ s ∷ []) (own ++ s ∷ []) (w + (s.high - s.low)) rest
        ∙ slices_bits-snoc own s (items_bits rest)
    own-bits before own w (value_item v ∷ rest) =
        own-bits before (own ++ normalize dtype_bit_length v ∷ []) (w + dtype_bit_length v) rest
        ∙ slices_bits-snoc own (normalize dtype_bit_length v) (items_bits rest)
        ∙ ap (λ n. slices_bits bit own ++ (bits_down bit v 0 n ++ items_bits rest)) (whole v)

    before-bits :
        (before : List (Slice Value)) (w : ℕ) (items : List (Item Value))
        → bits bit (add_items dtype_bit_length before none w items) ≡ (
            if starts_nested items
            then items_bits (after_tuples items)
            else slices_bits bit before ++ items_bits items)
    unfolding add_items
    before-bits before w [] = sym (append-nil _)
    before-bits before w (concat_item c ∷ rest) = own-bits before c.slices (w + c.bit_length) rest
    before-bits before w (tuple_item s ∷ rest) =
        before-bits (before ++ s ∷ []) (w + (s.high - s.low)) rest
        ∙ ap (λ x. if starts_nested rest then items_bits (after_tuples rest) else x)
            (slices_bits-snoc before s (items_bits rest))
    before-bits before w (value_item v ∷ rest) =
        own-bits before (before ++ normalize dtype_bit_length v ∷ []) (w + dtype_bit_length v) rest
        ∙ slices_bits-snoc before (normalize dtype_bit_length v) (items_bits rest)
        ∙ ap (λ n. slices_bits bit before ++ (bits_down bit v 0 n ++ items_bits rest)) (whole v)

    own-ordered :
        (before own : List (Slice Value)) (w : ℕ) (items : List (Item Value))
        → All IsSlice own
        → All IsValidItem items
        → All IsSlice (add_items dtype_bit_length before (some own) w items).slices
    unfolding add_items
    own-ordered before own w [] h k = h
    own-ordered before own w (concat_item c ∷ rest) h (k, ks) =
        own-ordered before (own ++ c.slices) (w + c.bit_length) rest
          (All-append own c.slices h k.ordered) ks
    own-ordered before own w (tuple_item s ∷ rest) h (k, ks) =
        own-ordered (before ++ s ∷ []) (own ++ s ∷ []) (w + (s.high - s.low)) rest
          (All-append own (s ∷ []) h (k, tt)) ks
    own-ordered before own w (value_item v ∷ rest) h (k, ks) =
        own-ordered before (own ++ normalize dtype_bit_length v ∷ []) (w + dtype_bit_length v) rest
          (All-append own (normalize dtype_bit_length v ∷ []) h (omega arith, tt)) ks

    before-ordered :
        (before : List (Slice Value)) (w : ℕ) (items : List (Item Value))
        → All IsSlice before
        → All IsValidItem items
        → All IsSlice (add_items dtype_bit_length before none w items).slices
    unfolding add_items
    before-ordered before w [] h k = h
    before-ordered before w (concat_item c ∷ rest) h (k, ks) =
        own-ordered before c.slices (w + c.bit_length) rest k.ordered ks
    before-ordered before w (tuple_item s ∷ rest) h (k, ks) =
        before-ordered (before ++ s ∷ []) (w + (s.high - s.low)) rest
          (All-append before (s ∷ []) h (k, tt)) ks
    before-ordered before w (value_item v ∷ rest) h (k, ks) =
        own-ordered before (before ++ normalize dtype_bit_length v ∷ []) (w + dtype_bit_length v)
          rest (All-append before (normalize dtype_bit_length v ∷ []) h (omega arith, tt)) ks

    -- The width counts every item, also one whose slices are lost.
    counted :
        (before : List (Slice Value)) (own : Option (List (Slice Value))) (w : ℕ)
        (items : List (Item Value))
        → All IsValidItem items
        → (add_items dtype_bit_length before own w items).bit_length ≡ w + length (items_bits items)
    unfolding add_items total_width
    counted before own w [] h = omega arith
    counted before own w (concat_item c ∷ rest) (h, hs) = omega (
      arith,
      counted before (some (list_or [] own ++ c.slices)) (w + c.bit_length) rest hs,
      h.sized,
      length-slices_bits bit c.slices,
      length-append (slices_bits bit c.slices) (items_bits rest),
    )
    counted before own w (tuple_item s ∷ rest) (h, hs) = omega (
      arith,
      counted (before ++ s ∷ []) (append_to own s) (w + (s.high - s.low)) rest hs,
      length-bits_down bit s.value s.low (s.high - s.low),
      length-append (slice_bits bit s) (items_bits rest),
    )
    counted before own w (value_item v ∷ rest) (h, hs) = omega (
      arith,
      counted before (some (list_or before own ++ normalize dtype_bit_length v ∷ []))
          (w + dtype_bit_length v) rest hs,
      length-bits_down bit v 0 (dtype_bit_length v),
      length-append (bits_down bit v 0 (dtype_bit_length v)) (items_bits rest),
    )

    -- For valid items the constructor makes slices in order, which keep the bits of all items,
    -- in their order, except for those of plain tuples in front of a ConcatOfSlices that is the
    -- first item that is no tuple: these are lost. The width is that of all items, the lost ones
    -- included.
    pub new-bits :
        (items : List (Item Value))
        → All IsValidItem items
        → All IsSlice (new dtype_bit_length items).slices
          × (bits bit (new dtype_bit_length items) ≡ items_bits (kept items))
          × ((new dtype_bit_length items).bit_length ≡ length (items_bits items))
    unfolding new
    new-bits items h =
        let all = before-bits [] 0 items in
        let size = counted [] none 0 items h in
        (
          before-ordered [] 0 items tt h,
          elim (Bool-cases (starts_nested items)) [
            | inl n ↦ rw n (rw n at all)
            | inr n ↦ rw n (rw n at all)
          ],
          omega arith,
        )
