-- ===== src/Allocator/Delays.antt =====
-- How long the register chain of a `TimeIndependentRtlResource` holds its value back.
use hwt_hls.Prelude.{
  ℕ, zero, suc, ◌+◌, ◌-◌, ◌≤◌, ◌≡◌, refl, sym, ap, ◌∙◌, ◌⊎◌, Bool, Option, none, some, List, [],
  ◌∷◌, ◌++◌, ltb, ◌==◌, if◌then◌else◌, length, length-append, get_elem?, Bool-cases, inl, inr,
  arith,
}
use hwt_hls.Prelude.Result.{Result, ok, err, or_raise, index_error}
use hwt_hls.Clock.{start_clk}
use hwt_hls.Allocator.{
  TimeIndependentRtlResourceItem, original, reg, TimeIndependentRtlResource,
  is_in_persistence_ranges, Got, next_item, append_item, add_regs, last_item, look_up, get_now, get,
}

-- The number of registers on the way.
abbrev pub delay : TimeIndependentRtlResourceItem → ℕ
delay original = 0
delay (reg delay_to driver) = suc (delay driver)

get_elem-append_last :
    {A : Type 0} (xs : List A) (x y : A) (i : ℕ)
    → get_elem? (xs ++ x ∷ []) i ≡ some y
    → (get_elem? xs i ≡ some y) ⊎ ((i ≡ length xs) × (x ≡ y))
get_elem-append_last [] x y zero h = inr (refl, cc)
get_elem-append_last [] x y (suc i) h = cc
get_elem-append_last (z ∷ xs) x y zero h = inl h
get_elem-append_last (z ∷ xs) x y (suc i) h = elim (get_elem-append_last xs x y i h) [
  | inl p ↦ inl p
  | inr (p, q) ↦ inr (ap suc p, q)
]

get_elem-last :
    (x : TimeIndependentRtlResourceItem) (xs : List TimeIndependentRtlResourceItem)
    → get_elem? (x ∷ xs) (length xs) ≡ some (last_item x xs)
get_elem-last x [] = refl
get_elem-last x (y ∷ ys) = get_elem-last y ys

get_elem-none : {A : Type 0} (xs : List A) (i : ℕ) → get_elem? xs i ≡ none → length xs ≤ i
get_elem-none [] i h = omega arith
get_elem-none (x ∷ xs) zero h = cc
get_elem-none (x ∷ xs) (suc i) h = let rest = get_elem-none xs i h in omega arith

module _ (ranges : List (ℕ × ℕ)) (first : ℕ) where
  -- The clock edges, of the `n` ones after the first period, at which the value is not persistent.
  abbrev pub edges : ℕ → ℕ
  edges zero = 0
  edges (suc n) = if is_in_persistence_ranges ranges (first + suc n) then edges n else suc (edges n)

  -- Every item of a chain is delayed by the edges up to its clock period.
  abbrev pub IsDelayed : List TimeIndependentRtlResourceItem → Type 0
  IsDelayed values =
      (i : ℕ) (x : TimeIndependentRtlResourceItem) → get_elem? values i ≡ some x → delay x ≡ edges i

  -- What a call for the n-th clock period may give.
  abbrev pub Delayed : ℕ → Got → Type 0
  Delayed n (ok x, values) = IsDelayed values × (delay x ≡ edges n)
  Delayed n (err e, values) = IsDelayed values

  next_item-delay :
      (is_sync : Bool) (n : ℕ) (prev x : TimeIndependentRtlResourceItem)
      → delay prev ≡ edges n
      → next_item is_sync ranges (first + suc n) prev ≡ ok x
      → delay x ≡ edges (suc n)
  unfolding next_item
  next_item-delay is_sync n prev x d h =
      elim (Bool-cases (is_in_persistence_ranges ranges (first + suc n))) [
        | inl p ↦ ground arith
        | inr p ↦ ground arith
      ]

  append-IsDelayed :
      (values : List TimeIndependentRtlResourceItem) (x : TimeIndependentRtlResourceItem)
      → IsDelayed values
      → delay x ≡ edges (length values)
      → IsDelayed (values ++ x ∷ [])
  append-IsDelayed values x inv d i y h = elim (get_elem-append_last values x y i h) [
    | inl p ↦ inv i y p
    | inr (p, q) ↦ cc
  ]

  last_item-delay :
      (vs : List TimeIndependentRtlResourceItem) (k : ℕ)
      → length vs ≡ suc k
      → IsDelayed vs
      → delay (last_item original vs) ≡ edges k
  last_item-delay [] k e i = cc
  last_item-delay (x ∷ xs) k e i =
      let same : length xs ≡ k = omega arith in
      i k (last_item x xs) (rw (← same) (get_elem-last x xs))

  -- What the loop gives, when it goes on well from the item that a step makes.
  append_item-Delayed :
      (n m : ℕ) (values : List TimeIndependentRtlResourceItem)
      (rest : TimeIndependentRtlResourceItem → List TimeIndependentRtlResourceItem → Got)
      (r : Result TimeIndependentRtlResourceItem)
      → IsDelayed values
      → length values ≡ suc n
      → ((x : TimeIndependentRtlResourceItem) → r ≡ ok x → delay x ≡ edges (suc n))
      → ((x : TimeIndependentRtlResourceItem) (added : List TimeIndependentRtlResourceItem)
          → IsDelayed added
          → delay x ≡ edges (suc n)
          → length added ≡ suc (suc n)
          → Delayed m (rest x added))
      → Delayed m (append_item rest r values)
  append_item-Delayed n m values rest (ok x) inv l held k =
      let longer : length (values ++ x ∷ []) ≡ suc (suc n) =
        length-append values (x ∷ []) ∙ rw l (omega arith) in
      let d = held x refl in
      k x (values ++ x ∷ []) (append-IsDelayed values x inv (d ∙ ap edges (sym l))) d longer
  append_item-Delayed n m values rest (err e) inv l held k = inv

  add_regs-Delayed :
      (is_sync : Bool) (i n m : ℕ) (prev : TimeIndependentRtlResourceItem)
      (values : List TimeIndependentRtlResourceItem)
      → IsDelayed values
      → delay prev ≡ edges n
      → length values ≡ suc n
      → m ≡ n + i
      → Delayed m (add_regs is_sync ranges (first + m) i prev values)
  unfolding add_regs
  add_regs-Delayed is_sync zero n m prev values inv d l e =
      let same : m ≡ n = omega arith in (inv, d ∙ ap edges (sym same))
  add_regs-Delayed is_sync (suc i) n m prev values inv d l e =
      let clk : first + m - i ≡ first + suc n = omega arith in
      append_item-Delayed n m values (add_regs is_sync ranges (first + m) i)
        (next_item is_sync ranges (first + m - i) prev) inv l
        (λ x f. next_item-delay is_sync n prev x d (rw clk at f))
        λ x added inv_x held longer.
          add_regs-Delayed is_sync i (suc n) m x added inv_x held longer (omega arith)

  look_up-Delayed :
      (is_sync : Bool) (n k : ℕ) (values : List TimeIndependentRtlResourceItem)
      → IsDelayed values
      → length values ≡ suc k
      → Delayed n (look_up is_sync ranges (first + n) n (get_elem? values n) values)
  unfolding look_up
  look_up-Delayed is_sync n k values inv l = go (get_elem? values n) refl
    where
      go :
          (o : Option TimeIndependentRtlResourceItem)
          → get_elem? values n ≡ o
          → Delayed n (look_up is_sync ranges (first + n) n o values)
      go (some x) e = (inv, inv n x e)
      go none e =
          let after = get_elem-none values n e in
          add_regs-Delayed is_sync (n + 1 - length values) k n (last_item original values) values
            inv (last_item-delay values k l inv) l (omega arith)

  first_item-Delayed :
      (n : ℕ) (values : List TimeIndependentRtlResourceItem)
      (o : Option TimeIndependentRtlResourceItem)
      → n ≡ 0
      → IsDelayed values
      → get_elem? values 0 ≡ o
      → Delayed n (or_raise index_error o, values)
  first_item-Delayed n values none e inv h = inv
  first_item-Delayed n values (some x) e inv h = (inv, inv 0 x h ∙ ap edges (sym e))

get_now-Delayed :
    (clk_period : ℕ) (r : TimeIndependentRtlResource) (offset now k : ℕ)
    → length r.values_in_time ≡ suc k
    → IsDelayed r.persistence_ranges (start_clk offset clk_period) r.values_in_time
    → Delayed r.persistence_ranges
        (start_clk offset clk_period)
        (start_clk now clk_period - start_clk offset clk_period)
        (get_now clk_period r now (some offset))
unfolding get_now
get_now-Delayed clk_period r offset now k l inv = elim (Bool-cases (offset == now)) [
  | inl p ↦
      let same : offset ≡ now = ground arith in
      let none_between : start_clk now clk_period - start_clk offset clk_period ≡ 0 =
        rw same (omega arith) in
      rw p (
        first_item-Delayed r.persistence_ranges (start_clk offset clk_period) _ r.values_in_time
          (get_elem? r.values_in_time 0) none_between inv refl)
  | inr p ↦ elim (Bool-cases (ltb (start_clk now clk_period) (start_clk offset clk_period))) [
    | inl q ↦ rw (p, q) inv
    | inr q ↦
        let later : start_clk offset clk_period
              + (start_clk now clk_period - start_clk offset clk_period)
            ≡ start_clk now clk_period =
          ground arith in
        let found =
          look_up-Delayed r.persistence_ranges (start_clk offset clk_period) r.is_sync
            (start_clk now clk_period - start_clk offset clk_period) k r.values_in_time inv l in
        rw (p, q) (rw later at found)
  ]
]

-- If every item of the chain has passed as many registers as there are clock periods, after the
-- first one and up to its own, at which the value is not persistent, this holds again after
-- `get`, whether it returns or raises, and it holds of the item that it returns for the period
-- of the requested time.
pub get-Delayed :
    (clk_period epsilon : ℕ) (r : TimeIndependentRtlResource) (offset time k : ℕ)
    → r.time_offset ≡ some offset
    → length r.values_in_time ≡ suc k
    → IsDelayed r.persistence_ranges (start_clk offset clk_period) r.values_in_time
    → Delayed r.persistence_ranges
        (start_clk offset clk_period)
        (start_clk (time + epsilon) clk_period - start_clk offset clk_period)
        (get clk_period epsilon r time)
unfolding get
get-Delayed clk_period epsilon r offset time k e l inv =
    rw e (get_now-Delayed clk_period r offset (time + epsilon) k l inv)
