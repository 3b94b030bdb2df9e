-- ===== src/Netlist/OpCache/Defined.antt =====
-- What becomes of the inputs that were linked to a placeholder.
use hwt_hls.Prelude.{
  ℕ, suc, ◌≡◌, refl, Bool, true, false, ◌||◌, none, some, List, [], ◌∷◌, ◌++◌, map, contains, ◌==◌,
  if◌then◌else◌, Bool-cases, inl, inr, arith,
}
use hwt_hls.Prelude.Result.{ok}
use hwt_hls.Netlist.{HlsNetNodeIn, HlsNetNodeOut}
use hwt_hls.Netlist.OpCache.{
  Driver, out, lazy, direct, input, HlsNetNodeOutLazy, OpCache, same_in, same_out, has_in,
  add_input, replace_driver_of_input, set_each_key, replace_in_dependents, replace_uses,
  replace_by_kind, set_key, set_replaced, replace_driver, Replace, remember_key, redefine, add_over,
  add,
}

if-or {ℓ} :
    {A : Type ℓ} (a b : Bool) (x y : A)
    → (if b then x else (if a then x else y)) ≡ (if a || b then x else y)
if-or true true x y = refl
if-or true false x y = refl
if-or false b x y = refl

or_assoc : (a b c : Bool) → (a || b) || c ≡ a || (b || c)
or_assoc a b c = ground arith

same_out_refl : (o : HlsNetNodeOut) → same_out o o ≡ true
same_out_refl o = ground arith

same_in_refl : (i : HlsNetNodeIn) → same_in i i ≡ true
same_in_refl i = ground arith

has_in-append :
    (is js : List HlsNetNodeIn) (j : HlsNetNodeIn)
    → has_in (is ++ js) j ≡ has_in is j || has_in js j
has_in-append [] js j = refl
has_in-append (i ∷ is) js j = rw (has_in-append is js j) (ground arith)

-- An input that is the same is in the list as well.
has_in-same :
    (is : List HlsNetNodeIn) (i j : HlsNetNodeIn)
    → has_in is i ≡ true
    → same_in i j ≡ true
    → has_in is j ≡ true
has_in-same [] i j h e = absurd (ground arith)
has_in-same (k ∷ is) i j h e = elim (Bool-cases (has_in is i)) [
  | inl r ↦ let rest = has_in-same is i j r e in ground arith
  | inr r ↦ ground arith
]

add_input-has_in :
    (i : HlsNetNodeIn) (is : List HlsNetNodeIn) (j : HlsNetNodeIn)
    → has_in (add_input i is) j ≡ has_in is j || same_in i j
add_input-has_in i is j = elim (Bool-cases (has_in is i)) [
  | inl h ↦ elim (Bool-cases (same_in i j)) [
    | inl e ↦ let there = has_in-same is i j h e in rw h (ground arith)
    | inr e ↦ rw h (ground arith)
  ]
  | inr h ↦ rw (h, has_in-append is (i ∷ []) j) (ground arith)
]

module _ (o : HlsNetNodeOut) where
  -- Where the uses stand after the loop over the dependent inputs.
  abbrev after_inputs : List HlsNetNodeIn → OpCache → OpCache
  after_inputs [] c = c
  after_inputs (i ∷ is) c = after_inputs is (replace_driver_of_input i (out o) c)

  inputs-replaced :
      (visit : Replace) (is : List HlsNetNodeIn) (c : OpCache)
      → replace_in_dependents visit (map input is) (out o) c ≡ ok (after_inputs is c)
  unfolding replace_in_dependents
  inputs-replaced visit [] c = refl
  inputs-replaced visit (i ∷ is) c = inputs-replaced visit is (replace_driver_of_input i (out o) c)

  after_inputs-depends_on :
      (is : List HlsNetNodeIn) (c : OpCache) (j : HlsNetNodeIn)
      → (after_inputs is c).depends_on j ≡ (if has_in is j then some (out o) else c.depends_on j)
  unfolding replace_driver_of_input
  after_inputs-depends_on [] c j = refl
  after_inputs-depends_on (i ∷ is) c j =
      rw (after_inputs-depends_on is (replace_driver_of_input i (out o) c) j)
        (if-or (same_in i j) (has_in is j) (some (out o)) (c.depends_on j))

  after_inputs-used_by :
      (is : List HlsNetNodeIn) (c : OpCache) (j : HlsNetNodeIn)
      → has_in ((after_inputs is c).used_by o) j ≡ has_in (c.used_by o) j || has_in is j
  unfolding replace_driver_of_input
  after_inputs-used_by [] c j = ground arith
  after_inputs-used_by (i ∷ is) c j =
      let same = same_out_refl o in
      rw
        (
          after_inputs-used_by is (replace_driver_of_input i (out o) c) j,
          same,
          add_input-has_in i (c.used_by o) j,
        )
        (or_assoc (has_in (c.used_by o) j) (same_in i j) (has_in is j))

  after_inputs-to_hls_cache :
      (is : List HlsNetNodeIn) (c : OpCache) → (after_inputs is c).to_hls_cache ≡ c.to_hls_cache
  unfolding replace_driver_of_input
  after_inputs-to_hls_cache [] c = refl
  after_inputs-to_hls_cache (i ∷ is) c =
      after_inputs-to_hls_cache is (replace_driver_of_input i (out o) c)

set_each_key-to_hls_cache :
    (ks : List ℕ) (d : Driver) (c : OpCache) (k : ℕ)
    → (set_each_key ks d c).to_hls_cache k ≡ (if contains ks k then some d else c.to_hls_cache k)
unfolding set_each_key
set_each_key-to_hls_cache [] d c k = refl
set_each_key-to_hls_cache (j ∷ ks) d c k =
    rw (set_each_key-to_hls_cache ks d (set_key j d c) k)
      (if-or (j == k) (contains ks k) (some d) (c.to_hls_cache k))

set_each_key-lazies :
    (ks : List ℕ) (d : Driver) (c : OpCache) → (set_each_key ks d c).lazies ≡ c.lazies
unfolding set_each_key
set_each_key-lazies [] d c = refl
set_each_key-lazies (j ∷ ks) d c = set_each_key-lazies ks d (set_key j d c)

abbrev pub waiting : List HlsNetNodeIn → List ℕ → HlsNetNodeOutLazy
waiting is keys = record {
  kind = direct;
  dependent_inputs = map input is;
  replaced_by = none;
  keys_of_self_in_cache = keys;
}

abbrev defined : HlsNetNodeOut → ℕ → List HlsNetNodeIn → List ℕ → OpCache → OpCache
defined o n is keys c = set_replaced n (out o) (after_inputs o is (set_each_key keys (out o) c))

replaced_directly :
    (visit : Replace) (n : ℕ) (c : OpCache) (o : HlsNetNodeOut) (is : List HlsNetNodeIn)
    (keys : List ℕ)
    → c.lazies n ≡ waiting is keys
    → replace_by_kind visit direct n (out o) c ≡ ok (defined o n is keys c)
unfolding replace_by_kind replace_uses
replaced_directly visit n c o is keys here =
    rw (here, inputs-replaced o visit is (set_each_key keys (out o) c)) refl

add-defined :
    (limit k n : ℕ) (c : OpCache) (o : HlsNetNodeOut) (is : List HlsNetNodeIn) (keys : List ℕ)
    → c.to_hls_cache k ≡ some (lazy n)
    → c.lazies n ≡ waiting is keys
    → add (suc limit) k (out o) false c ≡ ok (defined o n is keys c)
unfolding add add_over redefine remember_key replace_driver
add-defined limit k n c o is keys cached here =
    rw (cached, here) (replaced_directly (replace_driver limit) n c o is keys here)

-- If a key has a placeholder that is not indirect, not replaced and that only inputs depend on:
-- adding an output as its definition returns; every key of the placeholder has the output then,
-- every dependent input is driven by it, and is among its uses.
pub add-depends_on :
    (limit k n : ℕ) (c : OpCache) (o : HlsNetNodeOut) (is : List HlsNetNodeIn) (keys : List ℕ)
    → c.to_hls_cache k ≡ some (lazy n)
    → c.lazies n ≡ waiting is keys
    → (after : OpCache) × (add (suc limit) k (out o) false c ≡ ok after)
      × ((q : ℕ) → contains keys q ≡ true → after.to_hls_cache q ≡ some (out o))
      × ((i : HlsNetNodeIn)
          → has_in is i ≡ true
          → (after.depends_on i ≡ some (out o)) × (has_in (after.used_by o) i ≡ true))
add-depends_on limit k n c o is keys cached here = (
  defined o n is keys c,
  add-defined limit k n c o is keys cached here,
  λ q h.
      rw
        (
          after_inputs-to_hls_cache o is (set_each_key keys (out o) c),
          set_each_key-to_hls_cache keys (out o) c q,
          h,
        )
        refl,
  λ i h. (
    rw (after_inputs-depends_on o is (set_each_key keys (out o) c) i, h) refl,
    rw (after_inputs-used_by o is (set_each_key keys (out o) c) i, h) (ground arith),
  ),
)
