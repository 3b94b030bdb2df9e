-- ===== src/Examples/OpCache.antt =====
-- The key 7 has the placeholder 0, to which the inputs of the nodes 1 and 2 are linked.
use hwt_hls.Prelude.{
  ℕ, ◌≡◌, refl, true, false, Bool, none, some, [], ◌∷◌, contains, ◌==◌, if◌then◌else◌,
}
use hwt_hls.Prelude.Result.{Result, ok, err, ◌>>=◌, assertion_error}
use hwt_hls.Netlist.{HlsNetNodeIn, HlsNetNodeOut}
use hwt_hls.Netlist.OpCache.{Driver, out, lazy, OpCache, has_in, link_hls_nodes, get, add}
use hwt_hls.Netlist.OpCache.Defined.{waiting, add-depends_on}

abbrev empty_cache : OpCache
empty_cache = record {
  to_hls_cache = λ k. none;
  old_phi_cyclic_args = λ k. none;
  lazies = λ n. waiting [] [];
  next_lazy = 0;
  depends_on = λ i. none;
  used_by = λ o. [];
}

abbrev first_in : HlsNetNodeIn
first_in = record { obj = 1; in_i = 0 }

abbrev second_in : HlsNetNodeIn
second_in = record { obj = 2; in_i = 1 }

abbrev defined_out : HlsNetNodeOut
defined_out = record { obj = 9; out_i = 0 }

abbrev linked : OpCache
linked = record {
  to_hls_cache = λ k. if k == 7 then some (lazy 0) else none;
  old_phi_cyclic_args = λ k. none;
  lazies = λ n. if n == 0 then waiting (first_in ∷ second_in ∷ []) (7 ∷ []) else waiting [] [];
  next_lazy = 1;
  depends_on = λ i. some (lazy 0);
  used_by = λ o. [];
}

add-depends_on_example :
    (after : OpCache) × (add 5 7 (out defined_out) false linked ≡ ok after)
    × ((q : ℕ) → contains (7 ∷ []) q ≡ true → after.to_hls_cache q ≡ some (out defined_out))
    × ((i : HlsNetNodeIn)
        → has_in (first_in ∷ second_in ∷ []) i ≡ true
        → (after.depends_on i ≡ some (out defined_out))
          × (has_in (after.used_by defined_out) i ≡ true))
add-depends_on_example =
    add-depends_on 4 7 0 linked defined_out (first_in ∷ second_in ∷ []) (7 ∷ []) refl refl

-- An input that is linked to what `get` returned gets the definition.
abbrev driver_after : Result (Driver × OpCache) → Result (Driver × OpCache)
driver_after r = do
  got ← r
  let c = link_hls_nodes got.0 first_in got.1
  c' ← add 5 7 (out defined_out) false c
  get 7 c'

abbrev defined_of : Result (Driver × OpCache) → Bool
defined_of (ok (out o, c)) = o.obj == 9
defined_of _ = false

got_defined : defined_of (driver_after (get 7 empty_cache)) ≡ true
unfolding get add link_hls_nodes
got_defined = refl

-- A placeholder that is replaced by another one leaves its other keys behind: the key 8, that the
-- placeholder had as well, cannot be read after the definition of the key 7.
abbrev two_keys : Result (Driver × OpCache)
two_keys = do
  got ← get 7 empty_cache
  c ← add 5 8 got.0 false got.1
  other ← get 9 c
  c' ← add 5 7 other.0 false other.1
  c'' ← add 5 7 (out defined_out) false c'
  get 8 c''

abbrev fails : Result (Driver × OpCache) → Bool
fails (err assertion_error) = true
fails _ = false

key_left_behind : fails two_keys ≡ true
unfolding get add
key_left_behind = refl
