-- ===== src/Netlist/OpCache.antt =====
-- The ports of hwtHls/netlist/nodes/ports.py with the placeholders for outputs that do not exist yet, and
-- hwtHls/ssa/translation/toHwtHlsNetlist/opCache.py, which has what every variable of a block is driven
-- by. A placeholder is named by a number, and so is a key of the cache.
pub mod Defined
use hwt_hls.Prelude.{
  ℕ, zero, suc, ◌+◌, Bool, true, false, not, ◌&&◌, ◌||◌, Option, none, some, List, [], ◌∷◌, ◌++◌,
  ◌==◌, if◌then◌else◌,
}
use hwt_hls.Prelude.Result.{Result, ok, err, require, ◌>>=◌, ◌>>◌, assertion_error, recursion_error}
use hwt_hls.Netlist.{HlsNetNodeIn, HlsNetNodeOut}
use hwt_hls.Ssa.{set_at}
use hwt_hls.Ssa.Blocks.{is_none}

-- HlsNetNodeOut, or a HlsNetNodeOutLazy.
pub data Driver : Type 0 where
  out : HlsNetNodeOut → Driver
  lazy : ℕ → Driver

-- HlsNetNodeOutLazy, or HlsNetNodeOutLazyIndirect with its original and its final value.
pub data LazyKind : Type 0 where
  direct : LazyKind
  indirect : ℕ → Driver → LazyKind

pub data Dependent : Type 0 where
  input : HlsNetNodeIn → Dependent
  other_lazy : ℕ → Dependent

pub record HlsNetNodeOutLazy : Type 0 where
  pub kind : LazyKind
  pub dependent_inputs : List Dependent
  pub replaced_by : Option Driver
  pub keys_of_self_in_cache : List ℕ

pub record OpCache : Type 0 where
  pub to_hls_cache : ℕ → Option Driver
  pub old_phi_cyclic_args : ℕ → Option Driver
  pub lazies : ℕ → HlsNetNodeOutLazy
  pub next_lazy : ℕ
  pub depends_on : HlsNetNodeIn → Option Driver
  pub used_by : HlsNetNodeOut → List HlsNetNodeIn

abbrev pub same_in : HlsNetNodeIn → HlsNetNodeIn → Bool
same_in a b = (a.obj == b.obj) && (a.in_i == b.in_i)

abbrev pub same_out : HlsNetNodeOut → HlsNetNodeOut → Bool
same_out a b = (a.obj == b.obj) && (a.out_i == b.out_i)

abbrev pub has_in : List HlsNetNodeIn → HlsNetNodeIn → Bool
has_in [] i = false
has_in (j ∷ is) i = same_in j i || has_in is i

abbrev pub is_lazy : ℕ → Driver → Bool
is_lazy n (lazy m) = n == m
is_lazy n (out o) = false

abbrev pub set_driver : HlsNetNodeIn → Driver → OpCache → OpCache
set_driver i d c = record c { depends_on = λ j. if same_in i j then some d else c.depends_on j }

abbrev pub set_uses : HlsNetNodeOut → List HlsNetNodeIn → OpCache → OpCache
set_uses o is c = record c { used_by = λ p. if same_out o p then is else c.used_by p }

abbrev pub set_lazy : ℕ → HlsNetNodeOutLazy → OpCache → OpCache
set_lazy n z c = record c { lazies = set_at c.lazies n z }

abbrev pub add_input : HlsNetNodeIn → List HlsNetNodeIn → List HlsNetNodeIn
add_input i is = if has_in is i then is else is ++ i ∷ []

-- `HlsNetNodeIn.replace_driver`
unfoldable pub replace_driver_of_input : HlsNetNodeIn → Driver → OpCache → OpCache
replace_driver_of_input i (lazy n) c = set_driver i (lazy n) c
replace_driver_of_input i (out o) c =
    set_driver i (out o) (set_uses o (add_input i (c.used_by o)) c)

-- `for k in keys: cache[k] = o`
unfoldable pub set_each_key : List ℕ → Driver → OpCache → OpCache
set_each_key [] d c = c
set_each_key (k ∷ ks) d c =
    set_each_key ks d (record c { to_hls_cache = set_at c.to_hls_cache k (some d) })

abbrev pub Replace : Type 0
Replace = ℕ → Driver → OpCache → Result OpCache

-- The loop over the dependent inputs; `visit` is the recursive call.
unfoldable pub replace_in_dependents : Replace → List Dependent → Driver → OpCache → Result OpCache
unfolding replace_driver_of_input
replace_in_dependents visit [] d c = ok c
replace_in_dependents visit (input i ∷ ds) d c =
    replace_in_dependents visit ds d (replace_driver_of_input i d c)
replace_in_dependents visit (other_lazy n ∷ ds) d c = do
  c' ← visit n d c
  replace_in_dependents visit ds d c'

abbrev pub set_replaced : ℕ → Driver → OpCache → OpCache
set_replaced n d c = set_lazy n (record (c.lazies n) { replaced_by = some d }) c

-- the keys and the dependent inputs of a placeholder
unfoldable pub replace_uses : Replace → ℕ → Driver → OpCache → Result OpCache
unfolding set_each_key replace_in_dependents
replace_uses visit n d c = do
  c' ←
      replace_in_dependents visit (c.lazies n).dependent_inputs d
        (set_each_key (c.lazies n).keys_of_self_in_cache d c)
  ok (set_replaced n d c')

unfoldable pub replace_by_kind : Replace → LazyKind → ℕ → Driver → OpCache → Result OpCache
unfolding replace_uses
replace_by_kind visit direct n d c = do
  require (not (is_lazy n d)) assertion_error
  require (is_none (c.lazies n).replaced_by) assertion_error
  replace_uses visit n d c
replace_by_kind visit (indirect original final_value) n d c = do
  require (is_none (c.lazies n).replaced_by) assertion_error
  c' ← visit original d c
  replace_uses visit n final_value c'

-- `replace_driver` of both kinds of placeholders; the fuel is Python's recursion limit
unfoldable pub replace_driver : ℕ → Replace
unfolding replace_by_kind
replace_driver zero n d c = err recursion_error
replace_driver (suc limit) n d c = replace_by_kind (replace_driver limit) (c.lazies n).kind n d c

-- The constructors. An indirect placeholder takes the keys of its original.
unfoldable pub new_lazy : ℕ → OpCache → ℕ × OpCache
new_lazy k c = (
  c.next_lazy,
  record (set_lazy c.next_lazy
      (record {
        kind = direct;
        dependent_inputs = [];
        replaced_by = none;
        keys_of_self_in_cache = k ∷ [];
      })
      c) { next_lazy = c.next_lazy + 1 },
)

unfoldable pub new_lazy_indirect : ℕ → Driver → OpCache → Result (ℕ × OpCache)
unfolding set_each_key
new_lazy_indirect original final_value c = do
  require (is_none (c.lazies original).replaced_by) assertion_error
  let n = c.next_lazy
  let keys = (c.lazies original).keys_of_self_in_cache
  ok (
    n,
    set_each_key keys (lazy n)
        (record (set_lazy n
          (record {
            kind = indirect original final_value;
            dependent_inputs = [];
            replaced_by = none;
            keys_of_self_in_cache = keys;
          })
          c) { next_lazy = n + 1 }),
  )

abbrev pub add_dependent : ℕ → HlsNetNodeIn → OpCache → OpCache
add_dependent n i c =
    set_lazy n
      (record (c.lazies n) { dependent_inputs = (c.lazies n).dependent_inputs ++ input i ∷ [] }) c

-- `link_hls_nodes`
unfoldable pub link_hls_nodes : Driver → HlsNetNodeIn → OpCache → OpCache
link_hls_nodes (lazy n) child c = set_driver child (lazy n) (add_dependent n child c)
link_hls_nodes (out o) child c = set_driver child (out o) (set_uses o (c.used_by o ++ child ∷ []) c)

-- A placeholder that is added remembers the key.
unfoldable pub remember_key : ℕ → Driver → OpCache → Result OpCache
remember_key k (out o) c = ok c
remember_key k (lazy n) c = do
  require (is_none (c.lazies n).replaced_by) assertion_error
  ok (
      set_lazy n
        (record (c.lazies n) {
          keys_of_self_in_cache = (c.lazies n).keys_of_self_in_cache ++ k ∷ [];
        })
        c)

abbrev pub set_key : ℕ → Driver → OpCache → OpCache
set_key k v c = record c { to_hls_cache = set_at c.to_hls_cache k (some v) }

-- The definition of a variable that a phi of a predecessor uses before.
unfoldable pub define_cyclic : ℕ → Driver → Driver → OpCache → Result OpCache
unfolding set_each_key
define_cyclic k v cur c = do
  require (is_none (c.old_phi_cyclic_args k)) assertion_error
  let c' = record c { old_phi_cyclic_args = set_at c.old_phi_cyclic_args k (some cur) }
  elim cur [
    | out o ↦ ok (set_key k v c')
    | lazy n ↦
        let c'' = set_each_key (c'.lazies n).keys_of_self_in_cache v c' in
        ok (set_lazy n (record (c''.lazies n) { keys_of_self_in_cache = [] }) c'')
  ]

-- A key that has a placeholder gets its definition.
unfoldable pub redefine : ℕ → Driver → Driver → OpCache → Result OpCache
unfolding replace_driver
redefine limit v (out o) c = err assertion_error
redefine limit v (lazy n) c = do
  require (not (is_lazy n v)) assertion_error
  replace_driver limit n v c

unfoldable pub add_over : ℕ → ℕ → Driver → Bool → Option Driver → OpCache → Result OpCache
unfolding define_cyclic redefine
add_over limit k v is_def_of_phi_cyclic_arg none c = ok (set_key k v c)
add_over limit k v true (some cur) c = define_cyclic k v cur c
add_over limit k v false (some cur) c = redefine limit v cur c

-- `SsaToHwtHlsNetlistOpCache.add`
unfoldable pub add : ℕ → ℕ → Driver → Bool → OpCache → Result OpCache
unfolding remember_key add_over
add limit k v is_def_of_phi_cyclic_arg c = do
  c' ← remember_key k v c
  add_over limit k v is_def_of_phi_cyclic_arg (c'.to_hls_cache k) c'

abbrev pub is_open : Driver → OpCache → Bool
is_open (out o) c = true
is_open (lazy n) c = is_none (c.lazies n).replaced_by

-- `SsaToHwtHlsNetlistOpCache.get`
unfoldable pub get : ℕ → OpCache → Result (Driver × OpCache)
unfolding new_lazy
get k c = elim (c.to_hls_cache k) [
  | some v ↦ do require (is_open v c) assertion_error; ok (v, c)
  | none ↦ let (n, c') = new_lazy k c in ok (lazy n, set_key k (lazy n) c')
]
