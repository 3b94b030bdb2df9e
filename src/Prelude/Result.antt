-- ===== src/Prelude/Result.antt =====
-- Results of code that may raise, and code that changes a state and may raise: what it changed
-- before it raised stays changed.
use mathlib.Core.Path.{◌≡◌, refl}
use mathlib.Core.Bool.{Bool, true, false}
use mathlib.Core.Option.{Option, none, some}
use mathlib.Core.List.{List}
use Prim.Native.Nat.{ℕ}
use hwt_hls.Prelude.Lists.{get_elem?}

-- The exceptions of the modelled code. `cycle_error n` is the AssertionError that reports a cycle
-- through the node n.
pub data Error : Type 0 where
  recursion_error index_error time_constraint_error assertion_error type_error key_error value_error
        attribute_error not_implemented_error :
      Error
  cycle_error : ℕ → Error

-- A raised error, or a returned value.
pub data Result {ℓ} (Value : Type ℓ) : Type ℓ where
  err : Error → Result Value
  ok : Value → Result Value

abbrev pub or_raise {ℓ} : {A : Type ℓ} → Error → Option A → Result A
or_raise e none = err e
or_raise e (some a) = ok a

-- `xs[i]`, for an index that is not negative.
abbrev pub index {ℓ} : {A : Type ℓ} → List A → ℕ → Result A
index xs i = or_raise index_error (get_elem? xs i)

-- `assert b`, or `if not b: raise e`.
abbrev pub require : Bool → Error → Result (Unit {0})
require true e = ok tt
require false e = err e

-- The second step runs on the value of the first one, if there is one.
infixl 5 ◌>>=◌ ◌>>◌
abbrev pub ◌>>=◌ {ℓ κ} : {V : Type ℓ} {W : Type κ} → Result V → (V → Result W) → Result W
err raised >>= next = err raised
ok value >>= next = next value

abbrev pub ◌>>◌ {ℓ} : {W : Type ℓ} → Result (Unit {0}) → Result W → Result W
first >> second = first >>= λ done. second

-- If two steps return together, each of them does.
pub both_return {ℓ κ} :
    {V : Type ℓ} {W : Type κ} (first : Result V) (next : V → Result W) {out : W}
    → (first >>= next) ≡ ok out
    → (value : V) × (first ≡ ok value) × (next value ≡ ok out)
both_return (err raised) next run = cc
both_return (ok value) next run = (value, refl, run)

pub ok_injective {ℓ} : {A : Type ℓ} {a b : A} → ok a ≡ ok b → a ≡ b
ok_injective e = cc

-- A step after an assert that returns is not kept from running by it.
pub required {ℓ} :
    {A : Type ℓ} (b : Bool) (e : Error) (next : Result A) {a : A}
    → (require b e >> next) ≡ ok a
    → (b ≡ true) × (next ≡ ok a)
required true e next h = (refl, h)
required false e next h = cc
