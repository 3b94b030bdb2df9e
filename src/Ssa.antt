-- ===== src/Ssa.antt =====
-- The objects of the SSA form: instructions and branches (hwtHls/ssa/instr.py), phi functions
-- (hwtHls/ssa/phi.py) and blocks (hwtHls/ssa/basicBlock.py). An object is named by a number, and the
-- store has the fields that the code changes. `users` of a value is a UniqList of hwt, whose `append`
-- and `remove` are parameters.
pub mod Blocks
pub mod Liveness
pub mod Threads
pub mod SyncType
pub mod Builder
pub mod Consystency
pub mod Memory
pub mod Replace
pub mod Unused
use hwt_hls.Prelude.{
  ℕ, zero, suc, ◌≡◌, Bool, true, false, not, ◌&&◌, ◌||◌, Option, none, some, List, [], ◌∷◌, ◌++◌,
  map, contains, ◌==◌, if◌then◌else◌,
}
use hwt_hls.Hwt.{UniqListOps}
use hwt_hls.Prelude.Result.{Result, ok, err, require, ◌>>=◌, ◌>>◌, assertion_error, value_error}

-- A constant (HValue), or a SsaValue.
pub data Operand : Type 0 where
  const : ℕ → Operand
  value : ℕ → Operand

abbrev pub is_value : ℕ → Operand → Bool
is_value v (const c) = false
is_value v (value w) = w == v

-- Python compares operands by identity, and constants by their values.
abbrev pub same_operand : Operand → Operand → Bool
same_operand (const c) (const d) = c == d
same_operand (value v) (value w) = v == w
same_operand _ _ = false

-- What uses values: `targets` has the condition of a target, if it has one, and its block; a phi has
-- the block that an operand comes from.
pub data SsaUser : Type 0 where
  instr : (operands : List Operand) → SsaUser
  branch : (parent : ℕ) (targets : List (Option Operand × ℕ)) → SsaUser
  phi : (operands : List (Operand × ℕ)) → SsaUser

pub record Ssa : Type 0 where
  pub user : ℕ → SsaUser
  pub users : ℕ → List ℕ
  pub block : ℕ → Option ℕ
  pub replaced_by : ℕ → Option Operand
  pub predecessors : ℕ → List ℕ
  pub phis : ℕ → List ℕ
  pub body : ℕ → List ℕ

-- `setattr` on one object
abbrev pub set_at : {A : Type 0} → (ℕ → A) → ℕ → A → ℕ → A
set_at f n a m = if n == m then a else f m

abbrev pub is_in_block : Option ℕ → Bool
is_in_block none = false
is_in_block (some b) = true

-- `op.block is not None`
abbrev pub is_in_ssa : Ssa → Operand → Bool
is_in_ssa s (const c) = true
is_in_ssa s (value v) = is_in_block (s.block v)

-- Whether an object has a value among its operands.
abbrev pub any_operand : ℕ → List Operand → Bool
any_operand v [] = false
any_operand v (o ∷ os) = is_value v o || any_operand v os

abbrev pub any_target : ℕ → List (Option Operand × ℕ) → Bool
any_target v [] = false
any_target v ((none, t) ∷ ts) = any_target v ts
any_target v ((some o, t) ∷ ts) = is_value v o || any_target v ts

abbrev pub any_phi_operand : ℕ → List (Operand × ℕ) → Bool
any_phi_operand v [] = false
any_phi_operand v ((o, b) ∷ os) = is_value v o || any_phi_operand v os

abbrev pub uses : SsaUser → ℕ → Bool
uses (instr operands) v = any_operand v operands
uses (branch parent targets) v = any_target v targets
uses (phi operands) v = any_phi_operand v operands

-- `new_expr if o is orig_expr else o`
abbrev pub replaced : ℕ → Operand → Operand → Operand
replaced orig new o = if is_value orig o then new else o

abbrev pub replaced_cond : ℕ → Operand → Option Operand → Option Operand
replaced_cond orig new none = none
replaced_cond orig new (some o) = some (replaced orig new o)

unfoldable pub replace_in_user : ℕ → Operand → SsaUser → SsaUser
replace_in_user orig new (instr operands) = instr (map (replaced orig new) operands)
replace_in_user orig new (branch parent targets) =
    branch parent (map (λ t. (replaced_cond orig new t.0, t.1)) targets)
replace_in_user orig new (phi operands) = phi (map (λ t. (replaced orig new t.0, t.1)) operands)

module _ (l : UniqListOps) where
  -- `new_expr.users.append(self)`, if it is a SsaValue
  abbrev pub add_user : ℕ → Operand → (ℕ → List ℕ) → ℕ → List ℕ
  add_user u (const c) users = users
  add_user u (value v) users = set_at users v (l.append (users v) u)

  abbrev pub remove_user : ℕ → ℕ → (ℕ → List ℕ) → ℕ → List ℕ
  remove_user u v users = set_at users v (l.remove (users v) u)

  -- The constructor of SsaInstr: the loop over the operands.
  unfoldable pub register_operands : ℕ → List Operand → Ssa → Result Ssa
  register_operands i [] s = ok s
  register_operands i (o ∷ os) s = do
    require (is_in_ssa s o) assertion_error
    register_operands i os (record s { users = add_user i o s.users })

  unfoldable pub new_instr : ℕ → List Operand → Ssa → Result Ssa
  unfolding register_operands
  new_instr i operands s = register_operands i operands (record s {
    user = set_at s.user i (instr operands);
    users = set_at s.users i [];
    block = set_at s.block i none;
  })

  -- `SsaInstr.replaceInput`
  unfoldable pub replace_instr_input : List Operand → ℕ → ℕ → Operand → Ssa → Result Ssa
  unfolding replace_in_user
  replace_instr_input operands u orig new s = do
    require (any_operand orig operands) assertion_error
    require (contains (s.users orig) u) value_error
    ok (record s {
      user = set_at s.user u (replace_in_user orig new (instr operands));
      users = add_user u new (remove_user u orig s.users);
    })

  -- `SsaInstrBranch.replaceInput`
  unfoldable pub replace_branch_input :
      ℕ → List (Option Operand × ℕ) → ℕ → ℕ → Operand → Ssa → Result Ssa
  unfolding replace_in_user
  replace_branch_input parent targets u orig new s = do
    require (contains (s.users orig) u) assertion_error
    ok (record s {
      user = set_at s.user u (replace_in_user orig new (branch parent targets));
      users = add_user u new (remove_user u orig s.users);
    })

  -- `SsaPhi.replaceInput`, which stays a user of the old value
  unfoldable pub replace_phi_input : List (Operand × ℕ) → ℕ → ℕ → Operand → Ssa → Result Ssa
  unfolding replace_in_user
  replace_phi_input operands u orig new s = do
    require (is_in_ssa s new) assertion_error
    require (any_phi_operand orig operands) assertion_error
    ok (record s {
      user = set_at s.user u (replace_in_user orig new (phi operands));
      users = add_user u new s.users;
    })

  -- `u.replaceInput`, by the class of `u`
  unfoldable pub replace_input_of : SsaUser → ℕ → ℕ → Operand → Ssa → Result Ssa
  unfolding replace_instr_input replace_branch_input replace_phi_input
  replace_input_of (instr operands) = replace_instr_input operands
  replace_input_of (branch parent targets) = replace_branch_input parent targets
  replace_input_of (phi operands) = replace_phi_input operands

  unfoldable pub replace_input : ℕ → ℕ → Operand → Ssa → Result Ssa
  unfolding replace_input_of
  replace_input u orig new s = replace_input_of (s.user u) u orig new s

  -- `for u in tuple(self.users): u.replaceInput(self, v)`
  unfoldable pub replace_in_all : List ℕ → ℕ → Operand → Ssa → Result Ssa
  unfolding replace_input
  replace_in_all [] orig new s = ok s
  replace_in_all (u ∷ us) orig new s = do
    s' ← replace_input u orig new s
    replace_in_all us orig new s'

  -- `SsaInstr.replaceBy`; `width` is the width of the type of a value
  unfoldable pub replace_by : (Operand → ℕ) → ℕ → Operand → Ssa → Result Ssa
  unfolding replace_in_all
  replace_by width orig new s = do
    require (width new == width (value orig)) assertion_error
    replace_in_all (s.users orig) orig new s

  -- `SsaPhi.replaceUseBy`
  unfoldable pub replace_use_by : ℕ → Operand → Ssa → Result Ssa
  unfolding replace_in_all
  replace_use_by p new s = do
    require (is_in_ssa s new) assertion_error
    s' ← replace_in_all (s.users p) p new s
    ok (record s' {
      replaced_by = set_at s'.replaced_by p (some new);
      users = set_at s'.users p [];
    })
