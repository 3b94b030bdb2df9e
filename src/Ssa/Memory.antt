-- ===== src/Ssa/Memory.antt =====
-- MemorySSAUpdater of hwtHls/ssa/translation/fromAst/memorySSAUpdater.py: the values of the variables in
-- the blocks, and the phis that are made where blocks join. Variables are numbered in the order of their
-- sort keys. Writes of parts of a variable are left out, as they go through expressions of hwt. The fuel
-- is Python's recursion limit.
pub mod Read
pub mod Stable
use hwt_hls.Prelude.{
  ℕ, zero, suc, ◌+◌, Bool, true, false, not, ◌&&◌, ◌||◌, Option, none, some, List, [], ◌∷◌, ◌++◌,
  length, contains, ltb, ◌==◌, if◌then◌else◌,
}
use hwt_hls.Prelude.Result.{
  Result, ok, err, or_raise, require, ◌>>=◌, ◌>>◌, assertion_error, attribute_error, key_error,
  value_error, recursion_error,
}
use hwt_hls.Hwt.{UniqListOps}
use hwt_hls.Graph.{add}
use hwt_hls.Ssa.{
  Operand, const, value, is_value, same_operand, SsaUser, instr, branch, phi, Ssa, set_at,
  is_in_ssa, replace_use_by,
}
use hwt_hls.Ssa.Blocks.{operands_of, append_phi, append_operand}
use hwt_hls.Ssa.Builder.{remove_first}

-- For a value, the blocks and the variables that have it there.
abbrev pub DefsOf : Type 0
DefsOf = List (ℕ × List ℕ)

pub record Memory : Type 0 where
  pub ssa : Ssa
  pub current_def : ℕ → ℕ → Option Operand
  pub current_def_rev : Operand → Option DefsOf
  pub sealed_blocks : List ℕ
  pub incomplete_phis : ℕ → List (ℕ × ℕ)
  pub next_value : ℕ

abbrev pub set_def : ℕ → ℕ → Operand → Memory → Memory
set_def var block v m = record m {
  current_def = set_at m.current_def var (set_at (m.current_def var) block (some v));
}

abbrev pub set_rev : Operand → Option DefsOf → Memory → Memory
set_rev v defs m = record m {
  current_def_rev = λ w. if same_operand v w then defs else m.current_def_rev w;
}

abbrev pub or_no_defs : Option DefsOf → DefsOf
or_no_defs none = []
or_no_defs (some defs) = defs

-- What the scan of the operands of a phi finds.
pub data Merged : Type 0 where
  several : Merged
  at_most : Option Operand → Merged

abbrev pub is_same : Option Operand → Operand → Bool
is_same none o = false
is_same (some same) o = same_operand o same

-- The loop over the operands of `tryRemoveTrivialPhi`.
unfoldable pub merged_by : ℕ → Option Operand → List (Operand × ℕ) → Merged
merged_by p same [] = at_most same
merged_by p same ((o, b) ∷ os) =
    if is_same same o || is_value p o
    then merged_by p same os
    else elim same [ none ↦ merged_by p (some o) os | some s ↦ several ]

abbrev pub others : ℕ → List ℕ → List ℕ
others p [] = []
others p (u ∷ us) = let rest = others p us in if u == p then rest else u ∷ rest

abbrev pub is_phi : SsaUser → Bool
is_phi (phi operands) = true
is_phi _ = false

abbrev pub is_also_phi : Ssa → Operand → Bool
is_also_phi s (const c) = false
is_also_phi s (value v) = is_phi (s.user v)

module _ (l : UniqListOps) (has_width : ℕ → Operand → Bool) (undefined : ℕ → ℕ) where
  abbrev pub put_var : ℕ → ℕ → DefsOf → DefsOf
  put_var block var [] = (block, l.append [] var) ∷ []
  put_var block var ((b, vars) ∷ rest) =
      if b == block then (b, l.append vars var) ∷ rest else (b, vars) ∷ put_var block var rest

  -- `writeVariable` without indexes
  unfoldable pub write_variable : ℕ → ℕ → Operand → Memory → Result Memory
  write_variable var block v m = do
    require (is_in_ssa m.ssa v) assertion_error
    require (has_width var v) assertion_error
    ok (
        set_rev v (some (put_var block var (or_no_defs (m.current_def_rev v))))
          (set_def var block v m))

  -- A definition by a removed phi becomes one by the value that replaces it.
  unfoldable pub rename_def : ℕ → Operand → ℕ → ℕ → Memory → Result Memory
  rename_def p same block var m = do
    cur ← or_raise key_error (m.current_def var block)
    (if is_value p cur
        then (if is_also_phi m.ssa same
            then (do
              defs ← or_raise key_error (m.current_def_rev same)
              ok (set_rev same (some (put_var block var defs)) (set_def var block same m)))
            else ok (set_def var block same m))
        else ok m)

  unfoldable pub rename_vars : ℕ → Operand → ℕ → List ℕ → Memory → Result Memory
  unfolding rename_def
  rename_vars p same block [] m = ok m
  rename_vars p same block (v ∷ vs) m = do
    m' ← rename_def p same block v m
    rename_vars p same block vs m'

  unfoldable pub rename_defs : ℕ → Operand → DefsOf → Memory → Result Memory
  unfolding rename_vars
  rename_defs p same [] m = ok m
  rename_defs p same ((block, vars) ∷ rest) m = do
    m' ← rename_vars p same block vars m
    rename_defs p same rest m'

  -- The phi leaves its block, and the value takes its place.
  unfoldable pub remove_phi : ℕ → Operand → Memory → Result Memory
  unfolding replace_use_by rename_defs
  remove_phi p same m = do
    s ← replace_use_by l p same m.ssa
    home ← or_raise attribute_error (s.block p)
    require (contains (s.phis home) p) value_error
    let s' : Ssa = record s {
      phis = set_at s.phis home (remove_first p (s.phis home));
      block = set_at s.block p none;
    }
    defs ← or_raise key_error (m.current_def_rev (value p))
    m' ← rename_defs p same defs (record m { ssa = s' })
    ok (set_rev (value p) none m')

  abbrev pub Visit : Type 0
  Visit = ℕ → Memory → Result (Operand × Memory)

  -- the users that are phis and still in a block
  unfoldable pub simplify_users : Visit → List ℕ → Memory → Result Memory
  simplify_users visit [] m = ok m
  simplify_users visit (u ∷ us) m = do
    m' ←
        (if is_phi (m.ssa.user u) && is_in_ssa m.ssa (value u)
          then (visit u m >>= λ r. ok r.1)
          else ok m)
    simplify_users visit us m'

  abbrev pub only_value : ℕ → Option Operand → Operand
  only_value p none = const (undefined p)
  only_value p (some same) = same

  -- `tryRemoveTrivialPhi`
  unfoldable pub try_remove_trivial_phi : ℕ → Visit
  unfolding merged_by remove_phi simplify_users
  try_remove_trivial_phi zero p m = err recursion_error
  try_remove_trivial_phi (suc limit) p m = elim (merged_by p none (operands_of (m.ssa.user p))) [
    | several ↦ ok (value p, m)
    | at_most same ↦ do
      require (is_in_ssa m.ssa (only_value p same)) assertion_error
      let users = others p (m.ssa.users p)
      m' ← remove_phi p (only_value p same) m
      m'' ← simplify_users (try_remove_trivial_phi limit) users m'
      ok (only_value p same, m'')
  ]
