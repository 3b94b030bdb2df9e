-- ===== src/Ssa/Blocks.antt =====
-- The other operations on the objects of the SSA: targets of branches, operands of phis, and the
-- places of phis and instructions in blocks.
pub mod Phis
use hwt_hls.Prelude.{
  ℕ, zero, suc, Bool, true, false, not, ◌&&◌, ◌||◌, Option, none, some, List, [], ◌∷◌, ◌++◌, map,
  contains, ◌==◌, if◌then◌else◌,
}
use hwt_hls.Prelude.Result.{
  Result, ok, require, or_raise, ◌>>=◌, ◌>>◌, assertion_error, attribute_error,
}
use hwt_hls.Hwt.{UniqListOps}
use hwt_hls.Ssa.{Operand, same_operand, SsaUser, branch, phi, Ssa, set_at, is_in_ssa, add_user}

abbrev pub targets_of : SsaUser → List (Option Operand × ℕ)
targets_of (branch parent targets) = targets
targets_of _ = []

abbrev pub operands_of : SsaUser → List (Operand × ℕ)
operands_of (phi operands) = operands
operands_of _ = []

-- `SsaInstrBranch.iterBlocks`
unfoldable pub iter_blocks : SsaUser → List ℕ
iter_blocks u = map (λ t. t.1) (targets_of u)

-- `SsaInstrBranch.replaceTargetBlock`
unfoldable pub replace_target_block : (orig_block new_block : ℕ) → SsaUser → SsaUser
replace_target_block orig_block new_block (branch parent targets) =
    branch parent (map (λ t. (t.0, if t.1 == orig_block then new_block else t.1)) targets)
replace_target_block orig_block new_block u = u

abbrev pub is_none : {A : Type 0} → Option A → Bool
is_none none = true
is_none (some a) = false

-- `new_op in operands`
unfoldable pub has_phi_operand : Operand → ℕ → List (Operand × ℕ) → Bool
has_phi_operand val b [] = false
has_phi_operand val b ((o, c) ∷ os) = (same_operand o val && (c == b)) || has_phi_operand val b os

abbrev pub add_phi_operand : Operand → ℕ → List (Operand × ℕ) → List (Operand × ℕ)
add_phi_operand val b os = if has_phi_operand val b os then os else os ++ (val, b) ∷ []

-- `for new_b in new_predecessor_blocks`
unfoldable pub add_from_blocks :
    List ℕ → Operand → List ℕ → List (Operand × ℕ) → Result (List (Operand × ℕ))
unfolding has_phi_operand
add_from_blocks predecessors val [] os = ok os
add_from_blocks predecessors val (b ∷ bs) os = do
  require (contains predecessors b) assertion_error
  add_from_blocks predecessors val bs (add_phi_operand val b os)

-- the loop of `SsaPhi.replacePredecessorBlockByMany` over the operands
unfoldable pub split_predecessor :
    List ℕ → ℕ → List ℕ → List (Operand × ℕ) → List (Operand × ℕ) → Result (List (Operand × ℕ))
unfolding add_from_blocks
split_predecessor predecessors block new_blocks [] os = ok os
split_predecessor predecessors block new_blocks ((val, b) ∷ rest) os = do
  os' ← add_from_blocks predecessors val (if b == block then new_blocks else b ∷ []) os
  split_predecessor predecessors block new_blocks rest os'

unfoldable pub replace_predecessor_block_by_many : ℕ → ℕ → List ℕ → Ssa → Result Ssa
unfolding split_predecessor
replace_predecessor_block_by_many p block new_blocks s = do
  require (is_none (s.replaced_by p)) assertion_error
  home ← or_raise attribute_error (s.block p)
  os ← split_predecessor (s.predecessors home) block new_blocks (operands_of (s.user p)) []
  ok (record s { user = set_at s.user p (phi os) })

module _ (l : UniqListOps) where
  abbrev pub add_cond : ℕ → Option Operand → (ℕ → List ℕ) → ℕ → List ℕ
  add_cond u none users = users
  add_cond u (some o) users = add_user l u o users

  -- `SsaInstrBranch.addTarget`
  unfoldable pub add_target : ℕ → ℕ → Option Operand → ℕ → Ssa → Result Ssa
  add_target u parent cond target s = do
    require (not (contains (s.predecessors target) parent)) assertion_error
    ok (record s {
      user = set_at s.user u (branch parent (targets_of (s.user u) ++ (cond, target) ∷ []));
      predecessors = set_at s.predecessors target (s.predecessors target ++ parent ∷ []);
      users = add_cond u cond s.users;
    })

  unfoldable pub append_new_operand : ℕ → Operand → ℕ → Ssa → Result Ssa
  append_new_operand p val predecessor s = do
    require (is_in_ssa s val) assertion_error
    ok (record s {
      user = set_at s.user p (phi (operands_of (s.user p) ++ (val, predecessor) ∷ []));
      users = add_user l p val s.users;
    })

  -- `SsaPhi.appendOperand`
  unfoldable pub append_operand : ℕ → Operand → ℕ → Ssa → Result Ssa
  unfolding has_phi_operand append_new_operand
  append_operand p val predecessor s = do
    require (is_none (s.replaced_by p)) assertion_error
    (if has_phi_operand val predecessor (operands_of (s.user p))
        then ok s
        else append_new_operand p val predecessor s)

-- `list.insert`, which appends past the end
abbrev pub insert_at : ℕ → ℕ → List ℕ → List ℕ
insert_at zero a xs = a ∷ xs
insert_at (suc i) a [] = a ∷ []
insert_at (suc i) a (x ∷ xs) = x ∷ insert_at i a xs

-- An object that is in no block yet gets its block.
unfoldable pub enter_block : ℕ → ℕ → Ssa → Result Ssa
enter_block b n s = do
  require (is_none (s.block n)) assertion_error
  ok (record s { block = set_at s.block n (some b) })

unfoldable pub append_phi : ℕ → ℕ → Ssa → Result Ssa
unfolding enter_block
append_phi b n s = do
  s' ← enter_block b n s
  ok (record s' { phis = set_at s'.phis b (s'.phis b ++ n ∷ []) })

unfoldable pub insert_phi : ℕ → ℕ → ℕ → Ssa → Result Ssa
unfolding enter_block
insert_phi b i n s = do
  s' ← enter_block b n s
  ok (record s' { phis = set_at s'.phis b (insert_at i n (s'.phis b)) })

unfoldable pub append_instruction : ℕ → ℕ → Ssa → Result Ssa
unfolding enter_block
append_instruction b n s = do
  s' ← enter_block b n s
  ok (record s' { body = set_at s'.body b (s'.body b ++ n ∷ []) })

unfoldable pub insert_instruction : ℕ → ℕ → ℕ → Ssa → Result Ssa
unfolding enter_block
insert_instruction b i n s = do
  s' ← enter_block b n s
  ok (record s' { body = set_at s'.body b (insert_at i n (s'.body b)) })
