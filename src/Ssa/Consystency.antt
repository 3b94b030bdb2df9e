-- ===== src/Ssa/Consystency.antt =====
-- hwtHls/ssa/analysis/consystencyCheck.py: the asserts on the blocks that are connected to the first one,
-- over successors as well as over predecessors. The fuel is Python's recursion limit.
pub mod Passed
use hwt_hls.Prelude.{
  ℕ, zero, suc, Bool, true, false, not, ◌&&◌, Option, none, some, List, [], ◌∷◌, ◌++◌, length,
  contains, ◌==◌, if◌then◌else◌,
}
use hwt_hls.Prelude.Result.{Result, ok, err, require, ◌>>=◌, ◌>>◌, assertion_error, recursion_error}
use hwt_hls.Graph.{add}
use hwt_hls.Ssa.{Operand, const, value, SsaUser, phi, Ssa, is_in_ssa}
use hwt_hls.Ssa.Blocks.{iter_blocks, operands_of}
use hwt_hls.Ssa.Liveness.{inputs_of}

-- What the first walk collects.
pub record Collected : Type 0 where
  pub blocks : List ℕ
  pub phis : List ℕ
  pub variables : List ℕ

abbrev pub is_block : Option ℕ → ℕ → Bool
is_block none b = false
is_block (some c) b = c == b

abbrev pub is_phi_object : SsaUser → Bool
is_phi_object (phi operands) = true
is_phi_object _ = false

-- `is_read` tells the reads (HlsStreamProcRead) from the other instructions.
module _ (ssa : Ssa) (branch_of : ℕ → ℕ) (is_read : ℕ → Bool) where
  unfoldable pub check_phi_operands : ℕ → List (Operand × ℕ) → Result (Unit {0})
  check_phi_operands bb [] = ok tt
  check_phi_operands bb ((v, src_block) ∷ os) = do
    require (contains (ssa.predecessors bb) src_block) assertion_error
    require (is_in_ssa ssa v) assertion_error
    check_phi_operands bb os

  -- the loop over the phis of a block
  unfoldable pub collect_phis_of : ℕ → List ℕ → Collected → Result Collected
  unfolding check_phi_operands
  collect_phis_of bb [] c = ok c
  collect_phis_of bb (p ∷ ps) c = do
    require (not (contains c.phis p)) assertion_error
    require (is_block (ssa.block p) bb) assertion_error
    require (not (contains c.variables p)) assertion_error
    require (length (operands_of (ssa.user p)) == length (ssa.predecessors bb)) assertion_error
    check_phi_operands bb (operands_of (ssa.user p))
    collect_phis_of bb ps (record c { phis = add p c.phis; variables = add p c.variables })

  unfoldable pub collect_body_of : List ℕ → Collected → Result Collected
  collect_body_of [] c = ok c
  collect_body_of (i ∷ is) c = do
    require (not (contains c.variables i)) assertion_error
    collect_body_of is (record c { variables = add i c.variables })

  abbrev pub Collect : Type 0
  Collect = ℕ → Collected → Result Collected

  unfoldable pub collect_each : Collect → List ℕ → Collected → Result Collected
  collect_each visit [] c = ok c
  collect_each visit (b ∷ bs) c = do
    c' ← (if contains c.blocks b then ok c else visit b c)
    collect_each visit bs c'

  -- `visit_collect`
  unfoldable pub visit_collect : ℕ → Collect
  unfolding collect_phis_of collect_body_of collect_each iter_blocks
  visit_collect zero bb c = err recursion_error
  visit_collect (suc limit) bb c = do
    with_phis ← collect_phis_of bb (ssa.phis bb) (record c { blocks = add bb c.blocks })
    with_body ← collect_body_of (ssa.body bb) with_phis
    before ← collect_each (visit_collect limit) (ssa.predecessors bb) with_body
    collect_each (visit_collect limit) (iter_blocks (ssa.user (branch_of bb))) before

  module _ (c : Collected) where
    -- `_check_variable_definition_for_use`
    abbrev pub is_defined : Operand → Bool
    is_defined (const k) = true
    is_defined (value v) =
        if is_read v
        then true
        else if is_phi_object (ssa.user v)
        then contains c.phis v
        else contains c.variables v

    unfoldable pub check_inputs : List Operand → Result (Unit {0})
    check_inputs [] = ok tt
    check_inputs (o ∷ os) = do require (is_defined o) assertion_error; check_inputs os

    unfoldable pub check_body : List ℕ → Result (Unit {0})
    unfolding check_inputs
    check_body [] = ok tt
    check_body (i ∷ is) = do check_inputs (inputs_of (ssa.user i)); check_body is

    -- the calls, which return the blocks that are seen
    abbrev pub Check : Type 0
    Check = ℕ → List ℕ → Result (List ℕ)

    unfoldable pub check_successors : Check → List ℕ → List ℕ → Result (List ℕ)
    check_successors visit [] seen = ok seen
    check_successors visit (b ∷ bs) seen = do
      require (contains c.blocks b) assertion_error
      seen' ← (if contains seen b then ok seen else visit b seen)
      check_successors visit bs seen'

    unfoldable pub check_predecessors : Check → ℕ → List ℕ → List ℕ → Result (List ℕ)
    unfolding iter_blocks
    check_predecessors visit bb [] seen = ok seen
    check_predecessors visit bb (b ∷ bs) seen = do
      require (contains c.blocks b) assertion_error
      require (contains (iter_blocks (ssa.user (branch_of b))) bb) assertion_error
      seen' ← (if contains seen b then ok seen else visit b seen)
      check_predecessors visit bb bs seen'

    -- `visit_check`
    unfoldable pub visit_check : ℕ → Check
    unfolding check_body check_successors check_predecessors iter_blocks
    visit_check zero bb seen = err recursion_error
    visit_check (suc limit) bb seen = do
      require (contains c.blocks bb) assertion_error
      check_body (ssa.body bb)
      after ←
          check_successors (visit_check limit) (iter_blocks (ssa.user (branch_of bb))) (add bb seen)
      check_predecessors (visit_check limit) bb (ssa.predecessors bb) after

  -- `apply`
  unfoldable pub check_ssa : ℕ → ℕ → Result (List ℕ)
  unfolding visit_collect visit_check
  check_ssa limit start = do
    c ← visit_collect limit start (record { blocks = []; phis = []; variables = [] })
    visit_check c limit start []
