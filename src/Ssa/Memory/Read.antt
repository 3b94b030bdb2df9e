-- ===== src/Ssa/Memory/Read.antt =====
-- Reading a variable (memorySSAUpdater.py): the definitions in a block, its predecessors and new phis.
use hwt_hls.Prelude.{
  ℕ, zero, suc, ◌+◌, Bool, not, none, some, List, [], ◌∷◌, contains, ltb, ◌==◌, if◌then◌else◌,
}
use hwt_hls.Prelude.Result.{
  Result, ok, err, or_raise, require, ◌>>=◌, ◌>>◌, assertion_error, attribute_error,
  recursion_error,
}
use hwt_hls.Hwt.{UniqListOps}
use hwt_hls.Graph.{add}
use hwt_hls.Ssa.{Operand, const, value, phi, set_at, is_in_ssa}
use hwt_hls.Ssa.Blocks.{append_phi, append_operand}
use hwt_hls.Ssa.Memory.{Memory, try_remove_trivial_phi, write_variable}

-- a phi and its variable, in the order of the variables
abbrev pub insert_sorted : ℕ × ℕ → List (ℕ × ℕ) → List (ℕ × ℕ)
insert_sorted a [] = a ∷ []
insert_sorted a (b ∷ bs) =
    let rest = insert_sorted a bs in if ltb b.0 a.0 then b ∷ rest else a ∷ b ∷ bs

unfoldable pub sorted_phis : List (ℕ × ℕ) → List (ℕ × ℕ)
sorted_phis [] = []
sorted_phis (a ∷ rest) = insert_sorted a (sorted_phis rest)

abbrev pub put_phi : ℕ → ℕ → List (ℕ × ℕ) → List (ℕ × ℕ)
put_phi var p [] = (var, p) ∷ []
put_phi var p ((w, q) ∷ rest) = if w == var then (w, p) ∷ rest else (w, q) ∷ put_phi var p rest

module _ (l : UniqListOps) (has_width : ℕ → Operand → Bool) (undefined : ℕ → ℕ) where
  -- A new phi without operands in a block.
  unfoldable pub new_phi : ℕ → Memory → Result (ℕ × Memory)
  unfolding append_phi
  new_phi block m = do
    let p = m.next_value
    let s = m.ssa
    s' ← append_phi block p (record s {
      user = set_at s.user p (phi []);
      users = set_at s.users p [];
      block = set_at s.block p none;
      replaced_by = set_at s.replaced_by p none;
    })
    ok (p, record m { ssa = s'; next_value = p + 1 })

  abbrev pub Read : Type 0
  Read = ℕ → ℕ → Memory → Result (Operand × Memory)

  unfoldable pub append_from : Read → ℕ → ℕ → List ℕ → Memory → Result Memory
  unfolding append_operand
  append_from read var p [] m = ok m
  append_from read var p (pred ∷ preds) m = do
    r ← read var pred m
    s ← append_operand l p r.0 pred r.1.ssa
    append_from read var p preds (record (r.1) { ssa = s })

  -- `addPhiOperands`
  unfoldable pub add_phi_operands : ℕ → Read → ℕ → ℕ → Memory → Result (Operand × Memory)
  unfolding append_from try_remove_trivial_phi
  add_phi_operands limit read var p m = do
    home ← or_raise attribute_error (m.ssa.block p)
    m' ← append_from read var p (m.ssa.predecessors home) m
    try_remove_trivial_phi l has_width undefined limit p m'

  -- The value of a variable that the block does not define, by how many predecessors it has.
  unfoldable pub join_value : ℕ → Read → ℕ → ℕ → List ℕ → Memory → Result (Operand × Memory)
  unfolding new_phi write_variable add_phi_operands
  join_value limit read var block (pred ∷ []) m = read var pred m
  join_value limit read var block _ m = do
    made ← new_phi block m
    m' ← write_variable l has_width undefined var block (value made.0) made.1
    add_phi_operands limit read var made.0 m'

  unfoldable pub find_value : ℕ → Read → ℕ → ℕ → Memory → Result (Operand × Memory)
  unfolding join_value
  find_value limit read var block m =
      if contains m.sealed_blocks block
      then join_value limit read var block (m.ssa.predecessors block) m
      else do
        made ← new_phi block m
        let m' = made.1
        ok (
          value made.0,
          record m' {
            incomplete_phis =
                set_at m'.incomplete_phis block (put_phi var made.0 (m'.incomplete_phis block));
          },
        )

  unfoldable pub write_found : ℕ → ℕ → Operand × Memory → Result Memory
  unfolding write_variable
  write_found var block (const c, m) = ok m
  write_found var block (value v, m) = write_variable l has_width undefined var block (value v) m

  -- `readVariableRecursive`
  unfoldable pub read_variable_recursive : ℕ → Read → Read
  unfolding find_value write_found
  read_variable_recursive limit read var block m = do
    r ← find_value limit read var block m
    m' ← write_found var block r
    require (is_in_ssa m'.ssa r.0) assertion_error
    ok (r.0, m')

  -- `readVariable`
  unfoldable pub read_variable : ℕ → Read
  unfolding read_variable_recursive
  read_variable zero var block m = err recursion_error
  read_variable (suc limit) var block m = elim (m.current_def var block) [
    | some v ↦ do require (is_in_ssa m.ssa v) assertion_error; ok (v, m)
    | none ↦ read_variable_recursive limit (read_variable limit) var block m
  ]

  unfoldable pub complete_phis : ℕ → List (ℕ × ℕ) → Memory → Result Memory
  unfolding add_phi_operands read_variable
  complete_phis limit [] m = ok m
  complete_phis limit ((var, p) ∷ rest) m = do
    r ← add_phi_operands limit (read_variable limit) var p m
    complete_phis limit rest r.1

  -- `sealBlock`
  unfoldable pub seal_block : ℕ → ℕ → Memory → Result Memory
  unfolding complete_phis sorted_phis
  seal_block limit block m = do
    require (not (contains m.sealed_blocks block)) assertion_error
    m' ←
        complete_phis limit (sorted_phis (m.incomplete_phis block))
          (record m { incomplete_phis = set_at m.incomplete_phis block [] })
    ok (record m' { sealed_blocks = add block m'.sealed_blocks })
