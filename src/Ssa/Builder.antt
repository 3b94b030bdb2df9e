-- ===== src/Ssa/Builder.antt =====
-- hwtHls/ssa/exprBuilder.py: instructions at a position of a block, and branches over new blocks. The
-- operands are constants and values; what hwt computes of an operator on constants is a parameter. New
-- objects are named by the numbers that come next.
use hwt_hls.Prelude.{
  ℕ, zero, suc, ◌+◌, Bool, true, false, ◌&&◌, Option, none, some, List, [], ◌∷◌, length, contains,
  ◌==◌, if◌then◌else◌,
}
use hwt_hls.Prelude.Result.{
  Result, ok, err, require, ◌>>=◌, ◌>>◌, assertion_error, value_error, recursion_error,
  not_implemented_error,
}
use hwt_hls.Hwt.{UniqListOps}
use hwt_hls.Ssa.{Operand, const, value, branch, phi, Ssa, set_at, new_instr}
use hwt_hls.Ssa.Blocks.{
  targets_of, add_target, append_operand, append_phi, insert_phi, append_instruction,
  insert_instruction,
}

pub record Builder : Type 0 where
  pub ssa : Ssa
  pub branch_of : ℕ → ℕ
  pub block : ℕ
  pub position : Option ℕ
  pub next_value : ℕ
  pub next_block : ℕ

-- `xs.remove(x)`
abbrev pub remove_first : ℕ → List ℕ → List ℕ
remove_first n [] = []
remove_first n (m ∷ ms) = let rest = remove_first n ms in if m == n then ms else m ∷ rest

abbrev pub first_part : ℕ → List ℕ → List ℕ
first_part zero xs = []
first_part (suc n) [] = []
first_part (suc n) (x ∷ xs) = x ∷ first_part n xs

abbrev pub last_part : ℕ → List ℕ → List ℕ
last_part zero xs = xs
last_part (suc n) [] = []
last_part (suc n) (x ∷ xs) = last_part n xs

-- `_insertInstr`
unfoldable pub insert_instr : ℕ → Builder → Result Builder
unfolding append_instruction insert_instruction
insert_instr i b = elim b.position [
  | none ↦ do s ← append_instruction b.block i b.ssa; ok (record b { ssa = s })
  | some pos ↦ do
    s ← insert_instruction b.block pos i b.ssa
    ok (record b { ssa = s; position = some (pos + 1) })
]

-- `_insertPhi`, which takes the position among the instructions for one among the phis
unfoldable pub insert_phi_at : ℕ → Builder → Result Builder
unfolding append_phi insert_phi
insert_phi_at p b = elim b.position [
  | none ↦ do s ← append_phi b.block p b.ssa; ok (record b { ssa = s })
  | some pos ↦ do
    s ← insert_phi b.block pos p b.ssa
    ok (record b { ssa = s; position = some (pos + 1) })
]

-- The end of the chain of the values that replaced a phi; the loop is on fuel.
unfoldable pub not_replaced : ℕ → Ssa → Operand → Result Operand
not_replaced turns s (const c) = ok (const c)
not_replaced zero s (value v) = elim (s.replaced_by v) [
  | none ↦ ok (value v)
  | some o ↦ err recursion_error
]
not_replaced (suc turns) s (value v) = elim (s.replaced_by v) [
  | none ↦ ok (value v)
  | some o ↦ not_replaced turns s o
]

module _ (l : UniqListOps) where
  -- a new instruction at the position
  unfoldable pub build_instr : List Operand → Builder → Result (Operand × Builder)
  unfolding new_instr insert_instr
  build_instr operands b = do
    s ← new_instr l b.next_value operands b.ssa
    b' ← insert_instr b.next_value (record b { ssa = s; next_value = b.next_value + 1 })
    ok (value b.next_value, b')

  module _ (turns : ℕ) where
    -- `_unaryOp`; `fold` is the value of the operator on a constant, if it has one
    unfoldable pub unary_op : (ℕ → Option ℕ) → Operand → Builder → Result (Operand × Builder)
    unfolding not_replaced build_instr
    unary_op fold o b = do
      o' ← not_replaced turns b.ssa o
      elim o' [
        | const c ↦ elim (fold c) [ none ↦ build_instr (const c ∷ []) b | some d ↦ ok (const d, b) ]
        | value v ↦ build_instr (value v ∷ []) b
      ]

    abbrev pub fold_both : (ℕ → ℕ → Option ℕ) → Operand → Operand → Option ℕ
    fold_both fold (const c) (const d) = fold c d
    fold_both fold _ _ = none

    -- `_binaryOp`
    unfoldable pub binary_op :
        (ℕ → ℕ → Option ℕ) → Operand → Operand → Builder → Result (Operand × Builder)
    unfolding not_replaced build_instr
    binary_op fold o0 o1 b = do
      p0 ← not_replaced turns b.ssa o0
      p1 ← not_replaced turns b.ssa o1
      elim (fold_both fold p0 p1) [ none ↦ build_instr (p0 ∷ p1 ∷ []) b | some c ↦ ok (const c, b) ]

    -- the loop of `concat` after its first argument, which is the lowest part
    unfoldable pub concat_onto :
        (ℕ → ℕ → Option ℕ) → Operand → List Operand → Builder → Result (Operand × Builder)
    unfolding binary_op
    concat_onto fold res [] b = ok (res, b)
    concat_onto fold res (p ∷ ps) b = do r ← binary_op fold p res b; concat_onto fold r.0 ps r.1

    unfoldable pub concat : (ℕ → ℕ → Option ℕ) → List Operand → Builder → Result (Operand × Builder)
    unfolding concat_onto
    concat fold [] b = err assertion_error
    concat fold (p ∷ ps) b = concat_onto fold p ps b

  unfoldable pub append_operands : ℕ → List (Operand × ℕ) → Ssa → Result Ssa
  unfolding append_operand
  append_operands p [] s = ok s
  append_operands p ((val, pred) ∷ args) s = do
    s' ← append_operand l p val pred s
    append_operands p args s'

  -- `phi`, but for its type
  unfoldable pub build_phi : List (Operand × ℕ) → Builder → Result (ℕ × Builder)
  unfolding append_operands insert_phi_at
  build_phi args b = do
    let p = b.next_value
    let fresh = b.ssa
    s ← append_operands p args (record fresh {
      user = set_at fresh.user p (phi []);
      users = set_at fresh.users p [];
      block = set_at fresh.block p none;
      replaced_by = set_at fresh.replaced_by p none;
    })
    b' ← insert_phi_at p (record b { ssa = s; next_value = p + 1 })
    ok (p, b')

  -- The constructor of SsaBasicBlock, with that of its SsaInstrBranch.
  unfoldable pub new_block : Builder → ℕ × Builder
  new_block b =
      let n = b.next_block in
      let u = b.next_value in
      let s = b.ssa in
      (
        n,
        record b {
          ssa = record s {
            user = set_at s.user u (branch n []);
            predecessors = set_at s.predecessors n [];
            phis = set_at s.phis n [];
            body = set_at s.body n [];
          };
          branch_of = set_at b.branch_of n u;
          next_value = u + 1;
          next_block = n + 1;
        },
      )

  unfoldable pub new_blocks : {A : Type 0} → List A → Builder → List ℕ × Builder
  unfolding new_block
  new_blocks [] b = ([], b)
  new_blocks (c ∷ cs) b =
      let (n, b') = new_block b in let (ns, b'') = new_blocks cs b' in (n ∷ ns, b'')

  -- the loop over the instructions after the position
  unfoldable pub move_instrs : ℕ → List ℕ → Ssa → Result Ssa
  unfolding append_instruction
  move_instrs sequel [] s = ok s
  move_instrs sequel (i ∷ is) s = do
    s' ← append_instruction sequel i (record s { block = set_at s.block i none })
    move_instrs sequel is s'

  -- The loop over the targets of the block. Phis of the targets are left as they are.
  unfoldable pub move_targets :
      (branch_of : ℕ → ℕ) → (from sequel : ℕ) → List (Option Operand × ℕ) → Ssa → Result Ssa
  unfolding add_target
  move_targets branch_of from sequel [] s = ok s
  move_targets branch_of from sequel ((c, t) ∷ ts) s = do
    require (contains (s.predecessors t) from) value_error
    s' ←
        add_target l (branch_of sequel) sequel c t (record s {
          predecessors = set_at s.predecessors t (remove_first from (s.predecessors t));
        })
    move_targets branch_of from sequel ts s'

  unfoldable pub link_blocks :
      (branch_of : ℕ → ℕ) → (from sequel : ℕ) → List (Option Operand) → List ℕ → Ssa → Result Ssa
  unfolding add_target
  link_blocks branch_of from sequel (c ∷ cs) (t ∷ ts) s = do
    s' ← add_target l (branch_of from) from c t s
    s'' ← add_target l (branch_of t) t none sequel s'
    link_blocks branch_of from sequel cs ts s''
  link_blocks branch_of from sequel _ _ s = ok s

  abbrev pub has_no_targets : List (Option Operand × ℕ) → Bool
  has_no_targets [] = true
  has_no_targets (t ∷ ts) = false

  -- `insertBlocks` behind a position, which returns the blocks and the sequel
  unfoldable pub split_block : List (Option Operand) → ℕ → Builder → Result (List ℕ × ℕ × Builder)
  unfolding new_blocks new_block move_instrs move_targets link_blocks
  split_block conditions pos b =
      let (blocks, made) = new_blocks conditions b in
      let (sequel, done) = new_block made in
      let s = done.ssa in
      let from = b.block in
      let u = done.branch_of from in
      do
        moved ← move_instrs sequel (last_part (pos + 1) (s.body from)) s
        let cut = record moved {
          body = set_at moved.body from (first_part (pos + 1) (moved.body from));
        }
        left ← move_targets done.branch_of from sequel (targets_of (cut.user u)) cut
        let cleared = record left { user = set_at left.user u (branch from []) }
        linked ← link_blocks done.branch_of from sequel conditions blocks cleared
        ok (blocks, sequel, record done { ssa = linked })

  unfoldable pub insert_blocks : List (Option Operand) → Builder → Result (List ℕ × ℕ × Builder)
  unfolding split_block
  insert_blocks conditions b = elim b.position [
    | none ↦ err not_implemented_error
    | some pos ↦
        if (pos + 1 == length (b.ssa.body b.block))
          && has_no_targets (targets_of (b.ssa.user (b.branch_of b.block)))
        then err not_implemented_error
        else split_block conditions pos b
  ]
