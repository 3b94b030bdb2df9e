-- ===== src/Frontend/Bytecode.antt =====
-- hwtHls/ssa/translation/fromPython/bytecodeBlockAnalysis.py: the bytecode is cut into blocks, with the
-- edges between them. A block is named by the offset of its first instruction. The instructions come from
-- the dis module; which opcodes are which jumps is told by their kind.
pub mod Cut
use hwt_hls.Prelude.{
  ℕ, zero, suc, ◌+◌, Bool, true, false, not, ◌&&◌, ◌||◌, Option, none, some, List, [], ◌∷◌, ◌++◌,
  ◌==◌, if◌then◌else◌,
}
use hwt_hls.Prelude.Result.{Result, ok, err, ◌>>=◌, index_error}
use hwt_hls.Frontend.Predecessors.{has_edge}

-- A jump that is always taken is JUMP_ABSOLUTE or JUMP_FORWARD; a branch is one of the other JUMP_OPS, to
-- which FOR_ITER does not belong.
pub data OpKind : Type 0 where
  jump branch for_iter plain : OpKind

pub record Instruction : Type 0 where
  pub kind : OpKind
  pub offset : ℕ
  pub argval : ℕ
  pub is_jump_target : Bool

-- `opcode in JUMP_OPS`
abbrev pub is_jump_op : OpKind → Bool
is_jump_op jump = true
is_jump_op branch = true
is_jump_op _ = false

-- `cfg.add_edge`
abbrev pub add_edge : ℕ → ℕ → List (ℕ × ℕ) → List (ℕ × ℕ)
add_edge src dst es = if has_edge es src dst then es else es ++ (src, dst) ∷ []

-- A block with its instructions in reverse, so that the last one comes first.
pub record Block : Type 0 where
  pub first : ℕ
  pub instrs : List Instruction

-- The blocks that are done and the one that is filled, the edges, and the flags of the loop.
pub record Blocks : Type 0 where
  pub closed : List Block
  pub current : Block
  pub edges : List (ℕ × ℕ)
  pub last_was_jump : Bool
  pub skip_if_not_jump_target : Bool

-- `curBlock[-1]`
abbrev pub last_of : List Instruction → Result Instruction
last_of [] = err index_error
last_of (i ∷ is) = ok i

-- `curBlock[0].offset`
abbrev pub first_offset : List Instruction → ℕ → ℕ
first_offset [] o = o
first_offset (i ∷ is) o = first_offset is i.offset

abbrev pub starts_block : Instruction → Blocks → Bool
starts_block i b = (i.is_jump_target && not (i.offset == 0)) || b.last_was_jump

-- A new block, with the edge from the one before if that does not end with a jump.
unfoldable pub open_block : Instruction → Blocks → Result Blocks
open_block i b = do
  last ← last_of b.current.instrs
  ok (record b {
    closed = b.closed ++ b.current ∷ [];
    current = record { first = i.offset; instrs = i ∷ [] };
    edges =
        if is_jump_op last.kind
        then b.edges
        else add_edge (first_offset b.current.instrs 0) i.offset b.edges;
    last_was_jump = false;
  })

unfoldable pub append_instr : Instruction → Blocks → Blocks
append_instr i b = record b {
  current = record (b.current) { instrs = i ∷ b.current.instrs };
  last_was_jump = is_jump_op i.kind;
}

-- the edges of a jump
abbrev pub add_branch : Instruction → Blocks → Blocks
add_branch i b =
    let src = first_offset b.current.instrs 0 in
    record b {
      edges = add_edge src (i.offset + 2) (add_edge src i.argval b.edges);
      last_was_jump = true;
    }

unfoldable pub add_jumps : Instruction → OpKind → Blocks → Blocks
add_jumps i jump b = record b {
  edges = add_edge (first_offset b.current.instrs 0) i.argval b.edges;
  skip_if_not_jump_target = true;
}
add_jumps i branch b = add_branch i b
add_jumps i for_iter b = add_branch i b
add_jumps i plain b = b

unfoldable pub add_instr : Instruction → Blocks → Result Blocks
unfolding open_block append_instr add_jumps
add_instr i b = do
  b' ← (if starts_block i b then open_block i b else ok (append_instr i b))
  ok (add_jumps i i.kind b')

unfoldable pub cut_instructions : List Instruction → Blocks → Result Blocks
unfolding add_instr
cut_instructions [] b = ok b
cut_instructions (i ∷ is) b = elim (b.skip_if_not_jump_target && not i.is_jump_target) [
  | true ↦ cut_instructions is b
  | false ↦ do
    b' ← add_instr i (record b { skip_if_not_jump_target = false })
    cut_instructions is b'
]

-- `extractBytecodeBlocks`; the last block is in the dict as well
unfoldable pub extract_bytecode_blocks : List Instruction → Result (List Block × List (ℕ × ℕ))
unfolding cut_instructions
extract_bytecode_blocks instructions = do
  b ← cut_instructions instructions (record {
    closed = [];
    current = record { first = 0; instrs = [] };
    edges = [];
    last_was_jump = false;
    skip_if_not_jump_target = false;
  })
  ok (b.closed ++ b.current ∷ [], b.edges)
