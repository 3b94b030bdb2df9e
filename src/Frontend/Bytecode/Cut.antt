-- ===== src/Frontend/Bytecode/Cut.antt =====
-- What the blocks look like that the bytecode is cut into.
use hwt_hls.Prelude.{
  ℕ, ◌≡◌, refl, Bool, true, false, not, ◌&&◌, ◌||◌, List, [], ◌∷◌, ◌++◌, ◌==◌, All, Bool-cases, inl,
  inr, if◌then◌else◌, arith,
}
use hwt_hls.Prelude.Result.{ok}
use hwt_hls.Frontend.Bytecode.{
  OpKind, jump, branch, for_iter, plain, Instruction, is_jump_op, Block, Blocks, last_of,
  first_offset, add_edge, starts_block, open_block, append_instr, add_jumps, add_instr,
  cut_instructions, extract_bytecode_blocks,
}

abbrev pub leaves : OpKind → Bool
leaves plain = false
leaves _ = true

abbrev pub is_entry : Instruction → Bool
is_entry i = i.is_jump_target && not (i.offset == 0)

-- Only the last instruction jumps, and only to the first one can be jumped: in reverse order.
abbrev pub IsStraight : List Instruction → Type 0
IsStraight [] = ⊥
IsStraight (i ∷ []) = Unit
IsStraight (i ∷ j ∷ is) = (is_entry i ≡ false) × (leaves j.kind ≡ false) × IsStraight (j ∷ is)

abbrev pub IsBasicBlock : Block → Type 0
IsBasicBlock b = IsStraight b.instrs × (first_offset b.instrs 0 ≡ b.first)

abbrev last_leaves : List Instruction → Bool
last_leaves [] = false
last_leaves (i ∷ is) = leaves i.kind

-- A block whose last instruction jumps is not filled on.
record IsCut (b : Blocks) : Type 0 where
  closed : All IsBasicBlock b.closed
  current : IsBasicBlock b.current
  left : last_leaves b.current.instrs ≡ true → b.last_was_jump || b.skip_if_not_jump_target ≡ true

All-snoc :
    (bs : List Block) (b : Block)
    → All IsBasicBlock bs
    → IsBasicBlock b
    → All IsBasicBlock (bs ++ b ∷ [])
All-snoc [] b h k = (k, tt)
All-snoc (c ∷ bs) b (h, hs) k = (h, All-snoc bs b hs k)

add_jumps-IsCut :
    (i : Instruction) (k : OpKind) (b : Blocks)
    → All IsBasicBlock b.closed
    → IsBasicBlock b.current
    → (last_leaves b.current.instrs ≡ leaves k)
    → IsCut (add_jumps i k b)
unfolding add_jumps
add_jumps-IsCut i jump b c k e = record { closed = c; current = k; left = λ h. ground arith }
add_jumps-IsCut i branch b c k e = record { closed = c; current = k; left = λ h. refl }
add_jumps-IsCut i for_iter b c k e = record { closed = c; current = k; left = λ h. refl }
add_jumps-IsCut i plain b c k e = record { closed = c; current = k; left = λ h. cc }

last_of-IsStraight :
    (is : List Instruction) → IsStraight is → (last : Instruction) × (last_of is ≡ ok last)
last_of-IsStraight [] h = absurd h
last_of-IsStraight (i ∷ is) h = (i, refl)

abbrev opened : Instruction → Blocks → Instruction → Blocks
opened i b last = record b {
  closed = b.closed ++ b.current ∷ [];
  current = record { first = i.offset; instrs = i ∷ [] };
  edges =
      if is_jump_op last.kind
      then b.edges
      else add_edge (first_offset b.current.instrs 0) i.offset b.edges;
  last_was_jump = false;
}

open_block-IsCut :
    (i : Instruction) (b : Blocks)
    → All IsBasicBlock b.closed
    → IsBasicBlock b.current
    → (b' : Blocks) × (open_block i b ≡ ok b') × IsCut (add_jumps i i.kind b')
unfolding open_block
open_block-IsCut i b c k =
    let (last, e) = last_of-IsStraight b.current.instrs k.0 in
    (
      opened i b last,
      rw e refl,
      add_jumps-IsCut i i.kind (opened i b last) (All-snoc b.closed b.current c k) (tt, refl) refl,
    )

IsStraight-cons :
    (i : Instruction) (is : List Instruction) (first : ℕ)
    → IsBasicBlock (record { first = first; instrs = is })
    → is_entry i ≡ false
    → last_leaves is ≡ false
    → IsBasicBlock (record { first = first; instrs = i ∷ is })
IsStraight-cons i [] first (h, f) e l = absurd h
IsStraight-cons i (j ∷ is) first (h, f) e l = ((e, l, h), f)

append_instr-IsCut :
    (i : Instruction) (b : Blocks)
    → IsCut b
    → is_entry i ≡ false
    → b.last_was_jump ≡ false
    → b.skip_if_not_jump_target ≡ false
    → IsCut (add_jumps i i.kind (append_instr i b))
unfolding append_instr
append_instr-IsCut i b v e l s =
    add_jumps-IsCut i i.kind (append_instr i b) v.closed
      (IsStraight-cons i b.current.instrs b.current.first v.current e
        (elim (Bool-cases (last_leaves b.current.instrs)) [
          | inl h ↦ let jumped = v.left h in absurd (ground arith)
          | inr h ↦ h
        ]))
      refl

cut_instructions-IsCut :
    (is : List Instruction) (b : Blocks)
    → All (λ (i : Instruction). (i.offset == 0) ≡ false) is
    → IsCut b
    → (after : Blocks) × (cut_instructions is b ≡ ok after) × IsCut after
unfolding cut_instructions add_instr
cut_instructions-IsCut [] b h v = (b, refl, v)
cut_instructions-IsCut (i ∷ is) b (h, hs) v =
    let go : Blocks = record b { skip_if_not_jump_target = false } in
    elim (Bool-cases (b.skip_if_not_jump_target && not i.is_jump_target)) [
      | inl s ↦
          let (after, e, w) = cut_instructions-IsCut is b hs v in
          (after, rw (s, cut_instructions) e, w)
      | inr s ↦ elim (Bool-cases (starts_block i b)) [
        | inl t ↦
            let (b', e, w) = open_block-IsCut i go v.closed v.current in
            let (after, f, x) = cut_instructions-IsCut is (add_jumps i i.kind b') hs w in
            (after, rw (s, cut_instructions) (rw t (rw e f)), x)
        | inr t ↦
            let skip : b.skip_if_not_jump_target ≡ false = ground arith in
            let w =
              append_instr-IsCut i go
                (record {
                  closed = v.closed;
                  current = v.current;
                  left = λ k. let j = v.left k in rw skip at j;
                })
                (ground arith) (ground arith) refl in
            let (after, f, x) =
              cut_instructions-IsCut is (add_jumps i i.kind (append_instr i go)) hs w in
            (after, rw (s, cut_instructions) (rw t f), x)
      ]
    ]

abbrev before_first : Blocks
before_first = record {
  closed = [];
  current = record { first = 0; instrs = [] };
  edges = [];
  last_was_jump = false;
  skip_if_not_jump_target = false;
}

first_starts_no_block : (i : Instruction) → i.offset ≡ 0 → starts_block i before_first ≡ false
first_starts_no_block i z = ground arith

-- If of some instructions only the first one has the offset 0: cutting them into blocks returns,
-- and in every block only the last instruction jumps or branches, only the first one is a jump
-- target (other than the offset 0), and the offset of the first one is the name of the block.
pub extract_bytecode_blocks-IsBasicBlock :
    (i : Instruction) (is : List Instruction)
    → i.offset ≡ 0
    → All (λ (j : Instruction). (j.offset == 0) ≡ false) is
    → (blocks : List Block) × (edges : List (ℕ × ℕ)) × (extract_bytecode_blocks (i ∷ is)
        ≡ ok (blocks, edges))
      × All IsBasicBlock blocks
unfolding extract_bytecode_blocks cut_instructions add_instr append_instr
extract_bytecode_blocks-IsBasicBlock i is z h =
    let go : Blocks = append_instr i before_first in
    let (after, e, v) =
      cut_instructions-IsCut is (add_jumps i i.kind go) h
        (add_jumps-IsCut i i.kind go tt (tt, z) refl) in
    (
      after.closed ++ after.current ∷ [],
      after.edges,
      rw (first_starts_no_block i z) (rw e refl),
      All-snoc after.closed after.current v.closed v.current,
    )
