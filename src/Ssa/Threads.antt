-- ===== src/Ssa/Threads.antt =====
-- hwtHls/ssa/analysis/threadMining.py: which instructions belong to one thread of the code. A thread is
-- a set object, named by a number; several instructions have the same one, and the store has what is in
-- it. A dict is the list of its items, in the order of their insertion.
pub mod Merged
pub mod Final
pub mod Defined
pub mod Entered
pub mod Mined
use hwt_hls.Prelude.{
  ℕ, zero, suc, ◌+◌, Bool, true, false, not, ◌&&◌, ◌||◌, Option, none, some, List, [], ◌∷◌, ◌++◌,
  map, reverse, contains, ◌==◌, if◌then◌else◌,
}
use hwt_hls.Prelude.Result.{Result, ok, err, or_raise, ◌>>=◌, key_error}
use hwt_hls.Graph.{add}
use hwt_hls.Blocks.{collect_all_blocks}
use hwt_hls.Ssa.{Operand, const, value, SsaUser, Ssa, set_at}
use hwt_hls.Ssa.Blocks.{iter_blocks, operands_of}
use hwt_hls.Ssa.Liveness.{inputs_of}

abbrev pub ThreadsPerInstr : Type 0
ThreadsPerInstr = List (ℕ × ℕ)

-- `threads.get(i)`
abbrev pub thread_of : ThreadsPerInstr → ℕ → Option ℕ
thread_of [] i = none
thread_of ((k, t) ∷ rest) i = if k == i then some t else thread_of rest i

-- `threads[i] = t`
abbrev pub put_thread : ℕ → ℕ → ThreadsPerInstr → ThreadsPerInstr
put_thread i t [] = (i, t) ∷ []
put_thread i t ((k, u) ∷ rest) = if k == i then (k, t) ∷ rest else (k, u) ∷ put_thread i t rest

abbrev pub put_each : List ℕ → ℕ → ThreadsPerInstr → ThreadsPerInstr
put_each [] t threads = threads
put_each (i ∷ is) t threads = put_each is t (put_thread i t threads)

-- `set.update`
abbrev pub update : List ℕ → List ℕ → List ℕ
update xs [] = xs
update xs (y ∷ ys) = update (add y xs) ys

pub record Threads : Type 0 where
  pub per_instr : ThreadsPerInstr
  pub members : ℕ → List ℕ
  pub next_thread : ℕ
  pub to_check_later : List (ℕ × ℕ)

-- `mergeThreads`
unfoldable pub merge_threads : ℕ → ℕ → Threads → Threads
merge_threads t0 t1 s = record s {
  per_instr = put_each (s.members t1) t0 s.per_instr;
  members = set_at s.members t0 (update (s.members t0) (s.members t1));
}

-- the two cases of an operand that has a thread
abbrev pub join_operand : Option ℕ → ℕ → Threads → Option ℕ × Threads
join_operand none t s = (some t, s)
join_operand (some other) t s = (some other, merge_threads other t s)

abbrev pub join_known : ℕ → ℕ → Option ℕ → Option ℕ → Threads → Option ℕ × Threads
join_known parent v none other s =
    (other, record s { to_check_later = s.to_check_later ++ (v, parent) ∷ [] })
join_known parent v (some t) other s = join_operand other t s

-- `mergeInNextOperand`
unfoldable pub merge_in_next_operand : ℕ → Operand → Option ℕ × Threads → Option ℕ × Threads
unfolding merge_threads
merge_in_next_operand parent (const c) (other, s) = (other, s)
merge_in_next_operand parent (value v) (other, s) =
    join_known parent v (thread_of s.per_instr v) other s

unfoldable pub merge_operands : ℕ → List Operand → Option ℕ × Threads → Option ℕ × Threads
unfolding merge_in_next_operand
merge_operands parent [] r = r
merge_operands parent (o ∷ os) r = merge_operands parent os (merge_in_next_operand parent o r)

-- `otherMembersOfThread.add(i)` and `threads[i] = otherMembersOfThread`, with a new set if it is None
unfoldable pub enter_thread : ℕ → Option ℕ × Threads → Threads
enter_thread i (none, s) = record s {
  per_instr = put_thread i s.next_thread s.per_instr;
  members = set_at s.members s.next_thread (i ∷ []);
  next_thread = s.next_thread + 1;
}
enter_thread i (some t, s) = record s {
  per_instr = put_thread i t s.per_instr;
  members = set_at s.members t (add i (s.members t));
}

abbrev pub is_out_of_pipeline : List (ℕ × ℕ) → ℕ → ℕ → Bool
is_out_of_pipeline [] src dst = false
is_out_of_pipeline ((a, b) ∷ es) src dst =
    ((a == src) && (b == dst)) || is_out_of_pipeline es src dst

-- The operands of a phi that come over edges in the pipeline.
unfoldable pub phi_inputs : List (ℕ × ℕ) → ℕ → List (Operand × ℕ) → List Operand
phi_inputs edges block [] = []
phi_inputs edges block ((c, b) ∷ os) =
    let rest = phi_inputs edges block os in
    if is_out_of_pipeline edges b block then rest else c ∷ rest

-- What is defined in a block, with the operands that are looked at, in order.
abbrev pub definitions : Ssa → List (ℕ × ℕ) → ℕ → List (ℕ × List Operand)
definitions ssa edges block =
    map (λ p. (p, phi_inputs edges block (operands_of (ssa.user p)))) (ssa.phis block)
    ++ map (λ i. (i, inputs_of (ssa.user i))) (ssa.body block)

unfoldable pub define_each : List (ℕ × List Operand) → Threads → Threads
unfolding merge_operands enter_thread
define_each [] s = s
define_each ((i, os) ∷ rest) s = define_each rest (enter_thread i (merge_operands i os (none, s)))

-- `apply_SsaBasicBlock`
unfoldable pub apply_ssa_basic_block : Ssa → List (ℕ × ℕ) → ℕ → Threads → Threads
unfolding define_each phi_inputs
apply_ssa_basic_block ssa edges block s = define_each (definitions ssa edges block) s

unfoldable pub apply_blocks : Ssa → List (ℕ × ℕ) → List ℕ → Threads → Threads
unfolding apply_ssa_basic_block
apply_blocks ssa edges [] s = s
apply_blocks ssa edges (b ∷ bs) s = apply_blocks ssa edges bs (apply_ssa_basic_block ssa edges b s)

unfoldable pub check_later : List (ℕ × ℕ) → Threads → Result Threads
unfolding merge_threads
check_later [] s = ok s
check_later ((src, dst) ∷ rest) s = do
  t0 ← or_raise key_error (thread_of s.per_instr src)
  t1 ← or_raise key_error (thread_of s.per_instr dst)
  check_later rest (merge_threads t0 t1 s)

-- `finalize`
unfoldable pub finalize : Threads → Result Threads
unfolding check_later
finalize s = do s' ← check_later s.to_check_later s; ok (record s' { to_check_later = [] })

abbrev pub ThreadsPerBlock : Type 0
ThreadsPerBlock = ℕ → Option (List ℕ)

abbrev pub add_block_thread : ℕ → Option (List ℕ) → List ℕ
add_block_thread t none = t ∷ []
add_block_thread t (some ts) = if contains ts t then ts else ts ++ t ∷ []

abbrev pub in_block : ℕ → Option ℕ → ThreadsPerBlock → ThreadsPerBlock
in_block t none blocks = blocks
in_block t (some b) blocks = set_at blocks b (some (add_block_thread t (blocks b)))

-- The loop over the instructions of a thread. An entry for instructions in no block is never read.
unfoldable pub thread_in_blocks : Ssa → ℕ → List ℕ → ThreadsPerBlock → ThreadsPerBlock
thread_in_blocks ssa t [] blocks = blocks
thread_in_blocks ssa t (i ∷ is) blocks = thread_in_blocks ssa t is (in_block t (ssa.block i) blocks)

-- The loop over `threadsPerInstr.values()`. Threads are told apart by `id`; as sets that are not empty
-- and have no common members they are equal only if they are the same.
unfoldable pub threads_in_blocks :
    Ssa → (ℕ → List ℕ) → ThreadsPerInstr → List ℕ → ThreadsPerBlock → ThreadsPerBlock
unfolding thread_in_blocks
threads_in_blocks ssa members [] seen blocks = blocks
threads_in_blocks ssa members ((i, t) ∷ rest) seen blocks =
    threads_in_blocks ssa members rest (add t seen)
      (if contains seen t then blocks else thread_in_blocks ssa t (members t) blocks)

abbrev pub is_empty : List ℕ → Bool
is_empty [] = true
is_empty (x ∷ xs) = false

-- blocks without any instruction
unfoldable pub empty_blocks : Ssa → List ℕ → ThreadsPerBlock → ThreadsPerBlock
empty_blocks ssa [] blocks = blocks
empty_blocks ssa (b ∷ bs) blocks =
    empty_blocks ssa bs
      (if is_empty (ssa.phis b) && is_empty (ssa.body b) then set_at blocks b (some []) else blocks)

abbrev pub no_threads : Threads
no_threads = record { per_instr = []; members = λ t. []; next_thread = 0; to_check_later = [] }

-- `apply`; `branch_of` is the field `successors` of a block
unfoldable pub mine_threads :
    Ssa → (branch_of : ℕ → ℕ) → (edges : List (ℕ × ℕ)) → ℕ → ℕ → Result (Threads × ThreadsPerBlock)
unfolding collect_all_blocks iter_blocks apply_blocks finalize threads_in_blocks empty_blocks
mine_threads ssa branch_of edges limit start = do
  seen ← collect_all_blocks (λ b. iter_blocks (ssa.user (branch_of b))) limit start
  let blocks = reverse seen
  s ← finalize (apply_blocks ssa edges blocks no_threads)
  ok (s, empty_blocks ssa blocks (threads_in_blocks ssa s.members s.per_instr [] (λ b. none)))
