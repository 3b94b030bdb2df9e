-- ===== src/Ssa/Threads/Mined.antt =====
-- The threads that threadMining.py finds.
use hwt_hls.Prelude.{ℕ, ◌≡◌, refl, ◌∙◌, subst, false, none, List, [], ◌∷◌, ◌++◌, ◌==◌, All, arith}
use hwt_hls.Prelude.Result.{ok}
use hwt_hls.Ssa.{Operand, Ssa}
use hwt_hls.Ssa.Threads.{
  Threads, merge_operands, enter_thread, definitions, define_each, apply_ssa_basic_block,
  apply_blocks, no_threads, finalize,
}
use hwt_hls.Ssa.Threads.Merged.{IsPartition, Together}
use hwt_hls.Ssa.Threads.Final.{BothKnown, Keeps, finalize-Together}
use hwt_hls.Ssa.Threads.Defined.{IsMining, HasNone, merge_operands-Steps}
use hwt_hls.Ssa.Threads.Entered.{enter_thread-Entered}

-- No instruction is defined twice.
abbrev pub Distinct : List (ℕ × List Operand) → Type 0
Distinct [] = Unit
Distinct ((i, os) ∷ ds) = All (λ (d : ℕ × List Operand). (i == d.0) ≡ false) ds × Distinct ds

abbrev AllNew : Threads → List (ℕ × List Operand) → Type 0
AllNew s ds = All (λ (d : ℕ × List Operand). HasNone s d.0) ds

AllNew-step :
    (s after : Threads) (i : ℕ) (ds : List (ℕ × List Operand))
    → ((j : ℕ) → (i == j) ≡ false → HasNone s j → HasNone after j)
    → All (λ (d : ℕ × List Operand). (i == d.0) ≡ false) ds
    → AllNew s ds
    → AllNew after ds
AllNew-step s after i [] k a h = tt
AllNew-step s after i (d ∷ ds) k (a, rest) (h, hs) = (k d.0 a h, AllNew-step s after i ds k rest hs)

define_each-IsMining :
    (ds : List (ℕ × List Operand)) (s : Threads)
    → Distinct ds
    → AllNew s ds
    → IsMining s
    → IsMining (define_each ds s)
unfolding define_each
define_each-IsMining [] s d n m = m
define_each-IsMining ((i, os) ∷ ds) s (a, d) (h, n) m =
    let joined = merge_operands i os (none, s) in
    let steps = merge_operands-Steps i os none s m tt in
    let entered =
      enter_thread-Entered i joined.0 joined.1 steps.mining (steps.none_yet i h) steps.live in
    define_each-IsMining ds (enter_thread i joined) d
      (AllNew-step s (enter_thread i joined) i ds
        (λ j e k. entered.none_yet j e (steps.none_yet j k)) a n)
      entered.mining

abbrev pub all_definitions : Ssa → List (ℕ × ℕ) → List ℕ → List (ℕ × List Operand)
all_definitions ssa edges [] = []
all_definitions ssa edges (b ∷ bs) = definitions ssa edges b ++ all_definitions ssa edges bs

define_each-append :
    (ds es : List (ℕ × List Operand)) (s : Threads)
    → define_each (ds ++ es) s ≡ define_each es (define_each ds s)
unfolding define_each
define_each-append [] es s = refl
define_each-append ((i, os) ∷ ds) es s =
    define_each-append ds es (enter_thread i (merge_operands i os (none, s)))

apply_blocks-define_each :
    (ssa : Ssa) (edges : List (ℕ × ℕ)) (bs : List ℕ) (s : Threads)
    → define_each (all_definitions ssa edges bs) s ≡ apply_blocks ssa edges bs s
unfolding apply_blocks apply_ssa_basic_block define_each
apply_blocks-define_each ssa edges [] s = refl
apply_blocks-define_each ssa edges (b ∷ bs) s =
    define_each-append (definitions ssa edges b) (all_definitions ssa edges bs) s
    ∙ apply_blocks-define_each ssa edges bs (define_each (definitions ssa edges b) s)

AllNew-no_threads : (ds : List (ℕ × List Operand)) → AllNew no_threads ds
AllNew-no_threads [] = tt
AllNew-no_threads (d ∷ ds) = (λ t. refl, AllNew-no_threads ds)

no_threads-IsMining : IsMining no_threads
no_threads-IsMining = record {
  partition = record { members_have = λ i t j h. absurd (ground arith) };
  bound = λ i t h. absurd (ground arith);
}

apply_blocks-IsMining :
    (ssa : Ssa) (edges : List (ℕ × ℕ)) (blocks : List ℕ)
    → Distinct (all_definitions ssa edges blocks)
    → IsMining (apply_blocks ssa edges blocks no_threads)
apply_blocks-IsMining ssa edges blocks d =
    subst IsMining (apply_blocks-define_each ssa edges blocks no_threads) (
      define_each-IsMining (all_definitions ssa edges blocks) no_threads d
        (AllNew-no_threads (all_definitions ssa edges blocks)) no_threads-IsMining)

-- If no instruction is defined twice in the blocks, and after the walk through them both ends of
-- every pair that is left to check have a thread: `finalize` returns; the members of the thread
-- of an instruction are the instructions that have this thread, instructions that were in one
-- thread are in one thread still, and so are the two ends of every pair.
pub apply_blocks-Together :
    (ssa : Ssa) (edges : List (ℕ × ℕ)) (blocks : List ℕ) (mined : Threads)
    → Distinct (all_definitions ssa edges blocks)
    → apply_blocks ssa edges blocks no_threads ≡ mined
    → All (BothKnown mined) mined.to_check_later
    → (after : Threads) × (finalize mined ≡ ok after)
      × IsPartition after
      × Keeps mined after
      × All (λ (p : ℕ × ℕ). Together after p.0 p.1) mined.to_check_later
apply_blocks-Together ssa edges blocks mined d e h =
    finalize-Together mined (subst IsMining e (apply_blocks-IsMining ssa edges blocks d)).partition
      h
