-- ===== src/Examples/AxiReads.antt =====
-- Block 0 has the read 10 and leads to the blocks 1 and 2 with the reads 11 and 12. A word has 32 bits.
use hwt_hls.Prelude.{
  ℕ, zero, suc, ◌≡◌, refl, Option, none, some, List, [], ◌∷◌, ◌++◌, ◌==◌, if◌then◌else◌,
}
use hwt_hls.Prelude.Result.{Result, ok, err, not_implemented_error}
use hwt_hls.AxiReads.{
  Transitions, ReadCfg, Reads, Detected, ReadOffsets, set_read, detect_read_graphs,
  resolve_possible_offset,
}
use hwt_hls.AxiReads.Blocks.{find_read_start_block}
use hwt_hls.AxiReads.Start.{AllIn, find_read_start_block-AllIn}

abbrev fork_body : ℕ → List ℕ
fork_body zero = 10 ∷ []
fork_body (suc zero) = 5 ∷ 11 ∷ []
fork_body (suc (suc zero)) = 12 ∷ []
fork_body _ = []

abbrev fork_successors : ℕ → List ℕ
fork_successors zero = 1 ∷ 2 ∷ []
fork_successors _ = []

abbrev fork_predecessors : ℕ → List ℕ
fork_predecessors (suc zero) = 0 ∷ []
fork_predecessors (suc (suc zero)) = 0 ∷ []
fork_predecessors _ = []

abbrev fork : Reads
fork = record {
  data_width = 32;
  all_reads = 10 ∷ 11 ∷ 12 ∷ [];
  bit_length = λ r. if r == 10 then 48 else 16;
  is_end = λ r. r == 11;
  block = λ r. if r == 10 then 0 else if r == 11 then 1 else 2;
  body = fork_body;
  successors = fork_successors;
  predecessors = fork_predecessors;
}

abbrev detected : Result Detected
detected = detect_read_graphs (λ ts t. ts ++ t ∷ []) fork 9 none 0 0 ((λ r. none), [])

abbrev after_read : Option ℕ → Result Detected → Option Transitions
after_read r (ok d) = d.0 r
after_read r (err e) = none

-- The reads of both blocks follow at the bit 16 of a word.
reads_follow : after_read (some 10) detected ≡ some ((16, 11) ∷ (16, 12) ∷ [])
unfolding detect_read_graphs
reads_follow = refl

abbrev fork_cfg : ReadCfg
fork_cfg =
    set_read (set_read (λ r. some []) none (some ((0, 10) ∷ []))) (some 10)
      (some ((16, 11) ∷ (16, 12) ∷ []))

abbrev offsets_of : Option ℕ → Result ReadOffsets → List ℕ
offsets_of r (ok o) = o.0 r
offsets_of r (err e) = []

offsets : offsets_of (some 12) (resolve_possible_offset (10 ∷ 11 ∷ 12 ∷ []) fork_cfg) ≡ 16 ∷ []
unfolding resolve_possible_offset
offsets = refl

find_read_start_block-AllIn_example :
    (AllIn fork 0 ((0, 10) ∷ []) → find_read_start_block fork 9 fork_cfg ≡ ok 0)
    × (find_read_start_block fork 9 fork_cfg ≡ ok 0 → AllIn fork 0 ((0, 10) ∷ []))
find_read_start_block-AllIn_example = find_read_start_block-AllIn fork 9 fork_cfg (0, 10) [] 0 refl

-- Two frames that start in the blocks 1 and 2: no common predecessor is found.
abbrev two_starts : ReadCfg
two_starts = set_read (λ r. some []) none (some ((0, 11) ∷ (0, 12) ∷ []))

no_start_block : find_read_start_block fork 9 two_starts ≡ err not_implemented_error
unfolding find_read_start_block
no_start_block = refl
