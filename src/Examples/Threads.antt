-- ===== src/Examples/Threads.antt =====
-- Block 0 defines the value 5 and leads to the loop of block 1, with the phi 3 of the value 4, which the
-- value 5 is an operand of; block 2 is behind it.
use hwt_hls.Prelude.{
  ℕ, zero, suc, ◌≡◌, refl, true, contains, false, Option, none, some, ◌+◌, List, [], ◌∷◌, ◌==◌,
  if◌then◌else◌, All,
}
use hwt_hls.Prelude.Result.{Result, ok, err, assertion_error}
use hwt_hls.Ssa.{const, value, SsaUser, instr, branch, phi, Ssa}
use hwt_hls.Ssa.Threads.{Threads, ThreadsPerBlock, apply_blocks, no_threads, finalize, mine_threads}
use hwt_hls.Ssa.Consystency.{Collected, visit_collect, check_ssa}
use hwt_hls.Ssa.Consystency.Passed.{Passed, check_ssa-Passed}
use hwt_hls.Ssa.Threads.Merged.{IsPartition, Together}
use hwt_hls.Ssa.Threads.Final.{Keeps}
use hwt_hls.Ssa.Threads.Mined.{apply_blocks-Together}

abbrev loop_user : ℕ → SsaUser
loop_user n =
    if n == 3
    then phi ((const 0, 0) ∷ (value 4, 1) ∷ [])
    else if n == 4
    then instr (value 5 ∷ [])
    else if n == 10
    then branch 0 ((none, 1) ∷ [])
    else if n == 11
    then branch 1 ((some (value 4), 1) ∷ (none, 2) ∷ [])
    else instr []

abbrev loop_body : ℕ → List ℕ
loop_body zero = 5 ∷ []
loop_body (suc zero) = 4 ∷ []
loop_body _ = []

abbrev loop_phis : ℕ → List ℕ
loop_phis (suc zero) = 3 ∷ []
loop_phis _ = []

abbrev loop_predecessors : ℕ → List ℕ
loop_predecessors (suc zero) = 0 ∷ 1 ∷ []
loop_predecessors (suc (suc zero)) = 1 ∷ []
loop_predecessors _ = []

abbrev pub loop_code : Ssa
loop_code = record {
  user = loop_user;
  users = λ v. [];
  block = λ v. if v == 5 then some 0 else some 1;
  replaced_by = λ v. none;
  predecessors = loop_predecessors;
  phis = loop_phis;
  body = loop_body;
}

abbrev mined : Threads
mined = apply_blocks loop_code [] (0 ∷ 1 ∷ 2 ∷ []) no_threads

apply_blocks-Together_example :
    (after : Threads) × (finalize mined ≡ ok after)
    × IsPartition after
    × Keeps mined after
    × All (λ (p : ℕ × ℕ). Together after p.0 p.1) mined.to_check_later
unfolding apply_blocks
apply_blocks-Together_example =
    apply_blocks-Together loop_code [] (0 ∷ 1 ∷ 2 ∷ []) mined
      ((refl, (refl, tt)), ((refl, tt), (tt, tt))) refl (((0, refl, refl), (1, refl, refl)), tt)

abbrev threads_of : Result (Threads × ThreadsPerBlock) → List (ℕ × ℕ)
threads_of (ok (s, blocks)) = s.per_instr
threads_of (err e) = []

abbrev blocks_of : Result (Threads × ThreadsPerBlock) → ℕ → Option (List ℕ)
blocks_of (ok (s, blocks)) b = blocks b
blocks_of (err e) b = none

loop_threads :
    threads_of (mine_threads loop_code (λ b. b + 10) [] 9 0) ≡ (5, 0) ∷ (3, 0) ∷ (4, 0) ∷ []
unfolding mine_threads
loop_threads = refl

loop_blocks : blocks_of (mine_threads loop_code (λ b. b + 10) [] 9 0) 1 ≡ some (0 ∷ [])
unfolding mine_threads
loop_blocks = refl

-- The loop passes the consistency check, and does not if an edge is missing among the predecessors, so
-- that the phi has more operands.
loop_consistent : check_ssa loop_code (λ b. b + 10) (λ v. false) 9 0 ≡ ok (2 ∷ 1 ∷ 0 ∷ [])
unfolding check_ssa
loop_consistent = refl

loop_inconsistent :
    check_ssa
      (record loop_code { predecessors = λ b. if b == 1 then 0 ∷ [] else [] })
      (λ b. b + 10)
      (λ v. false)
      9
      0
    ≡ err assertion_error
unfolding check_ssa
loop_inconsistent = refl

check_ssa-Passed_example :
    (c : Collected) × (visit_collect loop_code
        (λ b. b + 10)
        (λ v. false)
        9
        0
        (record { blocks = []; phis = []; variables = [] })
      ≡ ok c)
    × (contains (2 ∷ 1 ∷ 0 ∷ []) 0 ≡ true)
    × ((x : ℕ)
        → contains (2 ∷ 1 ∷ 0 ∷ []) x ≡ true
        → Passed loop_code (λ b. b + 10) (λ v. false) c (2 ∷ 1 ∷ 0 ∷ []) x)
check_ssa-Passed_example =
    check_ssa-Passed loop_code (λ b. b + 10) (λ v. false) 9 0 (2 ∷ 1 ∷ 0 ∷ []) loop_consistent
