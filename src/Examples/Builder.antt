-- ===== src/Examples/Builder.antt =====
-- The block 0 has the instructions 1 and 2 and leads to the block 1; branches are inserted after the
-- instruction 1.
use hwt_hls.Prelude.{ℕ, ◌+◌, ◌≡◌, refl, Option, none, some, List, [], ◌∷◌, ◌==◌, if◌then◌else◌}
use hwt_hls.Prelude.Result.{Result, ok, err}
use hwt_hls.Ssa.{Operand, const, value, SsaUser, instr, branch, phi}
use hwt_hls.Ssa.Blocks.{iter_blocks, operands_of}
use hwt_hls.Ssa.Builder.{Builder, concat, build_phi, insert_blocks}
use hwt_hls.Examples.UniqLists.{uniq_lists}

abbrev line_user : ℕ → SsaUser
line_user n =
    if n == 10
    then branch 0 ((none, 1) ∷ [])
    else if n == 3
    then phi ((value 2, 0) ∷ [])
    else instr []

abbrev line_builder : Builder
line_builder = record {
  ssa = record {
    user = line_user;
    users = λ v. [];
    block = λ v. some 0;
    replaced_by = λ v. none;
    predecessors = λ b. if b == 1 then 0 ∷ [] else [];
    phis = λ b. if b == 1 then 3 ∷ [] else [];
    body = λ b. if b == 0 then 1 ∷ 2 ∷ [] else [];
  };
  branch_of = λ b. b + 10;
  block = 0;
  position = some 0;
  next_value = 20;
  next_block = 2;
}

abbrev inserted : Result (List ℕ × ℕ × Builder)
inserted = insert_blocks uniq_lists (some (value 1) ∷ none ∷ []) line_builder

abbrev targets_at : ℕ → Result (List ℕ × ℕ × Builder) → List ℕ
targets_at b (ok (blocks, sequel, c)) = iter_blocks (c.ssa.user (c.branch_of b))
targets_at b (err e) = []

abbrev body_at : ℕ → Result (List ℕ × ℕ × Builder) → List ℕ
body_at b (ok (blocks, sequel, c)) = c.ssa.body b
body_at b (err e) = []

abbrev predecessors_at : ℕ → Result (List ℕ × ℕ × Builder) → List ℕ
predecessors_at b (ok (blocks, sequel, c)) = c.ssa.predecessors b
predecessors_at b (err e) = []

-- The blocks 2 and 3 are inserted before the sequel 4.
targets_inserted : targets_at 0 inserted ≡ 2 ∷ 3 ∷ []
unfolding insert_blocks iter_blocks
targets_inserted = refl

targets_of_sequel : targets_at 4 inserted ≡ 1 ∷ []
unfolding insert_blocks iter_blocks
targets_of_sequel = refl

body_of_sequel : body_at 4 inserted ≡ 2 ∷ []
unfolding insert_blocks
body_of_sequel = refl

predecessors_of_target : predecessors_at 1 inserted ≡ 4 ∷ []
unfolding insert_blocks
predecessors_of_target = refl

-- The phi in the block 1 still has the value from the block 0, which is no predecessor any more.
abbrev phi_at : ℕ → Result (List ℕ × ℕ × Builder) → List (Operand × ℕ)
phi_at p (ok (blocks, sequel, c)) = operands_of (c.ssa.user p)
phi_at p (err e) = []

phi_of_target : phi_at 3 inserted ≡ (value 2, 0) ∷ []
unfolding insert_blocks
phi_of_target = refl

-- Three parts are joined by two instructions, at the position.
abbrev body_after : Result (Operand × Builder) → List ℕ
body_after (ok (o, c)) = c.ssa.body 0
body_after (err e) = []

concat_inserted :
    body_after (concat uniq_lists 4 (λ a b. none) (value 1 ∷ const 0 ∷ value 2 ∷ []) line_builder)
    ≡ 20 ∷ 21 ∷ 1 ∷ 2 ∷ []
unfolding concat
concat_inserted = refl

-- A phi takes a place among the phis from the position among the instructions, which moves on.
abbrev position_after : Result (ℕ × Builder) → Option ℕ
position_after (ok (p, c)) = c.position
position_after (err e) = none

position_moved : position_after (build_phi uniq_lists ((value 1, 1) ∷ []) line_builder) ≡ some 1
unfolding build_phi
position_moved = refl
