-- ===== src/Examples/Ssa.antt =====
-- The value 1 is an operand of the instruction 2, twice, and of the branch 3; it is replaced by the
-- value 0.
use hwt_hls.Prelude.{
  ℕ, zero, suc, ◌≡◌, refl, true, false, none, some, List, [], ◌∷◌, contains, arith,
}
use hwt_hls.Prelude.Result.{ok}
use hwt_hls.Ssa.{const, value, SsaUser, instr, branch, Ssa, uses, replace_by}
use hwt_hls.Ssa.Replace.{IsComplete}
use hwt_hls.Ssa.Unused.{replace_by-unused}
use hwt_hls.Examples.UniqLists.{uniq_lists}

abbrev code_user : ℕ → SsaUser
code_user (suc (suc zero)) = instr (value 1 ∷ const 7 ∷ value 1 ∷ [])
code_user (suc (suc (suc zero))) = branch 9 ((some (value 1), 10) ∷ (none, 11) ∷ [])
code_user _ = instr []

abbrev code_users : ℕ → List ℕ
code_users (suc zero) = 2 ∷ 3 ∷ []
code_users _ = []

abbrev code : Ssa
code = record {
  user = code_user;
  users = code_users;
  block = λ v. some 9;
  replaced_by = λ v. none;
  predecessors = λ b. [];
  phis = λ b. [];
  body = λ b. [];
}

code-IsComplete : IsComplete code
code-IsComplete zero v h = cc
code-IsComplete (suc zero) v h = cc
code-IsComplete (suc (suc zero)) zero h = cc
code-IsComplete (suc (suc zero)) (suc zero) h = refl
code-IsComplete (suc (suc zero)) (suc (suc v)) h = ground arith
code-IsComplete (suc (suc (suc zero))) zero h = cc
code-IsComplete (suc (suc (suc zero))) (suc zero) h = refl
code-IsComplete (suc (suc (suc zero))) (suc (suc v)) h = ground arith
code-IsComplete (suc (suc (suc (suc u)))) v h = cc

code_sound : (w : ℕ) → contains (code.users 1) w ≡ true → uses (code.user w) 1 ≡ true
code_sound zero h = cc
code_sound (suc zero) h = cc
code_sound (suc (suc zero)) h = refl
code_sound (suc (suc (suc zero))) h = refl
code_sound (suc (suc (suc (suc w)))) h = ground arith

replace_by-unused_example :
    (t : Ssa) × (replace_by uniq_lists (λ o. 8) 1 (value 0) code ≡ ok t)
    × IsComplete t
    × ((w : ℕ) → uses (t.user w) 1 ≡ false)
replace_by-unused_example =
    replace_by-unused uniq_lists (λ o. 8) 1 (value 0) code refl refl refl code-IsComplete code_sound
      (refl, (refl, tt))
