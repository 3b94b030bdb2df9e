-- ===== src/Examples/Memory.antt =====
-- The blocks 0 and 1 write the variable 5, with the values 10 and 11, and lead to the block 2, which
-- leads to 3.
use hwt_hls.Prelude.{ℕ, zero, suc, ◌≡◌, refl, true, Option, none, some, List, [], ◌∷◌}
use hwt_hls.Prelude.Result.{Result, ok, err, ◌>>=◌}
use hwt_hls.Ssa.{Operand, value, instr, Ssa}
use hwt_hls.Ssa.Blocks.{operands_of}
use hwt_hls.Ssa.Memory.{Memory, write_variable}
use hwt_hls.Ssa.Memory.Read.{read_variable, seal_block}
use hwt_hls.Ssa.Memory.Stable.{read_variable-known}
use hwt_hls.Examples.UniqLists.{uniq_lists}

abbrev join_predecessors : ℕ → List ℕ
join_predecessors (suc (suc zero)) = 0 ∷ 1 ∷ []
join_predecessors (suc (suc (suc zero))) = 2 ∷ []
join_predecessors _ = []

abbrev join_code : Ssa
join_code = record {
  user = λ v. instr [];
  users = λ v. [];
  block = λ v. some 0;
  replaced_by = λ v. none;
  predecessors = join_predecessors;
  phis = λ b. [];
  body = λ b. [];
}

abbrev with_sealed : List ℕ → Memory
with_sealed sealed = record {
  ssa = join_code;
  current_def = λ v b. none;
  current_def_rev = λ v. none;
  sealed_blocks = sealed;
  incomplete_phis = λ b. [];
  next_value = 20;
}

abbrev write_at : ℕ → ℕ → Memory → Result Memory
write_at block v m = write_variable uniq_lists (λ var o. true) (λ p. 0) 5 block (value v) m

abbrev read_at : ℕ → Memory → Result (Operand × Memory)
read_at block m = read_variable uniq_lists (λ var o. true) (λ p. 0) 9 5 block m

abbrev or_else : Memory → Result Memory → Memory
or_else m (ok s) = s
or_else m (err e) = m

abbrev written : Memory
written =
    or_else (with_sealed []) (write_at 0 10 (with_sealed (0 ∷ 1 ∷ 2 ∷ 3 ∷ [])) >>= write_at 1 11)

abbrev after_read : Memory
after_read = or_else (with_sealed []) (read_at 3 written >>= λ r. ok r.1)

abbrev phi_of : Result (Operand × Memory) → List (Operand × ℕ)
phi_of (ok (value v, m)) = operands_of (m.ssa.user v)
phi_of _ = []

-- A phi is made in the block 2.
join_phi : phi_of (read_at 3 written) ≡ (value 10, 0) ∷ (value 11, 1) ∷ []
unfolding write_variable read_variable
join_phi = refl

read_variable-known_example :
    read_variable uniq_lists (λ var o. true) (λ p. 0) 7 5 3 after_read ≡ ok (value 20, after_read)
unfolding write_variable read_variable
read_variable-known_example =
    read_variable-known uniq_lists (λ var o. true) (λ p. 0) 9 5 3 20 written after_read 6 refl

-- The same value from both sides: the phi is removed again, also where the block is sealed later.
abbrev value_of : Result (Operand × Memory) → Option ℕ
value_of (ok (value v, m)) = some v
value_of _ = none

abbrev read_same : Result (Operand × Memory)
read_same = do
  m ← write_at 0 10 (with_sealed (0 ∷ 1 ∷ 3 ∷ []))
  m' ← write_at 1 10 m
  r ← read_at 3 m'
  m'' ← seal_block uniq_lists (λ var o. true) (λ p. 0) 9 2 r.1
  read_at 3 m''

no_phi : value_of read_same ≡ some 10
unfolding write_variable read_variable seal_block
no_phi = refl
