-- ===== src/Ssa/Blocks/Phis.antt =====
-- The operands of a phi.
use hwt_hls.Prelude.{
  ℕ, ◌≡◌, refl, ap, sym, ◌∙◌, true, ◌||◌, none, List, [], ◌∷◌, ◌++◌, contains, ◌==◌, Bool-cases,
  inl, inr, arith,
}
use hwt_hls.Prelude.Result.{ok}
use hwt_hls.Hwt.{UniqListOps}
use hwt_hls.Ssa.{
  Operand, const, value, is_value, same_operand, phi, Ssa, set_at, is_in_ssa, any_phi_operand, uses,
  add_user,
}
use hwt_hls.Ssa.Blocks.{operands_of, has_phi_operand, append_new_operand, append_operand}
use hwt_hls.Ssa.Replace.{IsComplete, contains-add_user}

any_phi_operand-snoc :
    (v b : ℕ) (o : Operand) (os : List (Operand × ℕ))
    → any_phi_operand v (os ++ (o, b) ∷ []) ≡ any_phi_operand v os || is_value v o
any_phi_operand-snoc v b o [] = ground arith
any_phi_operand-snoc v b o ((p, c) ∷ os) = ground (arith, any_phi_operand-snoc v b o os)

same_operand_refl : (o : Operand) → same_operand o o ≡ true
same_operand_refl (const c) = ground arith
same_operand_refl (value v) = ground arith

has_phi_operand-snoc :
    (o : Operand) (b : ℕ) (os : List (Operand × ℕ)) → has_phi_operand o b (os ++ (o, b) ∷ []) ≡ true
unfolding has_phi_operand
has_phi_operand-snoc o b [] = ground (arith, same_operand_refl o)
has_phi_operand-snoc o b ((p, c) ∷ os) = ground (arith, has_phi_operand-snoc o b os)

-- the state after an operand was appended
abbrev with_operand : UniqListOps → ℕ → Operand → ℕ → List (Operand × ℕ) → Ssa → Ssa
with_operand l p val predecessor os s = record s {
  user = set_at s.user p (phi (os ++ (val, predecessor) ∷ []));
  users = add_user l p val s.users;
}

with_operand-IsComplete :
    (l : UniqListOps) (p : ℕ) (val : Operand) (predecessor : ℕ) (s : Ssa) (os : List (Operand × ℕ))
    → s.user p ≡ phi os
    → IsComplete s
    → IsComplete (with_operand l p val predecessor os s)
with_operand-IsComplete l p val predecessor s os is_phi c u v h =
    contains-add_user l p val s.users v u ∙ elim (Bool-cases (p == u)) [
      | inl e ↦
          let same : p ≡ u = ground arith in
          let used : any_phi_operand v os || is_value v val ≡ true =
            sym (any_phi_operand-snoc v predecessor val os) ∙ (rw e at h) in
          elim (Bool-cases (any_phi_operand v os)) [
            | inl k ↦
                let old : contains (s.users v) u ≡ true =
                  c u v (rw (← same) (ap (λ x. uses x v) is_phi ∙ k)) in
                rw old refl
            | inr k ↦ ground arith
          ]
      | inr e ↦ let old : contains (s.users v) u ≡ true = c u v (rw e at h) in rw old refl
    ]

-- Appending an operand that is in the SSA to a phi that was not replaced returns, keeps every
-- use among the users of its value, and the phi has the operand afterwards.
pub append_operand-IsComplete :
    (l : UniqListOps) (p : ℕ) (val : Operand) (predecessor : ℕ) (s : Ssa) (os : List (Operand × ℕ))
    → s.user p ≡ phi os
    → s.replaced_by p ≡ none
    → is_in_ssa s val ≡ true
    → IsComplete s
    → (t : Ssa) × (append_operand l p val predecessor s ≡ ok t)
      × IsComplete t
      × (has_phi_operand val predecessor (operands_of (t.user p)) ≡ true)
unfolding append_operand append_new_operand
append_operand-IsComplete l p val predecessor s os is_phi kept placed c =
    elim (Bool-cases (has_phi_operand val predecessor os)) [
      | inl h ↦ (s, rw (kept, is_phi, h) refl, c, rw is_phi h)
      | inr h ↦ (
        with_operand l p val predecessor os s,
        rw (kept, is_phi, h, placed) refl,
        with_operand-IsComplete l p val predecessor s os is_phi c,
        ground (arith, has_phi_operand-snoc val predecessor os),
      )
    ]
