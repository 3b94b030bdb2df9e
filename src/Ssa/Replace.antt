-- ===== src/Ssa/Replace.antt =====
-- One step of a replacement: what an object uses afterwards, and which values know it as a user.
use hwt_hls.Prelude.{
  ℕ, ◌≡◌, refl, Bool, true, not, ◌&&◌, ◌||◌, Option, none, some, List, [], ◌∷◌, map, contains, ◌==◌,
  arith,
}
use hwt_hls.Hwt.{UniqListOps}
use hwt_hls.Ssa.{
  Operand, const, value, is_value, SsaUser, instr, branch, phi, Ssa, any_operand, any_target,
  any_phi_operand, uses, replaced, replaced_cond, replace_in_user, add_user, remove_user,
}

-- Every use of a value is among its users.
abbrev pub IsComplete : Ssa → Type 0
IsComplete s = (u v : ℕ) → uses (s.user u) v ≡ true → contains (s.users v) u ≡ true

-- What a use of `v` becomes when `new` takes the place of `orig`.
abbrev pub use_after : (orig : ℕ) (new : Operand) (was_used : ℕ → Bool) → ℕ → Bool
use_after orig new was_used v = (was_used v && not (orig == v)) || (was_used orig && is_value v new)

is_value-replaced :
    (orig : ℕ) (new o : Operand) (v : ℕ)
    → is_value v (replaced orig new o) ≡ use_after orig new (λ w. is_value w o) v
is_value-replaced orig new (const c) v = refl
is_value-replaced orig (const c) (value w) v = ground arith
is_value-replaced orig (value n) (value w) v = ground arith

-- Two uses after another.
use_after_or :
    (orig : ℕ) (new : Operand) (f g : ℕ → Bool) (v : ℕ)
    → (use_after orig new f v || use_after orig new g v) ≡ use_after orig new (λ w. f w || g w) v
use_after_or orig new f g v = ground arith

any_operand-replaced :
    (orig : ℕ) (new : Operand) (os : List Operand) (v : ℕ)
    → any_operand v (map (replaced orig new) os) ≡ use_after orig new (λ w. any_operand w os) v
any_operand-replaced orig new [] v = refl
any_operand-replaced orig new (o ∷ os) v =
    ground (arith, is_value-replaced orig new o v, any_operand-replaced orig new os v)

any_target-replaced :
    (orig : ℕ) (new : Operand) (ts : List (Option Operand × ℕ)) (v : ℕ)
    → any_target v (map (λ t. (replaced_cond orig new t.0, t.1)) ts)
      ≡ use_after orig new (λ w. any_target w ts) v
any_target-replaced orig new [] v = refl
any_target-replaced orig new ((none, t) ∷ ts) v = any_target-replaced orig new ts v
any_target-replaced orig new ((some o, t) ∷ ts) v =
    ground (arith, is_value-replaced orig new o v, any_target-replaced orig new ts v)

any_phi_operand-replaced :
    (orig : ℕ) (new : Operand) (os : List (Operand × ℕ)) (v : ℕ)
    → any_phi_operand v (map (λ t. (replaced orig new t.0, t.1)) os)
      ≡ use_after orig new (λ w. any_phi_operand w os) v
any_phi_operand-replaced orig new [] v = refl
any_phi_operand-replaced orig new ((o, b) ∷ os) v =
    ground (arith, is_value-replaced orig new o v, any_phi_operand-replaced orig new os v)

pub uses-replaced :
    (orig : ℕ) (new : Operand) (k : SsaUser) (v : ℕ)
    → uses (replace_in_user orig new k) v ≡ use_after orig new (uses k) v
unfolding replace_in_user
uses-replaced orig new (instr os) v = any_operand-replaced orig new os v
uses-replaced orig new (branch parent ts) v = any_target-replaced orig new ts v
uses-replaced orig new (phi os) v = any_phi_operand-replaced orig new os v

module _ (l : UniqListOps) where
  pub contains-add_user :
      (u : ℕ) (new : Operand) (users : ℕ → List ℕ) (v w : ℕ)
      → contains (add_user l u new users v) w ≡ contains (users v) w || (is_value v new && (u == w))
  contains-add_user u (const c) users v w = ground arith
  contains-add_user u (value n) users v w = ground (arith, l.append_mem (users n) u w)

  pub contains-remove_user :
      (u orig : ℕ) (users : ℕ → List ℕ) (v w : ℕ)
      → contains (remove_user l u orig users v) w
        ≡ contains (users v) w && not ((orig == v) && (u == w))
  contains-remove_user u orig users v w = ground (arith, l.remove_mem (users orig) u w)
