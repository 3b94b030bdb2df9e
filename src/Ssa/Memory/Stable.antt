-- ===== src/Ssa/Memory/Stable.antt =====
-- Reading a variable again.
use hwt_hls.Prelude.{
  ℕ, zero, suc, ◌≡◌, refl, subst, Bool, true, Option, none, some, ◌⊎◌, inl, inr, arith,
}
use hwt_hls.Prelude.Result.{
  ok_injective, required, Result, ok, both_return, require, ◌>>=◌, ◌>>◌, assertion_error,
}
use hwt_hls.Hwt.{UniqListOps}
use hwt_hls.Ssa.{Operand, const, value, is_in_ssa}
use hwt_hls.Ssa.Memory.{Memory, write_variable}
use hwt_hls.Ssa.Memory.Read.{find_value, write_found, read_variable_recursive, read_variable}

Option-cases : {A : Type 0} (o : Option A) → (o ≡ none) ⊎ ((a : A) × (o ≡ some a))
Option-cases none = inl refl
Option-cases (some a) = inr (a, refl)

module _ (l : UniqListOps) (has_width : ℕ → Operand → Bool) (undefined : ℕ → ℕ) where
  -- A variable that is written in a block is read there.
  write_variable-current_def :
      (var block : ℕ) (v : Operand) (m after : Memory)
      → write_variable l has_width undefined var block v m ≡ ok after
      → (after.current_def var block ≡ some v)
  unfolding write_variable
  write_variable-current_def var block v m after e =
      let (there, e') = required (is_in_ssa m.ssa v) assertion_error _ e in
      let (wide, e'') = required (has_width var v) assertion_error _ e' in
      subst (λ (a : Memory). a.current_def var block ≡ some v) (ok_injective e'') (ground arith)

  abbrev Known : (var block : ℕ) → Operand × Memory → Type 0
  Known var block r = (r.1.current_def var block ≡ some r.0) × (is_in_ssa r.1.ssa r.0 ≡ true)

  Known-read_variable :
      (limit var block v : ℕ) (m : Memory)
      → Known var block (value v, m)
      → read_variable l has_width undefined (suc limit) var block m ≡ ok (value v, m)
  unfolding read_variable
  Known-read_variable limit var block v m (d, i) = rw (d, read_variable) (rw i refl)

  abbrev checked : Operand → Memory → Result (Operand × Memory)
  checked v m = require (is_in_ssa m.ssa v) assertion_error >> ok (v, m)

  write_found-Known :
      (var block v : ℕ) (r : Operand × Memory) (after : Memory)
      → (write_found l has_width undefined var block r >>= checked r.0) ≡ ok (value v, after)
      → Known var block (value v, after)
  unfolding write_found
  write_found-Known var block v (const c, m) after e =
      let (there, e') = required (is_in_ssa m.ssa (const c)) assertion_error _ e in
      absurd (ground arith)
  write_found-Known var block v (value w, m) after e =
      let (m', written, e') =
        both_return (write_variable l has_width undefined var block (value w) m) _ e in
      let (there, e'') = required (is_in_ssa m'.ssa (value w)) assertion_error _ e' in
      subst (Known var block) (ok_injective e'')
        (write_variable-current_def var block (value w) m m' written, there)

  read_variable-Known :
      (limit var block v : ℕ) (m after : Memory)
      → read_variable l has_width undefined limit var block m ≡ ok (value v, after)
      → Known var block (value v, after)
  unfolding read_variable read_variable_recursive
  read_variable-Known zero var block v m after e = absurd (ground arith)
  read_variable-Known (suc limit) var block v m after e =
      elim (Option-cases (m.current_def var block)) [
        | inl d ↦
            let (r, found, e'') =
              both_return
                (find_value l has_width undefined limit (read_variable l has_width undefined limit)
                  var block m)
                _ (rw (d, read_variable) at e) in
            write_found-Known var block v r after e''
        | inr (w, d) ↦
            let (there, e') =
              required (is_in_ssa m.ssa w) assertion_error _ (rw (d, read_variable) at e) in
            subst (Known var block) (ok_injective e') (d, there)
      ]

  -- If reading a variable in a block returns a value that is no constant, reading it there
  -- again, with any recursion limit from 1 on, returns the same value and changes nothing.
  pub read_variable-known :
      (limit var block v : ℕ) (m after : Memory) (further : ℕ)
      → read_variable l has_width undefined limit var block m ≡ ok (value v, after)
      → read_variable l has_width undefined (suc further) var block after ≡ ok (value v, after)
  read_variable-known limit var block v m after further e =
      Known-read_variable further var block v after
        (read_variable-Known limit var block v m after e)
