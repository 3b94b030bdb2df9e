-- ===== src/Ssa/Unused.antt =====
-- Replacing a value in all its users.
use hwt_hls.Prelude.{
  ℕ, ◌≡◌, refl, ap, ◌∙◌, subst, true, false, ◌&&◌, Option, List, [], ◌∷◌, contains, ◌==◌,
  Bool-cases, inl, inr, arith,
}
use hwt_hls.Prelude.Result.{ok}
use hwt_hls.Graph.Distinct.{Distinct}
use hwt_hls.Hwt.{UniqListOps}
use hwt_hls.Ssa.{
  Operand, const, value, is_value, SsaUser, instr, branch, phi, Ssa, set_at, is_in_block, is_in_ssa,
  uses, replace_in_user, add_user, remove_user, replace_input_of, replace_input, replace_in_all,
  replace_by,
}
use hwt_hls.Ssa.Replace.{IsComplete, uses-replaced, contains-add_user, contains-remove_user}

is_in_ssa-block : (s t : Ssa) (o : Operand) → t.block ≡ s.block → is_in_ssa t o ≡ is_in_ssa s o
is_in_ssa-block s t (const c) h = refl
is_in_ssa-block s t (value v) h = ap (λ (b : ℕ → Option ℕ). is_in_block (b v)) h

-- `new` has taken the place of `orig` in the object `u`.
record Replaced (orig : ℕ) (new : Operand) (u : ℕ) (s t : Ssa) : Type 0 where
  others : (w : ℕ) → (u == w) ≡ false → t.user w ≡ s.user w
  gone : uses (t.user u) orig ≡ false
  marks : (w : ℕ) → (u == w) ≡ false → contains (t.users orig) w ≡ contains (s.users orig) w
  complete : IsComplete s → IsComplete t
  block : t.block ≡ s.block

module _ (l : UniqListOps) (orig : ℕ) (new : Operand) (other : is_value orig new ≡ false) where
  module _ (u : ℕ) (k : SsaUser) (s : Ssa) (is_k : s.user u ≡ k) where
    -- the state after `u` was changed and registered, where `users` has lost at most its old use
    abbrev after : (ℕ → List ℕ) → Ssa
    after users = record s {
      user = set_at s.user u (replace_in_user orig new k);
      users = add_user l u new users;
    }

    user_at-after : (users : ℕ → List ℕ) → (after users).user u ≡ replace_in_user orig new k
    user_at-after users = ground arith

    after-IsComplete :
        (users : ℕ → List ℕ)
        → ((v w : ℕ)
            → ((orig == v) && (u == w)) ≡ false
            → contains (users v) w ≡ contains (s.users v) w)
        → IsComplete s
        → IsComplete (after users)
    after-IsComplete users same c w v h = elim (Bool-cases (u == w)) [
      | inl e ↦
          let at_u : u ≡ w = ground arith in
          let used : uses (replace_in_user orig new k) v ≡ true = rw e at h in
          let before : uses k v ≡ true → contains (s.users v) u ≡ true = λ p. c u v (rw is_k p) in
          elim (Bool-cases (uses k v)) [
            | inl p ↦
                let known = before p in
                ground
                  (arith, uses-replaced orig new k v, contains-add_user l u new users v w, same v w)
            | inr p ↦
                ground (arith, uses-replaced orig new k v, contains-add_user l u new users v w)
          ]
      | inr e ↦
          let known = c w v (rw e at h) in
          ground (arith, contains-add_user l u new users v w, same v w)
    ]

    after-Replaced :
        (users : ℕ → List ℕ)
        → ((v w : ℕ)
            → ((orig == v) && (u == w)) ≡ false
            → contains (users v) w ≡ contains (s.users v) w)
        → Replaced orig new u s (after users)
    after-Replaced users same = record {
      others = λ w h. rw h refl;
      gone = rw (user_at-after users) (ground (arith, uses-replaced orig new k orig));
      marks = λ w h. ground (arith, contains-add_user l u new users orig w, same orig w);
      complete = after-IsComplete users same;
      block = refl;
    }

  replace_input_of-Replaced :
      (u : ℕ) (k : SsaUser) (s : Ssa)
      → s.user u ≡ k
      → uses k orig ≡ true
      → contains (s.users orig) u ≡ true
      → is_in_ssa s new ≡ true
      → (t : Ssa) × (replace_input_of l k u orig new s ≡ ok t) × Replaced orig new u s t
  unfolding replace_input_of
  replace_input_of-Replaced u (instr os) s e used marked placed = (
    _,
    rw (used, marked) refl,
    after-Replaced u (instr os) s e (remove_user l u orig s.users)
        (λ v w h. ground (arith, contains-remove_user l u orig s.users v w)),
  )
  replace_input_of-Replaced u (branch parent ts) s e used marked placed = (
    _,
    rw marked refl,
    after-Replaced u (branch parent ts) s e (remove_user l u orig s.users)
        (λ v w h. ground (arith, contains-remove_user l u orig s.users v w)),
  )
  replace_input_of-Replaced u (phi os) s e used marked placed =
      (_, rw (used, placed) refl, after-Replaced u (phi os) s e s.users (λ v w h. refl))

  -- These are users of the value that have it among their operands.
  abbrev AreUsers : List ℕ → Ssa → Type 0
  AreUsers us s =
      (w : ℕ)
      → contains us w ≡ true
      → (uses (s.user w) orig ≡ true) × (contains (s.users orig) w ≡ true)

  -- They no longer have it, and the other objects are as before.
  record AllReplaced (us : List ℕ) (s t : Ssa) : Type 0 where
    complete : IsComplete t
    gone : (w : ℕ) → contains us w ≡ true → uses (t.user w) orig ≡ false
    others : (w : ℕ) → contains us w ≡ false → t.user w ≡ s.user w

  AllReplaced-cons :
      (u : ℕ) (us : List ℕ) (s m t : Ssa)
      → contains us u ≡ false
      → Replaced orig new u s m
      → AllReplaced us m t
      → AllReplaced (u ∷ us) s t
  AllReplaced-cons u us s m t new_u r q = record {
    complete = q.complete;
    gone = λ w k. elim (Bool-cases (contains us w)) [
      | inl e ↦ q.gone w e
      | inr e ↦
          let same : u ≡ w = ground arith in
          rw (q.others w e) (subst (λ v. uses (m.user v) orig ≡ false) same r.gone)
    ];
    others = λ w k. q.others w (ground arith) ∙ r.others w (ground arith);
  }

  replace_in_all-AllReplaced :
      (us : List ℕ) (s : Ssa)
      → Distinct us
      → AreUsers us s
      → IsComplete s
      → is_in_ssa s new ≡ true
      → (t : Ssa) × (replace_in_all l us orig new s ≡ ok t) × AllReplaced us s t
  unfolding replace_in_all replace_input
  replace_in_all-AllReplaced [] s d h c placed =
      (s, refl, record { complete = c; gone = λ w k. cc; others = λ w k. refl })
  replace_in_all-AllReplaced (u ∷ us) s (new_u, d) h c placed =
      let (used, marked) = h u (ground arith) in
      let (m, e, r) = replace_input_of-Replaced u (s.user u) s refl used marked placed in
      let h' : AreUsers us m = λ w k.
        let apart : (u == w) ≡ false = ground arith in
        let (a, b) = h w (ground arith) in (rw (r.others w apart) a, r.marks w apart ∙ b) in
      let placed' : is_in_ssa m new ≡ true = is_in_ssa-block s m new r.block ∙ placed in
      let (t, f, q) = replace_in_all-AllReplaced us m d h' (r.complete c) placed' in
      (t, rw e f, AllReplaced-cons u us s m t new_u r q)

-- `replaceBy`, by another value of the same width that is in the SSA: if every use of a value is
-- among its users and every user of the replaced value uses it and is there once, it returns, no
-- object uses the old value afterwards, and every use is still among the users of its value.
pub replace_by-unused :
    (l : UniqListOps) (width : Operand → ℕ) (orig : ℕ) (new : Operand) (s : Ssa)
    → is_value orig new ≡ false
    → width new ≡ width (value orig)
    → is_in_ssa s new ≡ true
    → IsComplete s
    → ((w : ℕ) → contains (s.users orig) w ≡ true → uses (s.user w) orig ≡ true)
    → Distinct (s.users orig)
    → (t : Ssa) × (replace_by l width orig new s ≡ ok t)
      × IsComplete t
      × ((w : ℕ) → uses (t.user w) orig ≡ false)
unfolding replace_by
replace_by-unused l width orig new s other same placed c sound d =
    let (t, e, r) =
      replace_in_all-AllReplaced l orig new other (s.users orig) s d (λ w h. (sound w h, h)) c
        placed in
    let test : (width new == width (value orig)) ≡ true = ground arith in
    (
      t,
      rw test e,
      r.complete,
      λ w. elim (Bool-cases (contains (s.users orig) w)) [
        | inl h ↦ r.gone w h
        | inr h ↦ rw (r.others w h) (elim (Bool-cases (uses (s.user w) orig)) [
          | inl used ↦ let known = c w orig used in cc
          | inr free ↦ free
        ])
      ],
    )
