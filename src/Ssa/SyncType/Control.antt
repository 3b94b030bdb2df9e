-- ===== src/Ssa/SyncType/Control.antt =====
-- How the need for control spreads over the blocks.
use hwt_hls.Prelude.{
  ℕ, zero, suc, ◌≡◌, refl, subst, Bool, true, false, Option, none, some, List, [], ◌∷◌, ◌==◌,
  if◌then◌else◌, All, Bool-cases, inl, inr, arith,
}
use hwt_hls.Prelude.Result.{ok_injective, Result, ok, both_return, or_raise, key_error}
use hwt_hls.Hwt.{UniqListOps}
use hwt_hls.Ssa.SyncType.{
  BlockMeta, Metas, meta_of, set_meta, SyncContext, successors_of, predecessors_of,
  mark_predecessors, mark_successors, on_block_needs_control,
}

abbrev pub is_marked : Metas → ℕ → Bool
is_marked metas b = elim (metas b) [ none ↦ false | some m ↦ m.needs_control ]

abbrev pub AllMarked : Metas → List ℕ → Type 0
AllMarked metas bs = All (λ (b : ℕ). is_marked metas b ≡ true) bs

abbrev pub Grows : Metas → Metas → Type 0
Grows metas after = (b : ℕ) → is_marked metas b ≡ true → is_marked after b ≡ true

AllMarked-Grows :
    (metas after : Metas) (bs : List ℕ)
    → Grows metas after
    → AllMarked metas bs
    → AllMarked after bs
AllMarked-Grows metas after [] g h = tt
AllMarked-Grows metas after (b ∷ bs) g (h, hs) = (g b h, AllMarked-Grows metas after bs g hs)

pub found : (o : Option BlockMeta) (m : BlockMeta) → or_raise key_error o ≡ ok m → o ≡ some m
found none m e = absurd (ground arith)
found (some n) m e = cc

meta_of-is_marked :
    (metas : Metas) (b : ℕ) (m : BlockMeta)
    → meta_of metas b ≡ ok m
    → m.needs_control ≡ true
    → is_marked metas b ≡ true
meta_of-is_marked metas b m e h = let there = found (metas b) m e in rw (is_marked, there) h

pub set_meta-is_marked :
    (b : ℕ) (m : BlockMeta) (metas : Metas)
    → m.needs_control ≡ true
    → is_marked (set_meta b m metas) b ≡ true
set_meta-is_marked b m metas h = ground arith

module _ (l : UniqListOps) (ctx : SyncContext) where
  -- All blocks around a block need control.
  abbrev pub Closed : Metas → ℕ → Type 0
  Closed metas b =
      AllMarked metas (predecessors_of l ctx b) × AllMarked metas (successors_of l ctx b)

  -- No block loses its mark, and around every block with a new one all are marked.
  pub record Spreads (metas after : Metas) : Type 0 where
    pub grows : Grows metas after
    pub closed : (b : ℕ) → is_marked metas b ≡ false → is_marked after b ≡ true → Closed after b

  Closed-Grows : (metas after : Metas) (b : ℕ) → Grows metas after → Closed metas b → Closed after b
  Closed-Grows metas after b g (p, s) =
      (AllMarked-Grows metas after _ g p, AllMarked-Grows metas after _ g s)

  Spreads-refl : (metas : Metas) → Spreads metas metas
  Spreads-refl metas = record { grows = λ b h. h; closed = λ b h k. absurd (ground arith) }

  Spreads-trans :
      (metas middle after : Metas)
      → Spreads metas middle
      → Spreads middle after
      → Spreads metas after
  Spreads-trans metas middle after s t = record {
    grows = λ b h. t.grows b (s.grows b h);
    closed = λ b h k. elim (Bool-cases (is_marked middle b)) [
      | inl m ↦ Closed-Grows middle after b t.grows (s.closed b h m)
      | inr m ↦ t.closed b m k
    ];
  }

  -- A block is marked and then visited.
  Spreads-mark :
      (metas after : Metas) (b : ℕ) (m : BlockMeta)
      → m.needs_control ≡ true
      → Spreads (set_meta b m metas) after
      → Closed after b
      → Spreads metas after
  Spreads-mark metas after b m h s c = record {
    grows = λ x k. s.grows x (elim (Bool-cases (b == x)) [
      | inl e ↦ rw (is_marked, set_meta, e) h
      | inr e ↦ rw (is_marked, set_meta, e) k
    ]);
    closed = λ x h k. elim (Bool-cases (b == x)) [
      | inl e ↦ let same : b ≡ x = ground arith in subst (Closed after) same c
      | inr e ↦ s.closed x (rw (is_marked, set_meta, e) h) k
    ];
  }

  abbrev pub VisitSpreads : (ℕ → Metas → Result Metas) → Type 0
  VisitSpreads visit =
      (b : ℕ) (metas after : Metas)
      → visit b metas ≡ ok after
      → Spreads metas after × Closed after b

  -- The step of both loops: a block that needs control already, or is marked and visited.
  abbrev pub marked_or_visited :
      (ℕ → Metas → Result Metas) → ℕ → (m marked : BlockMeta) → Metas → Result Metas
  marked_or_visited visit b m marked metas =
      if m.needs_control then ok metas else visit b (set_meta b marked metas)

  pub step-Spreads :
      (visit : ℕ → Metas → Result Metas) (b : ℕ) (m marked : BlockMeta) (metas after : Metas)
      → VisitSpreads visit
      → meta_of metas b ≡ ok m
      → marked.needs_control ≡ true
      → marked_or_visited visit b m marked metas ≡ ok after
      → Spreads metas after × (is_marked after b ≡ true)
  step-Spreads visit b m marked metas after v here h e = elim (Bool-cases m.needs_control) [
    | inl k ↦
        let same : metas ≡ after = ok_injective (rw k at e) in
        subst (λ (a : Metas). Spreads metas a × (is_marked a b ≡ true)) same
          (Spreads-refl metas, meta_of-is_marked metas b m here k)
    | inr k ↦
        let (s, c) = v b (set_meta b marked metas) after (rw k at e) in
        (Spreads-mark metas after b marked h s c, s.grows b (set_meta-is_marked b marked metas h))
  ]

  pub mark_predecessors-Spreads :
      (visit : ℕ → Metas → Result Metas)
      → VisitSpreads visit
      → (bs : List ℕ) (metas after : Metas) → mark_predecessors l ctx visit bs metas ≡ ok after
      → Spreads metas after × AllMarked after bs
  unfolding mark_predecessors
  mark_predecessors-Spreads visit v [] metas after e =
      (subst (Spreads metas) (ok_injective e) (Spreads-refl metas), tt)
  mark_predecessors-Spreads visit v (b ∷ bs) metas after e =
      let (m, here, e') = both_return (meta_of metas b) _ e in
      let (middle, step, rest) = both_return (marked_or_visited visit b m _ metas) _ e' in
      let (s, k) = step-Spreads visit b m _ metas middle v here refl step in
      let (t, ks) = mark_predecessors-Spreads visit v bs middle after rest in
      (Spreads-trans metas middle after s t, (t.grows b k, ks))

  mark_successors-Spreads :
      (visit : ℕ → Metas → Result Metas)
      → VisitSpreads visit
      → (bs : List ℕ) (metas after : Metas) → mark_successors l ctx visit bs metas ≡ ok after
      → Spreads metas after × AllMarked after bs
  unfolding mark_successors
  mark_successors-Spreads visit v [] metas after e =
      (subst (Spreads metas) (ok_injective e) (Spreads-refl metas), tt)
  mark_successors-Spreads visit v (b ∷ bs) metas after e =
      let (m, here, e') = both_return (meta_of metas b) _ e in
      let (middle, step, rest) = both_return (marked_or_visited visit b m _ metas) _ e' in
      let (s, k) = step-Spreads visit b m _ metas middle v here refl step in
      let (t, ks) = mark_successors-Spreads visit v bs middle after rest in
      (Spreads-trans metas middle after s t, (t.grows b k, ks))

  pub on_block_needs_control-Closed :
      (limit b : ℕ) (metas after : Metas)
      → on_block_needs_control l ctx limit b metas ≡ ok after
      → Spreads metas after × Closed after b
  unfolding on_block_needs_control
  on_block_needs_control-Closed zero b metas after e = absurd (ground arith)
  on_block_needs_control-Closed (suc limit) b metas after e =
      let visit = on_block_needs_control l ctx limit in
      let v : VisitSpreads visit = on_block_needs_control-Closed limit in
      let (middle, first, second) =
        both_return (mark_predecessors l ctx visit (predecessors_of l ctx b) metas) _ e in
      let (s, p) = mark_predecessors-Spreads visit v _ metas middle first in
      let (t, q) = mark_successors-Spreads visit v _ middle after second in
      (Spreads-trans metas middle after s t, (AllMarked-Grows middle after _ t.grows p, q))
