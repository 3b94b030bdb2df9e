-- ===== src/Scheduler/Alap/Rule.antt =====
-- What a schedule that the ALAP compaction writes says of itself, and the induction over the
-- recursion that shows it.
use hwt_hls.Prelude.{
  ℕ, ◌≡◌, sym, ◌∙◌, ap, inl, inr, Option, none, some, List, [], ◌∷◌, ◌==◌, get_elem?, Bool-cases,
  if◌then◌else◌, arith,
}
use hwt_hls.Prelude.Int.{ℤ}
use hwt_hls.Prelude.Result.{Result, ok}
use hwt_hls.Netlist.{HlsNetNodeIn}
use hwt_hls.Scheduler.Ensures.{Extends}
use hwt_hls.Scheduler.Alap.{
  Times, AlapSchedule, AlapContext, earlier, min_time, fill_unused, required_time, place_alap,
}

-- The input `u` takes its value at `t`.
abbrev pub Takes : AlapSchedule → HlsNetNodeIn → ℤ → Type 0
Takes s u t = (v : Times) × (s u.obj ≡ some v) × (get_elem? v.scheduled_in u.in_i ≡ some t)

-- `o` is the earliest time at which one of the inputs takes its value, if there is one.
abbrev pub Needed : AlapSchedule → Option ℤ → List HlsNetNodeIn → Option ℤ → Type 0
Needed s best [] o = best ≡ o
Needed s best (u ∷ us) o = (t : ℤ) × Takes s u t × Needed s (some (earlier best t)) us o

abbrev pub AllNeeded : AlapSchedule → List ℕ → List (List HlsNetNodeIn) → List (Option ℤ) → Type 0
AllNeeded s (_ ∷ asap) (uses ∷ rest) os =
    (o : Option ℤ) × (more : List (Option ℤ)) × (os ≡ o ∷ more)
    × Needed s none uses o
    × AllNeeded s asap rest more
AllNeeded s [] uses os = os ≡ []
AllNeeded s asap [] os = os ≡ []

pub Takes-unique :
    (s : AlapSchedule) (u : HlsNetNodeIn) (a b : ℤ) → Takes s u a → Takes s u b → a ≡ b
Takes-unique s u a b (v, sv, va) (w, sw, wb) =
    let e : v ≡ w = cc in cc (ap (λ (x : Times). get_elem? x.scheduled_in u.in_i) e)

Needed-unique :
    (s : AlapSchedule) (best : Option ℤ) (us : List HlsNetNodeIn) (a b : Option ℤ)
    → Needed s best us a
    → Needed s best us b
    → a ≡ b
Needed-unique s best [] a b p q = sym p ∙ q
Needed-unique s best (u ∷ us) a b (t, p, ps) (r, q, qs) =
    Needed-unique s (some (earlier best t)) us a b ps (rw (Takes-unique s u t r p q) qs)

AllNeeded-unique :
    (s : AlapSchedule) (asap : List ℕ) (uses : List (List HlsNetNodeIn)) (a b : List (Option ℤ))
    → AllNeeded s asap uses a
    → AllNeeded s asap uses b
    → a ≡ b
AllNeeded-unique s [] uses a b p q = p ∙ sym q
AllNeeded-unique s (_ ∷ asap) [] a b p q = p ∙ sym q
AllNeeded-unique s (_ ∷ asap) (us ∷ rest) a b (o, m, e, n, ns) (p, k, f, l, ls) =
    let first = Needed-unique s none us o p n l in
    let more = AllNeeded-unique s asap rest m k ns ls in cc

pub Needed-Extends :
    (s t : AlapSchedule) (best : Option ℤ) (us : List HlsNetNodeIn) (o : Option ℤ)
    → Extends s t
    → Needed s best us o
    → Needed t best us o
Needed-Extends s t best [] o x n = n
Needed-Extends s t best (u ∷ us) o x (a, (v, sv, va), n) =
    (a, (v, x u.obj v sv, va), Needed-Extends s t (some (earlier best a)) us o x n)

pub AllNeeded-Extends :
    (s t : AlapSchedule) (asap : List ℕ) (uses : List (List HlsNetNodeIn)) (os : List (Option ℤ))
    → Extends s t
    → AllNeeded s asap uses os
    → AllNeeded t asap uses os
AllNeeded-Extends s t [] uses os x n = n
AllNeeded-Extends s t (_ ∷ asap) [] os x n = n
AllNeeded-Extends s t (_ ∷ asap) (us ∷ rest) os x (o, m, e, n, ns) =
    (o, m, e, Needed-Extends s t none us o x n, AllNeeded-Extends s t asap rest m x ns)

module _ (ctx : AlapContext) where
  -- The time that follows from when the outputs are needed.
  abbrev pub node_time : ℕ → List (Option ℤ) → Result ℤ
  node_time n outs =
      required_time ctx n (fill_unused ctx (min_time none outs) (ctx.asap n).scheduled_out outs)

  abbrev pub PlacedLate : AlapSchedule → ℕ → Times → Type 0
  PlacedLate s n v =
      (outs : List (Option ℤ)) × (t : ℤ) × AllNeeded s (ctx.asap n).scheduled_out
        (ctx.hls.node n).used_by outs
      × (node_time n outs ≡ ok t)
      × (v ≡ place_alap ctx (ctx.hls.node n) t)

  abbrev pub AlapInv : AlapSchedule → Type 0
  AlapInv s = (n : ℕ) (v : Times) → s n ≡ some v → PlacedLate s n v

  PlacedLate-unique :
      (s : AlapSchedule) (n : ℕ) (v w : Times) → PlacedLate s n v → PlacedLate s n w → v ≡ w
  PlacedLate-unique s n v w (os, t, p, e, f) (ps, r, q, g, h) =
      let outs = AllNeeded-unique s (ctx.asap n).scheduled_out (ctx.hls.node n).used_by os ps p q in
      let moved : node_time n os ≡ node_time n ps = ap (node_time n) outs in
      let same : t ≡ r = cc in f ∙ ap (place_alap ctx (ctx.hls.node n)) same ∙ sym h

  PlacedLate-Extends :
      (s t : AlapSchedule) (n : ℕ) (v : Times) → Extends s t → PlacedLate s n v → PlacedLate t n v
  PlacedLate-Extends s t n v x (os, r, p, e, f) = (
    os,
    r,
    AllNeeded-Extends s t (ctx.asap n).scheduled_out (ctx.hls.node n).used_by os x p,
    e,
    f,
  )

  abbrev pub written : AlapSchedule → ℕ → Times → AlapSchedule
  written s n v m = if n == m then some v else s m

  pub written-Extends :
      (s : AlapSchedule) (n : ℕ) (v : Times)
      → AlapInv s
      → PlacedLate s n v
      → Extends s (written s n v)
  written-Extends s n v inv p m w sm = elim (Bool-cases (n == m)) [
    | inl e ↦
        let same : n ≡ m = ground arith in
        rw e (ap some (PlacedLate-unique s n v w p (inv n w (rw same sm))))
    | inr e ↦ rw e sm
  ]

  pub written-AlapInv :
      (s : AlapSchedule) (n : ℕ) (v : Times)
      → AlapInv s
      → PlacedLate s n v
      → AlapInv (written s n v)
  written-AlapInv s n v inv p m w h =
      let x = written-Extends s n v inv p in
      elim (Bool-cases (n == m)) [
        | inl e ↦
            let same : n ≡ m = ground arith in
            let now : v ≡ w = ground arith in
            PlacedLate-Extends s (written s n v) m w x (rw (← same, ← now) p)
        | inr e ↦ PlacedLate-Extends s (written s n v) m w x (inv m w (rw e at h))
      ]
