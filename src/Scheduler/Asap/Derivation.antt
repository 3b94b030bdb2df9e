-- ===== src/Scheduler/Asap/Derivation.antt =====
-- What a schedule that ASAP scheduling writes says of itself: each time in it is derived from the
-- times of the drivers. A derivation determines the times, and more scheduled nodes keep it.
use hwt_hls.Prelude.{
  ℕ, ◌<◌, ◌≡◌, sym, ◌∙◌, ap, ◌⊎◌, inl, inr, some, List, [], ◌∷◌, ◌==◌, get_elem?, Bool-cases, arith,
}
use hwt_hls.Netlist.{HlsNetNodeOut, HlsPipeline}
use hwt_hls.Scheduler.State.{Scheduled, Schedule, assign}
use hwt_hls.Scheduler.Ensures.{Extends}
use hwt_hls.Scheduler.Asap.{InputTiming, latest, place, place_source, inputs_of}

-- The output `d` is ready at `a`.
abbrev pub Available : Schedule → HlsNetNodeOut → ℕ → Type 0
Available s d a =
    (v : Scheduled) × (s d.obj ≡ some v) × (get_elem? v.scheduled_out d.out_i ≡ some a)

pub Available-unique :
    (s : Schedule) (d : HlsNetNodeOut) (a b : ℕ) → Available s d a → Available s d b → a ≡ b
Available-unique s d a b (v, sv, va) (w, sw, wb) =
    let e : v ≡ w = cc in cc (ap (λ (x : Scheduled). get_elem? x.scheduled_out d.out_i) e)

module _ (hls : HlsPipeline) where
  -- `time` is the largest of `best` and the normalized times of the inputs, all of them available.
  abbrev pub Collected : Schedule → ℕ → List InputTiming → ℕ → Type 0
  Collected s best [] time = best ≡ time
  Collected s best (i ∷ is) time =
      (a : ℕ) × Available s i.dep a
      × (i.in_delay < hls.normalized_clk_period)
      × Collected s (latest hls best a i) is time

  abbrev pub Placed : Schedule → ℕ → Scheduled → Type 0
  Placed s n v =
      (((hls.node n).depends_on ≡ []) × (v ≡ place_source (hls.node n)))
      ⊎ ((time : ℕ) × ((hls.node n).depends_on ≡ [] → ⊥)
          × Collected s 0 (inputs_of hls n) time
          × (v ≡ place hls.normalized_clk_period (hls.node n) time))

  abbrev pub Inv : Schedule → Type 0
  Inv s = (n : ℕ) (v : Scheduled) → s n ≡ some v → Placed s n v

  pub Collected-Extends :
      (s t : Schedule) (best : ℕ) (is : List InputTiming) (time : ℕ)
      → Extends s t
      → Collected s best is time
      → Collected t best is time
  Collected-Extends s t best [] time x c = c
  Collected-Extends s t best (i ∷ is) time x (a, (v, sv, va), small, c) =
      (a, (v, x i.dep.obj v sv, va), small, Collected-Extends s t (latest hls best a i) is time x c)

  pub Collected-unique :
      (s : Schedule) (best : ℕ) (is : List InputTiming) (x y : ℕ)
      → Collected s best is x
      → Collected s best is y
      → x ≡ y
  Collected-unique s best [] x y p q = sym p ∙ q
  Collected-unique s best (i ∷ is) x y (a, p, _, ps) (b, q, _, qs) =
      Collected-unique s (latest hls best a i) is x y ps (rw (Available-unique s i.dep a b p q) qs)

  pub Placed-Extends :
      (s t : Schedule) (n : ℕ) (v : Scheduled) → Extends s t → Placed s n v → Placed t n v
  Placed-Extends s t n v x (inl h) = inl h
  Placed-Extends s t n v x (inr (time, ne, c, e)) =
      inr (time, ne, Collected-Extends s t 0 (inputs_of hls n) time x c, e)

  pub Placed-unique : (s : Schedule) (n : ℕ) (v w : Scheduled) → Placed s n v → Placed s n w → v ≡ w
  Placed-unique s n v w (inl p) (inl q) = p.1 ∙ sym q.1
  Placed-unique s n v w (inl p) (inr q) = absurd (q.1 p.0)
  Placed-unique s n v w (inr p) (inl q) = absurd (p.1 q.0)
  Placed-unique s n v w (inr (x, _, p, e)) (inr (y, _, q, f)) =
      e
      ∙ ap (place hls.normalized_clk_period (hls.node n))
          (Collected-unique s 0 (inputs_of hls n) x y p q)
      ∙ sym f

  -- Writing what is derived keeps what is there, also where the node was scheduled meanwhile.
  pub assign-Extends :
      (s : Schedule) (n : ℕ) (v : Scheduled) → Inv s → Placed s n v → Extends s (assign s n v)
  assign-Extends s n v inv p m w sm = elim (Bool-cases (n == m)) [
    | inl e ↦
        let same : n ≡ m = ground arith in
        rw e (ap some (Placed-unique s n v w p (inv n w (rw same sm))))
    | inr e ↦ rw e sm
  ]

  pub assign-Inv :
      (s : Schedule) (n : ℕ) (v : Scheduled) → Inv s → Placed s n v → Inv (assign s n v)
  assign-Inv s n v inv p m w h = elim (Bool-cases (n == m)) [
    | inl e ↦
        let same : n ≡ m = ground arith in
        let now : v ≡ w = ground arith in
        Placed-Extends s (assign s n v) m w (assign-Extends s n v inv p) (rw (← same, ← now) p)
    | inr e ↦ Placed-Extends s (assign s n v) m w (assign-Extends s n v inv p) (inv m w (rw e at h))
  ]
