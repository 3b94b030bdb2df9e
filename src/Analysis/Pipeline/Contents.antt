-- ===== src/Analysis/Pipeline/Contents.antt =====
-- What stands in which stage of a pipeline.
use hwt_hls.Prelude.{
  ℕ, zero, suc, ◌+◌, ◌-◌, ◌<◌, ◌≡◌, refl, ap, some, List, [], ◌∷◌, ◌++◌, length, length-append, leb,
  ◌==◌, if◌then◌else◌, Bool-cases, inl, inr, append_assoc, append-nil, arith,
}
use hwt_hls.Prelude.Result.{ok}
use hwt_hls.Clock.{start_clk}
use hwt_hls.Scheduler.State.{Scheduled}
use hwt_hls.Scheduler.Clocks.{iter_scheduled_clocks}
use hwt_hls.Analysis.Pipeline.{
  Stages, empty_stages, extend_if_required, append_at, first_time, add_for_clks,
  add_node_to_pipeline,
}

-- The nodes of a stage; one that is not there has none.
abbrev pub stage_at : ℕ → Stages → List ℕ
stage_at i [] = []
stage_at zero (stage ∷ stages) = stage
stage_at (suc i) (stage ∷ stages) = stage_at i stages

abbrev pub replicate : ℕ → ℕ → List ℕ
replicate zero a = []
replicate (suc n) a = a ∷ replicate n a

stage_at-empty_stages : (i n : ℕ) → stage_at i (empty_stages n) ≡ []
stage_at-empty_stages i zero = refl
stage_at-empty_stages zero (suc n) = refl
stage_at-empty_stages (suc i) (suc n) = stage_at-empty_stages i n

stage_at-append_empty : (i n : ℕ) (p : Stages) → stage_at i (p ++ empty_stages n) ≡ stage_at i p
stage_at-append_empty i n [] = stage_at-empty_stages i n
stage_at-append_empty zero n (s ∷ p) = refl
stage_at-append_empty (suc i) n (s ∷ p) = stage_at-append_empty i n p

length-empty_stages : (n : ℕ) → length (empty_stages n) ≡ n
length-empty_stages zero = refl
length-empty_stages (suc n) = ap suc (length-empty_stages n)

stage_at-extend : (i k : ℕ) (p : Stages) → stage_at i (extend_if_required p k) ≡ stage_at i p
unfolding extend_if_required
stage_at-extend i k p = elim (Bool-cases (leb (length p) k)) [
  | inl e ↦ rw e (stage_at-append_empty i (k - length p + 1) p)
  | inr e ↦ rw e refl
]

lt-length-extend : (k : ℕ) (p : Stages) → k < length (extend_if_required p k)
unfolding extend_if_required
lt-length-extend k p = elim (Bool-cases (leb (length p) k)) [
  | inl e ↦ rw e (
      ground (
        arith,
        length-append p (empty_stages (k - length p + 1)),
        length-empty_stages (k - length p + 1),
      ))
  | inr e ↦ rw e (ground arith)
]

abbrev IsPut : (k node : ℕ) → Stages → Stages → Type 0
IsPut k node p q =
    (i : ℕ) → stage_at i q ≡ (if i == k then stage_at i p ++ node ∷ [] else stage_at i p)

IsPut-first : (node : ℕ) (s : List ℕ) (p : Stages) → IsPut 0 node (s ∷ p) ((s ++ node ∷ []) ∷ p)
IsPut-first node s p zero = ground arith
IsPut-first node s p (suc i) = ground arith

IsPut-later :
    (k node : ℕ) (s : List ℕ) (p q : Stages) → IsPut k node p q → IsPut (suc k) node (s ∷ p) (s ∷ q)
IsPut-later k node s p q h zero = ground arith
IsPut-later k node s p q h (suc i) = ground (arith, h i)

append_at-IsPut :
    (k node : ℕ) (p : Stages)
    → k < length p
    → (q : Stages) × (append_at k node p ≡ some q) × IsPut k node p q
unfolding append_at
append_at-IsPut k node [] h = absurd (omega arith)
append_at-IsPut zero node (s ∷ p) h = ((s ++ node ∷ []) ∷ p, refl, IsPut-first node s p)
append_at-IsPut (suc k) node (s ∷ p) h =
    let (q, e, f) = append_at-IsPut k node p (omega arith) in
    (s ∷ q, rw e refl, IsPut-later k node s p q f)

-- The stages after a node, with the first time `t`, was added for `n` clock periods.
abbrev pub IsAdded : (clk_period node t n : ℕ) → Stages → Stages → Type 0
IsAdded clk_period node t n p q =
    (i : ℕ)
    → stage_at i q
      ≡ (if i == start_clk t clk_period then stage_at i p ++ replicate n node else stage_at i p)

add_for_clks-IsAdded :
    (clk_period node t : ℕ) (v : Scheduled) (clks : List ℕ) (p : Stages)
    → first_time v ≡ ok t
    → (q : Stages) × (add_for_clks clk_period node v clks p ≡ ok q)
      × IsAdded clk_period node t (length clks) p q
unfolding add_for_clks
add_for_clks-IsAdded clk_period node t v [] p h =
    (p, refl, λ i. ground (arith, append-nil (stage_at i p)))
add_for_clks-IsAdded clk_period node t v (c ∷ clks) p h =
    let k = start_clk t clk_period in
    let (q, e, f) = append_at-IsPut k node (extend_if_required p k) (lt-length-extend k p) in
    let (r, g, rest) = add_for_clks-IsAdded clk_period node t v clks q h in
    (
      r,
      rw (h, e) g,
      λ i. ground (
        arith,
        rest i,
        f i,
        stage_at-extend i k p,
        append_assoc (stage_at i p) (node ∷ []) (replicate (length clks) node),
      ),
    )

-- Adding a node with a first port returns: the node is appended to the stage of its first port,
-- once for each clock period that it takes up, and every other stage is as it was.
pub add_node_to_pipeline-IsAdded :
    (clk_period node t : ℕ) (v : Scheduled) (p : Stages)
    → first_time v ≡ ok t
    → (q : Stages) × (add_node_to_pipeline clk_period node v p ≡ ok q)
      × IsAdded clk_period node t (length (iter_scheduled_clocks clk_period v)) p q
unfolding add_node_to_pipeline
add_node_to_pipeline-IsAdded clk_period node t v p h =
    add_for_clks-IsAdded clk_period node t v (iter_scheduled_clocks clk_period v) p h
