-- ===== src/Ssa/Liveness/Spread.antt =====
-- What the walk from a use of a value makes live.
use hwt_hls.Prelude.{
  ℕ, zero, suc, ◌≡◌, refl, true, false, ◌⊎◌, none, some, List, [], ◌∷◌, contains, ◌==◌, Bool-cases,
  inl, inr, All, All-map, Memᴰ, arith,
}
use hwt_hls.Prelude.Result.{Result, ok, err, ◌>>=◌, recursion_error}
use hwt_hls.Ssa.Liveness.{
  EdgeLiveness, is_live, FlowGraph, has_edge, add_from_predecessors,
  recursively_add_edge_requirement_var,
}

abbrev pub Live : EdgeLiveness → ℕ → ℕ → ℕ → Type 0
Live live src dst v = is_live live src dst v ≡ true

-- It returns what satisfies P, or exceeds the recursion limit.
abbrev pub Good : (EdgeLiveness → Type 0) → Result EdgeLiveness → Type 0
Good P (ok live) = P live
Good P (err e) = e ≡ recursion_error

pub Good-bind :
    (P Q : EdgeLiveness → Type 0) (r : Result EdgeLiveness) (f : EdgeLiveness → Result EdgeLiveness)
    → Good P r
    → ((live : EdgeLiveness) → P live → Good Q (f live))
    → Good Q (r >>= f)
Good-bind P Q (ok live) f h k = k live h
Good-bind P Q (err e) f h k = h

pub Good-map :
    (P Q : EdgeLiveness → Type 0) (r : Result EdgeLiveness)
    → Good P r
    → ((live : EdgeLiveness) → P live → Q live)
    → Good Q r
Good-map P Q (ok live) h k = k live h
Good-map P Q (err e) h k = h

Live-cons :
    (a b w s d v : ℕ) (live : EdgeLiveness)
    → Live ((a, b, w) ∷ live) s d v
    → ((a ≡ s) × (b ≡ d) × (w ≡ v)) ⊎ Live live s d v
Live-cons a b w s d v live h = elim (Bool-cases (a == s)) [
  | inl p ↦ elim (Bool-cases (b == d)) [
    | inl q ↦ elim (Bool-cases (w == v)) [
      | inl r ↦ inl (ground arith, ground arith, ground arith)
      | inr r ↦ inr (ground arith)
    ]
    | inr q ↦ inr (ground arith)
  ]
  | inr p ↦ inr (ground arith)
]

module _ (g : FlowGraph) where
  -- A block that is collected requires the value from a predecessor, for itself or for a successor.
  pub data Needed (v : ℕ) : ℕ → ℕ → Type 0 where
    from_all :
        {src dst : ℕ}
        → contains g.blocks dst ≡ true
        → Memᴰ (v, none) (g.requires dst)
        → Memᴰ src (g.predecessors dst)
        → Needed v src dst
    from_one :
        {src dst : ℕ}
        → contains g.blocks dst ≡ true
        → Memᴰ (v, some src) (g.requires dst)
        → Needed v src dst
    through :
        {src dst next : ℕ}
        → Needed v dst next
        → contains (g.provides dst) v ≡ false
        → Memᴰ src (g.predecessors dst)
        → Needed v src dst

  abbrev pub IsSound : EdgeLiveness → Type 0
  IsSound live = (s d w : ℕ) → Live live s d w → Needed w s d

  -- What is live on an edge and not provided by its source is live on all edges into the source.
  abbrev pub IsClosed : EdgeLiveness → ℕ → ℕ → Type 0
  IsClosed live s w =
      contains (g.provides s) w ≡ false → All (λ p. Live live p s w) (g.predecessors s)

  pub record Spread (before after : EdgeLiveness) : Type 0 where
    pub kept : (s d w : ℕ) → Live before s d w → Live after s d w
    pub sound : IsSound after
    pub closed : (s d w : ℕ) → Live after s d w → Live before s d w ⊎ IsClosed after s w

  pub Spread-refl : (live : EdgeLiveness) → IsSound live → Spread live live
  Spread-refl live v = record { kept = λ s d w h. h; sound = v; closed = λ s d w h. inl h }

  pub Spread-trans : (a b c : EdgeLiveness) → Spread a b → Spread b c → Spread a c
  Spread-trans a b c p q = record {
    kept = λ s d w h. q.kept s d w (p.kept s d w h);
    sound = q.sound;
    closed = λ s d w h. elim (q.closed s d w h) [
      | inl k ↦ elim (p.closed s d w k) [
        | inl m ↦ inl m
        | inr m ↦ inr λ o.
            All-map (λ x. Live b x s w) (λ x. Live c x s w) (g.predecessors s)
              (λ x y. q.kept x s w y) (m o)
      ]
      | inr k ↦ inr k
    ];
  }

  -- The edges that the graph needs are there.
  abbrev pub HasEdges : Type 0
  HasEdges =
      ((d p : ℕ) → contains g.blocks d ≡ true → Memᴰ p (g.predecessors d) → has_edge g p d ≡ true)
      × ((d p v : ℕ)
          → contains g.blocks d ≡ true
          → Memᴰ (v, some p) (g.requires d)
          → has_edge g p d ≡ true)

  module _ (edges : HasEdges) (v : ℕ) where
    Needed-has_edge : (src dst : ℕ) → Needed v src dst → has_edge g src dst ≡ true
    Needed-has_edge src dst (from_all b r p) = edges.0 dst src b p
    Needed-has_edge src dst (from_one b r) = edges.1 dst src v b r
    Needed-has_edge src dst (through {next = next} n o p) =
        let before = Needed-has_edge dst next n in edges.0 dst src (ground arith) p

    abbrev pub Entered : ℕ → ℕ → EdgeLiveness → EdgeLiveness → Type 0
    Entered src dst before after = Spread before after × Live after src dst v

    abbrev pub EnteredAll : ℕ → List ℕ → EdgeLiveness → EdgeLiveness → Type 0
    EnteredAll block preds before after =
        Spread before after × All (λ p. Live after p block v) preds

    abbrev Visits : (ℕ → ℕ → EdgeLiveness → Result EdgeLiveness) → Type 0
    Visits visit =
        (src dst : ℕ) (live : EdgeLiveness)
        → IsSound live
        → Needed v src dst
        → Good (Entered src dst live) (visit src dst live)

    pub add_from_predecessors-Good :
        (visit : ℕ → ℕ → EdgeLiveness → Result EdgeLiveness) (visits : Visits visit) (block : ℕ)
        (preds : List ℕ) (live : EdgeLiveness)
        → IsSound live
        → All (λ p. Needed v p block) preds
        → Good (EnteredAll block preds live) (add_from_predecessors g visit block preds live)
    unfolding add_from_predecessors
    add_from_predecessors-Good visit visits block [] live s ns = (Spread-refl live s, tt)
    add_from_predecessors-Good visit visits block (p ∷ ps) live s (n, ns) =
        Good-bind (Entered p block live) (EnteredAll block (p ∷ ps) live) (visit p block live) _
          (visits p block live s n)
          λ mid (m, h).
            Good-map (EnteredAll block ps mid) (EnteredAll block (p ∷ ps) live) _
              (add_from_predecessors-Good visit visits block ps mid m.sound ns)
              λ after (q, hs). (Spread-trans live mid after m q, (q.kept p block v h, hs))

    All-Needed :
        (src dst : ℕ)
        → Needed v src dst
        → contains (g.provides src) v ≡ false
        → (ps : List ℕ) → ((p : ℕ) → Memᴰ p ps → Memᴰ p (g.predecessors src))
        → All (λ p. Needed v p src) ps
    All-Needed src dst n o [] sub = tt
    All-Needed src dst n o (p ∷ ps) sub = (
      through n o (sub p (Memᴰ.head refl)),
      All-Needed src dst n o ps (λ x m. sub x (Memᴰ.tail m)),
    )

    -- An edge that was not marked, and the marks that its source leads to.
    Spread-enter :
        (src dst : ℕ) (before after : EdgeLiveness)
        → Spread ((src, dst, v) ∷ before) after
        → IsClosed after src v
        → Entered src dst before after
    Spread-enter src dst before after q c = (
      record {
        kept = λ s d w h. q.kept s d w (ground arith);
        sound = q.sound;
        closed = λ s d w h. elim (q.closed s d w h) [
          | inl k ↦ elim (Live-cons src dst v s d w before k) [
            | inl (e, f, same) ↦ inr (rw (← e, ← same) c)
            | inr m ↦ inl m
          ]
          | inr k ↦ inr k
        ];
      },
      q.kept src dst v (ground arith),
    )

    IsSound-cons :
        (src dst : ℕ) (live : EdgeLiveness)
        → IsSound live
        → Needed v src dst
        → IsSound ((src, dst, v) ∷ live)
    IsSound-cons src dst live sound n s d w h = elim (Live-cons src dst v s d w live h) [
      | inl (e, f, same) ↦ rw (← e, ← f, ← same) n
      | inr m ↦ sound s d w m
    ]

    pub recursively_add-Good :
        (limit src dst : ℕ) (live : EdgeLiveness)
        → IsSound live
        → Needed v src dst
        → Good (Entered src dst live) (recursively_add_edge_requirement_var g v limit src dst live)
    unfolding recursively_add_edge_requirement_var
    recursively_add-Good zero src dst live s n = refl
    recursively_add-Good (suc limit) src dst live s n =
        let there = Needed-has_edge src dst n in
        let entered = IsSound-cons src dst live s n in
        elim (Bool-cases (is_live live src dst v)) [
          | inl h ↦ rw (there, h) (Spread-refl live s, h)
          | inr h ↦ elim (Bool-cases (contains (g.provides src) v)) [
            | inl p ↦
                rw (there, h, p)
                  (Spread-enter src dst live ((src, dst, v) ∷ live)
                    (Spread-refl ((src, dst, v) ∷ live) entered) (λ o. cc))
            | inr p ↦
                rw (there, h, p)
                  (Good-map (EnteredAll src (g.predecessors src) ((src, dst, v) ∷ live))
                    (Entered src dst live) _
                    (add_from_predecessors-Good (recursively_add_edge_requirement_var g v limit)
                      (λ a b t u m. recursively_add-Good limit a b t u m) src (g.predecessors src)
                      ((src, dst, v) ∷ live) entered
                      (All-Needed src dst n p (g.predecessors src) (λ x m. m)))
                    (λ after (q, hs). Spread-enter src dst live after q (λ o. hs)))
          ]
        ]
