-- ===== src/Frontend/Predecessors/Marked.antt =====
-- Which blocks are marked as not generated.
use hwt_hls.Prelude.{
  ℕ, zero, suc, ◌≡◌, refl, subst, Bool, true, false, not, ◌&&◌, List, [], ◌∷◌, contains, ◌==◌,
  Bool-cases, inl, inr, arith,
}
use hwt_hls.Prelude.Result.{Error, Result, ok, err, require, ◌>>=◌, assertion_error}
use hwt_hls.Graph.{add}
use hwt_hls.Frontend.Predecessors.{
  DiGraph, Tracker, has_edge, all_known, all_not_generated, all_edges_reported, Visit,
  resolve_successor, resolve_successors, mark_not_generated, add_not_generated,
}

module _ (cfg : DiGraph) where
  -- Every edge into a block that is marked was reported, from whichever predecessor it comes.
  abbrev pub IsReported : Tracker → Type 0
  IsReported t =
      (m p : ℕ)
      → contains t.not_generated m ≡ true
      → contains (cfg.predecessors m) p ≡ true
      → has_edge t.not_generated_edges p m ≡ true

  all_edges_reported-at :
      (t : Tracker) (dst p : ℕ) (ps : List ℕ)
      → all_edges_reported cfg t dst ps ≡ true
      → contains ps p ≡ true
      → has_edge t.not_generated_edges p dst ≡ true
  unfolding all_edges_reported
  all_edges_reported-at t dst p [] h k = cc
  all_edges_reported-at t dst p (q ∷ ps) h k = elim (Bool-cases (q == p)) [
    | inl s ↦ let same : q ≡ p = ground arith in rw (← same) (ground arith)
    | inr s ↦ ground (arith, all_edges_reported-at t dst p ps)
  ]

  edge-IsReported :
      (t : Tracker) (src dst : ℕ)
      → IsReported t
      → IsReported (record t { not_generated_edges = (src, dst) ∷ t.not_generated_edges })
  edge-IsReported t src dst v m p h k = let old = v m p h k in ground arith

  mark-IsReported :
      (t : Tracker) (dst : ℕ)
      → all_edges_reported cfg t dst (cfg.predecessors dst) ≡ true
      → IsReported t
      → IsReported (record t { not_generated = add dst t.not_generated })
  mark-IsReported t dst e v m p h k = elim (Bool-cases (dst == m)) [
    | inl q ↦
        let same : dst ≡ m = ground arith in
        rw (← same) (all_edges_reported-at t dst p (cfg.predecessors dst) e (rw (← same) at k))
    | inr q ↦ v m p (ground arith) k
  ]

  abbrev Good : Result (List ℕ × Tracker) → Type 0
  Good (ok (reported, t)) = IsReported t
  Good (err e) = Unit

  Good-bind :
      (r : Result (List ℕ × Tracker)) (f : List ℕ × Tracker → Result (List ℕ × Tracker))
      → Good r
      → ((p : List ℕ × Tracker) → IsReported p.1 → Good (f p))
      → Good (r >>= f)
  Good-bind (ok p) f h k = k p h
  Good-bind (err e) f h k = tt

  require-Good :
      (b : Bool) (e : Error) (r : Result (List ℕ × Tracker))
      → Good r
      → Good (require b e >>= λ _. r)
  require-Good true e r h = h
  require-Good false e r h = tt

  module _ (visit : Visit cfg)
      (visits : (src dst : ℕ) (t : Tracker) → IsReported t → Good (visit src dst t)) where
    resolve_successor-Good :
        (dst s : ℕ) (t : Tracker) → IsReported t → Good (resolve_successor cfg visit dst s t)
    unfolding resolve_successor
    resolve_successor-Good dst s t v = elim (Bool-cases (all_known t (cfg.predecessors s))) [
      | inl k ↦ elim (Bool-cases (contains t.generated s)) [
        | inl g ↦ rw (k, g) v
        | inr g ↦ elim (Bool-cases (all_not_generated t (cfg.predecessors s))) [
          | inl n ↦ rw (k, g, n) (visits dst s t v)
          | inr n ↦ rw (k, g, n) v
        ]
      ]
      | inr k ↦ rw k v
    ]

    resolve_successors-Good :
        (dst : ℕ) (ss : List ℕ) (t : Tracker)
        → IsReported t
        → Good (resolve_successors cfg visit dst ss t)
    unfolding resolve_successors
    resolve_successors-Good dst [] t v = v
    resolve_successors-Good dst (s ∷ ss) t v =
        Good-bind (resolve_successor cfg visit dst s t) _ (resolve_successor-Good dst s t v) λ p w.
          Good-bind (resolve_successors cfg visit dst ss p.1) _
            (resolve_successors-Good dst ss p.1 w) (λ q x. x)

    mark_not_generated-Good :
        (dst : ℕ) (t : Tracker) → IsReported t → Good (mark_not_generated cfg visit dst t)
    unfolding mark_not_generated
    mark_not_generated-Good dst t v =
        elim (Bool-cases
          (contains cfg.nodes dst && all_edges_reported cfg t dst (cfg.predecessors dst))) [
            | inl e ↦ rw e (
                resolve_successors-Good dst (cfg.successors dst)
                  (record t { not_generated = add dst t.not_generated })
                  (mark-IsReported t dst (ground arith) v))
            | inr e ↦ rw e v
          ]

  add_not_generated-Good :
      (limit src dst : ℕ) (t : Tracker)
      → IsReported t
      → Good (add_not_generated cfg limit src dst t)
  unfolding add_not_generated
  add_not_generated-Good zero src dst t v = tt
  add_not_generated-Good (suc limit) src dst t v =
      require-Good (not (has_edge t.not_generated_edges src dst)) assertion_error _ (
        require-Good (not (contains t.not_generated dst)) assertion_error _ (
          mark_not_generated-Good (add_not_generated cfg limit)
            (λ a b u w. add_not_generated-Good limit a b u w) dst
            (record t { not_generated_edges = (src, dst) ∷ t.not_generated_edges })
            (edge-IsReported t src dst v)))

  -- If of every block that is marked as not generated the edges from all its predecessors were
  -- reported, this holds again after `addNotGenerated` has returned, also of the blocks that its
  -- recursion marks.
  pub add_not_generated-IsReported :
      (limit src dst : ℕ) (t after : Tracker) (reported : List ℕ)
      → IsReported t
      → add_not_generated cfg limit src dst t ≡ ok (reported, after)
      → IsReported after
  add_not_generated-IsReported limit src dst t after reported v e =
      subst Good e (add_not_generated-Good limit src dst t v)

  missing_edge :
      (t : Tracker) (src dst p : ℕ) (ps : List ℕ)
      → contains ps p ≡ true
      → has_edge t.not_generated_edges p dst ≡ false
      → (src == p) ≡ false
      → all_edges_reported cfg
          (record t { not_generated_edges = (src, dst) ∷ t.not_generated_edges })
          dst
          ps
        ≡ false
  unfolding all_edges_reported
  missing_edge t src dst p [] h e n = cc
  missing_edge t src dst p (q ∷ ps) h e n = elim (Bool-cases (q == p)) [
    | inl s ↦ let same : q ≡ p = ground arith in rw same (ground arith)
    | inr s ↦ ground (arith, missing_edge t src dst p ps)
  ]

  -- While an edge into a block that is not marked was not reported, from another predecessor,
  -- reporting the edge from this one marks nothing and yields nothing, even if the other
  -- predecessor is marked as not generated.
  pub add_not_generated_waits :
      (limit src dst p : ℕ) (t : Tracker)
      → has_edge t.not_generated_edges src dst ≡ false
      → contains t.not_generated dst ≡ false
      → contains (cfg.predecessors dst) p ≡ true
      → (src == p) ≡ false
      → has_edge t.not_generated_edges p dst ≡ false
      → add_not_generated cfg (suc limit) src dst t
        ≡ ok ([], record t { not_generated_edges = (src, dst) ∷ t.not_generated_edges })
  unfolding add_not_generated mark_not_generated
  add_not_generated_waits limit src dst p t e n h apart missing =
      rw (e, n)
        (rw (missing_edge t src dst p (cfg.predecessors dst) h missing apart)
          (elim (Bool-cases (contains cfg.nodes dst)) [ inl i ↦ rw i refl | inr i ↦ rw i refl ]))
