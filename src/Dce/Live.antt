-- ===== src/Dce/Live.antt =====
-- Dead code elimination keeps exactly the nodes that some IO operation depends on.
use mathlib.Core.Logic.{∥∥₁_elim, ⊎_elim}
use mathlib.Core.Bool.{So-prop}
use hwt_hls.Prelude.{
  ℕ, suc, ◌+◌, ◌≤◌, ◌<◌, ◌≡◌, refl, ap, ◌↔◌, inl, inr, Bool, false, List, [], ◌∷◌, ◌++◌, map, Memᴰ,
  length, contains, mem-contains, ◌==◌, ◌||◌, ◌&&◌, Bool-cases, All, length-append, subst, arith,
}
use hwt_hls.Prelude.Result.{ok, both_return}
use hwt_hls.Netlist.{HlsNetNodeOut, HlsPipeline, iter_all_nodes}
use hwt_hls.Graph.Walks.{In, Reach, here, step, walk_roots-Walked, Walked-Reach}
use hwt_hls.Graph.Distinct.{walk_roots-Distinct, pigeonhole}
use hwt_hls.Graph.Ends.{unmarked-le, walk_roots_returns}
use hwt_hls.Dce.{is_io, select, drivers, roots, used_nodes, remove_unused, apply}

select-contains :
    (p : ℕ → Bool) (xs : List ℕ) (a : ℕ) → contains (select p xs) a ≡ (contains xs a && p a)
select-contains p [] a = refl
select-contains p (x ∷ xs) a = elim (Bool-cases (x == a)) [
  | inl e ↦
      let same : x ≡ a = ground arith in
      let test : p x ≡ p a = ap p same in ground (arith, select-contains p xs a)
  | inr e ↦ ground (arith, select-contains p xs a)
]

contains-append :
    (xs ys : List ℕ) (a : ℕ) → contains (xs ++ ys) a ≡ (contains xs a || contains ys a)
contains-append [] ys a = refl
contains-append (x ∷ xs) ys a = ground (arith, contains-append xs ys a)

select_all :
    (used : List ℕ) (ds : List HlsNetNodeOut)
    → All (λ m. In m used) (map (λ d. d.obj) ds)
    → select (λ d. contains used d.obj) ds ≡ ds
select_all used [] h = refl
select_all used (d ∷ ds) (h, hs) = rw (h, select_all used ds hs)

All-In : {P : ℕ → Type 0} (xs : List ℕ) → ((x : ℕ) → In x xs → P x) → All P xs
All-In [] h = tt
All-In (x ∷ xs) h = (h x (ground arith), All-In xs (λ y k. h y (ground arith)))

-- Every driver of a listed node is listed.
abbrev pub IsClosed : HlsPipeline → Type 0
IsClosed hls =
    (n m : ℕ) → In n (iter_all_nodes hls) → Memᴰ m (drivers hls n) → In m (iter_all_nodes hls)

module _ (hls : HlsPipeline) where
  -- Some IO operation depends on `n`, or is `n`.
  abbrev pub IsLive : ℕ → Type 0
  IsLive n = ∥ ((r : ℕ) × Memᴰ r (roots hls) × Reach (drivers hls) r n) ∥₁

  used-IsLive :
      (limit : ℕ) (used : List ℕ) (n : ℕ) → used_nodes hls limit ≡ ok used → In n used ↔ IsLive n
  unfolding used_nodes
  used-IsLive limit used n e =
      Walked-Reach (drivers hls) (roots hls) used n
        (walk_roots-Walked (drivers hls) limit (roots hls) [] used e)

  remove_unused-drivers :
      (used : List ℕ) (n : ℕ)
      → select (λ d. contains used d.obj) (hls.node n).depends_on ≡ (hls.node n).depends_on
      → ((remove_unused hls used).node n).depends_on ≡ (hls.node n).depends_on
  unfolding remove_unused
  remove_unused-drivers used n whole =
      elim (Bool-cases (length used == length hls.nodes + length hls.inputs + length hls.outputs)) [
        | inl e ↦ rw e refl
        | inr e ↦ elim (Bool-cases (contains (select (contains used) hls.nodes) n)) [
          | inl k ↦ rw (e, k) whole
          | inr k ↦ rw (e, k) refl
        ]
      ]

  module _ (closed : IsClosed hls) where
    roots_listed : (r : ℕ) → In r (roots hls) → In r (iter_all_nodes hls)
    roots_listed r h =
        let io = select (λ n. is_io (hls.node n).kind) hls.nodes in
        ground (
          arith,
          contains-append (hls.inputs ++ hls.outputs) io r,
          contains-append hls.inputs hls.outputs r,
          contains-append (hls.inputs ++ hls.nodes) hls.outputs r,
          contains-append hls.inputs hls.nodes r,
          select-contains (λ n. is_io (hls.node n).kind) hls.nodes r,
        )

    Reach-listed :
        (r n : ℕ) → In r (iter_all_nodes hls) → Reach (drivers hls) r n → In n (iter_all_nodes hls)
    Reach-listed r n h here = h
    Reach-listed r n h (step {b} k m) = closed b n (Reach-listed r b h k) m

    -- If as many nodes are used as there are, all of them are.
    all_used :
        (limit : ℕ) (used : List ℕ)
        → used_nodes hls limit ≡ ok used
        → length used ≡ length hls.nodes + length hls.inputs + length hls.outputs
        → (n : ℕ) → In n hls.nodes
        → In n used
    unfolding used_nodes
    all_used limit used e count n h =
        pigeonhole used (iter_all_nodes hls)
          (walk_roots-Distinct (drivers hls) limit (roots hls) [] used e tt)
          (λ a k.
            ∥∥₁_elim ((used-IsLive limit used a e).0 k) (So-prop _)
              (λ (r, m, path). Reach-listed r a (roots_listed r (mem-contains (roots hls) m)) path))
          (omega (
            arith,
            length-append (hls.inputs ++ hls.nodes) hls.outputs,
            length-append hls.inputs hls.nodes,
          ))
          n
          (ground (
            arith,
            contains-append (hls.inputs ++ hls.nodes) hls.outputs n,
            contains-append hls.inputs hls.nodes n,
          ))

    -- If the pass returns on a netlist whose listed nodes have listed drivers: of the nodes
    -- exactly those stay on which some IO operation depends (the inputs, the outputs and the
    -- reads, writes, loop gates and explicit synchronizations among the nodes).
    pub apply-IsLive :
        (limit : ℕ) (r : HlsPipeline) (n : ℕ)
        → apply hls limit ≡ ok r
        → In n r.nodes ↔ (In n hls.nodes × IsLive n)
    unfolding apply remove_unused
    apply-IsLive limit r n e =
        let (used, u, k) = both_return (used_nodes hls limit) (λ x. ok (remove_unused hls x)) e in
        let result : remove_unused hls used ≡ r = cc in
        let live = used-IsLive limit used n u in
        subst (λ x. In n x.nodes ↔ (In n hls.nodes × IsLive n)) result
          (elim (Bool-cases
            (length used == length hls.nodes + length hls.inputs + length hls.outputs)) [
              | inl same ↦
                  rw same (λ h. (h, live.0 (all_used limit used u (ground arith) n h)), λ h. h.0)
              | inr ne ↦
                  rw (ne, select-contains (contains used) hls.nodes n)
                    (λ h. (ground arith, live.0 (ground arith)), λ h. ground (arith, live.1 h.1))
            ])

    module _ (limit : ℕ) (r : HlsPipeline) (n : ℕ) (e : apply hls limit ≡ ok r) where
      -- If the pass returns on a netlist whose listed nodes have listed drivers: what stays
      -- keeps its drivers.
      pub apply-depends_on : In n r.nodes → (r.node n).depends_on ≡ (hls.node n).depends_on
      unfolding apply remove_unused used_nodes
      apply-depends_on h =
          let (used, u, k) = both_return (used_nodes hls limit) (λ x. ok (remove_unused hls x)) e in
          let result : remove_unused hls used ≡ r = cc in
          let live = (apply-IsLive limit r n e).0 h in
          let in_use : In n used = (used-IsLive limit used n u).1 live.1 in
          let w = walk_roots-Walked (drivers hls) limit (roots hls) [] used u in
          let drivers_used : All (λ m. In m used) (drivers hls n) =
            ⊎_elim (λ x. cc) (λ all. all) (w.closed n in_use) in
          let whole = select_all used (hls.node n).depends_on drivers_used in
          subst (λ x. (x.node n).depends_on ≡ (hls.node n).depends_on) result
            (remove_unused-drivers used n whole)

      -- If the pass returns: what is not in the list of nodes, such as the inputs and outputs of
      -- the pipeline, is left as it is, also the uses of it that are removed.
      pub apply_leaves_io : contains hls.nodes n ≡ false → r.node n ≡ hls.node n
      unfolding apply remove_unused
      apply_leaves_io h =
          let (used, u, k) = both_return (used_nodes hls limit) (λ x. ok (remove_unused hls x)) e in
          let result : remove_unused hls used ≡ r = cc in
          subst (λ x. x.node n ≡ hls.node n) result
            (ground (arith, select-contains (contains used) hls.nodes n))

    -- If the listed nodes have listed drivers and lie below a bound that their drivers keep to
    -- and the recursion limit exceeds, dead code elimination returns.
    pub apply_returns :
        (bound limit : ℕ)
        → ((n : ℕ) → In n (iter_all_nodes hls) → n < bound)
        → ((n : ℕ) → n < bound → All (λ m. m < bound) (drivers hls n))
        → bound ≤ limit
        → (r : HlsPipeline) × (apply hls (suc limit) ≡ ok r)
    unfolding apply used_nodes
    apply_returns bound limit below bounded le =
        let (used, e) =
          walk_roots_returns (drivers hls) bound bounded limit (roots hls) []
            (All-In (roots hls) (λ r h. below r (roots_listed r h)))
            (omega (arith, unmarked-le bound)) in
        (remove_unused hls used, rw e)
