-- ===== src/Ssa/Liveness/Edges.antt =====
-- The values that are live on an edge are those that are needed there.
use hwt_hls.Prelude.{
  ℕ, ◌≡◌, refl, true, Option, none, some, List, [], ◌∷◌, contains, inl, inr, All, All-map, All-mem,
  Memᴰ, contains-mem,
}
use hwt_hls.Ssa.Liveness.{
  EdgeLiveness, Requires, FlowGraph, recursively_add_edge_requirement_var, add_requires,
  add_all_requires,
}
use hwt_hls.Ssa.Liveness.Spread.{
  Live, Good, Good-bind, Good-map, Needed, from_all, from_one, through, IsSound, Spread,
  Spread-refl, Spread-trans, HasEdges, Entered, EnteredAll, add_from_predecessors-Good,
  recursively_add-Good,
}

module _ (g : FlowGraph) where
  -- What a block requires is live on the edges into it.
  abbrev IsMet : ℕ → ℕ × Option ℕ → EdgeLiveness → Type 0
  IsMet block (v, none) live = All (λ p. Live live p block v) (g.predecessors block)
  IsMet block (v, some p) live = Live live p block v

  IsMet-kept :
      (block : ℕ) (r : ℕ × Option ℕ) (before after : EdgeLiveness)
      → Spread g before after
      → IsMet block r before
      → IsMet block r after
  IsMet-kept block (v, none) before after q h =
      All-map (λ p. Live before p block v) (λ p. Live after p block v) (g.predecessors block)
        (λ p. q.kept p block v) h
  IsMet-kept block (v, some p) before after q h = q.kept p block v h

  abbrev Required : ℕ → Requires → EdgeLiveness → EdgeLiveness → Type 0
  Required block rs before after = Spread g before after × All (λ r. IsMet block r after) rs

  module _ (edges : HasEdges g) (limit : ℕ) where
    from_all-Needed :
        (v block : ℕ)
        → contains g.blocks block ≡ true
        → Memᴰ (v, none) (g.requires block)
        → (ps : List ℕ) → ((p : ℕ) → Memᴰ p ps → Memᴰ p (g.predecessors block))
        → All (λ p. Needed g v p block) ps
    from_all-Needed v block b m [] sub = tt
    from_all-Needed v block b m (p ∷ ps) sub = (
      from_all b m (sub p (Memᴰ.head refl)),
      from_all-Needed v block b m ps (λ x k. sub x (Memᴰ.tail k)),
    )

    add_requires-Good :
        (block : ℕ) (rs : Requires) (live : EdgeLiveness)
        → contains g.blocks block ≡ true
        → ((r : ℕ × Option ℕ) → Memᴰ r rs → Memᴰ r (g.requires block))
        → IsSound g live
        → Good (Required block rs live) (add_requires g limit block rs live)
    unfolding add_requires
    add_requires-Good block [] live b sub s = (Spread-refl g live s, tt)
    add_requires-Good block ((v, none) ∷ rs) live b sub s =
        Good-bind (EnteredAll g edges v block (g.predecessors block) live)
          (Required block ((v, none) ∷ rs) live) _ _
          (add_from_predecessors-Good g edges v (recursively_add_edge_requirement_var g v limit)
            (λ x y t u m. recursively_add-Good g edges v limit x y t u m) block
            (g.predecessors block) live s
            (from_all-Needed v block b (sub (v, none) (Memᴰ.head refl)) (g.predecessors block)
              (λ x m. m)))
          λ mid (q, h).
            Good-map (Required block rs mid) (Required block ((v, none) ∷ rs) live) _
              (add_requires-Good block rs mid b (λ r m. sub r (Memᴰ.tail m)) q.sound)
              λ after (p, hs).
                (Spread-trans g live mid after q p, (IsMet-kept block (v, none) mid after p h, hs))
    add_requires-Good block ((v, some from) ∷ rs) live b sub s =
        Good-bind (Entered g edges v from block live) (Required block ((v, some from) ∷ rs) live) _
          _
          (recursively_add-Good g edges v limit from block live s
            (from_one b (sub (v, some from) (Memᴰ.head refl))))
          λ mid (q, h).
            Good-map (Required block rs mid) (Required block ((v, some from) ∷ rs) live) _
              (add_requires-Good block rs mid b (λ r m. sub r (Memᴰ.tail m)) q.sound)
              λ after (p, hs). (
                Spread-trans g live mid after q p,
                (IsMet-kept block (v, some from) mid after p h, hs),
              )

    abbrev AllRequired : List ℕ → EdgeLiveness → EdgeLiveness → Type 0
    AllRequired bs before after =
        Spread g before after × All (λ b. All (λ r. IsMet b r after) (g.requires b)) bs

    add_all_requires-Good :
        (bs : List ℕ) (live : EdgeLiveness)
        → All (λ b. contains g.blocks b ≡ true) bs
        → IsSound g live
        → Good (AllRequired bs live) (add_all_requires g limit bs live)
    unfolding add_all_requires
    add_all_requires-Good [] live h s = (Spread-refl g live s, tt)
    add_all_requires-Good (b ∷ bs) live (h, hs) s =
        Good-bind (Required b (g.requires b) live) (AllRequired (b ∷ bs) live) _ _
          (add_requires-Good b (g.requires b) live h (λ r m. m) s)
          λ mid (q, k).
            Good-map (AllRequired bs mid) (AllRequired (b ∷ bs) live) _
              (add_all_requires-Good bs mid hs q.sound)
              λ after (p, ks). (
                Spread-trans g live mid after q p,
                (
                  All-map (λ r. IsMet b r mid) (λ r. IsMet b r after) (g.requires b)
                      (λ r. IsMet-kept b r mid after p) k,
                  ks,
                ),
              )

    Needed-Live :
        (bs : List ℕ) (after : EdgeLiveness)
        → ((b : ℕ) → contains g.blocks b ≡ true → contains bs b ≡ true)
        → AllRequired bs [] after
        → (v s d : ℕ) → Needed g v s d
        → Live after s d v
    Needed-Live bs after all (q, met) v s d (from_all b m p) =
        All-mem (λ x. Live after x d v) (g.predecessors d)
          (All-mem (λ r. IsMet d r after) (g.requires d)
            (All-mem (λ x. All (λ r. IsMet x r after) (g.requires x)) bs met
              (contains-mem bs d (all d b)))
            m)
          p
    Needed-Live bs after all (q, met) v s d (from_one b m) =
        All-mem (λ r. IsMet d r after) (g.requires d)
          (All-mem (λ x. All (λ r. IsMet x r after) (g.requires x)) bs met
            (contains-mem bs d (all d b)))
          m
    Needed-Live bs after all (q, met) v s d (through {next = next} n o p) =
        elim (q.closed d next v (Needed-Live bs after all (q, met) v d next n)) [
          | inl k ↦ cc
          | inr k ↦ All-mem (λ x. Live after x d v) (g.predecessors d) (k o) p
        ]

    -- If the edges into every collected block, and those from which its phis require a value,
    -- are edges of the graph: the transitive enclosure over the collected blocks, in any order
    -- and from empty sets, either exceeds the recursion limit, or returns the sets in which a
    -- value is live on an edge exactly if it is needed there, which is the case if the block
    -- behind the edge requires it from there, or passes it on without providing it.
    pub add_all_requires-Needed :
        (bs : List ℕ)
        → All (λ b. contains g.blocks b ≡ true) bs
        → ((b : ℕ) → contains g.blocks b ≡ true → contains bs b ≡ true)
        → Good
            (λ live.
              (s d v : ℕ) → (Live live s d v → Needed g v s d) × (Needed g v s d → Live live s d v))
            (add_all_requires g limit bs [])
    add_all_requires-Needed bs within all =
        Good-map (AllRequired bs [])
          (λ live.
            (s d v : ℕ) → (Live live s d v → Needed g v s d) × (Needed g v s d → Live live s d v))
          _ (add_all_requires-Good bs [] within (λ s d w h. cc))
          λ live h s d v. (h.0.sound s d v, Needed-Live bs live all h v s d)
