-- ===== src/Analysis/Cluster/Sound.antt =====
-- What the search of a cluster keeps.
use hwt_hls.Prelude.{
  ℕ, zero, suc, ◌+◌, ◌≡◌, refl, sym, ap, ◌∙◌, subst, Bool, true, false, not, ◌&&◌, ◌||◌, List, [],
  ◌∷◌, ◌++◌, contains, ◌==◌, Bool-cases, inl, inr, All, arith,
}
use hwt_hls.Prelude.Result.{Result, ok, err, ◌>>=◌, recursion_error}
use hwt_hls.Netlist.{HlsNetNodeOut, HlsNetNodeIn, HlsPipeline}
use hwt_hls.Hwt.{UniqListOps}
use hwt_hls.Analysis.Cluster.{
  has_port, has_key, new_cluster, add_input, add_output, Search, enter_node, discover_inputs,
  discover_users, discover_outputs, discover_node, all_differ, uses_at, users_of,
}
use hwt_hls.Analysis.Cluster.Ports.{keys_of, has_key-keys_of, keys_of-put_input, all_differ-snoc}

module _ (hls : HlsPipeline) (predicate : ℕ → Bool) (start : ℕ) where
  abbrev pub is_wanted : ℕ → Bool
  is_wanted m = (m == start) || predicate m

  -- A use in a node that never joins the cluster.
  abbrev pub any_free : List HlsNetNodeIn → Bool
  any_free [] = false
  any_free (u ∷ us) = not (is_wanted u.obj) || any_free us

  pub record IsSound (s : Search) : Type 0 where
    pub inside : (m : ℕ) → contains s.cluster.nodes m ≡ true → is_wanted m ≡ true
    pub used : All (λ o. any_free (users_of hls o) ≡ true) s.cluster.outputs
    pub keys : keys_of s.cluster.inputs_dict ≡ s.cluster.inputs
    pub differ : all_differ s.cluster.inputs ≡ true
    pub started : contains s.seen start ≡ true

  abbrev pub Good : Result Search → Type 0
  Good (ok s) = IsSound s
  Good (err e) = e ≡ recursion_error

  Good-bind :
      (r : Result Search) (f : Search → Result Search)
      → Good r
      → ((s : Search) → IsSound s → Good (f s))
      → Good (r >>= f)
  Good-bind (ok s) f h k = k s h
  Good-bind (err e) f h k = h

  add_input-IsSound :
      (dep : HlsNetNodeOut) (i : HlsNetNodeIn) (s : Search)
      → IsSound s
      → IsSound (record s { cluster = add_input dep i s.cluster })
  unfolding add_input
  add_input-IsSound dep i s v = record {
    inside = v.inside;
    used = v.used;
    keys = keys_of-put_input dep i s.cluster.inputs_dict ∙ rw v.keys refl;
    differ = elim (Bool-cases (has_key s.cluster.inputs_dict dep)) [
      | inl h ↦ rw h v.differ
      | inr h ↦ rw h (
          all_differ-snoc s.cluster.inputs dep
            (subst (λ ps. has_port ps dep ≡ false) v.keys
              (sym (has_key-keys_of s.cluster.inputs_dict dep) ∙ h))
            v.differ)
    ];
    started = v.started;
  }

  All-snoc :
      (P : HlsNetNodeOut → Type 0) (os : List HlsNetNodeOut) (o : HlsNetNodeOut)
      → All P os
      → P o
      → All P (os ++ o ∷ [])
  All-snoc P [] o h p = (p, tt)
  All-snoc P (x ∷ os) o (h, hs) p = (h, All-snoc P os o hs p)

  add_output-IsSound :
      (outp : HlsNetNodeOut) (s : Search)
      → any_free (users_of hls outp) ≡ true
      → IsSound s
      → IsSound (record s { cluster = add_output outp s.cluster })
  unfolding add_output
  add_output-IsSound outp s free v = elim (Bool-cases (has_port s.cluster.outputs outp)) [
    | inl h ↦ record {
      inside = v.inside;
      used = rw h v.used;
      keys = v.keys;
      differ = v.differ;
      started = v.started;
    }
    | inr h ↦ record {
      inside = v.inside;
      used = rw h (All-snoc _ s.cluster.outputs outp v.used free);
      keys = v.keys;
      differ = v.differ;
      started = v.started;
    }
  ]

  module _ (visit : ℕ → Search → Result Search)
      (visits : (n : ℕ) (s : Search) → is_wanted n ≡ true → IsSound s → Good (visit n s)) where
    discover_inputs-Good :
        (l : UniqListOps) (n i : ℕ) (deps : List HlsNetNodeOut) (s : Search)
        → IsSound s
        → Good (discover_inputs l hls predicate visit n i deps s)
    unfolding discover_inputs
    discover_inputs-Good l n i [] s v = v
    discover_inputs-Good l n i (dep ∷ deps) s v =
        Good-bind _ (discover_inputs l hls predicate visit n (suc i) deps)
          (elim (Bool-cases (not (contains s.seen dep.obj) && predicate dep.obj)) [
            | inl h ↦ rw h (visits dep.obj s (ground arith) v)
            | inr h ↦ rw h (add_input-IsSound dep (record { obj = n; in_i = i }) s v)
          ])
          (λ t w. discover_inputs-Good l n (suc i) deps t w)

    discover_users-Good :
        (l : UniqListOps) (outp : HlsNetNodeOut) (us : List HlsNetNodeIn) (s : Search)
        → (any_free us ≡ true → any_free (users_of hls outp) ≡ true)
        → IsSound s
        → Good (discover_users l hls predicate visit outp us s)
    unfolding discover_users
    discover_users-Good l outp [] s h v = v
    discover_users-Good l outp (u ∷ us) s h v =
        Good-bind _ (discover_users l hls predicate visit outp us)
          (elim (Bool-cases (contains s.seen u.obj)) [
            | inl e ↦ rw e v
            | inr e ↦ elim (Bool-cases (predicate u.obj)) [
              | inl p ↦ rw (e, p) (visits u.obj s (ground arith) v)
              | inr p ↦
                  let apart : (u.obj == start) ≡ false = ground arith in
                  rw (e, p) (add_output-IsSound outp s (h (ground arith)) v)
            ]
          ])
          (λ t w. discover_users-Good l outp us t (λ free. h (ground arith)) w)

    discover_outputs-Good :
        (l : UniqListOps) (n out_i : ℕ) (rest : List (List HlsNetNodeIn)) (s : Search)
        → ((i k : ℕ) → k ≡ out_i + i → uses_at (hls.node n).used_by k ≡ uses_at rest i)
        → IsSound s
        → Good (discover_outputs l hls predicate visit n out_i rest s)
    unfolding discover_outputs
    discover_outputs-Good l n out_i [] s h v = v
    discover_outputs-Good l n out_i (us ∷ rest) s h v =
        Good-bind _ (discover_outputs l hls predicate visit n (suc out_i) rest)
          (discover_users-Good l (record { obj = n; out_i = out_i }) us s
            (λ free. rw (h 0 out_i (omega arith)) free) v)
          (λ t w.
            discover_outputs-Good l n (suc out_i) rest t (λ i k e. h (suc i) k (omega arith)) w)

    -- The loops of a node that has just joined the cluster.
    node-Good :
        (l : UniqListOps) (n : ℕ) (s : Search)
        → IsSound s
        → Good (
            discover_inputs l hls predicate visit n 0 (hls.node n).depends_on s >>= λ s'.
            discover_outputs l hls predicate visit n 0 (hls.node n).used_by s')
    node-Good l n s v =
        Good-bind _ (λ s'. discover_outputs l hls predicate visit n 0 (hls.node n).used_by s')
          (discover_inputs-Good l n 0 (hls.node n).depends_on s v)
          (λ t w.
            discover_outputs-Good l n 0 (hls.node n).used_by t
              (λ i k e. ap (uses_at (hls.node n).used_by) (e ∙ omega arith)) w)

  module _ (l : UniqListOps) where
    enter_node-IsSound :
        (n : ℕ) (s : Search)
        → is_wanted n ≡ true
        → IsSound s
        → IsSound (enter_node l hls predicate n s)
    unfolding enter_node
    enter_node-IsSound n s h v = record {
      inside = λ m k. elim (Bool-cases (n == m)) [
        | inl e ↦ let same : n ≡ m = ground arith in rw (← same) h
        | inr e ↦ v.inside m (ground (arith, l.append_mem s.cluster.nodes n m))
      ];
      used = v.used;
      keys = v.keys;
      differ = v.differ;
      started = ground (arith, v.started);
    }

    discover_node-Good :
        (limit n : ℕ) (s : Search)
        → is_wanted n ≡ true
        → IsSound s
        → Good (discover_node l hls predicate limit n s)
    unfolding discover_node
    discover_node-Good zero n s h v = refl
    discover_node-Good (suc limit) n s h v =
        node-Good (discover_node l hls predicate limit)
          (λ m t w x. discover_node-Good limit m t w x) l n (enter_node l hls predicate n s)
          (enter_node-IsSound n s h v)

    pub new_search-Good :
        (limit : ℕ) (seen : List ℕ)
        → Good (
            discover_node l hls predicate limit start
              (record { cluster = new_cluster; seen = seen }))
    unfolding discover_node enter_node
    new_search-Good zero seen = refl
    new_search-Good (suc limit) seen =
        node-Good (discover_node l hls predicate limit)
          (λ m t w x. discover_node-Good limit m t w x) l start _
          (record {
            inside = λ m k. ground (arith, l.append_mem [] start m);
            used = tt;
            keys = refl;
            differ = refl;
            started = ground arith;
          })
