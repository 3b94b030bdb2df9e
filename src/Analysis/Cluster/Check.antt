-- ===== src/Analysis/Cluster/Check.antt =====
-- A cluster that is discovered passes its own consistency check.
use hwt_hls.Prelude.{
  ℕ, ◌≡◌, refl, sym, ap, ◌∙◌, Bool, true, List, [], ◌∷◌, length, contains, ◌==◌, Bool-cases, inl,
  inr, ◌⊎◌, All, arith,
}
use hwt_hls.Prelude.Result.{Result, ok, err, ◌>>=◌, recursion_error}
use hwt_hls.Netlist.{HlsNetNodeOut, HlsNetNodeIn, HlsPipeline}
use hwt_hls.Hwt.{UniqListOps}
use hwt_hls.Analysis.Cluster.{
  new_cluster, Search, discover_node, outer_ports, outer_keys, any_outside, users_of,
  all_used_outside, consystency_check, outer_part, discover,
}
use hwt_hls.Analysis.Cluster.Ports.{
  keys_of, length-keys_of, outer_keys-outer_ports, all_differ-outer_ports, none_inside-outer_ports,
}
use hwt_hls.Analysis.Cluster.Sound.{is_wanted, any_free, IsSound, Good, new_search-Good}

module _ (hls : HlsPipeline) (predicate : ℕ → Bool) (start : ℕ) (l : UniqListOps) where
  module _ (nodes : List ℕ)
      (inside : (m : ℕ) → contains nodes m ≡ true → is_wanted hls predicate start m ≡ true) where
    any_outside-any_free :
        (us : List HlsNetNodeIn)
        → any_free hls predicate start us ≡ true
        → any_outside nodes us ≡ true
    any_outside-any_free [] h = h
    any_outside-any_free (u ∷ us) h = elim (Bool-cases (contains nodes u.obj)) [
      | inl e ↦ let wanted = inside u.obj e in ground (arith, any_outside-any_free us)
      | inr e ↦ ground arith
    ]

    all_used_outside_lem :
        (os : List HlsNetNodeOut)
        → All (λ o. any_free hls predicate start (users_of hls o) ≡ true) os
        → all_used_outside hls nodes os ≡ true
    all_used_outside_lem [] h = refl
    all_used_outside_lem (o ∷ os) (h, hs) =
        ground (arith, any_outside-any_free (users_of hls o) h, all_used_outside_lem os hs)

  consystency_check-outer_part :
      (s : Search)
      → IsSound hls predicate start s
      → consystency_check hls (outer_part hls s.cluster) ≡ ok tt
  unfolding consystency_check outer_part
  consystency_check-outer_part s v =
      let c = s.cluster in
      let keys : keys_of (outer_keys c.nodes c.inputs_dict) ≡ outer_ports c.nodes c.inputs =
        outer_keys-outer_ports c.nodes c.inputs_dict ∙ ap (outer_ports c.nodes) v.keys in
      let lengths : length (outer_keys c.nodes c.inputs_dict)
          ≡ length (outer_ports c.nodes c.inputs) =
        sym (length-keys_of (outer_keys c.nodes c.inputs_dict)) ∙ ap length keys in
      let same : (length (outer_keys c.nodes c.inputs_dict)
            == length (outer_ports c.nodes c.inputs))
          ≡ true =
        ground arith in
      rw
        (
          all_differ-outer_ports c.nodes c.inputs v.differ,
          same,
          all_used_outside_lem c.nodes v.inside c.outputs v.used,
          none_inside-outer_ports hls c.nodes c.inputs,
        )
        refl

-- Discovering a cluster from any node, with any predicate and any nodes seen before, either
-- exceeds the recursion limit, or returns a cluster that passes `consystencyCheck`.
pub discover_consistent :
    (l : UniqListOps) (hls : HlsPipeline) (predicate : ℕ → Bool) (limit n : ℕ) (seen : List ℕ)
    → (discover hls l predicate limit n (record { cluster = new_cluster; seen = seen })
        ≡ err recursion_error)
      ⊎ ((s : Search) × (discover hls l predicate limit n
              (record { cluster = new_cluster; seen = seen })
            ≡ ok s)
          × (consystency_check hls s.cluster ≡ ok tt))
unfolding discover
discover_consistent l hls predicate limit n seen =
    go (discover_node l hls predicate limit n (record { cluster = new_cluster; seen = seen }))
      (new_search-Good hls predicate n l limit seen)
  where
    go :
        (r : Result Search)
        → Good hls predicate n r
        → ((r >>= λ found. consystency_check hls (outer_part hls found.cluster) >>= λ _.
              ok (record found { cluster = outer_part hls found.cluster }))
            ≡ err recursion_error)
          ⊎ ((s : Search) × ((r >>= λ found.
                  consystency_check hls (outer_part hls found.cluster) >>= λ _.
                  ok (record found { cluster = outer_part hls found.cluster }))
                ≡ ok s)
              × (consystency_check hls s.cluster ≡ ok tt))
    go (ok s) v =
        let checked = consystency_check-outer_part hls predicate n l s v in
        inr (record s { cluster = outer_part hls s.cluster }, rw checked refl, checked)
    go (err e) v = inl (ap err v)
