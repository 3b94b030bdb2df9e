-- ===== src/Analysis/Consystency.antt =====
-- `HlsNetlistPassConsystencyCheck` (hwtHls/netlist/analysis/consystencyCheck.py). A port is its node and
-- its index here, so that the asserts about the fields of port objects hold by themselves.
pub mod Links
use hwt_hls.Prelude.{ℕ, zero, suc, List, [], ◌∷◌, contains}
use hwt_hls.Prelude.Result.{Result, ok, index, require, ◌>>=◌, ◌>>◌, assertion_error}
use hwt_hls.Netlist.{HlsNetNodeOut, HlsNetNodeIn, HlsPipeline, iter_all_nodes}
use hwt_hls.Analysis.Cluster.{same_port, has_input}

module _ (hls : HlsPipeline) where
  -- the loop over `zip(n._inputs, n.dependsOn)`
  unfoldable pub check_drivers : ℕ → ℕ → List HlsNetNodeOut → Result (Unit {0})
  check_drivers n in_i [] = ok tt
  check_drivers n in_i (d ∷ ds) = do
    require (contains (iter_all_nodes hls) d.obj) assertion_error
    uses ← index (hls.node d.obj).used_by d.out_i
    require (has_input uses (record { obj = n; in_i = in_i })) assertion_error
    check_drivers n (suc in_i) ds

  unfoldable pub check_uses : HlsNetNodeOut → List HlsNetNodeIn → Result (Unit {0})
  check_uses o [] = ok tt
  check_uses o (u ∷ us) = do
    require (contains (iter_all_nodes hls) u.obj) assertion_error
    d ← index (hls.node u.obj).depends_on u.in_i
    require (same_port d o) assertion_error
    check_uses o us

  -- the loop over `zip(n._outputs, n.usedBy)`
  unfoldable pub check_outputs : ℕ → ℕ → List (List HlsNetNodeIn) → Result (Unit {0})
  unfolding check_uses
  check_outputs n out_i [] = ok tt
  check_outputs n out_i (us ∷ rest) = do
    check_uses (record { obj = n; out_i = out_i }) us
    check_outputs n (suc out_i) rest

  unfoldable pub check_links : List ℕ → Result (Unit {0})
  unfolding check_drivers check_outputs
  check_links [] = ok tt
  check_links (n ∷ ns) = do
    check_drivers n 0 (hls.node n).depends_on
    check_outputs n 0 (hls.node n).used_by
    check_links ns

  -- `apply`
  unfoldable pub check_consystency : Result (Unit {0})
  unfolding check_links
  check_consystency = check_links (iter_all_nodes hls)
