-- ===== src/Analysis/Cluster.antt =====
-- `HlsNetlistClusterSearch` (hwtHls/netlist/analysis/clusterSearch.py): the nodes that are connected to
-- a node through nodes which satisfy a predicate, with the outputs that lead into and out of them. The
-- output port of a node at an index is the HlsNetNodeOut with that index.
pub mod Cycles
pub mod Ports
pub mod Sound
pub mod Check
use hwt_hls.Prelude.{
  ℕ, zero, suc, ◌+◌, Bool, true, false, not, ◌&&◌, ◌||◌, Option, none, some, List, [], ◌∷◌, ◌++◌,
  map, length, contains, get_elem?, ◌==◌, if◌then◌else◌,
}
use hwt_hls.Prelude.Result.{Result, ok, err, require, ◌>>=◌, ◌>>◌, recursion_error, assertion_error}
use hwt_hls.Netlist.{HlsNetNodeOut, HlsNetNodeIn, HlsPipeline}
use hwt_hls.Hwt.{UniqListOps}
use hwt_hls.Graph.{add}

abbrev pub same_port : HlsNetNodeOut → HlsNetNodeOut → Bool
same_port a b = (a.obj == b.obj) && (a.out_i == b.out_i)

abbrev pub has_port : List HlsNetNodeOut → HlsNetNodeOut → Bool
has_port [] o = false
has_port (p ∷ ps) o = same_port p o || has_port ps o

abbrev pub has_input : List HlsNetNodeIn → HlsNetNodeIn → Bool
has_input [] i = false
has_input (j ∷ js) i = ((j.obj == i.obj) && (j.in_i == i.in_i)) || has_input js i

abbrev pub InputsDict : Type 0
InputsDict = List (HlsNetNodeOut × List HlsNetNodeIn)

pub record Cluster : Type 0 where
  pub inputs : List HlsNetNodeOut
  pub inputs_dict : InputsDict
  pub outputs : List HlsNetNodeOut
  pub nodes : List ℕ

abbrev pub new_cluster : Cluster
new_cluster = record { inputs = []; inputs_dict = []; outputs = []; nodes = [] }

abbrev pub has_key : InputsDict → HlsNetNodeOut → Bool
has_key [] o = false
has_key ((k, ins) ∷ rest) o = same_port k o || has_key rest o

-- `otherConnectedInputs.add(inp)`, for the set of the key, which is made where it is missing
unfoldable pub put_input : HlsNetNodeOut → HlsNetNodeIn → InputsDict → InputsDict
put_input o inp [] = (o, inp ∷ []) ∷ []
put_input o inp ((k, ins) ∷ rest) =
    if same_port k o
    then (k, (if has_input ins inp then ins else inp ∷ ins)) ∷ rest
    else (k, ins) ∷ put_input o inp rest

unfoldable pub add_input : HlsNetNodeOut → HlsNetNodeIn → Cluster → Cluster
unfolding put_input
add_input dep inp c = record c {
  inputs_dict = put_input dep inp c.inputs_dict;
  inputs = if has_key c.inputs_dict dep then c.inputs else c.inputs ++ dep ∷ [];
}

unfoldable pub add_output : HlsNetNodeOut → Cluster → Cluster
add_output outp c = record c {
  outputs = if has_port c.outputs outp then c.outputs else c.outputs ++ outp ∷ [];
}

-- The cluster, and the set `seen`.
pub record Search : Type 0 where
  pub cluster : Cluster
  pub seen : List ℕ

module _ (l : UniqListOps) (hls : HlsPipeline) (predicate : ℕ → Bool) where
  unfoldable pub enter_node : ℕ → Search → Search
  enter_node n s = record {
    cluster = record (s.cluster) { nodes = l.append s.cluster.nodes n };
    seen = add n s.seen;
  }

  -- the loop over `zip(n._inputs, n.dependsOn)`; `visit` is the recursive call
  unfoldable pub discover_inputs :
      (ℕ → Search → Result Search) → ℕ → ℕ → List HlsNetNodeOut → Search → Result Search
  unfolding add_input
  discover_inputs visit n in_i [] s = ok s
  discover_inputs visit n in_i (dep ∷ deps) s = do
    s' ←
        (if not (contains s.seen dep.obj) && predicate dep.obj
          then visit dep.obj s
          else ok
              (record s { cluster = add_input dep (record { obj = n; in_i = in_i }) s.cluster }))
    discover_inputs visit n (suc in_i) deps s'

  unfoldable pub discover_users :
      (ℕ → Search → Result Search) → HlsNetNodeOut → List HlsNetNodeIn → Search → Result Search
  unfolding add_output
  discover_users visit outp [] s = ok s
  discover_users visit outp (u ∷ us) s = do
    s' ←
        (if contains s.seen u.obj
          then ok s
          else if predicate u.obj
          then visit u.obj s
          else ok (record s { cluster = add_output outp s.cluster }))
    discover_users visit outp us s'

  -- the loop over `zip(n._outputs, n.usedBy)`
  unfoldable pub discover_outputs :
      (ℕ → Search → Result Search) → ℕ → ℕ → List (List HlsNetNodeIn) → Search → Result Search
  unfolding discover_users
  discover_outputs visit n out_i [] s = ok s
  discover_outputs visit n out_i (users ∷ rest) s = do
    s' ← discover_users visit (record { obj = n; out_i = out_i }) users s
    discover_outputs visit n (suc out_i) rest s'

  -- `_discover`; the fuel is Python's recursion limit
  unfoldable pub discover_node : ℕ → ℕ → Search → Result Search
  unfolding enter_node discover_inputs discover_outputs
  discover_node zero n s = err recursion_error
  discover_node (suc limit) n s = do
    s' ← discover_inputs (discover_node limit) n 0 (hls.node n).depends_on (enter_node n s)
    discover_outputs (discover_node limit) n 0 (hls.node n).used_by s'

abbrev pub outer_ports : List ℕ → List HlsNetNodeOut → List HlsNetNodeOut
outer_ports nodes [] = []
outer_ports nodes (i ∷ is) =
    let rest = outer_ports nodes is in if contains nodes i.obj then rest else i ∷ rest

abbrev pub outer_keys : List ℕ → InputsDict → InputsDict
outer_keys nodes [] = []
outer_keys nodes ((k, ins) ∷ d) =
    let rest = outer_keys nodes d in if contains nodes k.obj then rest else (k, ins) ∷ rest

-- `len(xs) == len(set(xs))`
abbrev pub all_differ : List HlsNetNodeOut → Bool
all_differ [] = true
all_differ (p ∷ ps) = not (has_port ps p) && all_differ ps

-- `any(u.obj not in self.nodes for u in ...)`
abbrev pub any_outside : List ℕ → List HlsNetNodeIn → Bool
any_outside nodes [] = false
any_outside nodes (u ∷ us) = not (contains nodes u.obj) || any_outside nodes us

abbrev pub uses_at : List (List HlsNetNodeIn) → ℕ → List HlsNetNodeIn
uses_at [] i = []
uses_at (us ∷ rest) zero = us
uses_at (us ∷ rest) (suc i) = uses_at rest i

module _ (hls : HlsPipeline) where
  abbrev pub users_of : HlsNetNodeOut → List HlsNetNodeIn
  users_of o = uses_at (hls.node o.obj).used_by o.out_i

  abbrev pub all_used_outside : List ℕ → List HlsNetNodeOut → Bool
  all_used_outside nodes [] = true
  all_used_outside nodes (o ∷ os) = any_outside nodes (users_of o) && all_used_outside nodes os

  abbrev pub none_inside : List ℕ → List HlsNetNodeOut → Bool
  none_inside nodes [] = true
  none_inside nodes (i ∷ is) = not (contains nodes i.obj) && none_inside nodes is

  -- `consystencyCheck`
  unfoldable pub consystency_check : Cluster → Result (Unit {0})
  consystency_check c = do
    require (all_differ c.inputs) assertion_error
    require (length c.inputs_dict == length c.inputs) assertion_error
    require (all_used_outside c.nodes c.outputs) assertion_error
    require (none_inside c.nodes c.inputs) assertion_error

  unfoldable pub outer_part : Cluster → Cluster
  outer_part c = record c {
    inputs = outer_ports c.nodes c.inputs;
    inputs_dict = outer_keys c.nodes c.inputs_dict;
  }

  -- `discover`
  unfoldable pub discover : UniqListOps → (ℕ → Bool) → ℕ → ℕ → Search → Result Search
  unfolding discover_node outer_part consystency_check
  discover l predicate limit n s = do
    found ← discover_node l hls predicate limit n s
    consystency_check (outer_part found.cluster)
    ok (record found { cluster = outer_part found.cluster })

  -- `collectPredecesorsInCluster`, whose nodes are listed as they are yielded
  unfoldable pub collect_each :
      (ℕ → Result (List ℕ)) → List ℕ → List HlsNetNodeOut → Result (List ℕ)
  collect_each visit nodes [] = ok []
  collect_each visit nodes (dep ∷ deps) = do
    first ← (if contains nodes dep.obj then visit dep.obj else ok [])
    rest ← collect_each visit nodes deps
    ok (first ++ rest)

  unfoldable pub collect_predecesors_in_cluster : List ℕ → ℕ → ℕ → Result (List ℕ)
  unfolding collect_each
  collect_predecesors_in_cluster nodes zero n = err recursion_error
  collect_predecesors_in_cluster nodes (suc limit) n = do
    preds ← collect_each (collect_predecesors_in_cluster nodes limit) nodes (hls.node n).depends_on
    ok (n ∷ preds)
