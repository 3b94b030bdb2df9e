-- ===== src/Analysis/Cluster/Cycles.antt =====
-- How a cluster is cut where one of its outputs leads back to one of its inputs (clusterSearch.py).
use hwt_hls.Prelude.{
  ℕ, zero, suc, Bool, true, false, Option, none, some, List, [], ◌∷◌, ◌++◌, contains, ltb, length,
  if◌then◌else◌,
}
use hwt_hls.Prelude.Result.{Result, ok, err, or_raise, ◌>>=◌, ◌>>◌, key_error, recursion_error}
use hwt_hls.Netlist.{HlsNetNodeOut, HlsNetNodeIn, HlsPipeline}
use hwt_hls.Hwt.{UniqListOps}
use hwt_hls.Graph.{add}
use hwt_hls.Analysis.Cluster.{
  same_port, has_port, has_input, InputsDict, Cluster, new_cluster, has_key, consystency_check,
  collect_predecesors_in_cluster,
}

abbrev pub inputs_at : InputsDict → HlsNetNodeOut → Option (List HlsNetNodeIn)
inputs_at [] o = none
inputs_at ((k, ins) ∷ rest) o = if same_port k o then some ins else inputs_at rest o

abbrev pub without_key : InputsDict → HlsNetNodeOut → InputsDict
without_key [] o = []
without_key ((k, ins) ∷ rest) o =
    let others = without_key rest o in if same_port k o then others else (k, ins) ∷ others

abbrev pub set_inputs : HlsNetNodeOut → List HlsNetNodeIn → InputsDict → InputsDict
set_inputs o new_ins [] = (o, new_ins) ∷ []
set_inputs o new_ins ((k, ins) ∷ rest) =
    if same_port k o then (k, new_ins) ∷ rest else (k, ins) ∷ set_inputs o new_ins rest

-- `updateOuterInputs`, where `outer_input_map` gives the port itself if it is not mapped
unfoldable pub update_each_input :
    (HlsNetNodeOut → HlsNetNodeOut)
    → List HlsNetNodeOut
    → InputsDict
    → Result (List HlsNetNodeOut × InputsDict)
update_each_input outer_input_map [] d = ok ([], d)
update_each_input outer_input_map (i ∷ is) d = elim (same_port (outer_input_map i) i) [
  | true ↦ do rest ← update_each_input outer_input_map is d; ok (i ∷ rest.0, rest.1)
  | false ↦ do
    ins ← or_raise key_error (inputs_at d i)
    rest ←
        update_each_input outer_input_map is (set_inputs (outer_input_map i) ins (without_key d i))
    ok (outer_input_map i ∷ rest.0, rest.1)
]

unfoldable pub update_outer_inputs : (HlsNetNodeOut → HlsNetNodeOut) → Cluster → Result Cluster
unfolding update_each_input
update_outer_inputs outer_input_map c = do
  r ← update_each_input outer_input_map c.inputs c.inputs_dict
  ok (record c { inputs = r.0; inputs_dict = r.1 })

abbrev pub add_port : HlsNetNodeOut → List HlsNetNodeOut → List HlsNetNodeOut
add_port o os = if has_port os o then os else os ++ o ∷ []

abbrev pub nodes_without : List ℕ → List ℕ → List ℕ
nodes_without removed [] = []
nodes_without removed (n ∷ ns) =
    let rest = nodes_without removed ns in if contains removed n then rest else n ∷ rest

abbrev pub inputs_of_nodes : List ℕ → List HlsNetNodeIn → List HlsNetNodeIn
inputs_of_nodes nodes [] = []
inputs_of_nodes nodes (i ∷ is) =
    let rest = inputs_of_nodes nodes is in if contains nodes i.obj then i ∷ rest else rest

abbrev pub is_no_input : List HlsNetNodeIn → Bool
is_no_input [] = true
is_no_input (i ∷ is) = false

-- the inputs of the nodes, in a cluster that has no entry for the port yet
unfoldable pub take_inputs : HlsNetNodeOut → List HlsNetNodeIn → Cluster → Cluster
take_inputs o ins c =
    if is_no_input ins
    then c
    else record c { inputs = c.inputs ++ o ∷ []; inputs_dict = c.inputs_dict ++ (o, ins) ∷ [] }

-- The loop over the inputs: each goes to the part, or both, where it is used.
unfoldable pub split_inputs :
    InputsDict → List HlsNetNodeOut → Cluster × Cluster → Result (Cluster × Cluster)
unfolding take_inputs
split_inputs d [] parts = ok parts
split_inputs d (o ∷ os) (own, pred) = do
  ins ← or_raise key_error (inputs_at d o)
  split_inputs d os (
    take_inputs o (inputs_of_nodes own.nodes ins) own,
    take_inputs o (inputs_of_nodes pred.nodes ins) pred,
  )

unfoldable pub split_outputs : List HlsNetNodeOut → Cluster × Cluster → Cluster × Cluster
split_outputs [] parts = parts
split_outputs (o ∷ os) (own, pred) =
    if contains own.nodes o.obj
    then split_outputs os (record own { outputs = add_port o own.outputs }, pred)
    else split_outputs os (own, record pred { outputs = add_port o pred.outputs })

abbrev pub put_new : HlsNetNodeOut → HlsNetNodeIn → InputsDict → InputsDict
put_new o i [] = (o, i ∷ []) ∷ []
put_new o i ((k, ins) ∷ rest) =
    if same_port k o
    then (k, (if has_input ins i then ins else ins ++ i ∷ [])) ∷ rest
    else (k, ins) ∷ put_new o i rest

abbrev pub is_input_at : InputsDict → HlsNetNodeOut → HlsNetNodeIn → Bool
is_input_at [] o i = false
is_input_at ((k, ins) ∷ rest) o i = if same_port k o then has_input ins i else is_input_at rest o i

-- The inputs of a node that are driven by the part that was cut off.
unfoldable pub cut_inputs : ℕ → ℕ → List HlsNetNodeOut → Cluster × Cluster → Cluster × Cluster
cut_inputs n in_i [] parts = parts
cut_inputs n in_i (dep ∷ deps) (own, pred) =
    if contains pred.nodes dep.obj
    then cut_inputs n (suc in_i) deps (
      record own {
        inputs = if has_key own.inputs_dict dep then own.inputs else own.inputs ++ dep ∷ [];
        inputs_dict = put_new dep (record { obj = n; in_i = in_i }) own.inputs_dict;
      },
      record pred {
        outputs =
            if is_input_at own.inputs_dict dep (record { obj = n; in_i = in_i })
            then pred.outputs
            else add_port dep pred.outputs;
      },
    )
    else cut_inputs n (suc in_i) deps (own, pred)

module _ (hls : HlsPipeline) where
  unfoldable pub cut_each : List ℕ → Cluster × Cluster → Cluster × Cluster
  unfolding cut_inputs
  cut_each [] parts = parts
  cut_each (n ∷ ns) parts = cut_each ns (cut_inputs n 0 (hls.node n).depends_on parts)

  module _ (nodes : List ℕ) where
    abbrev pub Visit : Type 0
    Visit = ℕ → List ℕ → Result (Bool × List ℕ)

    unfoldable pub uses_lead : Visit → ℕ → List HlsNetNodeIn → List ℕ → Result (Bool × List ℕ)
    uses_lead visit n [] seen = ok (false, seen)
    uses_lead visit n (u ∷ us) seen = elim (contains nodes u.obj) [
      | true ↦ if contains nodes n then uses_lead visit n us (add n seen) else ok (true, seen)
      | false ↦ elim (contains seen u.obj) [
        | true ↦ uses_lead visit n us seen
        | false ↦ do
          r ← visit u.obj seen
          elim r.0 [ true ↦ ok r | false ↦ uses_lead visit n us r.1 ]
      ]
    ]

    unfoldable pub outputs_lead :
        Visit → ℕ → List (List HlsNetNodeIn) → List ℕ → Result (Bool × List ℕ)
    unfolding uses_lead
    outputs_lead visit n [] seen = ok (false, seen)
    outputs_lead visit n (us ∷ rest) seen = do
      r ← uses_lead visit n us seen
      elim r.0 [ true ↦ ok r | false ↦ outputs_lead visit n rest r.1 ]

    -- `doesOutputLeadsToInputOfCluster`; the fuel is Python's recursion limit
    unfoldable pub does_output_leads_to_input_of_cluster : ℕ → Visit
    unfolding outputs_lead
    does_output_leads_to_input_of_cluster zero n seen = err recursion_error
    does_output_leads_to_input_of_cluster (suc limit) n seen =
        outputs_lead (does_output_leads_to_input_of_cluster limit) n (hls.node n).used_by
          (add n seen)

    unfoldable pub outputs_causing_loop : ℕ → List HlsNetNodeOut → Result (List HlsNetNodeOut)
    unfolding does_output_leads_to_input_of_cluster
    outputs_causing_loop limit [] = ok []
    outputs_causing_loop limit (o ∷ os) = do
      r ← does_output_leads_to_input_of_cluster limit o.obj []
      rest ← outputs_causing_loop limit os
      ok (if r.0 then o ∷ rest else rest)

    abbrev pub append_all : UniqListOps → List ℕ → List ℕ → List ℕ
    append_all l ns [] = ns
    append_all l ns (m ∷ ms) = append_all l (l.append ns m) ms

    -- the nodes of the part that is cut off
    unfoldable pub nodes_before : UniqListOps → ℕ → List HlsNetNodeOut → List ℕ → Result (List ℕ)
    unfolding collect_predecesors_in_cluster
    nodes_before l limit [] ns = ok ns
    nodes_before l limit (o ∷ os) ns = do
      preds ← collect_predecesors_in_cluster hls nodes limit o.obj
      nodes_before l limit os (append_all l ns preds)

  -- The cluster without the nodes of the part, and the part.
  unfoldable pub cut_cluster : List ℕ → Cluster → Result (Cluster × Cluster)
  unfolding split_inputs split_outputs cut_each
  cut_cluster before c = do
    let own = record new_cluster { nodes = nodes_without before c.nodes }
    parts ← split_inputs c.inputs_dict c.inputs (own, record new_cluster { nodes = before })
    ok (cut_each own.nodes (split_outputs c.outputs parts))

  -- `splitToPreventOuterCycles`, whose clusters are listed as they are yielded; `turns` is the fuel of
  -- its own recursion
  unfoldable pub split_to_prevent_outer_cycles :
      UniqListOps → ℕ → ℕ → Cluster → Result (List Cluster)
  unfolding consystency_check outputs_causing_loop nodes_before cut_cluster
  split_to_prevent_outer_cycles l limit zero c = err recursion_error
  split_to_prevent_outer_cycles l limit (suc turns) c = do
    consystency_check hls c
    looped ←
        (if ltb 1 (length c.outputs) then outputs_causing_loop c.nodes limit c.outputs else ok [])
    elim looped [
      | [] ↦ consystency_check hls c >> ok (c ∷ [])
      | o ∷ os ↦ do
        before ← nodes_before c.nodes l limit (o ∷ os) []
        parts ← cut_cluster before c
        consystency_check hls parts.0
        more ← split_to_prevent_outer_cycles l limit turns parts.1
        ok (more ++ parts.0 ∷ [])
    ]
