-- ===== src/Scheduler/IoLimit.antt =====
-- How many operations on one interface a clock period may have: `_getNumberOfIoInThisClkPeriod` and
-- what `scheduleAsap` and `scheduleAlapCompaction` of HlsNetNodeRead and HlsNetNodeWrite
-- (hwtHls/netlist/nodes/io.py) add to those of HlsNetNode. Both passes have integer times here.
pub mod Moves
use hwt_hls.Prelude.{
  ℕ, zero, suc, ◌+◌, Bool, true, false, not, ◌&&◌, ◌||◌, Option, none, some, List, [], ◌∷◌, map,
  get_elem?, ltb, leb, ◌==◌, if◌then◌else◌,
}
use hwt_hls.Prelude.Int.{ℤ, pos, negsuc, ◌+ℤ◌, ◌-ℤ◌, leb_ℤ}
use hwt_hls.Prelude.Result.{
  Result, ok, err, index, or_raise, require, ◌>>=◌, ◌>>◌, recursion_error, index_error,
  assertion_error,
}
use hwt_hls.Clock.Signed.{start_clk_int, start_of_next_clk_period_int}
use hwt_hls.Netlist.{HlsNetNodeOut, HlsNetNodeIn, NodeKind, read, write, explicit_sync, HlsPipeline}
use hwt_hls.Scheduler.Alap.{Times}

-- `isinstance(n, HlsNetNodeExplicitSync)`, of which reads and writes are subclasses
abbrev pub is_explicit_sync : NodeKind → Bool
is_explicit_sync read = true
is_explicit_sync write = true
is_explicit_sync explicit_sync = true
is_explicit_sync _ = false

abbrev pub is_read : NodeKind → Bool
is_read read = true
is_read _ = false

abbrev pub same_clk : ℤ → ℤ → Bool
same_clk a b = leb_ℤ a b && leb_ℤ b a

abbrev pub larger : ℕ → ℕ → ℕ
larger a b = if leb a b then b else a

-- What an IO node has besides the fields of every node: its interface (`src` or `dst`), the indexes
-- of its ordering inputs (`iterOrderingInputs`) and of its ordering output.
pub record IoNodes : Type 0 where
  pub intf : ℕ → ℕ
  pub ordering_inputs : ℕ → List ℕ
  pub ordering_output : ℕ → ℕ
  pub max_ios_per_clk : ℕ → ℕ

module _ (hls : HlsPipeline) (io : IoNodes) (sched : ℕ → Times) where
  -- The clock period of an IO: a read happens when its data comes out, a write when it goes in.
  unfoldable pub io_clk : ℕ → Result ℤ
  io_clk n = do
    t ←
        index
          (if is_read (hls.node n).kind then (sched n).scheduled_out else (sched n).scheduled_in) 0
    ok (start_clk_int t hls.normalized_clk_period)

  -- A neighbour in the ordering, with the time of its port.
  abbrev pub neighbour_of_input : ℕ → ℕ → Result (ℕ × ℤ)
  neighbour_of_input n in_i = do
    dep ← index (hls.node n).depends_on in_i
    require (is_explicit_sync (hls.node dep.obj).kind) assertion_error
    t ← index (sched dep.obj).scheduled_out dep.out_i
    ok (dep.obj, t)

  abbrev pub neighbour_of_use : HlsNetNodeIn → Result (ℕ × ℤ)
  neighbour_of_use u = do
    require (is_explicit_sync (hls.node u.obj).kind) assertion_error
    t ← index (sched u.obj).scheduled_in u.in_i
    ok (u.obj, t)

  -- The loop over the neighbours; `count` is the recursive call.
  unfoldable pub count_neighbours : (ℕ → Result ℕ) → ℤ → ℕ → List (Result (ℕ × ℤ)) → Result ℕ
  count_neighbours count this_clk io_cnt [] = ok io_cnt
  count_neighbours count this_clk io_cnt (r ∷ rest) = do
    neighbour ← r
    cnt ←
        (if same_clk (start_clk_int neighbour.1 hls.normalized_clk_period) this_clk
          then count neighbour.0
          else ok 0)
    count_neighbours count this_clk (larger io_cnt cnt) rest

  unfoldable pub ordering_neighbours : Bool → ℕ → Result (List (Result (ℕ × ℤ)))
  ordering_neighbours true n = ok (map (neighbour_of_input n) (io.ordering_inputs n))
  ordering_neighbours false n = do
    uses ← index (hls.node n).used_by (io.ordering_output n)
    ok (map neighbour_of_use uses)

  -- `_getNumberOfIoInThisClkPeriod`; the fuel is Python's recursion limit
  unfoldable pub number_of_io : Bool → ℕ → ℕ → ℕ → Result ℕ
  unfolding io_clk count_neighbours ordering_neighbours
  number_of_io from_src zero intf n = err recursion_error
  number_of_io from_src (suc limit) intf n = do
    this_clk ← io_clk n
    neighbours ← ordering_neighbours from_src n
    io_cnt ← count_neighbours (number_of_io from_src limit intf) this_clk 0 neighbours
    ok (if io.intf n == intf then io_cnt + 1 else io_cnt)

abbrev pub shift_times : ℤ → Times → Times
shift_times off v = record {
  scheduled_in = map (λ t. t +ℤ off) v.scheduled_in;
  scheduled_out = map (λ t. t +ℤ off) v.scheduled_out;
}

-- to the start of the next clock period, from the first input
unfoldable pub move_to_next_clk : ℕ → Times → Result Times
unfolding start_of_next_clk_period_int
move_to_next_clk clk_period v = do
  t ← index v.scheduled_in 0
  ok (shift_times (start_of_next_clk_period_int t clk_period -ℤ t) v)

-- what `scheduleAsap` of an IO node does after that of HlsNetNode
unfoldable pub limit_io_asap : HlsPipeline → IoNodes → (ℕ → Times) → ℕ → ℕ → Result Times
unfolding number_of_io move_to_next_clk
limit_io_asap hls io sched limit n = do
  cnt ← number_of_io hls io sched true limit (io.intf n) n
  (if ltb (io.max_ios_per_clk n) cnt
      then move_to_next_clk hls.normalized_clk_period (sched n)
      else ok (sched n))

-- `self.scheduledIn[0] if self.scheduledIn else self.scheduledOut[0]`
unfoldable pub first_port_time : Times → Result ℤ
first_port_time v = elim v.scheduled_in [ [] ↦ index v.scheduled_out 0 | t ∷ ts ↦ ok t ]

-- to the end of the previous clock period, without the time to store the value
unfoldable pub move_to_previous_clk : (clk_period ffdelay : ℕ) → Times → Result Times
unfolding first_port_time start_of_next_clk_period_int
move_to_previous_clk clk_period ffdelay v = do
  t ← first_port_time v
  ok (
      shift_times (start_of_next_clk_period_int t clk_period -ℤ t -ℤ pos clk_period -ℤ pos ffdelay)
        v)

-- the loop of `scheduleAlapCompaction` of an IO node, on fuel
unfoldable pub limit_io_alap :
    HlsPipeline → IoNodes → ℕ → (ℕ → Times) → ℕ → ℕ → ℕ → Result (ℕ → Times)
unfolding number_of_io move_to_previous_clk
limit_io_alap hls io ffdelay sched limit n zero = err recursion_error
limit_io_alap hls io ffdelay sched limit n (suc turns) = do
  cnt ← number_of_io hls io sched false limit (io.intf n) n
  (elim (ltb (io.max_ios_per_clk n) cnt) [
    | false ↦ ok sched
    | true ↦ do
      v ← move_to_previous_clk hls.normalized_clk_period ffdelay (sched n)
      limit_io_alap hls io ffdelay (λ m. if n == m then v else sched m) limit n turns
  ])
