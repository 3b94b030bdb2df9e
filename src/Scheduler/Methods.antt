-- ===== src/Scheduler/Methods.antt =====
-- Which nodes are scheduled by `scheduleAsap` and `scheduleAlapCompaction` of `HlsNetNode` themselves:
-- reads and writes (hwtHls/netlist/nodes/io.py) and clusters of bitwise operators
-- (hwtHls/netlist/nodes/aggregatedBitwiseOps.py) override both.
use hwt_hls.Prelude.{ℕ, ◌≡◌, Bool, true, false}
use hwt_hls.Netlist.{NodeKind, read, write, bitwise_ops, HlsPipeline}

abbrev pub inherits_scheduling : NodeKind → Bool
inherits_scheduling read = false
inherits_scheduling write = false
inherits_scheduling bitwise_ops = false
inherits_scheduling _ = true

-- No node overrides the two methods.
abbrev pub IsPlain : HlsPipeline → Type 0
IsPlain hls = (n : ℕ) → inherits_scheduling (hls.node n).kind ≡ true
