-- ===== src/Scheduler.antt =====
-- hwtHls/scheduler/scheduler.py, with `HlsNetNode.scheduleAsap` of hwtHls/netlist/nodes/node.py.
-- `Asap` is the recursive function and the loop over all nodes, `Check` the assertions afterwards.
pub mod State
pub mod Methods
pub mod Clocks
pub mod Ensures
pub mod Asap
pub mod Check
pub mod Alap
pub mod Compaction
pub mod IoLimit
pub mod Bitwise
