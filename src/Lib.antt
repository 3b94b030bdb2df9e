-- ===== src/Lib.antt =====
-- hwtHls turns a program into a netlist of operations, puts every operation into a clock period, and
-- builds the registers and the control for it. This library models its core on the netlist.
--
-- The parts and their files:
-- * Clock models hwtHls/clk_math.py: `start_clk` and `start_of_next_clk_period`. The times of the
--   scheduler are integers, so that the floating point epsilon, which is added before the division,
--   changes nothing. Clock/Signed is for times that may lie before 0.
-- * Netlist has the nodes and ports of hwtHls/netlist/nodes/node.py and ports.py and the lists of
--   hwtHls/hlsPipeline.py. A node is named by its `_id`; the heap of nodes is a function.
-- * Scheduler/State is the schedule, and code that changes it and may raise. Scheduler/Asap models
--   `scheduleAsap` of hwtHls/netlist/nodes/node.py and `_scheduleAsap` of
--   hwtHls/scheduler/scheduler.py, Scheduler/Check the check behind it, and Scheduler/Alap
--   `scheduleAlapCompaction`. Scheduler/Ensures is the rule for such code that the proofs use: each of
--   them is one induction over the recursion, with an invariant of the schedule. The recursion of both
--   passes is that of HlsNetNode's own method on every node: it does not call the overrides of reads,
--   writes and clusters, and Scheduler/Methods tells the nodes without an override.
--   Scheduler/Compaction is the pass around the latter, `_scheduleAlapCompaction`, and
--   Scheduler/Clocks is `iterScheduledClocks`. Scheduler/IoLimit is what
--   hwtHls/netlist/nodes/io.py adds to both passes, so that no more operations on an interface share a
--   clock period than it allows. Scheduler/Bitwise is the cluster of bitwise operators of
--   hwtHls/netlist/nodes/aggregatedBitwiseOps.py, which has both passes of its own; a node outside of
--   the cluster is scheduled by a parameter. The realization of an operator is a value, so that what
--   the code writes into one that the platform has cached is not seen by others.
-- * Graph is the recursive walk over a graph that several passes write, and Dce models `apply` of
--   hwtHls/netlist/transformation/dce.py with it.
-- * Blocks models hwtHls/ssa/transformation/utils/blockAnalysis.py with the same walk.
-- * Concat models hwtHls/ssa/transformation/utils/concatOfSlices.py; the values that are sliced are a
--   parameter.
-- * Allocator models hwtHls/allocator/time_independent_rtl_resource.py, which uses Clock;
--   Allocator/Persistence tells in which clock periods a value persists.
--   Allocator/Stages models the parts of hwtHls/allocator/connectionsOfStage.py that make no RTL of
--   their own, over any type of signals that has the operators, and Allocator/Synonyms the synonyms of
--   ports of hwtHls/allocator/interArchElementNodeSharingAnalysis.py.
-- * Analysis models the analyses of hwtHls/netlist/analysis: Io is io.py, which groups the operations
--   by interface; Fsm is fsm.py, which builds a state machine for an interface that has several;
--   Pipeline is the stages of pipeline.py; Cluster is clusterSearch.py, with Cluster/Cycles for the
--   split of a cluster at outer cycles; Consystency is consystencyCheck.py. A generator is the list of what it yields.
-- * Ssa models hwtHls/ssa/instr.py, hwtHls/ssa/phi.py and hwtHls/ssa/basicBlock.py on a store of
--   objects; Hwt is the list without duplicates of hwt that keeps the users of a value, a parameter.
--   On that store, Ssa/Liveness is hwtHls/ssa/analysis/liveness.py, Ssa/Threads is threadMining.py
--   and Ssa/SyncType is blockSyncType.py, which asks Ssa/Threads for the threads of the blocks and
--   Ssa/Liveness for the live values of the edges. Ssa/Builder is hwtHls/ssa/exprBuilder.py, and
--   Ssa/Memory is hwtHls/ssa/translation/fromAst/memorySSAUpdater.py, which makes the phis.
--   Ssa/Consystency is hwtHls/ssa/analysis/consystencyCheck.py.
-- * Netlist/OpCache is hwtHls/ssa/translation/toHwtHlsNetlist/opCache.py with the placeholders for
--   outputs of hwtHls/netlist/nodes/ports.py.
-- * AxiReads models hwtHls/ssa/transformation/axiStreamReadLowering/readGraphDetector.py.
-- * Frontend/Predecessors models hwtHls/ssa/translation/fromPython/blockPredecessorTracker.py, and
--   Frontend/Bytecode and Frontend/Loops model bytecodeBlockAnalysis.py and loopsDetect.py beside it.
-- * Prelude has what all of them share: tests, lists, windows of a list, integers, raised errors.
--   Examples has one run of each.
--
-- A recursion of the program takes Python's recursion limit as its fuel and raises RecursionError
-- where the fuel is out, as Python does; that a limit is enough is proved from a rank of the nodes, or
-- from a bound on their number. Loops that the code does not bound (the initializations of
-- Ssa/SyncType, the replaced phis of Ssa/Builder) have a fuel of their own. Code of the schedulers that
-- raises keeps what it wrote before; elsewhere the state of a run that raises is left out.
--
-- Not modelled: what hwt, LLVM and the platform do, the delays in float before they are normalized,
-- the substitution of clusters and their parts, the walk over the instructions that makes the netlist,
-- the copies of loop bodies and the rest of the frontends, and the RTL that the allocator builds around
-- the register chains.
mod Prelude
pub mod Clock
pub mod Netlist
pub mod Scheduler
pub mod Concat
pub mod Graph
pub mod Dce
pub mod Blocks
pub mod Allocator
pub mod Analysis
pub mod Hwt
pub mod Ssa
pub mod Frontend
pub mod AxiReads
mod Examples
