-- ===== src/Analysis.antt =====
-- The analyses of hwtHls/netlist/analysis, over a scheduled netlist.
pub mod Io
pub mod Fsm
pub mod Pipeline
pub mod Cluster
pub mod Consystency
