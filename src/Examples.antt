-- ===== src/Examples.antt =====
-- Small inputs for the modules above: what the operations do on them, and the theorems at them.
mod Asap
mod Dce
mod Concat
mod Alap
mod Allocator
mod Blocks
mod UniqLists
mod Ssa
mod Cluster
mod Fsm
mod Io
mod Stages
mod Predecessors
mod IoLimit
mod Liveness
mod Compaction
mod Synonyms
mod Consystency
mod AxiReads
mod Bytecode
mod Bitwise
mod Builder
mod OpCache
mod Memory
mod SyncType
mod Threads
