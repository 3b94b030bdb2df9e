-- ===== src/Frontend.antt =====
-- The frontend for Python bytecode, hwtHls/ssa/translation/fromPython.
pub mod Predecessors
pub mod Bytecode
pub mod Loops
