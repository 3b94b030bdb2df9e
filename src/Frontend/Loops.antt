-- ===== src/Frontend/Loops.antt =====
-- The loops of the bytecode (hwtHls/ssa/translation/fromPython/loopsDetect.py), with those inside of
-- them. A block label is a number, 0 is the one of the first block; the strongly connected components of
-- networkx are a parameter. The fuel is Python's recursion limit.
use hwt_hls.Prelude.{
  ℕ, zero, suc, Bool, true, false, not, ◌||◌, Option, none, some, List, [], ◌∷◌, ◌++◌, contains,
  ◌==◌, if◌then◌else◌,
}
use hwt_hls.Prelude.Result.{
  Result, ok, err, require, ◌>>=◌, ◌>>◌, assertion_error, index_error, recursion_error,
}
use hwt_hls.Graph.{add}
use hwt_hls.Frontend.Predecessors.{DiGraph}

pub record PyBytecodeLoop : Type 0 where
  pub entry_point : ℕ
  pub all_blocks : List ℕ
  pub backedges : List ℕ

abbrev pub only_in : List ℕ → List ℕ → List ℕ
only_in loop [] = []
only_in loop (b ∷ bs) = let rest = only_in loop bs in if contains loop b then b ∷ rest else rest

abbrev pub set_of : List ℕ → List ℕ
set_of [] = []
set_of (b ∷ bs) = add b (set_of bs)

-- `detectBackedges`
unfoldable pub detect_backedges : DiGraph → List ℕ → ℕ → List ℕ
detect_backedges cfg loop entry_point = set_of (only_in loop (cfg.predecessors entry_point))

abbrev pub is_loop : DiGraph → List ℕ → Result Bool
is_loop cfg [] = err index_error
is_loop cfg (b ∷ []) = ok (contains (cfg.predecessors b) b)
is_loop cfg (b ∷ c ∷ bs) = ok true

-- The loops that look for the entry: every edge from outside must be the first one.
unfoldable pub entry_by : List ℕ → ℕ → List ℕ → Option ℕ → Result (Option ℕ)
entry_by loop b [] entry = ok entry
entry_by loop b (pred ∷ preds) entry = elim (contains loop pred) [
  | true ↦ entry_by loop b preds entry
  | false ↦ elim entry [ none ↦ entry_by loop b preds (some b) | some e ↦ err assertion_error ]
]

unfoldable pub find_entry : DiGraph → List ℕ → List ℕ → Option ℕ → Result (Option ℕ)
unfolding entry_by
find_entry cfg loop [] entry = ok entry
find_entry cfg loop (b ∷ bs) entry = do
  entry' ← entry_by loop b (cfg.predecessors b) entry
  find_entry cfg loop bs entry'

abbrev pub entry_or_first : List ℕ → Option ℕ → Result ℕ
entry_or_first loop (some e) = ok e
entry_or_first loop none = do require (contains loop 0) assertion_error; ok 0

abbrev pub without_label : ℕ → List ℕ → List ℕ
without_label n [] = []
without_label n (m ∷ ms) = let rest = without_label n ms in if m == n then rest else m ∷ rest

-- The subgraph of a loop without the edges back to its entry.
unfoldable pub loop_body : DiGraph → List ℕ → ℕ → DiGraph
loop_body cfg loop entry = record {
  nodes = only_in loop cfg.nodes;
  predecessors =
      λ b. if (b == entry) || not (contains loop b) then [] else only_in loop (cfg.predecessors b);
  successors =
      λ b. if contains loop b then without_label entry (only_in loop (cfg.successors b)) else [];
}

module _ (components : DiGraph → List (List ℕ)) where
  abbrev pub Detect : Type 0
  Detect = DiGraph → Result (List PyBytecodeLoop)

  -- a loop, and the ones inside of it
  unfoldable pub detect_nested : Detect → DiGraph → List ℕ → Result (List PyBytecodeLoop)
  unfolding find_entry detect_backedges loop_body
  detect_nested visit cfg loop = do
    found ← find_entry cfg loop loop none
    entry ← entry_or_first loop found
    nested ← visit (loop_body cfg loop entry)
    ok (
        record {
          entry_point = entry;
          all_blocks = loop;
          backedges = detect_backedges cfg loop entry;
        }
        ∷ nested)

  unfoldable pub detect_in : Detect → DiGraph → List (List ℕ) → Result (List PyBytecodeLoop)
  unfolding detect_nested
  detect_in visit cfg [] = ok []
  detect_in visit cfg (loop ∷ rest) = do
    here ← is_loop cfg loop
    first ← (if here then detect_nested visit cfg loop else ok [])
    more ← detect_in visit cfg rest
    ok (first ++ more)

  -- `detectLoops`
  unfoldable pub detect_loops : ℕ → Detect
  unfolding detect_in
  detect_loops zero cfg = err recursion_error
  detect_loops (suc limit) cfg = detect_in (detect_loops limit) cfg (components cfg)
