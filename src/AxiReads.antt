-- ===== src/AxiReads.antt =====
-- hwtHls/ssa/transformation/axiStreamReadLowering/readGraphDetector.py: which reads of a stream may
-- follow each other, at which offset in a word of the stream. `none` stands for the start of a frame.
pub mod Blocks
pub mod Start
use hwt_hls.Prelude.{
  ℕ, zero, suc, ◌+◌, ◌%◌, Bool, true, false, not, ◌&&◌, ◌||◌, Option, none, some, List, [], ◌∷◌,
  ◌++◌, map, length, contains, ltb, ◌==◌, if◌then◌else◌,
}
use hwt_hls.Prelude.Result.{
  Result, ok, err, or_raise, ◌>>=◌, key_error, type_error, recursion_error, not_implemented_error,
}
use hwt_hls.Graph.{add}

-- The word offset and the read that may follow.
abbrev pub Transitions : Type 0
Transitions = List (ℕ × ℕ)

abbrev pub has_transition : Transitions → ℕ → ℕ → Bool
has_transition [] off r = false
has_transition ((a, b) ∷ ts) off r = ((a == off) && (b == r)) || has_transition ts off r

abbrev pub same_read : Option ℕ → Option ℕ → Bool
same_read none none = true
same_read (some a) (some b) = a == b
same_read _ _ = false

abbrev pub ReadCfg : Type 0
ReadCfg = Option ℕ → Option Transitions

abbrev pub set_read : {A : Type 0} → (Option ℕ → A) → Option ℕ → A → Option ℕ → A
set_read f r a q = if same_read r q then a else f q

abbrev pub is_known_read : Option Transitions → Bool
is_known_read none = false
is_known_read (some ts) = true

abbrev pub or_empty : Option Transitions → Transitions
or_empty none = []
or_empty (some ts) = ts

-- The program and the reads in it. `bit_length` is the width of what a read reads, `is_end` whether it
-- is the last one of a frame.
pub record Reads : Type 0 where
  pub data_width : ℕ
  pub all_reads : List ℕ
  pub bit_length : ℕ → ℕ
  pub is_end : ℕ → Bool
  pub block : ℕ → ℕ
  pub body : ℕ → List ℕ
  pub successors : ℕ → List ℕ
  pub predecessors : ℕ → List ℕ

-- Where the scan of a block stands.
pub record Scan : Type 0 where
  pub cfg : ReadCfg
  pub predecessor : Option ℕ
  pub end_offset : ℕ
  pub end_was_modified : Bool

abbrev pub is_nil : List ℕ → Bool
is_nil [] = true
is_nil (x ∷ xs) = false

-- What a call leaves: the graph, and the set of its caller.
abbrev pub Detected : Type 0
Detected = ReadCfg × List ℕ

abbrev pub Detect : Type 0
Detect = Option ℕ → ℕ → ℕ → Detected → Result Detected

module _ (append_transition : Transitions → ℕ × ℕ → Transitions) (reads : Reads) where
  -- `addTransition`; the list of what follows `dst` is made anew
  unfoldable pub add_transition : Option ℕ → ℕ → ℕ → ReadCfg → ReadCfg
  add_transition src off dst cfg =
      set_read (set_read cfg src (some (append_transition (or_empty (cfg src)) (off, dst))))
        (some dst) (some [])

  abbrev pub after_read : ℕ → Scan → ReadCfg → Scan
  after_read r s cfg =
      if reads.is_end r
      then record { cfg = cfg; predecessor = none; end_offset = 0; end_was_modified = true }
      else record {
        cfg = cfg;
        predecessor = some r;
        end_offset = (s.end_offset + reads.bit_length r) % reads.data_width;
        end_was_modified = true;
      }

  -- The loop over the instructions of a block, and whether it returns from its middle.
  unfoldable pub scan_body : List ℕ → Scan → Result (Bool × Scan)
  unfolding add_transition
  scan_body [] s = ok (false, s)
  scan_body (i ∷ is) s = elim (contains reads.all_reads i) [
    | false ↦ scan_body is s
    | true ↦ do
      ts ←
          (if is_known_read (s.cfg (some i))
            then or_raise key_error (s.cfg s.predecessor)
            else ok [])
      elim (has_transition ts s.end_offset i) [
        | true ↦ ok (true, s)
        | false ↦ scan_body is (after_read i s (add_transition s.predecessor s.end_offset i s.cfg))
      ]
  ]

  -- the loop over the successors of a block
  unfoldable pub detect_each : Detect → Scan → ℕ → List ℕ → Detected → Result Detected
  detect_each visit s block [] d = ok d
  detect_each visit s block (b ∷ bs) (cfg, seen) = do
    d ←
        (if not (contains seen b) || ((b == block) && s.end_was_modified)
          then visit s.predecessor s.end_offset b (cfg, seen)
          else ok (cfg, seen))
    detect_each visit s block bs d

  -- After the scan of a block: where a read was found, a set that is not empty is replaced by a new one,
  -- and that of the caller stays as it is.
  unfoldable pub detect_after : Detect → ℕ → List ℕ → Bool × Scan → Result Detected
  unfolding detect_each
  detect_after visit block seen (true, s) = ok (s.cfg, seen)
  detect_after visit block seen (false, s) =
      if s.end_was_modified && not (is_nil seen)
      then (do
        d ← detect_each visit s block (reads.successors block) (s.cfg, block ∷ [])
        ok (d.0, seen))
      else detect_each visit s block (reads.successors block) (s.cfg, add block seen)

  -- `detectReadGraphs`; the fuel is Python's recursion limit
  unfoldable pub detect_read_graphs : ℕ → Detect
  unfolding scan_body detect_after
  detect_read_graphs zero pred off block (cfg, seen) = err recursion_error
  detect_read_graphs (suc limit) pred off block (cfg, seen) = do
    s ←
        scan_body (reads.body block)
          (record { cfg = cfg; predecessor = pred; end_offset = off; end_was_modified = false })
    detect_after (detect_read_graphs limit) block seen s

abbrev pub ReadOffsets : Type 0
ReadOffsets = (Option ℕ → List ℕ) × (Option ℕ → List (Option ℕ))

abbrev pub has_read : List (Option ℕ) → Option ℕ → Bool
has_read [] r = false
has_read (q ∷ qs) r = same_read q r || has_read qs r

-- the loop over the successors of a read; the predecessors are a UniqList
unfoldable pub add_offsets : Option ℕ → Transitions → ReadOffsets → ReadOffsets
add_offsets pred [] r = r
add_offsets pred ((off, suc_read) ∷ ts) (offsets, preds) = add_offsets pred ts (
  set_read offsets (some suc_read) (offsets (some suc_read) ++ off ∷ []),
  set_read preds (some suc_read) (
      if has_read (preds (some suc_read)) pred
      then preds (some suc_read)
      else preds (some suc_read) ++ pred ∷ []),
)

unfoldable pub add_all_offsets : ReadCfg → List (Option ℕ) → ReadOffsets → Result ReadOffsets
unfolding add_offsets
add_all_offsets cfg [] r = ok r
add_all_offsets cfg (pred ∷ preds) r = do
  ts ← or_raise key_error (cfg pred)
  add_all_offsets cfg preds (add_offsets pred ts r)

-- a value into a sorted list, once
abbrev pub insert_once : ℕ → List ℕ → List ℕ
insert_once a [] = a ∷ []
insert_once a (b ∷ bs) =
    let rest = insert_once a bs in
    if ltb a b then a ∷ b ∷ bs else if a == b then b ∷ bs else b ∷ rest

-- `sorted(set(v))`
unfoldable pub sorted_set : List ℕ → List ℕ
sorted_set [] = []
sorted_set (a ∷ rest) = insert_once a (sorted_set rest)

-- `resolvePossibleOffset`
unfoldable pub resolve_possible_offset : List ℕ → ReadCfg → Result ReadOffsets
unfolding add_all_offsets sorted_set
resolve_possible_offset all_reads cfg = do
  r ←
      add_all_offsets cfg (map some all_reads ++ none ∷ [])
        (set_read (λ q. []) none (0 ∷ []), λ q. [])
  ok (λ q. sorted_set (r.0 q), r.1)
