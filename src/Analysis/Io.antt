-- ===== src/Analysis/Io.antt =====
-- `HlsNetlistAnalysisPassDiscoverIo` (hwtHls/netlist/analysis/io.py): which nodes access which
-- interface. A dict is the list of its items, in the order of their insertion.
use hwt_hls.Prelude.{
  ℕ, ◌≡◌, refl, Bool, true, false, Option, none, some, List, [], ◌∷◌, ◌++◌, ◌==◌, if◌then◌else◌,
  sym, ap, ◌∙◌, append_assoc, append-nil, Bool-cases, inl, inr, arith,
}
use hwt_hls.Prelude.Result.{Result, ok, err, assertion_error}
use hwt_hls.Netlist.{HlsPipeline}

abbrev pub IoDict : Type 0
IoDict = List (ℕ × List ℕ)

-- `io_by_interface.get(intf)`
abbrev pub accesses_of : ℕ → IoDict → Option (List ℕ)
accesses_of i [] = none
accesses_of i ((k, ops) ∷ rest) = if k == i then some ops else accesses_of i rest

-- A turn of either loop: `op` joins the list of its interface, which is made where it is missing.
unfoldable pub add_op : ℕ → ℕ → IoDict → IoDict
add_op i op [] = (i, op ∷ []) ∷ []
add_op i op ((k, ops) ∷ rest) =
    if k == i then (k, ops ++ op ∷ []) ∷ rest else (k, ops) ∷ add_op i op rest

unfoldable pub add_ops : (ℕ → ℕ) → List ℕ → IoDict → IoDict
unfolding add_op
add_ops interface [] d = d
add_ops interface (op ∷ ops) d = add_ops interface ops (add_op (interface op) op d)

-- `src` and `dst` give the interface of a read and of a write.
unfoldable pub discover_io : (src dst : ℕ → ℕ) → HlsPipeline → IoDict → Result IoDict
unfolding add_ops
discover_io src dst hls [] = ok (add_ops dst hls.outputs (add_ops src hls.inputs []))
discover_io src dst hls (item ∷ d) = err assertion_error

-- The operations of one interface, in order.
abbrev pub ops_on : (ℕ → ℕ) → ℕ → List ℕ → List ℕ
ops_on interface i [] = []
ops_on interface i (op ∷ ops) =
    let rest = ops_on interface i ops in if interface op == i then op ∷ rest else rest

-- The list that is there, and what joins it; a list without members is not made.
abbrev pub joined : Option (List ℕ) → List ℕ → Option (List ℕ)
joined none [] = none
joined none (op ∷ ops) = some (op ∷ ops)
joined (some before) ops = some (before ++ ops)

joined-joined :
    (o : Option (List ℕ)) (xs ys : List ℕ) → joined (joined o xs) ys ≡ joined o (xs ++ ys)
joined-joined none [] ys = refl
joined-joined none (x ∷ xs) ys = refl
joined-joined (some before) xs ys = ap some (append_assoc before xs ys)

joined-nil : (o : Option (List ℕ)) → joined o [] ≡ o
joined-nil none = refl
joined-nil (some before) = ap some (append-nil before)

accesses_of-add_op :
    (i j op : ℕ) (d : IoDict)
    → accesses_of i (add_op j op d) ≡ joined (accesses_of i d) (if j == i then op ∷ [] else [])
unfolding add_op
accesses_of-add_op i j op [] = ground arith
accesses_of-add_op i j op ((k, ops) ∷ rest) = elim (Bool-cases (k == j)) [
  | inl e ↦ rw e (ground (arith, joined-nil (accesses_of i rest), append-nil ops))
  | inr e ↦ rw e (ground (arith, append-nil ops, accesses_of-add_op i j op rest))
]

accesses_of-add_ops :
    (interface : ℕ → ℕ) (i : ℕ) (ops : List ℕ) (d : IoDict)
    → accesses_of i (add_ops interface ops d) ≡ joined (accesses_of i d) (ops_on interface i ops)
unfolding add_ops
accesses_of-add_ops interface i [] d = sym (joined-nil (accesses_of i d))
accesses_of-add_ops interface i (op ∷ ops) d =
    accesses_of-add_ops interface i ops (add_op (interface op) op d)
    ∙ ap (λ o. joined o (ops_on interface i ops)) (accesses_of-add_op i (interface op) op d)
    ∙ joined-joined (accesses_of i d) (if interface op == i then op ∷ [] else [])
        (ops_on interface i ops)
    ∙ ap (joined (accesses_of i d)) (one_more (interface op == i) op (ops_on interface i ops))
  where
    one_more :
        (b : Bool) (op : ℕ) (ops : List ℕ)
        → ((if b then op ∷ [] else []) ++ ops) ≡ (if b then op ∷ ops else ops)
    one_more true op ops = refl
    one_more false op ops = refl

-- `run` of the discovery of IOs returns, and what it has for an interface are the inputs that
-- read it and then the outputs that write it, in their order; it has no entry where there are
-- none.
pub accesses_of-discover_io :
    (src dst : ℕ → ℕ) (hls : HlsPipeline) (i : ℕ)
    → (d : IoDict) × (discover_io src dst hls [] ≡ ok d)
      × (accesses_of i d ≡ joined none (ops_on src i hls.inputs ++ ops_on dst i hls.outputs))
unfolding discover_io
accesses_of-discover_io src dst hls i = (
  _,
  refl,
  accesses_of-add_ops dst i hls.outputs (add_ops src hls.inputs [])
      ∙ ap (λ o. joined o (ops_on dst i hls.outputs)) (accesses_of-add_ops src i hls.inputs [])
      ∙ joined-joined none (ops_on src i hls.inputs) (ops_on dst i hls.outputs),
)
