-- ===== src/Examples/Dce.antt =====
-- A netlist with a write, the constant that it writes, and a constant that nothing uses.
use mathlib.Core.List.Memᴰ
use hwt_hls.Prelude.{ℕ, zero, suc, ◌<◌, ◌≡◌, ◌↔◌, refl, [], ◌∷◌, All, arith}
use hwt_hls.Prelude.Result.{ok}
use hwt_hls.Netlist.{HlsNetNode, HlsPipeline, write, const_node, iter_all_nodes}
use hwt_hls.Graph.Walks.{In}
use hwt_hls.Dce.{drivers, remove_unused, apply}
use hwt_hls.Dce.Live.{
  IsClosed, IsLive, apply-IsLive, apply-depends_on, apply_leaves_io, apply_returns,
}

abbrev constant : HlsNetNode
constant = record {
  kind = const_node;
  depends_on = [];
  used_by = (record { obj = 2; in_i = 0 } ∷ []) ∷ [];
  in_cycles_offset = [];
  latency_pre = [];
  latency_post = 0 ∷ [];
  cycles_latency = 0 ∷ [];
}

abbrev unused : HlsNetNode
unused = record constant { used_by = [] ∷ [] }

abbrev writer : HlsNetNode
writer = record {
  kind = write;
  depends_on = record { obj = 0; out_i = 0 } ∷ [];
  used_by = [];
  in_cycles_offset = 0 ∷ [];
  latency_pre = 0 ∷ [];
  latency_post = [];
  cycles_latency = [];
}

abbrev sample_node : ℕ → HlsNetNode
sample_node zero = constant
sample_node (suc zero) = unused
sample_node (suc (suc zero)) = writer
sample_node _ = unused

abbrev sample : HlsPipeline
sample = record {
  normalized_clk_period = 10;
  inputs = [];
  nodes = 0 ∷ 1 ∷ [];
  outputs = 2 ∷ [];
  node = sample_node;
}

abbrev swept : HlsPipeline
swept = remove_unused sample (0 ∷ 2 ∷ [])

swept_nodes : swept.nodes ≡ 0 ∷ []
unfolding remove_unused
swept_nodes = refl

apply-sample : apply sample 4 ≡ ok swept
unfolding apply
apply-sample = refl

sample-IsClosed : IsClosed sample
sample-IsClosed zero m h k = absurd (Memᴰ.not-nil k)
sample-IsClosed (suc zero) m h k = absurd (Memᴰ.not-nil k)
sample-IsClosed (suc (suc zero)) m h k = let same : m ≡ 0 = Memᴰ.eq_of_singleton k in rw same refl
sample-IsClosed (suc (suc (suc n))) m h k = absurd (Memᴰ.not-nil k)

sample_below : (n : ℕ) → In n (iter_all_nodes sample) → n < 3
sample_below n h = ground arith

sample_bounded : (n : ℕ) → n < 3 → All (λ m. m < 3) (drivers sample n)
sample_bounded zero h = tt
sample_bounded (suc zero) h = tt
sample_bounded (suc (suc zero)) h = (omega arith, tt)
sample_bounded (suc (suc (suc n))) h = tt

apply-IsLive_example : In 0 swept.nodes ↔ (In 0 sample.nodes × IsLive sample 0)
apply-IsLive_example = apply-IsLive sample sample-IsClosed 4 swept 0 apply-sample

apply-depends_on_example : (swept.node 0).depends_on ≡ []
unfolding remove_unused
apply-depends_on_example = apply-depends_on sample sample-IsClosed 4 swept 0 apply-sample refl

apply_leaves_io_example : swept.node 2 ≡ writer
apply_leaves_io_example = apply_leaves_io sample sample-IsClosed 4 swept 2 apply-sample refl

apply_returns_example : (r : HlsPipeline) × (apply sample 4 ≡ ok r)
apply_returns_example =
    apply_returns sample sample-IsClosed 3 3 sample_below sample_bounded (omega arith)
