-- ===== src/Examples/Io.antt =====
-- Interface 7 is read twice and written once.
use hwt_hls.Prelude.{ℕ, zero, suc, ◌≡◌, refl, none, [], ◌∷◌, ◌++◌}
use hwt_hls.Prelude.Result.{ok}
use hwt_hls.Netlist.{read, HlsPipeline}
use hwt_hls.Analysis.Io.{IoDict, accesses_of, discover_io, joined, ops_on, accesses_of-discover_io}

abbrev io_of : ℕ → ℕ
io_of (suc zero) = 8
io_of _ = 7

abbrev reads : HlsPipeline
reads = record {
  normalized_clk_period = 10;
  inputs = 0 ∷ 1 ∷ 2 ∷ [];
  nodes = [];
  outputs = 3 ∷ [];
  node = λ n. record {
    kind = read;
    depends_on = [];
    used_by = [];
    in_cycles_offset = [];
    latency_pre = [];
    latency_post = [];
    cycles_latency = [];
  };
}

reads_found : discover_io io_of io_of reads [] ≡ ok ((7, 0 ∷ 2 ∷ 3 ∷ []) ∷ (8, 1 ∷ []) ∷ [])
unfolding discover_io
reads_found = refl

accesses_of-discover_io_example :
    (d : IoDict) × (discover_io io_of io_of reads [] ≡ ok d)
    × (accesses_of 7 d ≡ joined none (ops_on io_of 7 reads.inputs ++ ops_on io_of 7 reads.outputs))
accesses_of-discover_io_example = accesses_of-discover_io io_of io_of reads 7
