-- ===== src/Scheduler/Asap/Inputs.antt =====
-- What holds of the drivers and the delays of a node holds of its inputs.
use hwt_hls.Prelude.{ℕ, List, [], ◌∷◌, All}
use hwt_hls.Netlist.{HlsNetNodeOut}
use hwt_hls.Scheduler.Asap.{InputTiming, zip_inputs}

pub zip_inputs-All :
    (P : InputTiming → Type 0) (D : HlsNetNodeOut → Type 0) (L : ℕ → Type 0)
    (ds : List HlsNetNodeOut) (ls cs : List ℕ)
    → ((i : InputTiming) → D i.dep → L i.in_delay → P i)
    → All D ds
    → All L ls
    → All P (zip_inputs ds ls cs)
unfolding zip_inputs
zip_inputs-All P D L [] ls cs f d l = tt
zip_inputs-All P D L (d ∷ ds) [] cs f h k = tt
zip_inputs-All P D L (d ∷ ds) (l ∷ ls) [] f h k = tt
zip_inputs-All P D L (d ∷ ds) (l ∷ ls) (c ∷ cs) f (h, hs) (k, ks) =
    (f (record { dep = d; in_delay = l; in_cycles = c }) h k, zip_inputs-All P D L ds ls cs f hs ks)
