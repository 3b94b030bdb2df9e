-- ===== src/Examples/Consystency.antt =====
-- The chain of three nodes has its links in both directions.
use mathlib.Core.List.Memᴰ
use hwt_hls.Prelude.{◌≡◌, refl}
use hwt_hls.Prelude.Result.{ok}
use hwt_hls.Analysis.Consystency.{check_consystency}
use hwt_hls.Analysis.Consystency.Links.{IsLinked, check_consystency-IsLinked}
use hwt_hls.Examples.Cluster.{chain}

chain_checked : check_consystency chain ≡ ok tt
unfolding check_consystency
chain_checked = refl

check_consystency-IsLinked_example : IsLinked chain 1
check_consystency-IsLinked_example =
    check_consystency-IsLinked chain chain_checked 1 (Memᴰ.tail (Memᴰ.head refl))
