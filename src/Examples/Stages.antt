-- ===== src/Examples/Stages.antt =====
-- Channels with valid and with ready, and two conditions.
use hwt_hls.Prelude.{◌≡◌, refl, Bool, true, false, ◌||◌, [], ◌∷◌}
use hwt_hls.Prelude.Result.{ok}
use hwt_hls.Allocator.Stages.{
  Interface, SyncType, signal, vld_synced, rd_synced, resolve_strongest_sync_type, get_sync_type,
}
use hwt_hls.Allocator.Stages.Strongest.{
  has_valid, has_ready, any_of, resolve_strongest_sync_type-any_of,
}

abbrev interface : Bool → Bool → Interface
interface is_vld is_rd = record {
  is_handshake_sync = false;
  is_vld_synced = is_vld;
  is_rd_synced = is_rd;
  is_signal = true;
}

resolve_strongest_sync_type-any_of_example :
    (r : SyncType) × (resolve_strongest_sync_type signal
        (interface true false ∷ interface false true ∷ [])
      ≡ ok r)
    × (has_valid r ≡ has_valid signal || any_of has_valid (vld_synced ∷ rd_synced ∷ []))
    × (has_ready r ≡ has_ready signal || any_of has_ready (vld_synced ∷ rd_synced ∷ []))
unfolding get_sync_type
resolve_strongest_sync_type-any_of_example =
    resolve_strongest_sync_type-any_of signal (interface true false ∷ interface false true ∷ [])
      (vld_synced ∷ rd_synced ∷ []) (refl, (refl, tt))
