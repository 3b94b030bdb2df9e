-- ===== src/Allocator/Stages/Strongest.antt =====
-- The strongest synchronization as a least upper bound.
use hwt_hls.Prelude.{◌≡◌, refl, Bool, true, false, ◌||◌, List, [], ◌∷◌, arith}
use hwt_hls.Prelude.Result.{ok}
use hwt_hls.Allocator.Stages.{
  Interface, SyncType, signal, vld_synced, rd_synced, handshaked, get_sync_type, stronger,
  resolve_strongest_sync_type,
}

-- What a synchronization can do: to tell that data is there, and to stop the sender.
abbrev pub has_valid : SyncType → Bool
has_valid signal = false
has_valid vld_synced = true
has_valid rd_synced = false
has_valid handshaked = true

abbrev pub has_ready : SyncType → Bool
has_ready signal = false
has_ready vld_synced = false
has_ready rd_synced = true
has_ready handshaked = true

stronger_both :
    (a b : SyncType)
    → (has_valid (stronger a b) ≡ has_valid a || has_valid b)
      × (has_ready (stronger a b) ≡ has_ready a || has_ready b)
unfolding stronger
stronger_both signal signal = (refl, refl)
stronger_both signal vld_synced = (refl, refl)
stronger_both signal rd_synced = (refl, refl)
stronger_both signal handshaked = (refl, refl)
stronger_both vld_synced signal = (refl, refl)
stronger_both vld_synced vld_synced = (refl, refl)
stronger_both vld_synced rd_synced = (refl, refl)
stronger_both vld_synced handshaked = (refl, refl)
stronger_both rd_synced signal = (refl, refl)
stronger_both rd_synced vld_synced = (refl, refl)
stronger_both rd_synced rd_synced = (refl, refl)
stronger_both rd_synced handshaked = (refl, refl)
stronger_both handshaked signal = (refl, refl)
stronger_both handshaked vld_synced = (refl, refl)
stronger_both handshaked rd_synced = (refl, refl)
stronger_both handshaked handshaked = (refl, refl)

-- The channel `op` is of the type `t`.
abbrev pub AreTypes : List Interface → List SyncType → Type 0
AreTypes [] [] = Unit
AreTypes (op ∷ ops) (t ∷ ts) = (get_sync_type op ≡ ok t) × AreTypes ops ts
AreTypes _ _ = ⊥

abbrev pub any_of : (SyncType → Bool) → List SyncType → Bool
any_of f [] = false
any_of f (t ∷ ts) = f t || any_of f ts

-- If all channels have a type of synchronization, resolving the strongest one returns a type
-- with a valid signal exactly if the current type or some channel has one, and with a ready
-- signal exactly if the current type or some channel has one.
pub resolve_strongest_sync_type-any_of :
    (current : SyncType) (ops : List Interface) (ts : List SyncType)
    → AreTypes ops ts
    → (r : SyncType) × (resolve_strongest_sync_type current ops ≡ ok r)
      × (has_valid r ≡ has_valid current || any_of has_valid ts)
      × (has_ready r ≡ has_ready current || any_of has_ready ts)
unfolding resolve_strongest_sync_type
resolve_strongest_sync_type-any_of current [] [] h = (current, refl, ground arith, ground arith)
resolve_strongest_sync_type-any_of current [] (t ∷ ts) h = absurd h
resolve_strongest_sync_type-any_of current (op ∷ ops) [] h = absurd h
resolve_strongest_sync_type-any_of current (op ∷ ops) (t ∷ ts) (e, hs) =
    let (r, f, v, w) = resolve_strongest_sync_type-any_of (stronger current t) ops ts hs in
    let (a, b) = stronger_both current t in (r, rw e f, ground arith, ground arith)
