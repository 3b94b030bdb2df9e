-- ===== src/Allocator/Stages.antt =====
-- The parts of hwtHls/allocator/connectionsOfStage.py that do not build RTL: which synchronization the
-- channels of a stage need, the condition of an extra synchronization, and the signals of a stage. An
-- RTL expression is a value of a type with the operations that hwt gives it.
pub mod Strongest
pub mod Conditions
use hwt_hls.Prelude.{
  ℕ, zero, suc, ◌/◌, ◌≡◌, refl, Bool, true, false, ◌&&◌, ◌||◌, Option, none, some, List, [], ◌∷◌,
  get_elem?, if◌then◌else◌,
}
use hwt_hls.Prelude.Int.{ℤ, pos, negsuc}
use hwt_hls.Prelude.Result.{Result, ok, err, or_raise, ◌>>=◌, index_error, assertion_error}

-- What `isinstance` answers about an interface for the classes of hwt.
pub record Interface : Type 0 where
  pub is_handshake_sync : Bool
  pub is_vld_synced : Bool
  pub is_rd_synced : Bool
  pub is_signal : Bool

pub data SyncType : Type 0 where
  signal vld_synced rd_synced handshaked : SyncType

unfoldable pub get_sync_type : Interface → Result SyncType
get_sync_type intf =
    if intf.is_handshake_sync
    then ok handshaked
    else if intf.is_vld_synced
    then ok vld_synced
    else if intf.is_rd_synced
    then ok rd_synced
    else if intf.is_signal
    then ok signal
    else err assertion_error

abbrev pub is_handshaked : SyncType → Bool
is_handshaked handshaked = true
is_handshaked _ = false

abbrev pub is_rd : SyncType → Bool
is_rd rd_synced = true
is_rd _ = false

abbrev pub is_vld : SyncType → Bool
is_vld vld_synced = true
is_vld _ = false

-- A turn of the loop of `resolveStrongestSyncType`.
unfoldable pub stronger : SyncType → SyncType → SyncType
stronger current sync_type =
    if is_handshaked sync_type || (is_rd current && is_vld sync_type)
    then handshaked
    else if is_rd sync_type
    then (if is_handshaked current
        then current
        else if is_vld current
        then handshaked
        else sync_type)
    else if is_vld sync_type
    then (if is_handshaked current
        then current
        else if is_rd current
        then handshaked
        else sync_type)
    else current

unfoldable pub resolve_strongest_sync_type : SyncType → List Interface → Result SyncType
unfolding get_sync_type stronger
resolve_strongest_sync_type current [] = ok current
resolve_strongest_sync_type current (op ∷ ops) = do
  sync_type ← get_sync_type op
  resolve_strongest_sync_type (stronger current sync_type) ops

-- The operators of RTL signals.
pub record RtlOps (Signal : Type 0) : Type 0 where
  pub and_sig : Signal → Signal → Signal
  pub or_sig : Signal → Signal → Signal
  pub not_sig : Signal → Signal

module _ {Signal : Type 0} (rtl : RtlOps Signal) where
  -- the loop of `ExtraCondMemberList.resolve`
  abbrev pub member_cond : Option Signal × Signal → Signal
  member_cond (none, cond) = cond
  member_cond (some skip_when, cond) = rtl.and_sig (rtl.not_sig skip_when) cond

  unfoldable pub or_members : Option Signal → List (Option Signal × Signal) → Option Signal
  or_members extra_cond [] = extra_cond
  or_members none (m ∷ ms) = or_members (some (member_cond m)) ms
  or_members (some extra_cond) (m ∷ ms) =
      or_members (some (rtl.or_sig extra_cond (member_cond m))) ms

  unfoldable pub resolve_extra_cond : List (Option Signal × Signal) → Result (Option Signal)
  unfolding or_members
  resolve_extra_cond [] = err assertion_error
  resolve_extra_cond (m ∷ []) = ok (some m.1)
  resolve_extra_cond (m ∷ n ∷ ms) = ok (or_members none (m ∷ n ∷ ms))

-- `SignalsOfStages.getForTime`; a stage that the element does not manage is `none`
unfoldable pub get_for_time : {A : Type 0} → ℕ → List (Option A) → ℤ → Result A
get_for_time clk_period stages (negsuc t) = err index_error
get_for_time clk_period stages (pos t) = do
  stage ← or_raise index_error (get_elem? stages (t / clk_period))
  or_raise index_error stage
