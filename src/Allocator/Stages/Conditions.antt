-- ===== src/Allocator/Stages/Conditions.antt =====
-- The condition of an extra synchronization, over signals that are values at one moment.
use hwt_hls.Prelude.{
  ◌≡◌, ap, ◌∙◌, Bool, false, not, ◌&&◌, ◌||◌, Option, none, some, List, [], ◌∷◌, arith,
}
use hwt_hls.Prelude.Result.{ok}
use hwt_hls.Allocator.Stages.{RtlOps, or_members, resolve_extra_cond}

abbrev pub bit_ops : RtlOps Bool
bit_ops = record { and_sig = λ a b. a && b; or_sig = λ a b. a || b; not_sig = not }

-- Some member has its condition and is not skipped.
abbrev pub any_member : List (Option Bool × Bool) → Bool
any_member [] = false
any_member ((none, cond) ∷ ms) = cond || any_member ms
any_member ((some skip_when, cond) ∷ ms) = (not skip_when && cond) || any_member ms

or_members_lem :
    (b : Bool) (ms : List (Option Bool × Bool))
    → or_members bit_ops (some b) ms ≡ some (b || any_member ms)
unfolding or_members
or_members_lem b [] = ap some (ground arith)
or_members_lem b ((none, cond) ∷ ms) = or_members_lem (b || cond) ms ∙ ap some (ground arith)
or_members_lem b ((some skip_when, cond) ∷ ms) =
    or_members_lem (b || (not skip_when && cond)) ms ∙ ap some (ground arith)

-- Of two or more members of an extra condition, `resolve` makes a signal that holds exactly if
-- some member has its condition and is not skipped.
pub resolve_extra_cond-any_member :
    (m n : Option Bool × Bool) (ms : List (Option Bool × Bool))
    → resolve_extra_cond bit_ops (m ∷ n ∷ ms) ≡ ok (some (any_member (m ∷ n ∷ ms)))
unfolding resolve_extra_cond or_members
resolve_extra_cond-any_member (none, c) n ms = ap ok (or_members_lem c (n ∷ ms))
resolve_extra_cond-any_member (some s, c) n ms = ap ok (or_members_lem (not s && c) (n ∷ ms))
