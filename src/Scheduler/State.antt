-- ===== src/Scheduler/State.antt =====
-- The schedule that the schedulers write (`scheduledIn` and `scheduledOut` of every node), and code
-- that changes it and may raise: what was written before an exception stays written.
use hwt_hls.Prelude.{ℕ, Option, none, some, List, ◌==◌, if◌then◌else◌}
use hwt_hls.Prelude.Result.{Result, ok, err}

pub record Scheduled : Type 0 where
  pub scheduled_in : List ℕ
  pub scheduled_out : List ℕ

-- `none` is the state after the constructor and after `resetScheduling`.
abbrev pub Schedule : Type 0
Schedule = ℕ → Option Scheduled

abbrev pub unscheduled : Schedule
unscheduled n = none

abbrev pub assign : Schedule → ℕ → Scheduled → Schedule
assign s n v m = if n == m then some v else s m

-- Code that changes a state of type S.
abbrev pub RunOn : Type 0 → Type 0 → Type 0
RunOn S A = S → Result A × S

abbrev pub Run : Type 0 → Type 0
Run A = RunOn Schedule A

abbrev pub pure : {S A : Type 0} → A → RunOn S A
pure a s = (ok a, s)

abbrev continue_with : {S A B : Type 0} → Result A × S → (A → RunOn S B) → Result B × S
continue_with (ok a, s) f = f a s
continue_with (err e, s) f = (err e, s)

infixl 5 ◌>>=◌ ◌>>◌
abbrev pub ◌>>=◌ : {S A B : Type 0} → RunOn S A → (A → RunOn S B) → RunOn S B
◌>>=◌ m f s = continue_with (m s) f

abbrev pub ◌>>◌ : {S B : Type 0} → RunOn S (Unit {0}) → RunOn S B → RunOn S B
m >> k = m >>= λ _. k

abbrev pub lift : {S A : Type 0} → Result A → RunOn S A
lift r s = (r, s)
