-- ===== src/Hwt.antt =====
-- What the code relies on of the hwt library, which is not part of the repository: the list without
-- duplicates, whose `append` leaves a list alone that has the value already.
use hwt_hls.Prelude.{ℕ, ◌≡◌, not, ◌&&◌, ◌||◌, List, contains, ◌==◌}

-- The methods of hwt's UniqList that change it.
pub record UniqListOps : Type 0 where
  pub append : List ℕ → ℕ → List ℕ
  pub remove : List ℕ → ℕ → List ℕ
  pub append_mem : (xs : List ℕ) (a b : ℕ) → contains (append xs a) b ≡ contains xs b || (a == b)
  pub remove_mem :
      (xs : List ℕ) (a b : ℕ) → contains (remove xs a) b ≡ contains xs b && not (a == b)
