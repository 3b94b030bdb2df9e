-- ===== src/Examples/UniqLists.antt =====
-- Lists without duplicates that keep what the code relies on.
use hwt_hls.Prelude.{
  ℕ, ◌≡◌, refl, not, ◌&&◌, ◌||◌, List, [], ◌∷◌, contains, ◌==◌, if◌then◌else◌, arith,
}
use hwt_hls.Hwt.{UniqListOps}

abbrev pub append_new : List ℕ → ℕ → List ℕ
append_new [] a = a ∷ []
append_new (x ∷ xs) a = if x == a then x ∷ xs else x ∷ append_new xs a

abbrev pub without : List ℕ → ℕ → List ℕ
without [] a = []
without (x ∷ xs) a = let rest = without xs a in if x == a then rest else x ∷ rest

pub contains-append_new :
    (xs : List ℕ) (a b : ℕ) → contains (append_new xs a) b ≡ contains xs b || (a == b)
contains-append_new [] a b = ground arith
contains-append_new (x ∷ xs) a b = ground (arith, contains-append_new xs a b)

pub contains-without :
    (xs : List ℕ) (a b : ℕ) → contains (without xs a) b ≡ contains xs b && not (a == b)
contains-without [] a b = refl
contains-without (x ∷ xs) a b = ground (arith, contains-without xs a b)

abbrev pub uniq_lists : UniqListOps
uniq_lists = record {
  append = append_new;
  remove = without;
  append_mem = contains-append_new;
  remove_mem = contains-without;
}
