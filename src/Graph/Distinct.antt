-- ===== src/Graph/Distinct.antt =====
-- A set that is kept as a list has no member twice; if it is as long as a list that holds it, it
-- holds that list.
use hwt_hls.Prelude.{
  ℕ, zero, suc, ◌+◌, ◌≤◌, ◌≡◌, refl, ap, inl, inr, false, List, [], ◌∷◌, ◌==◌, contains, length,
  if◌then◌else◌, Bool-cases, arith,
}
use hwt_hls.Prelude.Result.{Result, ok, both_return}
use hwt_hls.Graph.{add, walk_each, walk, walk_roots}
use hwt_hls.Graph.Walks.{In}

abbrev pub Distinct : List ℕ → Type 0
Distinct [] = Unit
Distinct (x ∷ xs) = (contains xs x ≡ false) × Distinct xs

add-Distinct : (n : ℕ) (seen : List ℕ) → Distinct seen → Distinct (add n seen)
add-Distinct n seen d = elim (Bool-cases (contains seen n)) [ inl h ↦ rw h d | inr h ↦ rw h (h, d) ]

module _ (next : ℕ → List ℕ) where
  walk_each-Distinct :
      (visit : ℕ → List ℕ → Result (List ℕ))
      → ((n : ℕ) (seen after : List ℕ) → visit n seen ≡ ok after → Distinct seen → Distinct after)
      → (ns seen after : List ℕ) → walk_each next visit ns seen ≡ ok after
      → Distinct seen
      → Distinct after
  unfolding walk_each
  walk_each-Distinct visit visits [] seen after e d = let same : seen ≡ after = cc in rw (← same) d
  walk_each-Distinct visit visits (n ∷ ns) seen after e d =
      let (middle, first, rest) = both_return _ (walk_each next visit ns) e in
      walk_each-Distinct visit visits ns middle after rest (entered middle first)
    where
      entered :
          (middle : List ℕ)
          → (if contains seen n then ok seen else visit n seen) ≡ ok middle
          → Distinct middle
      entered middle first = elim (Bool-cases (contains seen n)) [
        | inl h ↦ let same : seen ≡ middle = ground arith in rw (← same) d
        | inr h ↦ visits n seen middle (rw h at first) d
      ]

  pub walk-Distinct :
      (limit n : ℕ) (seen after : List ℕ)
      → walk next limit n seen ≡ ok after
      → Distinct seen
      → Distinct after
  unfolding walk
  walk-Distinct zero n seen after e d = cc
  walk-Distinct (suc limit) n seen after e d =
      walk_each-Distinct (walk next limit) (walk-Distinct limit) (next n) (add n seen) after e
        (add-Distinct n seen d)

  pub walk_roots-Distinct :
      (limit : ℕ) (ns seen after : List ℕ)
      → walk_roots next limit ns seen ≡ ok after
      → Distinct seen
      → Distinct after
  unfolding walk_roots
  walk_roots-Distinct limit [] seen after e d = let same : seen ≡ after = cc in rw (← same) d
  walk_roots-Distinct limit (n ∷ ns) seen after e d =
      let (middle, first, rest) = both_return _ (walk_roots next limit ns) e in
      walk_roots-Distinct limit ns middle after rest (walk-Distinct limit n seen middle first d)

-- The list without the first `a`.
abbrev remove : ℕ → List ℕ → List ℕ
remove a [] = []
remove a (x ∷ xs) = let rest = remove a xs in if x == a then xs else x ∷ rest

length-remove : (a : ℕ) (xs : List ℕ) → In a xs → length (remove a xs) + 1 ≡ length xs
length-remove a [] h = cc
length-remove a (x ∷ xs) h = ground (arith, length-remove a xs)

remove-In : (a b : ℕ) (xs : List ℕ) → (a == b) ≡ false → In b xs → In b (remove a xs)
remove-In a b [] ne h = cc
remove-In a b (x ∷ xs) ne h = ground (arith, remove-In a b xs)

In-remove : (a b : ℕ) (xs : List ℕ) → (a == b) ≡ false → In b xs → In b (remove a xs)
In-remove a b xs ne h = remove-In a b xs ne h

-- If `xs` has no member twice, lies within `ys` and is not shorter, then `ys` lies within `xs`.
pub pigeonhole :
    (xs ys : List ℕ)
    → Distinct xs
    → ((a : ℕ) → In a xs → In a ys)
    → length ys ≤ length xs
    → (a : ℕ) → In a ys
    → In a xs
pigeonhole [] [] d sub le a h = h
pigeonhole [] (y ∷ ys) d sub le a h = absurd (omega arith)
pigeonhole (x ∷ xs) ys (new, d) sub le a h =
    let x_there = sub x (ground arith) in
    elim (Bool-cases (x == a)) [
      | inl e ↦ rw e refl
      | inr e ↦ rw e (
          pigeonhole xs (remove x ys) d (λ b k. remove-In x b ys (other b k) (sub b (ground arith)))
            (omega (arith, length-remove x ys x_there)) a (remove-In x a ys e h))
    ]
  where
    other : (b : ℕ) → In b xs → (x == b) ≡ false
    other b k = elim (Bool-cases (x == b)) [
      | inl e ↦ let same : x ≡ b = ground arith in cc (new, ap (contains xs) same)
      | inr e ↦ e
    ]
