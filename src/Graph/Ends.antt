-- ===== src/Graph/Ends.antt =====
-- A walk over nodes below a bound returns, if the recursion limit is not below that bound: each call
-- marks one more node.
use hwt_hls.Prelude.{
  ℕ, zero, suc, ◌+◌, ◌≤◌, ◌<◌, ◌≡◌, refl, inl, inr, false, List, [], ◌∷◌, ◌==◌, contains,
  if◌then◌else◌, Bool-cases, All, arith,
}
use hwt_hls.Prelude.Result.{Result, ok}
use hwt_hls.Graph.{add, walk_each, walk, walk_roots}
use hwt_hls.Graph.Walks.{In, add-In, Walked, walk-Walked, walk_each-Walked}

-- How many of the nodes below the bound are not marked.
abbrev pub unmarked : ℕ → List ℕ → ℕ
unmarked zero seen = 0
unmarked (suc k) seen = unmarked k seen + (if contains seen k then 0 else 1)

pub unmarked_mono :
    (bound : ℕ) (seen after : List ℕ)
    → ((m : ℕ) → In m seen → In m after)
    → unmarked bound after ≤ unmarked bound seen
unmarked_mono zero seen after kept = omega arith
unmarked_mono (suc k) seen after kept = ground (arith, unmarked_mono k seen after kept, kept k)

unmarked-above :
    (bound n : ℕ) (seen : List ℕ) → bound ≤ n → unmarked bound (n ∷ seen) ≡ unmarked bound seen
unmarked-above zero n seen h = refl
unmarked-above (suc k) n seen h = ground (arith, unmarked-above k n seen)

unmarked-cons :
    (bound n : ℕ) (seen : List ℕ)
    → n < bound
    → contains seen n ≡ false
    → unmarked bound (n ∷ seen) + 1 ≡ unmarked bound seen
unmarked-cons zero n seen h k = absurd (omega arith)
unmarked-cons (suc b) n seen h k = elim (Bool-cases (n == b)) [
  | inl e ↦ ground (arith, unmarked-above b n seen)
  | inr e ↦ ground (arith, unmarked-cons b n seen)
]

pub unmarked-le : (bound : ℕ) → unmarked bound [] ≤ bound
unmarked-le zero = omega arith
unmarked-le (suc b) = omega (arith, unmarked-le b)

module _ (next : ℕ → List ℕ) (bound : ℕ)
    (bounded : (n : ℕ) → n < bound → All (λ m. m < bound) (next n)) where
  abbrev Returns : ℕ → (ℕ → List ℕ → Result (List ℕ)) → Type 0
  Returns limit visit =
      (n : ℕ) (seen : List ℕ)
      → n < bound
      → contains seen n ≡ false
      → unmarked bound seen ≤ limit
      → (after : List ℕ) × (visit n seen ≡ ok after)

  walk_each-Returns :
      (limit : ℕ) (visit : ℕ → List ℕ → Result (List ℕ))
      → ((n : ℕ) (seen after : List ℕ) → visit n seen ≡ ok after → Walked next (n ∷ []) seen after)
      → Returns limit visit
      → (ns seen : List ℕ) → All (λ m. m < bound) ns
      → unmarked bound seen ≤ limit
      → (after : List ℕ) × (walk_each next visit ns seen ≡ ok after)
  unfolding walk_each
  walk_each-Returns limit visit walked returns [] seen h few = (seen, refl)
  walk_each-Returns limit visit walked returns (n ∷ ns) seen (h, hs) few =
      elim (Bool-cases (contains seen n)) [
        | inl e ↦
            let (after, k) = walk_each-Returns limit visit walked returns ns seen hs few in
            (after, rw e k)
        | inr e ↦
            let (middle, m) = returns n seen h e few in
            let fewer = unmarked_mono bound seen middle (walked n seen middle m).kept in
            let (after, k) =
              walk_each-Returns limit visit walked returns ns middle hs (omega arith) in
            (after, rw (e, m) k)
      ]

  pub walk-Returns : (limit : ℕ) → Returns limit (walk next limit)
  unfolding walk
  walk-Returns zero n seen h e few = absurd (omega (arith, unmarked-cons bound n seen h e))
  walk-Returns (suc limit) n seen h e few =
      walk_each-Returns limit (walk next limit) (walk-Walked next limit) (walk-Returns limit)
        (next n) (add n seen) (bounded n h) (rw e (omega (arith, unmarked-cons bound n seen h e)))

  -- From roots below the bound, with a recursion limit that is not below it, the walk returns.
  pub walk_roots_return :
      (limit : ℕ) (roots : List ℕ)
      → All (λ m. m < bound) roots
      → bound ≤ limit
      → (after : List ℕ) × (walk_each next (walk next limit) roots [] ≡ ok after)
  walk_roots_return limit roots h le =
      walk_each-Returns limit (walk next limit) (walk-Walked next limit) (walk-Returns limit) roots
        [] h (omega (arith, unmarked-le bound))

  -- So does a walk from each root in turn: a root that is marked already costs one call.
  pub walk_roots_returns :
      (limit : ℕ) (ns seen : List ℕ)
      → All (λ m. m < bound) ns
      → unmarked bound seen ≤ limit
      → (after : List ℕ) × (walk_roots next (suc limit) ns seen ≡ ok after)
  unfolding walk_roots walk
  walk_roots_returns limit [] seen h few = (seen, refl)
  walk_roots_returns limit (n ∷ ns) seen (h, hs) few =
      let more : unmarked bound (add n seen) ≤ unmarked bound seen =
        unmarked_mono bound seen (add n seen) (λ m k. add-In m n seen (inr k)) in
      let (middle, e) =
        walk_each-Returns limit (walk next limit) (walk-Walked next limit) (walk-Returns limit)
          (next n) (add n seen) (bounded n h) (omega arith) in
      let fewer = unmarked_mono bound seen middle (λ m k.
        (walk_each-Walked next (walk next limit) (walk-Walked next limit) (next n) (add n seen)
            middle e).kept
          m (add-In m n seen (inr k))) in
      let (after, k) = walk_roots_returns limit ns middle hs (omega arith) in (after, rw e k)
