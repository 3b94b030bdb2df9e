-- ===== src/Graph/Walks.antt =====
-- What a walk that returns has marked: exactly what was marked before and what can be reached.
use mathlib.Core.List.Memᴰ
use mathlib.Core.Logic.{⊎_elim, ∥∥₁_elim}
use mathlib.Core.Bool.{So-prop}
use hwt_hls.Prelude.{
  ℕ, zero, suc, ◌≡◌, refl, ◌⊎◌, inl, inr, true, List, [], ◌∷◌, contains, Memᴰ, if◌then◌else◌,
  Bool-cases, All, All-map, All-mem, ◌↔◌, subst, arith,
}
use hwt_hls.Prelude.Result.{Result, ok, both_return}
use hwt_hls.Graph.{add, walk_each, walk, walk_roots}

abbrev pub In : ℕ → List ℕ → Type 0
In n seen = contains seen n ≡ true

In-add : (m n : ℕ) (seen : List ℕ) → In m (add n seen) → (m ≡ n) ⊎ In m seen
In-add m n seen h = ground arith

pub add-In : (m n : ℕ) (seen : List ℕ) → (m ≡ n) ⊎ In m seen → In m (add n seen)
add-In m n seen (inl e) = elim (Bool-cases (contains seen n)) [
  | inl h ↦ rw (h, e) h
  | inr h ↦ rw h (ground arith)
]
add-In m n seen (inr k) = ground arith

module _ (next : ℕ → List ℕ) where
  pub data Reach (a : ℕ) : ℕ → Type 0 where
    here : Reach a a
    step : {b c : ℕ} → Reach a b → Memᴰ c (next b) → Reach a c

  from_next : {a b c : ℕ} → Memᴰ b (next a) → Reach b c → Reach a c
  from_next m here = step here m
  from_next m (step r k) = step (from_next m r) k

  -- From the marks `seen` a walk over the roots `ns` made the marks `after`.
  pub record Walked (ns seen after : List ℕ) : Type 0 where
    pub kept : (m : ℕ) → In m seen → In m after
    pub roots : All (λ n. In n after) ns
    pub sound : (m : ℕ) → In m after → In m seen ⊎ ((n : ℕ) × Memᴰ n ns × Reach n m)
    pub closed : (m : ℕ) → In m after → In m seen ⊎ All (λ n. In n after) (next m)

  All-In :
      (ns seen after : List ℕ)
      → ((m : ℕ) → In m seen → In m after)
      → All (λ n. In n seen) ns
      → All (λ n. In n after) ns
  All-In ns seen after kept h = All-map _ _ ns kept h

  Walked-trans :
      (n : ℕ) (ns seen middle after : List ℕ)
      → Walked (n ∷ []) seen middle
      → Walked ns middle after
      → Walked (n ∷ ns) seen after
  Walked-trans n ns seen middle after w v = record {
    kept = λ m h. v.kept m (w.kept m h);
    roots = (v.kept n w.roots.0, v.roots);
    sound = λ m h.
        ⊎_elim
          (λ h.
            ⊎_elim inl (λ (a, k, r). inr (a, Memᴰ.head (Memᴰ.eq_of_singleton k), r)) (w.sound m h))
          (λ (a, k, r). inr (a, Memᴰ.tail k, r)) (v.sound m h);
    closed = λ m h.
        ⊎_elim
          (λ h. ⊎_elim inl (λ all. inr (All-In (next m) middle after v.kept all)) (w.closed m h))
          inr (v.closed m h);
  }

  Walked-visit :
      (n : ℕ) (seen after : List ℕ)
      → Walked (next n) (add n seen) after
      → Walked (n ∷ []) seen after
  Walked-visit n seen after w = record {
    kept = λ m h. w.kept m (add-In m n seen (inr h));
    roots = (w.kept n (add-In n n seen (inl refl)), tt);
    sound = λ m h.
        ⊎_elim (λ k. ⊎_elim (λ e. inr (n, Memᴰ.head refl, rw e here)) inl (In-add m n seen k))
          (λ (a, k, r). inr (n, Memᴰ.head refl, from_next k r)) (w.sound m h);
    closed = λ m h.
        ⊎_elim (λ k. ⊎_elim (λ e. inr (rw e w.roots)) inl (In-add m n seen k)) inr (w.closed m h);
  }

  module _ (visit : ℕ → List ℕ → Result (List ℕ))
      (visits : (n : ℕ) (seen after : List ℕ)
        → visit n seen ≡ ok after
        → Walked (n ∷ []) seen after) where
    one_root :
        (n : ℕ) (seen middle : List ℕ)
        → (if contains seen n then ok seen else visit n seen) ≡ ok middle
        → Walked (n ∷ []) seen middle
    one_root n seen middle e = elim (Bool-cases (contains seen n)) [
      | inl h ↦
          let same : seen ≡ middle = ground arith in
          subst (Walked (n ∷ []) seen) same (record {
            kept = λ m k. k;
            roots = (h, tt);
            sound = λ m k. inl k;
            closed = λ m k. inl k;
          })
      | inr h ↦ visits n seen middle (rw h at e)
    ]

    pub walk_each-Walked :
        (ns seen after : List ℕ) → walk_each next visit ns seen ≡ ok after → Walked ns seen after
    unfolding walk_each
    walk_each-Walked [] seen after e =
        let same : seen ≡ after = cc in
        subst (Walked [] seen) same
          (record { kept = λ m h. h; roots = tt; sound = λ m h. inl h; closed = λ m h. inl h })
    walk_each-Walked (n ∷ ns) seen after e =
        let (middle, first, rest) = both_return _ (walk_each next visit ns) e in
        let w = one_root n seen middle first in
        let v = walk_each-Walked ns middle after rest in Walked-trans n ns seen middle after w v

  -- The body of a visit: it marks the node and walks over its neighbours.
  pub walk-Walked :
      (limit n : ℕ) (seen after : List ℕ)
      → walk next limit n seen ≡ ok after
      → Walked (n ∷ []) seen after
  unfolding walk
  walk-Walked zero n seen after e = cc
  walk-Walked (suc limit) n seen after e =
      Walked-visit n seen after
        (walk_each-Walked (walk next limit) (walk-Walked limit) (next n) (add n seen) after e)

  pub walk_roots-Walked :
      (limit : ℕ) (ns seen after : List ℕ)
      → walk_roots next limit ns seen ≡ ok after
      → Walked ns seen after
  unfolding walk_roots
  walk_roots-Walked limit [] seen after e =
      let same : seen ≡ after = cc in
      subst (Walked [] seen) same
        (record { kept = λ m h. h; roots = tt; sound = λ m h. inl h; closed = λ m h. inl h })
  walk_roots-Walked limit (n ∷ ns) seen after e =
      let (middle, first, rest) = both_return _ (walk_roots next limit ns) e in
      Walked-trans n ns seen middle after (walk-Walked limit n seen middle first)
        (walk_roots-Walked limit ns middle after rest)

  -- From nothing marked: what is marked is what the roots reach.
  pub Walked-Reach :
      (ns after : List ℕ) (m : ℕ)
      → Walked ns [] after
      → In m after ↔ ∥ ((n : ℕ) × Memᴰ n ns × Reach n m) ∥₁
  Walked-Reach ns after m w = (
    λ h. ⊎_elim (λ e. cc) (λ r. ∣ r ∣₁) (w.sound m h),
    λ r. ∥∥₁_elim r (So-prop _) (λ (n, k, path). reached path (All-mem _ ns w.roots k)),
  )
    where
      reached : {n m : ℕ} → Reach n m → In n after → In m after
      reached here h = h
      reached (step {b} {c} r k) h =
          ⊎_elim (λ e. cc) (λ all. All-mem _ (next b) all k) (w.closed b (reached r h))
