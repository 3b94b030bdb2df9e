-- ===== src/Analysis/Consystency/Links.antt =====
-- A netlist that passes the check has its links in both directions.
use mathlib.Core.List.Memᴰ
use hwt_hls.Prelude.{
  ℕ, zero, suc, ◌+◌, ◌≡◌, refl, subst, true, some, List, [], ◌∷◌, contains, get_elem?, Memᴰ, Bool,
  false, arith,
}
use hwt_hls.Prelude.Result.{Result, ok, err, index, require, ◌>>=◌, assertion_error}
use hwt_hls.Netlist.{HlsNetNodeOut, HlsNetNodeIn, HlsPipeline, iter_all_nodes}
use hwt_hls.Analysis.Cluster.{same_port, has_input}
use hwt_hls.Analysis.Consystency.{
  check_drivers, check_uses, check_outputs, check_links, check_consystency,
}

after_require :
    (b : Bool) (r : Result (Unit {0}))
    → (require b assertion_error >>= λ _. r) ≡ ok tt
    → (b ≡ true) × (r ≡ ok tt)
after_require true r h = (refl, h)
after_require false r h = cc

after_index :
    {A : Type 0} (xs : List A) (i : ℕ) (f : A → Result (Unit {0}))
    → (index xs i >>= f) ≡ ok tt
    → (a : A) × (get_elem? xs i ≡ some a) × (f a ≡ ok tt)
after_index [] i f h = cc
after_index (x ∷ xs) zero f h = (x, refl, h)
after_index (x ∷ xs) (suc i) f h = after_index xs i f h

module _ (hls : HlsPipeline) where
  -- The driver knows of the input.
  abbrev pub Knows : HlsNetNodeOut → HlsNetNodeIn → Type 0
  Knows d i =
      (uses : List HlsNetNodeIn) × (get_elem? (hls.node d.obj).used_by d.out_i ≡ some uses)
      × (has_input uses i ≡ true)

  -- The use knows of the output.
  abbrev pub IsDriven : HlsNetNodeIn → HlsNetNodeOut → Type 0
  IsDriven u o =
      (d : HlsNetNodeOut) × (get_elem? (hls.node u.obj).depends_on u.in_i ≡ some d)
      × (same_port d o ≡ true)

  drivers-Knows :
      (n in_i : ℕ) (ds : List HlsNetNodeOut)
      → check_drivers hls n in_i ds ≡ ok tt
      → (k : ℕ) (d : HlsNetNodeOut) → get_elem? ds k ≡ some d
      → Knows d (record { obj = n; in_i = in_i + k })
  unfolding check_drivers
  drivers-Knows n in_i [] e k d h = cc
  drivers-Knows n in_i (x ∷ ds) e zero d h =
      let e1 = (after_require (contains (iter_all_nodes hls) x.obj) _ e).1 in
      let (uses, found, e2) = after_index (hls.node x.obj).used_by x.out_i _ e1 in
      let (known, rest) = after_require (has_input uses (record { obj = n; in_i = in_i })) _ e2 in
      let same : x ≡ d = cc in
      let here : in_i ≡ in_i + 0 = omega arith in rw (← same, ← here) (uses, found, known)
  drivers-Knows n in_i (x ∷ ds) e (suc k) d h =
      let e1 = (after_require (contains (iter_all_nodes hls) x.obj) _ e).1 in
      let (uses, found, e2) = after_index (hls.node x.obj).used_by x.out_i _ e1 in
      let (known, rest) = after_require (has_input uses (record { obj = n; in_i = in_i })) _ e2 in
      let next : suc in_i + k ≡ in_i + suc k = omega arith in
      rw (← next) (drivers-Knows n (suc in_i) ds rest k d h)

  uses-IsDriven :
      (o : HlsNetNodeOut) (us : List HlsNetNodeIn)
      → check_uses hls o us ≡ ok tt
      → (u : HlsNetNodeIn) → Memᴰ u us
      → IsDriven u o
  unfolding check_uses
  uses-IsDriven o [] e u m = absurd (Memᴰ.not-nil m)
  uses-IsDriven o (x ∷ us) e u m =
      let e1 = (after_require (contains (iter_all_nodes hls) x.obj) _ e).1 in
      let (d, found, e2) = after_index (hls.node x.obj).depends_on x.in_i _ e1 in
      let (same, rest) = after_require (same_port d o) _ e2 in
      elim m [ Memᴰ.head p ↦ rw p (d, found, same) | Memᴰ.tail k ↦ uses-IsDriven o us rest u k ]

  after_both : (a b : Result (Unit {0})) → (a >>= λ _. b) ≡ ok tt → (a ≡ ok tt) × (b ≡ ok tt)
  after_both (ok t) b h = (refl, h)
  after_both (err x) b h = cc

  outputs-IsDriven :
      (n out_i : ℕ) (uses : List (List HlsNetNodeIn))
      → check_outputs hls n out_i uses ≡ ok tt
      → (k : ℕ) (us : List HlsNetNodeIn) → get_elem? uses k ≡ some us
      → (u : HlsNetNodeIn) → Memᴰ u us
      → IsDriven u (record { obj = n; out_i = out_i + k })
  unfolding check_outputs
  outputs-IsDriven n out_i [] e k us h u m = cc
  outputs-IsDriven n out_i (x ∷ rest) e zero us h u m =
      let first = (after_both (check_uses hls (record { obj = n; out_i = out_i }) x) _ e).0 in
      let same : us ≡ x = cc in
      let here : out_i ≡ out_i + 0 = omega arith in
      rw (← here) (
        uses-IsDriven (record { obj = n; out_i = out_i }) x first u
          (subst (λ (xs : List HlsNetNodeIn). Memᴰ u xs) same m))
  outputs-IsDriven n out_i (x ∷ rest) e (suc k) us h u m =
      let more = (after_both (check_uses hls (record { obj = n; out_i = out_i }) x) _ e).1 in
      let next : suc out_i + k ≡ out_i + suc k = omega arith in
      rw (← next) (outputs-IsDriven n (suc out_i) rest more k us h u m)

  -- Every driver of the node knows of the input, and every use of the node knows of the output.
  pub record IsLinked (n : ℕ) : Type 0 where
    pub drivers :
        (k : ℕ) (d : HlsNetNodeOut)
        → get_elem? (hls.node n).depends_on k ≡ some d
        → Knows d (record { obj = n; in_i = k })
    pub uses :
        (k : ℕ) (us : List HlsNetNodeIn)
        → get_elem? (hls.node n).used_by k ≡ some us
        → (u : HlsNetNodeIn) → Memᴰ u us
        → IsDriven u (record { obj = n; out_i = k })

  node-IsLinked :
      (n : ℕ)
      → check_drivers hls n 0 (hls.node n).depends_on ≡ ok tt
      → check_outputs hls n 0 (hls.node n).used_by ≡ ok tt
      → IsLinked n
  node-IsLinked n d o = record {
    drivers = λ k x h.
        let here : 0 + k ≡ k = omega arith in
        subst (λ (i : ℕ). Knows x (record { obj = n; in_i = i })) here
          (drivers-Knows n 0 (hls.node n).depends_on d k x h);
    uses = λ k us h u m.
        let here : 0 + k ≡ k = omega arith in
        subst (λ (i : ℕ). IsDriven u (record { obj = n; out_i = i })) here
          (outputs-IsDriven n 0 (hls.node n).used_by o k us h u m);
  }

  links-IsLinked : (ns : List ℕ) → check_links hls ns ≡ ok tt → (n : ℕ) → Memᴰ n ns → IsLinked n
  unfolding check_links
  links-IsLinked [] e n m = absurd (Memᴰ.not-nil m)
  links-IsLinked (x ∷ ns) e n m =
      let (d, e1) = after_both (check_drivers hls x 0 (hls.node x).depends_on) _ e in
      let (o, rest) = after_both (check_outputs hls x 0 (hls.node x).used_by) _ e1 in
      elim m [ Memᴰ.head p ↦ rw p (node-IsLinked x d o) | Memᴰ.tail k ↦ links-IsLinked ns rest n k ]

  -- If a netlist passes the check, then of every listed node: each driver has the input among
  -- the uses of its output, and each use of an output has this output as the driver of the
  -- input.
  pub check_consystency-IsLinked :
      check_consystency hls ≡ ok tt → (n : ℕ) → Memᴰ n (iter_all_nodes hls) → IsLinked n
  unfolding check_consystency
  check_consystency-IsLinked e n m = links-IsLinked (iter_all_nodes hls) e n m
