-- ===== src/Analysis/Cluster/Ports.antt =====
-- The lists of ports of a cluster, and the keys of its dict.
use hwt_hls.Prelude.{
  ℕ, suc, ◌≡◌, refl, ap, ◌∙◌, true, false, ◌||◌, List, [], ◌∷◌, ◌++◌, map, length, contains,
  if◌then◌else◌, Bool-cases, inl, inr, arith,
}
use hwt_hls.Netlist.{HlsNetNodeOut, HlsNetNodeIn, HlsPipeline}
use hwt_hls.Analysis.Cluster.{
  same_port, has_port, has_key, InputsDict, put_input, outer_ports, outer_keys, all_differ,
  none_inside,
}

abbrev pub keys_of : InputsDict → List HlsNetNodeOut
keys_of d = map (λ (p : HlsNetNodeOut × List HlsNetNodeIn). p.0) d

pub length-keys_of : (d : InputsDict) → length (keys_of d) ≡ length d
length-keys_of [] = refl
length-keys_of (p ∷ d) = ap suc (length-keys_of d)

pub has_key-keys_of : (d : InputsDict) (o : HlsNetNodeOut) → has_key d o ≡ has_port (keys_of d) o
has_key-keys_of [] o = refl
has_key-keys_of ((k, ins) ∷ d) o = ground (arith, has_key-keys_of d o)

pub keys_of-put_input :
    (o : HlsNetNodeOut) (i : HlsNetNodeIn) (d : InputsDict)
    → keys_of (put_input o i d) ≡ (if has_key d o then keys_of d else keys_of d ++ o ∷ [])
unfolding put_input
keys_of-put_input o i [] = refl
keys_of-put_input o i ((k, ins) ∷ d) = elim (Bool-cases (same_port k o)) [
  | inl e ↦ rw e refl
  | inr e ↦ elim (Bool-cases (has_key d o)) [
    | inl h ↦ rw (e, h) (ap (λ r. k ∷ r) (keys_of-put_input o i d ∙ rw h refl))
    | inr h ↦ rw (e, h) (ap (λ r. k ∷ r) (keys_of-put_input o i d ∙ rw h refl))
  ]
]

has_port-snoc :
    (ps : List HlsNetNodeOut) (p o : HlsNetNodeOut)
    → has_port (ps ++ o ∷ []) p ≡ has_port ps p || same_port o p
has_port-snoc [] p o = ground arith
has_port-snoc (q ∷ ps) p o = ground (arith, has_port-snoc ps p o)

same_port_sym : (a b : HlsNetNodeOut) → same_port a b ≡ same_port b a
same_port_sym a b = ground arith

pub all_differ-snoc :
    (ps : List HlsNetNodeOut) (o : HlsNetNodeOut)
    → has_port ps o ≡ false
    → all_differ ps ≡ true
    → all_differ (ps ++ o ∷ []) ≡ true
all_differ-snoc [] o h d = refl
all_differ-snoc (p ∷ ps) o h d =
    ground (arith, has_port-snoc ps p o, same_port_sym p o, all_differ-snoc ps o)

pub outer_keys-outer_ports :
    (nodes : List ℕ) (d : InputsDict) → keys_of (outer_keys nodes d) ≡ outer_ports nodes (keys_of d)
outer_keys-outer_ports nodes [] = refl
outer_keys-outer_ports nodes ((k, ins) ∷ d) = elim (Bool-cases (contains nodes k.obj)) [
  | inl e ↦ rw e (outer_keys-outer_ports nodes d)
  | inr e ↦ rw e (ap (λ r. k ∷ r) (outer_keys-outer_ports nodes d))
]

has_port-outer_ports :
    (nodes : List ℕ) (ps : List HlsNetNodeOut) (o : HlsNetNodeOut)
    → has_port ps o ≡ false
    → has_port (outer_ports nodes ps) o ≡ false
has_port-outer_ports nodes [] o h = refl
has_port-outer_ports nodes (p ∷ ps) o h = elim (Bool-cases (contains nodes p.obj)) [
  | inl e ↦ rw e (has_port-outer_ports nodes ps o (ground arith))
  | inr e ↦ rw e (ground (arith, has_port-outer_ports nodes ps o))
]

pub all_differ-outer_ports :
    (nodes : List ℕ) (ps : List HlsNetNodeOut)
    → all_differ ps ≡ true
    → all_differ (outer_ports nodes ps) ≡ true
all_differ-outer_ports nodes [] h = refl
all_differ-outer_ports nodes (p ∷ ps) h = elim (Bool-cases (contains nodes p.obj)) [
  | inl e ↦ rw e (all_differ-outer_ports nodes ps (ground arith))
  | inr e ↦ rw e (ground (arith, has_port-outer_ports nodes ps p, all_differ-outer_ports nodes ps))
]

pub none_inside-outer_ports :
    (hls : HlsPipeline) (nodes : List ℕ) (ps : List HlsNetNodeOut)
    → none_inside hls nodes (outer_ports nodes ps) ≡ true
none_inside-outer_ports hls nodes [] = refl
none_inside-outer_ports hls nodes (p ∷ ps) = elim (Bool-cases (contains nodes p.obj)) [
  | inl e ↦ rw e (none_inside-outer_ports hls nodes ps)
  | inr e ↦ rw (e, e) (ground (arith, none_inside-outer_ports hls nodes ps))
]
