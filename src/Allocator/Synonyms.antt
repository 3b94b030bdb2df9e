-- ===== src/Allocator/Synonyms.antt =====
-- `_addPortSynonym` of hwtHls/allocator/interArchElementNodeSharingAnalysis.py. Ports of which one is
-- connected to the other through boundaries of aggregates share one list of synonyms: the dict has the
-- lists by their identities, and what a list has is in a store.
pub mod Shared
use hwt_hls.Prelude.{
  ℕ, zero, suc, ◌+◌, Bool, true, false, Option, none, some, List, [], ◌∷◌, length, ltb, ◌==◌,
  if◌then◌else◌,
}
use hwt_hls.Prelude.Result.{Result, ok, err, attribute_error}
use hwt_hls.Hwt.{UniqListOps}
use hwt_hls.Ssa.{set_at}

pub record PortSynonyms : Type 0 where
  pub list_of : ℕ → Option ℕ
  pub members : ℕ → List ℕ
  pub next_list : ℕ

module _ (l : UniqListOps) where
  -- `UniqList.extend`
  abbrev pub extend : List ℕ → List ℕ → List ℕ
  extend xs [] = xs
  extend xs (a ∷ rest) = extend (l.append xs a) rest

  -- `syn.extend(other)`, and the port of the other list gets the longer one
  abbrev pub merge : (port syn other : ℕ) → PortSynonyms → PortSynonyms
  merge port syn other s = record s {
    list_of = set_at s.list_of port (some syn);
    members = set_at s.members syn (extend (s.members syn) (s.members other));
  }

  abbrev pub add_synonym : ℕ → ℕ → PortSynonyms → (syn0 syn1 : Option ℕ) → Result PortSynonyms
  add_synonym p0 p1 s none none = ok (record {
    list_of = set_at (set_at s.list_of p0 (some s.next_list)) p1 (some s.next_list);
    members = set_at s.members s.next_list (l.append (l.append [] p0) p1);
    next_list = s.next_list + 1;
  })
  add_synonym p0 p1 s none (some syn1) = ok (record s {
    list_of = set_at s.list_of p0 (some syn1);
    members = set_at s.members syn1 (l.append (s.members syn1) p0);
  })
  -- `syn1.append(p1)`, where `syn1` is None
  add_synonym p0 p1 s (some syn0) none = err attribute_error
  add_synonym p0 p1 s (some syn0) (some syn1) =
      if ltb (length (s.members syn0)) (length (s.members syn1))
      then ok (merge p0 syn1 syn0 s)
      else ok (merge p1 syn0 syn1 s)

  unfoldable pub add_port_synonym : ℕ → ℕ → PortSynonyms → Result PortSynonyms
  add_port_synonym p0 p1 s = add_synonym p0 p1 s (s.list_of p0) (s.list_of p1)
