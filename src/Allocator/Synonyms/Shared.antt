-- ===== src/Allocator/Synonyms/Shared.antt =====
-- What two ports share after they were made synonyms.
use hwt_hls.Prelude.{
  ℕ, ◌≡◌, refl, ◌∙◌, true, ◌||◌, Option, none, some, List, [], ◌∷◌, contains, length, ltb,
  Bool-cases, inl, inr, arith,
}
use hwt_hls.Prelude.Result.{Result, ok, err, attribute_error}
use hwt_hls.Hwt.{UniqListOps}
use hwt_hls.Allocator.Synonyms.{PortSynonyms, extend, merge, add_synonym, add_port_synonym}

-- The list of a port, or nothing.
abbrev pub members_of : PortSynonyms → Option ℕ → List ℕ
members_of s none = []
members_of s (some k) = s.members k

contains-extend :
    (l : UniqListOps) (xs ys : List ℕ) (m : ℕ)
    → contains (extend l xs ys) m ≡ contains xs m || contains ys m
contains-extend l xs [] m = ground arith
contains-extend l xs (y ∷ ys) m =
    contains-extend l (l.append xs y) ys m ∙ ground (arith, l.append_mem xs y m)

-- Both ports have one list, with what either of them had.
pub record Shares (p0 p1 : ℕ) (syn0 syn1 : Option ℕ) (s t : PortSynonyms) : Type 0 where
  pub list : ℕ
  pub first : t.list_of p0 ≡ some list
  pub second : t.list_of p1 ≡ some list
  pub kept :
      (m : ℕ)
      → contains (members_of s syn0) m || contains (members_of s syn1) m ≡ true
      → contains (t.members list) m ≡ true

abbrev pub Linked : ℕ → ℕ → PortSynonyms → (syn0 syn1 : Option ℕ) → Result PortSynonyms → Type 0
Linked p0 p1 s (some syn0) none r = r ≡ err attribute_error
Linked p0 p1 s syn0 syn1 r = (t : PortSynonyms) × (r ≡ ok t) × Shares p0 p1 syn0 syn1 s t

linked :
    (l : UniqListOps) (p0 p1 : ℕ) (s : PortSynonyms) (syn0 syn1 : Option ℕ)
    → s.list_of p0 ≡ syn0
    → s.list_of p1 ≡ syn1
    → Linked p0 p1 s syn0 syn1 (add_synonym l p0 p1 s syn0 syn1)
linked l p0 p1 s none none e f = (
  _,
  refl,
  record { list = s.next_list; first = ground arith; second = ground arith; kept = λ m h. cc },
)
linked l p0 p1 s none (some syn1) e f = (
  _,
  refl,
  record {
    list = syn1;
    first = ground arith;
    second = ground arith;
    kept = λ m h. ground (arith, l.append_mem (s.members syn1) p0 m);
  },
)
linked l p0 p1 s (some syn0) none e f = refl
linked l p0 p1 s (some syn0) (some syn1) e f =
    elim (Bool-cases (ltb (length (s.members syn0)) (length (s.members syn1)))) [
      | inl h ↦ (
        merge l p0 syn1 syn0 s,
        rw h refl,
        record {
          list = syn1;
          first = ground arith;
          second = ground arith;
          kept = λ m k. ground (arith, contains-extend l (s.members syn1) (s.members syn0) m);
        },
      )
      | inr h ↦ (
        merge l p1 syn0 syn1 s,
        rw h refl,
        record {
          list = syn0;
          first = ground arith;
          second = ground arith;
          kept = λ m k. ground (arith, contains-extend l (s.members syn0) (s.members syn1) m);
        },
      )
    ]

-- `_addPortSynonym` raises AttributeError if the first port has synonyms and the second one has
-- none; otherwise it returns, and both ports share one list, with all that either list had.
pub add_port_synonym-Linked :
    (l : UniqListOps) (p0 p1 : ℕ) (s : PortSynonyms)
    → Linked p0 p1 s (s.list_of p0) (s.list_of p1) (add_port_synonym l p0 p1 s)
unfolding add_port_synonym
add_port_synonym-Linked l p0 p1 s = linked l p0 p1 s (s.list_of p0) (s.list_of p1) refl refl
