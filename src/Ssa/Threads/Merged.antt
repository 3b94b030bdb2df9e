-- ===== src/Ssa/Threads/Merged.antt =====
-- What the merging of threads does to the threads of the instructions.
use hwt_hls.Prelude.{
  ℕ, ◌≡◌, refl, subst, Bool, true, false, ◌||◌, Option, none, some, List, [], ◌∷◌, contains, ◌==◌,
  if◌then◌else◌, Bool-cases, inl, inr, arith,
}
use hwt_hls.Graph.{add}
use hwt_hls.Ssa.Threads.{
  ThreadsPerInstr, thread_of, put_thread, put_each, update, Threads, merge_threads,
}

abbrev pub is_some_thread : Option ℕ → ℕ → Bool
is_some_thread none t = false
is_some_thread (some u) t = u == t

-- Whether an instruction is in a thread.
abbrev pub has_thread : ThreadsPerInstr → ℕ → ℕ → Bool
has_thread threads i t = is_some_thread (thread_of threads i) t

has_thread-cons :
    (k v : ℕ) (threads : ThreadsPerInstr) (j u : ℕ)
    → has_thread ((k, v) ∷ threads) j u ≡ (if k == j then v == u else has_thread threads j u)
has_thread-cons k v threads j u = elim (Bool-cases (k == j)) [
  | inl e ↦ rw e refl
  | inr e ↦ rw e refl
]

pub put_thread-has_thread :
    (threads : ThreadsPerInstr) (i t j u : ℕ)
    → has_thread (put_thread i t threads) j u ≡ (if i == j then t == u else has_thread threads j u)
put_thread-has_thread [] i t j u = has_thread-cons i t [] j u
put_thread-has_thread ((k, v) ∷ threads) i t j u = elim (Bool-cases (k == i)) [
  | inl e ↦
      let same : k ≡ i = ground arith in
      rw (e, has_thread-cons k t threads j u, has_thread-cons k v threads j u) (ground arith)
  | inr e ↦
      let rest = put_thread-has_thread threads i t j u in
      rw
        (e, has_thread-cons k v (put_thread i t threads) j u, has_thread-cons k v threads j u, rest)
        (ground arith)
]

put_each-has_thread :
    (is : List ℕ) (t : ℕ) (threads : ThreadsPerInstr) (j u : ℕ)
    → has_thread (put_each is t threads) j u
      ≡ (if contains is j then t == u else has_thread threads j u)
put_each-has_thread [] t threads j u = refl
put_each-has_thread (i ∷ is) t threads j u =
    rw
      (put_each-has_thread is t (put_thread i t threads) j u, put_thread-has_thread threads i t j u)
      (ground arith)

pub contains-append_one :
    (xs : List ℕ) (a b : ℕ) → contains (add a xs) b ≡ contains xs b || (a == b)
contains-append_one xs a b = elim (Bool-cases (contains xs a)) [
  | inl h ↦ elim (Bool-cases (a == b)) [
    | inl e ↦
        let same : a ≡ b = ground arith in
        let there : contains xs b ≡ true = subst (λ (c : ℕ). contains xs c ≡ true) same h in
        rw h (ground arith)
    | inr e ↦ rw h (ground arith)
  ]
  | inr h ↦ rw h (ground arith)
]

one_thread :
    (o : Option ℕ) (t u : ℕ) → is_some_thread o t ≡ true → is_some_thread o u ≡ true → t ≡ u
one_thread none t u a b = absurd (ground arith)
one_thread (some v) t u a b = ground arith

contains-update :
    (xs ys : List ℕ) (j : ℕ) → contains (update xs ys) j ≡ contains xs j || contains ys j
contains-update xs [] j = ground arith
contains-update xs (y ∷ ys) j =
    rw (contains-update (add y xs) ys j, contains-append_one xs y j) (ground arith)

-- The members of the thread of an instruction are the instructions that have this thread.
pub record IsPartition (s : Threads) : Type 0 where
  pub members_have :
      (i t j : ℕ)
      → has_thread s.per_instr i t ≡ true
      → contains (s.members t) j ≡ has_thread s.per_instr j t

abbrev pub Together : Threads → ℕ → ℕ → Type 0
Together s i j = (t : ℕ) × (has_thread s.per_instr i t ≡ true) × (has_thread s.per_instr j t ≡ true)

module _ (s : Threads) (p : IsPartition s) (i0 t0 i1 t1 : ℕ)
    (h0 : has_thread s.per_instr i0 t0 ≡ true) (h1 : has_thread s.per_instr i1 t1 ≡ true) where
  abbrev pub merged : Threads
  merged = merge_threads t0 t1 s

  pub merge_threads-has_thread :
      (j u : ℕ)
      → has_thread merged.per_instr j u
        ≡ (if has_thread s.per_instr j t1 then t0 == u else has_thread s.per_instr j u)
  unfolding merge_threads
  merge_threads-has_thread j u =
      rw (put_each-has_thread (s.members t1) t0 s.per_instr j u, p.members_have i1 t1 j h1) refl

  elsewhere :
      (i t : ℕ)
      → has_thread s.per_instr i t ≡ true
      → (t1 == t) ≡ false
      → has_thread s.per_instr i t1 ≡ false
  elsewhere i t a e = elim (Bool-cases (has_thread s.per_instr i t1)) [
    | inl h ↦ let same = one_thread (thread_of s.per_instr i) t1 t h a in absurd (ground arith)
    | inr h ↦ h
  ]

  -- An instruction in the second thread is in no thread that has an instruction outside it.
  apart :
      (i t j : ℕ)
      → has_thread s.per_instr i t ≡ true
      → has_thread s.per_instr i t1 ≡ false
      → has_thread s.per_instr j t1 ≡ true
      → has_thread s.per_instr j t ≡ false
  apart i t j a b c = elim (Bool-cases (has_thread s.per_instr j t)) [
    | inl d ↦
        let same = one_thread (thread_of s.per_instr j) t t1 d c in
        let there : has_thread s.per_instr i t1 ≡ true =
          subst (λ (u : ℕ). has_thread s.per_instr i u ≡ true) same a in
        absurd (ground arith)
    | inr d ↦ d
  ]

  merged_members :
      (i t j : ℕ)
      → has_thread merged.per_instr i t ≡ true
      → contains (merged.members t) j ≡ has_thread merged.per_instr j t
  unfolding merge_threads
  merged_members i t j h =
      let here = merge_threads-has_thread i t in
      rw (merge_threads-has_thread j t) (elim (Bool-cases (t0 == t)) [
        | inl e ↦
            let same : t0 ≡ t = ground arith in
            let mine = p.members_have i0 t0 j h0 in
            let theirs = p.members_have i1 t1 j h1 in
            rw (e, contains-update (s.members t0) (s.members t1) j, mine, theirs, same)
              (ground arith)
        | inr e ↦ elim (Bool-cases (has_thread s.per_instr i t1)) [
          | inl k ↦ absurd (ground arith)
          | inr k ↦
              let there : has_thread s.per_instr i t ≡ true = ground arith in
              let own = p.members_have i t j there in
              elim (Bool-cases (has_thread s.per_instr j t1)) [
                | inl c ↦ let d = apart i t j there k c in rw (e, own, c, d) refl
                | inr c ↦ rw (e, own, c) refl
              ]
        ]
      ])

  pub merge_threads-IsPartition : IsPartition merged
  merge_threads-IsPartition = record { members_have = merged_members }

  pub merge_threads-Together : (i j : ℕ) → Together s i j → Together merged i j
  merge_threads-Together i j (t, a, b) =
      let at_i = merge_threads-has_thread i t in
      let at_j = merge_threads-has_thread j t in
      let to_i = merge_threads-has_thread i t0 in
      let to_j = merge_threads-has_thread j t0 in
      elim (Bool-cases (t1 == t)) [
        | inl e ↦
            let same : t1 ≡ t = ground arith in
            (t0, rw (to_i, same, a) (ground arith), rw (to_j, same, b) (ground arith))
        | inr e ↦ (t, rw (at_i, elsewhere i t a e) a, rw (at_j, elsewhere j t b e) b)
      ]

  pub merge_threads-joins : Together merged i0 i1
  merge_threads-joins =
      let at_0 = merge_threads-has_thread i0 t0 in
      let at_1 = merge_threads-has_thread i1 t0 in
      (t0, rw at_0 (ground arith), rw (at_1, h1) (ground arith))
