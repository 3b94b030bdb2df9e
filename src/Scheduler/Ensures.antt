-- ===== src/Scheduler/Ensures.antt =====
-- A proof rule for code that writes a table of scheduled nodes and may raise: an invariant of the
-- table holds throughout, and what is scheduled stays as it is.
use hwt_hls.Prelude.{ℕ, ◌≡◌, refl, Bool, true, false, Option, none, some}
use hwt_hls.Prelude.Result.{Error, Result, ok, err, or_raise, require, index_error}
use hwt_hls.Scheduler.State.{RunOn, lift, ◌>>=◌}

abbrev pub Extends : {V : Type 0} → (ℕ → Option V) → (ℕ → Option V) → Type 0
Extends {V} s t = (n : ℕ) (v : V) → s n ≡ some v → t n ≡ some v

module _ {V : Type 0} (Inv : (ℕ → Option V) → Type 0) where
  -- When `E` holds of what is raised: the invariant holds afterwards, nothing scheduled changes, and
  -- a returned value satisfies `Q`.
  abbrev pub Ensures :
      {A : Type 0}
      → (Error → Type 0)
      → (ℕ → Option V)
      → (A → (ℕ → Option V) → Type 0)
      → Result A × (ℕ → Option V)
      → Type 0
  Ensures E s Q (ok a, t) = Inv t × Extends s t × Q a t
  Ensures E s Q (err e, t) = Inv t × Extends s t × E e

  pub weaken :
      {A : Type 0} (E : Error → Type 0) (s u : (ℕ → Option V)) (Q : A → (ℕ → Option V) → Type 0)
      (r : Result A × (ℕ → Option V))
      → Extends s u
      → Ensures E u Q r
      → Ensures E s Q r
  weaken E s u Q (ok a, t) x (inv, y, q) = (inv, λ n v h. y n v (x n v h), q)
  weaken E s u Q (err e, t) x (inv, y, q) = (inv, λ n v h. y n v (x n v h), q)

  pub bind_rule :
      {A B : Type 0} (E : Error → Type 0) (s : (ℕ → Option V)) (Q : A → (ℕ → Option V) → Type 0)
      (R : B → (ℕ → Option V) → Type 0) (m : RunOn (ℕ → Option V) A)
      (f : A → RunOn (ℕ → Option V) B)
      → Ensures E s Q (m s)
      → ((a : A) (t : (ℕ → Option V)) → Inv t → Extends s t → Q a t → Ensures E t R (f a t))
      → Ensures E s R ((m >>= f) s)
  bind_rule {A} {B} E s Q R m f h k = go (m s) h
    where
      go : (r : Result A × (ℕ → Option V)) → Ensures E s Q r → Ensures E s R (((λ _. r) >>= f) s)
      go (ok a, t) (inv, x, q) = weaken E s t R (f a t) x (k a t inv x q)
      go (err e, t) h = h

  pub consequence :
      {A : Type 0} (E : Error → Type 0) (s : (ℕ → Option V)) (Q R : A → (ℕ → Option V) → Type 0)
      (r : Result A × (ℕ → Option V))
      → Ensures E s Q r
      → ((a : A) (t : (ℕ → Option V)) → Extends s t → Q a t → R a t)
      → Ensures E s R r
  consequence E s Q R (ok a, t) (inv, x, q) k = (inv, x, k a t x q)
  consequence E s Q R (err e, t) h k = h

  pub lookup_rule :
      {A : Type 0} (E : Error → Type 0) (s : (ℕ → Option V)) (o : Option A)
      → Inv s
      → (o ≡ none → E index_error)
      → Ensures E s (λ a t. o ≡ some a) (lift (or_raise index_error o) s)
  lookup_rule E s none inv h = (inv, λ n v x. x, h refl)
  lookup_rule E s (some a) inv h = (inv, λ n v x. x, refl)

  pub require_rule :
      (E : Error → Type 0) (s : (ℕ → Option V)) (b : Bool) (e : Error)
      → Inv s
      → (b ≡ false → E e)
      → Ensures E s (λ _ t. b ≡ true) (lift (require b e) s)
  require_rule E s true e inv h = (inv, λ n v x. x, refl)
  require_rule E s false e inv h = (inv, λ n v x. x, h refl)

  pub lift_rule :
      {A : Type 0} (E : Error → Type 0) (s : (ℕ → Option V)) (r : Result A)
      → Inv s
      → ((e : Error) → r ≡ err e → E e)
      → Ensures E s (λ a t. r ≡ ok a) (lift r s)
  lift_rule E s (ok a) inv h = (inv, λ n v x. x, refl)
  lift_rule E s (err e) inv h = (inv, λ n v x. x, h e refl)
