-- ===== src/Exec.antt =====
-- Handlers that mutate an object and may throw or abort. A throw keeps what was written before it,
-- so the state stands beside every outcome. Aborts are failed CHECK and DCHECK lines (the default
-- build type is Debug, where DCHECK is on) and uses of a null pointer.
use datom.Common.{◌≡◌, refl, Bool, true, false}
use datom.Status.{Status, Exception, of_status, status_exception}

pub data Outcome {ℓ} (A : Type ℓ) : Type ℓ where
  returned : A → Outcome A
  thrown : Exception → Outcome A
  aborted : Outcome A

abbrev pub Exec {ℓ} : Type ℓ → Type ℓ → Type ℓ
Exec S A = S → Outcome A × S

module _ {ℓ} {S A : Type ℓ} where
  abbrev pub pure : A → Exec S A
  pure a s = (returned a, s)

  abbrev pub throw_exception : Exception → Exec S A
  throw_exception e s = (thrown e, s)

  abbrev pub abort : Exec S A
  abort s = (aborted, s)

  -- throw StatusException(status)
  abbrev pub throw_status : Status → Exec S A
  throw_status e s = (thrown (of_status (status_exception e)), s)

  abbrev pub gets : (S → A) → Exec S A
  gets f s = (returned (f s), s)

module _ {S : Type 0} where
  abbrev pub modify : (S → S) → Exec S (Unit {0})
  modify f s = (returned tt, f s)

  -- CHECK(b), DCHECK(b)
  abbrev pub check : Bool → Exec S (Unit {0})
  check true s = (returned tt, s)
  check false s = (aborted, s)

module _ {ℓ} {S A B : Type ℓ} where
  abbrev after : Outcome A → S → (A → Exec S B) → Outcome B × S
  after (returned a) s k = k a s
  after (thrown e) s k = (thrown e, s)
  after aborted s k = (aborted, s)

  infixl 5 ◌>>=◌ ◌>>◌
  abbrev pub ◌>>=◌ : Exec S A → (A → Exec S B) → Exec S B
  ◌>>=◌ m k s = let (r, t) = m s in after r t k

  abbrev pub ◌>>◌ : Exec S A → Exec S B → Exec S B
  ◌>>◌ m n s = let (r, t) = m s in after r t (λ _. n)

module _ {S A : Type 0} where
  -- An assertion that holds is passed.
  pub check_then : (b : Bool) (k : Exec S A) (s : S) → b ≡ true → (check b >> k) s ≡ k s
  check_then true k s e = refl
  check_then false k s e = absurd (cc)

module _ {ℓ} {S A B : Type ℓ} where
  after-pure : (r : Outcome A) (f : A → B) (s : S) → (after r s (λ a. pure (f a))).1 ≡ s
  after-pure (returned a) f s = refl
  after-pure (thrown e) f s = refl
  after-pure aborted f s = refl

  -- Turning the result of a handler into an answer leaves its state.
  pub then_pure : (m : Exec S A) (f : A → B) (s : S) → ((m >>= (λ a. pure (f a))) s).1 ≡ (m s).1
  then_pure m f s = after-pure (m s).0 f (m s).1
