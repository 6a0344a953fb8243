-- ===== src/Storage/Action.antt =====
-- Methods that change a store and may fail: what was written before a failure stays written.
use goud_chain.Prelude.{◌≡◌, refl}
use goud_chain.Errors.{GoudChainError, Result, ok, err, panic}

abbrev pub Action : Type 0 → Type 0 → Type 0
Action S A = S → Result A × S

module _ {S : Type 0} where
  abbrev pub pure : {A : Type 0} → A → Action S A
  pure a s = (ok a, s)

  abbrev pub fail : {A : Type 0} → GoudChainError → Action S A
  fail e s = (err e, s)

  abbrev pub lift : {A : Type 0} → Result A → Action S A
  lift r s = (r, s)

  abbrev pub gets : {A : Type 0} → (S → A) → Action S A
  gets f s = (ok (f s), s)

  abbrev pub modify : (S → S) → Action S (Unit {0})
  modify f s = (ok tt, f s)

  abbrev pub next : {A B : Type 0} → Result A × S → (A → Action S B) → Result B × S
  next (ok a, s) f = f a s
  next (err e, s) f = (err e, s)
  next (panic, s) f = (panic, s)

  infixl 5 ◌>>=◌ ◌>>◌
  abbrev pub ◌>>=◌ : {A B : Type 0} → Action S A → (A → Action S B) → Action S B
  ◌>>=◌ m f s = next (m s) f

  abbrev pub ◌>>◌ : {B : Type 0} → Action S (Unit {0}) → Action S B → Action S B
  m >> k = m >>= λ _. k

  -- Inversion of a call that returned.
  pub next-eq-ok :
      {A B : Type 0} {b : B} (p : Result A × S) (f : A → Action S B)
      → (next p f).0 ≡ ok b
      → (a : A) × (p.0 ≡ ok a) × (next p f ≡ f a p.1)
  next-eq-ok (ok a, s) f h = (a, refl, refl)
  next-eq-ok (err e, s) f h = cc
  next-eq-ok (panic, s) f h = cc

  -- A property of the state that a method keeps, and what two methods keep in sequence.
  abbrev pub Keeps : {A : Type 0} → (S → Type 0) → Action S A → Type 0
  Keeps P m = (s : S) → P s → P (m s).1

  next_keeps :
      {A B : Type 0} (P : S → Type 0) (p : Result A × S) (f : A → Action S B)
      → P p.1
      → ((a : A) → Keeps P (f a))
      → P (next p f).1
  next_keeps P (ok a, s) f h k = k a s h
  next_keeps P (err e, s) f h k = h
  next_keeps P (panic, s) f h k = h

  pub >>=-Keeps :
      {A B : Type 0} (P : S → Type 0) (m : Action S A) (f : A → Action S B)
      → Keeps P m
      → ((a : A) → Keeps P (f a))
      → Keeps P (m >>= f)
  >>=-Keeps P m f h k s g = next_keeps P (m s) f (h s g) k
