-- ===== src/Prelude/Actions.antt =====
-- A database transaction: state passing with exceptions. What was written before a raise stays
-- written until `atomic`, Django's `transaction.atomic`, rolls it back.
use mathlib.Core.Path.{◌≡◌, refl}
use mathlib.Core.Bool.{Bool, true, false}
use native.Mathlib.Omega.{arith}
use mathlib.Core.Option.{Option, none, some}

pub data Result {ℓ κ} (E : Type ℓ) (A : Type κ) : Type (ℓ ⊔ κ) where
  ok : A → Result E A
  err : E → Result E A

abbrev pub Action : Type 0 → Type 0 → Type 0 → Type 0
Action E S A = S → Result E A × S

module _ {E S : Type 0} where
  abbrev pub pure : {A : Type 0} → A → Action E S A
  pure a s = (ok a, s)

  abbrev pub raise : {A : Type 0} → E → Action E S A
  raise e s = (err e, s)

  abbrev pub get : Action E S S
  get s = (ok s, s)

  abbrev pub modify : (S → S) → Action E S (Unit {0})
  modify f s = (ok tt, f s)

  abbrev pub raise_if : Bool → E → Action E S (Unit {0})
  raise_if true e s = (err e, s)
  raise_if false e s = (ok tt, s)

  abbrev pub or_raise : {A : Type 0} → Option A → E → Action E S A
  or_raise none e s = (err e, s)
  or_raise (some a) e s = (ok a, s)

infixl 5 ◌>>=◌ ◌>>◌
abbrev pub ◌>>=◌ : {E S A B : Type 0} → Action E S A → (A → Action E S B) → Action E S B
◌>>=◌ m f s = let (r, s') = m s in elim r [ ok a ↦ f a s' | err e ↦ (err e, s') ]

abbrev pub ◌>>◌ : {E S A B : Type 0} → Action E S A → Action E S B → Action E S B
m >> k = m >>= λ _. k

-- An exception restores the state in which the block was entered.
abbrev pub roll_back : {E S A : Type 0} → S → Result E A × S → Result E A × S
roll_back s (ok a, s') = (ok a, s')
roll_back s (err e, _) = (err e, s)

abbrev pub atomic : {E S A : Type 0} → Action E S A → Action E S A
atomic m s = roll_back s (m s)

-- Inversion of a successful sequence.
pub >>=-ok :
    {E S A B : Type 0} (m : Action E S A) (f : A → Action E S B) (s : S) {b : B} {s'' : S}
    → (m >>= f) s ≡ (ok b, s'')
    → (a : A) × (s' : S) × (m s ≡ (ok a, s')) × (f a s' ≡ (ok b, s''))
>>=-ok {E} {S} {A} {B} m f s {b} {s''} e = split (m s) refl e
  where
    split :
        (p : Result E A × S)
        → m s ≡ p
        → elim p.0 [ ok a ↦ f a p.1 | err x ↦ (err x, p.1) ] ≡ (ok b, s'')
        → (a : A) × (s' : S) × (m s ≡ (ok a, s')) × (f a s' ≡ (ok b, s''))
    split (ok a, s') q h = (a, s', q, h)
    split (err x, s') q h = cc

pub raise_if-ok :
    {E S : Type 0} (b : Bool) (x : E) (s s' : S)
    → raise_if b x s ≡ (ok tt, s')
    → (b ≡ false) × (s' ≡ s)
raise_if-ok true x s s' e = cc
raise_if-ok false x s s' e = ground arith

-- An `atomic` block that fails has done nothing; one that succeeds has done what its body did.
pub atomic-err :
    {E S A : Type 0} (m : Action E S A) (s : S) {x : E} {s' : S} → atomic m s ≡ (err x, s') → s' ≡ s
atomic-err {E} {S} {A} m s {x} {s'} e = split (m s) e
  where
    split : (p : Result E A × S) → roll_back s p ≡ (err x, s') → s' ≡ s
    split (ok a, t) h = cc
    split (err y, t) h = ground arith

pub atomic-ok :
    {E S A : Type 0} (m : Action E S A) (s : S) {a : A} {s' : S}
    → atomic m s ≡ (ok a, s')
    → m s ≡ (ok a, s')
atomic-ok {E} {S} {A} m s {a} {s'} e = split (m s) e
  where
    split : (p : Result E A × S) → roll_back s p ≡ (ok a, s') → p ≡ (ok a, s')
    split (ok b, t) h = h
    split (err y, t) h = cc
