-- ===== src/Prelude/Preservation.antt =====
-- Predicates on the state that an action keeps, however it ends, and runs whose steps are known.
use mathlib.Core.Path.{◌≡◌, refl, ap}
use mathlib.Core.Bool.{Bool, true, false}
use mathlib.Core.Option.{Option, none, some}
use mrp_django.Prelude.Actions.{
  Result, ok, err, Action, ◌>>=◌, ◌>>◌, atomic, roll_back, raise_if, or_raise,
}

abbrev pub Preserves : {E S A : Type 0} → (S → Type 0) → Action E S A → Type 0
Preserves {S} P m = (s : S) → P s → P (m s).1

module _ {E S : Type 0} (P : S → Type 0) where
  pub >>=-Preserves :
      {A B : Type 0} (m : Action E S A) (f : A → Action E S B)
      → Preserves P m
      → ((a : A) → Preserves P (f a))
      → Preserves P (m >>= f)
  >>=-Preserves {A} {B} m f hm hf s h = by_result (m s) (hm s h)
    where
      by_result :
          (p : Result E A × S)
          → P p.1
          → let after : Result E B × S = elim p.0 [ ok a ↦ f a p.1 | err x ↦ (err x, p.1) ] in
            P after.1
      by_result (ok a, t) q = hf a t q
      by_result (err x, t) q = q

  -- `Q` holds in between.
  pub after_bind :
      {A B : Type 0} (Q : S → Type 0) (m : Action E S A) (f : A → Action E S B) (s : S)
      → Q (m s).1
      → ((t : S) → Q t → P t)
      → ((a : A) (t : S) → Q t → P (f a t).1)
      → P ((m >>= f) s).1
  after_bind {A} {B} Q m f s h he hf = by_result (m s) h
    where
      by_result :
          (p : Result E A × S)
          → Q p.1
          → let after : Result E B × S = elim p.0 [ ok a ↦ f a p.1 | err x ↦ (err x, p.1) ] in
            P after.1
      by_result (ok a, t) q = hf a t q
      by_result (err x, t) q = he t q

  pub after_atomic : {A : Type 0} (m : Action E S A) (s : S) → P s → P (m s).1 → P (atomic m s).1
  after_atomic {A} m s h = by_result (m s)
    where
      by_result : (p : Result E A × S) → P p.1 → P (roll_back s p).1
      by_result (ok a, t) q = q
      by_result (err x, t) q = h

  pub atomic-Preserves : {A : Type 0} (m : Action E S A) → Preserves P m → Preserves P (atomic m)
  atomic-Preserves m hm s h = after_atomic m s h (hm s h)

  pub raise_if-Preserves : (b : Bool) (x : E) → Preserves P (raise_if {E = E} b x)
  raise_if-Preserves true x s h = h
  raise_if-Preserves false x s h = h

  pub or_raise-Preserves : {A : Type 0} (o : Option A) (x : E) → Preserves P (or_raise {E = E} o x)
  or_raise-Preserves none x s h = h
  or_raise-Preserves (some a) x s h = h

  -- A guard that reads the state.
  pub guarded_step :
      {A : Type 0} (b : Bool) (x : E) (k : Action E S A) (s : S)
      → P s
      → (b ≡ false → P (k s).1)
      → P ((raise_if b x >> k) s).1
  guarded_step true x k s h q = h
  guarded_step false x k s h q = q refl

module _ {E S : Type 0} where
  pub >>=-run :
      {A B : Type 0} (m : Action E S A) (f : A → Action E S B) (s : S) {a : A} {s' : S}
      → m s ≡ (ok a, s')
      → (m >>= f) s ≡ f a s'
  >>=-run {A} {B} m f s e =
      ap (λ (p : Result E A × S). elim p.0 [ ok a ↦ f a p.1 | err x ↦ (err x, p.1) ]) e

  pub atomic-run :
      {A : Type 0} (m : Action E S A) (s : S) {a : A} {s' : S}
      → m s ≡ (ok a, s')
      → atomic m s ≡ (ok a, s')
  atomic-run m s e = ap (roll_back s) e

  pub or_raise-run :
      {A : Type 0} (o : Option A) (x : E) (s : S) {a : A} → o ≡ some a → or_raise o x s ≡ (ok a, s)
  or_raise-run o x s e = ap (λ p. or_raise p x s) e

  pub raise_if-run : (b : Bool) (x : E) (s : S) → b ≡ false → raise_if b x s ≡ (ok tt, s)
  raise_if-run b x s e = ap (λ c. raise_if c x s) e
