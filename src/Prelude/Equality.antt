-- ===== src/Prelude/Equality.antt =====
-- Python's `==` on keys: numbers, texts (as lists of code points), options and pairs of them.
use Prim.Native.Nat.{ℕ}
use Prim.Native.Char.{code}
use Prim.Native.String.{String}
use mathlib.Core.Path.{◌≡◌}
use mathlib.Core.Logic.{◌↔◌}
use mathlib.Core.Bool.{Bool, true, false, ◌&&◌}
use mathlib.Core.Option.{Option, none, some}
use mathlib.Core.List.{List, [], ◌∷◌}
use native.Mathlib.Omega.{arith}
use mrp_django.Prelude.Tests.{◌==◌ as nat_beq, ==_iff as nat_beq_iff}

abbrev pub Text : Type 0
Text = List ℕ

abbrev pub codes : String → Text
codes String.[] = []
codes (String.◌∷◌ c s) = code c ∷ codes s

abbrev pub text_beq : Text → Text → Bool
text_beq [] [] = true
text_beq (a ∷ s) (b ∷ t) = nat_beq a b && text_beq s t
text_beq _ _ = false

pub text_beq_iff : (s t : Text) → (text_beq s t ≡ true) ↔ (s ≡ t)
text_beq_iff [] [] = ground arith
text_beq_iff [] (b ∷ t) = ground arith
text_beq_iff (a ∷ s) [] = ground arith
text_beq_iff (a ∷ s) (b ∷ t) = ground (arith, text_beq_iff s t)

pub record Keyed {ℓ} (A : Type ℓ) : Type ℓ where
  pub same : A → A → Bool
  pub same_iff : (a b : A) → (same a b ≡ true) ↔ (a ≡ b)

-- The test that the instance in scope gives.
infix 50 ◌==◌
abbrev pub ◌==◌ {ℓ} : {A : Type ℓ} ⦃e : Keyed A⦄ → A → A → Bool
◌==◌ ⦃e⦄ = e.same

pub ==_iff {ℓ} : {A : Type ℓ} ⦃e : Keyed A⦄ (a b : A) → ((a == b) ≡ true) ↔ (a ≡ b)
==_iff ⦃e⦄ = e.same_iff

instance abbrev pub nat_eq : Keyed ℕ
nat_eq = record { same = nat_beq; same_iff = nat_beq_iff }

instance abbrev pub text_eq : Keyed Text
text_eq = record { same = text_beq; same_iff = text_beq_iff }

module _ {ℓ} {A : Type ℓ} ⦃e : Keyed A⦄ where
  abbrev pub option_beq : Option A → Option A → Bool
  option_beq none none = true
  option_beq (some a) (some b) = a == b
  option_beq _ _ = false

  pub option_beq_iff : (s t : Option A) → (option_beq s t ≡ true) ↔ (s ≡ t)
  option_beq_iff none none = ground arith
  option_beq_iff none (some b) = ground arith
  option_beq_iff (some a) none = ground arith
  option_beq_iff (some a) (some b) = ground (arith, e.same_iff a b)

instance abbrev pub option_eq {ℓ} : {A : Type ℓ} ⦃e : Keyed A⦄ → Keyed (Option A)
option_eq = record { same = option_beq; same_iff = option_beq_iff }

module _ {ℓ κ} {A : Type ℓ} {B : Type κ} ⦃d : Keyed A⦄ ⦃e : Keyed B⦄ where
  abbrev pub pair_beq : A × B → A × B → Bool
  pair_beq (a, b) (c, d) = a == c && b == d

  pub pair_beq_iff : (p q : A × B) → (pair_beq p q ≡ true) ↔ (p ≡ q)
  pair_beq_iff p q = ground (arith, d.same_iff p.0 q.0, e.same_iff p.1 q.1)

instance abbrev pub pair_eq {ℓ κ} :
    {A : Type ℓ} {B : Type κ} ⦃d : Keyed A⦄ ⦃e : Keyed B⦄ → Keyed (A × B)
pair_eq = record { same = pair_beq; same_iff = pair_beq_iff }
