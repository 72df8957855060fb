-- ===== src/Prelude/Tables.antt =====
-- A database table as an association list from its unique key to the rest of the row.
use mathlib.Core.Path.{◌≡◌, refl}
use mathlib.Core.Option.{Option, none, some}
use mathlib.Core.List.{List, [], ◌∷◌}
use native.Mathlib.Omega.{arith}
use mrp_django.Prelude.Tests.{if◌then◌else◌}
use mrp_django.Prelude.Equality.{Keyed, ◌==◌, ==_iff}

abbrev pub Table {ℓ κ} : Type ℓ → Type κ → Type (ℓ ⊔ κ)
Table K V = List (K × V)

module _ {ℓ κ} {K : Type ℓ} {V : Type κ} ⦃e : Keyed K⦄ where
  unfoldable pub lookup : K → Table K V → Option V
  lookup k [] = none
  lookup k ((j, v) ∷ t) = if j == k then some v else lookup k t

  -- INSERT, or UPDATE of the row that has the key.
  unfoldable pub insert : K → V → Table K V → Table K V
  insert k v [] = (k, v) ∷ []
  insert k v ((j, w) ∷ t) = if j == k then (k, v) ∷ t else (j, w) ∷ insert k v t

  pub lookup-insert :
      (k j : K) (v : V) (t : Table K V)
      → lookup j (insert k v t) ≡ (if k == j then some v else lookup j t)
  unfolding lookup insert
  lookup-insert k j v [] = refl
  lookup-insert k j v ((i, w) ∷ t) =
      ground (arith, ==_iff k j, ==_iff i k, ==_iff i j, lookup-insert k j v t)

  pub lookup-insert_self : (k : K) (v : V) (t : Table K V) → lookup k (insert k v t) ≡ some v
  lookup-insert_self k v t = ground (arith, lookup-insert k k v t, (==_iff k k).1 refl)
