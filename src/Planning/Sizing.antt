-- ===== src/Planning/Sizing.antt =====
-- `_ceil_multiple` and `lot_size` of apps/planning/services.py, on whole numbers of 0.0001, where the
-- quantize of `q` changes nothing and the quotient of two quantities of the policy's 18 digits is
-- far enough from a whole number, or is one, for the 28 digits of a Decimal. The constraints of the
-- policy's table keep its quantities from being negative.
use Prim.Native.Nat.{max}
use mrp_django.Prelude.{
  Option, arith, negsuc, none, pos, refl, some, suc, zero, ℕ, ℤ, ◌*◌, ◌+◌, ◌/◌, ◌<◌, ◌≡◌, ◌≤◌,
}
use native.Mathlib.Nat.{div-add-mod', div-lt_iff_lt-mul, mod-lt, mul-le-mul_right}

pub data LotSizingRule : Type 0 where
  lot_for_lot fixed multiple minimum : LotSizingRule

pub record ItemPlantPolicy : Type 0 where
  pub lot_sizing_rule : LotSizingRule
  pub fixed_order_quantity : ℕ
  pub minimum_order_quantity : ℕ
  pub order_multiple : ℕ

unfoldable pub ceil_multiple : ℕ → ℕ → ℕ
ceil_multiple value zero = value
ceil_multiple value (suc m) = (value + m) / suc m * suc m

abbrev pub by_rule : LotSizingRule → ℕ → ItemPlantPolicy → ℕ
by_rule fixed n p = ceil_multiple n p.fixed_order_quantity
by_rule multiple n p = ceil_multiple n p.order_multiple
by_rule minimum n p = max n p.minimum_order_quantity
by_rule lot_for_lot n p = n

unfoldable pub sized : ℕ → Option ItemPlantPolicy → ℕ
sized n none = n
sized n (some p) = by_rule p.lot_sizing_rule n p

unfoldable pub lot_size : ℤ → Option ItemPlantPolicy → ℕ
lot_size (negsuc n) policy = 0
lot_size (pos zero) policy = 0
lot_size (pos (suc n)) policy = sized (suc n) policy

-- The quantities that a rule admits; a rule without a step admits all.
abbrev pub IsMultiple : ℕ → ℕ → Type 0
IsMultiple zero x = Unit {0}
IsMultiple (suc m) x = (count : ℕ) × (x ≡ count * suc m)

abbrev pub IsAdmitted : LotSizingRule → ItemPlantPolicy → ℕ → Type 0
IsAdmitted fixed p x = IsMultiple p.fixed_order_quantity x
IsAdmitted multiple p x = IsMultiple p.order_multiple x
IsAdmitted minimum p x = p.minimum_order_quantity ≤ x
IsAdmitted lot_for_lot p x = Unit {0}

abbrev pub IsAllowed : Option ItemPlantPolicy → ℕ → Type 0
IsAllowed none x = Unit {0}
IsAllowed (some p) x = IsAdmitted p.lot_sizing_rule p x

-- The least quantity of a kind that covers `n`.
pub record IsLeast (n : ℕ) (Is : ℕ → Type 0) (lot : ℕ) : Type 0 where
  pub is : Is lot
  pub enough : n ≤ lot
  pub least : (x : ℕ) → Is x → n ≤ x → lot ≤ x

ceil_multiple-IsLeast : (n m : ℕ) → IsLeast n (IsMultiple m) (ceil_multiple n m)
unfolding ceil_multiple
ceil_multiple-IsLeast n zero = record { is = tt; enough = omega arith; least = λ x i h. h }
ceil_multiple-IsLeast n (suc m) = record {
  is = ((n + m) / suc m, refl);
  enough = omega (arith, div-add-mod' (n + m) (suc m), mod-lt (n + m) {m = suc m} (omega arith));
  least = λ x (c, e) h.
      let below : (n + m) / suc m < suc c =
        (div-lt_iff_lt-mul {k = suc m} {x = n + m} {y = suc c} (omega arith)).1
          (grind (arith, e, h)) in
      rw e (mul-le-mul_right (suc m) (omega (arith, below)));
}

by_rule-IsLeast :
    (r : LotSizingRule) (n : ℕ) (p : ItemPlantPolicy) → IsLeast n (IsAdmitted r p) (by_rule r n p)
by_rule-IsLeast lot_for_lot n p = record { is = tt; enough = omega arith; least = λ x i h. h }
by_rule-IsLeast fixed n p = ceil_multiple-IsLeast n p.fixed_order_quantity
by_rule-IsLeast multiple n p = ceil_multiple-IsLeast n p.order_multiple
by_rule-IsLeast minimum n p = record {
  is = omega arith;
  enough = omega arith;
  least = λ x i h. omega (arith, i, h);
}

-- A requirement that is positive gets the least quantity that covers it and that the policy's rule
-- admits (a multiple of the fixed quantity or of the order multiple, at least the minimum, or
-- anything); one that is not positive gets nothing.
pub lot_size-IsLeast :
    (n : ℕ) (policy : Option ItemPlantPolicy)
    → IsLeast (suc n) (IsAllowed policy) (lot_size (pos (suc n)) policy)
      × (lot_size (pos 0) policy ≡ 0)
      × (lot_size (negsuc n) policy ≡ 0)
unfolding lot_size sized
lot_size-IsLeast n none = (record { is = tt; enough = omega arith; least = λ x i h. h }, refl, refl)
lot_size-IsLeast n (some p) = (by_rule-IsLeast p.lot_sizing_rule (suc n) p, refl, refl)
