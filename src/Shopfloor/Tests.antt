-- ===== src/Shopfloor/Tests.antt =====
-- The theorems on a concrete operator whose PIN is 7.
use mrp_django.Inventory.Model.{type_eq}
use mrp_django.Prelude.{
  Bool, Text, [], arith, codes, err, lookup, nat_eq, none, option_eq, pair_eq, refl, text_eq, true,
  ◌==◌, ◌∷◌, ◌≡◌,
}
use mrp_django.Shopfloor.Lockout.{
  IsBelow, authenticate_operator-IsBelow, authenticate_operator-locked,
}
use mrp_django.Shopfloor.Operators.{Db, OperatorProfile, authenticate_operator, is_locked, locked}

abbrev seven : Text → Text → Bool
seven pin hash = pin == hash

abbrev operator : OperatorProfile
operator = record {
  pin_hash = 7 ∷ [];
  is_active = true;
  user_is_active = true;
  failed_attempts = 4;
  locked_until = none;
}

abbrev badges : Db
badges = (codes "B1", operator) ∷ []

authenticate_operator-locked_example :
    let db' = (authenticate_operator seven 1000 (codes "B1") (8 ∷ []) badges).1 in
    authenticate_operator seven 2000 (codes "B1") (7 ∷ []) db' ≡ (err locked, db')
unfolding lookup is_locked
authenticate_operator-locked_example =
    authenticate_operator-locked seven 1000 2000 (codes "B1") (8 ∷ []) (7 ∷ []) operator badges refl
      refl refl refl refl refl refl refl (omega arith)

authenticate_operator-IsBelow_example :
    IsBelow seven
      (lookup (codes "B1") (authenticate_operator seven 1000 (codes "B1") (8 ∷ []) badges).1)
unfolding lookup
authenticate_operator-IsBelow_example =
    authenticate_operator-IsBelow seven 1000 (codes "B1") (8 ∷ []) (codes "B1") badges (omega arith)
