-- ===== src/Shopfloor/Lockout.antt =====
-- How often a PIN can be guessed.
use mrp_django.Inventory.Model.{type_eq}
use mrp_django.Prelude.{
  Bool, Bool-cases, Option, Option-cases, Text, ap, arith, err, false, if◌then◌else◌, inl, inr,
  insert, lookup, lookup-insert, lookup-insert_self, nat_eq, none, option_eq, pair_eq, refl, some,
  text_eq, true, ℕ, ◌&&◌, ◌+◌, ◌<◌, ◌==◌, ◌||◌, ◌∙◌, ◌≡◌,
}
use mrp_django.Shopfloor.Operators.{
  Db, OperatorProfile, active_profile, admit, after_failure, after_success, authenticate_operator,
  has_trace, is_empty, is_locked, lock_time, locked, max_pin_failures, refuse, save_profile,
  try_pin, try_profile,
}
use mrp_django.Traceability.Lots.Service.{free}

module _ (check : Text → Text → Bool) where
  found_profile :
      (now : ℕ) (badge pin : Text) (p : OperatorProfile) (db : Db)
      → is_empty badge ≡ false
      → is_empty pin ≡ false
      → lookup badge db ≡ some p
      → p.is_active ≡ true
      → authenticate_operator check now badge pin db ≡ try_profile check now badge pin p db
  unfolding authenticate_operator active_profile
  found_profile now badge pin p db b q found active = ground (arith, b, q, found, active)

  wrong_pin :
      (now : ℕ) (badge pin : Text) (p : OperatorProfile) (db : Db)
      → is_locked p now ≡ false
      → check pin p.pin_hash ≡ false
      → (try_profile check now badge pin p db).1 ≡ save_profile badge (after_failure p now) db
  unfolding try_profile try_pin refuse
  wrong_pin now badge pin p db free wrong = ground (arith, free, wrong)

  locked_out :
      (now : ℕ) (badge pin : Text) (p : OperatorProfile) (db : Db)
      → is_locked p now ≡ true
      → try_profile check now badge pin p db ≡ (err locked, db)
  unfolding try_profile
  locked_out now badge pin p db l = ground (arith, l)

  fifth_failure :
      (p : OperatorProfile) (now later : ℕ)
      → p.failed_attempts ≡ 4
      → later < now + lock_time
      → (is_locked (after_failure p now) later ≡ true)
        × ((after_failure p now).is_active ≡ p.is_active)
  unfolding is_locked after_failure
  fifth_failure p now later four soon = rw four (ground (arith, soon), refl)

  -- A wrong PIN after four failures, on an active profile that is not locked, locks the badge: until
  -- ten minutes after it, each attempt that gives a PIN, also the right one, is refused as locked
  -- and changes nothing.
  pub authenticate_operator-locked :
      (now later : ℕ) (badge pin next : Text) (p : OperatorProfile) (db : Db)
      → is_empty badge ≡ false
      → is_empty pin ≡ false
      → is_empty next ≡ false
      → lookup badge db ≡ some p
      → p.is_active ≡ true
      → p.failed_attempts ≡ 4
      → is_locked p now ≡ false
      → check pin p.pin_hash ≡ false
      → later < now + lock_time
      → let db' = (authenticate_operator check now badge pin db).1 in
        authenticate_operator check later badge next db' ≡ (err locked, db')
  unfolding save_profile
  authenticate_operator-locked now later badge pin next p db b q n found active four free wrong
        soon =
      let wrote : (authenticate_operator check now badge pin db).1
          ≡ insert badge (after_failure p now) db =
        ap (λ x. x.1) (found_profile now badge pin p db b q found active)
        ∙ wrong_pin now badge pin p db free wrong in
      let (barred, same) = fifth_failure p now later four soon in
      rw wrote (
        found_profile later badge next (after_failure p now) (insert badge (after_failure p now) db)
          b n (lookup-insert_self badge (after_failure p now) db) (same ∙ active)
        ∙ locked_out later badge next (after_failure p now) _ barred)

  -- Every profile has fewer failures than the bound.
  abbrev pub IsBelow : Option OperatorProfile → Type 0
  IsBelow none = Unit {0}
  IsBelow (some p) = p.failed_attempts < max_pin_failures

  after_failure-IsBelow :
      (p : OperatorProfile) (now : ℕ) → (after_failure p now).failed_attempts < max_pin_failures
  unfolding after_failure
  after_failure-IsBelow p now = ground arith

  insert-IsBelow :
      (badge k : Text) (p : OperatorProfile) (db : Db)
      → p.failed_attempts < max_pin_failures
      → IsBelow (lookup k db)
      → IsBelow (lookup k (insert badge p db))
  insert-IsBelow badge k p db low h = rw (lookup-insert badge k p db) (by_key (badge == k))
    where
      by_key : (b : Bool) → IsBelow (if b then some p else lookup k db)
      by_key true = low
      by_key false = h

  -- After any attempt, by anyone and however it ends, each profile has fewer than five failures
  -- counted, if it had before.
  pub authenticate_operator-IsBelow :
      (now : ℕ) (badge pin k : Text) (db : Db)
      → IsBelow (lookup k db)
      → IsBelow (lookup k (authenticate_operator check now badge pin db).1)
  unfolding authenticate_operator try_profile try_pin refuse admit save_profile after_success
  authenticate_operator-IsBelow now badge pin k db h =
      elim (Bool-cases (is_empty badge || is_empty pin)) [
        | inl t ↦ rw t h
        | inr f ↦ elim (Option-cases (active_profile (lookup badge db))) [
          | inl n ↦ rw (f, n) h
          | inr (p, g) ↦ elim (Bool-cases (is_locked p now)) [
            | inl l ↦ rw (f, g, l) h
            | inr o ↦ elim (Bool-cases (p.user_is_active && check pin p.pin_hash)) [
              | inl right ↦ elim (Bool-cases (has_trace p)) [
                | inl y ↦
                    rw (f, g, o, right, y)
                      (insert-IsBelow badge k (after_success p) db (omega arith) h)
                | inr z ↦ rw (f, g, o, right, z) h
              ]
              | inr wrong ↦
                  rw (f, g, o, wrong)
                    (insert-IsBelow badge k (after_failure p now) db (after_failure-IsBelow p now)
                      h)
            ]
          ]
        ]
      ]
