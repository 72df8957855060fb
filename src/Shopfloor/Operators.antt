-- ===== src/Shopfloor/Operators.antt =====
-- `authenticate_operator` of apps/shopfloor/services.py. `check` is Django's check_password on a PIN
-- and a hash. The badge code is given without blanks around it; times are numbers of microseconds.
use mrp_django.Inventory.Model.{type_eq}
use mrp_django.Prelude.{
  Action, Bool, Option, Table, Text, [], false, get, if◌then◌else◌, insert, leb, lookup, ltb,
  modify, nat_eq, none, not, ok, option_eq, or_raise, pair_eq, raise, raise_if, some, text_eq, true,
  ℕ, ◌&&◌, ◌+◌, ◌==◌, ◌>>=◌, ◌>>◌, ◌||◌, ◌∷◌,
}

pub record OperatorProfile : Type 0 where
  pub pin_hash : Text
  pub is_active : Bool
  pub user_is_active : Bool
  pub failed_attempts : ℕ
  pub locked_until : Option ℕ

abbrev pub Db : Type 0
Db = Table Text OperatorProfile

pub data Error : Type 0 where
  badge_or_pin_missing badge_or_pin_wrong locked : Error

abbrev pub Act : Type 0 → Type 0
Act = Action Error Db

abbrev pub max_pin_failures : ℕ
max_pin_failures = 5

-- LOCK_MINUTES
abbrev pub lock_time : ℕ
lock_time = 600000000

abbrev pub is_empty : Text → Bool
is_empty [] = true
is_empty (_ ∷ _) = false

abbrev pub is_after : Option ℕ → ℕ → Bool
is_after none now = false
is_after (some t) now = ltb now t

unfoldable pub is_locked : OperatorProfile → ℕ → Bool
is_locked p now = is_after p.locked_until now

-- `get(badge_code=..., is_active=True)`
unfoldable pub active_profile : Option OperatorProfile → Option OperatorProfile
active_profile none = none
active_profile (some p) = if p.is_active then some p else none

unfoldable pub save_profile : Text → OperatorProfile → Db → Db
save_profile badge p db = insert badge p db

unfoldable pub after_failure : OperatorProfile → ℕ → OperatorProfile
after_failure p now =
    if leb max_pin_failures (p.failed_attempts + 1)
    then record p { failed_attempts = 0; locked_until = some (now + lock_time) }
    else record p { failed_attempts = p.failed_attempts + 1 }

unfoldable pub after_success : OperatorProfile → OperatorProfile
after_success p = record p { failed_attempts = 0; locked_until = none }

unfoldable pub has_trace : OperatorProfile → Bool
has_trace p = not (p.failed_attempts == 0) || is_set p.locked_until
  where
    is_set : Option ℕ → Bool
    is_set none = false
    is_set (some _) = true

-- No transaction here: a failure is stored, and the error is raised after it.
unfoldable pub refuse : Text → OperatorProfile → ℕ → Act OperatorProfile
refuse badge p now = do modify (save_profile badge (after_failure p now)); raise badge_or_pin_wrong

unfoldable pub admit : Text → OperatorProfile → Act OperatorProfile
admit badge p db =
    if has_trace p
    then (ok (after_success p), save_profile badge (after_success p) db)
    else (ok p, db)

module _ (check : Text → Text → Bool) where
  unfoldable pub try_pin : ℕ → Text → Text → OperatorProfile → Act OperatorProfile
  try_pin now badge pin p db =
      if p.user_is_active && check pin p.pin_hash then admit badge p db else refuse badge p now db

  unfoldable pub try_profile : ℕ → Text → Text → OperatorProfile → Act OperatorProfile
  try_profile now badge pin p = do raise_if (is_locked p now) locked; try_pin now badge pin p

  unfoldable pub authenticate_operator : ℕ → Text → Text → Act OperatorProfile
  authenticate_operator now badge pin = do
    raise_if (is_empty badge || is_empty pin) badge_or_pin_missing
    db ← get
    p ← or_raise (active_profile (lookup badge db)) badge_or_pin_wrong
    try_profile now badge pin p
