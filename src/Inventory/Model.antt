-- ===== src/Inventory/Model.antt =====
-- apps/inventory/models.py: the stock tables and the validation of a movement.
-- Quantities are DecimalField(18, 4), kept here as whole numbers of 0.0001. Row ids, notes, users
-- and time stamps are left out: the services only store them.
use mrp_django.Prelude.{
  Action, Bool, Keyed, List, Option, Table, Text, arith, leb, leb_ℤ, length, ltb, nat_eq, neg_part,
  none, not, option_eq, pair_eq, pos, pos_part, some, text_eq, true, ℕ, ℤ, ◌&&◌, ◌+◌, ◌-ℤ◌, ◌==◌,
  ◌^◌, ◌↔◌, ◌≡◌,
}

-- A row of `Location`, with the plant of its warehouse.
pub record Location : Type 0 where
  pub pk : ℕ
  pub plant : ℕ

-- `StockBalance`; its unique key is the pair of item and location.
pub record Balance : Type 0 where
  pub on_hand : ℤ
  pub allocated : ℤ

-- `StockBalance.available`
unfoldable pub available : Balance → ℤ
available b = b.on_hand -ℤ b.allocated

pub data TransactionType : Type 0 where
  receipt issue transfer adjustment : TransactionType
  purchase_receipt production_receipt production_issue return : TransactionType

-- The position in the declaration, by which two types are compared.
abbrev pub type_code : TransactionType → ℕ
type_code receipt = 0
type_code issue = 1
type_code transfer = 2
type_code adjustment = 3
type_code purchase_receipt = 4
type_code production_receipt = 5
type_code production_issue = 6
type_code return = 7

pub type_code_iff : (a b : TransactionType) → ((type_code a == type_code b) ≡ true) ↔ (a ≡ b)
type_code_iff receipt b = ground arith
type_code_iff issue b = ground arith
type_code_iff transfer b = ground arith
type_code_iff adjustment b = ground arith
type_code_iff purchase_receipt b = ground arith
type_code_iff production_receipt b = ground arith
type_code_iff production_issue b = ground arith
type_code_iff return b = ground arith

instance abbrev pub type_eq : Keyed TransactionType
type_eq = record { same = λ a b. type_code a == type_code b; same_iff = type_code_iff }

pub record InventoryTransaction : Type 0 where
  pub transaction_type : TransactionType
  pub item : ℕ
  pub from_location : Option Location
  pub to_location : Option Location
  pub quantity : ℤ
  pub reference_type : Text
  pub reference_id : Text
  pub idempotency_key : Option Text

pub data Error : Type 0 where
  key_reused invalid_field quantity_not_positive bad_transfer duplicate_key : Error
  zero_quantity integrity_error source_required target_required location_required : Error
  other_plant stock_missing short_on_hand short_available negative_balance below_allocated : Error

pub record Db : Type 0 where
  pub balances : Table (ℕ × ℕ) Balance
  pub transactions : List InventoryTransaction

abbrev pub Post : Type 0 → Type 0
Post = Action Error Db

-- `from_location_id`, `to_location_id`
abbrev pub location_id : Option Location → Option ℕ
location_id none = none
location_id (some l) = some l.pk

abbrev pub text_fits : ℕ → Option Text → Bool
text_fits n none = true
text_fits n (some t) = leb (length t) n

-- `DecimalField(max_digits=18, decimal_places=4)`
unfoldable pub decimal_fits : ℤ → Bool
decimal_fits q = ltb (pos_part q + neg_part q) (10 ^ 18)

-- The field validators that `full_clean` runs: lengths and digits.
unfoldable pub fields_fit : InventoryTransaction → Bool
unfolding decimal_fits
fields_fit tx =
    decimal_fits tx.quantity
    && text_fits 40 (some tx.reference_type)
    && text_fits 64 (some tx.reference_id)
    && text_fits 160 tx.idempotency_key

-- The two tests of `InventoryTransaction.clean`.
unfoldable pub not_positive : InventoryTransaction → Bool
not_positive tx = not (tx.transaction_type == adjustment) && leb_ℤ tx.quantity (pos 0)

abbrev pub same_or_missing : Option ℕ → Option ℕ → Bool
same_or_missing (some f) (some t) = f == t
same_or_missing _ _ = true

unfoldable pub is_bad_transfer : InventoryTransaction → Bool
is_bad_transfer tx =
    tx.transaction_type == transfer
    && same_or_missing (location_id tx.from_location) (location_id tx.to_location)
