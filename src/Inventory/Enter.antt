-- ===== src/Inventory/Enter.antt =====
-- The three updates of `post_inventory_transaction` together have the effect of the movement.
use mrp_django.Inventory.Effect.{
  Entered, adjust-Entered, effect, effect_of, enter-adjust, enter-both, enter-in, enter-out,
  put_in-Entered, take_out-Entered, transfer-Entered,
}
use mrp_django.Inventory.Model.{
  Db, InventoryTransaction, Location, TransactionType, adjustment, is_bad_transfer, issue,
  not_positive, production_issue, production_receipt, purchase_receipt, receipt, return, transfer,
  type_eq,
}
use mrp_django.Inventory.Service.{enter, is_incoming, is_outgoing}
use mrp_django.Inventory.Stages.{adjust-ok, put_in-ok, take_out-ok}
use mrp_django.Prelude.{
  Option-cases, ap, arith, false, inl, inr, nat_eq, ok, option_eq, pair_eq, pos, refl, some,
  text_eq, true, ◌==◌, ◌∙◌, ◌≡◌, ◌≢◌, ◌≤ℤ◌,
}

-- A transfer that `clean` lets pass names two different locations.
pub is_bad_transfer-ends :
    (tx : InventoryTransaction)
    → tx.transaction_type ≡ transfer
    → is_bad_transfer tx ≡ false
    → (f : Location) × (t : Location) × (tx.from_location ≡ some f)
      × (tx.to_location ≡ some t)
      × (f.pk ≢ t.pk)
unfolding is_bad_transfer
is_bad_transfer-ends tx q good = elim (Option-cases tx.from_location) [
  | inl n ↦ ground (arith, q, n)
  | inr (f, ef) ↦ elim (Option-cases tx.to_location) [
    | inl n ↦ ground (arith, q, n, ef)
    | inr (t, et) ↦ (f, t, ef, et, ground (arith, q, ef, et))
  ]
]

module _ (tx : InventoryTransaction) (db db' : Db)
    (e : enter db.balances tx db ≡ (ok tt, db')) where
  abbrev Has : TransactionType → Type 0
  Has ty = Entered tx.transaction_type (effect_of ty tx) db db'

  taken :
      is_outgoing tx.transaction_type ≡ true
      → is_incoming tx.transaction_type ≡ false
      → (tx.transaction_type == adjustment) ≡ false
      → Has issue
  taken o n a =
      take_out-Entered db.balances tx db db' refl
        (take_out-ok db.balances tx db db' (enter-out db.balances tx db db' o n a e))

  brought :
      is_outgoing tx.transaction_type ≡ false
      → is_incoming tx.transaction_type ≡ true
      → (tx.transaction_type == adjustment) ≡ false
      → pos 0 ≤ℤ tx.quantity
      → Has receipt
  brought o n a positive =
      let p = put_in-ok db.balances tx db db' (enter-in db.balances tx db db' o n a e) in
      put_in-Entered db.balances tx db db' p p.found positive

  corrected : tx.transaction_type ≡ adjustment → Has adjustment
  corrected q = adjust-Entered db.balances tx db db' refl (
      adjust-ok db.balances tx db db' (
        enter-adjust db.balances tx db db' (ap is_outgoing q) (ap is_incoming q)
          (ap (λ t. t == adjustment) q) e))

  carried :
      tx.transaction_type ≡ transfer
      → is_bad_transfer tx ≡ false
      → pos 0 ≤ℤ tx.quantity
      → Has transfer
  carried q good positive =
      let (f, t, ef, et, ne) = is_bad_transfer-ends tx q good in
      let (mid, out, inn) =
        enter-both db.balances tx db db' (ap is_outgoing q) (ap is_incoming q)
          (ap (λ t. t == adjustment) q) e in
      transfer-Entered db.balances tx db mid db' refl f t ef et ne positive
        (take_out-ok db.balances tx db mid out) (put_in-ok db.balances tx mid db' inn)

  -- `clean` lets only an adjustment have a quantity that is not positive.
  is_positive :
      (ty : TransactionType)
      → tx.transaction_type ≡ ty
      → (ty == adjustment) ≡ false
      → not_positive tx ≡ false
      → pos 0 ≤ℤ tx.quantity
  unfolding not_positive
  is_positive ty q n h = let k = ap (λ t. t == adjustment) q ∙ n in ground (arith, k)

  by_type :
      (ty : TransactionType)
      → tx.transaction_type ≡ ty
      → is_bad_transfer tx ≡ false
      → not_positive tx ≡ false
      → Has ty
  by_type receipt q g h =
      brought (ap is_outgoing q) (ap is_incoming q) (ap (λ t. t == adjustment) q)
        (is_positive receipt q refl h)
  by_type issue q g h = taken (ap is_outgoing q) (ap is_incoming q) (ap (λ t. t == adjustment) q)
  by_type transfer q g h = carried q g (is_positive transfer q refl h)
  by_type adjustment q g h = corrected q
  by_type purchase_receipt q g h =
      brought (ap is_outgoing q) (ap is_incoming q) (ap (λ t. t == adjustment) q)
        (is_positive purchase_receipt q refl h)
  by_type production_receipt q g h =
      brought (ap is_outgoing q) (ap is_incoming q) (ap (λ t. t == adjustment) q)
        (is_positive production_receipt q refl h)
  by_type production_issue q g h =
      taken (ap is_outgoing q) (ap is_incoming q) (ap (λ t. t == adjustment) q)
  by_type return q g h =
      brought (ap is_outgoing q) (ap is_incoming q) (ap (λ t. t == adjustment) q)
        (is_positive return q refl h)

  pub enter-Entered :
      is_bad_transfer tx ≡ false
      → not_positive tx ≡ false
      → Entered tx.transaction_type (effect tx) db db'
  unfolding effect
  enter-Entered = by_type tx.transaction_type refl
