-- ===== src/Inventory/Effect.antt =====
-- The effect of a movement on the stock, stated by itself, and the proof that the code has it.
use mathlib.Core.Option.{some-injective}
use mrp_django.Inventory.Balances.{
  Keeps, allocated_at, entry, lookup-save_on_hand_ne, on_hand_at, save_on_hand-Moved,
}
use mrp_django.Inventory.Model.{
  Balance, Db, InventoryTransaction, Location, TransactionType, adjustment, available, issue,
  production_issue, production_receipt, purchase_receipt, receipt, return, transfer, type_eq,
}
use mrp_django.Inventory.Service.{
  adjust, enter, is_incoming, is_outgoing, or_else, put_in, save_on_hand, take_out,
}
use mrp_django.Inventory.Stages.{Adjusted, PutIn, TakenOut}
use mrp_django.Prelude.{
  ==_iff, Table, ap, arith, false, int_laws, lookup, nat_eq, ok, option_eq, pair_eq, pos, some, sym,
  text_eq, true, ℕ, ℤ, ◌+ℤ◌, ◌-ℤ◌, ◌==◌, ◌∙◌, ◌≡◌, ◌≢◌, ◌≤ℤ◌,
}

-- What each type of movement does to the stock of its item, by location.
abbrev pub effect_of : TransactionType → InventoryTransaction → ℕ → ℕ → ℤ
effect_of issue tx i l = entry tx.item tx.from_location (pos 0 -ℤ tx.quantity) i l
effect_of production_issue tx i l = entry tx.item tx.from_location (pos 0 -ℤ tx.quantity) i l
effect_of transfer tx i l =
    entry tx.item tx.from_location (pos 0 -ℤ tx.quantity) i l
    +ℤ entry tx.item tx.to_location tx.quantity i l
effect_of adjustment tx i l =
    entry tx.item (or_else tx.to_location tx.from_location) tx.quantity i l
effect_of receipt tx i l = entry tx.item tx.to_location tx.quantity i l
effect_of purchase_receipt tx i l = entry tx.item tx.to_location tx.quantity i l
effect_of production_receipt tx i l = entry tx.item tx.to_location tx.quantity i l
effect_of return tx i l = entry tx.item tx.to_location tx.quantity i l

unfoldable pub effect : InventoryTransaction → ℕ → ℕ → ℤ
effect tx = effect_of tx.transaction_type tx

-- No row is negative; no row is promised beyond what it holds.
abbrev pub AllNonneg : Db → Type 0
AllNonneg db = (i l : ℕ) → pos 0 ≤ℤ on_hand_at db i l

abbrev pub AllCovered : Db → Type 0
AllCovered db = (i l : ℕ) → allocated_at db i l ≤ℤ on_hand_at db i l

-- The stock has changed by `d`, nothing was reserved or freed, and no bound was broken.
pub record Entered (ty : TransactionType) (d : ℕ → ℕ → ℤ) (db db' : Db) : Type 0 where
  pub log : db'.transactions ≡ db.transactions
  pub on_hand : (i l : ℕ) → on_hand_at db' i l ≡ on_hand_at db i l +ℤ d i l
  pub allocated : (i l : ℕ) → allocated_at db' i l ≡ allocated_at db i l
  pub nonneg : AllNonneg db → AllNonneg db'
  pub covered : ty ≢ production_issue → AllCovered db → AllCovered db'

-- One row written with a value that respects the bounds.
write-Entered :
    (ty : TransactionType) (item : ℕ) (loc : Location) (b : Balance) (v d : ℤ) (db : Db)
    → lookup (item, loc.pk) db.balances ≡ some b
    → v -ℤ b.on_hand ≡ d
    → (pos 0 ≤ℤ b.on_hand → pos 0 ≤ℤ v)
    → (ty ≢ production_issue → b.allocated ≤ℤ b.on_hand → b.allocated ≤ℤ v)
    → Entered ty (entry item (some loc) d) db (save_on_hand item (some loc) v db)
write-Entered ty item loc b v d db found diff low high =
    let m = save_on_hand-Moved item loc v b db found in
    record {
      log = m.log;
      on_hand = λ i l. rw (← diff) (m.on_hand i l);
      allocated = m.allocated;
      nonneg =
          λ h i l. rw (m.on_hand i l) (grind (int_laws, h i l, ==_iff item i, ==_iff loc.pk l));
      covered = λ ne h i l.
          rw (m.on_hand i l, m.allocated i l)
            (grind (int_laws, h i l, ==_iff item i, ==_iff loc.pk l));
    }

pub take_out-Entered :
    (rows : Table (ℕ × ℕ) Balance) (tx : InventoryTransaction) (db db' : Db)
    → rows ≡ db.balances
    → TakenOut rows tx db db'
    → Entered tx.transaction_type (entry tx.item tx.from_location (pos 0 -ℤ tx.quantity)) db db'
unfolding available
take_out-Entered rows tx db db' same t =
    rw (t.written, t.at)
      (write-Entered tx.transaction_type tx.item t.source t.row (t.row.on_hand -ℤ tx.quantity)
        (pos 0 -ℤ tx.quantity) db (rw (← same) t.found) (omega int_laws)
        (λ _. omega (int_laws, t.enough)) (λ ne _. omega (int_laws, t.free ne)))

pub put_in-Entered :
    (rows : Table (ℕ × ℕ) Balance) (tx : InventoryTransaction) (db db' : Db)
    (p : PutIn rows tx db db')
    → lookup (tx.item, p.target.pk) db.balances ≡ some p.row
    → pos 0 ≤ℤ tx.quantity
    → Entered tx.transaction_type (entry tx.item tx.to_location tx.quantity) db db'
put_in-Entered rows tx db db' p found positive =
    rw (p.written, p.at)
      (write-Entered tx.transaction_type tx.item p.target p.row (p.row.on_hand +ℤ tx.quantity)
        tx.quantity db found (omega int_laws) (λ h. omega int_laws) (λ ne h. omega int_laws))

pub adjust-Entered :
    (rows : Table (ℕ × ℕ) Balance) (tx : InventoryTransaction) (db db' : Db)
    → rows ≡ db.balances
    → Adjusted rows tx db db'
    → Entered tx.transaction_type
        (entry tx.item (or_else tx.to_location tx.from_location) tx.quantity)
        db
        db'
adjust-Entered rows tx db db' same a =
    rw (a.written, a.at)
      (write-Entered tx.transaction_type tx.item a.place a.row (a.row.on_hand +ℤ tx.quantity)
        tx.quantity db (rw (← same) a.found) (omega int_laws) (λ _. a.nonneg) (λ _ _. a.covers))

-- A transfer goes between two rows, so the second write does not depend on the first.
pub transfer-Entered :
    (rows : Table (ℕ × ℕ) Balance) (tx : InventoryTransaction) (db mid db' : Db)
    → rows ≡ db.balances
    → (f t : Location) → tx.from_location ≡ some f
    → tx.to_location ≡ some t
    → f.pk ≢ t.pk
    → pos 0 ≤ℤ tx.quantity
    → TakenOut rows tx db mid
    → PutIn rows tx mid db'
    → Entered tx.transaction_type (effect_of transfer tx) db db'
transfer-Entered rows tx db mid db' same f t ef et ne positive out inn =
    let first = take_out-Entered rows tx db mid same out in
    let source : out.source ≡ f = some-injective _ _ (sym out.at ∙ ef) in
    let target : inn.target ≡ t = some-injective _ _ (sym inn.at ∙ et) in
    let apart : out.source.pk ≢ inn.target.pk = rw (source, target) ne in
    let still : lookup (tx.item, inn.target.pk) mid.balances ≡ some inn.row =
      ap (λ (d : Db). lookup (tx.item, inn.target.pk) d.balances) out.written
      ∙ lookup-save_on_hand_ne tx.item inn.target.pk out.source _ db apart
      ∙ ap (lookup (tx.item, inn.target.pk)) (sym same)
      ∙ inn.found in
    let second = put_in-Entered rows tx mid db' inn still positive in
    record {
      log = second.log ∙ first.log;
      on_hand = λ i l. rw (second.on_hand i l, first.on_hand i l) (omega int_laws);
      allocated = λ i l. second.allocated i l ∙ first.allocated i l;
      nonneg = λ h. second.nonneg (first.nonneg h);
      covered = λ ne' h. second.covered ne' (first.covered ne' h);
    }

pub Entered-keep :
    (ty : TransactionType) (d : ℕ → ℕ → ℤ) (db mid db' : Db)
    → Keeps db mid
    → Entered ty d mid db'
    → Entered ty d db db'
Entered-keep ty d db mid db' k e = record {
  log = e.log ∙ k.log;
  on_hand = λ i l. rw (e.on_hand i l, k.on_hand i l);
  allocated = λ i l. e.allocated i l ∙ k.allocated i l;
  nonneg = λ h. e.nonneg (λ i l. rw (k.on_hand i l) (h i l));
  covered = λ ne h. e.covered ne (λ i l. rw (k.on_hand i l, k.allocated i l) (h i l));
}

module _ (rows : Table (ℕ × ℕ) Balance) (tx : InventoryTransaction) (db db' : Db) where
  pub enter-out :
      is_outgoing tx.transaction_type ≡ true
      → is_incoming tx.transaction_type ≡ false
      → (tx.transaction_type == adjustment) ≡ false
      → enter rows tx db ≡ (ok tt, db')
      → take_out rows tx db ≡ (ok tt, db')
  unfolding enter
  enter-out o n a e = ground arith

  pub enter-in :
      is_outgoing tx.transaction_type ≡ false
      → is_incoming tx.transaction_type ≡ true
      → (tx.transaction_type == adjustment) ≡ false
      → enter rows tx db ≡ (ok tt, db')
      → put_in rows tx db ≡ (ok tt, db')
  unfolding enter
  enter-in o n a e = ground arith

  pub enter-adjust :
      is_outgoing tx.transaction_type ≡ false
      → is_incoming tx.transaction_type ≡ false
      → (tx.transaction_type == adjustment) ≡ true
      → enter rows tx db ≡ (ok tt, db')
      → adjust rows tx db ≡ (ok tt, db')
  unfolding enter
  enter-adjust o n a e = ground arith

  pub enter-both :
      is_outgoing tx.transaction_type ≡ true
      → is_incoming tx.transaction_type ≡ true
      → (tx.transaction_type == adjustment) ≡ false
      → enter rows tx db ≡ (ok tt, db')
      → (mid : Db) × (take_out rows tx db ≡ (ok tt, mid)) × (put_in rows tx mid ≡ (ok tt, db'))
  unfolding enter
  enter-both o n a e = ((take_out rows tx db).1, ground arith, ground arith)
