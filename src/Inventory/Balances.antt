-- ===== src/Inventory/Balances.antt =====
-- The stock table seen as two functions of item and location, and what each write does to them.
use mrp_django.Inventory.Model.{Balance, Db, Location, location_id, type_eq}
use mrp_django.Inventory.Service.{ensure_balance, ensure_balances, save_on_hand}
use mrp_django.Prelude.{
  ==_iff, List, Option, Option-cases, [], arith, if◌then◌else◌, inl, inr, int_laws, lookup,
  lookup-insert, nat_eq, none, option_eq, pair_eq, pos, refl, some, text_eq, ℕ, ℤ, ◌&&◌, ◌+ℤ◌, ◌-ℤ◌,
  ◌==◌, ◌∙◌, ◌∷◌, ◌≡◌, ◌≢◌,
}

abbrev pub on_hand_of : Option Balance → ℤ
on_hand_of none = pos 0
on_hand_of (some b) = b.on_hand

abbrev pub allocated_of : Option Balance → ℤ
allocated_of none = pos 0
allocated_of (some b) = b.allocated

-- What the table holds of an item at a location; a missing row holds nothing.
abbrev pub on_hand_at : Db → ℕ → ℕ → ℤ
on_hand_at db i l = on_hand_of (lookup (i, l) db.balances)

abbrev pub allocated_at : Db → ℕ → ℕ → ℤ
allocated_at db i l = allocated_of (lookup (i, l) db.balances)

-- An entry of `d` for one item at one location.
abbrev pub entry : ℕ → Option Location → ℤ → ℕ → ℕ → ℤ
entry item loc d i l = if item == i && location_id loc == some l then d else pos 0

-- `db'` is `db` with `d` entered, and nothing else of the stock changed.
pub record Moved (item : ℕ) (loc : Option Location) (d : ℤ) (db db' : Db) : Type 0 where
  pub log : db'.transactions ≡ db.transactions
  pub on_hand : (i l : ℕ) → on_hand_at db' i l ≡ on_hand_at db i l +ℤ entry item loc d i l
  pub allocated : (i l : ℕ) → allocated_at db' i l ≡ allocated_at db i l

pub zero_entry : (a : ℤ) → a ≡ a +ℤ pos 0
zero_entry a = omega int_laws

pub ensure_balance-on_hand :
    (item m : ℕ) (db : Db) (i l : ℕ) → on_hand_at (ensure_balance item m db) i l ≡ on_hand_at db i l
unfolding ensure_balance
ensure_balance-on_hand item m db i l = ground (
  arith,
  lookup-insert (item, m) (i, l) (record { on_hand = pos 0; allocated = pos 0 }) db.balances,
  ==_iff item i,
  ==_iff m l,
)

pub ensure_balance-allocated :
    (item m : ℕ) (db : Db) (i l : ℕ)
    → allocated_at (ensure_balance item m db) i l ≡ allocated_at db i l
unfolding ensure_balance
ensure_balance-allocated item m db i l = ground (
  arith,
  lookup-insert (item, m) (i, l) (record { on_hand = pos 0; allocated = pos 0 }) db.balances,
  ==_iff item i,
  ==_iff m l,
)

-- The stock reads as before, whatever rows of nothing have been added.
pub record Keeps (db db' : Db) : Type 0 where
  pub log : db'.transactions ≡ db.transactions
  pub on_hand : (i l : ℕ) → on_hand_at db' i l ≡ on_hand_at db i l
  pub allocated : (i l : ℕ) → allocated_at db' i l ≡ allocated_at db i l

ensure_balance-log :
    (item m : ℕ) (db : Db) → (ensure_balance item m db).transactions ≡ db.transactions
unfolding ensure_balance
ensure_balance-log item m db = ground arith

pub ensure_balances-Keeps :
    (item : ℕ) (ls : List ℕ) (db : Db) → Keeps db (ensure_balances item ls db)
unfolding ensure_balances
ensure_balances-Keeps item [] db = record {
  log = refl;
  on_hand = λ i l. refl;
  allocated = λ i l. refl;
}
ensure_balances-Keeps item (m ∷ ls) db =
    let rest = ensure_balances-Keeps item ls (ensure_balance item m db) in
    record {
      log = rest.log ∙ ensure_balance-log item m db;
      on_hand = λ i l. rest.on_hand i l ∙ ensure_balance-on_hand item m db i l;
      allocated = λ i l. rest.allocated i l ∙ ensure_balance-allocated item m db i l;
    }

pub save_on_hand-Moved :
    (item : ℕ) (loc : Location) (v : ℤ) (b : Balance) (db : Db)
    → lookup (item, loc.pk) db.balances ≡ some b
    → Moved item (some loc) (v -ℤ b.on_hand) db (save_on_hand item (some loc) v db)
unfolding save_on_hand
save_on_hand-Moved item loc v b db e = record {
  log = ground arith;
  on_hand = λ i l. grind (
    int_laws,
    lookup-insert (item, loc.pk) (i, l) (record b { on_hand = v }) db.balances,
    ==_iff item i,
    ==_iff loc.pk l,
  );
  allocated = λ i l. ground (
    arith,
    lookup-insert (item, loc.pk) (i, l) (record b { on_hand = v }) db.balances,
    ==_iff item i,
    ==_iff loc.pk l,
  );
}

-- A write at one location leaves the row of another.
pub lookup-save_on_hand_ne :
    (item m : ℕ) (loc : Location) (v : ℤ) (db : Db)
    → loc.pk ≢ m
    → lookup (item, m) (save_on_hand item (some loc) v db).balances ≡ lookup (item, m) db.balances
unfolding save_on_hand
lookup-save_on_hand_ne item m loc v db ne =
    elim (Option-cases (lookup (item, loc.pk) db.balances)) [
      | inl e ↦ ground arith
      | inr (b, e) ↦ ground (
        arith,
        lookup-insert (item, loc.pk) (item, m) (record b { on_hand = v }) db.balances,
        ==_iff item item,
        ==_iff loc.pk m,
      )
    ]
