-- ===== src/Traceability/Lots/Balances.antt =====
-- The lot balances as functions of lot and location, and what each write does to them.
use mrp_django.Inventory.Model.{type_eq}
use mrp_django.Prelude.{
  ==_iff, Option, if◌then◌else◌, int_laws, lookup, lookup-insert, nat_eq, none, option_eq, pair_eq,
  pos, refl, some, text_eq, ℕ, ℤ, ◌&&◌, ◌+ℤ◌, ◌-ℤ◌, ◌==◌, ◌∙◌, ◌≡◌, ◌≤ℤ◌,
}
use mrp_django.Traceability.Lots.Service.{Db, LotBalance, create_missing, ensure_row, save_row}

abbrev pub on_hand_of : Option LotBalance → ℤ
on_hand_of none = pos 0
on_hand_of (some b) = b.on_hand

abbrev pub allocated_of : Option LotBalance → ℤ
allocated_of none = pos 0
allocated_of (some b) = b.allocated

abbrev pub on_hand_at : Db → ℕ → ℕ → ℤ
on_hand_at db i l = on_hand_of (lookup (i, l) db.balances)

abbrev pub allocated_at : Db → ℕ → ℕ → ℤ
allocated_at db i l = allocated_of (lookup (i, l) db.balances)

-- An entry of `d` for one lot at one location.
abbrev pub entry : ℕ → Option ℕ → ℤ → ℕ → ℕ → ℤ
entry lot loc d i l = if lot == i && loc == some l then d else pos 0

-- `CheckConstraint`: nothing negative is reserved, and no more than there is.
abbrev pub AllCovered : Db → Type 0
AllCovered db =
    (i l : ℕ) → (pos 0 ≤ℤ allocated_at db i l) × (allocated_at db i l ≤ℤ on_hand_at db i l)

-- From `db` to `db'` the stock of the lots has changed by `d` and what is reserved by `a`; a table
-- that met the constraint meets it still.
pub record Changed (d a : ℕ → ℕ → ℤ) (db db' : Db) : Type 0 where
  pub on_hand : (i l : ℕ) → on_hand_at db' i l ≡ on_hand_at db i l +ℤ d i l
  pub allocated : (i l : ℕ) → allocated_at db' i l ≡ allocated_at db i l +ℤ a i l
  pub covered : AllCovered db → AllCovered db'
  pub log : db'.transactions ≡ db.transactions
  pub reserved : db'.reservations ≡ db.reservations

abbrev pub nothing : ℕ → ℕ → ℤ
nothing i l = pos 0

pub Changed-trans :
    {d a d' a' : ℕ → ℕ → ℤ} {db mid db' : Db}
    → Changed d a db mid
    → Changed d' a' mid db'
    → Changed (λ i l. d i l +ℤ d' i l) (λ i l. a i l +ℤ a' i l) db db'
Changed-trans f s = record {
  on_hand = λ i l. rw (s.on_hand i l, f.on_hand i l) (omega int_laws);
  allocated = λ i l. rw (s.allocated i l, f.allocated i l) (omega int_laws);
  covered = λ h. s.covered (f.covered h);
  log = s.log ∙ f.log;
  reserved = s.reserved ∙ f.reserved;
}

pub Changed-nothing : (db : Db) → Changed nothing nothing db db
Changed-nothing db = record {
  on_hand = λ i l. omega int_laws;
  allocated = λ i l. omega int_laws;
  covered = λ h. h;
  log = refl;
  reserved = refl;
}

abbrev empty_row : LotBalance
empty_row = record { on_hand = pos 0; allocated = pos 0 }

-- One row written anew, with the constraint in view.
pub save_row-Changed :
    (lot l : ℕ) (old new : LotBalance) (db : Db)
    → lookup (lot, l) db.balances ≡ some old
    → ((pos 0 ≤ℤ old.allocated) × (old.allocated ≤ℤ old.on_hand)
        → (pos 0 ≤ℤ new.allocated) × (new.allocated ≤ℤ new.on_hand))
    → Changed
        (entry lot (some l) (new.on_hand -ℤ old.on_hand))
        (entry lot (some l) (new.allocated -ℤ old.allocated))
        db
        (save_row lot l new db)
unfolding save_row
save_row-Changed lot l old new db found keep = record {
  on_hand = λ i m.
      grind
        (int_laws, lookup-insert (lot, l) (i, m) new db.balances, ==_iff lot i, ==_iff l m, found);
  allocated = λ i m.
      grind
        (int_laws, lookup-insert (lot, l) (i, m) new db.balances, ==_iff lot i, ==_iff l m, found);
  covered = λ h i m. grind (
    int_laws,
    lookup-insert (lot, l) (i, m) new db.balances,
    ==_iff lot i,
    ==_iff l m,
    found,
    h i m,
  );
  log = refl;
  reserved = refl;
}

create_missing-Changed :
    (found : Option LotBalance) (lot l : ℕ) (db : Db)
    → lookup (lot, l) db.balances ≡ found
    → Changed nothing nothing db (create_missing found lot l db)
create_missing-Changed (some b) lot l db f = Changed-nothing db
create_missing-Changed none lot l db f = record {
  on_hand = λ i m.
      grind (
        int_laws,
        lookup-insert (lot, l) (i, m) empty_row db.balances,
        ==_iff lot i,
        ==_iff l m,
        f,
      );
  allocated = λ i m.
      grind (
        int_laws,
        lookup-insert (lot, l) (i, m) empty_row db.balances,
        ==_iff lot i,
        ==_iff l m,
        f,
      );
  covered = λ h i m. grind (
    int_laws,
    lookup-insert (lot, l) (i, m) empty_row db.balances,
    ==_iff lot i,
    ==_iff l m,
    f,
    h i m,
  );
  log = refl;
  reserved = refl;
}

pub ensure_row-Changed :
    (lot : ℕ) (loc : Option ℕ) (db : Db) → Changed nothing nothing db (ensure_row lot loc db)
unfolding ensure_row
ensure_row-Changed lot none db = Changed-nothing db
ensure_row-Changed lot (some l) db =
    create_missing-Changed (lookup (lot, l) db.balances) lot l db refl
