-- ===== src/Recall/Execution.antt =====
-- What `execute_recall` blocks, and what it leaves alone.
use mrp_django.Inventory.Model.{type_eq}
use mrp_django.Prelude.{
  ==_iff, List, Option, Result, [], ap, arith, err, false, get_elem?, if◌then◌else◌, inl, inr,
  length, lookup, lookup-insert, nat_eq, none, ok, option_eq, pair_eq, refl, some, suc, text_eq,
  true, zero, ℕ, ◌==◌, ◌∙◌, ◌∷◌, ◌≡◌, ◌≢◌, ◌⊎◌,
}
use mrp_django.Recall.Blocking.{Writes, Written, execute_recall-Writes, map_status}
use mrp_django.Recall.Naming.{
  NamesLot, NamesSerial, affects_lot-names, affects_lot-none, affects_serial-names,
  affects_serial-none, lot_after-blocks, lot_after-ended, serial_after-blocks,
  serial_after-scrapped,
}
use mrp_django.Recall.Service.{
  AffectedUnit, Db, Error, Status, affects_lot, affects_serial, approved, block_unit, block_units,
  blocked_unit, execute_recall, executing, is_executable, lot_after, serial_after,
}
use mrp_django.Traceability.Lots.Service.{LotStatus}
use mrp_django.Traceability.Serials.Service.{SerialStatus}

-- A unit of the table before and after the execution of a case.
pub record Marked (pk : ℕ) (u u' : AffectedUnit) : Type 0 where
  pub of_other : u.recall_case ≢ pk → u' ≡ u
  pub blocked_before : u.is_blocked ≡ true → u' ≡ u
  pub blocked_now :
      u.recall_case ≡ pk
      → u.is_blocked ≡ false
      → u' ≡ record u { is_blocked = true; disposition = blocked_unit }

block_unit-Marked : (pk : ℕ) (u : AffectedUnit) → Marked pk u (block_unit pk u)
unfolding block_unit
block_unit-Marked pk u = record {
  of_other = λ n. ground (arith, n, ==_iff u.recall_case pk);
  blocked_before = λ b. ground (arith, b);
  blocked_now = λ e b. ground (arith, b, (==_iff u.recall_case pk).1 e);
}

block_units-get_elem? :
    (pk : ℕ) (us : List AffectedUnit) (i : ℕ) (u : AffectedUnit)
    → get_elem? us i ≡ some u
    → get_elem? (block_units pk us) i ≡ some (block_unit pk u)
unfolding block_units
block_units-get_elem? pk [] i u e = cc
block_units-get_elem? pk (x ∷ us) zero u e = ground arith
block_units-get_elem? pk (x ∷ us) (suc i) u e = block_units-get_elem? pk us i u e

length-block_units : (pk : ℕ) (us : List AffectedUnit) → length (block_units pk us) ≡ length us
unfolding block_units
length-block_units pk [] = refl
length-block_units pk (u ∷ us) = ap suc (length-block_units pk us)

-- What a successful execution has found, and what it leaves of the rows.
pub record Executed (pk : ℕ) (db db' : Db) : Type 0 where
  pub old : Status
  pub found : lookup pk db.cases ≡ some old
  pub executable : (old ≡ approved) ⊎ (old ≡ executing)
  pub cases : (k : ℕ) → lookup k db'.cases ≡ (if pk == k then some executing else lookup k db.cases)
  pub count : length db'.affected_units ≡ length db.affected_units
  pub units :
      (i : ℕ) (u : AffectedUnit)
      → get_elem? db.affected_units i ≡ some u
      → (u' : AffectedUnit) × (get_elem? db'.affected_units i ≡ some u') × Marked pk u u'
  pub serial_blocked :
      (k : ℕ) (s : SerialStatus)
      → NamesSerial pk k db.affected_units
      → lookup k db.serials ≡ some s
      → s ≢ SerialStatus.scrapped
      → lookup k db'.serials ≡ some SerialStatus.blocked
  pub serial_scrapped :
      (k : ℕ)
      → lookup k db.serials ≡ some SerialStatus.scrapped
      → lookup k db'.serials ≡ some SerialStatus.scrapped
  pub serial_kept :
      (k : ℕ) → ¬ NamesSerial pk k db.affected_units → lookup k db'.serials ≡ lookup k db.serials
  pub lot_blocked :
      (k : ℕ) (s : LotStatus)
      → NamesLot pk k db.affected_units
      → lookup k db.lots ≡ some s
      → s ≢ LotStatus.consumed
      → s ≢ LotStatus.rejected
      → lookup k db'.lots ≡ some LotStatus.blocked
  pub lot_ended :
      (k : ℕ) (s : LotStatus)
      → (s ≡ LotStatus.consumed) ⊎ (s ≡ LotStatus.rejected)
      → lookup k db.lots ≡ some s
      → lookup k db'.lots ≡ some s
  pub lot_kept : (k : ℕ) → ¬ NamesLot pk k db.affected_units → lookup k db'.lots ≡ lookup k db.lots

is_executable-cases : (s : Status) → is_executable s ≡ true → (s ≡ approved) ⊎ (s ≡ executing)
is_executable-cases approved e = inl refl
is_executable-cases executing e = inr refl
is_executable-cases s e = cc

map_status-same : {A : Type 0} (f : A → A) (o : Option A) → ((a : A) → f a ≡ a) → map_status f o ≡ o
map_status-same f none same = refl
map_status-same f (some a) same = ap some (same a)

Written-Executed : (pk : ℕ) (db db' : Db) → Written pk db db' → Executed pk db db'
Written-Executed pk db db' w =
    let us = db.affected_units in
    record {
      old = w.old;
      found = w.found;
      executable = is_executable-cases w.old w.executable;
      cases = λ k. ap (lookup k) w.cases ∙ lookup-insert pk k executing db.cases;
      count = ap length w.units ∙ length-block_units pk us;
      units = λ i u at. (
        block_unit pk u,
        ap (λ (vs : List AffectedUnit). get_elem? vs i) w.units
            ∙ block_units-get_elem? pk us i u at,
        block_unit-Marked pk u,
      );
      serial_blocked = λ k s n at m.
          let named = affects_serial-names pk k us n.0 n.1 n.2 n.3 in
          rw (w.serials k, at, named) (ap some (serial_after-blocks s m));
      serial_scrapped =
          λ k at. rw (w.serials k, at) (ap some (serial_after-scrapped (affects_serial pk k us)));
      serial_kept = λ k n.
          rw (w.serials k, affects_serial-none pk k us n)
            (map_status-same (serial_after false) (lookup k db.serials) (λ s. refl));
      lot_blocked = λ k s n at m p.
          let named = affects_lot-names pk k us n.0 n.1 n.2 n.3 in
          rw (w.lots k, at, named) (ap some (lot_after-blocks s m p));
      lot_ended =
          λ k s e at. rw (w.lots k, at) (ap some (lot_after-ended (affects_lot pk k us) s e));
      lot_kept = λ k n.
          rw (w.lots k, affects_lot-none pk k us n)
            (map_status-same (lot_after false) (lookup k db.lots) (λ s. refl));
    }

-- Every outcome of a call.
abbrev pub Executes : ℕ → Db → Result Error (Unit {0}) × Db → Type 0
Executes pk db (ok tt, db') = Executed pk db db'
Executes pk db (err e, db') = db' ≡ db

-- A refused execution changes nothing. One that succeeds was of a case that is approved or under
-- way; it puts that case under way and no other; it blocks each serial that a unit of the case names
-- and that is not scrapped, and each lot that a unit of the case names and that is neither consumed
-- nor rejected, and leaves every other serial and lot as it was; it marks each unit of the case that
-- was not blocked as blocked, and leaves every other unit as it was.
pub execute_recall-Executes : (pk : ℕ) (db : Db) → Executes pk db (execute_recall pk db)
execute_recall-Executes pk db = by_result (execute_recall pk db) (execute_recall-Writes pk db)
  where
    by_result : (p : Result Error (Unit {0}) × Db) → Writes pk db p → Executes pk db p
    by_result (err x, db') same = same
    by_result (ok tt, db') w = Written-Executed pk db db' w
