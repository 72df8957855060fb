-- ===== src/Quality/Dispositions.antt =====
-- What `apply_disposition` has tested, decided and written.
use mrp_django.Inventory.Model.{type_eq}
use mrp_django.Prelude.{
  ==_iff, >>=-ok, Bool, Result, Text, ap, arith, eqb_ℤ, eqb_ℤ_iff, err, false, if◌then◌else◌,
  lookup, lookup-insert, nat_eq, ok, option_eq, pair_eq, pos, pure, refl, roll_back, some, text_eq,
  true, ℕ, ℤ, ◌+ℤ◌, ◌<ℤ◌, ◌==◌, ◌>>=◌, ◌>>◌, ◌∙◌, ◌∷◌, ◌≡◌, ◌≢◌, ◌≤ℤ◌,
}
use mrp_django.Quality.Model.{
  Db, Decision, Disposition, Error, NonConformance, dispositioned, scrap, use_as_is,
}
use mrp_django.Quality.Service.{
  apply_disposition, close_ncr, create_disposition, create_event, decided, dispose_found, disposed,
  event_of, finish_disposition, ncr_at, set_lot,
}
use mrp_django.Quality.Writes.{Same, create_event-Same, ncr_at-ok, set_lot-Same}
use mrp_django.Traceability.Lots.Service.{LotStatus, quarantine}

-- What a successful disposition has found and written.
pub record Disposed (d : Disposition) (db : Db) (r : Disposition) (db' : Db) : Type 0 where
  pub old : NonConformance
  pub new : NonConformance
  pub found : lookup d.nonconformance db.ncrs ≡ some old
  pub returned : r ≡ d
  pub positive : pos 0 <ℤ d.quantity
  pub within : disposed d.nonconformance db.dispositions +ℤ d.quantity ≤ℤ old.quantity_affected
  pub orders : db'.orders ≡ db.orders
  pub dispositions : db'.dispositions ≡ d ∷ db.dispositions
  pub stored :
      (n : Text)
      → lookup n db'.ncrs ≡ (if d.nonconformance == n then some new else lookup n db.ncrs)
  pub affected : new.quantity_affected ≡ old.quantity_affected
  pub all_done :
      disposed d.nonconformance db.dispositions +ℤ d.quantity ≡ old.quantity_affected
      → new.status ≡ dispositioned
  pub part_done :
      disposed d.nonconformance db.dispositions +ℤ d.quantity ≢ old.quantity_affected
      → new.status ≡ old.status
  pub lot_freed :
      (l : ℕ)
      → old.lot ≡ some l
      → d.decision ≡ use_as_is
      → disposed d.nonconformance db.dispositions +ℤ d.quantity ≡ old.quantity_affected
      → lookup l db'.lots ≡ some LotStatus.available
  pub lot_rejected :
      (l : ℕ)
      → old.lot ≡ some l
      → d.decision ≡ scrap
      → disposed d.nonconformance db.dispositions +ℤ d.quantity ≡ old.quantity_affected
      → lookup l db'.lots ≡ some LotStatus.rejected
  pub lot_held :
      (l : ℕ)
      → old.lot ≡ some l
      → d.decision ≢ use_as_is
      → d.decision ≢ scrap
      → lookup l db'.lots ≡ some quarantine
  pub lot_waits :
      (l : ℕ)
      → old.lot ≡ some l
      → disposed d.nonconformance db.dispositions +ℤ d.quantity ≢ old.quantity_affected
      → lookup l db'.lots ≡ some quarantine

-- The status of the lot, by decision and by whether all of it is disposed.
decided-done :
    (c : Decision)
    → (c ≡ use_as_is → decided c true ≡ LotStatus.available)
      × (c ≡ scrap → decided c true ≡ LotStatus.rejected)
decided-done c = (ground arith, ground arith)

decided-held : (c : Decision) (b : Bool) → c ≢ use_as_is → c ≢ scrap → decided c b ≡ quarantine
decided-held use_as_is b n m = absurd (n refl)
decided-held scrap b n m = absurd (m refl)
decided-held c b n m = refl

decided-waits : (c : Decision) → decided c false ≡ quarantine
decided-waits use_as_is = refl
decided-waits c = refl

finish_disposition-ok :
    (ncr : NonConformance) (d r : Disposition) (total : ℤ) (now : Text) (db db' : Db)
    → finish_disposition ncr d total now db ≡ (ok r, db')
    → (r ≡ d)
      × Same db db'
      × ((l : ℕ)
          → ncr.lot ≡ some l
          → lookup l db'.lots ≡ some (decided d.decision (eqb_ℤ total ncr.quantity_affected)))
unfolding finish_disposition
finish_disposition-ok ncr d r total now db db' e =
    let s = decided d.decision (eqb_ℤ total ncr.quantity_affected) in
    let ev =
      event_of "quality.nonconformance.dispositioned" "NonConformance" d.nonconformance now in
    let (_, t, e1, r1) = >>=-ok (set_lot ncr.lot s) (λ _. create_event ev >> pure d) db e in
    let (kept, lot) = set_lot-Same ncr.lot s db t e1 in
    let (_, u, e2, r2) = >>=-ok (create_event ev) (λ _. pure d) t r1 in
    let (kept2, lots) = create_event-Same ev t u e2 in
    let last : db' ≡ u = ground arith in
    (
      ground arith,
      record {
        orders = rw last (kept2.orders ∙ kept.orders);
        ncrs = rw last (kept2.ncrs ∙ kept.ncrs);
        dispositions = rw last (kept2.dispositions ∙ kept.dispositions);
      },
      λ l q. rw last (ap (lookup l) lots ∙ lot l q),
    )

dispose_found-guards :
    (d r : Disposition) (now : Text) (ncr : NonConformance) (db db' : Db) (total : ℤ)
    → total ≡ disposed d.nonconformance db.dispositions +ℤ d.quantity
    → dispose_found d now ncr db ≡ (ok r, db')
    → (pos 0 <ℤ d.quantity)
      × (total ≤ℤ ncr.quantity_affected)
      × (finish_disposition ncr d total now
            (close_ncr d.nonconformance ncr total (create_disposition d db))
          ≡ (ok r, db'))
unfolding dispose_found
dispose_found-guards d r now ncr db db' total is_total e =
    (ground (arith, is_total), ground (arith, is_total), ground (arith, is_total))

close_ncr-keeps :
    (number : Text) (ncr : NonConformance) (d : Disposition) (total : ℤ) (db : Db)
    → ((close_ncr number ncr total (create_disposition d db)).orders ≡ db.orders)
      × ((close_ncr number ncr total (create_disposition d db)).dispositions ≡ d ∷ db.dispositions)
unfolding close_ncr create_disposition
close_ncr-keeps number ncr d total db = (ground arith, ground arith)

-- The row after it.
abbrev after : NonConformance → ℤ → NonConformance
after ncr total =
    if eqb_ℤ total ncr.quantity_affected then record ncr { status = dispositioned } else ncr

close_ncr-stored :
    (number : Text) (ncr : NonConformance) (d : Disposition) (total : ℤ) (db : Db) (n : Text)
    → lookup number db.ncrs ≡ some ncr
    → lookup n (close_ncr number ncr total (create_disposition d db)).ncrs
      ≡ (if number == n then some (after ncr total) else lookup n db.ncrs)
unfolding close_ncr create_disposition
close_ncr-stored number ncr d total db n found = ground (
  arith,
  found,
  ==_iff number n,
  lookup-insert number n (record ncr { status = dispositioned }) db.ncrs,
)

dispose_found-Disposed :
    (d r : Disposition) (now : Text) (old : NonConformance) (db db' : Db)
    → lookup d.nonconformance db.ncrs ≡ some old
    → dispose_found d now old db ≡ (ok r, db')
    → Disposed d db r db'
dispose_found-Disposed d r now old db db' found e =
    let total = disposed d.nonconformance db.dispositions +ℤ d.quantity in
    let (positive, within, closing) = dispose_found-guards d r now old db db' total refl e in
    let (same, kept, lot) = finish_disposition-ok old d r total now _ db' closing in
    let (orders, dispositions) = close_ncr-keeps d.nonconformance old d total db in
    record {
      old = old;
      new = after old total;
      found = found;
      returned = same;
      positive = positive;
      within = within;
      orders = kept.orders ∙ orders;
      dispositions = kept.dispositions ∙ dispositions;
      stored =
          λ n. ap (lookup n) kept.ncrs ∙ close_ncr-stored d.nonconformance old d total db n found;
      affected = ground arith;
      all_done = λ q. ground (arith, (eqb_ℤ_iff total old.quantity_affected).1 q);
      part_done = λ q. ground (arith, eqb_ℤ_iff total old.quantity_affected);
      lot_freed = λ l q c full.
          lot l q
          ∙ ap some (
              ap (decided d.decision) ((eqb_ℤ_iff total old.quantity_affected).1 full)
              ∙ (decided-done d.decision).0 c);
      lot_rejected = λ l q c full.
          lot l q
          ∙ ap some (
              ap (decided d.decision) ((eqb_ℤ_iff total old.quantity_affected).1 full)
              ∙ (decided-done d.decision).1 c);
      lot_held = λ l q n m.
          lot l q ∙ ap some (decided-held d.decision (eqb_ℤ total old.quantity_affected) n m);
      lot_waits = λ l q open_part.
          let part : eqb_ℤ total old.quantity_affected ≡ false =
            ground (arith, eqb_ℤ_iff total old.quantity_affected, open_part) in
          lot l q ∙ ap some (ap (decided d.decision) part ∙ decided-waits d.decision);
    }

-- Every outcome of a disposition.
abbrev pub Disposes : Disposition → Db → Result Error Disposition × Db → Type 0
Disposes d db (ok r, db') = Disposed d db r db'
Disposes d db (err e, db') = db' ≡ db

-- A refused disposition changes nothing. One that succeeds is for a positive quantity that, with
-- what was disposed before, stays within what is affected; it is added to the dispositions; the
-- non-conformance gets the status DISPOSITIONED exactly when all of it is disposed, else keeps its
-- status; its lot, if any, becomes available when all of it is disposed and the decision is to use it
-- as is, rejected when all of it is disposed and the decision is to scrap it, and stays in quarantine
-- in every other case; no inspection order changes.
pub apply_disposition-Disposes :
    (d : Disposition) (now : Text) (db : Db) → Disposes d db (apply_disposition d now db)
unfolding apply_disposition
apply_disposition-Disposes d now db =
    by_result ((ncr_at d.nonconformance >>= dispose_found d now) db) refl
  where
    by_result :
        (p : Result Error Disposition × Db)
        → (ncr_at d.nonconformance >>= dispose_found d now) db ≡ p
        → Disposes d db (roll_back db p)
    by_result (err x, db') e = refl
    by_result (ok r, db') e =
        let (old, s, e1, r1) = >>=-ok (ncr_at d.nonconformance) (dispose_found d now) db e in
        let (found, same) = ncr_at-ok d.nonconformance old db s e1 in
        dispose_found-Disposed d r now old db db' found (rw same at r1)
