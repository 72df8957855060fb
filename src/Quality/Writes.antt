-- ===== src/Quality/Writes.antt =====
-- What the writes of the quality services leave alone.
use mrp_django.Common.{DomainEvent, find_event}
use mrp_django.Inventory.Model.{type_eq}
use mrp_django.Prelude.{
  Bool, Option, Option-cases, Text, arith, eqb_ℤ, false, if◌then◌else◌, inl, inr, lookup,
  lookup-insert, lookup-insert_self, nat_eq, none, ok, option_eq, pair_eq, pos, refl, some, text_eq,
  true, ℕ, ℤ, ◌+ℤ◌, ◌<ℤ◌, ◌==◌, ◌≡◌, ◌≤ℤ◌,
}
use mrp_django.Quality.Model.{Db, InspectionOrder, NcrStatus, NonConformance, dispositioned}
use mrp_django.Quality.Service.{
  add_event, create_event, disposed, ncr_at, order_at, save_lot, save_order, set_lot, update_found,
  update_lot,
}
use mrp_django.Traceability.Lots.Service.{LotStatus}

-- The tables that the quantities are in are the same.
pub record Same (db db' : Db) : Type 0 where
  pub orders : db'.orders ≡ db.orders
  pub ncrs : db'.ncrs ≡ db.ncrs
  pub dispositions : db'.dispositions ≡ db.dispositions

pub update_lot-Same : (loc : Option ℕ) (s : LotStatus) (db : Db) → Same db (update_lot loc s db)
unfolding update_lot save_lot
update_lot-Same none s db = record { orders = refl; ncrs = refl; dispositions = refl }
update_lot-Same (some l) s db = by_row (lookup l db.lots)
  where
    by_row : (o : Option LotStatus) → Same db (update_found o l s db)
    by_row none = record { orders = refl; ncrs = refl; dispositions = refl }
    by_row (some _) = record { orders = refl; ncrs = refl; dispositions = refl }

pub set_lot-Same :
    (loc : Option ℕ) (s : LotStatus) (db db' : Db)
    → set_lot loc s db ≡ (ok tt, db')
    → Same db db' × ((l : ℕ) → loc ≡ some l → lookup l db'.lots ≡ some s)
unfolding set_lot save_lot
set_lot-Same none s db db' e =
    (record { orders = ground arith; ncrs = ground arith; dispositions = ground arith }, λ l q. cc)
set_lot-Same (some m) s db db' e = elim (Option-cases (lookup m db.lots)) [
  | inl n ↦ ground (arith, n)
  | inr (old, f) ↦ (
    record {
      orders = ground (arith, f);
      ncrs = ground (arith, f);
      dispositions = ground (arith, f);
    },
    λ l q. ground (arith, f, lookup-insert_self m s db.lots),
  )
]

pub create_event-Same :
    (e : DomainEvent) (db db' : Db)
    → create_event e db ≡ (ok tt, db')
    → Same db db' × (db'.lots ≡ db.lots)
unfolding create_event
create_event-Same e db db' c = by_event (find_event e.idempotency_key db.events) c
  where
    by_event :
        (o : Option DomainEvent)
        → add_event o e db ≡ (ok tt, db')
        → Same db db' × (db'.lots ≡ db.lots)
    by_event (some _) h = cc
    by_event none h = (
      record { orders = ground arith; ncrs = ground arith; dispositions = ground arith },
      ground arith,
    )

pub order_at-ok :
    (pk : ℕ) (o : InspectionOrder) (db db' : Db)
    → order_at pk db ≡ (ok o, db')
    → (lookup pk db.orders ≡ some o) × (db' ≡ db)
unfolding order_at
order_at-ok pk o db db' e = elim (Option-cases (lookup pk db.orders)) [
  | inl n ↦ ground (arith, n)
  | inr (o', f) ↦ (ground (arith, f), ground (arith, f))
]

pub ncr_at-ok :
    (number : Text) (n : NonConformance) (db db' : Db)
    → ncr_at number db ≡ (ok n, db')
    → (lookup number db.ncrs ≡ some n) × (db' ≡ db)
unfolding ncr_at
ncr_at-ok number n db db' e = elim (Option-cases (lookup number db.ncrs)) [
  | inl m ↦ ground (arith, m)
  | inr (n', f) ↦ (ground (arith, f), ground (arith, f))
]

-- The quantities of an order add up, and no more was inspected than received.
abbrev pub IsBalanced : Option InspectionOrder → Type 0
IsBalanced none = Unit {0}
IsBalanced (some o) =
    (pos 0 ≤ℤ o.quantity_approved)
    × (pos 0 ≤ℤ o.quantity_rejected)
    × (o.quantity_inspected ≡ o.quantity_approved +ℤ o.quantity_rejected)
    × (o.quantity_inspected ≤ℤ o.quantity_received)

abbrev pub is_dispositioned : NcrStatus → Bool
is_dispositioned dispositioned = true
is_dispositioned _ = false

-- No more was disposed than is affected, and the status says when it is all of it.
abbrev pub IsWithin : Option NonConformance → ℤ → Type 0
IsWithin none total = total ≡ pos 0
IsWithin (some n) total =
    (pos 0 ≤ℤ total)
    × (total ≤ℤ n.quantity_affected)
    × (pos 0 <ℤ n.quantity_affected)
    × (is_dispositioned n.status ≡ eqb_ℤ total n.quantity_affected)

pub record IsSound (db : Db) : Type 0 where
  pub orders : (pk : ℕ) → IsBalanced (lookup pk db.orders)
  pub ncrs : (n : Text) → IsWithin (lookup n db.ncrs) (disposed n db.dispositions)

pub Same-IsSound : (db db' : Db) → Same db db' → IsSound db → IsSound db'
Same-IsSound db db' s h = record {
  orders = λ pk. rw (s.orders) (h.orders pk);
  ncrs = λ n. rw (s.ncrs, s.dispositions) (h.ncrs n);
}

pub save_order-IsSound :
    (pk : ℕ) (o : InspectionOrder) (db : Db)
    → IsBalanced (some o)
    → IsSound db
    → IsSound (save_order pk o db)
unfolding save_order
save_order-IsSound pk o db new h = record {
  orders = λ k. rw (lookup-insert pk k o db.orders) (by_key k (pk == k));
  ncrs = h.ncrs;
}
  where
    by_key : (k : ℕ) (b : Bool) → IsBalanced (if b then some o else lookup k db.orders)
    by_key k true = new
    by_key k false = h.orders k
