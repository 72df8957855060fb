-- ===== src/Maintenance/Issued.antt =====
-- The issue of a part as a whole: the reservations it releases and the movement it posts.
use mathlib.Core.Path.{subst}
use mrp_django.Inventory.Balances.{allocated_at}
use mrp_django.Inventory.Effect.{AllCovered}
use mrp_django.Inventory.Ledger.{post_seeing-AllCovered}
use mrp_django.Inventory.Model.{
  Db, Error, InventoryTransaction, Location, production_issue, type_eq,
}
use mrp_django.Inventory.Posting.{Posted, Posts, entered, post_seeing-Posts, replayed}
use mrp_django.Inventory.Service.{add_id, post_inventory_transaction}
use mrp_django.Maintenance.Backing.{Backed}
use mrp_django.Maintenance.Issuing.{
  count_issue, is_id, is_open_at, issue_found, issue_maintenance_part, issue_of, issued_event,
  own_open, part_at, post_issue, release_own, write_issue,
}
use mrp_django.Maintenance.Parts.{
  MaintenancePart, Reservation, Stores, StoresAct, location_of_other_plant, on_stock, part_missing,
  part_quantity_not_positive, posted_in,
}
use mrp_django.Maintenance.Withdrawal.{AllOwn, OwnAt, release-Backed}
use mrp_django.Prelude.{
  ==_iff, >>=-Preserves, Bool-cases, List, Option, Option-cases, Preserves, Result, Text, [],
  after_atomic, after_bind, arith, atomic, err, get_elem?, guarded_step, inl, inr, leb_ℤ, ltb,
  nat_eq, none, not, ok, option_eq, or_raise, pair_eq, pos, raise_if, refl, some, sym, text_eq,
  true, ℕ, ℤ, ◌&&◌, ◌==◌, ◌>>=◌, ◌>>◌, ◌∷◌, ◌≡◌, ◌≢◌,
}

abbrev IsOf : ℕ → Option Reservation → Type 0
IsOf item none = Unit
IsOf item (some r) = r.item ≡ item

-- The reservations that are linked to a part are for its item.
abbrev pub LinksFit : ℕ → ℕ → List Reservation → List (ℕ × ℕ) → Type 0
LinksFit k item rs [] = Unit
LinksFit k item rs ((p, r) ∷ links) =
    (p == k ≡ true → IsOf item (get_elem? rs r)) × LinksFit k item rs links

add_id-AllOwn :
    (item l id : ℕ) (ids : List ℕ) (rs : List Reservation)
    → OwnAt item l (get_elem? rs id)
    → AllOwn item l ids rs
    → AllOwn item l (add_id id ids) rs
unfolding add_id
add_id-AllOwn item l id [] rs own h = (own, tt)
add_id-AllOwn item l id (j ∷ ids) rs own h = elim (Bool-cases (id == j)) [
  | inl t ↦ rw t h
  | inr n ↦ rw n (elim (Bool-cases (ltb id j)) [
    | inl t ↦ rw t (own, h)
    | inr m ↦ rw m (h.0, add_id-AllOwn item l id ids rs own h.1)
  ])
]

is_open_at-OwnAt :
    (item l : ℕ) (o : Option Reservation) → is_open_at l o ≡ true → IsOf item o → OwnAt item l o
unfolding is_open_at
is_open_at-OwnAt item l none t h = tt
is_open_at-OwnAt item l (some r) t h =
    (h, ground (arith, t, ==_iff r.location l), λ _. ground (arith, t))

own_open-AllOwn :
    (k item l : ℕ) (rs : List Reservation) (links : List (ℕ × ℕ))
    → LinksFit k item rs links
    → AllOwn item l (own_open k l rs links) rs
unfolding own_open
own_open-AllOwn k item l rs [] h = tt
own_open-AllOwn k item l rs ((p, r) ∷ links) h =
    let rest = own_open-AllOwn k item l rs links h.1 in
    elim (Bool-cases (p == k && is_open_at l (get_elem? rs r))) [
      | inl t ↦ rw t (
          add_id-AllOwn item l r (own_open k l rs links) rs
            (is_open_at-OwnAt item l (get_elem? rs r) (ground (arith, t)) (h.0 (ground (arith, t))))
            rest)
      | inr n ↦ rw n rest
    ]

release_own-Backed :
    (id_of : InventoryTransaction → ℕ) (k : ℕ) (p : MaintenancePart) (l : ℕ) (quantity : ℤ)
    (s : Stores)
    → LinksFit k p.item s.reservations s.links
    → Backed s
    → Backed (release_own id_of k p l quantity s).1
unfolding release_own
release_own-Backed id_of k p l quantity s fit h =
    release-Backed p.item l (own_open k l s.reservations s.links) quantity s
      (h, own_open-AllOwn k p.item l s.reservations s.links fit)

posted-Backed :
    (tx : InventoryTransaction) (s : Stores) (d : Db)
    → ((i l : ℕ) → allocated_at d i l ≡ allocated_at s.stock i l)
    → AllCovered d
    → Backed s
    → Backed (record s { stock = d })
posted-Backed tx s d same covered h = record {
  rests = h.rests;
  backed = λ i l. rw (same i l) (h.backed i l);
  covered = covered;
}

on_stock-Preserves :
    (tx : InventoryTransaction)
    → tx.transaction_type ≢ production_issue
    → Preserves Backed (on_stock (post_inventory_transaction tx))
unfolding post_inventory_transaction
on_stock-Preserves tx ne s h =
    let d = s.stock in
    by_result (post_inventory_transaction tx d)
      (post_seeing-Posts d.transactions d.transactions tx d)
      (post_seeing-AllCovered d.transactions d.transactions tx d ne h.covered)
  where
    same :
        (row : InventoryTransaction) (d' : Db)
        → Posted s.stock.transactions tx s.stock row d'
        → (i l : ℕ) → allocated_at d' i l ≡ allocated_at s.stock i l
    same row d' (replayed m r e) i l = rw e refl
    same row d' (entered is_tx fresh e) i l = e.allocated i l

    by_result :
        (r : Result Error InventoryTransaction × Db)
        → Posts s.stock.transactions tx s.stock r
        → AllCovered r.1
        → Backed (posted_in s r).1
    by_result (ok row, d') posts covered = posted-Backed tx s d' (same row d' posts) covered h
    by_result (err x, d') e covered = posted-Backed tx s d' (λ i l. rw e refl) covered h

module _ (id_of : InventoryTransaction → ℕ) where
  post_issue-Preserves :
      (k : ℕ) (p : MaintenancePart) (location : Location) (quantity : ℤ) (key : Text)
      → Preserves Backed (post_issue id_of k p location quantity key)
  unfolding post_issue issue_of write_issue count_issue issued_event
  post_issue-Preserves k p location quantity key =
      >>=-Preserves Backed
        (on_stock (post_inventory_transaction (issue_of p location quantity key)))
        (write_issue id_of k p location quantity)
        (on_stock-Preserves (issue_of p location quantity key) (λ e. cc e))
        (λ row t q. elim (Bool-cases (is_id p.issue_transaction (id_of row))) [
          | inl x ↦ rw x (record { rests = q.rests; backed = q.backed; covered = q.covered })
          | inr n ↦ rw n (record { rests = q.rests; backed = q.backed; covered = q.covered })
        ])

  issue_found-Backed :
      (k : ℕ) (location : Location) (quantity : ℤ) (key : Text) (p : MaintenancePart) (s : Stores)
      → LinksFit k p.item s.reservations s.links
      → Backed s
      → Backed (issue_found id_of k location quantity key p s).1
  unfolding issue_found
  issue_found-Backed k location quantity key p s fit h =
      let free = release_own id_of k p location.pk quantity in
      let posting : StoresAct (Unit {0}) = post_issue id_of k p location quantity key in
      guarded_step Backed (leb_ℤ quantity (pos 0)) part_quantity_not_positive
        (raise_if (not (location.plant == p.plant)) location_of_other_plant >> (free >> posting)) s
        h
        (λ _.
          guarded_step Backed (not (location.plant == p.plant)) location_of_other_plant
            (free >> posting) s h
            (λ _.
              after_bind Backed Backed free (λ _. posting) s
                (release_own-Backed id_of k p location.pk quantity s fit h) (λ t q. q)
                (λ _ t q. post_issue-Preserves k p location quantity key t q)))

  -- When the reservations that are linked to the part are for its item, an issue of it, accepted or
  -- refused, keeps this: no reservation is consumed beyond its quantity, what the open ones hold of an
  -- item at a location is within what is allocated there, and that within what is on hand.
  pub issue_maintenance_part-Backed :
      (k : ℕ) (location : Location) (quantity : ℤ) (key : Text) (s : Stores)
      → ((p : MaintenancePart)
          → get_elem? s.parts k ≡ some p
          → LinksFit k p.item s.reservations s.links)
      → Backed s
      → Backed (issue_maintenance_part id_of k location quantity key s).1
  unfolding issue_maintenance_part part_at
  issue_maintenance_part-Backed k location quantity key s fit h =
      let found = issue_found id_of k location quantity key in
      let after : Option MaintenancePart → Type 0 =
        λ o. Backed (atomic (λ t. (or_raise o part_missing >>= found) t) s).1 in
      elim (Option-cases (get_elem? s.parts k)) [
        | inl n ↦ subst after (sym n) h
        | inr (p, e) ↦ subst after (sym e) (
            after_atomic Backed (found p) s h
              (issue_found-Backed k location quantity key p s (fit p e) h))
      ]
