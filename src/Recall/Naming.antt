-- ===== src/Recall/Naming.antt =====
-- Which rows a recall names, and what their execution makes of their status.
use mathlib.Core.List.{Memᴰ}
use mrp_django.Inventory.Model.{type_eq}
use mrp_django.Prelude.{
  ==_iff, Bool, Bool-cases, List, [], ap, arith, false, inl, inr, nat_eq, option_eq, pair_eq, refl,
  some, sym, text_eq, true, ℕ, ◌&&◌, ◌==◌, ◌∙◌, ◌∷◌, ◌≡◌, ◌≢◌, ◌⊎◌,
}
use mrp_django.Recall.Service.{AffectedUnit, affects_lot, affects_serial, lot_after, serial_after}
use mrp_django.Traceability.Lots.Service.{LotStatus, consumed, rejected}
use mrp_django.Traceability.Serials.Service.{SerialStatus, scrapped}

-- A unit of the case names the row.
abbrev pub NamesSerial : ℕ → ℕ → List AffectedUnit → Type 0
NamesSerial pk k us = (u : AffectedUnit) × Memᴰ u us × (u.recall_case ≡ pk) × (u.serial ≡ some k)

abbrev pub NamesLot : ℕ → ℕ → List AffectedUnit → Type 0
NamesLot pk k us = (u : AffectedUnit) × Memᴰ u us × (u.recall_case ≡ pk) × (u.lot ≡ some k)

pub affects_serial-names :
    (pk k : ℕ) (us : List AffectedUnit) (u : AffectedUnit)
    → Memᴰ u us
    → u.recall_case ≡ pk
    → u.serial ≡ some k
    → affects_serial pk k us ≡ true
unfolding affects_serial
affects_serial-names pk k [] u m c s = elim m [ ]
affects_serial-names pk k (x ∷ us) u (Memᴰ.head e) c s =
    let case_of : (x.recall_case == pk) ≡ true =
      (==_iff x.recall_case pk).1 (ap (λ (v : AffectedUnit). v.recall_case) (sym e) ∙ c) in
    let row : (x.serial == some k) ≡ true =
      (==_iff x.serial (some k)).1 (ap (λ (v : AffectedUnit). v.serial) (sym e) ∙ s) in
    ground (arith, case_of, row)
affects_serial-names pk k (x ∷ us) u (Memᴰ.tail m) c s =
    ground (arith, affects_serial-names pk k us u m c s)

pub affects_serial-none :
    (pk k : ℕ) (us : List AffectedUnit) → ¬ NamesSerial pk k us → affects_serial pk k us ≡ false
unfolding affects_serial
affects_serial-none pk k [] n = refl
affects_serial-none pk k (x ∷ us) n =
    let rest = affects_serial-none pk k us (λ w. n (w.0, Memᴰ.tail w.1, w.2, w.3)) in
    elim (Bool-cases (x.recall_case == pk && x.serial == some k)) [
      | inl y ↦ absurd (
          n (
            x,
            Memᴰ.head refl,
            ground (arith, y, ==_iff x.recall_case pk),
            ground (arith, y, ==_iff x.serial (some k)),
          ))
      | inr f ↦ ground (arith, f, rest)
    ]

pub affects_lot-names :
    (pk k : ℕ) (us : List AffectedUnit) (u : AffectedUnit)
    → Memᴰ u us
    → u.recall_case ≡ pk
    → u.lot ≡ some k
    → affects_lot pk k us ≡ true
unfolding affects_lot
affects_lot-names pk k [] u m c s = elim m [ ]
affects_lot-names pk k (x ∷ us) u (Memᴰ.head e) c s =
    let case_of : (x.recall_case == pk) ≡ true =
      (==_iff x.recall_case pk).1 (ap (λ (v : AffectedUnit). v.recall_case) (sym e) ∙ c) in
    let row : (x.lot == some k) ≡ true =
      (==_iff x.lot (some k)).1 (ap (λ (v : AffectedUnit). v.lot) (sym e) ∙ s) in
    ground (arith, case_of, row)
affects_lot-names pk k (x ∷ us) u (Memᴰ.tail m) c s =
    ground (arith, affects_lot-names pk k us u m c s)

pub affects_lot-none :
    (pk k : ℕ) (us : List AffectedUnit) → ¬ NamesLot pk k us → affects_lot pk k us ≡ false
unfolding affects_lot
affects_lot-none pk k [] n = refl
affects_lot-none pk k (x ∷ us) n =
    let rest = affects_lot-none pk k us (λ w. n (w.0, Memᴰ.tail w.1, w.2, w.3)) in
    elim (Bool-cases (x.recall_case == pk && x.lot == some k)) [
      | inl y ↦ absurd (
          n (
            x,
            Memᴰ.head refl,
            ground (arith, y, ==_iff x.recall_case pk),
            ground (arith, y, ==_iff x.lot (some k)),
          ))
      | inr f ↦ ground (arith, f, rest)
    ]

pub serial_after-blocks :
    (s : SerialStatus) → s ≢ SerialStatus.scrapped → serial_after true s ≡ SerialStatus.blocked
serial_after-blocks scrapped n = absurd (n refl)
serial_after-blocks s n = refl

pub serial_after-scrapped :
    (b : Bool) → serial_after b SerialStatus.scrapped ≡ SerialStatus.scrapped
serial_after-scrapped true = refl
serial_after-scrapped false = refl

pub lot_after-blocks :
    (s : LotStatus)
    → s ≢ LotStatus.consumed
    → s ≢ LotStatus.rejected
    → lot_after true s ≡ LotStatus.blocked
lot_after-blocks consumed n m = absurd (n refl)
lot_after-blocks rejected n m = absurd (m refl)
lot_after-blocks s n m = refl

pub lot_after-ended :
    (b : Bool) (s : LotStatus)
    → (s ≡ LotStatus.consumed) ⊎ (s ≡ LotStatus.rejected)
    → lot_after b s ≡ s
lot_after-ended true s (inl e) = rw e refl
lot_after-ended true s (inr e) = rw e refl
lot_after-ended false s e = refl
