-- ===== src/Recall/Blocking.antt =====
-- The writes of `execute_recall`.
use mrp_django.Inventory.Model.{type_eq}
use mrp_django.Prelude.{
  ==_iff, >>=-ok, Bool-cases, List, Option, Option-cases, Result, Table, [], ap, arith, err, inl,
  inr, insert, lookup, modify, nat_eq, none, not, ok, option_eq, pair_eq, raise_if, raise_if-ok,
  refl, roll_back, some, sym, text_eq, true, ℕ, ◌==◌, ◌>>=◌, ◌∙◌, ◌∷◌, ◌≡◌,
}
use mrp_django.Recall.Service.{
  Act, AffectedUnit, Db, Error, Status, add_event, affects_lot, affects_serial, block_lots,
  block_serials, block_units, case_at, execute_case, execute_found, execute_recall, executing,
  is_executable, lot_after, not_approved, serial_after,
}
use mrp_django.Traceability.Lots.Service.{LotStatus}
use mrp_django.Traceability.Serials.Service.{SerialStatus}

abbrev pub map_status : {A : Type 0} → (A → A) → Option A → Option A
map_status f none = none
map_status f (some a) = some (f a)

lookup-block_serials :
    (pk k : ℕ) (us : List AffectedUnit) (rows : Table ℕ SerialStatus)
    → lookup k (block_serials pk us rows)
      ≡ map_status (serial_after (affects_serial pk k us)) (lookup k rows)
unfolding lookup block_serials
lookup-block_serials pk k us [] = refl
lookup-block_serials pk k us ((j, s) ∷ rows) = elim (Bool-cases (j == k)) [
  | inl t ↦ rw (t, (==_iff j k).0 t) refl
  | inr f ↦ rw f (lookup-block_serials pk k us rows)
]

lookup-block_lots :
    (pk k : ℕ) (us : List AffectedUnit) (rows : Table ℕ LotStatus)
    → lookup k (block_lots pk us rows)
      ≡ map_status (lot_after (affects_lot pk k us)) (lookup k rows)
unfolding lookup block_lots
lookup-block_lots pk k us [] = refl
lookup-block_lots pk k us ((j, s) ∷ rows) = elim (Bool-cases (j == k)) [
  | inl t ↦ rw (t, (==_iff j k).0 t) refl
  | inr f ↦ rw f (lookup-block_lots pk k us rows)
]

-- What a successful execution has found and written, by its steps.
pub record Written (pk : ℕ) (db db' : Db) : Type 0 where
  pub old : Status
  pub found : lookup pk db.cases ≡ some old
  pub executable : is_executable old ≡ true
  pub cases : db'.cases ≡ insert pk executing db.cases
  pub units : db'.affected_units ≡ block_units pk db.affected_units
  pub serials :
      (k : ℕ)
      → lookup k db'.serials
        ≡ map_status (serial_after (affects_serial pk k db.affected_units)) (lookup k db.serials)
  pub lots :
      (k : ℕ)
      → lookup k db'.lots
        ≡ map_status (lot_after (affects_lot pk k db.affected_units)) (lookup k db.lots)

-- A case that is read, and what is done with it.
pub case_at-ok :
    (pk : ℕ) (f : Status → Act (Unit {0})) (db db' : Db)
    → (case_at pk >>= f) db ≡ (ok tt, db')
    → (s : Status) × (lookup pk db.cases ≡ some s) × (f s db ≡ (ok tt, db'))
unfolding case_at
case_at-ok pk f db db' e = elim (Option-cases (lookup pk db.cases)) [
  | inl n ↦ ground (arith, n)
  | inr (s, g) ↦ (s, g, ground (arith, g))
]

execute_found-Written :
    (pk : ℕ) (s : Status) (db db' : Db)
    → lookup pk db.cases ≡ some s
    → execute_found pk s db ≡ (ok tt, db')
    → Written pk db db'
unfolding execute_found execute_case add_event
execute_found-Written pk s db db' found e =
    let (_, t, e1, r1) =
      >>=-ok (raise_if (not (is_executable s)) not_approved) (λ _. modify (execute_case pk)) db e in
    let (good, same) = raise_if-ok _ not_approved db t e1 in
    let wrote : db' ≡ execute_case pk t = ap (λ p. p.1) (sym r1) in
    let done = wrote ∙ ap (execute_case pk) same in
    record {
      old = s;
      found = found;
      executable = ground (arith, good);
      cases = ap (λ (d : Db). d.cases) done;
      units = ap (λ (d : Db). d.affected_units) done;
      serials = λ k.
          ap (λ (d : Db). lookup k d.serials) done
          ∙ lookup-block_serials pk k db.affected_units db.serials;
      lots = λ k.
          ap (λ (d : Db). lookup k d.lots) done ∙ lookup-block_lots pk k db.affected_units db.lots;
    }

-- Every outcome of a call.
abbrev pub Writes : ℕ → Db → Result Error (Unit {0}) × Db → Type 0
Writes pk db (ok tt, db') = Written pk db db'
Writes pk db (err e, db') = db' ≡ db

pub execute_recall-Writes : (pk : ℕ) (db : Db) → Writes pk db (execute_recall pk db)
unfolding execute_recall
execute_recall-Writes pk db = by_result ((case_at pk >>= execute_found pk) db) refl
  where
    by_result :
        (p : Result Error (Unit {0}) × Db)
        → (case_at pk >>= execute_found pk) db ≡ p
        → Writes pk db (roll_back db p)
    by_result (err x, db') e = refl
    by_result (ok tt, db') e =
        let (s, found, done) = case_at-ok pk (execute_found pk) db db' e in
        execute_found-Written pk s db db' found done
