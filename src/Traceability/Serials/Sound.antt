-- ===== src/Traceability/Serials/Sound.antt =====
-- Where a serial is installed, and the transactions on it, under any sequence of calls.
use mrp_django.Inventory.Model.{type_eq}
use mrp_django.Prelude.{
  ==_iff, Bool, List, Option, Option-cases, Result, [], arith, err, false, if◌then◌else◌, inl, inr,
  lookup, nat_eq, none, not, ok, option_eq, pair_eq, refl, roll_back, some, text_eq, true, ℕ, ◌&&◌,
  ◌+◌, ◌==◌, ◌||◌, ◌∷◌, ◌≡◌, ◌≢◌, ◌≤◌,
}
use mrp_django.Traceability.Serials.Posting.{
  Writes, Written, found_again, post_serial_transaction-Writes, wrote,
}
use mrp_django.Traceability.Serials.Service.{
  Db, Error, SerialComponent, SerialNumber, SerialTransaction, append_event, check_and_link,
  find_key, install_body, install_component, is_installed, link_component, post_serial_transaction,
  save_serial, serial_at,
}

-- How many active links a serial is the component of.
unfoldable pub places : ℕ → List SerialComponent → ℕ
places component [] = 0
places component (c ∷ cs) =
    (if c.component_serial == component && not c.is_removed then 1 else 0) + places component cs

-- Whether some link joins a serial to itself.
unfoldable pub has_self_link : List SerialComponent → Bool
has_self_link [] = false
has_self_link (c ∷ cs) = c.parent_serial == c.component_serial || has_self_link cs

-- What a key finds in a table of transactions is the only row with it.
unfoldable pub keys_differ : List SerialTransaction → Bool
keys_differ [] = true
keys_differ (t ∷ ts) = is_new (find_key t.idempotency_key ts) && keys_differ ts
  where
    is_new : Option SerialTransaction → Bool
    is_new none = true
    is_new (some _) = false

pub record IsSound (db : Db) : Type 0 where
  pub once : (serial : ℕ) → places serial db.components ≤ 1
  pub no_self : has_self_link db.components ≡ false
  pub keys : keys_differ db.transactions ≡ true

places-is_installed :
    (serial : ℕ) (cs : List SerialComponent) → is_installed serial cs ≡ false → places serial cs ≡ 0
unfolding places is_installed
places-is_installed serial [] e = refl
places-is_installed serial (c ∷ cs) e = ground (arith, places-is_installed serial cs (ground arith))

check_and_link-ok :
    (parent component id : ℕ) (s : SerialNumber) (db db' : Db)
    → check_and_link parent component id s db ≡ (ok tt, db')
    → (parent ≢ component)
      × (is_installed component db.components ≡ false)
      × (db' ≡ link_component parent component id s db)
unfolding check_and_link
check_and_link-ok parent component id s db db' e =
    (ground (arith, ==_iff parent component), ground arith, ground arith)

install_body-ok :
    (parent component id : ℕ) (db db' : Db)
    → install_body parent component id db ≡ (ok tt, db')
    → (s : SerialNumber) × (check_and_link parent component id s db ≡ (ok tt, db'))
unfolding install_body serial_at
install_body-ok parent component id db db' e = elim (Option-cases (lookup parent db.serials)) [
  | inl n ↦ ground (arith, n)
  | inr (p, f) ↦ elim (Option-cases (lookup component db.serials)) [
    | inl n ↦ ground (arith, f, n)
    | inr (s, g) ↦ (s, ground (arith, f, g))
  ]
]

install-IsSound :
    (parent component id : ℕ) (db : Db)
    → IsSound db
    → IsSound (install_component parent component id db).1
unfolding install_component link_component append_event save_serial places has_self_link
install-IsSound parent component id db h = by_result (install_body parent component id db) refl
  where
    by_result :
        (p : Result Error (Unit {0}) × Db)
        → install_body parent component id db ≡ p
        → IsSound (roll_back db p).1
    by_result (err x, db') e = h
    by_result (ok tt, db') e =
        let (s, linked) = install_body-ok parent component id db db' e in
        let (apart, absent, written) = check_and_link-ok parent component id s db db' linked in
        rw written (record {
          once = λ serial. ground (
            arith,
            h.once serial,
            ==_iff component serial,
            places-is_installed component db.components absent,
          );
          no_self = ground (arith, h.no_self, apart, ==_iff parent component);
          keys = h.keys;
        })

-- One call of the service.
pub data Call : Type 0 where
  post : List SerialTransaction → SerialTransaction → Call
  join : ℕ → ℕ → ℕ → Call

unfoldable pub step : Call → Db → Db
step (post first tx) db = (post_serial_transaction first tx db).1
step (join parent component id) db = (install_component parent component id db).1

unfoldable pub assemble : List Call → Db → Db
assemble [] db = db
assemble (c ∷ cs) db = assemble cs (step c db)

post-IsSound :
    (first : List SerialTransaction) (tx : SerialTransaction) (db : Db)
    → IsSound db
    → IsSound (post_serial_transaction first tx db).1
unfolding keys_differ
post-IsSound first tx db h =
    by_result (post_serial_transaction first tx db) (post_serial_transaction-Writes first tx db)
  where
    by_kind : (t : SerialTransaction) (db' : Db) → Written first tx db t db' → IsSound db'
    by_kind t db' (found_again seen same) = rw same h
    by_kind t db' (wrote s is_tx allowed found new serials log links) = record {
      once = λ serial. rw links (h.once serial);
      no_self = rw links h.no_self;
      keys = rw (log, new) h.keys;
    }

    by_result : (p : Result Error SerialTransaction × Db) → Writes first tx db p → IsSound p.1
    by_result (ok t, db') done = by_kind t db' done
    by_result (err x, db') same = rw same h

step-IsSound : (c : Call) (db : Db) → IsSound db → IsSound (step c db)
unfolding step
step-IsSound (post first tx) db h = post-IsSound first tx db h
step-IsSound (join parent component id) db h = install-IsSound parent component id db h

-- Any sequence of calls, of any sessions and with any outcome of their first reads, keeps each
-- serial installed in at most one place, none in itself, and no two transactions under one key.
pub assemble-IsSound : (cs : List Call) (db : Db) → IsSound db → IsSound (assemble cs db)
unfolding assemble
assemble-IsSound [] db h = h
assemble-IsSound (c ∷ cs) db h = assemble-IsSound cs (step c db) (step-IsSound c db h)
