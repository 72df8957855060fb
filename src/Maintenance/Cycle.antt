-- ===== src/Maintenance/Cycle.antt =====
-- An order of maintenance from its start to its completion.
use mrp_django.Inventory.Model.{type_eq}
use mrp_django.Maintenance.Completion.{
  add_reading, complete_found, complete_work_order, completed_order, create_reading, end_at,
  end_stop, ended, ends_early, finish_order, free_machine, is_below_zero, is_in_progress,
  latest_meter, next_due, or_latest, renew_plan, save_completed, save_plan,
}
use mrp_django.Maintenance.Model.{
  Act, Db, MaintenanceAsset, MaintenancePlan, MaintenanceWorkOrder, asset_at, integrity_error,
  machine_already_stopped, missing_row, not_in_progress, not_startable, on_floor, order_at,
}
use mrp_django.Maintenance.Orders.{
  can_start, floor_machine_at, open_stop, save_started, start_found, start_on, start_on_machine,
  start_work_order,
}
use mrp_django.Prelude.{
  ==_iff, >>=-run, Bool, List, Option, Option-cases, Table, Text, [], ap, arith, atomic-run, false,
  get_elem?, inl, inr, insert, length, lookup, modify, nat_eq, none, not, ok, option_eq, or_raise,
  or_raise-run, pair_eq, raise_if, raise_if-run, refl, set, some, suc, text_eq, true, zero, ℕ, ℤ,
  ◌++◌, ◌>>=◌, ◌>>◌, ◌||◌, ◌∙◌, ◌∷◌, ◌≡◌,
}
use mrp_django.Shopfloor.Machines.{
  DowntimeEvent, Machine, has_open, is_open_on, machine_idle, save_machine, with_status,
}

pub get_elem?-set-some :
    {A : Type 0} (xs : List A) (i : ℕ) (v : A) {w : A}
    → get_elem? xs i ≡ some w
    → get_elem? (set xs i v) i ≡ some v
get_elem?-set-some [] i v e = cc
get_elem?-set-some (x ∷ xs) zero v e = refl
get_elem?-set-some (x ∷ xs) (suc i) v e = get_elem?-set-some xs i v e

pub get_elem?-snoc :
    {A : Type 0} (xs : List A) (a : A) → get_elem? (xs ++ a ∷ []) (length xs) ≡ some a
get_elem?-snoc [] a = refl
get_elem?-snoc (x ∷ xs) a = get_elem?-snoc xs a

pub has_open-snoc :
    (k : ℕ) (ds : List DowntimeEvent) (d : DowntimeEvent)
    → has_open k (ds ++ d ∷ []) ≡ has_open k ds || is_open_on k d
unfolding has_open
has_open-snoc k [] d = ground arith
has_open-snoc k (e ∷ ds) d = ground (arith, has_open-snoc k ds d)

pub has_open-end_at :
    (k now : ℕ) (ds : List DowntimeEvent) (d : DowntimeEvent)
    → has_open k (end_at now (length ds) (ds ++ d ∷ [])) ≡ has_open k ds
unfolding has_open end_at ended is_open_on
has_open-end_at k now [] d = ground (arith, ==_iff d.ended_at none)
has_open-end_at k now (e ∷ ds) d = ground (arith, has_open-end_at k now ds d)

abbrev pub is_some : {A : Type 0} → Option A → Bool
is_some none = false
is_some (some a) = true

-- The plan of an order, when it has one, has a row.
abbrev pub has_row : Option ℕ → Table ℕ MaintenancePlan → Bool
has_row none plans = true
has_row (some k) plans = is_some (lookup k plans)

renew_plan-run :
    (o : Option ℕ) (wo : MaintenanceWorkOrder) (today : ℕ) (db : Db)
    → has_row o db.plans ≡ true
    → (plans : Table ℕ MaintenancePlan) × (renew_plan o wo today db
        ≡ (ok tt, record db { plans = plans }))
unfolding renew_plan save_plan
renew_plan-run none wo today db h = (db.plans, refl)
renew_plan-run (some k) wo today db h =
    let base = or_latest wo.meter_at_completion (latest_meter wo.asset db) in
    elim (Option-cases (lookup k db.plans)) [
      | inl n ↦ absurd (ground (arith, h, n))
      | inr (p, f) ↦ (
        insert k (next_due today base p) db.plans,
        >>=-run (or_raise (lookup k db.plans) missing_row)
            (λ q. modify (save_plan k (next_due today base q))) db
            (or_raise-run (lookup k db.plans) missing_row db f),
      )
    ]

module _ (iso : ℕ → Text) where
  unfoldable pub opened_and_started : ℕ → MaintenanceWorkOrder → ℕ → ℕ → Machine → Db → Db
  opened_and_started pk wo now k m db =
      save_started iso pk wo now (some (length db.floor.downtimes)) (open_stop pk wo now k m db)

  pub start_work_order-run :
      (pk now k : ℕ) (wo : MaintenanceWorkOrder) (a : MaintenanceAsset) (m : Machine) (db : Db)
      → get_elem? db.orders pk ≡ some wo
      → can_start wo.status ≡ true
      → lookup wo.asset db.assets ≡ some a
      → a.machine ≡ some k
      → lookup k db.floor.machines ≡ some m
      → has_open k db.floor.downtimes ≡ false
      → start_work_order iso pk now db ≡ (ok tt, opened_and_started pk wo now k m db)
  unfolding start_work_order opened_and_started order_at asset_at start_found start_on
      start_on_machine floor_machine_at
  start_work_order-run pk now k wo a m db at can fa am fm none_open =
      let event = some (length db.floor.downtimes) in
      let write = modify (open_stop pk wo now k m) >> modify (save_started iso pk wo now event) in
      let on_machine : start_on iso pk wo now (some k) db
          ≡ (ok tt, opened_and_started pk wo now k m db) =
        >>=-run (floor_machine_at k) (start_on_machine iso pk wo now k) db
          (or_raise-run (lookup k db.floor.machines) missing_row db fm)
        ∙ >>=-run (raise_if (has_open k db.floor.downtimes) machine_already_stopped) (λ _. write) db
            (raise_if-run (has_open k db.floor.downtimes) machine_already_stopped db none_open) in
      let rest : MaintenanceAsset → Act (Unit {0}) = λ b. start_on iso pk wo now b.machine in
      atomic-run (order_at pk >>= start_found iso pk now) db (
        >>=-run (order_at pk) (start_found iso pk now) db
          (or_raise-run (get_elem? db.orders pk) missing_row db at)
        ∙ >>=-run (raise_if (not (can_start wo.status)) not_startable)
            (λ _. asset_at wo.asset >>= rest) db
            (raise_if-run (not (can_start wo.status)) not_startable db (ap not can))
        ∙ >>=-run (asset_at wo.asset) rest db
            (or_raise-run (lookup wo.asset db.assets) missing_row db fa)
        ∙ ap (λ o. start_on iso pk wo now o db) am
        ∙ on_machine)

  -- What completing an order leaves of the tables.
  unfoldable pub finished :
      ℕ
      → Text
      → Option ℤ
      → ℕ
      → ℕ
      → ℕ
      → MaintenanceWorkOrder
      → Machine
      → Table ℕ MaintenancePlan
      → Db
      → Db
  finished pk notes value now k i wo m plans db =
      let done = completed_order now notes value wo in
      let read = add_reading wo.asset value db in
      let closed_at = on_floor (λ f. record f { downtimes = end_at now i f.downtimes }) read in
      let freed = on_floor (save_machine k (with_status machine_idle now m)) closed_at in
      save_completed iso pk notes now done (record freed { plans = plans })

  pub complete_work_order-run :
      (pk : ℕ) (notes : Text) (value : Option ℤ) (now today k i : ℕ) (wo : MaintenanceWorkOrder)
      (a : MaintenanceAsset) (m : Machine) (d : DowntimeEvent) (db : Db)
      → get_elem? db.orders pk ≡ some wo
      → is_in_progress wo.status ≡ true
      → wo.downtime_event ≡ some i
      → get_elem? db.floor.downtimes i ≡ some d
      → lookup wo.asset db.assets ≡ some a
      → a.machine ≡ some k
      → lookup k db.floor.machines ≡ some m
      → has_row wo.plan db.plans ≡ true
      → is_below_zero value ≡ false
      → ends_early now d ≡ false
      → (plans : Table ℕ MaintenancePlan) × (complete_work_order iso pk notes value now today db
          ≡ (ok tt, finished pk notes value now k i wo m plans db))
  unfolding complete_work_order finished order_at complete_found completed_order create_reading
      add_reading end_stop asset_at finish_order free_machine on_floor save_machine
  complete_work_order-run pk notes value now today k i wo a m d db at going stop fd fa am fm fp fit
        late =
      let done = completed_order now notes value wo in
      let read = add_reading wo.asset value db in
      let closed_at = on_floor (λ f. record f { downtimes = end_at now i f.downtimes }) read in
      let freed = on_floor (save_machine k (with_status machine_idle now m)) closed_at in
      let stop_ends : Act (Unit {0}) =
        modify (on_floor (λ f. record f { downtimes = end_at now i f.downtimes })) in
      let save : Act (Unit {0}) = modify (save_completed iso pk notes now done) in
      let renew : Act (Unit {0}) = renew_plan wo.plan done today >> save in
      let finish : MaintenanceAsset → Act (Unit {0}) = finish_order iso pk notes now today done in
      let (plans, renewed) = renew_plan-run wo.plan done today freed fp in
      (
        plans,
        atomic-run (order_at pk >>= complete_found iso pk notes value now today) db (
            >>=-run (order_at pk) (complete_found iso pk notes value now today) db
              (or_raise-run (get_elem? db.orders pk) missing_row db at)
            ∙ >>=-run (raise_if (not (is_in_progress wo.status)) not_in_progress)
                (λ _.
                  create_reading wo.asset value
                  >> (end_stop wo.downtime_event now >> (asset_at wo.asset >>= finish)))
                db (raise_if-run (not (is_in_progress wo.status)) not_in_progress db (ap not going))
            ∙ >>=-run (create_reading wo.asset value)
                (λ _. end_stop wo.downtime_event now >> (asset_at wo.asset >>= finish)) db
                (>>=-run (raise_if (is_below_zero value) integrity_error)
                  (λ _. modify (add_reading wo.asset value)) db
                  (raise_if-run (is_below_zero value) integrity_error db fit))
            ∙ >>=-run (end_stop wo.downtime_event now) (λ _. asset_at wo.asset >>= finish) read
                (ap (λ o. end_stop o now read) stop
                  ∙ >>=-run (or_raise (get_elem? read.floor.downtimes i) missing_row)
                      (λ e. raise_if (ends_early now e) integrity_error >> stop_ends) read
                      (or_raise-run (get_elem? read.floor.downtimes i) missing_row read fd)
                  ∙ >>=-run (raise_if (ends_early now d) integrity_error) (λ _. stop_ends) read
                      (raise_if-run (ends_early now d) integrity_error read late))
            ∙ >>=-run (asset_at wo.asset) finish closed_at
                (or_raise-run (lookup wo.asset db.assets) missing_row closed_at fa)
            ∙ >>=-run (free_machine a.machine now) (λ _. renew) closed_at
                (ap (λ o. free_machine o now closed_at) am
                  ∙ >>=-run (or_raise (lookup k db.floor.machines) missing_row)
                      (λ n. modify (on_floor (save_machine k (with_status machine_idle now n))))
                      closed_at
                      (or_raise-run (lookup k db.floor.machines) missing_row closed_at fm))
            ∙ >>=-run (renew_plan wo.plan done today) (λ _. save) freed renewed),
      )
