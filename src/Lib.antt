-- ===== src/Lib.antt =====
-- A model of the services that change stock, receipts, lots, serials, inspections and shop-floor
-- operations in this MRP back end, with proofs about it. The paths below are the repository's.
--
-- A service function is an `Action`: from the tables it uses, a record `Db`, to a result (`ok` or a
-- named error for each `raise`) and the tables after it. `atomic` is Django's transaction.atomic: an
-- error restores the tables. Row locks are not modelled as such: a call runs in one piece, but what
-- its first query saw is an argument where that query precedes the lock, so that every interleaving
-- with the commits of other sessions is covered. A quantity is a whole number of 0.0001, a row id is
-- a natural number, a table is an association list from its unique key, `lookup` and `insert` are
-- SELECT and INSERT or UPDATE. All functions are structural recursions. Three run on fuel: the
-- decimal digits of a row id, which have one step more than the number, and `walk` and `children`,
-- whose bounds on the rounds of a search and on the depth of a genealogy are proved to be enough.
--
--   Prelude      tests, integers, equality of keys, tables, actions and their inversion
--   Common       apps/common/services.py: append_domain_event, the event table
--   Walk         the search with a seen set and a queue that apps/planning/net_change.py writes twice
--   Inventory    apps/inventory/services.py: post_inventory_transaction with _ensure_balance,
--                _locked_balances, _validate_idempotent_replay, and apps/inventory/models.py: clean.
--                Service has the code, Stages and Enter what its updates do, Effect the effect of a
--                movement stated by itself, Keys what a
--                key finds in the log, Posting every outcome, Ledger the stock as a ledger,
--                Issues when an issue is accepted
--   Purchasing   apps/purchasing/services.py: receive_purchase_order_line, which calls Inventory;
--                Steps has what a call does, Stored what its tables hold after it, and Outcome, Lines,
--                Status and Replay its properties
--   Traceability apps/traceability/services.py. Lots: post_lot_transaction, reserve_lot,
--                change_lot_status. Serials: post_serial_transaction, install_component,
--                serial_genealogy (Genealogy, Lineage); Posting has every outcome of the first, Sound
--                the invariants of the first two
--   Quality      apps/quality/services.py: start_inspection, record_result, complete_inspection,
--                apply_disposition, which set the status of the lots of Traceability
--   Production   apps/production/services.py: advance_work_order_operation and
--                report_work_order_operation (Operations); Moves has the steps of the first, Advance
--                its outcomes, Sound the invariant of both
--   Planning     apps/planning/services.py: lot_size, _ceil_multiple; apps/planning/net_change.py:
--                affected_item_scope (NetChange, Scope)
--   Recall       apps/recall/services.py: approve_recall, execute_recall, complete_recall, which block
--                serials and lots of Traceability (Blocking its steps, Naming the rows a case names,
--                Execution and Completion the properties)
--   Shopfloor    apps/shopfloor/services.py: authenticate_operator, with Django's check_password as
--                the parameter `check`, machine_operation_action and start_downtime, which call
--                Production (Machines, Stops)
--   Maintenance  apps/maintenance/services.py: start_work_order and complete_work_order (Orders,
--                Completion), which open and end stops of Shopfloor; generate_preventive_orders and
--                report_failure (Preventive); reserve_maintenance_parts, issue_maintenance_part and
--                release_work_order (Parts, Issuing, Release), which allocate and post stock of
--                Inventory. Stops, Cycle and Lifecycle have the properties of the first two,
--                Coverage and Numbers of the next two, Backing, Reserving, Fulfilment, Reserved,
--                Supply, Released, Withdrawal and Issued those of the others
--   Audit        apps/integrated_scheduling/mps_decision_audit.py: append_audit_event and
--                verify_audit_chain (Chain), with SHA-256 as the parameter `digest`
--   Scheduling   apps/integrated_scheduling/calendar_engine.py: _subtract_interval, _subtract_busy,
--                _merge_adjacent
--
-- Not modelled: fields that are only stored (notes, users, times of day, payloads of events), the
-- HTTP layer, forms and templates, the remaining apps, and in the apps above: the analysis of a
-- recall, the release and the completion of work orders, the explosion of an MRP run, ATP,
-- capacity and the search for schedules; the OEE ratios with the calls of the shop floor that
-- compute them; of maintenance, the scheduling of orders, scores, reports and the
-- assignment of technicians; the evidence packages and anchors of the audit chain. Users and the
-- texts of the canonical JSON are not modelled either: a digest is a function of the body. The
-- database is modelled by what the code uses of it: unique keys, the checks that the models
-- declare, and that a failed INSERT without a savepoint leaves a transaction in which each further
-- query raises. Values are taken to fit their columns, except where `full_clean` tests it
-- (Inventory), and to have at most four decimals.
pub mod Prelude
pub mod Common
pub mod Walk
pub mod Inventory
pub mod Purchasing
pub mod Traceability
pub mod Quality
pub mod Scheduling
pub mod Production
pub mod Planning
pub mod Recall
pub mod Shopfloor
pub mod Maintenance
pub mod Audit
