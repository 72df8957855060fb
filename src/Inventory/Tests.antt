-- ===== src/Inventory/Tests.antt =====
-- Runs of `post_inventory_transaction`, and the theorems at concrete movements.
use mrp_django.Inventory.Balances.{on_hand_at}
use mrp_django.Inventory.Effect.{AllCovered, AllNonneg}
use mrp_django.Inventory.Issues.{IsPlainIssue, post_inventory_transaction-issue_iff}
use mrp_django.Inventory.Ledger.{
  Call, IsReconciled, net, post_inventory_transaction-again, post_seeing-AllCovered, run,
  run-IsReconciled,
}
use mrp_django.Inventory.Model.{
  Balance, Db, InventoryTransaction, Location, TransactionType, available, decimal_fits, fields_fit,
  is_bad_transfer, issue, not_positive, transfer, type_eq,
}
use mrp_django.Inventory.Posting.{Posts, post_seeing-Posts}
use mrp_django.Inventory.Service.{
  add_id, ensure_balance, ensure_balances, enter, enter_and_return, find_key, full_clean,
  involved_locations, lock_and_enter, locked_balances, move_stock, post_found,
  post_inventory_transaction, post_seeing, publish, put_in, require, row_at, save_and_move,
  save_on_hand, some_missing, take_out,
}
use mrp_django.Prelude.{
  List, Option, Text, [], arith, codes, insert, int_laws, lookup, nat_eq, none, ok, option_eq,
  pair_eq, pos, refl, some, text_eq, ℤ, ◌+ℤ◌, ◌-ℤ◌, ◌↔◌, ◌∷◌, ◌≡◌, ◌≤ℤ◌,
}

abbrev shelf : Location
shelf = record { pk = 1; plant = 7 }

abbrev dock : Location
dock = record { pk = 2; plant = 7 }

-- 50.0000 on the shelf, 20.0000 of them reserved.
abbrev row : Balance
row = record { on_hand = pos 500000; allocated = pos 200000 }

abbrev stock : Db
stock = record { balances = ((9, 1), row) ∷ []; transactions = [] }

abbrev movement :
    TransactionType → Option Location → Option Location → ℤ → Option Text → InventoryTransaction
movement ty f t q k = record {
  transaction_type = ty;
  item = 9;
  from_location = f;
  to_location = t;
  quantity = q;
  reference_type = [];
  reference_id = [];
  idempotency_key = k;
}

abbrev move_ten : InventoryTransaction
move_ten = movement transfer (some shelf) (some dock) (pos 100000) (some (codes "t-1"))

abbrev issue_thirty : InventoryTransaction
issue_thirty = movement issue (some shelf) none (pos 300000) (some (codes "i-1"))

abbrev moved : Db
moved = record {
  balances =
      ((9, 1), record { on_hand = pos 400000; allocated = pos 200000 })
      ∷ ((9, 2), record { on_hand = pos 100000; allocated = pos 0 })
      ∷ [];
  transactions = move_ten ∷ [];
}

move_ten-runs : post_inventory_transaction move_ten stock ≡ (ok move_ten, moved)
unfolding post_inventory_transaction post_seeing post_found publish full_clean fields_fit
    decimal_fits not_positive is_bad_transfer save_and_move find_key move_stock involved_locations
    require add_id lock_and_enter locked_balances ensure_balances ensure_balance some_missing
    enter_and_return enter take_out put_in row_at save_on_hand lookup insert available ◌+ℤ◌ ◌-ℤ◌
move_ten-runs = refl

stock-AllNonneg : AllNonneg stock
unfolding lookup
stock-AllNonneg i l = ground arith

stock-AllCovered : AllCovered stock
unfolding lookup
stock-AllCovered i l = ground arith

post_seeing-Posts_example : Posts [] move_ten stock (post_seeing [] [] move_ten stock)
post_seeing-Posts_example = post_seeing-Posts [] [] move_ten stock

abbrev calls : List Call
calls =
    record { tx = move_ten; first = []; cleaned = [] }
    ∷ record { tx = issue_thirty; first = []; cleaned = move_ten ∷ [] }
    ∷ []

run-IsReconciled_example : IsReconciled (on_hand_at stock) (run calls stock)
unfolding net
run-IsReconciled_example =
    run-IsReconciled (on_hand_at stock) calls stock
      (record { balanced = λ i l. omega int_laws; nonneg = stock-AllNonneg })

post_seeing-AllCovered_example : AllCovered (post_seeing [] [] move_ten stock).1
post_seeing-AllCovered_example = post_seeing-AllCovered [] [] move_ten stock (cc) stock-AllCovered

post_inventory_transaction-again_example :
    post_inventory_transaction move_ten moved ≡ (ok move_ten, moved)
post_inventory_transaction-again_example =
    post_inventory_transaction-again move_ten move_ten (codes "t-1") stock moved refl move_ten-runs

issue_thirty-IsPlainIssue : IsPlainIssue issue_thirty shelf row stock
unfolding fields_fit decimal_fits find_key lookup
issue_thirty-IsPlainIssue = record {
  is_issue = refl;
  at = refl;
  nowhere_else = refl;
  fits = refl;
  positive = omega arith;
  fresh = refl;
  fresh_key = refl;
  found = refl;
}

post_inventory_transaction-issue_iff_example :
    ((post_inventory_transaction issue_thirty stock).0 ≡ ok issue_thirty)
    ↔ ((pos 300000 ≤ℤ pos 500000) × (pos 300000 ≤ℤ available row))
post_inventory_transaction-issue_iff_example =
    post_inventory_transaction-issue_iff issue_thirty shelf row stock issue_thirty-IsPlainIssue
