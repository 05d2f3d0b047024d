-- ===== src/Ledger/Allocation.antt =====
-- transactions.py, `_allocate_order_key`: the key of a new transaction, at the end of its day or next
-- to an anchor.
pub mod Insertion
pub mod Fitting
use money_flow_service.Prelude.{
  zero, nat_eq, none, not, ◌&&◌, suc, ◌==◌, if◌then◌else◌, some, Option, ℕ,
}
use money_flow_service.Session.{pure, query, raise, Handler}
use money_flow_service.Errors.{
  transaction_insert_anchor_required, transaction_insert_anchor_date_mismatch,
  transaction_order_rebalance_failed, app_error, transaction_anchor_not_found, http_exception,
  AppError,
}
use money_flow_service.Ledger.Order.{
  place_key, rebalance_order_keys, InsertPosition, midpoint, index_of, same_day_transactions,
  next_append_order_key,
}
use money_flow_service.Prelude.Tables.{find?}
use money_flow_service.Models.{Transaction}

-- The anchor is no transaction of that day.
abbrev anchor_error : (household_id occurred_on : ℕ) → Option Transaction → AppError
anchor_error household_id occurred_on none = http_exception 404 transaction_anchor_not_found
anchor_error household_id occurred_on (some anchor) =
    if anchor.household_id == household_id && not (anchor.occurred_on == occurred_on)
    then app_error 400 transaction_insert_anchor_date_mismatch
    else http_exception 404 transaction_anchor_not_found

-- `for _ in range(2)`, with the rounds that are left.
unfoldable pub allocate_rounds :
    (rounds household_id occurred_on anchor_id : ℕ) → InsertPosition → Handler ℕ
unfolding same_day_transactions index_of midpoint rebalance_order_keys find?
allocate_rounds zero household_id occurred_on anchor_id position s =
    raise (app_error 409 transaction_order_rebalance_failed) s
allocate_rounds (suc rounds) household_id occurred_on anchor_id position s =
    let rows = same_day_transactions household_id occurred_on s.working in
    elim (index_of anchor_id rows) [
      | none ↦
          raise
            (anchor_error household_id occurred_on
              (find? (λ (t : Transaction). t.id == anchor_id) s.working.transactions))
            s
      | some i ↦ elim (place_key position rows i) [
        | some key ↦ pure key s
        | none ↦
            allocate_rounds rounds household_id occurred_on anchor_id position
              (record s { working = rebalance_order_keys household_id occurred_on s.working })
      ]
    ]

unfoldable pub allocate_order_key :
    (household_id occurred_on : ℕ) → (anchor_id : Option ℕ) → Option InsertPosition → Handler ℕ
unfolding allocate_rounds next_append_order_key
allocate_order_key household_id occurred_on none none =
    query (next_append_order_key household_id occurred_on none)
allocate_order_key household_id occurred_on (some anchor_id) (some position) =
    allocate_rounds 2 household_id occurred_on anchor_id position
allocate_order_key household_id occurred_on none (some position) =
    raise (app_error 400 transaction_insert_anchor_required)
allocate_order_key household_id occurred_on (some anchor_id) none =
    raise (app_error 400 transaction_insert_anchor_required)
