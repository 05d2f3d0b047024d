-- ===== src/Ledger/Order.antt =====
-- transactions.py: the order keys of the transactions of one day, and where a new one is put.
use money_flow_service.Prelude.Tables.{update, select}
use money_flow_service.Prelude.{
  ◌/◌, leb, false, ◌-◌, nat_eq, ltb, not, zero, ◌+◌, ◌*◌, ◌&&◌, [], true, if◌then◌else◌, max, ◌==◌,
  suc, Bool, get_elem?, none, ◌∷◌, some, List, ℕ, Option,
}
use money_flow_service.Models.{Database, Transaction}
use mathlib.Core.Option

-- `_TRANSACTION_ORDER_STEP`
abbrev pub order_step : ℕ
order_step = 1024

pub data InsertPosition : Type 0 where
  above below : InsertPosition

-- `_same_day_ordering`: by key, then by time of creation, then by id.
abbrev pub leq_same_day : Transaction → Transaction → Bool
leq_same_day a b =
    if ltb a.order_key b.order_key
    then true
    else if ltb b.order_key a.order_key
    then false
    else if ltb a.created_at b.created_at
    then true
    else if ltb b.created_at a.created_at
    then false
    else leb a.id b.id

unfoldable pub insert_by :
    (Transaction → Transaction → Bool) → Transaction → List Transaction → List Transaction
insert_by leq t [] = t ∷ []
insert_by leq t (u ∷ us) = if leq t u then t ∷ u ∷ us else u ∷ insert_by leq t us

-- ORDER BY
unfoldable pub sort_by : (Transaction → Transaction → Bool) → List Transaction → List Transaction
unfolding insert_by
sort_by leq [] = []
sort_by leq (t ∷ ts) = insert_by leq t (sort_by leq ts)

abbrev pub is_on_day : (household_id occurred_on : ℕ) → Transaction → Bool
is_on_day household_id occurred_on t =
    t.household_id == household_id && t.occurred_on == occurred_on

unfoldable pub same_day_transactions : (household_id occurred_on : ℕ) → Database → List Transaction
unfolding sort_by select
same_day_transactions household_id occurred_on db =
    sort_by leq_same_day (select (is_on_day household_id occurred_on) db.transactions)

-- `for index, transaction in enumerate(rows, start=1)`: keys that are a step apart.
unfoldable pub renumber : ℕ → List Transaction → List Transaction
renumber index [] = []
renumber index (t ∷ ts) = record t { order_key = index * order_step } ∷ renumber (index + 1) ts

-- The key that a row gets, if it is among the renumbered ones.
unfoldable pub key_in : List Transaction → Transaction → ℕ
key_in [] t = t.order_key
key_in (u ∷ us) t = if u.id == t.id then u.order_key else key_in us t

-- `_rebalance_order_keys`, with the flush: the rows of the day are stored with their new keys.
unfoldable pub rebalance_order_keys : (household_id occurred_on : ℕ) → Database → Database
unfolding same_day_transactions renumber key_in update
rebalance_order_keys household_id occurred_on db =
    let rows = renumber 1 (same_day_transactions household_id occurred_on db) in
    record db {
      transactions =
          update (is_on_day household_id occurred_on)
            (λ (t : Transaction). record t { order_key = key_in rows t }) db.transactions;
    }

-- The largest key of the rows, or 0.
unfoldable pub max_key : List Transaction → ℕ
max_key [] = 0
max_key (t ∷ ts) = max t.order_key (max_key ts)

abbrev pub is_not : Option ℕ → Transaction → Bool
is_not none t = true
is_not (some i) t = not (t.id == i)

-- `_next_append_order_key`
unfoldable pub next_append_order_key :
    (household_id occurred_on : ℕ) → (exclude_transaction_id : Option ℕ) → Database → ℕ
unfolding max_key select
next_append_order_key household_id occurred_on exclude db =
    max_key (select (λ t. is_on_day household_id occurred_on t && is_not exclude t) db.transactions)
    + order_step

-- `int(before_key or 0)`
abbrev pub key_or_zero : Option ℕ → ℕ
key_or_zero none = 0
key_or_zero (some k) = k

-- `_midpoint_or_rebalance` up to the rebalancing: `none` asks for it.
unfoldable pub midpoint : (before_key after_key : Option ℕ) → Option ℕ
midpoint before_key none = some (key_or_zero before_key + order_step)
midpoint before_key (some high) =
    let low = key_or_zero before_key in
    if ltb (low + 1) high then some (low + (high - low) / 2) else none

-- The keys of the rows around the place: `rows[i - 1]` and `rows[i]`, or `rows[i]` and `rows[i + 1]`.
abbrev pub key_at : List Transaction → ℕ → Option ℕ
key_at rows i = Option.map (λ (t : Transaction). t.order_key) (get_elem? rows i)

abbrev pub key_before : List Transaction → ℕ → Option ℕ
key_before rows zero = none
key_before rows (suc i) = key_at rows i

abbrev pub place_key : InsertPosition → List Transaction → ℕ → Option ℕ
place_key above rows i = midpoint (key_before rows i) (key_at rows i)
place_key below rows i = midpoint (key_at rows i) (key_at rows (suc i))

-- The index of the anchor among the rows.
unfoldable pub index_of : ℕ → List Transaction → Option ℕ
index_of i [] = none
index_of i (t ∷ ts) = if t.id == i then some 0 else Option.map suc (index_of i ts)
