-- ===== src/Ledger/Recent.antt =====
-- transactions.py, `_recent_matching_transaction_id`: the same entry by the same user, moments ago.
use money_flow_service.Prelude.{
  nat_eq, option_eq, false, ◌+◌, [], leb, true, ◌∷◌, ◌&&◌, ltb, some, if◌then◌else◌, none, ◌==◌,
  Bool, Option, ℕ, List,
}
use money_flow_service.Models.{flow_eq, Database, Transaction}
use money_flow_service.Prelude.Text.{text_eq}
use money_flow_service.Prelude.Tables.{select}

-- `_TRANSACTION_REPLAY_WINDOW_SECONDS`
abbrev replay_window_seconds : ℕ
replay_window_seconds = 120

-- What `_recent_matching_transaction_id` asks of a row: it is the transaction that would be created, up
-- to its id and place, and the same user created it in the replay window.
abbrev pub is_recent_match : (now : ℕ) → (wanted row : Transaction) → Bool
is_recent_match now wanted row =
    row.household_id == wanted.household_id
    && row.source_ref == none
    && row.created_by_user_id == wanted.created_by_user_id
    && row.occurred_on == wanted.occurred_on
    && row.flow_type == wanted.flow_type
    && row.amount == wanted.amount
    && row.installment_months == wanted.installment_months
    && row.currency == wanted.currency
    && row.memo == wanted.memo
    && leb now (row.created_at + replay_window_seconds)
    && row.category_id == wanted.category_id
    && row.owner_user_id == wanted.owner_user_id
    && row.owner_name == wanted.owner_name

-- `desc(Transaction.created_at), desc(Transaction.id)`
abbrev is_later : Transaction → Transaction → Bool
is_later a b =
    if ltb b.created_at a.created_at
    then true
    else if ltb a.created_at b.created_at
    then false
    else ltb b.id a.id

abbrev later_of : Transaction → Option Transaction → Option Transaction
later_of t none = some t
later_of t (some u) = if is_later u t then some u else some t

unfoldable pub latest : List Transaction → Option Transaction
latest [] = none
latest (t ∷ ts) = later_of t (latest ts)

unfoldable pub recent_matching_transaction : (now : ℕ) → Transaction → Database → Option Transaction
unfolding latest select
recent_matching_transaction now wanted db =
    latest (select (is_recent_match now wanted) db.transactions)
