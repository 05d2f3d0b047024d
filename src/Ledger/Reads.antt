-- ===== src/Ledger/Reads.antt =====
-- transactions.py, `_to_transaction_read` and `_load_transaction_read`: a transaction as a response
-- shows it. The column `updated_at`, which only the database writes, is not modelled.
use money_flow_service.Session.{pure, or_raise, query, ◌>>=◌, Handler}
use money_flow_service.Errors.{transaction_not_found, http_exception}
use money_flow_service.Prelude.{[], nat_eq, none, ◌∷◌, ◌==◌, some, Bool, ℕ, Option}
use money_flow_service.Models.{User, FlowType, Transaction, Database}
use money_flow_service.Prelude.Text.{or_empty, or_none, Text, strip}
use money_flow_service.Prelude.Tables.{find?}
use mathlib.Core.Option

pub record TransactionRead : Type 0 where
  pub id : ℕ
  pub household_id : ℕ
  pub category_id : Option ℕ
  pub occurred_on : ℕ
  pub flow_type : FlowType
  pub amount : ℕ
  pub installment_months : Option ℕ
  pub currency : Text
  pub memo : Text
  pub order_key : ℕ
  pub owner_user_id : Option ℕ
  pub owner_name : Option Text
  pub source_ref : Option Text
  pub version : ℕ
  pub created_at : ℕ

-- `linked_owner_name or transaction.owner_name or ""`
abbrev pub shown_owner_name : Option Text → Option Text → Text
shown_owner_name none owner_name = or_empty owner_name
shown_owner_name (some []) owner_name = or_empty owner_name
shown_owner_name (some (c ∷ cs)) owner_name = c ∷ cs

unfoldable pub to_transaction_read : Transaction → Option Text → TransactionRead
unfolding strip
to_transaction_read transaction linked_owner_name = record {
  id = transaction.id;
  household_id = transaction.household_id;
  category_id = transaction.category_id;
  occurred_on = transaction.occurred_on;
  flow_type = transaction.flow_type;
  amount = transaction.amount;
  installment_months = transaction.installment_months;
  currency = transaction.currency;
  memo = transaction.memo;
  order_key = transaction.order_key;
  owner_user_id = transaction.owner_user_id;
  owner_name = or_none (strip (shown_owner_name linked_owner_name transaction.owner_name));
  source_ref = or_none (strip (or_empty transaction.source_ref));
  version = transaction.version;
  created_at = transaction.created_at;
}

-- The outer join with the users: the display name of the owner, if there is one.
abbrev pub linked_owner_name : Database → Option ℕ → Option Text
linked_owner_name db none = none
linked_owner_name db (some user_id) =
    Option.map (λ (u : User). u.display_name) (find? (λ (u : User). u.id == user_id) db.users)

abbrev pub has_transaction_id : ℕ → Transaction → Bool
has_transaction_id i transaction = transaction.id == i

unfoldable pub load_transaction_read : (transaction_id : ℕ) → Handler TransactionRead
unfolding find? to_transaction_read
load_transaction_read transaction_id = do
  row ← query (λ db. find? (has_transaction_id transaction_id) db.transactions)
  transaction ← or_raise (http_exception 404 transaction_not_found) row
  linked ← query (λ db. linked_owner_name db transaction.owner_user_id)
  pure (to_transaction_read transaction linked)
