-- ===== src/Ledger/Patching.antt =====
-- transactions.py, `patch_transaction`: a patch against a version is checked, merged and stored.
pub mod Branches
use money_flow_service.Session.{
  broadcast_patched, emit, modify, or_raise, rollback, query, raise_if, ◌>>◌, ◌>>=◌, raise, pure,
  try_commit, Verdict, Handler,
}
use money_flow_service.Prelude.{
  map, option_eq, nat_eq, ◌&&◌, ◌++◌, ◌==◌, ◌∷◌, none, if◌then◌else◌, false, some, [], not, Bool,
  Option, List, ℕ,
}
use money_flow_service.Errors.{
  merge_conflict, foreign_key_category, transaction_not_found, integrity_error, category_invalid,
  http_exception, transaction_installment_flow_type_mismatch, app_error, fields_error,
  transaction_patch_null_not_allowed, transaction_owner_invalid, Violation,
}
use mathlib.Core.Option
use money_flow_service.Merge.{
  unchanged, conflict, applied, patch_log, MergeResult, Patch, merge_patch,
}
use money_flow_service.Ledger.Columns.{
  amount, category_id, currency, flow_type, installment_months, memo, occurred_on, owner_name,
  owner_user_id, transaction_columns, field_name, TransactionField,
}
use money_flow_service.Prelude.Text.{text_eq, text, upper, Text, strip}
use money_flow_service.Models.{flow_eq, User, expense, Household, Database, FlowType, Transaction}
use money_flow_service.Ledger.Reads.{has_transaction_id, TransactionRead, load_transaction_read}
use money_flow_service.Prelude.Tables.{update, exists, find?}
use money_flow_service.Ledger.Order.{next_append_order_key}
use money_flow_service.OwnerLinks.{resolve_owner_fields}
use money_flow_service.Ledger.Creation.{ensure_category}

-- schemas.py, `TransactionPatch`, as validated: `none` for a field that the request does not name, and
-- `some none` for one that it sets to null.
pub record TransactionPatch : Type 0 where
  pub base_version : ℕ
  pub occurred_on : Option (Option ℕ)
  pub flow_type : Option (Option FlowType)
  pub amount : Option (Option ℕ)
  pub installment_months : Option (Option ℕ)
  pub currency : Option (Option Text)
  pub category_id : Option (Option ℕ)
  pub memo : Option (Option Text)
  pub owner_user_id : Option (Option ℕ)
  pub owner_name : Option (Option Text)

module _ {A : Type 0} where
  -- The name of a field that is set to null
  abbrev pub if_null : Text → Option (Option A) → List Text
  if_null name none = []
  if_null name (some none) = name ∷ []
  if_null name (some (some a)) = []

  -- The value of a field that is not null
  abbrev pub set_value : Option (Option A) → Option A
  set_value none = none
  set_value (some value) = value

  -- `patch_data.get(field, current)`
  abbrev pub get_or : Option A → A → A
  get_or none current = current
  get_or (some value) current = value

-- The required fields that the patch sets to null, sorted.
unfoldable pub null_fields : TransactionPatch → List Text
null_fields payload =
    if_null (text "amount") payload.amount
    ++ if_null (text "currency") payload.currency
    ++ if_null (text "flow_type") payload.flow_type
    ++ if_null (text "memo") payload.memo
    ++ if_null (text "occurred_on") payload.occurred_on

-- `"owner_user_id" in patch_data or "owner_name" in patch_data`
abbrev pub names_owner : TransactionPatch → Bool
names_owner payload = not (payload.owner_user_id == none && payload.owner_name == none)

-- What the patch says of the owner, once it is resolved: nothing, or both columns.
abbrev pub OwnerPatch : Type 0
OwnerPatch = Option (Option ℕ × Option Text)

unfoldable pub resolve_patch_owner :
    (household_id : ℕ) → TransactionPatch → Transaction → Handler OwnerPatch
unfolding resolve_owner_fields
resolve_patch_owner household_id payload transaction =
    if names_owner payload
    then (do
      owner ←
          resolve_owner_fields household_id (get_or payload.owner_user_id transaction.owner_user_id)
            (get_or payload.owner_name transaction.owner_name) transaction_owner_invalid
      pure (some owner))
    else pure none

-- `patch_data`, the dict that is merged.
unfoldable pub patch_data : TransactionPatch → OwnerPatch → Patch transaction_columns
unfolding strip upper
patch_data payload owner amount = set_value payload.amount
patch_data payload owner category_id = payload.category_id
patch_data payload owner currency = Option.map upper (set_value payload.currency)
patch_data payload owner flow_type = set_value payload.flow_type
patch_data payload owner installment_months = payload.installment_months
patch_data payload owner memo = Option.map strip (set_value payload.memo)
patch_data payload owner occurred_on = set_value payload.occurred_on
patch_data payload owner owner_name = Option.map (λ (o : Option ℕ × Option Text). o.1) owner
patch_data payload owner owner_user_id = Option.map (λ (o : Option ℕ × Option Text). o.0) owner

-- `getattr(next_flow_type, "value", next_flow_type) != "expense"`, for a payment in instalments.
abbrev pub has_wrong_installments : Option ℕ → FlowType → Bool
has_wrong_installments none next_flow_type = false
has_wrong_installments (some months) next_flow_type = not (next_flow_type == expense)

abbrev pub names_day : List TransactionField → Bool
names_day fields = exists (λ f. field_name f == field_name occurred_on) fields

-- A transaction that moves to another day goes to its end.
abbrev pub moved : (household_id : ℕ) → List TransactionField → Database → Transaction → Transaction
moved household_id fields db t =
    if names_day fields
    then record t { order_key = next_append_order_key household_id t.occurred_on (some t.id) db }
    else t

-- The rows that an applied patch writes: the transaction, and a log entry.
abbrev pub write_patch :
    (household_id : ℕ)
    → (user_id base_version : ℕ) → Bool
    → List TransactionField
    → Transaction
    → Database
    → Database
write_patch household_id user_id base_version merged fields t db = record db {
  transactions =
      update (has_transaction_id t.id) (λ _. moved household_id fields db t) db.transactions;
  patch_logs =
      db.patch_logs
      ++ patch_log transaction_columns household_id (text "transaction") base_version (some user_id)
          t merged fields
        ∷ [];
}

abbrev raise_patch_violation : Option Violation → Handler Unit
raise_patch_violation none = pure tt
raise_patch_violation (some foreign_key_category) = do
  rollback
  raise (app_error 400 category_invalid)
raise_patch_violation (some v) = do rollback; raise (integrity_error v)

-- What follows `merge_patch_or_raise`.
unfoldable pub apply_patch :
    Verdict
    → (household_id user_id base_version : ℕ) → Transaction
    → MergeResult transaction_columns
    → Handler TransactionRead
unfolding load_transaction_read next_append_order_key try_commit update exists
apply_patch verdict household_id user_id base_version transaction unchanged =
    load_transaction_read transaction.id
apply_patch verdict household_id user_id base_version transaction (conflict fields) =
    raise (merge_conflict transaction.id transaction.version (map field_name fields))
apply_patch verdict household_id user_id base_version transaction (applied t merged fields) = do
  modify (write_patch household_id user_id base_version merged fields t)
  violation ← try_commit verdict
  raise_patch_violation violation
  emit (broadcast_patched household_id t.id t.version (map field_name fields) merged)
  load_transaction_read t.id

-- `patch_transaction` once the row is found and no required field is set to null.
unfoldable pub patch_found :
    Verdict → (household_id user_id : ℕ) → TransactionPatch → Transaction → Handler TransactionRead
unfolding resolve_patch_owner patch_data ensure_category merge_patch apply_patch
    load_transaction_read
patch_found verdict household_id user_id payload transaction = do
  owner ← resolve_patch_owner household_id payload transaction
  raise_if
      (has_wrong_installments (get_or payload.installment_months transaction.installment_months)
        (get_or (set_value payload.flow_type) transaction.flow_type))
      (app_error 400 transaction_installment_flow_type_mismatch)
  ensure_category household_id (get_or payload.category_id transaction.category_id)
      (get_or (set_value payload.flow_type) transaction.flow_type)
  current_data ← load_transaction_read transaction.id
  result ← query (λ db.
      merge_patch transaction_columns db.patch_logs (text "transaction") payload.base_version
        (patch_data payload owner) transaction)
  apply_patch verdict household_id user_id payload.base_version transaction result

abbrev raise_null_fields : List Text → Handler Unit
raise_null_fields [] = pure tt
raise_null_fields (field ∷ fields) =
    raise (fields_error transaction_patch_null_not_allowed (field ∷ fields))

unfoldable pub patch_transaction :
    Verdict → Household → User → (transaction_id : ℕ) → TransactionPatch → Handler TransactionRead
unfolding find? null_fields patch_found
patch_transaction verdict household user transaction_id payload = do
  row ← query (λ db.
      find? (λ (t : Transaction). t.id == transaction_id && t.household_id == household.id)
        db.transactions)
  transaction ← or_raise (http_exception 404 transaction_not_found) row
  raise_null_fields (null_fields payload)
  patch_found verdict household.id user.id payload transaction
