-- ===== src/Ledger/Creation.antt =====
-- transactions.py, `create_transaction`, with its two looks for an earlier transaction.
pub mod Branches
pub mod Replay
pub mod Recording
use money_flow_service.Ledger.Recent.{recent_matching_transaction}
use money_flow_service.Errors.{
  transaction_category_flow_type_mismatch, foreign_key_category, integrity_error, category_invalid,
  transaction_source_ref, invalid_category_id, http_exception, app_error, transaction_owner_invalid,
  Violation,
}
use money_flow_service.Models.{flow_eq, User, Household, FlowType, Category, Database, Transaction}
use money_flow_service.Prelude.{
  option_eq, ◌+◌, not, nat_eq, ◌++◌, leb, ◌&&◌, [], ltb, true, false, ◌∷◌, ◌==◌, if◌then◌else◌,
  some, none, Bool, ℕ, List, Option,
}
use money_flow_service.Prelude.Text.{text_eq, or_empty, upper, strip, or_none, Text}
use money_flow_service.Session.{
  broadcast_created, raise_if, query, modify, emit, ◌>>=◌, pure, ◌>>◌, ok, raise, Verdict, Handler,
  try_commit,
}
use money_flow_service.Ledger.Reads.{load_transaction_read, TransactionRead}
use money_flow_service.Ledger.Allocation.{allocate_order_key}
use money_flow_service.Ledger.Order.{InsertPosition}
use money_flow_service.OwnerLinks.{resolve_owner_fields}
use money_flow_service.Prelude.Tables.{select, find?}
use money_flow_service.Household.Invitations.{Surroundings}

-- schemas.py, `TransactionCreate`, as validated.
pub record TransactionCreate : Type 0 where
  pub occurred_on : ℕ
  pub flow_type : FlowType
  pub amount : ℕ
  pub installment_months : Option ℕ
  pub currency : Text
  pub category_id : Option ℕ
  pub memo : Text
  pub owner_user_id : Option ℕ
  pub owner_name : Option Text
  pub source_ref : Option Text
  pub anchor_transaction_id : Option ℕ
  pub insert_position : Option InsertPosition

pub record TransactionResponse : Type 0 where
  pub status_code : ℕ
  pub body : TransactionRead

abbrev category_of_household : (household_id : ℕ) → Option Category → Handler Category
category_of_household household_id none = raise (http_exception 400 invalid_category_id)
category_of_household household_id (some category) =
    if category.household_id == household_id
    then pure category
    else raise (http_exception 400 invalid_category_id)

-- The category exists in the household and is of the flow type (`_ensure_category_flow_matches`).
unfoldable pub ensure_category : (household_id : ℕ) → Option ℕ → FlowType → Handler Unit
unfolding find?
ensure_category household_id none flow_type = pure tt
ensure_category household_id (some category_id) flow_type = do
  row ← query (λ db. find? (λ (c : Category). c.id == category_id) db.categories)
  category ← category_of_household household_id row
  raise_if (not (category.flow_type == flow_type))
      (app_error 400 transaction_category_flow_type_mismatch)

-- `Transaction.household_id == household.id, Transaction.source_ref == source_ref`
abbrev pub has_source_ref : (household_id : ℕ) → Text → Transaction → Bool
has_source_ref household_id source_ref t =
    t.household_id == household_id && t.source_ref == some source_ref

-- The transaction that a request is about to create.
abbrev pub new_transaction :
    Surroundings
    → (household_id user_id : ℕ) → TransactionCreate
    → Option Text
    → Option ℕ × Option Text
    → (order_key : ℕ) → Transaction
new_transaction env household_id user_id payload source_ref (owner_user_id, owner_name) order_key =
    record {
      id = env.fresh_id;
      household_id = household_id;
      category_id = payload.category_id;
      flow_type = payload.flow_type;
      occurred_on = payload.occurred_on;
      amount = payload.amount;
      installment_months = payload.installment_months;
      currency = upper payload.currency;
      memo = strip payload.memo;
      order_key = order_key;
      owner_user_id = owner_user_id;
      owner_name = owner_name;
      source_ref = source_ref;
      version = 1;
      created_by_user_id = some user_id;
      created_at = env.database_now;
    }

-- The request ends with a transaction that is there already.
abbrev replay : ℕ → Handler TransactionResponse
replay transaction_id = do
  body ← load_transaction_read transaction_id
  pure (record { status_code = 200; body = body })

abbrev pub existing_by_source_ref : (household_id : ℕ) → Option Text → Database → Option Transaction
existing_by_source_ref household_id none db = none
existing_by_source_ref household_id (some source_ref) db =
    find? (has_source_ref household_id source_ref) db.transactions

-- `bool(payload.anchor_transaction_id or payload.insert_position)`
abbrev has_insert_intent : Option ℕ → Option InsertPosition → Bool
has_insert_intent none none = false
has_insert_intent anchor_id position = true

abbrev recent_unless_placed :
    (now : ℕ) → Option Text → TransactionCreate → Transaction → Database → Option Transaction
recent_unless_placed now (some source_ref) payload wanted db = none
recent_unless_placed now none payload wanted db =
    if has_insert_intent payload.anchor_transaction_id payload.insert_position
    then none
    else recent_matching_transaction now wanted db

-- `db.rollback()` after a commit that failed: the session then sees what `others` stored meanwhile.
abbrev rollback_to : (Database → Database) → Handler Unit
rollback_to others s = (ok tt, record s { stored = others s.stored; working = others s.stored })

-- The rest of the `except IntegrityError` clause.
abbrev raise_create_violation : Violation → Handler TransactionResponse
raise_create_violation foreign_key_category = raise (app_error 400 category_invalid)
raise_create_violation v = raise (integrity_error v)

abbrev replay_or : Option Transaction → Violation → Handler TransactionResponse
replay_or none v = raise_create_violation v
replay_or (some existing) v = replay existing.id

abbrev recover :
    (Database → Database)
    → (household_id : ℕ) → Option Text
    → Violation
    → Handler TransactionResponse
recover others household_id source_ref transaction_source_ref = do
  rollback_to others
  existing ← query (existing_by_source_ref household_id source_ref)
  replay_or existing transaction_source_ref
recover others household_id source_ref v = do rollback_to others; raise_create_violation v

-- After `db.commit()`
abbrev finish_create :
    (Database → Database)
    → Transaction
    → Option Text
    → Option Violation
    → Handler TransactionResponse
finish_create others t source_ref (some v) = recover others t.household_id source_ref v
finish_create others t source_ref none = do
  emit (broadcast_created t.household_id t.id t.version)
  body ← load_transaction_read t.id
  pure (record { status_code = 201; body = body })

-- `db.add(transaction)`, and what follows.
unfoldable pub insert_transaction :
    Verdict → (Database → Database) → Transaction → Option Text → Handler TransactionResponse
unfolding try_commit load_transaction_read find?
insert_transaction verdict others t source_ref = do
  modify (λ db. record db { transactions = db.transactions ++ t ∷ [] })
  violation ← try_commit verdict
  finish_create others t source_ref violation

abbrev create_unless_recent :
    Surroundings
    → Verdict
    → (Database → Database)
    → (household_id user_id : ℕ) → TransactionCreate
    → Option Text
    → Option ℕ × Option Text
    → Option Transaction
    → Handler TransactionResponse
create_unless_recent env verdict others household_id user_id payload source_ref owner
      (some existing) =
    replay existing.id
create_unless_recent env verdict others household_id user_id payload source_ref owner none = do
  order_key ←
      allocate_order_key household_id payload.occurred_on payload.anchor_transaction_id
        payload.insert_position
  insert_transaction verdict others
      (new_transaction env household_id user_id payload source_ref owner order_key) source_ref

abbrev create_unless_existing :
    Surroundings
    → Verdict
    → (Database → Database)
    → (household_id user_id : ℕ) → TransactionCreate
    → Option Text
    → Option Transaction
    → Handler TransactionResponse
create_unless_existing env verdict others household_id user_id payload source_ref (some existing) =
    replay existing.id
create_unless_existing env verdict others household_id user_id payload source_ref none = do
  ensure_category household_id payload.category_id payload.flow_type
  owner ←
      resolve_owner_fields household_id payload.owner_user_id payload.owner_name
        transaction_owner_invalid
  recent ← query (
      recent_unless_placed env.now source_ref payload
        (new_transaction env household_id user_id payload source_ref owner 0))
  create_unless_recent env verdict others household_id user_id payload source_ref owner recent

-- `str(payload.source_ref or "").strip() or None`
abbrev pub source_ref_of : TransactionCreate → Option Text
source_ref_of payload = or_none (strip (or_empty payload.source_ref))

unfoldable pub create_transaction :
    Surroundings
    → Verdict
    → (Database → Database)
    → Household
    → User
    → TransactionCreate
    → Handler TransactionResponse
unfolding ensure_category resolve_owner_fields recent_matching_transaction allocate_order_key
    insert_transaction load_transaction_read find? strip upper
create_transaction env verdict others household user payload = do
  existing ← query (existing_by_source_ref household.id (source_ref_of payload))
  create_unless_existing env verdict others household.id user.id payload (source_ref_of payload)
      existing
