-- ===== src/Bookkeeping/Fixtures.antt =====
-- A household with two categories and three transactions, and requests to it.

use money_flow_service.Session.{Verdict}
use money_flow_service.Prelude.{true, ◌+◌, [], some, none, Option, ◌∷◌, List, ℕ}
use money_flow_service.Merge.{Patch, Attempt}
use money_flow_service.Bookkeeping.{
  Request, create, patch, bulk_delete, add_category, rename_major, drop_category,
}
use money_flow_service.Models.{
  FlowType, empty_database, Category, User, Household, Transaction, Database, expense, income,
  transfer, owner,
}
use money_flow_service.Ledger.Order.{below}
use money_flow_service.Ledger.Creation.{TransactionCreate}
use money_flow_service.Ledger.Columns.{transaction_columns}
use money_flow_service.Ledger.Patching.{patch_data, TransactionPatch}
use money_flow_service.Prelude.Text.{text, Text}
use money_flow_service.Household.Invitations.{Surroundings}
use mathlib.Core.Option

abbrev pub home : Household
home = record { id = 10; name = text "Home" }

abbrev pub ana : User
ana = record {
  id = 1;
  email = text "ana@flow.kr";
  password_hash = 0;
  display_name = text "Ana";
  email_verified = true;
  active_household_id = some 10;
}

abbrev pub food : Category
food = record {
  id = 20;
  household_id = 10;
  flow_type = expense;
  major = text "Living";
  minor = text "Food";
  sort_order = 1;
}

abbrev pub salary : Category
salary = record {
  id = 21;
  household_id = 10;
  flow_type = income;
  major = text "Work";
  minor = text "Salary";
  sort_order = 2;
}

abbrev pub entry : (id : ℕ) → Option ℕ → FlowType → (order_key : ℕ) → Transaction
entry id category_id flow order_key = record {
  id = id;
  household_id = 10;
  category_id = category_id;
  flow_type = flow;
  occurred_on = 300;
  amount = 5000;
  installment_months = none;
  currency = text "KRW";
  memo = [];
  order_key = order_key;
  owner_user_id = some 1;
  owner_name = some (text "Ana");
  source_ref = none;
  version = 1;
  created_by_user_id = some 1;
  created_at = 50;
}

abbrev pub database : Database
database = record empty_database {
  users = ana ∷ [];
  households = home ∷ [];
  members = record { id = 100; household_id = 10; user_id = 1; role = owner; created_at = 5 } ∷ [];
  categories = food ∷ salary ∷ [];
  transactions =
      entry 30 (some 20) expense 1024
      ∷ entry 31 (some 21) income 1025
      ∷ entry 32 none transfer 4000
      ∷ [];
}

abbrev pub at_time : ℕ → Surroundings
at_time now = record {
  now = now;
  database_now = now;
  fresh_id = 1000 + now;
  raw_token = now;
  hash_opaque_token = λ t. t;
  sent = true;
}

abbrev pub accepts : Verdict
accepts db = none

abbrev pub alone : Database → Database
alone db = db

abbrev pub purchase : Text → Option ℕ → TransactionCreate
purchase source_ref anchor = record {
  occurred_on = 300;
  flow_type = expense;
  amount = 1200;
  installment_months = some 3;
  currency = text "krw";
  category_id = some 20;
  memo = text " lunch ";
  owner_user_id = some 1;
  owner_name = none;
  source_ref = some source_ref;
  anchor_transaction_id = anchor;
  insert_position = Option.map (λ _. below) anchor;
}

abbrev pub relabel : TransactionPatch
relabel = record {
  base_version = 1;
  occurred_on = none;
  flow_type = some (some income);
  amount = none;
  installment_months = none;
  currency = none;
  category_id = some (some 21);
  memo = some (some (text "bonus"));
  owner_user_id = none;
  owner_name = none;
}

abbrev pub requests : List (Verdict × Household × Request)
requests =
    (accepts, home, create (at_time 60) alone ana (purchase (text "card-1") (some 30)))
    ∷ (accepts, home, patch ana 30 relabel)
    ∷ (
      accepts,
      home,
      add_category 22 (record { flow_type = expense; major = text "Living"; minor = text "Rent" }),
    )
    ∷ (
      accepts,
      home,
      rename_major
          (record { flow_type = expense; current_major = text "Living"; next_major = text "Home" }),
    )
    ∷ (accepts, home, drop_category 22)
    ∷ (accepts, home, bulk_delete (31 ∷ 32 ∷ 31 ∷ []))
    ∷ []

-- One writes the memo, and another, who has not seen that, the amount.
abbrev pub write_memo : Attempt transaction_columns
write_memo = record {
  household_id = 10;
  base_version = 1;
  actor_user_id = some 1;
  patch = patch_data (record relabel { category_id = none; flow_type = none }) none;
}

abbrev pub write_amount : Patch transaction_columns
write_amount =
    patch_data
      (record relabel { category_id = none; flow_type = none; memo = none; amount = some (some 7) })
      none

abbrev pub first_entry : Transaction
first_entry = entry 30 (some 20) expense 1024
