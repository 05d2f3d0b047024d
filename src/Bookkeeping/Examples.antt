-- ===== src/Bookkeeping/Examples.antt =====
-- What the requests of transactions.py and categories.py and the guards of deps.py do in a small household.

use money_flow_service.Bookkeeping.Fixtures.{
  home, ana, database, at_time, accepts, alone, purchase, requests, write_memo, write_amount,
  first_entry,
}
use money_flow_service.Ledger.Creation.Recording.{create_transaction-IsRecorded, IsRecorded}
use money_flow_service.Access.Grants.{require_household-IsGranted, IsGranted}
use money_flow_service.Access.{require_household, can_edit, require_editor_household}
use money_flow_service.Session.{outcome, ok, raised, open_session, stored_after}
use money_flow_service.Errors.{app_error, household_access_forbidden}
use money_flow_service.Prelude.{arith, refl, [], ◌≡◌, some, map, none, ◌∷◌, ℕ}
use money_flow_service.Merge.Unlogged.{merge_patch-unlogged}
use money_flow_service.Prelude.Tables.{select, count}
use money_flow_service.Merge.{patch_fields, conflict, is_effective, attempts, merge_patch}
use money_flow_service.Ledger.Allocation.Fitting.{allocate_order_key-IsFitting, IsFitting}
use money_flow_service.Ledger.Deletion.AllOrNothing.{
  bulk_delete_transactions-IsAllOrNothing, IsAllOrNothing,
}
use money_flow_service.Ledger.Creation.Replay.{create_transaction-once, IsRepeat}
use money_flow_service.Bookkeeping.{serve-IsSound, serve}
use money_flow_service.Merge.Seen.{attempts-seen}
use money_flow_service.Ledger.Sound.{IsSound, is_sound}
use money_flow_service.Ledger.Deletion.{bulk_delete_transactions}
use money_flow_service.Ledger.Allocation.{allocate_order_key}
use money_flow_service.Merge.Effect.{merge_patch-effect}
use money_flow_service.Models.{Transaction, owner}
use money_flow_service.Ledger.Order.{below}
use money_flow_service.Ledger.Creation.{create_transaction}
use money_flow_service.Ledger.Columns.{get_column, transaction_columns, amount, memo}
use money_flow_service.Ledger.Patching.{patch_data}
use money_flow_service.Prelude.Text.{strip, text}

-- Every request of the run is granted.
requests-ids :
    map {B = ℕ × ℕ × ℕ}
      (λ (t : Transaction). (t.id, t.version, t.order_key))
      (serve requests database).transactions
    ≡ (30, 2, 1024) ∷ (1060, 1, 1536) ∷ []
unfolding serve
requests-ids = refl

serve-IsSound_example : IsSound (serve requests database)
unfolding serve is_sound count
serve-IsSound_example =
    serve-IsSound requests database ((refl, refl), (tt, (tt, (tt, (tt, (tt, tt)))))) refl

create_transaction-once_example :
    IsRepeat
      (stored_after
        (create_transaction (at_time 60) accepts alone home ana (purchase (text "card-1") none))
        database)
      (create_transaction
        (at_time 900)
        accepts
        alone
        home
        ana
        (purchase (text " card-1 ") (some 30))
        (open_session (
          stored_after
            (create_transaction (at_time 60) accepts alone home ana (purchase (text "card-1") none))
            database)))
unfolding create_transaction strip
create_transaction-once_example =
    create_transaction-once (at_time 60) (at_time 900) accepts accepts alone alone home ana ana
      (purchase (text "card-1") none) (purchase (text " card-1 ") (some 30)) database
      (text "card-1") refl refl refl

allocate_order_key-IsFitting_example :
    IsFitting 10 300
      (some 30)
      (some below)
      (allocate_order_key 10 300 (some 30) (some below) (open_session database))
allocate_order_key-IsFitting_example =
    allocate_order_key-IsFitting 10 300 (some 30) (some below) (open_session database)

bulk_delete_transactions-IsAllOrNothing_example :
    IsAllOrNothing 10
      (31 ∷ 32 ∷ 31 ∷ [])
      database
      (bulk_delete_transactions accepts home (31 ∷ 32 ∷ 31 ∷ []) (open_session database))
bulk_delete_transactions-IsAllOrNothing_example =
    bulk_delete_transactions-IsAllOrNothing accepts home (31 ∷ 32 ∷ 31 ∷ []) database

attempts-seen_example :
    get_column amount
      (attempts transaction_columns (text "transaction") (write_memo ∷ []) (first_entry, [])).0
    ≡ 5000
unfolding attempts merge_patch is_effective patch_data
attempts-seen_example =
    attempts-seen transaction_columns (text "transaction") first_entry [] (write_memo ∷ [])
      write_amount refl amount refl

merge_patch-effect_example :
    ((record first_entry { version = 2; memo = text "bonus" }).version ≡ 2)
    × (get_column memo (record first_entry { version = 2; memo = text "bonus" }) ≡ text "bonus")
unfolding merge_patch patch_data
merge_patch-effect_example =
    merge_patch-effect transaction_columns write_memo.patch [] (text "transaction") 1 first_entry
      {e' = record first_entry { version = 2; memo = text "bonus" }} refl memo

-- An import has raised the version to 2 without a log.
merge_patch-unlogged_example :
    merge_patch transaction_columns []
      (text "transaction")
      1
      write_amount
      (record first_entry { version = 2 })
    ≡ conflict (amount ∷ [])
unfolding merge_patch patch_fields patch_data is_effective select count
merge_patch-unlogged_example =
    merge_patch-unlogged transaction_columns [] (text "transaction") 1 2 write_amount
      (record first_entry { version = 2 }) (omega arith) (omega arith) refl

require_household-IsGranted_example :
    IsGranted can_edit
      (some 10)
      ana
      (open_session database)
      (require_household can_edit (some 10) ana (open_session database))
require_household-IsGranted_example =
    require_household-IsGranted can_edit (some 10) ana (open_session database)

-- The request is let through.
access_test :
    outcome (require_editor_household (some 10) ana) database
    ≡ ok (home, record { id = 100; household_id = 10; user_id = 1; role = owner; created_at = 5 })
unfolding require_editor_household
access_test = refl

foreign_household_test :
    outcome (require_editor_household (some 11) ana) database
    ≡ raised (app_error 403 household_access_forbidden)
unfolding require_editor_household
foreign_household_test = refl

create_transaction-IsRecorded_example :
    IsRecorded (at_time 60) alone home ana (purchase (text "card-1") (some 30)) database (
      create_transaction
        (at_time 60)
        accepts
        alone
        home
        ana
        (purchase (text "card-1") (some 30))
        (open_session database))
create_transaction-IsRecorded_example =
    create_transaction-IsRecorded (at_time 60) accepts alone home ana
      (purchase (text "card-1") (some 30)) database
