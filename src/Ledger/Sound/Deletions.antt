-- ===== src/Ledger/Sound/Deletions.antt =====
-- Soundness through the deletions of transactions.py.
use money_flow_service.Session.{open_session, stored_after, Verdict, try_commit, commit}
use money_flow_service.Ledger.Deletion.{
  delete_if_found_ind, is_chosen, ids_of, without_repeats, bulk_delete_transactions,
  delete_transaction,
}
use money_flow_service.Prelude.{nat_eq, ◌==◌, Bool-cases, inr, inl, [], Option-cases, ℕ, List}
use money_flow_service.Ledger.Sound.{delete_each-IsSound, delete-IsSound, IsSound}
use money_flow_service.Prelude.Tables.{delete, select, find?}
use money_flow_service.Ledger.Reads.{has_transaction_id}
use money_flow_service.Models.{Database, Household}

pub delete_transaction-IsSound :
    (verdict : Verdict) (household : Household) (transaction_id : ℕ) (db : Database)
    → IsSound db
    → IsSound (stored_after (delete_transaction verdict household transaction_id) db)
unfolding delete_transaction commit try_commit
delete_transaction-IsSound verdict household transaction_id db sound =
    elim (Option-cases (find? (has_transaction_id transaction_id) db.transactions)) [
      | inl e ↦ rw e sound
      | inr (t, e) ↦ elim (Bool-cases (t.household_id == household.id)) [
        | inr h ↦ rw (e, h) sound
        | inl h ↦
            elim (Option-cases (
              verdict
                (record db { transactions = delete (has_transaction_id t.id) db.transactions }))) [
                  | inl v ↦ rw (e, h, v) (delete-IsSound (has_transaction_id t.id) db sound)
                  | inr (x, v) ↦ rw (e, h, v) sound
                ]
      ]
    ]

pub bulk_delete_transactions-IsSound :
    (verdict : Verdict) (household : Household) (transaction_ids : List ℕ) (db : Database)
    → IsSound db
    → IsSound (stored_after (bulk_delete_transactions verdict household transaction_ids) db)
unfolding bulk_delete_transactions
bulk_delete_transactions-IsSound verdict household transaction_ids db sound =
    let ids = without_repeats [] transaction_ids in
    let found_ids = ids_of (select (is_chosen household.id ids) db.transactions) in
    delete_if_found_ind verdict household.id ids found_ids (open_session db)
      (λ r. IsSound r.1.stored) (λ e. sound) (λ n. delete_each-IsSound ids db sound) (λ n. sound)
