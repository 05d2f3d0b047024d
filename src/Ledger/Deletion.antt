-- ===== src/Ledger/Deletion.antt =====
-- transactions.py, `delete_transaction` and `bulk_delete_transactions`.
pub mod AllOrNothing
pub mod Distinct
use money_flow_service.Prelude.{
  Option-cases, inl, inr, Bool-cases, ◌++◌, true, ◌≡◌, not, none, some, length, map, nat_eq, [],
  ◌==◌, ◌&&◌, if◌then◌else◌, Bool, Option, ◌∷◌, List, ℕ,
}
use money_flow_service.Errors.{
  integrity_error, Violation, AppError, bulk_delete_not_found, transaction_not_found,
  http_exception,
}
use money_flow_service.Session.{
  ok, raised, Outcome, Session, try_commit, rollback, pure, broadcast_deleted, query, emit, modify,
  ◌>>=◌, ◌>>◌, raise, Handler, commit, Verdict,
}
use money_flow_service.Models.{Household, Transaction}
use money_flow_service.Ledger.Reads.{has_transaction_id}
use money_flow_service.Prelude.Tables.{find?, exists, select, delete}

abbrev pub contains_id : List ℕ → ℕ → Bool
contains_id ids i = exists (λ j. j == i) ids

-- `list(dict.fromkeys(ids))`: each id once, in the order of the first occurrences.
unfoldable pub without_repeats : (seen : List ℕ) → List ℕ → List ℕ
unfolding exists
without_repeats seen [] = []
without_repeats seen (i ∷ ids) =
    let rest = without_repeats (i ∷ seen) ids in if contains_id seen i then rest else i ∷ rest

-- `Transaction.id.in_(deleted_ids), Transaction.household_id == household.id`
abbrev pub is_chosen : (household_id : ℕ) → List ℕ → Transaction → Bool
is_chosen household_id ids t = contains_id ids t.id && t.household_id == household_id

-- `found_ids`: the ids of the rows, as a set.
abbrev pub ids_of : List Transaction → List ℕ
ids_of rows = without_repeats [] (map (λ (t : Transaction). t.id) rows)

pub record TransactionBulkDeleteResult : Type 0 where
  pub deleted_count : ℕ
  pub deleted_ids : List ℕ

-- `db.delete` of one row after the other
unfoldable pub delete_each : List ℕ → List Transaction → List Transaction
unfolding delete
delete_each [] transactions = transactions
delete_each (i ∷ ids) transactions = delete_each ids (delete (has_transaction_id i) transactions)

abbrev delete_chosen : Verdict → (household_id : ℕ) → List ℕ → Handler TransactionBulkDeleteResult
delete_chosen verdict household_id deleted_ids = do
  modify (λ db. record db { transactions = delete_each deleted_ids db.transactions })
  commit verdict
  emit (broadcast_deleted household_id deleted_ids)
  pure (record { deleted_count = length deleted_ids; deleted_ids = deleted_ids })

abbrev pub delete_if_found :
    Verdict
    → (household_id : ℕ) → (deleted_ids found_ids : List ℕ) → Handler TransactionBulkDeleteResult
delete_if_found verdict household_id deleted_ids found_ids =
    if length found_ids == length deleted_ids
    then delete_chosen verdict household_id deleted_ids
    else rollback
      >> raise (bulk_delete_not_found (select (λ i. not (contains_id found_ids i)) deleted_ids))

unfoldable pub bulk_delete_transactions :
    Verdict → Household → (transaction_ids : List ℕ) → Handler TransactionBulkDeleteResult
unfolding without_repeats select delete_each commit exists
bulk_delete_transactions verdict household transaction_ids = do
  let deleted_ids = without_repeats [] transaction_ids
  transactions ← query (λ db. select (is_chosen household.id deleted_ids) db.transactions)
  delete_if_found verdict household.id deleted_ids (ids_of transactions)

abbrev require_household : (household_id : ℕ) → Option Transaction → Handler Transaction
require_household household_id none = raise (http_exception 404 transaction_not_found)
require_household household_id (some transaction) =
    if transaction.household_id == household_id
    then pure transaction
    else raise (http_exception 404 transaction_not_found)

unfoldable pub delete_transaction : Verdict → Household → (transaction_id : ℕ) → Handler Unit
unfolding find? delete commit
delete_transaction verdict household transaction_id = do
  row ← query (λ db. find? (has_transaction_id transaction_id) db.transactions)
  transaction ← require_household household.id row
  modify (λ db. record db {
    transactions = delete (has_transaction_id transaction.id) db.transactions;
  })
  commit verdict
  emit (broadcast_deleted household.id (transaction_id ∷ []))

-- What holds of a refusal, of a deletion and of a commit that failed holds of the request.
pub delete_if_found_ind :
    (verdict : Verdict) (household_id : ℕ) (ids found_ids : List ℕ) (s : Session)
    (P : Outcome TransactionBulkDeleteResult × Session → Type 0)
    → ((e : AppError) → P (raised e, record s { working = s.stored }))
    → ((length found_ids == length ids) ≡ true
        → P (
          ok (record { deleted_count = length ids; deleted_ids = ids }),
          record {
            stored = record s.working { transactions = delete_each ids s.working.transactions };
            working = record s.working { transactions = delete_each ids s.working.transactions };
            events = s.events ++ broadcast_deleted household_id ids ∷ [];
          },
        ))
    → ((v : Violation)
        → P (
          raised (integrity_error v),
          record s {
            working = record s.working { transactions = delete_each ids s.working.transactions };
          },
        ))
    → P (delete_if_found verdict household_id ids found_ids s)
unfolding commit try_commit
delete_if_found_ind verdict household_id ids found_ids s P refused deleted failed =
    elim (Bool-cases (length found_ids == length ids)) [
      | inr n ↦ rw n (refused _)
      | inl n ↦
          elim (Option-cases (
            verdict (record s.working { transactions = delete_each ids s.working.transactions }))) [
              | inl v ↦ rw (n, v) (deleted n)
              | inr (x, v) ↦ rw (n, v) (failed x)
            ]
    ]
