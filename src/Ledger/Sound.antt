-- ===== src/Ledger/Sound.antt =====
-- transactions.py: when a transaction is sound. A category that it has is a category of its household
-- and of its flow type, and only an expense is paid in instalments.
pub mod Steps
pub mod Patches
pub mod Deletions
use money_flow_service.Ledger.Order.{
  key_in, is_on_day, same_day_transactions, renumber, rebalance_order_keys,
}
use money_flow_service.Prelude.{refl, ◌&&◌, [], arith, ◌∷◌, true, ℕ, List, not, Bool, ◌≡◌}
use money_flow_service.Ledger.Patching.{has_wrong_installments}
use money_flow_service.Prelude.Tables.{
  count-append, count-update_le, count-delete_le, update, delete, count, find?,
}
use money_flow_service.Ledger.Reads.{has_transaction_id}
use money_flow_service.Ledger.Cases.{fits}
use money_flow_service.Ledger.Creation.Branches.{with_transaction}
use money_flow_service.Models.{Category, Transaction, Database}
use money_flow_service.Ledger.Deletion.{delete_each}

-- Whether a transaction is sound, given the categories.
unfoldable pub is_sound : List Category → Transaction → Bool
unfolding find?
is_sound categories t =
    fits categories t.household_id t.category_id t.flow_type
    && not (has_wrong_installments t.installment_months t.flow_type)

-- No stored transaction is unsound.
abbrev pub IsSound : Database → Type 0
IsSound db = count (λ t. not (is_sound db.categories t)) db.transactions ≡ 0

-- A row with the same household, category, flow type and instalments is as sound.
pub rebalance-IsSound :
    (household_id occurred_on : ℕ) (db : Database)
    → IsSound db
    → IsSound (rebalance_order_keys household_id occurred_on db)
unfolding is_sound rebalance_order_keys
rebalance-IsSound household_id occurred_on db h =
    let rows = renumber 1 (same_day_transactions household_id occurred_on db) in
    omega (
      arith,
      h,
      count-update_le (is_on_day household_id occurred_on) (λ t. not (is_sound db.categories t))
          (λ (t : Transaction). record t { order_key = key_in rows t }) db.transactions
          (λ t p q. q),
    )

pub with_transaction-IsSound :
    (t : Transaction) (db : Database)
    → IsSound db
    → is_sound db.categories t ≡ true
    → IsSound (with_transaction t db)
unfolding count
with_transaction-IsSound t db h fit =
    rw (count-append (λ u. not (is_sound db.categories u)) db.transactions (t ∷ []), h, fit) refl

pub update-IsSound :
    (p : Transaction → Bool) (f : Transaction → Transaction) (db : Database)
    → IsSound db
    → ((t : Transaction) → p t ≡ true → is_sound db.categories (f t) ≡ true)
    → IsSound (record db { transactions = update p f db.transactions })
update-IsSound p f db h fit = omega (
  arith,
  h,
  count-update_le p (λ t. not (is_sound db.categories t)) f db.transactions
      (λ t e q. ground (arith, fit t e)),
)

pub delete-IsSound :
    (p : Transaction → Bool) (db : Database)
    → IsSound db
    → IsSound (record db { transactions = delete p db.transactions })
delete-IsSound p db h =
    omega (arith, h, count-delete_le p (λ t. not (is_sound db.categories t)) db.transactions)

pub delete_each-IsSound :
    (ids : List ℕ) (db : Database)
    → IsSound db
    → IsSound (record db { transactions = delete_each ids db.transactions })
unfolding delete_each
delete_each-IsSound [] db h = h
delete_each-IsSound (i ∷ ids) db h =
    delete_each-IsSound ids
      (record db { transactions = delete (has_transaction_id i) db.transactions })
      (delete-IsSound (has_transaction_id i) db h)
