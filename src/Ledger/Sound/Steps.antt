-- ===== src/Ledger/Sound/Steps.antt =====
-- Soundness through the handlers of transactions.py.
use money_flow_service.Prelude.{refl, false, ◌≡◌, Option, ℕ}
use money_flow_service.Session.{ok, raised, stored_after, open_session, Outcome, Verdict, Session}
use money_flow_service.Ledger.Sound.{with_transaction-IsSound, rebalance-IsSound, IsSound, is_sound}
use money_flow_service.Ledger.Creation.Branches.{insert_transaction_ind, create_transaction_ind}
use money_flow_service.Ledger.Creation.{
  source_ref_of, new_transaction, create_transaction, TransactionCreate,
}
use money_flow_service.Ledger.Cases.{allocate_order_key-keeps}
use money_flow_service.Ledger.Patching.{has_wrong_installments}
use money_flow_service.Ledger.Allocation.{allocate_order_key}
use money_flow_service.Models.{User, Household, Database}
use money_flow_service.Ledger.Order.{InsertPosition, rebalance_order_keys}
use money_flow_service.Household.Invitations.{Surroundings}

-- While an order key is allocated, the stored database and the categories stay, and the transactions are
-- as sound as they were.
abbrev IsPrepared : Database → Session → Type 0
IsPrepared db s = IsSound s.working × (s.stored ≡ db) × (s.working.categories ≡ db.categories)

allocation-IsPrepared :
    (household_id occurred_on : ℕ) (anchor : Option ℕ) (position : Option InsertPosition)
    (db : Database)
    → IsSound db
    → (o : Outcome ℕ) (s' : Session)
    → allocate_order_key household_id occurred_on anchor position (open_session db) ≡ (o, s')
    → IsPrepared db s'
unfolding rebalance_order_keys
allocation-IsPrepared household_id occurred_on anchor position db sound o s' a = rw a at (
    allocate_order_key-keeps household_id occurred_on anchor position (IsPrepared db)
      (λ s q. (rebalance-IsSound household_id occurred_on s.working q.0, q.1, q.2))
      (open_session db) (sound, refl, refl))

pub create_transaction-IsSound :
    (env : Surroundings) (verdict : Verdict) (others : Database → Database) (household : Household)
    (user : User) (payload : TransactionCreate) (db : Database)
    → IsSound db
    → IsSound (others db)
    → has_wrong_installments payload.installment_months payload.flow_type ≡ false
    → IsSound (stored_after (create_transaction env verdict others household user payload) db)
unfolding is_sound
create_transaction-IsSound env verdict others household user payload db sound sound' validated =
    let prepared =
      allocation-IsPrepared household.id payload.occurred_on payload.anchor_transaction_id
        payload.insert_position db sound in
    create_transaction_ind env verdict others household user payload (open_session db)
      (λ r. IsSound r.1.stored) (λ existing e. sound) (λ e o q. sound)
      (λ e x s' a. rw ((prepared (raised x) s' a).1) sound)
      (λ e fit owner r k s' a.
        let t = new_transaction env household.id user.id payload (source_ref_of payload) owner k in
        insert_transaction_ind verdict others t (source_ref_of payload) s' (λ r. IsSound r.1.stored)
          (with_transaction-IsSound t s'.working ((prepared (ok k) s' a).0)
            (rw ((prepared (ok k) s' a).2, fit, validated) refl))
          (λ o q. rw ((prepared (ok k) s' a).1) sound'))
