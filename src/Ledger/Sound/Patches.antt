-- ===== src/Ledger/Sound/Patches.antt =====
-- Soundness through `patch_transaction` (transactions.py, services/merge.py).
use money_flow_service.Ledger.Columns.{
  amount, category_id, currency, flow_type, installment_months, memo, occurred_on, owner_name,
  owner_user_id, set_column, transaction_columns, TransactionCell, TransactionField,
}
use money_flow_service.Models.{Household, User, Category, Transaction, Database}
use money_flow_service.Merge.{patch_fields, applied, merge_patch, Patch, assign_all}
use money_flow_service.Prelude.{
  nat_eq, ◌&&◌, ◌==◌, true, false, arith, [], ◌∙◌, refl, none, Bool, inr, inl, Bool-cases, some,
  Option-cases, ◌∷◌, ◌≡◌, ℕ, Option, List,
}
use money_flow_service.Merge.Effect.{merge_patch-applied, merge_patch-effect, value_after}
use money_flow_service.Ledger.Reads.{has_transaction_id}
use money_flow_service.Ledger.Sound.{update-IsSound, IsSound, is_sound}
use money_flow_service.Ledger.Patching.Branches.{apply_patch_ind, patch_transaction_ind}
use money_flow_service.Prelude.Text.{text}
use money_flow_service.Prelude.Tables.{find?-holds}
use money_flow_service.Ledger.Cases.{fits}
use money_flow_service.Ledger.Patching.{
  set_value, has_wrong_installments, patch_transaction, names_day, OwnerPatch, moved, get_or,
  TransactionPatch, patch_data,
}
use money_flow_service.Session.{open_session, stored_after, Session, Verdict}

household_id-set_column :
    (f : TransactionField) (v : TransactionCell f) (t : Transaction)
    → (set_column f v t).household_id ≡ t.household_id
household_id-set_column amount v t = refl
household_id-set_column category_id v t = refl
household_id-set_column currency v t = refl
household_id-set_column flow_type v t = refl
household_id-set_column installment_months v t = refl
household_id-set_column memo v t = refl
household_id-set_column occurred_on v t = refl
household_id-set_column owner_name v t = refl
household_id-set_column owner_user_id v t = refl

-- A merge never moves a transaction to another household.
household_id-assign_all :
    (patch : Patch transaction_columns) (fields : List TransactionField) (t : Transaction)
    → (assign_all transaction_columns patch fields t).household_id ≡ t.household_id
unfolding assign_all
household_id-assign_all patch [] t = refl
household_id-assign_all patch (f ∷ fs) t = elim (Option-cases (patch f)) [
  | inl e ↦ rw (assign_all, e) (household_id-assign_all patch fs t)
  | inr (v, e) ↦
      rw (assign_all, e)
        (household_id-assign_all patch fs (set_column f v t) ∙ household_id-set_column f v t)
]

value_after-get_or :
    (f : TransactionField) (patch : Patch transaction_columns) (o : Option (TransactionCell f))
    (old : TransactionCell f)
    → value_after transaction_columns patch f o old ≡ get_or o old
value_after-get_or f patch none old = refl
value_after-get_or f patch (some v) old = refl

moved-is_sound :
    (categories : List Category) (household_id : ℕ) (fields : List TransactionField) (db : Database)
    (t : Transaction)
    → is_sound categories (moved household_id fields db t) ≡ is_sound categories t
unfolding is_sound
moved-is_sound categories household_id fields db t = elim (Bool-cases (names_day fields)) [
  | inl e ↦ rw e refl
  | inr e ↦ rw e refl
]

-- The merged transaction has the columns that the handler has checked.
merged-is_sound :
    (verdict : Verdict) (household : Household) (user : User) (transaction_id : ℕ)
    (payload : TransactionPatch) (s : Session) (transaction : Transaction) (owner : OwnerPatch)
    (t : Transaction) (merged : Bool) (fields : List TransactionField)
    → transaction.household_id ≡ household.id
    → has_wrong_installments
        (get_or payload.installment_months transaction.installment_months)
        (get_or (set_value payload.flow_type) transaction.flow_type)
      ≡ false
    → fits s.working.categories household.id
        (get_or payload.category_id transaction.category_id)
        (get_or (set_value payload.flow_type) transaction.flow_type)
      ≡ true
    → merge_patch transaction_columns s.working.patch_logs
        (text "transaction")
        payload.base_version
        (patch_data payload owner)
        transaction
      ≡ applied t merged fields
    → is_sound s.working.categories t ≡ true
unfolding is_sound patch_data
merged-is_sound verdict household user transaction_id payload s transaction owner t merged fields
      here w fit m =
    let patch = patch_data payload owner in
    let effect =
      merge_patch-effect transaction_columns patch s.working.patch_logs (text "transaction")
        payload.base_version transaction m in
    let applied_eq =
      merge_patch-applied transaction_columns patch s.working.patch_logs (text "transaction")
        payload.base_version transaction m in
    let same_household : t.household_id ≡ household.id = rw (applied_eq.0) (
      household_id-assign_all patch (patch_fields transaction_columns patch transaction) transaction
      ∙ here) in
    let category : t.category_id ≡ get_or payload.category_id transaction.category_id =
      (effect category_id).1
      ∙ value_after-get_or category_id patch payload.category_id transaction.category_id in
    let flow : t.flow_type ≡ get_or (set_value payload.flow_type) transaction.flow_type =
      (effect flow_type).1
      ∙ value_after-get_or flow_type patch (set_value payload.flow_type) transaction.flow_type in
    let months : t.installment_months
        ≡ get_or payload.installment_months transaction.installment_months =
      (effect installment_months).1
      ∙ value_after-get_or installment_months patch payload.installment_months
          transaction.installment_months in
    rw (same_household, category, flow, months, fit, w) refl

pub patch_transaction-IsSound :
    (verdict : Verdict) (household : Household) (user : User) (transaction_id : ℕ)
    (payload : TransactionPatch) (db : Database)
    → IsSound db
    → IsSound (stored_after (patch_transaction verdict household user transaction_id payload) db)
patch_transaction-IsSound verdict household user transaction_id payload db sound =
    patch_transaction_ind verdict household user transaction_id payload (open_session db)
      (λ r. IsSound r.1.stored) (λ o. sound)
      (λ transaction owner t merged fields found w fit m.
        let here : transaction.household_id ≡ household.id = ground (
          arith,
          find?-holds
              (λ (t : Transaction). t.id == transaction_id && t.household_id == household.id)
              db.transactions found,
        ) in
        let good =
          merged-is_sound verdict household user transaction_id payload (open_session db)
            transaction owner t merged fields here w fit m in
        apply_patch_ind verdict household.id user.id payload.base_version transaction t merged
          fields (open_session db) (λ r. IsSound r.1.stored)
          (λ o events.
            update-IsSound (has_transaction_id t.id) (λ _. moved household.id fields db t) db sound
              (λ u e. moved-is_sound db.categories household.id fields db t ∙ good))
          (λ e. sound))
