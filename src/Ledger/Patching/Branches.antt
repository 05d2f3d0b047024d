-- ===== src/Ledger/Patching/Branches.antt =====
-- transactions.py, `patch_transaction`, branch by branch.
use money_flow_service.Prelude.{
  refl, none, Bool-cases, ◌⊎◌, inr, [], ◌∷◌, map, ◌++◌, inl, Option-cases, true, nat_eq, false,
  some, ◌≡◌, ◌&&◌, ◌==◌, List, Bool, ℕ,
}
use money_flow_service.Errors.{
  transaction_owner_invalid, AppError, transaction_source_ref, foreign_key_category,
  holding_identity, other_constraint,
}
use money_flow_service.Ledger.Cases.{
  resolve_owner_fields_cases, ensure_category_cases, load_transaction_read_cases, fits,
}
use money_flow_service.Ledger.Patching.{
  names_owner, patch_found, null_fields, resolve_patch_owner, patch_data, write_patch,
  has_wrong_installments, set_value, get_or, OwnerPatch, patch_transaction, TransactionPatch,
  apply_patch,
}
use money_flow_service.Session.{
  ok, broadcast_patched, raised, Event, Outcome, Session, try_commit, Verdict,
}
use money_flow_service.Ledger.Columns.{field_name, TransactionField, transaction_columns}
use money_flow_service.Prelude.Text.{text}
use money_flow_service.Merge.{merge_patch, MergeResult, unchanged, conflict, applied}
use money_flow_service.Ledger.Reads.{TransactionRead}
use money_flow_service.Prelude.Tables.{find?}
use money_flow_service.Models.{FlowType, Transaction, User, Household}

module _ (verdict : Verdict) (household_id user_id base_version : ℕ)
    (transaction : Transaction) where
  pub apply_patch_ind :
      (t : Transaction) (merged : Bool) (fields : List TransactionField) (s : Session)
      (P : Outcome TransactionRead × Session → Type 0)
      → ((o : Outcome TransactionRead) (events : List Event)
          → P (
            o,
            record {
              stored = write_patch household_id user_id base_version merged fields t s.working;
              working = write_patch household_id user_id base_version merged fields t s.working;
              events = events;
            },
          ))
      → ((e : AppError) → P (raised e, record s { working = s.stored }))
      → P (
          apply_patch verdict household_id user_id base_version transaction
            (applied t merged fields)
            s)
  unfolding apply_patch try_commit
  apply_patch_ind t merged fields s P committed failed =
      let db = write_patch household_id user_id base_version merged fields t s.working in
      elim (Option-cases (verdict db)) [
        | inl v ↦
            elim (load_transaction_read_cases t.id (record {
              stored = db;
              working = db;
              events =
                  s.events
                  ++ broadcast_patched household_id t.id t.version (map field_name fields) merged
                    ∷ [];
            })) [
              | inl (body, e) ↦ rw (v, e) (committed _ _)
              | inr (x, e) ↦ rw (v, e) (committed _ _)
            ]
        | inr (transaction_source_ref, v) ↦ rw v (failed _)
        | inr (foreign_key_category, v) ↦ rw v (failed _)
        | inr (holding_identity, v) ↦ rw v (failed _)
        | inr (other_constraint, v) ↦ rw v (failed _)
      ]

List-cases : {A : Type 0} (xs : List A) → (xs ≡ []) ⊎ ((x : A) × (rest : List A) × (xs ≡ x ∷ rest))
List-cases [] = inl refl
List-cases (x ∷ xs) = inr (x, xs, refl)

merge_cases :
    (r : MergeResult transaction_columns)
    → (r ≡ unchanged)
      ⊎ (((fields : List TransactionField) × (r ≡ conflict fields))
          ⊎ ((t : Transaction) × (merged : Bool) × (fields : List TransactionField) × (r
                ≡ applied t merged fields)))
merge_cases unchanged = inl refl
merge_cases (conflict fields) = inr (inl (fields, refl))
merge_cases (applied t merged fields) = inr (inr (t, merged, fields, refl))

resolve_patch_owner_cases :
    (household_id : ℕ) (payload : TransactionPatch) (transaction : Transaction) (s : Session)
    → ((owner : OwnerPatch) × (resolve_patch_owner household_id payload transaction s
          ≡ (ok owner, s)))
      ⊎ ((e : AppError) × (resolve_patch_owner household_id payload transaction s ≡ (raised e, s)))
unfolding resolve_patch_owner
resolve_patch_owner_cases household_id payload transaction s =
    elim (Bool-cases (names_owner payload)) [
      | inr n ↦ inl (none, rw n refl)
      | inl n ↦
          elim (resolve_owner_fields_cases household_id
            (get_or payload.owner_user_id transaction.owner_user_id)
            (get_or payload.owner_name transaction.owner_name) transaction_owner_invalid s) [
              | inl (owner, r) ↦ inl (some owner, rw (n, r) refl)
              | inr (e, r) ↦ inr (e, rw (n, r) refl)
            ]
    ]

module _ (verdict : Verdict) (household : Household) (user : User) (transaction_id : ℕ)
    (payload : TransactionPatch) (s : Session) where
  -- The row that the patch is about.
  abbrev pub IsFound : Transaction → Type 0
  IsFound transaction =
      find? (λ (t : Transaction). t.id == transaction_id && t.household_id == household.id)
        s.working.transactions
      ≡ some transaction

  abbrev pub next_flow_type : Transaction → FlowType
  next_flow_type transaction = get_or (set_value payload.flow_type) transaction.flow_type

  abbrev pub merge_result : Transaction → OwnerPatch → MergeResult transaction_columns
  merge_result transaction owner =
      merge_patch transaction_columns s.working.patch_logs (text "transaction") payload.base_version
        (patch_data payload owner) transaction

  -- What the last step gets of the earlier ones.
  abbrev IsWritten :
      (P : Outcome TransactionRead × Session → Type 0) → Transaction → OwnerPatch → Type 0
  IsWritten P transaction owner =
      (t : Transaction) (merged : Bool) (fields : List TransactionField)
      → has_wrong_installments (get_or payload.installment_months transaction.installment_months)
          (next_flow_type transaction)
        ≡ false
      → fits s.working.categories household.id (get_or payload.category_id transaction.category_id)
          (next_flow_type transaction)
        ≡ true
      → merge_result transaction owner ≡ applied t merged fields
      → P (
          apply_patch verdict household.id user.id payload.base_version transaction
            (applied t merged fields) s)

  merge_ind :
      (P : Outcome TransactionRead × Session → Type 0) (transaction : Transaction)
      (owner : OwnerPatch)
      → ((o : Outcome TransactionRead) → P (o, s))
      → ((t : Transaction) (merged : Bool) (fields : List TransactionField)
          → merge_result transaction owner ≡ applied t merged fields
          → P (
              apply_patch verdict household.id user.id payload.base_version transaction
                (applied t merged fields)
                s))
      → P (
          apply_patch verdict household.id user.id payload.base_version transaction
            (merge_result transaction owner)
            s)
  unfolding apply_patch
  merge_ind P transaction owner kept written = elim (merge_cases (merge_result transaction owner)) [
    | inl m ↦ elim (load_transaction_read_cases transaction.id s) [
      | inl (body, e) ↦ rw (m, e) (kept _)
      | inr (x, e) ↦ rw (m, e) (kept _)
    ]
    | inr (inl (fields, m)) ↦ rw m (kept _)
    | inr (inr (t, merged, fields, m)) ↦ rw m (written t merged fields m)
  ]

  patch_found_ind :
      (P : Outcome TransactionRead × Session → Type 0)
      → ((o : Outcome TransactionRead) → P (o, s))
      → (transaction : Transaction) → ((owner : OwnerPatch) → IsWritten P transaction owner)
      → P (patch_found verdict household.id user.id payload transaction s)
  unfolding patch_found
  patch_found_ind P kept transaction written =
      elim (resolve_patch_owner_cases household.id payload transaction s) [
        | inr (x, r) ↦ rw r (kept _)
        | inl (owner, r) ↦
            elim (Bool-cases (
              has_wrong_installments
                (get_or payload.installment_months transaction.installment_months)
                (next_flow_type transaction))) [
                  | inl w ↦ rw (r, w) (kept _)
                  | inr w ↦
                      elim (ensure_category_cases household.id
                        (get_or payload.category_id transaction.category_id)
                        (next_flow_type transaction) s) [
                          | inr (x, c) ↦ rw (r, w, c) (kept _)
                          | inl (c, fit) ↦ elim (load_transaction_read_cases transaction.id s) [
                            | inr (x, l) ↦ rw (r, w, c, l) (kept _)
                            | inl (body, l) ↦
                                rw (r, w, c, l)
                                  (merge_ind P transaction owner kept
                                    (λ t merged fields m. written owner t merged fields w fit m))
                          ]
                        ]
                ]
      ]

  pub patch_transaction_ind :
      (P : Outcome TransactionRead × Session → Type 0)
      → ((o : Outcome TransactionRead) → P (o, s))
      → ((transaction : Transaction) (owner : OwnerPatch) (t : Transaction) (merged : Bool)
            (fields : List TransactionField)
          → IsFound transaction
          → has_wrong_installments
              (get_or payload.installment_months transaction.installment_months)
              (next_flow_type transaction)
            ≡ false
          → fits s.working.categories household.id
              (get_or payload.category_id transaction.category_id)
              (next_flow_type transaction)
            ≡ true
          → merge_result transaction owner ≡ applied t merged fields
          → P (
              apply_patch verdict household.id user.id payload.base_version transaction
                (applied t merged fields)
                s))
      → P (patch_transaction verdict household user transaction_id payload s)
  unfolding patch_transaction
  patch_transaction_ind P kept written =
      elim (Option-cases (
        find? (λ (t : Transaction). t.id == transaction_id && t.household_id == household.id)
          s.working.transactions)) [
            | inl f ↦ rw f (kept _)
            | inr (transaction, f) ↦ elim (List-cases (null_fields payload)) [
              | inr (name, names, n) ↦ rw (f, n) (kept _)
              | inl n ↦
                  rw (f, n)
                    (patch_found_ind P kept transaction
                      (λ owner t merged fields. written transaction owner t merged fields f))
            ]
          ]
