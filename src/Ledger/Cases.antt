-- ===== src/Ledger/Cases.antt =====
-- transactions.py: the steps of a request that only read, each of which ends in a value or an error and
-- leaves the session.
use money_flow_service.Ledger.Reads.{
  linked_owner_name, to_transaction_read, has_transaction_id, TransactionRead,
  load_transaction_read,
}
use money_flow_service.Errors.{
  transaction_category_flow_type_mismatch, app_error, transaction_not_found, invalid_category_id,
  http_exception, AppError, Code,
}
use money_flow_service.Prelude.{
  refl, zero, Bool-cases, inr, nat_eq, ◌&&◌, inl, none, ◌==◌, some, Option-cases, ◌⊎◌, false, true,
  suc, Bool, ◌≡◌, Option, List, ℕ,
}
use money_flow_service.Models.{flow_eq, Category, FlowType}
use money_flow_service.Ledger.Order.{
  place_key, index_of, same_day_transactions, rebalance_order_keys, InsertPosition,
}
use money_flow_service.OwnerLinks.{
  get_household_member_user, normalize_optional_text, require_household_member_user,
  resolve_owner_fields,
}
use money_flow_service.Session.{raised, ok, Session}
use money_flow_service.Prelude.Tables.{find?}
use money_flow_service.Prelude.Text.{Text}
use money_flow_service.Ledger.Creation.{ensure_category}
use money_flow_service.Ledger.Allocation.{allocate_rounds, allocate_order_key}

-- The category is one of the household, and of the flow type.
abbrev pub fits_row : (household_id : ℕ) → FlowType → Option Category → Bool
fits_row household_id flow none = false
fits_row household_id flow (some c) = c.household_id == household_id && c.flow_type == flow

abbrev pub fits : List Category → (household_id : ℕ) → Option ℕ → FlowType → Bool
fits categories household_id none flow = true
fits categories household_id (some category_id) flow =
    fits_row household_id flow (find? (λ (c : Category). c.id == category_id) categories)

pub load_transaction_read_cases :
    (i : ℕ) (s : Session)
    → ((body : TransactionRead) × (load_transaction_read i s ≡ (ok body, s)))
      ⊎ ((e : AppError) × (load_transaction_read i s ≡ (raised e, s)))
unfolding load_transaction_read
load_transaction_read_cases i s =
    elim (Option-cases (find? (has_transaction_id i) s.working.transactions)) [
      | inl e ↦ inr (http_exception 404 transaction_not_found, rw e)
      | inr (t, e) ↦ inl (to_transaction_read t (linked_owner_name s.working t.owner_user_id), rw e)
    ]

pub ensure_category_cases :
    (household_id : ℕ) (category_id : Option ℕ) (flow : FlowType) (s : Session)
    → ((ensure_category household_id category_id flow s ≡ (ok tt, s))
        × (fits s.working.categories household_id category_id flow ≡ true))
      ⊎ ((e : AppError) × (ensure_category household_id category_id flow s ≡ (raised e, s)))
unfolding ensure_category
ensure_category_cases household_id none flow s = inl (refl, refl)
ensure_category_cases household_id (some i) flow s =
    elim (Option-cases (find? (λ (c : Category). c.id == i) s.working.categories)) [
      | inl e ↦ inr (http_exception 400 invalid_category_id, rw e)
      | inr (c, e) ↦ elim (Bool-cases (c.household_id == household_id)) [
        | inr h ↦ inr (http_exception 400 invalid_category_id, rw (e, h))
        | inl h ↦ elim (Bool-cases (c.flow_type == flow)) [
          | inr f ↦ inr (app_error 400 transaction_category_flow_type_mismatch, rw (e, h, f))
          | inl f ↦ inl (rw (e, h, f), rw (e, h, f))
        ]
      ]
    ]

pub resolve_owner_fields_cases :
    (household_id : ℕ) (user_id : Option ℕ) (name : Option Text) (code : Code) (s : Session)
    → ((owner : Option ℕ × Option Text) × (resolve_owner_fields household_id user_id name code s
          ≡ (ok owner, s)))
      ⊎ ((e : AppError) × (resolve_owner_fields household_id user_id name code s ≡ (raised e, s)))
unfolding resolve_owner_fields require_household_member_user
resolve_owner_fields_cases household_id none name code s =
    inl ((none, normalize_optional_text name), refl)
resolve_owner_fields_cases household_id (some i) name code s =
    elim (Option-cases (get_household_member_user household_id (some i) s.working)) [
      | inl e ↦ inr (app_error 400 code, rw e)
      | inr (u, e) ↦ inl ((some u.id, normalize_optional_text (some u.display_name)), rw e)
    ]

-- Allocation changes nothing but the keys of the day.
allocate_rounds-keeps :
    (household_id occurred_on anchor_id : ℕ) (position : InsertPosition) (Q : Session → Type 0)
    → ((s : Session)
        → Q s
        → Q (record s { working = rebalance_order_keys household_id occurred_on s.working }))
    → (rounds : ℕ) (s : Session) → Q s
    → Q (allocate_rounds rounds household_id occurred_on anchor_id position s).1
unfolding allocate_rounds
allocate_rounds-keeps household_id occurred_on anchor_id position Q step zero s q = q
allocate_rounds-keeps household_id occurred_on anchor_id position Q step (suc rounds) s q =
    let rows = same_day_transactions household_id occurred_on s.working in
    elim (Option-cases (index_of anchor_id rows)) [
      | inl e ↦ rw (allocate_rounds, e) q
      | inr (i, e) ↦ elim (Option-cases (place_key position rows i)) [
        | inl p ↦
            rw (allocate_rounds, e, p)
              (allocate_rounds-keeps household_id occurred_on anchor_id position Q step rounds
                (record s { working = rebalance_order_keys household_id occurred_on s.working })
                (step s q))
        | inr (k, p) ↦ rw (allocate_rounds, e, p) q
      ]
    ]

pub allocate_order_key-keeps :
    (household_id occurred_on : ℕ) (anchor : Option ℕ) (position : Option InsertPosition)
    (Q : Session → Type 0)
    → ((s : Session)
        → Q s
        → Q (record s { working = rebalance_order_keys household_id occurred_on s.working }))
    → (s : Session) → Q s
    → Q (allocate_order_key household_id occurred_on anchor position s).1
unfolding allocate_order_key
allocate_order_key-keeps household_id occurred_on none none Q step s q = q
allocate_order_key-keeps household_id occurred_on none (some position) Q step s q = q
allocate_order_key-keeps household_id occurred_on (some anchor) none Q step s q = q
allocate_order_key-keeps household_id occurred_on (some anchor) (some position) Q step s q =
    allocate_rounds-keeps household_id occurred_on anchor position Q step 2 s q
