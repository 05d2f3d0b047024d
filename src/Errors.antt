-- ===== src/Errors.antt =====
-- backend/app/core/errors.py: the errors that a request can end with. `app_error` carries an HTTP
-- status and a code; the texts shown to the user are not modelled. A plain `HTTPException` carries
-- a detail instead, and an `IntegrityError` that a handler re-raises ends the request as itself.
use money_flow_service.Prelude.{ℕ, List}
use money_flow_service.Prelude.Text.{Text}

pub data Code : Type 0 where
  auth_csrf_origin_required auth_csrf_origin_forbidden auth_csrf_invalid auth_token_missing : Code
  auth_token_invalid auth_user_not_found : Code
  household_membership_missing household_access_forbidden household_not_found : Code
  household_role_forbidden household_member_not_found household_owner_required : Code
  household_member_display_name_duplicate household_member_already_exists : Code
  household_invite_role_invalid household_invite_rate_limited household_invite_conflict : Code
  household_invite_expired household_invite_invalid household_invite_email_mismatch : Code
  household_invite_not_found household_invite_already_processed : Code
  household_invite_email_delivery_failed : Code
  transaction_category_flow_type_mismatch transaction_insert_anchor_required : Code
  transaction_insert_anchor_date_mismatch transaction_order_rebalance_failed : Code
  transaction_owner_invalid transaction_patch_null_not_allowed : Code
  transaction_installment_flow_type_mismatch transaction_history_cursor_required : Code
  category_invalid category_duplicate category_in_use : Code
  holding_owner_invalid holding_already_exists : Code
  holding_patch_null_not_allowed holding_patch_blank_not_allowed : Code
  auth_rate_limited auth_invalid_credentials auth_email_not_verified : Code
  auth_register_rate_limited auth_register_throttle_unavailable : Code
  auth_resend_rate_limited auth_resend_throttle_unavailable : Code
  auth_verification_code_rate_limited auth_verification_code_throttle_unavailable : Code
  transaction_history_cursor_invalid : Code

pub data Detail : Type 0 where
  category_not_found category_group_not_found invalid_category_id : Detail
  transaction_not_found transaction_anchor_not_found holding_not_found : Detail
  dates_not_together start_after_end month_without_year : Detail

-- The constraint that a database reports as broken when a unit of work is written.
pub data Violation : Type 0 where
  foreign_key_category transaction_source_ref holding_identity other_constraint : Violation

pub data AppError : Type 0 where
  app_error : (status_code : ℕ) → Code → AppError
  -- the error's context: the ids or the field names that it is about
  bulk_delete_not_found : (missing_ids : List ℕ) → AppError
  fields_error : Code → (fields : List Text) → AppError
  http_exception : (status_code : ℕ) → Detail → AppError
  merge_conflict : (entity_id current_version : ℕ) → (conflict_fields : List Text) → AppError
  integrity_error : Violation → AppError
