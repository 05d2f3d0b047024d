-- ===== src/Holdings/Patching.antt =====
-- holdings.py, `patch_holding` and `delete_holding`.
use money_flow_service.Holdings.Columns.{
  field_name, holding_columns, HoldingField, account_name, average_cost, category, currency,
  display_order, market_symbol, name, owner_name, owner_user_id, quantity, type_key,
}
use money_flow_service.Session.{
  broadcast_patched, broadcast_deleted, emit, modify, ◌>>◌, or_raise, query, ◌>>=◌, raise, commit,
  try_commit, Handler, Verdict, pure,
}
use money_flow_service.Holdings.Creation.{raise_holding_violation, refuse_duplicate}
use money_flow_service.Prelude.{
  map, option_eq, nat_eq, ◌&&◌, none, if◌then◌else◌, [], ◌∷◌, ◌==◌, ◌++◌, some, Option, not, Bool,
  List, ℕ,
}
use money_flow_service.Errors.{
  merge_conflict, holding_patch_blank_not_allowed, holding_patch_null_not_allowed,
  holding_owner_invalid, holding_not_found, http_exception, fields_error, Code,
}
use money_flow_service.Prelude.Text.{text_eq, is_empty, or_empty, upper, text, Text, strip}
use money_flow_service.Ledger.Patching.{set_value, get_or, OwnerPatch, if_null}
use money_flow_service.Holdings.Identity.{
  HoldingIdentity, normalize_identity_text, has_holding_id, HoldingRead, find_duplicate_holding,
  load_holding_read,
}
use money_flow_service.Merge.{
  conflict, patch_log, MergeResult, Patch, merge_patch, applied, unchanged,
}
use money_flow_service.Models.{User, Household, Database, Holding}
use money_flow_service.Prelude.Tables.{update, delete, find?}
use money_flow_service.OwnerLinks.{normalize_optional_text, resolve_owner_fields}
use mathlib.Core.Option

-- schemas.py, `HoldingPatch`, as validated: `none` for a field that the request does not name, and
-- `some none` for one that it sets to null.
pub record HoldingPatch : Type 0 where
  pub base_version : ℕ
  pub type_key : Option (Option Text)
  pub market_symbol : Option (Option Text)
  pub name : Option (Option Text)
  pub category : Option (Option Text)
  pub owner_user_id : Option (Option ℕ)
  pub owner_name : Option (Option Text)
  pub account_name : Option (Option Text)
  pub quantity : Option (Option ℕ)
  pub average_cost : Option (Option ℕ)
  pub currency : Option (Option Text)
  pub display_order : Option (Option ℕ)

-- The required fields that the patch sets to null, sorted.
unfoldable pub holding_null_fields : HoldingPatch → List Text
holding_null_fields payload =
    if_null (text "average_cost") payload.average_cost
    ++ if_null (text "category") payload.category
    ++ if_null (text "currency") payload.currency
    ++ if_null (text "display_order") payload.display_order
    ++ if_null (text "market_symbol") payload.market_symbol
    ++ if_null (text "name") payload.name
    ++ if_null (text "quantity") payload.quantity

-- The name of a field that is set to a blank text.
abbrev pub if_blank : Text → Option (Option Text) → List Text
if_blank field none = []
if_blank field (some none) = []
if_blank field (some (some value)) = if is_empty (strip value) then field ∷ [] else []

unfoldable pub blank_fields : HoldingPatch → List Text
unfolding strip
blank_fields payload =
    if_blank (text "category") payload.category
    ++ if_blank (text "market_symbol") payload.market_symbol
    ++ if_blank (text "name") payload.name

abbrev pub raise_fields : Code → List Text → Handler Unit
raise_fields code [] = pure tt
raise_fields code (field ∷ fields) = raise (fields_error code (field ∷ fields))

abbrev pub names_owner : HoldingPatch → Bool
names_owner payload = not (payload.owner_user_id == none && payload.owner_name == none)

unfoldable pub resolve_holding_owner :
    (household_id : ℕ) → HoldingPatch → Holding → Handler OwnerPatch
unfolding resolve_owner_fields
resolve_holding_owner household_id payload holding =
    if names_owner payload
    then (do
      owner ←
          resolve_owner_fields household_id (get_or payload.owner_user_id holding.owner_user_id)
            (get_or payload.owner_name holding.owner_name) holding_owner_invalid
      pure (some owner))
    else pure none

-- `patch_data`, the dict that is merged.
unfoldable pub holding_patch_data : HoldingPatch → OwnerPatch → Patch holding_columns
unfolding strip upper normalize_optional_text
holding_patch_data payload owner account_name = Option.map (Option.map strip) payload.account_name
holding_patch_data payload owner average_cost = set_value payload.average_cost
holding_patch_data payload owner category = Option.map strip (set_value payload.category)
holding_patch_data payload owner currency =
    Option.map (λ s. upper (strip s)) (set_value payload.currency)
holding_patch_data payload owner display_order = set_value payload.display_order
holding_patch_data payload owner market_symbol =
    Option.map (λ s. upper (strip s)) (set_value payload.market_symbol)
holding_patch_data payload owner name = Option.map strip (set_value payload.name)
holding_patch_data payload owner owner_name = Option.map (λ (o : Option ℕ × Option Text). o.1) owner
holding_patch_data payload owner owner_user_id =
    Option.map (λ (o : Option ℕ × Option Text). o.0) owner
holding_patch_data payload owner quantity = set_value payload.quantity
holding_patch_data payload owner type_key = Option.map normalize_optional_text payload.type_key

-- `target_identity`: the asset that the holding is after the patch.
unfoldable pub target_identity : HoldingPatch → OwnerPatch → Holding → HoldingIdentity
unfolding holding_patch_data strip upper normalize_optional_text normalize_identity_text
target_identity payload owner holding =
    let patch = holding_patch_data payload owner in
    record {
      household_id = holding.household_id;
      asset_type = holding.asset_type;
      market_symbol = upper (strip (get_or (patch market_symbol) holding.market_symbol));
      owner_user_id = get_or (patch owner_user_id) holding.owner_user_id;
      owner_name = normalize_optional_text (get_or (patch owner_name) holding.owner_name);
      account_name = normalize_identity_text (get_or (patch account_name) holding.account_name);
    }

-- The columns that are not null in the database.
abbrev pub without_nulls : Holding → Holding
without_nulls h = record h {
  owner_name = some (or_empty h.owner_name);
  account_name = some (or_empty h.account_name);
}

abbrev pub write_holding_patch :
    (household_id user_id base_version : ℕ)
    → Bool
    → List HoldingField
    → Holding
    → Database
    → Database
write_holding_patch household_id user_id base_version merged fields h db = record db {
  holdings = update (has_holding_id h.id) (λ _. without_nulls h) db.holdings;
  patch_logs =
      db.patch_logs
      ++ patch_log holding_columns household_id (text "holding") base_version (some user_id) h
          merged fields
        ∷ [];
}

-- What follows `merge_patch_or_raise`.
unfoldable pub apply_holding_patch :
    Verdict
    → (household_id user_id base_version : ℕ) → Holding
    → MergeResult holding_columns
    → Handler HoldingRead
unfolding load_holding_read try_commit update
apply_holding_patch verdict household_id user_id base_version holding unchanged =
    load_holding_read holding.id
apply_holding_patch verdict household_id user_id base_version holding (conflict fields) =
    raise (merge_conflict holding.id holding.version (map field_name fields))
apply_holding_patch verdict household_id user_id base_version holding (applied h merged fields) = do
  modify (write_holding_patch household_id user_id base_version merged fields h)
  violation ← try_commit verdict
  raise_holding_violation violation
  emit (broadcast_patched household_id h.id h.version (map field_name fields) merged)
  load_holding_read h.id

-- From the owner on.
unfoldable pub patch_found_holding :
    Verdict → (household_id user_id : ℕ) → HoldingPatch → Holding → Handler HoldingRead
unfolding resolve_holding_owner target_identity find_duplicate_holding load_holding_read merge_patch
    holding_patch_data apply_holding_patch
patch_found_holding verdict household_id user_id payload holding = do
  owner ← resolve_holding_owner household_id payload holding
  duplicate ←
      query (find_duplicate_holding (target_identity payload owner holding) (some holding.id))
  refuse_duplicate duplicate
  current_data ← load_holding_read holding.id
  result ← query (λ db.
      merge_patch holding_columns db.patch_logs (text "holding") payload.base_version
        (holding_patch_data payload owner) holding)
  apply_holding_patch verdict household_id user_id payload.base_version holding result

unfoldable pub patch_holding :
    Verdict → Household → User → (holding_id : ℕ) → HoldingPatch → Handler HoldingRead
unfolding find? holding_null_fields blank_fields patch_found_holding
patch_holding verdict household user holding_id payload = do
  row ← query (λ db.
      find? (λ (h : Holding). h.id == holding_id && h.household_id == household.id) db.holdings)
  holding ← or_raise (http_exception 404 holding_not_found) row
  raise_fields holding_patch_null_not_allowed (holding_null_fields payload)
  raise_fields holding_patch_blank_not_allowed (blank_fields payload)
  patch_found_holding verdict household.id user.id payload holding

abbrev require_own : (household_id : ℕ) → Option Holding → Handler Holding
require_own household_id none = raise (http_exception 404 holding_not_found)
require_own household_id (some h) =
    if h.household_id == household_id then pure h else raise (http_exception 404 holding_not_found)

unfoldable pub delete_holding : Verdict → Household → (holding_id : ℕ) → Handler Unit
unfolding find? delete commit
delete_holding verdict household holding_id = do
  row ← query (λ db. find? (has_holding_id holding_id) db.holdings)
  holding ← require_own household.id row
  modify (λ db. record db { holdings = delete (has_holding_id holding_id) db.holdings })
  commit verdict
  emit (broadcast_deleted household.id (holding_id ∷ []))
