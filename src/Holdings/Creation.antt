-- ===== src/Holdings/Creation.antt =====
-- holdings.py, `create_holding`.
use money_flow_service.Session.{
  broadcast_created, emit, modify, query, rollback, ◌>>=◌, ◌>>◌, raise, try_commit, Handler,
  Verdict, pure,
}
use money_flow_service.Prelude.{
  ◌++◌, ◌+◌, [], nat_eq, none, max, ◌==◌, ◌∷◌, if◌then◌else◌, some, List, ℕ, Option,
}
use money_flow_service.Errors.{
  holding_identity, holding_owner_invalid, integrity_error, holding_already_exists, app_error,
  Violation,
}
use money_flow_service.Models.{Household, Holding, AssetType}
use money_flow_service.Holdings.Identity.{
  normalize_identity_text, HoldingRead, load_holding_read, HoldingIdentity, find_duplicate_holding,
}
use money_flow_service.Prelude.Text.{or_empty, strip, upper, Text}
use money_flow_service.OwnerLinks.{resolve_owner_fields}

-- schemas.py, `HoldingCreate`, as validated.
pub record HoldingCreate : Type 0 where
  pub asset_type : AssetType
  pub type_key : Option Text
  pub symbol : Text
  pub market_symbol : Text
  pub name : Text
  pub category : Text
  pub owner_user_id : Option ℕ
  pub owner_name : Option Text
  pub account_name : Option Text
  pub quantity : ℕ
  pub average_cost : ℕ
  pub currency : Text
  pub display_order : Option ℕ

-- `func.coalesce(func.max(Holding.display_order), 0)` of a household.
unfoldable pub max_display_order : (household_id : ℕ) → List Holding → ℕ
max_display_order household_id [] = 0
max_display_order household_id (h ∷ hs) =
    let rest = max_display_order household_id hs in
    if h.household_id == household_id then max h.display_order rest else rest

-- `payload.display_order or next_display_order`
abbrev pub display_order_or : Option ℕ → ℕ → ℕ
display_order_or none next = next
display_order_or (some n) next = if n == 0 then next else n

abbrev pub identity_of_payload :
    (household_id : ℕ) → HoldingCreate → Option ℕ × Option Text → HoldingIdentity
identity_of_payload household_id payload (owner_user_id, owner_name) = record {
  household_id = household_id;
  asset_type = payload.asset_type;
  market_symbol = upper (strip payload.market_symbol);
  owner_user_id = owner_user_id;
  owner_name = owner_name;
  account_name = normalize_identity_text payload.account_name;
}

abbrev pub new_holding :
    (fresh_id household_id : ℕ)
    → HoldingCreate
    → Option ℕ × Option Text
    → (next_display_order : ℕ) → Holding
new_holding fresh_id household_id payload (owner_user_id, owner_name) next_display_order = record {
  id = fresh_id;
  household_id = household_id;
  asset_type = payload.asset_type;
  symbol = upper (strip payload.symbol);
  market_symbol = upper (strip payload.market_symbol);
  name = strip payload.name;
  type_key = payload.type_key;
  category = strip payload.category;
  owner_user_id = owner_user_id;
  owner_name = some (or_empty owner_name);
  account_name = some (normalize_identity_text payload.account_name);
  quantity = payload.quantity;
  average_cost = payload.average_cost;
  currency = upper payload.currency;
  display_order = display_order_or payload.display_order next_display_order;
  source_ref = none;
  version = 1;
}

-- `if duplicate is not None: raise`
abbrev pub refuse_duplicate : Option Holding → Handler Unit
refuse_duplicate none = pure tt
refuse_duplicate (some h) = raise (app_error 409 holding_already_exists)

-- `except IntegrityError`
abbrev pub raise_holding_violation : Option Violation → Handler Unit
raise_holding_violation none = pure tt
raise_holding_violation (some holding_identity) = do
  rollback
  raise (app_error 409 holding_already_exists)
raise_holding_violation (some v) = do rollback; raise (integrity_error v)

-- From the look for duplicates on.
abbrev pub create_owned :
    Verdict
    → (fresh_id household_id : ℕ) → HoldingCreate
    → Option ℕ × Option Text
    → Handler HoldingRead
create_owned verdict fresh_id household_id payload owner = do
  duplicate ← query (find_duplicate_holding (identity_of_payload household_id payload owner) none)
  refuse_duplicate duplicate
  next ← query (λ db. max_display_order household_id db.holdings + 1)
  modify (λ db. record db {
    holdings = db.holdings ++ new_holding fresh_id household_id payload owner next ∷ [];
  })
  violation ← try_commit verdict
  raise_holding_violation violation
  emit (broadcast_created household_id fresh_id 1)
  load_holding_read fresh_id

unfoldable pub create_holding :
    Verdict → (fresh_id : ℕ) → Household → HoldingCreate → Handler HoldingRead
unfolding resolve_owner_fields find_duplicate_holding max_display_order try_commit load_holding_read
    normalize_identity_text strip upper
create_holding verdict fresh_id household payload = do
  owner ←
      resolve_owner_fields household.id payload.owner_user_id payload.owner_name
        holding_owner_invalid
  create_owned verdict fresh_id household.id payload owner
