-- ===== src/Holdings/Examples.antt =====
-- Holdings of a household, and what its requests (holdings.py) do.
use money_flow_service.Holdings.Recording.{
  IsRecorded, create_holding-none, create_holding-IsRecorded,
}
use money_flow_service.Errors.{holding_already_exists, app_error}
use money_flow_service.Session.{raised, outcome, open_session, Verdict}
use money_flow_service.Prelude.{◌≡◌, [], ◌∷◌, some, true, none, Option, refl}
use money_flow_service.Holdings.Identity.{normalize_identity_text, trim}
use money_flow_service.OwnerLinks.{normalize_optional_text}
use money_flow_service.Holdings.Patched.{patch_holding-IsPatched, IsPatched}
use money_flow_service.Holdings.Creation.{create_holding, HoldingCreate}
use money_flow_service.Prelude.Text.{upper, text, Text, strip}
use money_flow_service.Models.{empty_database, Holding, Database, Household, User, stock}
use money_flow_service.Holdings.Patching.{patch_holding, HoldingPatch}
use money_flow_service.Prelude.Tables.{find?, exists}

abbrev bank : Holding
bank = record {
  id = 1;
  household_id = 10;
  asset_type = stock;
  symbol = text "KB";
  market_symbol = text "KB";
  name = text "Bank";
  type_key = none;
  category = text "shares";
  owner_user_id = none;
  owner_name = some [];
  account_name = some [];
  quantity = 3;
  average_cost = 5;
  currency = text "KRW";
  display_order = 1;
  source_ref = none;
  version = 1;
}

abbrev with_bank : Database
with_bank = record empty_database { holdings = bank ∷ [] }

-- The first of the two is one that Ana owns.
abbrev with_two_banks : Database
with_two_banks = record empty_database {
  holdings = record bank { id = 3; owner_name = some (text "Ana") } ∷ bank ∷ [];
}

abbrev home : Household
home = record { id = 10; name = text "Home" }

abbrev accepting : Verdict
accepting db = none

abbrev ana : User
ana = record {
  id = 1;
  email = text "ana@a.kr";
  password_hash = 0;
  display_name = text "Ana";
  email_verified = true;
  active_household_id = some 10;
}

abbrev new_payload : Option Text → HoldingCreate
new_payload owner_name = record {
  asset_type = stock;
  type_key = none;
  symbol = text "kb";
  market_symbol = text " kb";
  name = text "Bank";
  category = text "shares";
  owner_user_id = none;
  owner_name = owner_name;
  account_name = none;
  quantity = 1;
  average_cost = 1;
  currency = text "krw";
  display_order = none;
}

create_holding-IsRecorded_example :
    IsRecorded 2 10
      (new_payload (some (text "Ana")))
      with_bank
      (create_holding accepting 2 home (new_payload (some (text "Ana"))) (open_session with_bank))
unfolding exists
create_holding-IsRecorded_example =
    create_holding-IsRecorded accepting 2 home (new_payload (some (text "Ana"))) with_bank refl

create_holding-none_example :
    outcome (create_holding accepting 2 home (new_payload (some (text "None")))) with_two_banks
    ≡ raised (app_error 409 holding_already_exists)
unfolding find? strip trim upper normalize_optional_text normalize_identity_text
create_holding-none_example =
    create_holding-none accepting 2 home (new_payload (some (text "None"))) bank with_two_banks refl
      refl refl

abbrev two_more : HoldingPatch
two_more = record {
  base_version = 1;
  type_key = none;
  market_symbol = none;
  name = none;
  category = none;
  owner_user_id = none;
  owner_name = none;
  account_name = none;
  quantity = some (some 5);
  average_cost = none;
  currency = none;
  display_order = none;
}

patch_holding-IsPatched_example :
    IsPatched 10 1 two_more with_bank 1
      (patch_holding accepting home ana 1 two_more (open_session with_bank))
patch_holding-IsPatched_example = patch_holding-IsPatched accepting home ana 1 two_more with_bank
