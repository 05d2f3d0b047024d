-- ===== src/Holdings/Identity.antt =====
-- holdings.py: which holdings are the same asset, and a holding as a response shows it. The column
-- `updated_at`, which only the database writes, is not modelled.
use money_flow_service.Models.{asset_eq, Database, AssetType, Holding}
use money_flow_service.Ledger.Reads.{linked_owner_name, shown_owner_name}
use money_flow_service.Errors.{holding_not_found, http_exception}
use money_flow_service.Session.{or_raise, query, ◌>>=◌, Handler, pure}
use money_flow_service.Prelude.{
  [], none, not, nat_eq, if◌then◌else◌, false, ◌==◌, ◌∷◌, some, ◌&&◌, Option, Bool, ℕ,
}
use money_flow_service.Prelude.Text.{text_eq, is_empty, or_none, or_empty, upper, text, strip, Text}
use money_flow_service.OwnerLinks.{normalize_optional_text}
use money_flow_service.Prelude.Tables.{find?}

-- SQL's `trim`, which drops spaces and nothing else.
unfoldable pub ltrim : Text → Text
ltrim [] = []
ltrim (c ∷ cs) = if c == 32 then ltrim cs else c ∷ cs

unfoldable pub rtrim : Text → Text
rtrim [] = []
rtrim (c ∷ cs) = let rest = rtrim cs in if is_empty rest && c == 32 then [] else c ∷ rest

unfoldable pub trim : Text → Text
unfolding ltrim rtrim
trim s = rtrim (ltrim s)

-- `_normalize_identity_text`
unfoldable pub normalize_identity_text : Option Text → Text
unfolding strip
normalize_identity_text value = strip (or_empty value)

-- The key is the id of the owner, or a text that starts with `__legacy_null_owner__:`, so no id.
pub data OwnerIdentity : Type 0 where
  linked : (user_id : ℕ) → OwnerIdentity
  legacy : Text → OwnerIdentity

-- A value in an f-string; `None` has a text as well.
abbrev pub formatted : Option Text → Text
formatted none = text "None"
formatted (some s) = s

-- `_holding_owner_identity_key`
unfoldable pub holding_owner_identity_key :
    (owner_user_id : Option ℕ) → (owner_name : Option Text) → OwnerIdentity
unfolding normalize_optional_text
holding_owner_identity_key none owner_name = legacy (formatted (normalize_optional_text owner_name))
holding_owner_identity_key (some user_id) owner_name = linked user_id

abbrev pub same_identity : OwnerIdentity → OwnerIdentity → Bool
same_identity (linked i) (linked j) = i == j
same_identity (legacy s) (legacy t) = s == t
same_identity _ _ = false

-- `_same_owner_identity`
abbrev pub same_owner_identity :
    Holding → (owner_user_id : Option ℕ) → (owner_name : Option Text) → Bool
same_owner_identity holding owner_user_id owner_name =
    same_identity (holding_owner_identity_key holding.owner_user_id holding.owner_name)
      (holding_owner_identity_key owner_user_id owner_name)

-- The identity of an asset in a household.
pub record HoldingIdentity : Type 0 where
  pub household_id : ℕ
  pub asset_type : AssetType
  pub market_symbol : Text
  pub owner_user_id : Option ℕ
  pub owner_name : Option Text
  pub account_name : Text

-- The WHERE clause of the query, with the texts that are compared.
abbrev pub is_candidate : HoldingIdentity → Holding → Bool
is_candidate identity h =
    h.household_id == identity.household_id
    && h.asset_type == identity.asset_type
    && upper (trim h.market_symbol) == upper (strip identity.market_symbol)
    && trim (or_empty h.account_name) == strip identity.account_name

-- `exclude_holding_id and str(candidate.id) == exclude_holding_id`
abbrev pub is_excluded : Option ℕ → Holding → Bool
is_excluded none h = false
is_excluded (some i) h = h.id == i

abbrev pub is_duplicate : HoldingIdentity → (exclude_holding_id : Option ℕ) → Holding → Bool
is_duplicate identity exclude_holding_id h =
    is_candidate identity h
    && not (is_excluded exclude_holding_id h)
    && same_owner_identity h identity.owner_user_id identity.owner_name

-- `_find_duplicate_holding`
unfoldable pub find_duplicate_holding :
    HoldingIdentity → (exclude_holding_id : Option ℕ) → Database → Option Holding
unfolding find? trim strip upper holding_owner_identity_key
find_duplicate_holding identity exclude_holding_id db =
    find? (is_duplicate identity exclude_holding_id) db.holdings

pub record HoldingRead : Type 0 where
  pub id : ℕ
  pub household_id : ℕ
  pub asset_type : AssetType
  pub type_key : Option Text
  pub symbol : Text
  pub market_symbol : Text
  pub name : Text
  pub category : Text
  pub owner_user_id : Option ℕ
  pub owner_name : Option Text
  pub account_name : Option Text
  pub quantity : ℕ
  pub average_cost : ℕ
  pub currency : Text
  pub display_order : ℕ
  pub source_ref : Option Text
  pub version : ℕ

-- `_to_holding_read`
unfoldable pub to_holding_read : Holding → (linked_owner_name : Option Text) → HoldingRead
unfolding strip
to_holding_read h linked_name = record {
  id = h.id;
  household_id = h.household_id;
  asset_type = h.asset_type;
  type_key = or_none (strip (or_empty h.type_key));
  symbol = h.symbol;
  market_symbol = h.market_symbol;
  name = h.name;
  category = h.category;
  owner_user_id = h.owner_user_id;
  owner_name = or_none (strip (shown_owner_name linked_name h.owner_name));
  account_name = or_none (strip (or_empty h.account_name));
  quantity = h.quantity;
  average_cost = h.average_cost;
  currency = h.currency;
  display_order = h.display_order;
  source_ref = or_none (strip (or_empty h.source_ref));
  version = h.version;
}

abbrev pub has_holding_id : ℕ → Holding → Bool
has_holding_id i h = h.id == i

-- `_load_holding_read`
unfoldable pub load_holding_read : (holding_id : ℕ) → Handler HoldingRead
unfolding find? to_holding_read
load_holding_read holding_id = do
  row ← query (λ db. find? (has_holding_id holding_id) db.holdings)
  holding ← or_raise (http_exception 404 holding_not_found) row
  linked_name ← query (λ db. linked_owner_name db holding.owner_user_id)
  pure (to_holding_read holding linked_name)
