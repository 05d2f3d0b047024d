-- ===== src/Models.antt =====
-- backend/app/db/models.py: the enumerations, the rows and the database. Identifiers are opaque
-- (UUID texts, only compared), so they are numbers; so are instants (in UTC, which makes `_as_utc`
-- the identity), days, and amounts in hundredths. A column that is not null but holds None between
-- the steps of a handler (`Holding.owner_name`, `Holding.account_name`) is optional.
use money_flow_service.Prelude.{ℕ, ◌≡◌, ◌↔◌, Bool, true, false, Option, List, [], PythonEq, arith}
use money_flow_service.Prelude.Text.{Text}

pub data MemberRole : Type 0 where
  owner co_owner editor viewer : MemberRole

pub data InvitationStatus : Type 0 where
  pending accepted revoked expired : InvitationStatus

pub data FlowType : Type 0 where
  income expense investment transfer : FlowType

abbrev pub role_beq : MemberRole → MemberRole → Bool
role_beq owner owner = true
role_beq co_owner co_owner = true
role_beq editor editor = true
role_beq viewer viewer = true
role_beq _ _ = false

pub role_beq_iff : (a b : MemberRole) → (role_beq a b ≡ true) ↔ (a ≡ b)
role_beq_iff a b = (λ h. ground arith, λ h. ground arith)

instance abbrev pub role_eq : PythonEq MemberRole
role_eq = record { equals = role_beq; equals_iff = role_beq_iff }

abbrev pub status_beq : InvitationStatus → InvitationStatus → Bool
status_beq pending pending = true
status_beq accepted accepted = true
status_beq revoked revoked = true
status_beq expired expired = true
status_beq _ _ = false

pub status_beq_iff : (a b : InvitationStatus) → (status_beq a b ≡ true) ↔ (a ≡ b)
status_beq_iff a b = (λ h. ground arith, λ h. ground arith)

instance abbrev pub status_eq : PythonEq InvitationStatus
status_eq = record { equals = status_beq; equals_iff = status_beq_iff }

abbrev pub flow_beq : FlowType → FlowType → Bool
flow_beq income income = true
flow_beq expense expense = true
flow_beq investment investment = true
flow_beq transfer transfer = true
flow_beq _ _ = false

pub flow_beq_iff : (a b : FlowType) → (flow_beq a b ≡ true) ↔ (a ≡ b)
flow_beq_iff a b = (λ h. ground arith, λ h. ground arith)

instance abbrev pub flow_eq : PythonEq FlowType
flow_eq = record { equals = flow_beq; equals_iff = flow_beq_iff }

pub data AssetType : Type 0 where
  stock crypto cash real_estate pension other : AssetType

abbrev pub asset_beq : AssetType → AssetType → Bool
asset_beq stock stock = true
asset_beq crypto crypto = true
asset_beq cash cash = true
asset_beq real_estate real_estate = true
asset_beq pension pension = true
asset_beq other other = true
asset_beq _ _ = false

pub asset_beq_iff : (a b : AssetType) → (asset_beq a b ≡ true) ↔ (a ≡ b)
asset_beq_iff a b = (λ h. ground arith, λ h. ground arith)

instance abbrev pub asset_eq : PythonEq AssetType
asset_eq = record { equals = asset_beq; equals_iff = asset_beq_iff }

pub record User : Type 0 where
  pub id : ℕ
  pub email : Text
  pub password_hash : ℕ
  pub display_name : Text
  pub email_verified : Bool
  pub active_household_id : Option ℕ

pub record Household : Type 0 where
  pub id : ℕ
  pub name : Text

pub record HouseholdMember : Type 0 where
  pub id : ℕ
  pub household_id : ℕ
  pub user_id : ℕ
  pub role : MemberRole
  pub created_at : ℕ

pub record HouseholdInvitation : Type 0 where
  pub id : ℕ
  pub household_id : ℕ
  pub email : Text
  pub inviter_user_id : Option ℕ
  pub accepted_user_id : Option ℕ
  pub role : MemberRole
  pub status : InvitationStatus
  pub token_hash : ℕ
  pub expires_at : ℕ
  pub accepted_at : Option ℕ
  pub revoked_at : Option ℕ
  pub created_at : ℕ

pub record Category : Type 0 where
  pub id : ℕ
  pub household_id : ℕ
  pub flow_type : FlowType
  pub major : Text
  pub minor : Text
  pub sort_order : ℕ

pub record Transaction : Type 0 where
  pub id : ℕ
  pub household_id : ℕ
  pub category_id : Option ℕ
  pub flow_type : FlowType
  pub occurred_on : ℕ
  pub amount : ℕ
  pub installment_months : Option ℕ
  pub currency : Text
  pub memo : Text
  pub order_key : ℕ
  pub owner_user_id : Option ℕ
  pub owner_name : Option Text
  pub source_ref : Option Text
  pub version : ℕ
  pub created_by_user_id : Option ℕ
  pub created_at : ℕ

pub record Holding : Type 0 where
  pub id : ℕ
  pub household_id : ℕ
  pub asset_type : AssetType
  pub symbol : Text
  pub market_symbol : Text
  pub name : Text
  pub type_key : Option Text
  pub category : Text
  pub owner_user_id : Option ℕ
  pub owner_name : Option Text
  pub account_name : Option Text
  pub quantity : ℕ
  pub average_cost : ℕ
  pub currency : Text
  pub display_order : ℕ
  pub source_ref : Option Text
  pub version : ℕ

pub record RevokedToken : Type 0 where
  pub jti : ℕ
  pub expires_at : ℕ

pub record LoginThrottle : Type 0 where
  pub key : Text
  pub failed_count : ℕ
  pub window_started_at : ℕ

pub record RegisterThrottle : Type 0 where
  pub key : Text
  pub attempt_count : ℕ
  pub window_started_at : ℕ

pub record EntityPatchLog : Type 0 where
  pub household_id : ℕ
  pub entity_type : Text
  pub entity_id : ℕ
  pub base_version : ℕ
  pub resulting_version : ℕ
  pub changed_fields : List Text
  pub merged : Bool
  pub actor_user_id : Option ℕ

pub record Database : Type 0 where
  pub users : List User
  pub households : List Household
  pub members : List HouseholdMember
  pub invitations : List HouseholdInvitation
  pub categories : List Category
  pub transactions : List Transaction
  pub patch_logs : List EntityPatchLog
  pub holdings : List Holding
  pub revoked_tokens : List RevokedToken
  pub login_throttles : List LoginThrottle
  pub register_throttles : List RegisterThrottle

abbrev pub empty_database : Database
empty_database = record {
  users = [];
  households = [];
  members = [];
  invitations = [];
  categories = [];
  transactions = [];
  patch_logs = [];
  holdings = [];
  revoked_tokens = [];
  login_throttles = [];
  register_throttles = [];
}
