-- ===== src/Household/Invitations.antt =====
-- household.py: invitations are created, mailed, accepted, revoked, and expire.
pub mod Creation
pub mod Acceptance
pub mod Transitions
pub mod Evolution
pub mod Membership
pub mod Limit
pub mod OnePending
pub mod Replacement
use money_flow_service.Models.{
  owner, status_eq, co_owner, pending, expired, editor, accepted, revoked, viewer, InvitationStatus,
  User, Household, HouseholdMember, MemberRole, HouseholdInvitation,
}
use money_flow_service.Prelude.Text.{text_eq, lower, text, Text}
use money_flow_service.Prelude.{
  ◌||◌, not, nat_eq, [], option_eq, none, leb, ltb, ◌∷◌, if◌then◌else◌, ◌&&◌, ◌==◌, ◌++◌, some,
  Bool, List, Option, ℕ,
}
use money_flow_service.OwnerLinks.{is_membership, ensure_unique_household_member_display_name}
use money_flow_service.Errors.{
  household_invite_email_mismatch, household_invite_already_processed, household_invite_expired,
  household_invite_invalid, household_invite_not_found, app_error, Violation, AppError,
}
use money_flow_service.Session.{
  or_raise, raise, query, modify, rollback, raise_if, ◌>>=◌, ◌>>◌, pure, try_commit, Handler,
  commit, Verdict,
}
use money_flow_service.Household.Members.{has_id}
use money_flow_service.Prelude.Tables.{count, update, find?}

-- app/core/config.py, the settings that the invitations use.
pub record InvitationSettings : Type 0 where
  pub household_invitation_token_hours : ℕ
  pub household_invitation_rate_limit_window_seconds : ℕ
  pub household_invitation_rate_limit_max_attempts : ℕ
  pub blocks_email_delivery_failures : Bool

-- What comes from outside: the clock of the process and of the database (in seconds), the ids and
-- the token that are drawn, and whether the mail server took the mail.
pub record Surroundings : Type 0 where
  pub now : ℕ
  pub database_now : ℕ
  pub fresh_id : ℕ
  pub raw_token : ℕ
  pub hash_opaque_token : ℕ → ℕ
  pub sent : Bool

-- ROLE_RANK
abbrev pub role_rank : MemberRole → ℕ
role_rank viewer = 0
role_rank editor = 1
role_rank co_owner = 2
role_rank owner = 3

abbrev pub has_invitation_id : ℕ → HouseholdInvitation → Bool
has_invitation_id i invitation = invitation.id == i

abbrev pub is_pending : HouseholdInvitation → Bool
is_pending invitation = invitation.status == pending

-- The test of `_expire_if_needed`, and of the lists of invitations.
abbrev pub is_overdue : ℕ → HouseholdInvitation → Bool
is_overdue now invitation = is_pending invitation && ltb invitation.expires_at now

-- The status that `list_invitations` and `list_received_invitations` show.
pub status_override : ℕ → HouseholdInvitation → InvitationStatus
status_override now invitation = if is_overdue now invitation then expired else invitation.status

abbrev pub set_status : InvitationStatus → HouseholdInvitation → HouseholdInvitation
set_status status invitation = record invitation { status = status }

pub record AcceptResponse : Type 0 where
  pub invitation_id : ℕ
  pub household_id : ℕ
  pub household_name : Text
  pub role : MemberRole
  pub active_household_selected : Bool

-- The member row that accepting leaves: a new one, or the old one with the higher of two roles.
abbrev pub joined_member :
    Surroundings → HouseholdInvitation → (user_id : ℕ) → Option HouseholdMember → HouseholdMember
joined_member env invitation user_id none = record {
  id = env.fresh_id;
  household_id = invitation.household_id;
  user_id = user_id;
  role = invitation.role;
  created_at = env.database_now;
}
joined_member env invitation user_id (some member) =
    if ltb (role_rank member.role) (role_rank invitation.role)
    then record member { role = invitation.role }
    else member

-- The members with that row in them.
unfoldable pub join_members :
    Surroundings
    → HouseholdInvitation
    → (user_id : ℕ) → Option HouseholdMember
    → List HouseholdMember
    → List HouseholdMember
unfolding update
join_members env invitation user_id none members =
    members ++ joined_member env invitation user_id none ∷ []
join_members env invitation user_id (some member) members =
    update (has_id member.id)
      (λ m. record m { role = (joined_member env invitation user_id (some member)).role }) members

-- `WHERE id = ... AND status = 'pending' AND expires_at >= now`
abbrev pub is_acceptable : ℕ → ℕ → HouseholdInvitation → Bool
is_acceptable i now invitation =
    has_invitation_id i invitation && is_pending invitation && leb now invitation.expires_at

abbrev pub accept_at : (now user_id : ℕ) → HouseholdInvitation → HouseholdInvitation
accept_at now user_id invitation = record invitation {
  status = accepted;
  accepted_user_id = some user_id;
  accepted_at = some now;
}

unfoldable pub mark_accepted : ℕ → ℕ → ℕ → List HouseholdInvitation → List HouseholdInvitation
unfolding update
mark_accepted i now user_id = update (is_acceptable i now) (accept_at now user_id)

unfoldable pub select_if_none : User → ℕ → List User → List User
unfolding update
select_if_none user household_id users =
    if user.active_household_id == none
    then update (λ (u : User). u.id == user.id)
        (λ u. record u { active_household_id = some household_id }) users
    else users

abbrev household_name_or_default : Option Household → Text
household_name_or_default none = text "가계"
household_name_or_default (some household) = household.name

-- `except IntegrityError: db.rollback(); raise`
abbrev raise_rolled_back : AppError → Option Violation → Handler Unit
raise_rolled_back e none = pure tt
raise_rolled_back e (some v) = rollback >> raise e

-- `_accept_invitation_record` from the test of the status on.
unfoldable pub accept_record :
    Surroundings → Verdict → User → HouseholdInvitation → Handler AcceptResponse
unfolding find? join_members count mark_accepted select_if_none try_commit lower
accept_record env verdict user invitation = do
  raise_if (invitation.status == expired) (app_error 400 household_invite_expired)
  raise_if (not (is_pending invitation)) (app_error 400 household_invite_invalid)
  raise_if (not (lower user.email == lower invitation.email))
      (app_error 403 household_invite_email_mismatch)
  ensure_unique_household_member_display_name invitation.household_id user.id
      (some user.display_name)
  household ← query (λ db. find? (λ (h : Household). h.id == invitation.household_id) db.households)
  member ← query (λ db. find? (is_membership invitation.household_id user.id) db.members)
  updated_rows ← query (λ db. count (is_acceptable invitation.id env.now) db.invitations)
  modify (λ db. record db {
    members = join_members env invitation user.id member db.members;
    invitations = mark_accepted invitation.id env.now user.id db.invitations;
  })
  raise_if (not (updated_rows == 1)) (app_error 400 household_invite_invalid)
  modify (λ db. record db { users = select_if_none user invitation.household_id db.users })
  violation ← try_commit verdict
  raise_rolled_back (app_error 400 household_invite_invalid) violation
  pure (record {
    invitation_id = invitation.id;
    household_id = invitation.household_id;
    household_name = household_name_or_default household;
    role = (joined_member env invitation user.id member).role;
    active_household_selected =
        user.active_household_id == none
        || user.active_household_id == some invitation.household_id;
  })

-- `_accept_invitation_record`: an overdue invitation is first stored as expired.
unfoldable pub accept_invitation_record :
    Surroundings → Verdict → User → HouseholdInvitation → Handler AcceptResponse
unfolding update commit accept_record
accept_invitation_record env verdict user invitation =
    if is_overdue env.now invitation
    then (do
      modify (λ db. record db {
        invitations = update (has_invitation_id invitation.id) (set_status expired) db.invitations;
      })
      commit verdict
      accept_record env verdict user (record invitation { status = expired }))
    else accept_record env verdict user invitation

unfoldable pub accept_invitation :
    Surroundings → Verdict → User → (token : ℕ) → Handler AcceptResponse
unfolding find? accept_invitation_record
accept_invitation env verdict user token = do
  found ← query (λ db.
      find? (λ (inv : HouseholdInvitation). inv.token_hash == env.hash_opaque_token token)
        db.invitations)
  invite ← or_raise (app_error 400 household_invite_invalid) found
  accept_invitation_record env verdict user invite

unfoldable pub accept_invitation_by_id :
    Surroundings → Verdict → User → (invitation_id : ℕ) → Handler AcceptResponse
unfolding find? accept_invitation_record
accept_invitation_by_id env verdict user invitation_id = do
  found ← query (λ db. find? (has_invitation_id invitation_id) db.invitations)
  invite ← or_raise (app_error 404 household_invite_not_found) found
  accept_invitation_record env verdict user invite

-- `WHERE id = ... AND household_id = ... AND status = 'pending'`
abbrev pub is_revocable : ℕ → ℕ → HouseholdInvitation → Bool
is_revocable i household_id invitation =
    has_invitation_id i invitation
    && invitation.household_id == household_id
    && is_pending invitation

abbrev pub revoke_at : ℕ → HouseholdInvitation → HouseholdInvitation
revoke_at now invitation = record invitation { status = revoked; revoked_at = some now }

unfoldable pub revoke_invitation :
    Surroundings → Verdict → Household → (invitation_id : ℕ) → Handler Unit
unfolding find? count update commit
revoke_invitation env verdict household invitation_id = do
  found ← query (λ db.
      find? (λ inv. has_invitation_id invitation_id inv && inv.household_id == household.id)
        db.invitations)
  or_raise (app_error 404 household_invite_not_found) found
  updated_rows ← query (λ db. count (is_revocable invitation_id household.id) db.invitations)
  modify (λ db. record db {
    invitations =
        update (is_revocable invitation_id household.id) (revoke_at env.now) db.invitations;
  })
  raise_if (not (updated_rows == 1)) (app_error 409 household_invite_already_processed)
  commit verdict
