-- ===== src/Household/Invitations/Creation.antt =====
-- household.py, `create_invitation` and what follows the mail. The lock `_invite_creation_guard`
-- around it is not modelled: requests are taken one after the other.
use money_flow_service.Errors.{
  household_invite_conflict, household_invite_rate_limited, household_member_already_exists,
  household_invite_email_delivery_failed, household_invite_role_invalid, app_error, Violation,
}
use money_flow_service.Session.{
  or_raise, raise, rollback, raise_if, invitation_mail, query, emit, ◌>>=◌, ◌>>◌, pure, Handler,
  try_commit, Verdict,
}
use money_flow_service.Prelude.{
  max, option_eq, nat_eq, leb, ◌++◌, ◌*◌, not, [], ◌+◌, ◌||◌, ◌&&◌, ltb, ◌∷◌, ◌==◌, if◌then◌else◌,
  some, Bool, none, Option, List, ℕ,
}
use money_flow_service.Models.{
  role_eq, status_eq, owner, revoked, HouseholdMember, Household, pending, User, MemberRole,
  HouseholdInvitation,
}
use money_flow_service.Household.Members.{require_manager, has_id}
use money_flow_service.OwnerLinks.{
  is_membership, ensure_unique_household_member_display_name, is_member,
}
use money_flow_service.Prelude.Text.{text_eq, strip, Text, lower}
use money_flow_service.Household.Invitations.{
  revoke_at, has_invitation_id, is_pending, modify, InvitationSettings, Surroundings,
}
use money_flow_service.Prelude.Tables.{count, find?, select, update}

-- `payload.email.lower().strip()`
unfoldable pub normalize_email : Text → Text
unfolding lower strip
normalize_email email = strip (lower email)

-- The rows that `create_invitation` revokes: pending ones for the same household and mail address.
abbrev pub is_pending_for : (household_id : ℕ) → Text → HouseholdInvitation → Bool
is_pending_for household_id email invitation =
    invitation.household_id == household_id
    && lower invitation.email == email
    && is_pending invitation

-- The rows that count against the inviter's limit: sent since the window began, and not revoked.
abbrev pub is_recent_invite :
    (household_id user_id window_seconds now : ℕ) → HouseholdInvitation → Bool
is_recent_invite household_id user_id window_seconds now invitation =
    invitation.household_id == household_id
    && invitation.inviter_user_id == some user_id
    && not (invitation.status == revoked)
    && leb now (invitation.created_at + window_seconds)

abbrev pub invite_window_seconds : InvitationSettings → ℕ
invite_window_seconds settings = max 60 settings.household_invitation_rate_limit_window_seconds

abbrev pub invite_max_attempts : InvitationSettings → ℕ
invite_max_attempts settings = max 1 settings.household_invitation_rate_limit_max_attempts

abbrev pub new_invitation :
    Surroundings
    → InvitationSettings
    → (household_id user_id : ℕ) → Text
    → MemberRole
    → HouseholdInvitation
new_invitation env settings household_id user_id email role = record {
  id = env.fresh_id;
  household_id = household_id;
  email = email;
  inviter_user_id = some user_id;
  accepted_user_id = none;
  role = role;
  status = pending;
  token_hash = env.hash_opaque_token env.raw_token;
  expires_at = env.now + 3600 * max 1 settings.household_invitation_token_hours;
  accepted_at = none;
  revoked_at = none;
  created_at = env.database_now;
}

-- The account with the invited address, if there is one, must be no member and no namesake of one.
abbrev pub check_existing_user : (household_id : ℕ) → Option User → Handler Unit
check_existing_user household_id none = pure tt
check_existing_user household_id (some existing_user) = do
  ensure_unique_household_member_display_name household_id existing_user.id
      (some existing_user.display_name)
  already ← query (λ db. is_member db household_id existing_user.id)
  raise_if already (app_error 409 household_member_already_exists)

-- `order_by(created_at.desc())`: the first of the newest rows.
abbrev pub newest : List HouseholdInvitation → Option HouseholdInvitation
newest [] = none
newest (x ∷ xs) = elim (newest xs) [
  | none ↦ some x
  | some y ↦ if ltb x.created_at y.created_at then some y else some x
]

-- `_revoke_pending_invitation_after_delivery_failure`, and the rollback if it fails.
unfoldable pub revoke_after_delivery_failure :
    Surroundings → Verdict → (invitation_id : ℕ) → Handler Unit
unfolding update try_commit
revoke_after_delivery_failure env verdict invitation_id = do
  modify (λ db. record db {
    invitations =
        update (λ inv. has_invitation_id invitation_id inv && is_pending inv) (revoke_at env.now)
          db.invitations;
  })
  violation ← try_commit verdict
  elim violation [ none ↦ pure tt | some v ↦ rollback ]

-- `_raise_if_invite_email_delivery_failed`
unfoldable pub raise_if_invite_email_delivery_failed :
    Surroundings → InvitationSettings → Verdict → (invitation_id : ℕ) → Handler Unit
unfolding revoke_after_delivery_failure
raise_if_invite_email_delivery_failed env settings verdict invitation_id =
    if env.sent || not settings.blocks_email_delivery_failures then pure tt else (do
      revoke_after_delivery_failure env verdict invitation_id
      raise (app_error 503 household_invite_email_delivery_failed))

-- What `create_invitation` does after its commit, or after the IntegrityError of it.
unfoldable pub finish_invitation :
    Surroundings
    → InvitationSettings
    → Verdict
    → (household_id : ℕ) → HouseholdInvitation
    → Option Violation
    → Handler HouseholdInvitation
unfolding raise_if_invite_email_delivery_failed select lower
finish_invitation env settings verdict household_id invitation none = do
  emit (
      invitation_mail invitation.email env.raw_token
        (max 60 (settings.household_invitation_token_hours * 60)))
  raise_if_invite_email_delivery_failed env settings verdict invitation.id
  pure invitation
finish_invitation env settings verdict household_id invitation (some violation) = do
  rollback
  existing ←
      query (λ db. newest (select (is_pending_for household_id invitation.email) db.invitations))
  or_raise (app_error 409 household_invite_conflict) existing

-- The same with the checks done: pending invitations are revoked and a new one is written. The
-- first verdict is on that, the second on the revocation after a failed delivery.
unfoldable pub replace_invitation :
    Surroundings
    → InvitationSettings
    → Verdict
    → Verdict
    → (household_id user_id : ℕ) → Text
    → MemberRole
    → Handler HouseholdInvitation
unfolding update try_commit finish_invitation
replace_invitation env settings verdict verdict' household_id user_id email role = do
  modify (λ db. record db {
    invitations = update (is_pending_for household_id email) (revoke_at env.now) db.invitations;
  })
  modify (λ db. record db {
    invitations =
        db.invitations ++ new_invitation env settings household_id user_id email role ∷ [];
  })
  violation ← try_commit verdict
  finish_invitation env settings verdict' household_id
      (new_invitation env settings household_id user_id email role) violation

-- The handler within `with _invite_creation_guard(...)`
unfoldable pub create_invitation :
    Surroundings
    → InvitationSettings
    → Verdict
    → Verdict
    → Household
    → (actor_member : HouseholdMember) → User
    → (email : Text) → MemberRole
    → Handler HouseholdInvitation
unfolding normalize_email find? count is_member ensure_unique_household_member_display_name
    replace_invitation
create_invitation env settings verdict verdict' household actor_member user email role = do
  raise_if (role == owner) (app_error 400 household_invite_role_invalid)
  found_actor ← query (λ db.
      find? (λ m. has_id actor_member.id m && is_membership household.id user.id m) db.members)
  require_manager found_actor
  existing_user ←
      query (λ db. find? (λ (u : User). lower u.email == normalize_email email) db.users)
  check_existing_user household.id existing_user
  recent_invite_count ← query (λ db.
      count (is_recent_invite household.id user.id (invite_window_seconds settings) env.now)
        db.invitations)
  raise_if (leb (invite_max_attempts settings) recent_invite_count)
      (app_error 429 household_invite_rate_limited)
  replace_invitation env settings verdict verdict' household.id user.id (normalize_email email) role
