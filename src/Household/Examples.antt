-- ===== src/Household/Examples.antt =====
-- A household with an owner, a co-owner and an editor, and what its requests (household.py) do.
use money_flow_service.Models.{
  status_eq, expired, accepted, revoked, pending, co_owner, HouseholdMember, viewer, MemberRole,
  owner, HouseholdInvitation, editor, empty_database, User, Household, Database,
}
use money_flow_service.Household.Invitations.Membership.{
  accept_invitation_by_id-expired, accept_invitation_by_id-Grants, accept_invitation-Grants, Grants,
}
use money_flow_service.Errors.{household_invite_expired, household_owner_required, app_error}
use money_flow_service.Household.Members.CoOwners.{
  remove_member-owners, patch_member_role-owners, owners,
}
use money_flow_service.Prelude.{
  refl, nat_eq, [], ◌≤◌, ◌+◌, map, some, ◌∷◌, ◌&&◌, none, arith, ◌==◌, true, ◌≡◌, ℕ, List,
}
use money_flow_service.Household.Invitations.Limit.{create_invitation-recent}
use money_flow_service.Household.Members.{is_owner, has_id, patch_member_role, remove_member}
use money_flow_service.Household.Members.Authority.{patch_member_role-RoleGranted, RoleGranted}
use money_flow_service.Household.Members.Owners.{
  patch_member_role-HasOwner, remove_member-HasOwner, HasIds, HasOwner,
}
use money_flow_service.Session.{raised, stored_after, open_session, outcome, Verdict}
use money_flow_service.Household.Requests.{Request, IsFreshRun, handle, serve}
use money_flow_service.Household.Invitations.Creation.{is_recent_invite, create_invitation}
use money_flow_service.Household.Requests.OnePending.{serve-HasOnePending}
use money_flow_service.OwnerLinks.{ensure_unique_household_member_display_name}
use money_flow_service.Household.Invitations.{
  accept_invitation, Surroundings, has_invitation_id, accept_invitation_by_id, InvitationSettings,
}
use money_flow_service.Prelude.Text.{text}
use money_flow_service.Household.Invitations.Evolution.{HasInvitationIds}
use money_flow_service.Household.Requests.Evolution.{serve-Evolves}
use money_flow_service.Prelude.Tables.{count, find?}
use money_flow_service.Household.Invitations.OnePending.{HasOnePending}
use money_flow_service.Household.Invitations.Transitions.{Evolves}

abbrev ana : User
ana = record {
  id = 1;
  email = text "ana@flow.kr";
  password_hash = 0;
  display_name = text "Ana";
  email_verified = true;
  active_household_id = some 10;
}

abbrev bo : User
bo = record {
  id = 2;
  email = text "bo@flow.kr";
  password_hash = 0;
  display_name = text "Bo";
  email_verified = true;
  active_household_id = some 10;
}

abbrev cho : User
cho = record {
  id = 3;
  email = text "Cho@flow.kr";
  password_hash = 0;
  display_name = text "Cho";
  email_verified = true;
  active_household_id = none;
}

abbrev home : Household
home = record { id = 10; name = text "Home" }

abbrev member : ℕ → ℕ → MemberRole → HouseholdMember
member id user_id role = record {
  id = id;
  household_id = 10;
  user_id = user_id;
  role = role;
  created_at = 5;
}

abbrev invitation : ℕ → ℕ → HouseholdInvitation
invitation id expires_at = record {
  id = id;
  household_id = 10;
  email = text "cho@flow.kr";
  inviter_user_id = some 1;
  accepted_user_id = none;
  role = editor;
  status = pending;
  token_hash = 77;
  expires_at = expires_at;
  accepted_at = none;
  revoked_at = none;
  created_at = 100;
}

abbrev database : Database
database = record empty_database {
  users = ana ∷ bo ∷ cho ∷ [];
  households = home ∷ [];
  members = member 100 1 owner ∷ member 101 2 co_owner ∷ [];
  invitations = invitation 500 9000 ∷ [];
}

abbrev settings : InvitationSettings
settings = record {
  household_invitation_token_hours = 72;
  household_invitation_rate_limit_window_seconds = 600;
  household_invitation_rate_limit_max_attempts = 20;
  blocks_email_delivery_failures = true;
}

abbrev at_time : ℕ → Surroundings
at_time now = record {
  now = now;
  database_now = now;
  fresh_id = 1000 + now;
  raw_token = now;
  hash_opaque_token = λ token. token;
  sent = true;
}

abbrev granted : Verdict
granted db = none

members_unique : HasIds database
unfolding count
members_unique i = ground arith

invitations_unique : HasInvitationIds database
unfolding count
invitations_unique i = ground arith

one_pending : HasOnePending database.invitations
unfolding count
one_pending h e = ground arith

has_owner : HasOwner 10 database
unfolding count
has_owner = omega arith

-- The owner hands the household over to the co-owner, and becomes a co-owner.
promotion_test :
    (stored_after (patch_member_role granted home (member 100 1 owner) 101 owner) database).members
    ≡ member 100 1 co_owner ∷ member 101 2 owner ∷ []
unfolding patch_member_role
promotion_test = refl

last_owner_test :
    outcome (remove_member granted home (member 100 1 owner) 100) database
    ≡ raised (app_error 409 household_owner_required)
unfolding remove_member
last_owner_test = refl

accept_test :
    (stored_after (accept_invitation_by_id (at_time 200) granted cho 500) database).members
    ≡ member 100 1 owner
      ∷ member 101 2 co_owner
      ∷ record (member 1200 3 editor) { created_at = 200 }
      ∷ []
unfolding accept_invitation_by_id ensure_unique_household_member_display_name
accept_test = refl

patch_member_role-HasOwner_example :
    HasOwner 10
      (stored_after (patch_member_role granted home (member 100 1 owner) 101 owner) database)
patch_member_role-HasOwner_example =
    patch_member_role-HasOwner 10 granted database members_unique has_owner home
      (member 100 1 owner) 101 owner

remove_member-HasOwner_example :
    HasOwner 10 (stored_after (remove_member granted home (member 100 1 owner) 101) database)
remove_member-HasOwner_example =
    remove_member-HasOwner 10 granted database members_unique has_owner home (member 100 1 owner)
      101

patch_member_role-RoleGranted_example :
    RoleGranted database 100 101 editor
      (patch_member_role granted home (member 100 1 owner) 101 editor (open_session database))
patch_member_role-RoleGranted_example =
    patch_member_role-RoleGranted granted database home (member 100 1 owner) 101 editor

co_owner_is_no_owner : count (λ m. has_id 101 m && is_owner m) database.members ≡ 0
unfolding count
co_owner_is_no_owner = refl

patch_member_role-owners_example :
    owners
      (stored_after (patch_member_role granted home (member 101 2 co_owner) 100 viewer) database)
    ≡ owners database
patch_member_role-owners_example =
    patch_member_role-owners granted database members_unique home (member 101 2 co_owner)
      co_owner_is_no_owner 100 viewer

remove_member-owners_example :
    owners (stored_after (remove_member granted home (member 101 2 co_owner) 101) database)
    ≡ owners database
remove_member-owners_example =
    remove_member-owners granted database members_unique home (member 101 2 co_owner)
      co_owner_is_no_owner 101

stored_invitation : find? (has_invitation_id 500) database.invitations ≡ some (invitation 500 9000)
unfolding find?
stored_invitation = refl

mailed_invitation :
    find? (λ inv. inv.token_hash == (at_time 200).hash_opaque_token 77) database.invitations
    ≡ some (invitation 500 9000)
unfolding find?
mailed_invitation = refl

accept_invitation_by_id-Grants_example :
    Grants
      (at_time 200)
      cho
      (invitation 500 9000)
      database
      (accept_invitation_by_id (at_time 200) granted cho 500 (open_session database))
accept_invitation_by_id-Grants_example =
    accept_invitation_by_id-Grants (at_time 200) granted cho database (invitation 500 9000) 500
      stored_invitation

accept_invitation-Grants_example :
    Grants
      (at_time 200)
      cho
      (invitation 500 9000)
      database
      (accept_invitation (at_time 200) granted cho 77 (open_session database))
accept_invitation-Grants_example =
    accept_invitation-Grants (at_time 200) granted cho database (invitation 500 9000) 77
      mailed_invitation

accept_invitation_by_id-expired_example :
    (outcome (accept_invitation_by_id (at_time 9001) granted cho 500) database
      ≡ raised (app_error 400 household_invite_expired))
    × (1
        ≤ count
            (λ inv. has_invitation_id 500 inv && inv.status == expired)
            (stored_after
              (accept_invitation_by_id (at_time 9001) granted cho 500)
              database).invitations)
accept_invitation_by_id-expired_example =
    accept_invitation_by_id-expired (at_time 9001) granted cho database (invitation 500 9000) 500
      stored_invitation refl refl

-- Another invitation for the same address revokes the first, which then cannot be accepted.
abbrev requests : List (Surroundings × Verdict × Request)
requests =
    (
      at_time 150,
      granted,
      Request.invite settings granted home (member 100 1 owner) ana (text " CHO@flow.kr") viewer,
    )
    ∷ (at_time 200, granted, Request.accept_by_id cho 500)
    ∷ (at_time 300, granted, Request.accept cho 150)
    ∷ []

serve_test : map (λ inv. inv.status) (serve requests database).invitations ≡ revoked ∷ accepted ∷ []
unfolding serve create_invitation accept_invitation_by_id accept_invitation
    ensure_unique_household_member_display_name
serve_test = refl

requests_fresh : IsFreshRun requests database
unfolding count handle create_invitation accept_invitation_by_id accept_invitation
    ensure_unique_household_member_display_name
requests_fresh = (refl, (refl, (refl, tt)))

serve-Evolves_example : Evolves database.invitations (serve requests database).invitations
serve-Evolves_example = serve-Evolves requests database invitations_unique requests_fresh

serve-HasOnePending_example : HasOnePending (serve requests database).invitations
serve-HasOnePending_example = serve-HasOnePending requests database one_pending

within_limit : count (is_recent_invite 10 1 600 200) database.invitations ≤ 20
unfolding count
within_limit = omega arith

create_invitation-recent_example :
    count
      (is_recent_invite 10 1 600 200)
      (stored_after
        (create_invitation
          (at_time 200)
          settings
          granted
          granted
          home
          (member 100 1 owner)
          ana
          (text "dia@flow.kr")
          viewer)
        database).invitations
    ≤ 20
create_invitation-recent_example =
    create_invitation-recent (at_time 200) settings home ana granted granted (member 100 1 owner)
      (text "dia@flow.kr") viewer database within_limit
