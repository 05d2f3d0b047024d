-- ===== src/Household/Requests.antt =====
-- The requests on members and invitations (household.py), one after the other. The database locks
-- the rows that they work on, so an interleaving of requests is a sequence of them.
pub mod Evolution
pub mod OnePending
use money_flow_service.Prelude.{◌≡◌, [], ◌∷◌, ℕ, List}
use money_flow_service.Household.Invitations.{
  has_invitation_id, revoke_invitation, accept_invitation_by_id, accept_invitation,
  InvitationSettings, Surroundings,
}
use money_flow_service.Prelude.Tables.{count}
use money_flow_service.Household.Invitations.Creation.{create_invitation}
use money_flow_service.Prelude.Text.{Text}
use money_flow_service.Models.{User, MemberRole, Database, HouseholdMember, Household}
use money_flow_service.Household.Members.{remove_member, patch_member_role}
use money_flow_service.Session.{stored_after, Verdict}

pub data Request : Type 0 where
  change_role : Household → HouseholdMember → (member_id : ℕ) → MemberRole → Request
  remove : Household → HouseholdMember → (member_id : ℕ) → Request
  invite :
      InvitationSettings
      → Verdict
      → Household
      → HouseholdMember
      → User
      → Text
      → MemberRole
      → Request
  accept : User → (token : ℕ) → Request
  accept_by_id : User → (invitation_id : ℕ) → Request
  revoke : Household → (invitation_id : ℕ) → Request

-- What a request leaves stored, whether it is granted or raises.
unfoldable pub handle : Surroundings → Verdict → Request → Database → Database
handle env verdict (change_role household actor member_id role) =
    stored_after (patch_member_role verdict household actor member_id role)
handle env verdict (remove household actor member_id) =
    stored_after (remove_member verdict household actor member_id)
handle env verdict (invite settings verdict' household actor user email role) =
    stored_after (create_invitation env settings verdict verdict' household actor user email role)
handle env verdict (accept user token) = stored_after (accept_invitation env verdict user token)
handle env verdict (accept_by_id user invitation_id) =
    stored_after (accept_invitation_by_id env verdict user invitation_id)
handle env verdict (revoke household invitation_id) =
    stored_after (revoke_invitation env verdict household invitation_id)

-- Each request comes with the surroundings and the database's verdict at its time.
unfoldable pub serve : List (Surroundings × Verdict × Request) → Database → Database
unfolding handle
serve [] db = db
serve ((env, verdict, request) ∷ rest) db = serve rest (handle env verdict request db)

-- The ids that are drawn (UUIDs) are new in the table at the time of each request.
abbrev pub IsFreshRun : List (Surroundings × Verdict × Request) → Database → Type 0
IsFreshRun [] db = Unit
IsFreshRun ((env, verdict, request) ∷ rest) db =
    (count (has_invitation_id env.fresh_id) db.invitations ≡ 0)
    × IsFreshRun rest (handle env verdict request db)
