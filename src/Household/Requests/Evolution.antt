-- ===== src/Household/Requests/Evolution.antt =====
-- household.py: what any sequence of requests may do to the stored invitations.
use money_flow_service.Household.Invitations.Evolution.{
  revoke_invitation-Moves, accept_invitation_by_id-Moves, accept_invitation-Moves,
  create_invitation-Moves, MovesStored, Moves, HasInvitationIds,
}
use money_flow_service.Household.Members.Rows.{remove_member_ind, patch_member_role_ind}
use money_flow_service.Models.{MemberRole, User, HouseholdMember, Database, Household}
use money_flow_service.Prelude.{[], ◌∷◌, arith, ◌≡◌, List}
use money_flow_service.Household.Members.{lock_household_members, remove_found}
use money_flow_service.Household.Invitations.Transitions.{Evolves-trans, Evolves-refl, Evolves}
use money_flow_service.Household.Members
use money_flow_service.Household.Invitations.{has_invitation_id, Surroundings}
use money_flow_service.Prelude.Tables.{count}
use money_flow_service.Household.Requests.{IsFreshRun, Request, handle, serve}
use money_flow_service.Session.{open_session, Verdict}

pub change_role-invitations :
    (verdict : Verdict) (locked : List HouseholdMember) (actor target : HouseholdMember)
    (target_user : User) (role : MemberRole) (db : Database)
    → (Members.change_role verdict locked actor target target_user role
        (open_session db)).1.stored.invitations
      ≡ db.invitations
unfolding Members.change_role
change_role-invitations verdict locked actor target target_user role db = ground arith

pub remove_found-invitations :
    (verdict : Verdict) (household : Household) (locked : List HouseholdMember)
    (actor target : HouseholdMember) (db : Database)
    → (remove_found verdict household locked actor target (open_session db)).1.stored.invitations
      ≡ db.invitations
unfolding remove_found
remove_found-invitations verdict household locked actor target db = ground arith

handle-Moves :
    (env : Surroundings) (verdict : Verdict) (request : Request) (db : Database)
    → HasInvitationIds db
    → count (has_invitation_id env.fresh_id) db.invitations ≡ 0
    → Moves db.invitations (handle env verdict request db).invitations
unfolding handle
handle-Moves env verdict (Request.change_role household actor member_id role) db unique fresh =
    patch_member_role_ind verdict household actor member_id (open_session db) role (MovesStored db)
      (λ _. (Evolves-refl db.invitations, unique))
      (λ a t u _ _ _ _ _.
        rw (change_role-invitations verdict (lock_household_members household.id db) a t u role db)
          (Evolves-refl db.invitations, unique))
handle-Moves env verdict (Request.remove household actor member_id) db unique fresh =
    remove_member_ind verdict household actor member_id (open_session db) (MovesStored db)
      (λ _. (Evolves-refl db.invitations, unique))
      (λ a t _ _ _ _ _.
        rw
          (remove_found-invitations verdict household (lock_household_members household.id db) a t
            db)
          (Evolves-refl db.invitations, unique))
handle-Moves env verdict (Request.invite settings verdict' household actor user email role) db
      unique fresh =
    create_invitation-Moves env db unique fresh settings verdict verdict' household actor user email
      role
handle-Moves env verdict (Request.accept user token) db unique fresh =
    accept_invitation-Moves env verdict user db unique token
handle-Moves env verdict (Request.accept_by_id user invitation_id) db unique fresh =
    accept_invitation_by_id-Moves env verdict user db unique invitation_id
handle-Moves env verdict (Request.revoke household invitation_id) db unique fresh =
    revoke_invitation-Moves env verdict db unique household invitation_id

-- If the ids of the stored invitations are unique and every id that a request draws is fresh, then
-- after any sequence of requests every invitation is still in its place with its household, address,
-- role, token and expiry; a pending one may have been accepted, revoked or expired, and one that was
-- processed has the status it had.
pub serve-Evolves :
    (requests : List (Surroundings × Verdict × Request)) (db : Database)
    → HasInvitationIds db
    → IsFreshRun requests db
    → Evolves db.invitations (serve requests db).invitations
unfolding serve
serve-Evolves [] db unique fresh = Evolves-refl db.invitations
serve-Evolves ((env, verdict, request) ∷ rest) db unique fresh =
    let moved = handle-Moves env verdict request db unique fresh.0 in
    Evolves-trans db.invitations (handle env verdict request db).invitations _ moved.0
      (serve-Evolves rest (handle env verdict request db) moved.1 fresh.1)
