-- ===== src/Household/Requests/OnePending.antt =====
-- household.py: pending invitations after any sequence of requests.
use money_flow_service.Household.Invitations.OnePending.{
  revoke_invitation-HasOnePending, accept_invitation_by_id-HasOnePending,
  accept_invitation-HasOnePending, create_invitation-HasOnePending, KeepsOnePending, HasOnePending,
}
use money_flow_service.Household.Requests.Evolution.{
  remove_found-invitations, change_role-invitations,
}
use money_flow_service.Household.Members.Rows.{remove_member_ind, patch_member_role_ind}
use money_flow_service.Household.Members.{lock_household_members}
use money_flow_service.Prelude.{[], ◌∷◌, List}
use money_flow_service.Session.{open_session, Verdict}
use money_flow_service.Models.{Database}
use money_flow_service.Household.Requests.{Request, handle, serve}
use money_flow_service.Household.Invitations.{Surroundings}

handle-HasOnePending :
    (env : Surroundings) (verdict : Verdict) (request : Request) (db : Database)
    → HasOnePending db.invitations
    → HasOnePending (handle env verdict request db).invitations
unfolding handle
handle-HasOnePending env verdict (Request.change_role household actor member_id role) db one =
    patch_member_role_ind verdict household actor member_id (open_session db) role KeepsOnePending
      (λ _. one)
      (λ a t u _ _ _ _ _.
        rw (change_role-invitations verdict (lock_household_members household.id db) a t u role db)
          one)
handle-HasOnePending env verdict (Request.remove household actor member_id) db one =
    remove_member_ind verdict household actor member_id (open_session db) KeepsOnePending (λ _. one)
      (λ a t _ _ _ _ _.
        rw
          (remove_found-invitations verdict household (lock_household_members household.id db) a t
            db)
          one)
handle-HasOnePending env verdict (Request.invite settings verdict' household actor user email role)
      db one =
    create_invitation-HasOnePending env verdict db one settings verdict' household actor user email
      role
handle-HasOnePending env verdict (Request.accept user token) db one =
    accept_invitation-HasOnePending env verdict db one user token
handle-HasOnePending env verdict (Request.accept_by_id user invitation_id) db one =
    accept_invitation_by_id-HasOnePending env verdict db one user invitation_id
handle-HasOnePending env verdict (Request.revoke household invitation_id) db one =
    revoke_invitation-HasOnePending env verdict db one household invitation_id

-- If at most one invitation is pending for each household and address, up to case, that is so after
-- any sequence of requests on members and invitations, granted or refused.
pub serve-HasOnePending :
    (requests : List (Surroundings × Verdict × Request)) (db : Database)
    → HasOnePending db.invitations
    → HasOnePending (serve requests db).invitations
unfolding serve
serve-HasOnePending [] db one = one
serve-HasOnePending ((env, verdict, request) ∷ rest) db one =
    serve-HasOnePending rest (handle env verdict request db)
      (handle-HasOnePending env verdict request db one)
