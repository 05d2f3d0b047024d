-- ===== src/Household/Invitations/Limit.antt =====
-- How many invitations an inviter may send (household.py, `create_invitation`).
use money_flow_service.Household.Invitations.Replacement.{
  replace_invitation-Replaced, create_invitation_ind, Replaced, replaced_database,
}
use money_flow_service.Session.{open_session, Session, Outcome, stored_after, Verdict}
use money_flow_service.Prelude.{inr, ◌&&◌, inl, [], ◌∷◌, arith, ◌<◌, ◌+◌, ◌≤◌, Bool}
use money_flow_service.Household.Invitations.{
  is_pending, has_invitation_id, revoke_at, InvitationSettings, Surroundings,
}
use money_flow_service.Prelude.Tables.{count-update_le, count-append, update, count}
use money_flow_service.Household.Invitations.Creation.{
  new_invitation, normalize_email, create_invitation, is_pending_for, invite_max_attempts,
  invite_window_seconds, is_recent_invite,
}
use money_flow_service.Models.{
  Database, MemberRole, HouseholdMember, HouseholdInvitation, User, Household,
}
use money_flow_service.Prelude.Text.{Text}

module _ (env : Surroundings) (settings : InvitationSettings) (household : Household)
    (user : User) where
  abbrev recent : HouseholdInvitation → Bool
  recent = is_recent_invite household.id user.id (invite_window_seconds settings) env.now

  replaced-recent :
      (email : Text) (role : MemberRole) (db : Database)
      → count recent (replaced_database env settings household.id user.id email role db).invitations
        ≤ count recent db.invitations + 1
  unfolding count
  replaced-recent email role db =
      let rows = update (is_pending_for household.id email) (revoke_at env.now) db.invitations in
      let new = new_invitation env settings household.id user.id email role in
      ground (
        arith,
        count-append recent rows (new ∷ []),
        count-update_le (is_pending_for household.id email) recent (revoke_at env.now)
            db.invitations (λ x h k. ground arith),
      )

  -- If the inviter's recent invitations to the household are within the limit, they are so after
  -- a request to invite, whether it is granted, refused, or its mail is not delivered.
  pub create_invitation-recent :
      (verdict verdict' : Verdict) (actor_member : HouseholdMember) (email : Text)
      (role : MemberRole) (db : Database)
      → count recent db.invitations ≤ invite_max_attempts settings
      → count recent
          (stored_after
            (create_invitation env settings verdict verdict' household actor_member user email role)
            db).invitations
        ≤ invite_max_attempts settings
  create_invitation-recent verdict verdict' actor_member email role db within =
      create_invitation_ind env settings verdict verdict' household actor_member user email role
        (open_session db)
        (λ result. count recent result.1.stored.invitations ≤ invite_max_attempts settings)
        (λ e. within)
        (λ _ actor _ _ below. stored below _ (
          replace_invitation-Replaced env settings verdict verdict' household.id user.id
            (normalize_email email) role db))
    where
      replaced : Database
      replaced = replaced_database env settings household.id user.id (normalize_email email) role db

      stored :
          count recent db.invitations < invite_max_attempts settings
          → (result : Outcome HouseholdInvitation × Session)
          → Replaced env settings household.id user.id (normalize_email email) role db result
          → count recent result.1.stored.invitations ≤ invite_max_attempts settings
      stored below result (Replaced.not_written e) = rw e within
      stored below result (Replaced.delivered e _) =
          rw e (omega (arith, replaced-recent (normalize_email email) role db))
      stored below result (Replaced.undelivered (inl e) _) = rw e (
          omega (
            arith,
            replaced-recent (normalize_email email) role db,
            count-update_le (λ inv. has_invitation_id env.fresh_id inv && is_pending inv) recent
                (revoke_at env.now) replaced.invitations (λ x h k. ground arith),
          ))
      stored below result (Replaced.undelivered (inr e) _) =
          rw e (omega (arith, replaced-recent (normalize_email email) role db))
