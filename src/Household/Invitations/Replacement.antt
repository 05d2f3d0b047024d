-- ===== src/Household/Invitations/Replacement.antt =====
-- What `create_invitation` amounts to (household.py): refused by a check, or the pending
-- invitations for the address are replaced by a new one.
use money_flow_service.Prelude.{
  [], not, ◌∷◌, ◌++◌, ◌||◌, arith, leb, Option-cases, refl, ◌<◌, none, true, ◌&&◌, Bool-cases, inr,
  false, some, inl, ◌==◌, ◌⊎◌, ◌≡◌, Option, ℕ,
}
use money_flow_service.Prelude.Tables.{select, update, count, find?}
use money_flow_service.Household.Invitations.{
  is_pending, revoke_at, has_invitation_id, InvitationSettings, Surroundings,
}
use money_flow_service.Household.Invitations.Creation.{
  newest, is_pending_for, new_invitation, normalize_email, replace_invitation, invite_max_attempts,
  invite_window_seconds, is_recent_invite, check_existing_user, create_invitation,
}
use money_flow_service.Errors.{
  household_invite_email_delivery_failed, household_member_already_exists, app_error, AppError,
}
use money_flow_service.Session.{open_session, raised, Outcome, ok, Session, Verdict}
use money_flow_service.Models.{
  Database, role_eq, owner, HouseholdInvitation, MemberRole, HouseholdMember, Household, User,
}
use money_flow_service.Prelude.Text.{text_eq, lower, Text}
use money_flow_service.Household.Members.{is_manager, has_id}
use money_flow_service.OwnerLinks.{is_membership, is_member, ensure_unique_cases}

check_existing_cases :
    (household_id : ℕ) (existing : Option User) (s : Session)
    → (check_existing_user household_id existing s ≡ (ok tt, s))
      ⊎ ((e : AppError) × (check_existing_user household_id existing s ≡ (raised e, s)))
check_existing_cases household_id none s = inl refl
check_existing_cases household_id (some user) s =
    elim (ensure_unique_cases household_id user.id (some user.display_name) s) [
      | inr (e, u) ↦ inr (e, rw u refl)
      | inl u ↦ elim (Bool-cases (is_member s.working household_id user.id)) [
        | inl m ↦ inr (app_error 409 household_member_already_exists, rw (u, m) refl)
        | inr m ↦ inl (rw (u, m) refl)
      ]
    ]

module _ (env : Surroundings) (settings : InvitationSettings) (verdict verdict' : Verdict) where
  -- Every refusal leaves the session; granted, the actor is an owner or co-owner of the household,
  -- the role is not the owner's, and the limit is not reached.
  pub create_invitation_ind :
      (household : Household) (actor_member : HouseholdMember) (user : User) (email : Text)
      (role : MemberRole) (s : Session) (P : Outcome HouseholdInvitation × Session → Type 0)
      → ((e : AppError) → P (raised e, s))
      → ((role == owner) ≡ false
          → (actor : HouseholdMember)
          → find?
              (λ m. has_id actor_member.id m && is_membership household.id user.id m)
              s.working.members
            ≡ some actor
          → is_manager actor ≡ true
          → count
              (is_recent_invite household.id user.id (invite_window_seconds settings) env.now)
              s.working.invitations
            < invite_max_attempts settings
          → P (
              replace_invitation env settings verdict verdict' household.id user.id
                (normalize_email email)
                role
                s))
      → P (create_invitation env settings verdict verdict' household actor_member user email role s)
  unfolding create_invitation
  create_invitation_ind household actor_member user email role s P refused granted =
      elim (Bool-cases (role == owner)) [
        | inl r ↦ rw r (refused _)
        | inr r ↦
            rw r
              (elim (Option-cases (
                find? (λ m. has_id actor_member.id m && is_membership household.id user.id m)
                  s.working.members)) [
                    | inl a ↦ rw a (refused _)
                    | inr (actor, a) ↦ rw a (elim (Bool-cases (is_manager actor)) [
                      | inr m ↦ rw m (refused _)
                      | inl m ↦
                          rw m
                            (elim (check_existing_cases household.id
                              (find? (λ (u : User). lower u.email == normalize_email email)
                                s.working.users)
                              s) [
                                | inr (e, x) ↦ rw x (refused _)
                                | inl x ↦
                                    rw x
                                      (elim (Bool-cases (
                                        leb (invite_max_attempts settings) (
                                          count
                                            (is_recent_invite household.id user.id
                                              (invite_window_seconds settings) env.now)
                                            s.working.invitations))) [
                                              | inl l ↦ rw l (refused _)
                                              | inr l ↦ rw l (granted r actor a m (ground arith))
                                            ])
                              ])
                    ])
                  ])
      ]

abbrev pub replaced_database :
    Surroundings
    → InvitationSettings
    → (household_id user_id : ℕ) → Text
    → MemberRole
    → Database
    → Database
replaced_database env settings household_id user_id email role db = record db {
  invitations =
      update (is_pending_for household_id email) (revoke_at env.now) db.invitations
      ++ new_invitation env settings household_id user_id email role ∷ [];
}

-- The new invitation is revoked again.
abbrev pub undelivered_database : Surroundings → Database → Database
undelivered_database env db = record db {
  invitations =
      update (λ inv. has_invitation_id env.fresh_id inv && is_pending inv) (revoke_at env.now)
        db.invitations;
}

-- The three ends of a replacement: the database was not written, the mail went out, or it did not
-- and the new invitation was revoked, unless the database refused that as well.
pub data Replaced (env : Surroundings) (settings : InvitationSettings) (household_id user_id : ℕ)
    (email : Text) (role : MemberRole) (db : Database)
    (result : Outcome HouseholdInvitation × Session) : Type 0 where
  not_written :
      result.1.stored ≡ db → Replaced env settings household_id user_id email role db result
  delivered :
      result.1.stored ≡ replaced_database env settings household_id user_id email role db
      → result.0 ≡ ok (new_invitation env settings household_id user_id email role)
      → Replaced env settings household_id user_id email role db result
  undelivered :
      (result.1.stored
          ≡ undelivered_database env
              (replaced_database env settings household_id user_id email role db))
        ⊎ (result.1.stored ≡ replaced_database env settings household_id user_id email role db)
      → result.0 ≡ raised (app_error 503 household_invite_email_delivery_failed)
      → Replaced env settings household_id user_id email role db result

pub replace_invitation-Replaced :
    (env : Surroundings) (settings : InvitationSettings) (verdict verdict' : Verdict)
    (household_id user_id : ℕ) (email : Text) (role : MemberRole) (db : Database)
    → Replaced env settings household_id user_id email role db (
        replace_invitation env settings verdict verdict' household_id user_id email role
          (open_session db))
unfolding replace_invitation
replace_invitation-Replaced env settings verdict verdict' household_id user_id email role db =
    let w = replaced_database env settings household_id user_id email role db in
    elim (Option-cases (verdict w)) [
      | inr (v, b) ↦
          rw b
            (elim (Option-cases
              (newest (select (is_pending_for household_id email) db.invitations))) [
                | inl n ↦ rw n (not_written refl)
                | inr (x, n) ↦ rw n (not_written refl)
              ])
      | inl b ↦ rw b (elim (Bool-cases (env.sent || not settings.blocks_email_delivery_failures)) [
        | inl d ↦ rw d (delivered refl refl)
        | inr d ↦ rw d (elim (Option-cases (verdict' (undelivered_database env w))) [
          | inl c ↦ rw c (undelivered (inl refl) refl)
          | inr (v, c) ↦ rw c (undelivered (inr refl) refl)
        ])
      ])
    ]
