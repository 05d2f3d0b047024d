-- ===== src/Household/Invitations/OnePending.antt =====
-- How many invitations for a household and a mail address are pending after each request
-- (household.py), as the unique index `uq_household_invite_pending_household_email` counts them.
use money_flow_service.Household.Invitations.Replacement.{
  replace_invitation-Replaced, create_invitation_ind, Replaced, replaced_database,
}
use money_flow_service.Household.Invitations.{
  set_status, accept_at, is_acceptable, has_invitation_id, accept_record, is_revocable, is_overdue,
  accept_invitation_record, accept_invitation, accept_invitation_by_id, revoke_invitation,
  mark_accepted, revoke_at, is_pending, InvitationSettings, Surroundings,
}
use money_flow_service.Prelude.{
  nat_eq, ◌&&◌, ◌==◌, Option-cases, refl, inl, [], ◌∷◌, inr, Bool-cases, arith, false, ◌≤◌, ◌≡◌,
  Bool, ℕ, List,
}
use money_flow_service.Models.{
  expired, HouseholdMember, User, Household, Database, MemberRole, HouseholdInvitation,
}
use money_flow_service.Household.Invitations.Acceptance.{accept_record_ind}
use money_flow_service.Prelude.Tables.{
  find?, count-update_gone, count-append, count-update_le, update, count,
}
use money_flow_service.Household.Invitations.Evolution.{expired_database}
use money_flow_service.Household.Invitations.Creation.{
  create_invitation, new_invitation, is_pending_for, normalize_email,
}
use money_flow_service.Session.{open_session, Session, Verdict, Outcome}
use money_flow_service.Prelude.Text.{text_beq_iff, lower, Text}
use money_flow_service.Prelude.Text.Case.{lower-strip-lower}

-- No two pending invitations share the household and the address, up to case.
abbrev pub HasOnePending : List HouseholdInvitation → Type 0
HasOnePending invitations =
    (household_id : ℕ) (email : Text) → count (is_pending_for household_id email) invitations ≤ 1

-- An UPDATE of the status of pending rows that ends their being pending keeps it.
HasOnePending-update :
    (p : HouseholdInvitation → Bool) (f : HouseholdInvitation → HouseholdInvitation)
    (xs : List HouseholdInvitation)
    → ((x : HouseholdInvitation) → is_pending (f x) ≡ false)
    → HasOnePending xs
    → HasOnePending (update p f xs)
HasOnePending-update p f xs ends one household_id email = omega (
  arith,
  one household_id email,
  count-update_le p (is_pending_for household_id email) f xs (λ x h k. ground (arith, ends x)),
)

lower-normalize_email : (email : Text) → lower (normalize_email email) ≡ normalize_email email
unfolding normalize_email
lower-normalize_email email = lower-strip-lower email

HasOnePending-replaced :
    (env : Surroundings) (settings : InvitationSettings) (household_id user_id : ℕ) (email : Text)
    (role : MemberRole) (db : Database)
    → HasOnePending db.invitations
    → HasOnePending
        (replaced_database env settings household_id user_id
          (normalize_email email)
          role
          db).invitations
unfolding count
HasOnePending-replaced env settings household_id user_id email role db one h e =
    let new = new_invitation env settings household_id user_id (normalize_email email) role in
    let rows =
      update (is_pending_for household_id (normalize_email email)) (revoke_at env.now)
        db.invitations in
    let before =
      HasOnePending-update (is_pending_for household_id (normalize_email email)) (revoke_at env.now)
        db.invitations (λ x. refl) one h e in
    elim (Bool-cases (is_pending_for h e new)) [
      | inr other ↦ ground (arith, count-append (is_pending_for h e) rows (new ∷ []))
      | inl same ↦
          let same_household : household_id ≡ h = ground (arith) in
          let same_email : lower (normalize_email email) ≡ e =
            (text_beq_iff (lower (normalize_email email)) e).0 (ground arith) in
          let gone =
            count-update_gone (is_pending_for household_id (normalize_email email))
              (is_pending_for h e) (revoke_at env.now) db.invitations (λ x k. ground arith)
              (λ x k. rw (← lower-normalize_email email, same_email, same_household) k) in
          ground (arith, count-append (is_pending_for h e) rows (new ∷ []), gone)
    ]

abbrev pub KeepsOnePending : {A : Type 0} → Outcome A × Session → Type 0
KeepsOnePending result = HasOnePending result.1.stored.invitations

module _ (env : Surroundings) (verdict : Verdict) (db : Database)
    (one : HasOnePending db.invitations) where
  accept_record-HasOnePending :
      (user : User) (invitation : HouseholdInvitation) (db' : Database)
      → HasOnePending db'.invitations
      → KeepsOnePending (accept_record env verdict user invitation (open_session db'))
  unfolding mark_accepted
  accept_record-HasOnePending user invitation db' one' =
      accept_record_ind env verdict user invitation (open_session db') KeepsOnePending (λ _ _. one')
        (λ _ _ _.
          HasOnePending-update (is_acceptable invitation.id env.now) (accept_at env.now user.id)
            db'.invitations (λ x. refl) one')

  accept_invitation_record-HasOnePending :
      (user : User) (invitation : HouseholdInvitation)
      → KeepsOnePending (accept_invitation_record env verdict user invitation (open_session db))
  unfolding accept_invitation_record
  accept_invitation_record-HasOnePending user invitation =
      elim (Bool-cases (is_overdue env.now invitation)) [
        | inr e ↦ rw e (accept_record-HasOnePending user invitation db one)
        | inl e ↦ rw e (elim (Option-cases (verdict (expired_database db invitation))) [
          | inr (v, b) ↦ rw b one
          | inl b ↦ rw b (
              accept_record-HasOnePending user (record invitation { status = expired })
                (expired_database db invitation)
                (HasOnePending-update (has_invitation_id invitation.id) (set_status expired)
                  db.invitations (λ x. refl) one))
        ])
      ]

  pub accept_invitation-HasOnePending :
      (user : User) (token : ℕ)
      → KeepsOnePending (accept_invitation env verdict user token (open_session db))
  unfolding accept_invitation
  accept_invitation-HasOnePending user token =
      elim (Option-cases (
        find? (λ (inv : HouseholdInvitation). inv.token_hash == env.hash_opaque_token token)
          db.invitations)) [
            | inl e ↦ rw e one
            | inr (invitation, e) ↦ rw e (accept_invitation_record-HasOnePending user invitation)
          ]

  pub accept_invitation_by_id-HasOnePending :
      (user : User) (invitation_id : ℕ)
      → KeepsOnePending (accept_invitation_by_id env verdict user invitation_id (open_session db))
  unfolding accept_invitation_by_id
  accept_invitation_by_id-HasOnePending user invitation_id =
      elim (Option-cases (find? (has_invitation_id invitation_id) db.invitations)) [
        | inl e ↦ rw e one
        | inr (invitation, e) ↦ rw e (accept_invitation_record-HasOnePending user invitation)
      ]

  pub revoke_invitation-HasOnePending :
      (household : Household) (invitation_id : ℕ)
      → KeepsOnePending (revoke_invitation env verdict household invitation_id (open_session db))
  unfolding revoke_invitation
  revoke_invitation-HasOnePending household invitation_id =
      let revokes =
        HasOnePending-update (is_revocable invitation_id household.id) (revoke_at env.now)
          db.invitations (λ x. refl) one in
      elim (Option-cases (
        find? (λ inv. has_invitation_id invitation_id inv && inv.household_id == household.id)
          db.invitations)) [
            | inl e ↦ rw e one
            | inr (invitation, e) ↦
                rw e
                  (elim (Bool-cases
                    (count (is_revocable invitation_id household.id) db.invitations == 1)) [
                      | inr c ↦ rw c one
                      | inl c ↦
                          rw c
                            (elim (Option-cases (
                              verdict (record db {
                                invitations =
                                    update (is_revocable invitation_id household.id)
                                      (revoke_at env.now) db.invitations;
                              }))) [ inr (v, b) ↦ rw b one | inl b ↦ rw b revokes ])
                    ])
          ]

  pub create_invitation-HasOnePending :
      (settings : InvitationSettings) (verdict' : Verdict) (household : Household)
      (actor_member : HouseholdMember) (user : User) (email : Text) (role : MemberRole)
      → KeepsOnePending (
          create_invitation env settings verdict verdict' household actor_member user email role
            (open_session db))
  create_invitation-HasOnePending settings verdict' household actor_member user email role =
      create_invitation_ind env settings verdict verdict' household actor_member user email role
        (open_session db) KeepsOnePending (λ e. one)
        (λ _ _ _ _ _. stored _ (
          replace_invitation-Replaced env settings verdict verdict' household.id user.id
            (normalize_email email) role db))
    where
      replaced : Database
      replaced = replaced_database env settings household.id user.id (normalize_email email) role db

      one' : HasOnePending replaced.invitations
      one' = HasOnePending-replaced env settings household.id user.id email role db one

      stored :
          (result : Outcome HouseholdInvitation × Session)
          → Replaced env settings household.id user.id (normalize_email email) role db result
          → KeepsOnePending result
      stored result (Replaced.not_written e) = rw e one
      stored result (Replaced.delivered e _) = rw e one'
      stored result (Replaced.undelivered (inl e) _) = rw e (
          HasOnePending-update (λ inv. has_invitation_id env.fresh_id inv && is_pending inv)
            (revoke_at env.now) replaced.invitations (λ x. refl) one')
      stored result (Replaced.undelivered (inr e) _) = rw e one'
