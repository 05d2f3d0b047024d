-- ===== src/Household/Invitations/Membership.antt =====
-- What accepting an invitation grants, and when (household.py, `_accept_invitation_record`).
use money_flow_service.Household.Invitations.{
  set_status, accept_invitation_by_id, accept_invitation, accept_at, accept_record,
  has_invitation_id, AcceptResponse, is_overdue, joined_member, accept_invitation_record,
  is_acceptable, role_rank, mark_accepted, Surroundings, join_members,
}
use money_flow_service.Prelude.Tables.{
  update, count-update_touched, count-le-count, count-find?_also, count-append, count-update_all,
  find?, count,
}
use money_flow_service.Session.{
  stored_after, outcome, ok, raised, Session, open_session, Outcome, Verdict,
}
use money_flow_service.Errors.{household_invite_expired, app_error}
use money_flow_service.Models.{
  expired, status_eq, role_eq, role_beq_iff, pending, status_beq_iff, accepted, Database,
  HouseholdMember, HouseholdInvitation, User,
}
use money_flow_service.Household.Invitations.Evolution.{expired_database}
use money_flow_service.Prelude.{
  Option-cases, [], option_eq, nat_eq, ◌∷◌, nat_beq_refl, true, refl, Bool, inl, ◌==◌, inr, ◌&&◌,
  Bool-cases, arith, false, ◌≤◌, max, ◌≡◌, none, some, List, ℕ, Option,
}
use money_flow_service.Household.Members.{has_id}
use money_flow_service.Prelude.Text.{lower}
use money_flow_service.Household.Invitations.Acceptance.{accept_record_ind}
use money_flow_service.OwnerLinks.{is_membership}

-- The rank of the role that a user has in the household before accepting; 0 without one.
abbrev pub previous_rank : Option HouseholdMember → ℕ
previous_rank none = 0
previous_rank (some member) = role_rank member.role

-- A refusal changes no member and no user. A grant needs a pending invitation that is not overdue
-- and is addressed to the user, up to case; the user is then a member whose role is the higher one of
-- the previous and the offered role, and the invitation is stored as accepted by the user.
abbrev pub Grants :
    Surroundings → User → HouseholdInvitation → Database → Outcome AcceptResponse × Session → Type 0
Grants env user invitation db (raised e, s) =
    (s.stored.members ≡ db.members) × (s.stored.users ≡ db.users)
Grants env user invitation db (ok answer, s) =
    (invitation.status ≡ pending)
    × (env.now ≤ invitation.expires_at)
    × (lower user.email ≡ lower invitation.email)
    × (role_rank answer.role
        ≡ max (previous_rank (find? (is_membership invitation.household_id user.id) db.members))
            (role_rank invitation.role))
    × (1
        ≤ count (λ m. is_membership invitation.household_id user.id m && m.role == answer.role)
            s.stored.members)
    × (1
        ≤ count
            (λ inv.
              has_invitation_id invitation.id inv
              && inv.status == accepted
              && inv.accepted_user_id == some user.id)
            s.stored.invitations)

joined_member-rank :
    (env : Surroundings) (invitation : HouseholdInvitation) (user_id : ℕ)
    (o : Option HouseholdMember)
    → role_rank (joined_member env invitation user_id o).role
      ≡ max (previous_rank o) (role_rank invitation.role)
joined_member-rank env invitation user_id none = omega arith
joined_member-rank env invitation user_id (some m) = ground arith

join_members-count :
    (env : Surroundings) (invitation : HouseholdInvitation) (user_id : ℕ)
    (members : List HouseholdMember) (o : Option HouseholdMember)
    → find? (is_membership invitation.household_id user_id) members ≡ o
    → 1
      ≤ count
          (λ m.
            is_membership invitation.household_id user_id m
            && m.role == (joined_member env invitation user_id o).role)
          (join_members env invitation user_id o members)
unfolding join_members count
join_members-count env invitation user_id members none e =
    let p : HouseholdMember → Bool =
      λ m. is_membership invitation.household_id user_id m && m.role == invitation.role in
    let new = joined_member env invitation user_id none in
    let passes : p new ≡ true =
      ground (arith, (role_beq_iff invitation.role invitation.role).1 refl) in
    ground (arith, count-append p members (new ∷ []))
join_members-count env invitation user_id members (some m) e =
    let role = (joined_member env invitation user_id (some m)).role in
    let one =
      count-find?_also (is_membership invitation.household_id user_id) (has_id m.id) members e
        (nat_beq_refl m.id) in
    let swap =
      count-le-count (λ x. is_membership invitation.household_id user_id x && has_id m.id x)
        (λ x. has_id m.id x && is_membership invitation.household_id user_id x) members
        (λ x h. ground arith) in
    let kept =
      count-update_touched (has_id m.id)
        (λ x. is_membership invitation.household_id user_id x && x.role == role)
        (is_membership invitation.household_id user_id) (λ x. record x { role = role }) members
        (λ x h k. ground (arith, (role_beq_iff role role).1 refl)) in
    omega arith

mark_accepted-count :
    (i now user_id : ℕ) (xs : List HouseholdInvitation)
    → count (is_acceptable i now) xs
      ≤ count
          (λ inv.
            has_invitation_id i inv
            && inv.status == accepted
            && inv.accepted_user_id == some user_id)
          (mark_accepted i now user_id xs)
unfolding mark_accepted
mark_accepted-count i now user_id xs =
    count-update_all (is_acceptable i now)
      (λ inv.
        has_invitation_id i inv && inv.status == accepted && inv.accepted_user_id == some user_id)
      (accept_at now user_id) xs (λ x h. ground (arith, nat_beq_refl user_id))

module _ (env : Surroundings) (verdict : Verdict) (user : User) (db : Database) where
  accept_record-Grants :
      (invitation : HouseholdInvitation) (db' : Database)
      → db'.members ≡ db.members
      → db'.users ≡ db.users
      → is_overdue env.now invitation ≡ false
      → Grants env user invitation db (accept_record env verdict user invitation (open_session db'))
  accept_record-Grants invitation db' same_members same_users in_time =
      accept_record_ind env verdict user invitation (open_session db')
        (Grants env user invitation db) (λ e w. (same_members, same_users))
        (λ is_pend same_mail one. (
          (status_beq_iff invitation.status pending).0 is_pend,
          ground arith,
          same_mail,
          rw same_members (
              joined_member-rank env invitation user.id
                (find? (is_membership invitation.household_id user.id) db.members)),
          join_members-count env invitation user.id db'.members _ refl,
          omega (arith, mark_accepted-count invitation.id env.now user.id db'.invitations),
        ))

  accept_invitation_record-Grants :
      (invitation : HouseholdInvitation)
      → Grants env user invitation db
          (accept_invitation_record env verdict user invitation (open_session db))
  unfolding accept_invitation_record
  accept_invitation_record-Grants invitation = elim (Bool-cases (is_overdue env.now invitation)) [
    | inr e ↦ rw e (accept_record-Grants invitation db refl refl e)
    | inl e ↦ rw e (elim (Option-cases (verdict (expired_database db invitation))) [
      | inr (v, b) ↦ rw b (refl, refl)
      | inl b ↦ rw b (
          accept_record_ind env verdict user (record invitation { status = expired })
            (open_session (expired_database db invitation)) (Grants env user invitation db)
            (λ _ _. (refl, refl)) (λ is_pend _ _. cc))
    ])
  ]

  -- Accepting a stored invitation by its id either raises, and no member or user changes, or the
  -- invitation was pending, not overdue and addressed to the user, who is then a member with the
  -- higher of the previous and the offered role, and the invitation is stored as accepted by the user.
  pub accept_invitation_by_id-Grants :
      (invitation : HouseholdInvitation) (invitation_id : ℕ)
      → find? (has_invitation_id invitation_id) db.invitations ≡ some invitation
      → Grants env user invitation db
          (accept_invitation_by_id env verdict user invitation_id (open_session db))
  unfolding accept_invitation_by_id
  accept_invitation_by_id-Grants invitation invitation_id found =
      rw found (accept_invitation_record-Grants invitation)

  -- The same of accepting by the token that was mailed.
  pub accept_invitation-Grants :
      (invitation : HouseholdInvitation) (token : ℕ)
      → find? (λ inv. inv.token_hash == env.hash_opaque_token token) db.invitations
        ≡ some invitation
      → Grants env user invitation db (accept_invitation env verdict user token (open_session db))
  unfolding accept_invitation
  accept_invitation-Grants invitation token found =
      rw found (accept_invitation_record-Grants invitation)

  -- If the database takes the commit that marks it, accepting a stored overdue invitation raises
  -- HOUSEHOLD_INVITE_EXPIRED, and the invitation is stored as expired although the request fails.
  pub accept_invitation_by_id-expired :
      (invitation : HouseholdInvitation) (invitation_id : ℕ)
      → find? (has_invitation_id invitation_id) db.invitations ≡ some invitation
      → is_overdue env.now invitation ≡ true
      → verdict (expired_database db invitation) ≡ none
      → (outcome (accept_invitation_by_id env verdict user invitation_id) db
          ≡ raised (app_error 400 household_invite_expired))
        × (1
            ≤ count
                (λ inv. has_invitation_id invitation.id inv && inv.status == expired)
                (stored_after
                  (accept_invitation_by_id env verdict user invitation_id)
                  db).invitations)
  unfolding accept_invitation_by_id accept_invitation_record accept_record
  accept_invitation_by_id-expired invitation invitation_id found overdue fine =
      rw (found, overdue, fine) (refl, omega (arith, expires, one, fewer))
    where
      one :
          1
          ≤ count
              (λ inv. has_invitation_id invitation_id inv && has_invitation_id invitation.id inv)
              db.invitations
      one =
          count-find?_also (has_invitation_id invitation_id) (has_invitation_id invitation.id)
            db.invitations found (nat_beq_refl invitation.id)

      fewer :
          count
            (λ inv. has_invitation_id invitation_id inv && has_invitation_id invitation.id inv)
            db.invitations
          ≤ count (has_invitation_id invitation.id) db.invitations
      fewer =
          count-le-count
            (λ inv. has_invitation_id invitation_id inv && has_invitation_id invitation.id inv)
            (has_invitation_id invitation.id) db.invitations (λ inv h. ground arith)

      expires :
          count (has_invitation_id invitation.id) db.invitations
          ≤ count
              (λ inv. has_invitation_id invitation.id inv && inv.status == expired)
              (update (has_invitation_id invitation.id) (set_status expired) db.invitations)
      expires =
          count-update_all (has_invitation_id invitation.id)
            (λ inv. has_invitation_id invitation.id inv && inv.status == expired)
            (set_status expired) db.invitations (λ inv h. ground arith)
