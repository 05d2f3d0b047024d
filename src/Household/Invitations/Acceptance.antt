-- ===== src/Household/Invitations/Acceptance.antt =====
-- What accepting an invitation amounts to (household.py): every way in which it is refused, and
-- the one in which it is granted.
use money_flow_service.Prelude.{
  nat_beq_iff, Option-cases, inr, inl, Bool-cases, option_eq, nat_eq, some, ◌||◌, none, true, ◌≡◌,
  ◌==◌,
}
use money_flow_service.Prelude.Text.{text_beq_iff, text_eq, lower}
use money_flow_service.OwnerLinks.{ensure_unique_cases, is_membership}
use money_flow_service.Models.{status_eq, expired, Household, Database, HouseholdInvitation, User}
use money_flow_service.Session.{ok, raised, Outcome, Session, Verdict}
use money_flow_service.Household.Invitations.{
  is_acceptable, joined_member, select_if_none, is_pending, mark_accepted,
  household_name_or_default, AcceptResponse, join_members, accept_record, Surroundings,
}
use money_flow_service.Prelude.Tables.{count, find?}
use money_flow_service.Errors.{AppError}

-- The database after a granted acceptance.
abbrev pub granted_database : Surroundings → User → HouseholdInvitation → Database → Database
granted_database env user invitation db = record db {
  members =
      join_members env invitation user.id
        (find? (is_membership invitation.household_id user.id) db.members) db.members;
  invitations = mark_accepted invitation.id env.now user.id db.invitations;
  users = select_if_none user invitation.household_id db.users;
}

abbrev pub granted_response : Surroundings → User → HouseholdInvitation → Database → AcceptResponse
granted_response env user invitation db = record {
  invitation_id = invitation.id;
  household_id = invitation.household_id;
  household_name =
      household_name_or_default
        (find? (λ (h : Household). h.id == invitation.household_id) db.households);
  role =
      (joined_member env invitation user.id
        (find? (is_membership invitation.household_id user.id) db.members)).role;
  active_household_selected =
      user.active_household_id == none || user.active_household_id == some invitation.household_id;
}

module _ (env : Surroundings) (verdict : Verdict) (user : User) where
  pub accept_record_ind :
      (invitation : HouseholdInvitation) (s : Session)
      (P : Outcome AcceptResponse × Session → Type 0)
      → ((e : AppError) (db : Database) → P (raised e, record s { working = db }))
      → (is_pending invitation ≡ true
          → lower user.email ≡ lower invitation.email
          → count (is_acceptable invitation.id env.now) s.working.invitations ≡ 1
          → P (
            ok (granted_response env user invitation s.working),
            record s {
              working = granted_database env user invitation s.working;
              stored = granted_database env user invitation s.working;
            },
          ))
      → P (accept_record env verdict user invitation s)
  unfolding accept_record
  accept_record_ind invitation s P refused granted =
      elim (Bool-cases (invitation.status == expired)) [
        | inl e ↦ rw e (refused _ _)
        | inr e ↦ elim (Bool-cases (is_pending invitation)) [
          | inr p ↦ rw (e, p) (refused _ _)
          | inl p ↦ elim (Bool-cases (lower user.email == lower invitation.email)) [
            | inr m ↦ rw (e, p, m) (refused _ _)
            | inl m ↦
                rw (e, p, m)
                  (elim (ensure_unique_cases invitation.household_id user.id
                    (some user.display_name) s) [
                      | inr (error, u) ↦ rw u (refused _ _)
                      | inl u ↦
                          rw u
                            (elim (Bool-cases (
                              count (is_acceptable invitation.id env.now) s.working.invitations
                              == 1)) [
                                | inr c ↦ rw c (refused _ _)
                                | inl c ↦
                                    rw c
                                      (elim (Option-cases (
                                        verdict (granted_database env user invitation s.working))) [
                                          | inr (v, b) ↦ rw b (refused _ _)
                                          | inl b ↦ rw b (
                                              granted p
                                                ((text_beq_iff (lower user.email)
                                                    (lower invitation.email)).0
                                                  m)
                                                ((nat_beq_iff _ 1).0 c))
                                        ])
                              ])
                    ])
          ]
        ]
      ]
