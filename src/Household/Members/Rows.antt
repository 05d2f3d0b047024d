-- ===== src/Household/Members/Rows.antt =====
-- The rows that `patch_member_role` and `remove_member` look up before they decide (household.py):
-- what holds of every refusal and of the decision on the found rows holds of the request.
use money_flow_service.Prelude.{
  nat_eq, ◌==◌, Bool-cases, inr, inl, Option-cases, true, arith, some, ◌≡◌, List, ℕ,
}
use money_flow_service.Household.Members.{
  change_role, remove_found, is_manager, HouseholdMemberRead, lock_household_members, remove_member,
  has_id, patch_member_role,
}
use money_flow_service.Prelude.Tables.{find?-holds, find?}
use money_flow_service.Models.{User, MemberRole, Household, HouseholdMember, Database}
use money_flow_service.Session.{raised, Outcome, Session, Verdict}
use money_flow_service.Errors.{AppError}

-- The rows that the requests work with are rows of the household.
abbrev pub IsLocked : ℕ → Database → HouseholdMember → Type 0
IsLocked household_id db m = find? (has_id m.id) (lock_household_members household_id db) ≡ some m

found-IsLocked :
    (db : Database) (household_id i : ℕ) {m : HouseholdMember}
    → find? (has_id i) (lock_household_members household_id db) ≡ some m
    → IsLocked household_id db m
found-IsLocked db household_id i {m} e =
    ground (arith, find?-holds (has_id i) (lock_household_members household_id db) e)

module _ (verdict : Verdict) (household : Household) (actor_member : HouseholdMember)
    (member_id : ℕ) (s : Session) where
  abbrev locked : List HouseholdMember
  locked = lock_household_members household.id s.working

  pub patch_member_role_ind :
      (next_role : MemberRole) (P : Outcome HouseholdMemberRead × Session → Type 0)
      → ((e : AppError) → P (raised e, s))
      → ((actor target : HouseholdMember) (target_user : User)
          → IsLocked household.id s.working actor
          → IsLocked household.id s.working target
          → is_manager actor ≡ true
          → actor.id ≡ actor_member.id
          → target.id ≡ member_id
          → P (change_role verdict locked actor target target_user next_role s))
      → P (patch_member_role verdict household actor_member member_id next_role s)
  unfolding patch_member_role
  patch_member_role_ind next_role P refused decided =
      elim (Option-cases (find? (has_id member_id) locked)) [
        | inl e ↦ rw e (refused _)
        | inr (target, e) ↦ elim (Option-cases (find? (has_id actor_member.id) locked)) [
          | inl a ↦ rw (e, a) (refused _)
          | inr (actor, a) ↦ elim (Bool-cases (is_manager actor)) [
            | inr m ↦ rw (e, a, m) (refused _)
            | inl m ↦
                elim (Option-cases (find? (λ (u : User). u.id == target.user_id) s.working.users)) [
                  | inl u ↦ rw (e, a, m, u) (refused _)
                  | inr (target_user, u) ↦
                      rw (e, a, m, u)
                        (decided actor target target_user
                          (found-IsLocked s.working household.id actor_member.id a)
                          (found-IsLocked s.working household.id member_id e) m
                          (ground (arith, find?-holds (has_id actor_member.id) locked a))
                          (ground (arith, find?-holds (has_id member_id) locked e)))
                ]
          ]
        ]
      ]

  pub remove_member_ind :
      (P : Outcome Unit × Session → Type 0)
      → ((e : AppError) → P (raised e, s))
      → ((actor target : HouseholdMember)
          → IsLocked household.id s.working actor
          → IsLocked household.id s.working target
          → is_manager actor ≡ true
          → actor.id ≡ actor_member.id
          → target.id ≡ member_id
          → P (remove_found verdict household locked actor target s))
      → P (remove_member verdict household actor_member member_id s)
  unfolding remove_member
  remove_member_ind P refused decided =
      elim (Option-cases (find? (has_id actor_member.id) locked)) [
        | inl a ↦ rw a (refused _)
        | inr (actor, a) ↦ elim (Bool-cases (is_manager actor)) [
          | inr m ↦ rw (a, m) (refused _)
          | inl m ↦ elim (Option-cases (find? (has_id member_id) locked)) [
            | inl e ↦ rw (a, m, e) (refused _)
            | inr (target, e) ↦
                rw (a, m, e)
                  (decided actor target (found-IsLocked s.working household.id actor_member.id a)
                    (found-IsLocked s.working household.id member_id e) m
                    (ground (arith, find?-holds (has_id actor_member.id) locked a))
                    (ground (arith, find?-holds (has_id member_id) locked e)))
          ]
        ]
      ]
