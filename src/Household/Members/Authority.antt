-- ===== src/Household/Members/Authority.antt =====
-- What a request on members may change, and on whose behalf (household.py).
use money_flow_service.Prelude.{nat_eq, refl, some, arith, ◌==◌, ◌≤◌, ◌&&◌, ◌≡◌, not, Bool, List, ℕ}
use money_flow_service.Prelude.Tables.{
  count-le-count, count-find?, count-update_all, update, find?-select, select-update_same,
  count-update_same, find?, count, select,
}
use money_flow_service.Models.{
  role_beq_iff, co_owner, role_eq, User, Household, HouseholdMember, MemberRole, Database,
}
use money_flow_service.Household.Members.Rows.{patch_member_role_ind, IsLocked}
use money_flow_service.Household.Members.{
  patch_member_role, lock_household_members, has_id, HouseholdMemberRead, change_role, assign_role,
}
use money_flow_service.Session.{ok, open_session, raised, Session, Outcome, Verdict}

-- The members besides the two that a request is about.
abbrev pub bystander : (actor_id member_id : ℕ) → HouseholdMember → Bool
bystander actor_id member_id m = not (has_id actor_id m) && not (has_id member_id m)

-- After a granted change the named member has the requested role, the answer says so, and every
-- member but the named one and the actor is as before.
abbrev pub RoleGranted :
    Database
    → (actor_id member_id : ℕ) → MemberRole
    → Outcome HouseholdMemberRead × Session
    → Type 0
RoleGranted db actor_id member_id next_role (raised e, s) = s.stored ≡ db
RoleGranted db actor_id member_id next_role (ok answer, s) =
    (answer.member_id ≡ member_id)
    × (answer.role ≡ next_role)
    × (1 ≤ count (λ m. has_id member_id m && m.role == next_role) s.stored.members)
    × (select (bystander actor_id member_id) s.stored.members
        ≡ select (bystander actor_id member_id) db.members)
    × (s.stored.users ≡ db.users)

assign_role-bystander :
    (actor target : HouseholdMember) (next_role : MemberRole) (members : List HouseholdMember)
    → select (bystander actor.id target.id) (assign_role actor target next_role members)
      ≡ select (bystander actor.id target.id) members
unfolding assign_role
assign_role-bystander actor target next_role members =
    let q = bystander actor.id target.id in
    let demote : HouseholdMember → HouseholdMember = λ m. record m { role = co_owner } in
    let grant : HouseholdMember → HouseholdMember = λ m. record m { role = next_role } in
    let demoted = select-update_same (has_id actor.id) q demote members (λ m h. ground arith) in
    let granted : (rows : List HouseholdMember)
        → select q (update (has_id target.id) grant rows) ≡ select q rows =
      λ rows. select-update_same (has_id target.id) q grant rows (λ m h. ground arith) in
    ground (arith, demoted, granted members, granted (update (has_id actor.id) demote members))

found-count :
    (household_id : ℕ) (db : Database) {target : HouseholdMember}
    → IsLocked household_id db target
    → 1 ≤ count (has_id target.id) db.members
unfolding lock_household_members
found-count household_id db {target} found =
    let found' : find?
          (λ (m : HouseholdMember). m.household_id == household_id && has_id target.id m) db.members
        ≡ some target =
      rw (find?-select (has_id target.id) (λ m. m.household_id == household_id) db.members) at
        found in
    let one =
      count-find? (λ m. m.household_id == household_id && has_id target.id m) db.members found' in
    let fewer =
      count-le-count (λ m. m.household_id == household_id && has_id target.id m) (has_id target.id)
        db.members (λ m h. ground arith) in
    omega arith

assign_role-count :
    (actor target : HouseholdMember) (next_role : MemberRole) (members : List HouseholdMember)
    → count (has_id target.id) members
      ≤ count
          (λ m. has_id target.id m && m.role == next_role)
          (assign_role actor target next_role members)
unfolding assign_role
assign_role-count actor target next_role members =
    let q : HouseholdMember → Bool = λ m. has_id target.id m && m.role == next_role in
    let demote : HouseholdMember → HouseholdMember = λ m. record m { role = co_owner } in
    let grant : HouseholdMember → HouseholdMember = λ m. record m { role = next_role } in
    let kept =
      count-update_same (has_id actor.id) (has_id target.id) demote members (λ m h. refl) in
    let granted : (rows : List HouseholdMember)
        → count (has_id target.id) rows ≤ count q (update (has_id target.id) grant rows) =
      λ rows.
        count-update_all (has_id target.id) q grant rows
          (λ m h. ground (arith, (role_beq_iff next_role next_role).1 refl)) in
    ground (arith, kept, granted members, granted (update (has_id actor.id) demote members))

change_role-RoleGranted :
    (verdict : Verdict) (db : Database) (household_id : ℕ) (actor target : HouseholdMember)
    (target_user : User) (next_role : MemberRole)
    → IsLocked household_id db target
    → RoleGranted db actor.id target.id next_role (
        change_role verdict
          (lock_household_members household_id db)
          actor
          target
          target_user
          next_role
          (open_session db))
unfolding change_role
change_role-RoleGranted verdict db household_id actor target target_user next_role found = ground (
  arith,
  assign_role-bystander actor target next_role db.members,
  assign_role-count actor target next_role db.members,
  found-count household_id db found,
)

-- A request to change a role either raises, and the stored database is as it was, or the named
-- member has the requested role, the answer names the member and the role, every member but the named one and the
-- actor is as before, and so are the users.
pub patch_member_role-RoleGranted :
    (verdict : Verdict) (db : Database) (household : Household) (actor_member : HouseholdMember)
    (member_id : ℕ) (next_role : MemberRole)
    → RoleGranted db actor_member.id member_id next_role
        (patch_member_role verdict household actor_member member_id next_role (open_session db))
patch_member_role-RoleGranted verdict db household actor_member member_id next_role =
    patch_member_role_ind verdict household actor_member member_id (open_session db) next_role
      (RoleGranted db actor_member.id member_id next_role) (λ _. refl)
      (λ actor target target_user _ t _ same_actor same_target.
        rw (← same_actor, ← same_target)
          (change_role-RoleGranted verdict db household.id actor target target_user next_role t))
