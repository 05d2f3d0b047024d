-- ===== src/Household/Members/CoOwners.antt =====
-- household.py: requests on behalf of a member who is not an owner.
use money_flow_service.Prelude.{
  nat_eq, arith, some, inl, refl, ◌==◌, inr, Bool-cases, false, ℕ, ◌≡◌, ◌&&◌, List,
}
use money_flow_service.Prelude.Tables.{
  count-le-count, count-find?_also, find?-select, select-update, find?, select-delete_none, delete,
  count, select,
}
use money_flow_service.Models.{
  role_eq, owner, User, MemberRole, HouseholdMember, Household, Database,
}
use money_flow_service.Household.Members.Owners.Counting.{count-target}
use money_flow_service.Household.Members.{
  assign_role, patch_member_role, remove_member, lock_household_members, change_role, remove_found,
  has_id, is_owner,
}
use money_flow_service.Household.Members.Rows.{remove_member_ind, patch_member_role_ind, IsLocked}
use money_flow_service.Session.{open_session, stored_after, Verdict}
use money_flow_service.Household.Members.Owners.{HasIds}

-- The owners of all households.
abbrev pub owners : Database → List HouseholdMember
owners db = select is_owner db.members

module _ (verdict : Verdict) (db : Database) (unique : HasIds db) (household : Household)
    (actor_member : HouseholdMember)
    (not_owner : count (λ m. has_id actor_member.id m && is_owner m) db.members ≡ 0) where
  actor-is_owner :
      (actor : HouseholdMember)
      → IsLocked household.id db actor
      → actor.id ≡ actor_member.id
      → is_owner actor ≡ false
  unfolding lock_household_members
  actor-is_owner actor found same = elim (Bool-cases (is_owner actor)) [
    | inr e ↦ e
    | inl e ↦
        let found' : find?
              (λ (m : HouseholdMember). m.household_id == household.id && has_id actor.id m)
              db.members
            ≡ some actor =
          rw (find?-select (has_id actor.id) (λ m. m.household_id == household.id) db.members) at
            found in
        let one =
          count-find?_also (λ m. m.household_id == household.id && has_id actor.id m) is_owner
            db.members found' e in
        let fewer =
          count-le-count (λ m. (m.household_id == household.id && has_id actor.id m) && is_owner m)
            (λ m. has_id actor_member.id m && is_owner m) db.members (λ m h. ground arith) in
        absurd (omega arith)
  ]

  change_role-owners :
      (actor target : HouseholdMember) (target_user : User) (next_role : MemberRole)
      → IsLocked household.id db target
      → is_owner actor ≡ false
      → owners
          (change_role verdict
            (lock_household_members household.id db)
            actor
            target
            target_user
            next_role
            (open_session db)).1.stored
        ≡ owners db
  unfolding change_role
  change_role-owners actor target target_user next_role found plain = ground (arith, same)
    where
      same :
          is_owner target ≡ false
          → (next_role == owner) ≡ false
          → select is_owner (assign_role actor target next_role db.members)
            ≡ select is_owner db.members
      same t n = rw n (
          select-update (has_id target.id) is_owner (λ m. record m { role = next_role }) db.members
            (count-target household.id db unique found is_owner t) (λ m h. n))

  remove_found-owners :
      (actor target : HouseholdMember)
      → IsLocked household.id db target
      → is_owner actor ≡ false
      → owners
          (remove_found verdict household
            (lock_household_members household.id db)
            actor
            target
            (open_session db)).1.stored
        ≡ owners db
  unfolding remove_found
  remove_found-owners actor target found plain = ground (arith, same)
    where
      same :
          is_owner target ≡ false
          → select is_owner (delete (has_id target.id) db.members) ≡ select is_owner db.members
      same t =
          select-delete_none (has_id target.id) is_owner db.members
            (count-target household.id db unique found is_owner t)

  -- On behalf of a member who is not an owner, a change of role makes nobody an owner, and no owner
  -- stops being one: the owners of all households are the same rows.
  pub patch_member_role-owners :
      (member_id : ℕ) (next_role : MemberRole)
      → owners
          (stored_after (patch_member_role verdict household actor_member member_id next_role) db)
        ≡ owners db
  patch_member_role-owners member_id next_role =
      patch_member_role_ind verdict household actor_member member_id (open_session db) next_role
        (λ result. owners result.1.stored ≡ owners db) (λ _. refl)
        (λ actor target target_user a t _ same _.
          change_role-owners actor target target_user next_role t (actor-is_owner actor a same))

  -- On behalf of a member who is not an owner, a removal leaves the owners of all households.
  pub remove_member-owners :
      (member_id : ℕ)
      → owners (stored_after (remove_member verdict household actor_member member_id) db)
        ≡ owners db
  remove_member-owners member_id =
      remove_member_ind verdict household actor_member member_id (open_session db)
        (λ result. owners result.1.stored ≡ owners db) (λ _. refl)
        (λ actor target a t _ same _.
          remove_found-owners actor target t (actor-is_owner actor a same))
