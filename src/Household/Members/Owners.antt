-- ===== src/Household/Members/Owners.antt =====
-- Who owns a household after its members were changed (household.py).
pub mod Counting
use money_flow_service.Session.{open_session, stored_after, Verdict}
use money_flow_service.Household.Members.Rows.{patch_member_role_ind, remove_member_ind, IsLocked}
use money_flow_service.Household.Members.{
  remove_member, patch_member_role, remove_found, change_role, lock_household_members, has_id,
}
use money_flow_service.Household.Members.Owners.Counting.{
  count-delete_guarded, count-delete_elsewhere, count-demote_guarded, count-elsewhere, count-here,
  owner_of, count-update_elsewhere,
}
use money_flow_service.Prelude.{
  Option-cases, nat_eq, inr, ◌&&◌, inl, ◌==◌, true, Bool-cases, some, ◌≡◌, refl, ◌≤◌, arith, List,
  ℕ,
}
use money_flow_service.Models.{
  Household, User, co_owner, owner, HouseholdMember, MemberRole, Database,
}
use money_flow_service.Prelude.Tables.{
  find?-holds, count-update_le, count-update, count-update_touched, count, count-update_same, find?,
  HasUniqueKey, update,
}

-- The household has an owner.
abbrev pub HasOwner : ℕ → Database → Type 0
HasOwner household_id db = 1 ≤ count (owner_of household_id) db.members

abbrev pub HasIds : Database → Type 0
HasIds db = HasUniqueKey (λ (m : HouseholdMember). m.id) db.members

set_role : ℕ → MemberRole → List HouseholdMember → List HouseholdMember
unfolding update
set_role i role members = update (has_id i) (λ m. record m { role = role }) members

set_role-HasUniqueKey :
    (i : ℕ) (role : MemberRole) (members : List HouseholdMember)
    → HasUniqueKey (λ m. m.id) members
    → HasUniqueKey (λ m. m.id) (set_role i role members)
unfolding set_role
set_role-HasUniqueKey i role members unique j = omega (
  arith,
  unique j,
  count-update_same (has_id i) (has_id j) (λ m. record m { role = role }) members (λ m h. refl),
)

module _ (h household_id : ℕ) (db : Database) (unique : HasIds db) {target : HouseholdMember}
    (found : IsLocked household_id db target) where
  -- An owner who hands the household over to the found member leaves it with an owner.
  promote-HasOwner :
      (actor : HouseholdMember)
      → IsLocked household_id db actor
      → 1 ≤ count (owner_of h) db.members
      → 1 ≤ count (owner_of h) (set_role target.id owner (set_role actor.id co_owner db.members))
  unfolding set_role
  promote-HasOwner actor found_actor has = elim (Bool-cases (h == household_id)) [
    | inl e ↦ omega (
      arith,
      touched members' (λ m p q. ground arith),
      count-update_same (has_id actor.id)
          (λ m. has_id target.id m && m.household_id == household_id)
          (λ m. record m { role = co_owner }) db.members (λ m p. refl),
      count-here household_id db unique found,
    )
    | inr e ↦ omega (
      arith,
      count-update_elsewhere household_id db unique found_actor h co_owner e,
      count-update (has_id target.id) (owner_of h) (λ m. record m { role = owner }) members',
      count-update_le (has_id actor.id) (λ m. has_id target.id m && owner_of h m)
          (λ m. record m { role = co_owner }) db.members (λ m p q. ground arith),
      count-elsewhere household_id db unique found (owner_of h) (λ m k. ground arith),
    )
  ]
    where
      members' : List HouseholdMember
      members' = update (has_id actor.id) (λ m. record m { role = co_owner }) db.members

      touched :
          (members : List HouseholdMember)
          → ((m : HouseholdMember)
              → has_id target.id m ≡ true
              → (m.household_id == household_id) ≡ true
              → owner_of h (record m { role = owner }) ≡ true)
          → count (λ m. has_id target.id m && m.household_id == household_id) members
            ≤ count
                (owner_of h)
                (update (has_id target.id) (λ m. record m { role = owner }) members)
      touched members =
          count-update_touched (has_id target.id) (owner_of h) (λ m. m.household_id == household_id)
            (λ m. record m { role = owner }) members

  promote_plain-HasOwner :
      1 ≤ count (owner_of h) db.members
      → 1 ≤ count (owner_of h) (set_role target.id owner db.members)
  unfolding set_role
  promote_plain-HasOwner has = elim (Bool-cases (h == household_id)) [
    | inl e ↦ omega (
      arith,
      count-update_touched (has_id target.id) (owner_of h) (λ m. m.household_id == household_id)
          (λ m. record m { role = owner }) db.members (λ m p q. ground arith),
      count-here household_id db unique found,
    )
    | inr e ↦ omega (arith, count-update_elsewhere household_id db unique found h owner e)
  ]

module _ (h : ℕ) (verdict : Verdict) (db : Database) (unique : HasIds db)
    (has : HasOwner h db) where
  change_role-HasOwner :
      (household_id : ℕ) (actor target : HouseholdMember) (target_user : User)
      (next_role : MemberRole)
      → IsLocked household_id db actor
      → IsLocked household_id db target
      → HasOwner h (
          stored_after
            (change_role verdict
              (lock_household_members household_id db)
              actor
              target
              target_user
              next_role)
            db)
  unfolding change_role set_role
  change_role-HasOwner household_id actor target target_user next_role found_actor found = ground (
    arith,
    promote-HasOwner h household_id db unique found actor found_actor has,
    promote_plain-HasOwner h household_id db unique found has,
    count-update_elsewhere household_id db unique found h next_role,
    count-demote_guarded household_id db unique found next_role,
  )

  remove_found-HasOwner :
      (household : Household) (actor target : HouseholdMember)
      → IsLocked household.id db target
      → HasOwner h (
          stored_after
            (remove_found verdict household (lock_household_members household.id db) actor target)
            db)
  unfolding remove_found
  remove_found-HasOwner household actor target found = ground (
    arith,
    count-delete_elsewhere household.id db unique found h,
    count-delete_guarded household.id db unique found,
  )

  -- If a household has an owner, it has one after a role was changed.
  pub patch_member_role-HasOwner :
      (household : Household) (actor_member : HouseholdMember) (member_id : ℕ)
      (next_role : MemberRole)
      → HasOwner h
          (stored_after (patch_member_role verdict household actor_member member_id next_role) db)
  patch_member_role-HasOwner household actor_member member_id next_role =
      patch_member_role_ind verdict household actor_member member_id (open_session db) next_role
        (λ result. HasOwner h result.1.stored) (λ _. has)
        (λ actor target target_user a t _ _ _.
          change_role-HasOwner household.id actor target target_user next_role a t)

  -- If a household has an owner, it has one after a member was removed.
  pub remove_member-HasOwner :
      (household : Household) (actor_member : HouseholdMember) (member_id : ℕ)
      → HasOwner h (stored_after (remove_member verdict household actor_member member_id) db)
  remove_member-HasOwner household actor_member member_id =
      remove_member_ind verdict household actor_member member_id (open_session db)
        (λ result. HasOwner h result.1.stored) (λ _. has)
        (λ actor target _ t _ _ _. remove_found-HasOwner household actor target t)
