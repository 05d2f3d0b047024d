-- ===== src/Household/Members.antt =====
-- household.py, `patch_member_role` and `remove_member`: who may change whose role, and removal.
pub mod Rows
pub mod Owners
pub mod Authority
pub mod CoOwners
use money_flow_service.Prelude.{
  ℕ, zero, suc, ◌≡◌, refl, Bool, true, false, not, ◌&&◌, ◌||◌, Option, none, some, List, [], ◌∷◌,
  if◌then◌else◌, leb, ◌==◌, nat_eq, option_eq, arith,
}
use money_flow_service.Prelude.Tables.{select, find?, count, update, delete}
use money_flow_service.Prelude.Text.{Text}
use money_flow_service.Errors.{
  app_error, household_role_forbidden, household_member_not_found, household_owner_required,
}
use money_flow_service.Models.{
  MemberRole, owner, co_owner, role_eq, User, Household, HouseholdMember, Database,
}
use money_flow_service.Session.{
  Handler, pure, raise, query, or_raise, raise_if, modify, emit, commit, Verdict, ◌>>=◌, ◌>>◌,
  disconnect_member,
}

pub record HouseholdMemberRead : Type 0 where
  pub member_id : ℕ
  pub user_id : ℕ
  pub email : Text
  pub display_name : Text
  pub role : MemberRole
  pub created_at : ℕ

pub to_member_read : HouseholdMember → User → HouseholdMemberRead
to_member_read member user = record {
  member_id = member.id;
  user_id = user.id;
  email = user.email;
  display_name = user.display_name;
  role = member.role;
  created_at = member.created_at;
}

abbrev pub is_owner : HouseholdMember → Bool
is_owner member = member.role == owner

-- `role in {MemberRole.owner, MemberRole.co_owner}`
abbrev pub is_manager : HouseholdMember → Bool
is_manager member = member.role == owner || member.role == co_owner

abbrev pub has_id : ℕ → HouseholdMember → Bool
has_id i member = member.id == i

-- `_lock_household_members`: the rows of one household; `.get(id)` is `find? (has_id id)`.
unfoldable pub lock_household_members : ℕ → Database → List HouseholdMember
unfolding select
lock_household_members household_id db = select (λ m. m.household_id == household_id) db.members

-- `actor_member is None or actor_member.role not in {...}`
abbrev pub require_manager : Option HouseholdMember → Handler HouseholdMember
require_manager none = raise (app_error 403 household_role_forbidden)
require_manager (some actor) =
    if is_manager actor then pure actor else raise (app_error 403 household_role_forbidden)

-- The last assignments of `patch_member_role`: an owner who makes another member an owner
-- becomes a co-owner.
unfoldable pub assign_role :
    (actor target : HouseholdMember) → MemberRole → List HouseholdMember → List HouseholdMember
unfolding update
assign_role actor target next_role members =
    update (has_id target.id) (λ m. record m { role = next_role })
      (if next_role == owner && not (is_owner target) && not (actor.id == target.id)
        then update (has_id actor.id) (λ m. record m { role = co_owner }) members
        else members)

-- `patch_member_role` once the rows are found.
unfoldable pub change_role :
    Verdict
    → List HouseholdMember
    → (actor target : HouseholdMember) → User
    → MemberRole
    → Handler HouseholdMemberRead
unfolding assign_role count commit to_member_read
change_role verdict locked_members actor target target_user next_role = do
  raise_if (is_owner target && not (is_owner actor)) (app_error 403 household_role_forbidden)
  raise_if (next_role == owner && not (is_owner actor)) (app_error 403 household_role_forbidden)
  raise_if (is_owner target && not (next_role == owner) && leb (count is_owner locked_members) 1)
      (app_error 409 household_owner_required)
  modify (λ db. record db { members = assign_role actor target next_role db.members })
  commit verdict
  pure (to_member_read (record target { role = next_role }) target_user)

unfoldable pub patch_member_role :
    Verdict
    → Household
    → HouseholdMember
    → (member_id : ℕ) → MemberRole
    → Handler HouseholdMemberRead
unfolding lock_household_members find? change_role
patch_member_role verdict household actor_member member_id next_role = do
  locked_members ← query (lock_household_members household.id)
  target ←
      or_raise (app_error 404 household_member_not_found) (find? (has_id member_id) locked_members)
  actor ← require_manager (find? (has_id actor_member.id) locked_members)
  found_user ← query (λ db. find? (λ (u : User). u.id == target.user_id) db.users)
  target_user ← or_raise (app_error 404 household_member_not_found) found_user
  change_role verdict locked_members actor target target_user next_role

-- `removed_user.active_household_id = None`, if the removed member had this household selected.
abbrev pub deselect_household : (user_id household_id : ℕ) → List User → List User
deselect_household user_id household_id =
    update (λ (u : User). u.id == user_id && u.active_household_id == some household_id)
      (λ u. record u { active_household_id = none })

-- `remove_member` once the rows are found.
unfoldable pub remove_found :
    Verdict → Household → List HouseholdMember → (actor target : HouseholdMember) → Handler Unit
unfolding count commit update delete
remove_found verdict household locked_members actor target = do
  raise_if (is_owner target && not (is_owner actor)) (app_error 403 household_role_forbidden)
  raise_if (is_owner target && leb (count is_owner locked_members) 1)
      (app_error 409 household_owner_required)
  modify (λ db. record db {
    members = delete (has_id target.id) db.members;
    users = deselect_household target.user_id household.id db.users;
  })
  commit verdict
  emit (disconnect_member household.id target.user_id)

unfoldable pub remove_member :
    Verdict → Household → HouseholdMember → (member_id : ℕ) → Handler Unit
unfolding lock_household_members find? remove_found
remove_member verdict household actor_member member_id = do
  locked_members ← query (lock_household_members household.id)
  actor ← require_manager (find? (has_id actor_member.id) locked_members)
  target ←
      or_raise (app_error 404 household_member_not_found) (find? (has_id member_id) locked_members)
  remove_found verdict household locked_members actor target
