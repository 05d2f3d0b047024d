-- ===== src/Access.antt =====
-- backend/app/api/deps.py: in which household a request acts, and with what role. Authentication
-- (`get_current_user`) comes before and is not modelled here.
pub mod Grants
use money_flow_service.Prelude.{
  nat_eq, not, leb, false, [], true, ◌==◌, if◌then◌else◌, ◌∷◌, some, none, Bool, Option, List, ℕ,
}
use money_flow_service.Session.{pure, or_raise, query, raise_if, ◌>>=◌, raise, ◌>>◌, Handler}
use money_flow_service.Errors.{
  household_not_found, household_access_forbidden, household_role_forbidden,
  household_membership_missing, app_error,
}
use money_flow_service.Models.{
  Database, User, HouseholdMember, Household, MemberRole, owner, co_owner, editor, viewer,
}
use money_flow_service.Prelude.Tables.{select, find?}

-- `order_by(HouseholdMember.created_at.asc())`
unfoldable pub insert_member : HouseholdMember → List HouseholdMember → List HouseholdMember
insert_member m [] = m ∷ []
insert_member m (n ∷ ns) =
    let rest = insert_member m ns in if leb m.created_at n.created_at then m ∷ n ∷ ns else n ∷ rest

unfoldable pub sort_members : List HouseholdMember → List HouseholdMember
unfolding insert_member
sort_members [] = []
sort_members (m ∷ ms) = insert_member m (sort_members ms)

unfoldable pub memberships_of : (user_id : ℕ) → Database → List HouseholdMember
unfolding sort_members select
memberships_of user_id db = sort_members (select (λ m. m.user_id == user_id) db.members)

abbrev or_else : Option HouseholdMember → Option HouseholdMember → Option HouseholdMember
or_else none other = other
or_else (some m) other = some m

-- `by_household_id.get(id)`: of two rows with one key, a dict comprehension keeps the later.
unfoldable pub by_household_id : (household_id : ℕ) → List HouseholdMember → Option HouseholdMember
by_household_id household_id [] = none
by_household_id household_id (m ∷ ms) =
    or_else (by_household_id household_id ms)
      (if m.household_id == household_id then some m else none)

abbrev of_active : Option ℕ → List HouseholdMember → Option HouseholdMember
of_active none memberships = none
of_active (some household_id) memberships = by_household_id household_id memberships

-- The membership that a request acts with, by the header `x-household-id` if there is one.
unfoldable pub select_member :
    (requested active : Option ℕ) → List HouseholdMember → Handler HouseholdMember
unfolding by_household_id
select_member requested active [] = raise (app_error 403 household_membership_missing)
select_member (some household_id) active (m ∷ ms) =
    or_raise (app_error 403 household_access_forbidden) (by_household_id household_id (m ∷ ms))
select_member none active (m ∷ ms) =
    or_raise (app_error 403 household_access_forbidden)
      (or_else (of_active active (m ∷ ms)) (some m))

abbrev pub Context : Type 0
Context = Household × HouseholdMember

unfoldable pub get_current_household : (requested : Option ℕ) → User → Handler Context
unfolding memberships_of select_member find?
get_current_household requested user = do
  memberships ← query (memberships_of user.id)
  member ← select_member requested user.active_household_id memberships
  row ← query (λ db. find? (λ (h : Household). h.id == member.household_id) db.households)
  household ← or_raise (app_error 404 household_not_found) row
  pure (household, member)

-- The three guards differ in the roles that they accept.
abbrev pub can_edit : MemberRole → Bool
can_edit viewer = false
can_edit _ = true

abbrev pub can_manage : MemberRole → Bool
can_manage owner = true
can_manage co_owner = true
can_manage _ = false

abbrev pub can_own : MemberRole → Bool
can_own owner = true
can_own _ = false

abbrev require_role : (MemberRole → Bool) → Context → Handler Context
require_role accepts (household, member) = do
  raise_if (not (accepts member.role)) (app_error 403 household_role_forbidden)
  pure (household, member)

unfoldable pub require_household :
    (MemberRole → Bool) → (requested : Option ℕ) → User → Handler Context
unfolding get_current_household
require_household accepts requested user = do
  context ← get_current_household requested user
  require_role accepts context

unfoldable pub require_editor_household : (requested : Option ℕ) → User → Handler Context
unfolding require_household
require_editor_household = require_household can_edit

unfoldable pub require_co_owner_household : (requested : Option ℕ) → User → Handler Context
unfolding require_household
require_co_owner_household = require_household can_manage

unfoldable pub require_owner_household : (requested : Option ℕ) → User → Handler Context
unfolding require_household
require_owner_household = require_household can_own
