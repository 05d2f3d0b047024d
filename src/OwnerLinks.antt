-- ===== src/OwnerLinks.antt =====
-- backend/app/services/owner_links.py with `normalize_optional_text` of services/profile.py: whose
-- transaction or holding it is, and display names within a household.
use money_flow_service.Prelude.{
  Bool-cases, inr, inl, Option-cases, ◌⊎◌, ◌≡◌, [], ◌∷◌, option_eq, nat_eq, not, none, List,
  if◌then◌else◌, ◌==◌, ◌&&◌, some, Bool, Option, ℕ,
}
use money_flow_service.Session.{
  raised, ok, Session, raise_if, or_raise, query, ◌>>=◌, pure, Handler,
}
use money_flow_service.Errors.{AppError, household_member_display_name_duplicate, app_error, Code}
use money_flow_service.Prelude.Text.{
  is_empty, text_eq, or_empty, or_none, Text, is_space, lower, strip,
}
use money_flow_service.Models.{Transaction, HouseholdMember, User, Database}
use money_flow_service.Prelude.Tables.{exists, find?, select}

-- services/profile.py, `normalize_optional_text`
unfoldable pub normalize_optional_text : Option Text → Option Text
unfolding strip
normalize_optional_text value = or_none (strip (or_empty value))

-- `HouseholdMember.household_id == household_id`, joined with the user's id.
abbrev pub is_membership : (household_id user_id : ℕ) → HouseholdMember → Bool
is_membership household_id user_id m = m.household_id == household_id && m.user_id == user_id

unfoldable pub is_member : Database → (household_id user_id : ℕ) → Bool
unfolding exists
is_member db household_id user_id = exists (is_membership household_id user_id) db.members

unfoldable pub get_household_member_user : ℕ → Option ℕ → Database → Option User
unfolding find? is_member
get_household_member_user household_id none db = none
get_household_member_user household_id (some user_id) db =
    find? (λ u. u.id == user_id && is_member db household_id u.id) db.users

-- `" ".join(text.split())` of a text that was stripped: each run of spaces becomes one.
unfoldable pub collapse_spaces : Text → Text
unfolding is_space
collapse_spaces [] = []
collapse_spaces (c ∷ []) = if is_space c then [] else c ∷ []
collapse_spaces (c ∷ d ∷ cs) =
    let rest = collapse_spaces (d ∷ cs) in
    if is_space c then (if is_space d then rest else 32 ∷ rest) else c ∷ rest

unfoldable pub normalize_legacy_owner_name : Option Text → Option Text
unfolding normalize_optional_text collapse_spaces
normalize_legacy_owner_name value = elim (normalize_optional_text value) [
  | none ↦ none
  | some s ↦ or_none (collapse_spaces s)
]

unfoldable pub legacy_owner_name_key : Option Text → Text
unfolding normalize_legacy_owner_name lower
legacy_owner_name_key value = lower (or_empty (normalize_legacy_owner_name value))

unfoldable pub require_household_member_user : ℕ → Option ℕ → Code → Handler User
unfolding get_household_member_user
require_household_member_user household_id user_id code = do
  user ← query (get_household_member_user household_id user_id)
  or_raise (app_error 400 code) user

-- `matches[0]` if `len(matches) == 1`
abbrev pub the_only : List User → Option User
the_only (u ∷ []) = some u
the_only us = none

unfoldable pub find_unique_household_member_by_display_name :
    ℕ → Option Text → Database → Option User
unfolding legacy_owner_name_key select is_member
find_unique_household_member_by_display_name household_id display_name db =
    let owner_key = legacy_owner_name_key display_name in
    let matches =
      select
        (λ u.
          is_member db household_id u.id
          && legacy_owner_name_key (some u.display_name) == owner_key)
        db.users in
    if is_empty owner_key then none else the_only matches

-- The users of the household, but the given one, whose display name is the same up to case.
abbrev pub is_namesake : Database → (household_id user_id : ℕ) → Text → User → Bool
is_namesake db household_id user_id normalized u =
    is_member db household_id u.id
    && not (u.id == user_id)
    && lower u.display_name == lower normalized

abbrev pub ensure_unique_name : (household_id user_id : ℕ) → Option Text → Handler Unit
ensure_unique_name household_id user_id none = pure tt
ensure_unique_name household_id user_id (some normalized) = do
  duplicate ← query (λ db. exists (is_namesake db household_id user_id normalized) db.users)
  raise_if duplicate (app_error 409 household_member_display_name_duplicate)

unfoldable pub ensure_unique_household_member_display_name :
    (household_id user_id : ℕ) → Option Text → Handler Unit
unfolding normalize_optional_text exists is_member lower
ensure_unique_household_member_display_name household_id user_id display_name =
    ensure_unique_name household_id user_id (normalize_optional_text display_name)

unfoldable pub resolve_owner_fields :
    ℕ → Option ℕ → Option Text → Code → Handler (Option ℕ × Option Text)
unfolding normalize_optional_text require_household_member_user
resolve_owner_fields household_id none owner_name invalid_code =
    pure (none, normalize_optional_text owner_name)
resolve_owner_fields household_id (some owner_user_id) owner_name invalid_code = do
  user ← require_household_member_user household_id (some owner_user_id) invalid_code
  pure (some user.id, normalize_optional_text (some user.display_name))

-- One entity of `backfill_owner_links_for_household`: linked if its owner's name names one member.
unfoldable pub backfill_transaction : Database → (household_id : ℕ) → Transaction → Transaction
unfolding find_unique_household_member_by_display_name
backfill_transaction db household_id entity =
    if entity.household_id == household_id && entity.owner_user_id == none
    then (elim (find_unique_household_member_by_display_name household_id entity.owner_name db) [
      | none ↦ entity
      | some user ↦ record entity { owner_user_id = some user.id }
    ])
    else entity

-- The check either passes or raises, and leaves the session.
pub ensure_unique_cases :
    (household_id user_id : ℕ) (display_name : Option Text) (s : Session)
    → (ensure_unique_household_member_display_name household_id user_id display_name s ≡ (ok tt, s))
      ⊎ ((e : AppError) × (ensure_unique_household_member_display_name household_id user_id
              display_name s
            ≡ (raised e, s)))
unfolding ensure_unique_household_member_display_name
ensure_unique_cases household_id user_id display_name s =
    elim (Option-cases (normalize_optional_text display_name)) [
      | inl e ↦ inl (rw e)
      | inr (n, e) ↦
          elim (Bool-cases
            (exists (is_namesake s.working household_id user_id n) s.working.users)) [
              | inl d ↦ inr (app_error 409 household_member_display_name_duplicate, rw (e, d))
              | inr d ↦ inl (rw (e, d))
            ]
    ]
