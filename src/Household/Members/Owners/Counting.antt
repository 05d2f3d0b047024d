-- ===== src/Household/Members/Owners/Counting.antt =====
-- How many owners a household has after an UPDATE or a DELETE of its members (household.py).
use money_flow_service.Prelude.{
  inr, inl, Bool-cases, leb, ℕ, ◌≤◌, ◌≡◌, Bool, true, false, some, ◌==◌, nat_eq, arith, ◌&&◌, not,
}
use money_flow_service.Prelude.Tables.{
  count-update, count-split, count-delete, update, count-select, delete, count-find?_also, find?,
  count, HasUniqueKey, find?-select, count-find?, count-le-count, count-unique_other,
}
use money_flow_service.Models.{MemberRole, role_eq, HouseholdMember, Database}
use money_flow_service.Household.Members.{is_owner, has_id, lock_household_members}

-- An owner of this household.
abbrev pub owner_of : ℕ → HouseholdMember → Bool
owner_of household_id m = m.household_id == household_id && is_owner m

-- The locked rows of one household of a database with unique ids, and a row found in them.
module _ (household_id : ℕ) (db : Database)
    (unique : HasUniqueKey (λ (m : HouseholdMember). m.id) db.members) {target : HouseholdMember}
    (found : find? (has_id target.id) (lock_household_members household_id db) ≡ some target) where
  abbrev in_household : HouseholdMember → Bool
  in_household m = m.household_id == household_id

  -- No row with the id of the found one lies in another household.
  pub count-elsewhere :
      (q : HouseholdMember → Bool)
      → ((m : HouseholdMember) → q m ≡ true → in_household m ≡ false)
      → count (λ m. has_id target.id m && q m) db.members ≡ 0
  unfolding lock_household_members
  count-elsewhere q apart =
      let none_other =
        count-unique_other (λ m. m.id) in_household target.id db.members unique found in
      let fewer =
        count-le-count (λ m. has_id target.id m && q m)
          (λ m. has_id target.id m && not (in_household m)) db.members
          (λ m h. ground (arith, apart m)) in
      omega arith

  pub count-here : 1 ≤ count (λ m. has_id target.id m && in_household m) db.members
  unfolding lock_household_members
  count-here =
      let found' : find? (λ m. in_household m && has_id target.id m) db.members ≡ some target =
        rw (find?-select (has_id target.id) in_household db.members) at found in
      let one = count-find? (λ m. in_household m && has_id target.id m) db.members found' in
      let swap =
        count-le-count (λ m. in_household m && has_id target.id m)
          (λ m. has_id target.id m && in_household m) db.members (λ m h. ground arith) in
      omega arith

  pub count-at_most_one :
      (q : HouseholdMember → Bool) → count (λ m. has_id target.id m && q m) db.members ≤ 1
  count-at_most_one q =
      let fewer =
        count-le-count (λ m. has_id target.id m && q m) (has_id target.id) db.members
          (λ m h. ground arith) in
      omega (arith, unique target.id)

  -- The found row stands for every row with its id.
  pub count-target :
      (q : HouseholdMember → Bool)
      → q target ≡ false
      → count (λ m. has_id target.id m && q m) db.members ≡ 0
  unfolding lock_household_members
  count-target q fails =
      let found' : find? (λ m. in_household m && has_id target.id m) db.members ≡ some target =
        rw (find?-select (has_id target.id) in_household db.members) at found in
      let one =
        count-find?_also (λ m. in_household m && has_id target.id m) (λ m. not (q m)) db.members
          found' (rw fails) in
      let swap =
        count-le-count (λ m. (in_household m && has_id target.id m) && not (q m))
          (λ m. has_id target.id m && not (q m)) db.members (λ m h. ground arith) in
      omega (arith, unique target.id, count-split (has_id target.id) q db.members)

  -- Changing the role of the found row leaves the owners of every other household.
  pub count-update_elsewhere :
      (h : ℕ) (role : MemberRole)
      → (h == household_id) ≡ false
      → count (owner_of h) db.members
        ≤ count (owner_of h) (update (has_id target.id) (λ m. record m { role = role }) db.members)
  count-update_elsewhere h role other = omega (
    arith,
    count-update (has_id target.id) (owner_of h) (λ m. record m { role = role }) db.members,
    count-elsewhere (owner_of h) (λ m k. ground arith),
  )

  pub count-delete_elsewhere :
      (h : ℕ)
      → (h == household_id) ≡ false
      → count (owner_of h) db.members ≤ count (owner_of h) (delete (has_id target.id) db.members)
  count-delete_elsewhere h other = omega (
    arith,
    count-delete (has_id target.id) (owner_of h) db.members,
    count-elsewhere (owner_of h) (λ m k. ground arith),
  )

  -- `owner_count` of the code counts the owners of the household.
  pub count-locked :
      count is_owner (lock_household_members household_id db)
      ≡ count (owner_of household_id) db.members
  unfolding lock_household_members
  count-locked = count-select is_owner in_household db.members

  -- What the guard on the last owner is for: one row less leaves an owner.
  pub count-delete_guarded :
      (is_owner target && leb (count is_owner (lock_household_members household_id db)) 1) ≡ false
      → 1 ≤ count (owner_of household_id) db.members
      → 1 ≤ count (owner_of household_id) (delete (has_id target.id) db.members)
  count-delete_guarded guard has = elim (Bool-cases (is_owner target)) [
    | inl e ↦ omega (
      arith,
      count-delete (has_id target.id) (owner_of household_id) db.members,
      count-at_most_one (owner_of household_id),
      count-locked,
      two_owners e,
    )
    | inr e ↦ omega (
      arith,
      count-delete (has_id target.id) (owner_of household_id) db.members,
      count-target (owner_of household_id) (ground arith),
    )
  ]
    where
      two_owners :
          is_owner target ≡ true → 2 ≤ count is_owner (lock_household_members household_id db)
      two_owners e = ground arith

  pub count-demote_guarded :
      (role : MemberRole)
      → (is_owner target && leb (count is_owner (lock_household_members household_id db)) 1) ≡ false
      → 1 ≤ count (owner_of household_id) db.members
      → 1
        ≤ count
            (owner_of household_id)
            (update (has_id target.id) (λ m. record m { role = role }) db.members)
  count-demote_guarded role guard has = elim (Bool-cases (is_owner target)) [
    | inl e ↦ omega (
      arith,
      count-update (has_id target.id) (owner_of household_id) (λ m. record m { role = role })
          db.members,
      count-at_most_one (owner_of household_id),
      count-locked,
      two_owners e,
    )
    | inr e ↦ omega (
      arith,
      count-update (has_id target.id) (owner_of household_id) (λ m. record m { role = role })
          db.members,
      count-target (owner_of household_id) (ground arith),
    )
  ]
    where
      two_owners :
          is_owner target ≡ true → 2 ≤ count is_owner (lock_household_members household_id db)
      two_owners e = ground arith
