-- ===== src/Access/Grants.antt =====
-- Whom the guards of deps.py let through.
use money_flow_service.Prelude.{
  sym, refl, nat_beq_iff, nat_eq, leb, ◌∙◌, [], inr, Option-cases, Bool-cases, ◌⊎◌, true, ◌==◌,
  none, inl, false, some, ◌∷◌, ◌≡◌, Bool, List, ℕ, Option,
}
use money_flow_service.Prelude.Tables.{find?-holds, find?, select}
use money_flow_service.Models.{Household, User, MemberRole, HouseholdMember}
use money_flow_service.Session.{ok, raised, Outcome, Session}
use money_flow_service.Access.{
  Context, memberships_of, get_current_household, select_member, require_household, sort_members,
  insert_member, by_household_id,
}
use money_flow_service.Errors.{AppError}

-- The row stands in the table.
abbrev pub IsRow : HouseholdMember → List HouseholdMember → Type 0
IsRow m [] = false ≡ true
IsRow m (n ∷ ns) = (m ≡ n) ⊎ IsRow m ns

insert_member-IsRow :
    (m n : HouseholdMember) (ns : List HouseholdMember)
    → IsRow m (insert_member n ns)
    → (m ≡ n) ⊎ IsRow m ns
unfolding insert_member
insert_member-IsRow m n [] h = h
insert_member-IsRow m n (k ∷ ks) h = elim (Bool-cases (leb n.created_at k.created_at)) [
  | inl e ↦ rw e at h
  | inr e ↦ elim (rw e at h) [
    | inl same ↦ inr (inl same)
    | inr later ↦ elim (insert_member-IsRow m n ks later) [
      | inl same ↦ inl same
      | inr rest ↦ inr (inr rest)
    ]
  ]
]

sort_members-IsRow :
    (m : HouseholdMember) (ms : List HouseholdMember) → IsRow m (sort_members ms) → IsRow m ms
unfolding sort_members
sort_members-IsRow m [] h = h
sort_members-IsRow m (n ∷ ns) h = elim (insert_member-IsRow m n (sort_members ns) h) [
  | inl same ↦ inl same
  | inr rest ↦ inr (sort_members-IsRow m ns rest)
]

select-IsRow :
    (p : HouseholdMember → Bool) (m : HouseholdMember) (ms : List HouseholdMember)
    → IsRow m (select p ms)
    → IsRow m ms × (p m ≡ true)
unfolding select
select-IsRow p m [] h = cc h
select-IsRow p m (n ∷ ns) h = elim (Bool-cases (p n)) [
  | inl e ↦ elim (rw e at h) [
    | inl same ↦ (inl same, rw same e)
    | inr later ↦ let (row, ok_row) = select-IsRow p m ns later in (inr row, ok_row)
  ]
  | inr e ↦ let (row, ok_row) = select-IsRow p m ns (rw e at h) in (inr row, ok_row)
]

by_household_id-IsRow :
    (i : ℕ) (ms : List HouseholdMember) {m : HouseholdMember}
    → by_household_id i ms ≡ some m
    → IsRow m ms × (m.household_id == i ≡ true)
unfolding by_household_id
by_household_id-IsRow i [] h = cc
by_household_id-IsRow i (n ∷ ns) {m} h = elim (Option-cases (by_household_id i ns)) [
  | inr (k, e) ↦
      let (row, here) = by_household_id-IsRow i ns {m = m} (e ∙ (rw e at h)) in (inr row, here)
  | inl e ↦ elim (Bool-cases (n.household_id == i)) [
    | inl x ↦
        let found : some n ≡ some m = rw (e, x) at h in
        let same : m ≡ n = cc in (inl same, rw same x)
    | inr x ↦ cc (rw (e, x) at h)
  ]
]

-- The header, if there is one, names the household.
abbrev pub IsRequested : Option ℕ → HouseholdMember → Type 0
IsRequested none m = Unit
IsRequested (some i) m = m.household_id ≡ i

select_member_ind :
    (requested active : Option ℕ) (ms : List HouseholdMember) (s : Session)
    (P : Outcome HouseholdMember × Session → Type 0)
    → ((e : AppError) → P (raised e, s))
    → ((m : HouseholdMember) → IsRow m ms → IsRequested requested m → P (ok m, s))
    → P (select_member requested active ms s)
unfolding select_member
select_member_ind requested active [] s P refused granted = refused _
select_member_ind (some i) active (m ∷ ms) s P refused granted =
    elim (Option-cases (by_household_id i (m ∷ ms))) [
      | inl e ↦ rw e (refused _)
      | inr (n, e) ↦
          let (row, here) = by_household_id-IsRow i (m ∷ ms) e in
          rw e (granted n row ((nat_beq_iff n.household_id i).0 here))
    ]
select_member_ind none none (m ∷ ms) s P refused granted = granted m (inl refl) tt
select_member_ind none (some i) (m ∷ ms) s P refused granted =
    elim (Option-cases (by_household_id i (m ∷ ms))) [
      | inl e ↦ rw e (granted m (inl refl) tt)
      | inr (n, e) ↦ rw e (granted n (by_household_id-IsRow i (m ∷ ms) e).0 tt)
    ]

select_member_cases :
    (requested : Option ℕ) (user : User) (s : Session)
    → ((m : HouseholdMember) × (select_member requested user.active_household_id
            (memberships_of user.id s.working)
            s
          ≡ (ok m, s))
        × IsRow m (memberships_of user.id s.working)
        × IsRequested requested m)
      ⊎ ((e : AppError) × (select_member requested user.active_household_id
              (memberships_of user.id s.working)
              s
            ≡ (raised e, s)))
select_member_cases requested user s =
    select_member_ind requested user.active_household_id (memberships_of user.id s.working) s
      (λ r.
        ((m : HouseholdMember) × (r ≡ (ok m, s))
          × IsRow m (memberships_of user.id s.working)
          × IsRequested requested m)
        ⊎ ((e : AppError) × (r ≡ (raised e, s))))
      (λ e. inr (e, refl)) (λ m row asked. inl (m, refl, row, asked))

-- What a guard promises: the context is that of a stored membership of the user, in the household that
-- was asked for, with an accepted role; and the session is left as it was.
abbrev pub IsGranted :
    (MemberRole → Bool) → Option ℕ → User → Session → Outcome Context × Session → Type 0
IsGranted accepts requested user s (ok (household, member), s') =
    IsRow member s.working.members
    × (member.user_id ≡ user.id)
    × (member.household_id ≡ household.id)
    × IsRequested requested member
    × (accepts member.role ≡ true)
    × (s' ≡ s)
IsGranted accepts requested user s (raised e, s') = s' ≡ s

-- If a guard of deps.py lets a request through, its context is a stored household membership of the user
-- and that household, which is the one of the header `x-household-id` if that is given, and the role is
-- one that the guard accepts; whether it raises or not, the session is as before.
pub require_household-IsGranted :
    (accepts : MemberRole → Bool) (requested : Option ℕ) (user : User) (s : Session)
    → IsGranted accepts requested user s (require_household accepts requested user s)
unfolding require_household get_current_household memberships_of
require_household-IsGranted accepts requested user s = elim (select_member_cases requested user s) [
  | inr (e, chosen) ↦ rw (IsGranted, chosen) refl
  | inl (m, chosen, row, asked) ↦
      let (stored, mine) =
        select-IsRow (λ (m : HouseholdMember). m.user_id == user.id) m s.working.members
          (sort_members-IsRow m
            (select (λ (m : HouseholdMember). m.user_id == user.id) s.working.members) row) in
      let table = s.working.households in
      elim (Option-cases (find? (λ (h : Household). h.id == m.household_id) table)) [
        | inl e ↦ rw (IsGranted, chosen, e) refl
        | inr (household, e) ↦
            let found : household.id == m.household_id ≡ true =
              find?-holds (λ (h : Household). h.id == m.household_id) table e in
            elim (Bool-cases (accepts m.role)) [
              | inr r ↦ rw (IsGranted, chosen, e, r) refl
              | inl r ↦
                  rw (IsGranted, chosen, e, r)
                    (
                      stored,
                      (nat_beq_iff m.user_id user.id).0 mine,
                      sym ((nat_beq_iff household.id m.household_id).0 found),
                      asked,
                      r,
                      refl,
                    )
            ]
      ]
]
