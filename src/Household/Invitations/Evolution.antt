-- ===== src/Household/Invitations/Evolution.antt =====
-- household.py: what each request on invitations does to the stored ones, by `Evolves`.
use money_flow_service.Household.Invitations.Replacement.{
  replace_invitation-Replaced, create_invitation_ind, Replaced, undelivered_database,
  replaced_database,
}
use money_flow_service.Household.Invitations.{
  is_pending, InvitationSettings, revoke_at, is_revocable, accept_invitation_by_id,
  revoke_invitation, accept_invitation, set_status, is_overdue, accept_at, accept_invitation_record,
  accept_record, is_acceptable, has_invitation_id, mark_accepted, Surroundings,
}
use money_flow_service.Prelude.{
  ◌∙◌, ◌&&◌, nat_eq, Option-cases, nat_beq, inl, ◌==◌, ap, inr, Bool-cases, refl, some, [], arith,
  ◌∷◌, true, ◌++◌, ◌≡◌, ℕ, Bool, List,
}
use money_flow_service.Household.Invitations.Creation.{
  new_invitation, normalize_email, is_pending_for, create_invitation,
}
use money_flow_service.Models.{
  MemberRole, HouseholdMember, expired, Household, User, HouseholdInvitation, Database,
}
use money_flow_service.Prelude.Text.{Text}
use money_flow_service.Household.Invitations.Transitions.{
  Evolves-update_found, Evolves-refl, Evolves-trans, Evolves-append, Evolves-update,
  Follows-pending, Follows, Evolves,
}
use money_flow_service.Prelude.Tables.{
  count-append, count-update_same, update, find?, HasUniqueKey, count,
}
use money_flow_service.Household.Invitations.Acceptance.{accept_record_ind}
use money_flow_service.Session.{open_session, Session, Verdict, Outcome}

abbrev pub HasInvitationIds : Database → Type 0
HasInvitationIds db = HasUniqueKey (λ (inv : HouseholdInvitation). inv.id) db.invitations

-- A table with unique ids evolves into one with unique ids.
abbrev pub Moves : List HouseholdInvitation → List HouseholdInvitation → Type 0
Moves xs ys = Evolves xs ys × HasUniqueKey (λ (inv : HouseholdInvitation). inv.id) ys

abbrev pub MovesStored : {A : Type 0} → Database → Outcome A × Session → Type 0
MovesStored db result = Moves db.invitations result.1.stored.invitations

pub Moves-update :
    (p : HouseholdInvitation → Bool) (f : HouseholdInvitation → HouseholdInvitation)
    (xs : List HouseholdInvitation)
    → HasUniqueKey (λ (inv : HouseholdInvitation). inv.id) xs
    → ((x : HouseholdInvitation) → p x ≡ true → Follows x (f x))
    → Moves xs (update p f xs)
Moves-update p f xs unique h = (
  Evolves-update p f xs h,
  λ i. omega (
    arith,
    unique i,
    count-update_same p (has_invitation_id i) f xs (λ x e. ap (λ (n : ℕ). nat_beq n i) (h x e).0),
  ),
)

pub Moves-append :
    (xs : List HouseholdInvitation) (x : HouseholdInvitation)
    → HasUniqueKey (λ (inv : HouseholdInvitation). inv.id) xs
    → count (has_invitation_id x.id) xs ≡ 0
    → Moves xs (xs ++ x ∷ [])
unfolding count
Moves-append xs x unique fresh = (
  Evolves-append xs (x ∷ []),
  λ i. ground (arith, count-append (has_invitation_id i) xs (x ∷ []), unique i, fresh),
)

mark_accepted-Moves :
    (i now user_id : ℕ) (xs : List HouseholdInvitation)
    → HasUniqueKey (λ (inv : HouseholdInvitation). inv.id) xs
    → Moves xs (mark_accepted i now user_id xs)
unfolding mark_accepted
mark_accepted-Moves i now user_id xs unique =
    Moves-update (is_acceptable i now) (accept_at now user_id) xs unique (λ x h.
      Follows-pending x (accept_at now user_id x) (ground arith)
        (refl, refl, refl, refl, refl, refl))

-- The database in which an overdue invitation was marked as expired.
abbrev pub expired_database : Database → HouseholdInvitation → Database
expired_database db invitation = record db {
  invitations = update (has_invitation_id invitation.id) (set_status expired) db.invitations;
}

module _ (env : Surroundings) (verdict : Verdict) (user : User) (db : Database)
    (unique : HasInvitationIds db) where
  accept_record-Moves :
      (invitation : HouseholdInvitation) (db' : Database)
      → Moves db.invitations db'.invitations
      → MovesStored db (accept_record env verdict user invitation (open_session db'))
  accept_record-Moves invitation db' moved =
      accept_record_ind env verdict user invitation (open_session db') (MovesStored db)
        (λ e w. moved)
        (λ _ _ _.
          let accepts = mark_accepted-Moves invitation.id env.now user.id db'.invitations moved.1 in
          (Evolves-trans db.invitations db'.invitations _ moved.0 accepts.0, accepts.1))

  expire-Moves :
      (q : HouseholdInvitation → Bool) (invitation : HouseholdInvitation)
      → is_overdue env.now invitation ≡ true
      → find? q db.invitations ≡ some invitation
      → Moves db.invitations
          (update (has_invitation_id invitation.id) (set_status expired) db.invitations)
  expire-Moves q invitation overdue found = (
    Evolves-update_found q (set_status expired) db.invitations invitation (unique invitation.id)
        found
        (Follows-pending invitation (set_status expired invitation) (ground arith)
          (refl, refl, refl, refl, refl, refl)),
    λ i. omega (
      arith,
      unique i,
      count-update_same (has_invitation_id invitation.id) (has_invitation_id i) (set_status expired)
          db.invitations (λ x e. refl),
    ),
  )

  accept_invitation_record-Moves :
      (q : HouseholdInvitation → Bool) (invitation : HouseholdInvitation)
      → find? q db.invitations ≡ some invitation
      → MovesStored db (accept_invitation_record env verdict user invitation (open_session db))
  unfolding accept_invitation_record
  accept_invitation_record-Moves q invitation found =
      elim (Bool-cases (is_overdue env.now invitation)) [
        | inr e ↦ rw e (accept_record-Moves invitation db (Evolves-refl db.invitations, unique))
        | inl e ↦ rw e (elim (Option-cases (verdict (expired_database db invitation))) [
          | inr (v, b) ↦ rw b (Evolves-refl db.invitations, unique)
          | inl b ↦ rw b (
              accept_record-Moves (record invitation { status = expired })
                (expired_database db invitation) (expire-Moves q invitation e found))
        ])
      ]

  pub accept_invitation-Moves :
      (token : ℕ) → MovesStored db (accept_invitation env verdict user token (open_session db))
  unfolding accept_invitation
  accept_invitation-Moves token =
      let q : HouseholdInvitation → Bool = λ inv. inv.token_hash == env.hash_opaque_token token in
      elim (Option-cases (find? q db.invitations)) [
        | inl e ↦ rw e (Evolves-refl db.invitations, unique)
        | inr (invitation, e) ↦ rw e (accept_invitation_record-Moves q invitation e)
      ]

  pub accept_invitation_by_id-Moves :
      (invitation_id : ℕ)
      → MovesStored db (accept_invitation_by_id env verdict user invitation_id (open_session db))
  unfolding accept_invitation_by_id
  accept_invitation_by_id-Moves invitation_id =
      elim (Option-cases (find? (has_invitation_id invitation_id) db.invitations)) [
        | inl e ↦ rw e (Evolves-refl db.invitations, unique)
        | inr (invitation, e) ↦
            rw e (accept_invitation_record-Moves (has_invitation_id invitation_id) invitation e)
      ]

module _ (env : Surroundings) (verdict : Verdict) (db : Database)
    (unique : HasInvitationIds db) where
  pub revoke_invitation-Moves :
      (household : Household) (invitation_id : ℕ)
      → MovesStored db (revoke_invitation env verdict household invitation_id (open_session db))
  unfolding revoke_invitation
  revoke_invitation-Moves household invitation_id =
      let revokes =
        Moves-update (is_revocable invitation_id household.id) (revoke_at env.now) db.invitations
          unique
          (λ x h.
            Follows-pending x (revoke_at env.now x) (ground arith)
              (refl, refl, refl, refl, refl, refl)) in
      let same : Moves db.invitations db.invitations = (Evolves-refl db.invitations, unique) in
      elim (Option-cases (
        find? (λ inv. has_invitation_id invitation_id inv && inv.household_id == household.id)
          db.invitations)) [
            | inl e ↦ rw e same
            | inr (invitation, e) ↦
                rw e
                  (elim (Bool-cases
                    (count (is_revocable invitation_id household.id) db.invitations == 1)) [
                      | inr c ↦ rw c same
                      | inl c ↦
                          rw c
                            (elim (Option-cases (
                              verdict (record db {
                                invitations =
                                    update (is_revocable invitation_id household.id)
                                      (revoke_at env.now) db.invitations;
                              }))) [ inr (v, b) ↦ rw b same | inl b ↦ rw b revokes ])
                    ])
          ]

Moves-trans : (xs ys zs : List HouseholdInvitation) → Moves xs ys → Moves ys zs → Moves xs zs
Moves-trans xs ys zs p q = (Evolves-trans xs ys zs p.0 q.0, q.1)

module _ (env : Surroundings) (db : Database) (unique : HasInvitationIds db)
    (fresh : count (has_invitation_id env.fresh_id) db.invitations ≡ 0) where
  replaced_database-Moves :
      (settings : InvitationSettings) (household_id user_id : ℕ) (email : Text) (role : MemberRole)
      → Moves db.invitations
          (replaced_database env settings household_id user_id email role db).invitations
  replaced_database-Moves settings household_id user_id email role =
      let revoke : HouseholdInvitation → HouseholdInvitation = revoke_at env.now in
      let rows = update (is_pending_for household_id email) revoke db.invitations in
      let revokes =
        Moves-update (is_pending_for household_id email) revoke db.invitations unique (λ x h.
          Follows-pending x (revoke x) (ground arith) (refl, refl, refl, refl, refl, refl)) in
      let still_fresh =
        count-update_same (is_pending_for household_id email) (has_invitation_id env.fresh_id)
          revoke db.invitations (λ x h. refl) in
      let adds =
        Moves-append rows (new_invitation env settings household_id user_id email role) revokes.1
          (still_fresh ∙ fresh) in
      Moves-trans db.invitations rows _ revokes adds

  pub create_invitation-Moves :
      (settings : InvitationSettings) (verdict verdict' : Verdict) (household : Household)
      (actor_member : HouseholdMember) (user : User) (email : Text) (role : MemberRole)
      → MovesStored db (
          create_invitation env settings verdict verdict' household actor_member user email role
            (open_session db))
  create_invitation-Moves settings verdict verdict' household actor_member user email role =
      create_invitation_ind env settings verdict verdict' household actor_member user email role
        (open_session db) (MovesStored db) (λ e. same)
        (λ _ _ _ _ _. stored _ (
          replace_invitation-Replaced env settings verdict verdict' household.id user.id
            (normalize_email email) role db))
    where
      same : Moves db.invitations db.invitations
      same = (Evolves-refl db.invitations, unique)

      replaced : Database
      replaced = replaced_database env settings household.id user.id (normalize_email email) role db

      moved : Moves db.invitations replaced.invitations
      moved = replaced_database-Moves settings household.id user.id (normalize_email email) role

      withdrawn : Moves db.invitations (undelivered_database env replaced).invitations
      withdrawn = Moves-trans db.invitations replaced.invitations _ moved (
          Moves-update (λ inv. has_invitation_id env.fresh_id inv && is_pending inv)
            (revoke_at env.now) replaced.invitations moved.1
            (λ x h.
              Follows-pending x (revoke_at env.now x) (ground arith)
                (refl, refl, refl, refl, refl, refl)))

      stored :
          (result : Outcome HouseholdInvitation × Session)
          → Replaced env settings household.id user.id (normalize_email email) role db result
          → MovesStored db result
      stored result (Replaced.not_written e) = rw e same
      stored result (Replaced.delivered e _) = rw e moved
      stored result (Replaced.undelivered (inl e) _) = rw e withdrawn
      stored result (Replaced.undelivered (inr e) _) = rw e moved
