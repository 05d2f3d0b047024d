-- ===== src/Household/Invitations/Transitions.antt =====
-- household.py: the steps in the life of an invitation, as a relation between its rows.
use money_flow_service.Prelude.{
  false, ◌&&◌, some, ◌≤◌, arith, sym, subst, inr, inl, Bool-cases, [], refl, true, ◌++◌, Bool, ◌∙◌,
  ◌≡◌, ◌∷◌, List,
}
use money_flow_service.Prelude.Tables.{count-le-count, count-find?_also, find?, count, update}
use money_flow_service.Household.Invitations.{has_invitation_id, is_pending}
use money_flow_service.Models.{
  status_beq_iff, expired, revoked, accepted, pending, HouseholdInvitation, InvitationStatus,
}

-- Which status may follow which.
abbrev pub MayBecome : InvitationStatus → InvitationStatus → Type 0
MayBecome pending next = Unit
MayBecome accepted next = next ≡ accepted
MayBecome revoked next = next ≡ revoked
MayBecome expired next = next ≡ expired

-- One row before and after.
abbrev pub Follows : HouseholdInvitation → HouseholdInvitation → Type 0
Follows before after =
    (after.id ≡ before.id)
    × (after.household_id ≡ before.household_id)
    × (after.email ≡ before.email)
    × (after.role ≡ before.role)
    × (after.token_hash ≡ before.token_hash)
    × (after.expires_at ≡ before.expires_at)
    × MayBecome before.status after.status

-- A table before and after: every row is still there, in its place, and new ones stand behind.
abbrev pub Evolves : List HouseholdInvitation → List HouseholdInvitation → Type 0
Evolves [] later = Unit
Evolves (x ∷ xs) [] = ⊥
Evolves (x ∷ xs) (y ∷ ys) = Follows x y × Evolves xs ys

MayBecome-refl : (s : InvitationStatus) → MayBecome s s
MayBecome-refl pending = tt
MayBecome-refl accepted = refl
MayBecome-refl revoked = refl
MayBecome-refl expired = refl

MayBecome-trans : (a b c : InvitationStatus) → MayBecome a b → MayBecome b c → MayBecome a c
MayBecome-trans pending b c p q = tt
MayBecome-trans accepted b c p q = subst (λ t. MayBecome t c) p q
MayBecome-trans revoked b c p q = subst (λ t. MayBecome t c) p q
MayBecome-trans expired b c p q = subst (λ t. MayBecome t c) p q

Follows-refl : (x : HouseholdInvitation) → Follows x x
Follows-refl x = (refl, refl, refl, refl, refl, refl, MayBecome-refl x.status)

Follows-trans : (x y z : HouseholdInvitation) → Follows x y → Follows y z → Follows x z
Follows-trans x y z p q = (
  q.0 ∙ p.0,
  q.1 ∙ p.1,
  q.2 ∙ p.2,
  q.3 ∙ p.3,
  q.4 ∙ p.4,
  q.5 ∙ p.5,
  MayBecome-trans x.status y.status z.status p.6 q.6,
)

pub Evolves-refl : (xs : List HouseholdInvitation) → Evolves xs xs
Evolves-refl [] = tt
Evolves-refl (x ∷ xs) = (Follows-refl x, Evolves-refl xs)

pub Evolves-trans :
    (xs ys zs : List HouseholdInvitation) → Evolves xs ys → Evolves ys zs → Evolves xs zs
Evolves-trans [] ys zs p q = tt
Evolves-trans (x ∷ xs) [] zs p q = absurd p
Evolves-trans (x ∷ xs) (y ∷ ys) [] p q = absurd q
Evolves-trans (x ∷ xs) (y ∷ ys) (z ∷ zs) p q =
    (Follows-trans x y z p.0 q.0, Evolves-trans xs ys zs p.1 q.1)

pub Evolves-append : (xs ys : List HouseholdInvitation) → Evolves xs (xs ++ ys)
Evolves-append [] ys = tt
Evolves-append (x ∷ xs) ys = (Follows-refl x, Evolves-append xs ys)

pub Evolves-update :
    (p : HouseholdInvitation → Bool) (f : HouseholdInvitation → HouseholdInvitation)
    (xs : List HouseholdInvitation)
    → ((x : HouseholdInvitation) → p x ≡ true → Follows x (f x))
    → Evolves xs (update p f xs)
unfolding update
Evolves-update p f [] h = tt
Evolves-update p f (x ∷ xs) h = elim (Bool-cases (p x)) [
  | inl e ↦ rw e (h x e, Evolves-update p f xs h)
  | inr e ↦ rw e (Follows-refl x, Evolves-update p f xs h)
]

-- A pending row may get any status.
pub Follows-pending :
    (x y : HouseholdInvitation)
    → is_pending x ≡ true
    → (y.id ≡ x.id)
      × (y.household_id ≡ x.household_id)
      × (y.email ≡ x.email)
      × (y.role ≡ x.role)
      × (y.token_hash ≡ x.token_hash)
      × (y.expires_at ≡ x.expires_at)
    → Follows x y
Follows-pending x y p same = (
  same.0,
  same.1,
  same.2,
  same.3,
  same.4,
  same.5,
  subst (λ t. MayBecome t y.status) (sym ((status_beq_iff x.status pending).0 p)) tt,
)

Evolves-update_none :
    (p : HouseholdInvitation → Bool) (f : HouseholdInvitation → HouseholdInvitation)
    (xs : List HouseholdInvitation)
    → count p xs ≡ 0
    → Evolves xs (update p f xs)
unfolding update count
Evolves-update_none p f [] none_here = tt
Evolves-update_none p f (x ∷ xs) none_here = elim (Bool-cases (p x)) [
  | inl e ↦ absurd (ground arith)
  | inr e ↦ rw e (Follows-refl x, Evolves-update_none p f xs (ground arith))
]

-- An UPDATE by primary key touches the row that was found and no other.
pub Evolves-update_found :
    (q : HouseholdInvitation → Bool) (f : HouseholdInvitation → HouseholdInvitation)
    (xs : List HouseholdInvitation) (x : HouseholdInvitation)
    → count (has_invitation_id x.id) xs ≤ 1
    → find? q xs ≡ some x
    → Follows x (f x)
    → Evolves xs (update (has_invitation_id x.id) f xs)
unfolding update count find?
Evolves-update_found q f [] x unique found follows = tt
Evolves-update_found q f (y ∷ ys) x unique found follows = elim (Bool-cases (q y)) [
  | inl e ↦
      let same : y ≡ x = ground arith in
      let here : has_invitation_id x.id y ≡ true = ground arith in
      let none_left : count (has_invitation_id x.id) ys ≡ 0 = ground arith in
      rw here (
        subst (λ t. Follows t (f t)) (sym same) follows,
        Evolves-update_none (has_invitation_id x.id) f ys none_left,
      )
  | inr e ↦
      let found' : find? q ys ≡ some x = ground arith in
      let one = count-find?_also q (has_invitation_id x.id) ys found' (ground arith) in
      let fewer =
        count-le-count (λ z. q z && has_invitation_id x.id z) (has_invitation_id x.id) ys
          (λ z h. ground arith) in
      let elsewhere : has_invitation_id x.id y ≡ false = ground arith in
      rw elsewhere (Follows-refl y, Evolves-update_found q f ys x (ground arith) found' follows)
]
