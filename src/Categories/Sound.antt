-- ===== src/Categories/Sound.antt =====
-- Soundness of the transactions through changes of the categories (categories.py).
use money_flow_service.Prelude.{
  none, if◌then◌else◌, not, refl, Bool-cases, nat_eq, option_eq, [], inr, ◌∷◌, inl, arith, ◌++◌,
  Option-cases, Option, false, true, some, ◌≡◌, ◌==◌, Bool, ℕ, List,
}
use mathlib.Core.Option
use money_flow_service.Prelude.Tables.{count-le-count, update, delete, count, find?}
use money_flow_service.Categories.{has_category_id}
use money_flow_service.Ledger.Cases.{fits_row}
use money_flow_service.Ledger.Sound.{IsSound, is_sound}
use money_flow_service.Models.{Database, FlowType, Transaction, Category}

-- The row of an id after an UPDATE that keeps ids.
find?-update :
    (p : Category → Bool) (f : Category → Category) (i : ℕ) (categories : List Category)
    → ((c : Category) → (f c).id ≡ c.id)
    → find? (λ (c : Category). c.id == i) (update p f categories)
      ≡ Option.map (λ c. if p c then f c else c) (find? (λ (c : Category). c.id == i) categories)
unfolding find? update
find?-update p f i [] h = refl
find?-update p f i (c ∷ cs) h = elim (Bool-cases (p c)) [
  | inl e ↦ elim (Bool-cases (c.id == i)) [
    | inl x ↦ let y : ((f c).id == i) ≡ true = rw (h c) x in rw (e, y, x) (rw e refl)
    | inr x ↦ let y : ((f c).id == i) ≡ false = rw (h c) x in rw (e, y, x) (find?-update p f i cs h)
  ]
  | inr e ↦ elim (Bool-cases (c.id == i)) [
    | inl x ↦ rw (e, x) (rw e refl)
    | inr x ↦ rw (e, x) (find?-update p f i cs h)
  ]
]

fits_row-update :
    (p : Category → Bool) (f : Category → Category) (household_id : ℕ) (flow : FlowType)
    (row : Option Category)
    → ((c : Category) → ((f c).household_id ≡ c.household_id) × ((f c).flow_type ≡ c.flow_type))
    → fits_row household_id flow (Option.map (λ c. if p c then f c else c) row)
      ≡ fits_row household_id flow row
fits_row-update p f household_id flow none h = refl
fits_row-update p f household_id flow (some c) h = elim (Bool-cases (p c)) [
  | inl e ↦ rw (e, (h c).0, (h c).1) refl
  | inr e ↦ rw e refl
]

-- An UPDATE of names keeps what fits.
is_sound-update :
    (p : Category → Bool) (f : Category → Category) (categories : List Category) (t : Transaction)
    → ((c : Category)
        → ((f c).id ≡ c.id)
          × ((f c).household_id ≡ c.household_id)
          × ((f c).flow_type ≡ c.flow_type))
    → is_sound (update p f categories) t ≡ is_sound categories t
unfolding is_sound
is_sound-update p f categories t h = elim (Option-cases t.category_id) [
  | inl e ↦ rw e refl
  | inr (i, e) ↦
      rw
        (
          e,
          find?-update p f i categories (λ c. (h c).0),
          fits_row-update p f t.household_id t.flow_type
              (find? (λ (c : Category). c.id == i) categories) (λ c. ((h c).1, (h c).2)),
        )
        refl
]

pub update-IsSound_categories :
    (p : Category → Bool) (f : Category → Category) (db : Database)
    → ((c : Category)
        → ((f c).id ≡ c.id)
          × ((f c).household_id ≡ c.household_id)
          × ((f c).flow_type ≡ c.flow_type))
    → IsSound db
    → IsSound (record db { categories = update p f db.categories })
update-IsSound_categories p f db h sound = omega (
  arith,
  sound,
  count-le-count (λ t. not (is_sound (update p f db.categories) t))
      (λ t. not (is_sound db.categories t)) db.transactions
      (λ t e. rw (is_sound-update p f db.categories t h) at e),
)

-- A new row hides none: what fitted still does.
find?-append_some :
    (i : ℕ) (categories : List Category) (new : Category) {c : Category}
    → find? (λ (d : Category). d.id == i) categories ≡ some c
    → find? (λ (d : Category). d.id == i) (categories ++ new ∷ []) ≡ some c
unfolding find?
find?-append_some i [] new h = cc
find?-append_some i (d ∷ ds) new {c} h = elim (Bool-cases (d.id == i)) [
  | inl e ↦ rw e (rw e at h)
  | inr e ↦ rw e (find?-append_some i ds new (rw e at h))
]

pub is_sound-append :
    (categories : List Category) (new : Category) (t : Transaction)
    → is_sound categories t ≡ true
    → is_sound (categories ++ new ∷ []) t ≡ true
unfolding is_sound
is_sound-append categories new t h = elim (Option-cases t.category_id) [
  | inl e ↦ rw e (rw e at h)
  | inr (i, e) ↦ elim (Option-cases (find? (λ (c : Category). c.id == i) categories)) [
    | inl x ↦ cc (rw (e, x) at h)
    | inr (c, x) ↦ rw (e, find?-append_some i categories new x) (rw (e, x) at h)
  ]
]

-- A row with another id is found after a DELETE.
find?-delete_ne :
    (i j : ℕ) (categories : List Category)
    → i == j ≡ false
    → find? (λ (c : Category). c.id == j) (delete (has_category_id i) categories)
      ≡ find? (λ (c : Category). c.id == j) categories
unfolding find? delete
find?-delete_ne i j [] h = refl
find?-delete_ne i j (c ∷ cs) h = ground (arith, find?-delete_ne i j cs h)

pub is_sound-delete :
    (i : ℕ) (categories : List Category) (t : Transaction)
    → (t.category_id == some i) ≡ false
    → is_sound (delete (has_category_id i) categories) t ≡ is_sound categories t
unfolding is_sound
is_sound-delete i categories t h = elim (Option-cases t.category_id) [
  | inl e ↦ rw e refl
  | inr (j, e) ↦ rw (e, find?-delete_ne i j categories (ground (arith, (rw e at h)))) refl
]

-- If no row passes either of two tests, none passes a third that implies one of them.
pub count-none_of :
    (p q r : Transaction → Bool) (ts : List Transaction)
    → count p ts ≡ 0
    → count q ts ≡ 0
    → ((t : Transaction) → q t ≡ false → r t ≡ p t)
    → count r ts ≡ 0
unfolding count
count-none_of p q r [] hp hq h = refl
count-none_of p q r (t ∷ ts) hp hq h = ground (arith, h t, count-none_of p q r ts)
