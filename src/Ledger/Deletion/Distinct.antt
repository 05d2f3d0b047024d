-- ===== src/Ledger/Deletion/Distinct.antt =====
-- The ids of a bulk deletion (transactions.py) as sets: lists without repeats, and when two such lists
-- have the same members.
use money_flow_service.Prelude.{
  ◌∙◌, ◌≤◌, ◌<◌, length, not, refl, nat_eq, inr, inl, ◌==◌, ◌&&◌, arith, Bool-cases, [], ◌∷◌, false,
  true, ◌≡◌, ℕ, List, map,
}
use money_flow_service.Prelude.Tables.{select, exists}
use money_flow_service.Ledger.Deletion.{contains_id, without_repeats, is_chosen, ids_of}
use money_flow_service.Models.{Transaction}

abbrev pub IsDistinct : List ℕ → Type 0
IsDistinct [] = Unit
IsDistinct (i ∷ ids) = (contains_id ids i ≡ false) × IsDistinct ids

-- Only ids of the list are left of it.
pub without_repeats-contains :
    (i : ℕ) (seen ids : List ℕ)
    → contains_id (without_repeats seen ids) i ≡ true
    → contains_id ids i ≡ true
unfolding without_repeats exists
without_repeats-contains i seen [] k = k
without_repeats-contains i seen (j ∷ ids) k = elim (Bool-cases (j == i)) [
  | inl e ↦ rw e refl
  | inr e ↦ elim (Bool-cases (contains_id seen j)) [
    | inl s ↦ rw e (without_repeats-contains i (j ∷ seen) ids (rw s at k))
    | inr s ↦ rw e (without_repeats-contains i (j ∷ seen) ids (rw (s, e) at k))
  ]
]

without_repeats-unseen :
    (i : ℕ) (seen ids : List ℕ)
    → contains_id seen i ≡ true
    → contains_id (without_repeats seen ids) i ≡ false
unfolding without_repeats exists
without_repeats-unseen i seen [] k = refl
without_repeats-unseen i seen (j ∷ ids) k = elim (Bool-cases (contains_id seen j)) [
  | inl s ↦ rw s (without_repeats-unseen i (j ∷ seen) ids (ground arith))
  | inr s ↦
      let later : contains_id (without_repeats (j ∷ seen) ids) i ≡ false =
        without_repeats-unseen i (j ∷ seen) ids (ground arith) in
      elim (Bool-cases (j == i)) [
        | inl e ↦ let same : j ≡ i = ground arith in cc
        | inr e ↦ rw (s, e) later
      ]
]

pub without_repeats-IsDistinct : (seen ids : List ℕ) → IsDistinct (without_repeats seen ids)
unfolding without_repeats exists
without_repeats-IsDistinct seen [] = tt
without_repeats-IsDistinct seen (i ∷ ids) =
    let rest = without_repeats-IsDistinct (i ∷ seen) ids in
    elim (Bool-cases (contains_id seen i)) [
      | inl s ↦ rw s rest
      | inr s ↦ rw s (without_repeats-unseen i (i ∷ seen) ids (ground arith), rest)
    ]

abbrev without : ℕ → List ℕ → List ℕ
without i ids = select (λ j. not (j == i)) ids

length-without_le : (i : ℕ) (ids : List ℕ) → length (without i ids) ≤ length ids
unfolding select
length-without_le i [] = omega arith
length-without_le i (j ∷ ids) = ground (arith, length-without_le i ids)

length-without :
    (i : ℕ) (ids : List ℕ) → contains_id ids i ≡ true → length (without i ids) < length ids
unfolding select exists
length-without i [] h = cc
length-without i (j ∷ ids) h = elim (Bool-cases (j == i)) [
  | inl e ↦ rw e (omega (arith, length-without_le i ids))
  | inr e ↦ rw e (omega (arith, length-without i ids (rw e at h)))
]

contains-without :
    (i k : ℕ) (ids : List ℕ) → (k == i) ≡ false → contains_id (without i ids) k ≡ contains_id ids k
unfolding select exists
contains-without i k [] h = refl
contains-without i k (j ∷ ids) h = ground (arith, contains-without i k ids h)

-- Distinct ids that are all in a list that is no longer are all that are in it.
pub contains-IsDistinct :
    (found ids : List ℕ)
    → IsDistinct found
    → ((i : ℕ) → contains_id found i ≡ true → contains_id ids i ≡ true)
    → length ids ≤ length found
    → (i : ℕ) → contains_id ids i ≡ true
    → contains_id found i ≡ true
unfolding exists
contains-IsDistinct [] [] distinct sub short i h = h
contains-IsDistinct [] (j ∷ ids) distinct sub short i h = ground arith
contains-IsDistinct (a ∷ found) ids (new, distinct) sub short i h =
    let a_in : contains_id ids a ≡ true = sub a (ground arith) in
    elim (Bool-cases (a == i)) [
      | inl e ↦ rw e refl
      | inr e ↦ rw e (
          contains-IsDistinct found (without a ids) distinct
            (λ k h'. elim (Bool-cases (k == a)) [
              | inl same ↦ let eq : k ≡ a = ground arith in cc
              | inr other ↦ contains-without a k ids other ∙ sub k (ground arith)
            ])
            (omega (arith, length-without a ids a_in)) i
            (contains-without a i ids (ground arith) ∙ h))
    ]

-- An id of a chosen row is one that was asked for, and there is a row of the household with it.
pub chosen_ids :
    (i household_id : ℕ) (ids : List ℕ) (ts : List Transaction)
    → contains_id (map (λ (t : Transaction). t.id) (select (is_chosen household_id ids) ts)) i
      ≡ true
    → (contains_id ids i ≡ true)
      × (exists (λ (t : Transaction). t.id == i && t.household_id == household_id) ts ≡ true)
unfolding select exists
chosen_ids i household_id ids [] h = cc
chosen_ids i household_id ids (t ∷ ts) h = elim (Bool-cases (is_chosen household_id ids t)) [
  | inr e ↦
      let (asked, there) = chosen_ids i household_id ids ts (rw e at h) in (asked, ground arith)
  | inl e ↦ elim (Bool-cases (t.id == i)) [
    | inl same ↦
        let eq : t.id ≡ i = ground arith in
        let asked : contains_id ids t.id ≡ true = ground arith in (rw eq at asked, ground arith)
    | inr other ↦
        let (asked, there) = chosen_ids i household_id ids ts (rw (e, other) at h) in
        (asked, rw other there)
  ]
]

-- If as many distinct rows are found as distinct ids were asked for, each id is that of a row of the
-- household.
pub all_found :
    (household_id : ℕ) (ids : List ℕ) (ts : List Transaction)
    → (length (ids_of (select (is_chosen household_id ids) ts)) == length ids) ≡ true
    → (i : ℕ) → contains_id ids i ≡ true
    → exists (λ (t : Transaction). t.id == i && t.household_id == household_id) ts ≡ true
all_found household_id ids ts same i asked =
    let rows = map (λ (t : Transaction). t.id) (select (is_chosen household_id ids) ts) in
    let found : contains_id (without_repeats [] rows) i ≡ true =
      contains-IsDistinct (without_repeats [] rows) ids (without_repeats-IsDistinct [] rows)
        (λ k h. (chosen_ids k household_id ids ts (without_repeats-contains k [] rows h)).0)
        (ground arith) i asked in
    (chosen_ids i household_id ids ts (without_repeats-contains i [] rows found)).1
