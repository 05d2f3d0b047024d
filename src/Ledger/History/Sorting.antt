-- ===== src/Ledger/History/Sorting.antt =====
-- transactions.py: what ORDER BY and WHERE do to one another, for any total order of the rows.
use money_flow_service.Prelude.{
  ap, sym, inr, ◌∙◌, refl, inl, if◌then◌else◌, Bool-cases, [], arith, false, ◌∷◌, List, ◌≡◌, Bool,
  true,
}
use money_flow_service.Prelude.Tables.{count, select}
use money_flow_service.Ledger.Order.{insert_by, sort_by}
use money_flow_service.Models.{Transaction}

-- Every row passes the test.
unfoldable pub Each : (Transaction → Bool) → List Transaction → Type 0
Each p [] = Unit
Each p (t ∷ ts) = (p t ≡ true) × Each p ts

unfoldable pub IsSorted : (Transaction → Transaction → Bool) → List Transaction → Type 0
unfolding Each
IsSorted leq [] = Unit
IsSorted leq (t ∷ ts) = Each (leq t) ts × IsSorted leq ts

pub Each-select :
    (p q : Transaction → Bool) (ts : List Transaction) → Each q ts → Each q (select p ts)
unfolding Each select
Each-select p q [] h = tt
Each-select p q (t ∷ ts) h = elim (Bool-cases (p t)) [
  | inl e ↦ rw e (h.0, Each-select p q ts h.1)
  | inr e ↦ rw e (Each-select p q ts h.1)
]

Each-implies :
    (p q : Transaction → Bool) (ts : List Transaction)
    → ((t : Transaction) → p t ≡ true → q t ≡ true)
    → Each p ts
    → Each q ts
unfolding Each
Each-implies p q [] k h = tt
Each-implies p q (t ∷ ts) k h = (k t h.0, Each-implies p q ts k h.1)

count-insert_by :
    (leq : Transaction → Transaction → Bool) (p : Transaction → Bool) (t : Transaction)
    (us : List Transaction)
    → count p (insert_by leq t us) ≡ count p (t ∷ us)
unfolding insert_by count
count-insert_by leq p t [] = refl
count-insert_by leq p t (u ∷ us) = ground (arith, count-insert_by leq p t us)

pub count-sort_by :
    (leq : Transaction → Transaction → Bool) (p : Transaction → Bool) (ts : List Transaction)
    → count p (sort_by leq ts) ≡ count p ts
unfolding sort_by count
count-sort_by leq p [] = refl
count-sort_by leq p (t ∷ ts) =
    ground (arith, count-insert_by leq p t (sort_by leq ts), count-sort_by leq p ts)

module _ (leq : Transaction → Transaction → Bool)
    (total : (a b : Transaction) → leq a b ≡ false → leq b a ≡ true)
    (trans : (a b c : Transaction) → leq a b ≡ true → leq b c ≡ true → leq a c ≡ true) where
  Each-insert_by :
      (q : Transaction → Bool) (t : Transaction) (us : List Transaction)
      → Each q us
      → q t ≡ true
      → Each q (insert_by leq t us)
  unfolding Each insert_by
  Each-insert_by q t [] h k = (k, tt)
  Each-insert_by q t (u ∷ us) h k = elim (Bool-cases (leq t u)) [
    | inl e ↦ rw e (k, h)
    | inr e ↦ rw e (h.0, Each-insert_by q t us h.1 k)
  ]

  insert_by-IsSorted :
      (t : Transaction) (us : List Transaction)
      → IsSorted leq us
      → IsSorted leq (insert_by leq t us)
  unfolding IsSorted insert_by Each
  insert_by-IsSorted t [] h = (tt, tt)
  insert_by-IsSorted t (u ∷ us) h = elim (Bool-cases (leq t u)) [
    | inl e ↦ rw e ((e, Each-implies (leq u) (leq t) us (λ v k. trans t u v e k) h.0), h)
    | inr e ↦ rw e (Each-insert_by (leq u) t us h.0 (total t u e), insert_by-IsSorted t us h.1)
  ]

  pub sort_by-IsSorted : (ts : List Transaction) → IsSorted leq (sort_by leq ts)
  unfolding IsSorted sort_by
  sort_by-IsSorted [] = tt
  sort_by-IsSorted (t ∷ ts) = insert_by-IsSorted t (sort_by leq ts) (sort_by-IsSorted ts)

  insert_by-first :
      (t : Transaction) (us : List Transaction) → Each (leq t) us → insert_by leq t us ≡ t ∷ us
  unfolding Each insert_by
  insert_by-first t [] h = refl
  insert_by-first t (u ∷ us) h = rw (h.0) refl

  select-insert_by :
      (p : Transaction → Bool) (t : Transaction) (us : List Transaction)
      → IsSorted leq us
      → select p (insert_by leq t us) ≡ (if p t then insert_by leq t (select p us) else select p us)
  unfolding IsSorted insert_by select Each
  select-insert_by p t [] h = refl
  select-insert_by p t (u ∷ us) h = elim (Bool-cases (leq t u)) [
    | inl e ↦
        let above : Each (leq t) (u ∷ us) =
          (e, Each-implies (leq u) (leq t) us (λ v k. trans t u v e k) h.0) in
        let first = insert_by-first t (select p (u ∷ us)) (Each-select p (leq t) (u ∷ us) above) in
        elim (Bool-cases (p t)) [ inl k ↦ rw (e, k) (sym first) | inr k ↦ rw (e, k) refl ]
    | inr e ↦
        let rest = select-insert_by p t us h.1 in
        elim (Bool-cases (p u)) [
          | inl d ↦ elim (Bool-cases (p t)) [
            | inl k ↦ rw (e, d, k) (rw (e) (ap (λ vs. u ∷ vs) (rw k at rest)))
            | inr k ↦ rw (e, d, k) (ap (λ vs. u ∷ vs) (rw k at rest))
          ]
          | inr d ↦ rw (e, d) rest
        ]
  ]

  pub select-sort_by :
      (p : Transaction → Bool) (ts : List Transaction)
      → select p (sort_by leq ts) ≡ sort_by leq (select p ts)
  unfolding sort_by select
  select-sort_by p [] = refl
  select-sort_by p (t ∷ ts) =
      let inserted = select-insert_by p t (sort_by leq ts) (sort_by-IsSorted ts) in
      let rest = select-sort_by p ts in
      elim (Bool-cases (p t)) [
        | inl k ↦ rw k (rw k at inserted ∙ ap (insert_by leq t) rest)
        | inr k ↦ rw k (rw k at inserted ∙ rest)
      ]
