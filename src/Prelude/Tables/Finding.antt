-- ===== src/Prelude/Tables/Finding.antt =====
-- What a query by a key finds after the table has changed.
use money_flow_service.Prelude.{
  arith, none, ◌∙◌, refl, inr, sym, inl, [], Bool-cases, if◌then◌else◌, ◌++◌, ◌∷◌, true, false,
  some, ◌≡◌, List, Bool,
}
use money_flow_service.Prelude.Tables.{count, exists, update, delete, find?}

module _ {ℓ} {A : Type ℓ} where
  pub find?-append :
      (q : A → Bool) (xs ys : List A) {x : A} → find? q xs ≡ some x → find? q (xs ++ ys) ≡ some x
  unfolding find?
  find?-append q [] ys h = cc
  find?-append q (y ∷ xs) ys {x} h = elim (Bool-cases (q y)) [
    | inl e ↦ rw e (rw e at h)
    | inr e ↦ rw e (find?-append q xs ys (rw e at h))
  ]

  pub find?-delete :
      (p q : A → Bool) (xs : List A) {x : A}
      → find? q xs ≡ some x
      → p x ≡ false
      → find? q (delete p xs) ≡ some x
  unfolding find? delete
  find?-delete p q [] h k = cc
  find?-delete p q (y ∷ xs) {x} h k = elim (Bool-cases (q y)) [
    | inl e ↦
        let same : some y ≡ some x = rw e at h in
        let eq : y ≡ x = cc in let kept : p y ≡ false = rw eq k in rw kept (rw e same)
    | inr e ↦
        let rest = find?-delete p q xs (rw e at h) k in
        elim (Bool-cases (p y)) [ inl d ↦ rw d rest | inr d ↦ rw d (rw e rest) ]
  ]

  pub find?-update :
      (p q : A → Bool) (f : A → A) (xs : List A) {x : A}
      → ((y : A) → p y ≡ true → q (f y) ≡ q y)
      → find? q xs ≡ some x
      → find? q (update p f xs) ≡ some (if p x then f x else x)
  unfolding find? update
  find?-update p q f [] k h = cc
  find?-update p q f (y ∷ xs) {x} k h = elim (Bool-cases (p y)) [
    | inl d ↦ elim (Bool-cases (q y)) [
      | inl e ↦
          let same : some y ≡ some x = rw e at h in
          let eq : y ≡ x = cc in
          let d' : p x ≡ true = rw (sym eq) d in
          let e' : q (f y) ≡ true = k y d ∙ e in rw (d, e') (rw (d', eq) refl)
      | inr e ↦
          let e' : q (f y) ≡ false = k y d ∙ e in rw (d, e') (find?-update p q f xs k (rw e at h))
    ]
    | inr d ↦ elim (Bool-cases (q y)) [
      | inl e ↦
          let same : some y ≡ some x = rw e at h in
          let eq : y ≡ x = cc in
          let d' : p x ≡ false = rw (sym eq) d in rw (d, e) (rw (d', eq) refl)
      | inr e ↦ rw (d, e) (find?-update p q f xs k (rw e at h))
    ]
  ]

  -- A row that is found passes, so a table with one has one.
  pub find?-exists : (q : A → Bool) (xs : List A) {x : A} → find? q xs ≡ some x → exists q xs ≡ true
  unfolding find? exists
  find?-exists q [] h = cc
  find?-exists q (y ∷ xs) {x} h = elim (Bool-cases (q y)) [
    | inl e ↦ rw e refl
    | inr e ↦ rw e (find?-exists q xs (rw e at h))
  ]

  pub find?-new :
      (q : A → Bool) (xs : List A) (x : A)
      → exists q xs ≡ false
      → q x ≡ true
      → find? q (xs ++ x ∷ []) ≡ some x
  unfolding find? exists
  find?-new q [] x h k = rw k refl
  find?-new q (y ∷ xs) x h k = elim (Bool-cases (q y)) [
    | inl e ↦ cc (rw e at h)
    | inr e ↦ rw e (find?-new q xs x (rw e at h) k)
  ]

  pub find?-delete_all : (p : A → Bool) (xs : List A) → find? p (delete p xs) ≡ none
  unfolding find? delete
  find?-delete_all p [] = refl
  find?-delete_all p (x ∷ xs) = elim (Bool-cases (p x)) [
    | inl e ↦ rw e (find?-delete_all p xs)
    | inr e ↦ rw (e, e) (find?-delete_all p xs)
  ]

  pub exists-count : (p : A → Bool) (xs : List A) → count p xs ≡ 0 → exists p xs ≡ false
  unfolding exists count
  exists-count p [] h = refl
  exists-count p (x ∷ xs) h = ground (arith, exists-count p xs)

  -- A row that passes two tests is there for either.
  pub find?-other :
      (p q : A → Bool) (xs : List A) {x : A}
      → find? q xs ≡ some x
      → p x ≡ true
      → (y : A) × (find? p xs ≡ some y)
  unfolding find?
  find?-other p q [] h k = cc
  find?-other p q (y ∷ xs) {x} h k = elim (Bool-cases (p y)) [
    | inl d ↦ (y, rw d refl)
    | inr d ↦ elim (Bool-cases (q y)) [
      | inl e ↦
          let same : some y ≡ some x = rw e at h in
          let eq : y ≡ x = cc in let no : p x ≡ false = rw (sym eq) d in cc (no, k)
      | inr e ↦ let (z, found) = find?-other p q xs (rw e at h) k in (z, rw d found)
    ]
  ]
