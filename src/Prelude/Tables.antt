-- ===== src/Prelude/Tables.antt =====
-- A database table is a list of rows. A query is a Boolean test on a row: `select`, `count`,
-- `find?` (a scalar query), UPDATE and DELETE, and the laws that the components share.
pub mod Finding
use Prim.Native.Nat.{ℕ, suc, ◌+◌, ◌≤◌}
use mathlib.Core.Logic.{inl, inr}
use mathlib.Core.Path.{◌≡◌, refl}
use mathlib.Core.Bool.{Bool, true, false, not, ◌&&◌}
use mathlib.Core.Option.{Option, none, some}
use mathlib.Core.List.{List, [], ◌∷◌, ◌++◌}
use native.Mathlib.Omega.{arith}
use money_flow_service.Prelude.Tests.{if◌then◌else◌, nat_beq, Bool-cases}

module _ {ℓ} {A : Type ℓ} where
  -- SELECT ... WHERE test
  unfoldable pub select : (A → Bool) → List A → List A
  select p [] = []
  select p (x ∷ xs) = let rest = select p xs in if p x then x ∷ rest else rest

  -- The first row that passes, as `db.scalar` returns it.
  unfoldable pub find? : (A → Bool) → List A → Option A
  find? p [] = none
  find? p (x ∷ xs) = if p x then some x else find? p xs

  -- SELECT count(*) ... WHERE test
  unfoldable pub count : (A → Bool) → List A → ℕ
  count p [] = 0
  count p (x ∷ xs) = let rest = count p xs in if p x then suc rest else rest

  unfoldable pub exists : (A → Bool) → List A → Bool
  exists p [] = false
  exists p (x ∷ xs) = if p x then true else exists p xs

  -- UPDATE ... WHERE test
  unfoldable pub update : (A → Bool) → (A → A) → List A → List A
  update p f [] = []
  update p f (x ∷ xs) = (if p x then f x else x) ∷ update p f xs

  -- DELETE ... WHERE test
  unfoldable pub delete : (A → Bool) → List A → List A
  delete p [] = []
  delete p (x ∷ xs) = let rest = delete p xs in if p x then rest else x ∷ rest

-- A column is a primary key when no value stands in two rows.
abbrev pub HasUniqueKey {ℓ} : {A : Type ℓ} → (A → ℕ) → List A → Type 0
HasUniqueKey key xs = (i : ℕ) → count (λ x. nat_beq (key x) i) xs ≤ 1

module _ {ℓ} {A : Type ℓ} where
  pub find?-holds : (p : A → Bool) (xs : List A) {x : A} → find? p xs ≡ some x → p x ≡ true
  unfolding find?
  find?-holds p [] h = cc
  find?-holds p (y ∷ ys) {x} h = elim (Bool-cases (p y)) [
    | inl e ↦ ground (arith)
    | inr e ↦ find?-holds p ys (rw e at h)
  ]

  pub count-find? : (p : A → Bool) (xs : List A) {x : A} → find? p xs ≡ some x → 1 ≤ count p xs
  unfolding find? count
  count-find? p [] h = cc
  count-find? p (y ∷ ys) {x} h = ground (arith, count-find? p ys {x = x})

  pub count-find?-none : (p : A → Bool) (xs : List A) → find? p xs ≡ none → count p xs ≡ 0
  unfolding find? count
  count-find?-none p [] h = refl
  count-find?-none p (y ∷ ys) h = ground (arith, count-find?-none p ys)

  pub count-le-count :
      (p q : A → Bool) (xs : List A) → ((x : A) → p x ≡ true → q x ≡ true) → count p xs ≤ count q xs
  unfolding count
  count-le-count p q [] h = omega arith
  count-le-count p q (x ∷ xs) h = ground (arith, h x, count-le-count p q xs h)

  -- What an UPDATE takes away from a count stood in the rows that it touches.
  pub count-update :
      (p q : A → Bool) (f : A → A) (xs : List A)
      → count q xs ≤ count q (update p f xs) + count (λ x. p x && q x) xs
  unfolding count update
  count-update p q f [] = omega arith
  count-update p q f (x ∷ xs) = ground (arith, count-update p q f xs)

  -- The rows that an UPDATE makes pass are in the count after it.
  pub count-update_touched :
      (p q r : A → Bool) (f : A → A) (xs : List A)
      → ((x : A) → p x ≡ true → r x ≡ true → q (f x) ≡ true)
      → count (λ x. p x && r x) xs ≤ count q (update p f xs)
  unfolding count update
  count-update_touched p q r f [] h = omega arith
  count-update_touched p q r f (x ∷ xs) h = ground (arith, h x, count-update_touched p q r f xs h)

  pub count-update_le :
      (p q : A → Bool) (f : A → A) (xs : List A)
      → ((x : A) → p x ≡ true → q (f x) ≡ true → q x ≡ true)
      → count q (update p f xs) ≤ count q xs
  unfolding count update
  count-update_le p q f [] h = omega arith
  count-update_le p q f (x ∷ xs) h = ground (arith, h x, count-update_le p q f xs h)

  pub count-update_same :
      (p q : A → Bool) (f : A → A) (xs : List A)
      → ((x : A) → p x ≡ true → q (f x) ≡ q x)
      → count q (update p f xs) ≡ count q xs
  unfolding count update
  count-update_same p q f [] h = refl
  count-update_same p q f (x ∷ xs) h = ground (arith, h x, count-update_same p q f xs h)

  pub select-update_same :
      (p q : A → Bool) (f : A → A) (xs : List A)
      → ((x : A) → p x ≡ true → (q x ≡ false) × (q (f x) ≡ false))
      → select q (update p f xs) ≡ select q xs
  unfolding select update
  select-update_same p q f [] h = refl
  select-update_same p q f (x ∷ xs) h = ground (arith, h x, select-update_same p q f xs h)

  pub select-delete :
      (p q : A → Bool) (xs : List A)
      → ((x : A) → p x ≡ true → q x ≡ false)
      → select q (delete p xs) ≡ select q xs
  unfolding select delete
  select-delete p q [] h = refl
  select-delete p q (x ∷ xs) h = ground (arith, h x, select-delete p q xs h)

  pub count-delete :
      (p q : A → Bool) (xs : List A)
      → count q xs ≤ count q (delete p xs) + count (λ x. p x && q x) xs
  unfolding count delete
  count-delete p q [] = omega arith
  count-delete p q (x ∷ xs) = ground (arith, count-delete p q xs)

  pub count-delete_le : (p q : A → Bool) (xs : List A) → count q (delete p xs) ≤ count q xs
  unfolding count delete
  count-delete_le p q [] = omega arith
  count-delete_le p q (x ∷ xs) = ground (arith, count-delete_le p q xs)

  pub count-append : (p : A → Bool) (xs ys : List A) → count p (xs ++ ys) ≡ count p xs + count p ys
  unfolding count
  count-append p [] ys = omega arith
  count-append p (x ∷ xs) ys = ground (arith, count-append p xs ys)

  -- The rows that survive a DELETE do not pass its test.
  pub count-delete_self : (p : A → Bool) (xs : List A) → count p (delete p xs) ≡ 0
  unfolding count delete
  count-delete_self p [] = refl
  count-delete_self p (x ∷ xs) = ground (arith, count-delete_self p xs)

  pub count-split :
      (p q : A → Bool) (xs : List A)
      → count p xs ≡ count (λ x. p x && q x) xs + count (λ x. p x && not (q x)) xs
  unfolding count
  count-split p q [] = omega arith
  count-split p q (x ∷ xs) = ground (arith, count-split p q xs)

  -- A query over the rows that another query returned is one query with both tests.
  pub find?-select :
      (p q : A → Bool) (xs : List A) → find? p (select q xs) ≡ find? (λ x. q x && p x) xs
  unfolding find? select
  find?-select p q [] = refl
  find?-select p q (x ∷ xs) = ground (arith, find?-select p q xs)

  pub count-select :
      (p q : A → Bool) (xs : List A) → count p (select q xs) ≡ count (λ x. q x && p x) xs
  unfolding count select
  count-select p q [] = refl
  count-select p q (x ∷ xs) = ground (arith, count-select p q xs)

  -- Under a primary key, the row found among some rows is the only one with its key.
  pub count-unique_other :
      (key : A → ℕ) (r : A → Bool) (i : ℕ) (xs : List A) {x : A}
      → HasUniqueKey key xs
      → find? (λ y. nat_beq (key y) i) (select r xs) ≡ some x
      → count (λ y. nat_beq (key y) i && not (r y)) xs ≡ 0
  count-unique_other key r i xs {x} unique found =
      let found' : find? (λ y. r y && nat_beq (key y) i) xs ≡ some x =
        rw (find?-select (λ y. nat_beq (key y) i) r xs) at found in
      let one = count-find? (λ y. r y && nat_beq (key y) i) xs found' in
      let swap =
        count-le-count (λ y. r y && nat_beq (key y) i) (λ y. nat_beq (key y) i && r y) xs
          (λ y h. ground arith) in
      omega (arith, unique i, count-split (λ y. nat_beq (key y) i) r xs)

  -- A row that a query returns is counted by every test that it passes besides.
  pub count-find?_also :
      (p r : A → Bool) (xs : List A) {x : A}
      → find? p xs ≡ some x
      → r x ≡ true
      → 1 ≤ count (λ y. p y && r y) xs
  unfolding find? count
  count-find?_also p r [] h k = cc
  count-find?_also p r (y ∷ ys) {x} h k = ground (arith, count-find?_also p r ys {x = x})

  -- An UPDATE leaves a query that none of its rows passes, before or after.
  pub select-update :
      (p q : A → Bool) (f : A → A) (xs : List A)
      → count (λ x. p x && q x) xs ≡ 0
      → ((x : A) → p x ≡ true → q (f x) ≡ false)
      → select q (update p f xs) ≡ select q xs
  unfolding select update count
  select-update p q f [] none_here h = refl
  select-update p q f (x ∷ xs) none_here h = ground (arith, h x, select-update p q f xs)

  -- A DELETE leaves a query that none of its rows passes.
  pub select-delete_none :
      (p q : A → Bool) (xs : List A)
      → count (λ x. p x && q x) xs ≡ 0
      → select q (delete p xs) ≡ select q xs
  unfolding select delete count
  select-delete_none p q [] none_here = refl
  select-delete_none p q (x ∷ xs) none_here = ground (arith, select-delete_none p q xs)

  pub count-update_all :
      (p q : A → Bool) (f : A → A) (xs : List A)
      → ((x : A) → p x ≡ true → q (f x) ≡ true)
      → count p xs ≤ count q (update p f xs)
  unfolding count update
  count-update_all p q f [] h = omega arith
  count-update_all p q f (x ∷ xs) h = ground (arith, h x, count-update_all p q f xs h)

  -- An UPDATE of all rows that pass, to rows that do not, leaves none.
  pub count-update_gone :
      (p q : A → Bool) (f : A → A) (xs : List A)
      → ((x : A) → p x ≡ true → q (f x) ≡ false)
      → ((x : A) → q x ≡ true → p x ≡ true)
      → count q (update p f xs) ≡ 0
  unfolding count update
  count-update_gone p q f [] h k = refl
  count-update_gone p q f (x ∷ xs) h k = ground (arith, h x, k x, count-update_gone p q f xs h k)
