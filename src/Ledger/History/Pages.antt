-- ===== src/Ledger/History/Pages.antt =====
-- transactions.py, `list_transaction_history`: the pages go through the history row by row.
use money_flow_service.Prelude.{
  ◌∙◌, sym, inr, subst, inl, Bool-cases, nat_beq_refl, not, ◌≤◌, ◌++◌, refl, zero, [], ap, arith,
  suc, false, length, ◌∷◌, take, nat_beq, ◌≡◌, ◌&&◌, ltb, List, Bool, ℕ, true,
}
use money_flow_service.Ledger.Order.{sort_by}
use money_flow_service.Prelude.Tables.{count-le-count, count-select, HasUniqueKey, count, select}
use money_flow_service.Ledger.History.Sorting.{
  Each, IsSorted, select-sort_by, sort_by-IsSorted, count-sort_by,
}
use money_flow_service.Models.{Transaction}

select-and :
    (p q : Transaction → Bool) (ts : List Transaction)
    → select (λ t. q t && p t) ts ≡ select p (select q ts)
unfolding select
select-and p q [] = refl
select-and p q (t ∷ ts) = ground (arith, select-and p q ts)

select-same :
    (p q : Transaction → Bool) (ts : List Transaction)
    → ((t : Transaction) → p t ≡ q t)
    → select p ts ≡ select q ts
unfolding select
select-same p q [] h = refl
select-same p q (t ∷ ts) h = rw (h t, select-same p q ts h) refl

pub take-longer : (n : ℕ) (ts : List Transaction) → take n (take (suc n) ts) ≡ take n ts
take-longer zero ts = refl
take-longer (suc n) [] = refl
take-longer (suc n) (t ∷ ts) = ap (λ us. t ∷ us) (take-longer n ts)

pub longer-take :
    (n : ℕ) (ts : List Transaction) → ltb n (length (take (suc n) ts)) ≡ ltb n (length ts)
longer-take zero [] = refl
longer-take zero (t ∷ ts) = ground arith
longer-take (suc n) [] = refl
longer-take (suc n) (t ∷ ts) = ground (arith, longer-take n ts)

count-select_le :
    (p q : Transaction → Bool) (ts : List Transaction) → count p (select q ts) ≤ count p ts
count-select_le p q ts =
    ground (arith, count-select p q ts, count-le-count (λ t. q t && p t) p ts (λ t h. ground arith))

abbrev has_id_of : Transaction → Transaction → Bool
has_id_of r t = nat_beq t.id r.id

module _ (leq : Transaction → Transaction → Bool)
    (total : (a b : Transaction) → leq a b ≡ false → leq b a ≡ true)
    (trans : (a b c : Transaction) → leq a b ≡ true → leq b c ≡ true → leq a c ≡ true)
    (antisym : (a b : Transaction) → leq a b ≡ true → leq b a ≡ true → a.id ≡ b.id) where
  rows_after :
      (r : Transaction) (ys : List Transaction)
      → Each (leq r) ys
      → count (has_id_of r) ys ≡ 0
      → select (λ t. not (leq t r)) ys ≡ ys
  unfolding Each select count
  rows_after r [] h none_of = refl
  rows_after r (y ∷ ys) h none_of = ground (arith, antisym r y h.0, rows_after r ys h.1)

  at_row :
      (p : Transaction → Bool) (xs ys : List Transaction) (r : Transaction)
      → Each p (xs ++ r ∷ ys)
      → p r ≡ true
  unfolding Each
  at_row p [] ys r h = h.0
  at_row p (x ∷ xs) ys r h = at_row p xs ys r h.1

  reflexive : (r : Transaction) → leq r r ≡ true
  reflexive r = elim (Bool-cases (leq r r)) [ inl e ↦ e | inr e ↦ total r r e ]

  -- In the order, the rows that are not up to a row are those after it.
  select-after :
      (r : Transaction) (xs ys : List Transaction)
      → IsSorted leq (xs ++ r ∷ ys)
      → count (has_id_of r) (xs ++ r ∷ ys) ≤ 1
      → select (λ t. not (leq t r)) (xs ++ r ∷ ys) ≡ ys
  unfolding IsSorted select count
  select-after r [] ys h one =
      let own : leq r r ≡ true = reflexive r in
      let none_of : count (has_id_of r) ys ≡ 0 = ground (arith, nat_beq_refl r.id) in
      rw own (rows_after r ys h.0 none_of)
  select-after r (x ∷ xs) ys h one =
      let up : leq x r ≡ true = at_row (leq x) xs ys r h.0 in
      let fewer : count (has_id_of r) (xs ++ r ∷ ys) ≤ 1 = ground (arith, one) in
      rw up (select-after r xs ys h.1 fewer)

  -- The query for the rows after a row, by any test that says so, gives the rest of the ordered list.
  pub query-after :
      (h p : Transaction → Bool) (r : Transaction) (xs ys rows : List Transaction)
      → ((t : Transaction) → p t ≡ not (leq t r))
      → HasUniqueKey (λ (t : Transaction). t.id) rows
      → sort_by leq (select h rows) ≡ xs ++ r ∷ ys
      → sort_by leq (select (λ t. h t && p t) rows) ≡ ys
  query-after h p r xs ys rows test unique whole =
      let sorted : IsSorted leq (xs ++ r ∷ ys) =
        subst (IsSorted leq) whole (sort_by-IsSorted leq total trans (select h rows)) in
      let counted : count (has_id_of r) (xs ++ r ∷ ys) ≡ count (has_id_of r) (select h rows) =
        ap (count (has_id_of r)) (sym whole) ∙ count-sort_by leq (has_id_of r) (select h rows) in
      let fewer = count-select_le (has_id_of r) h rows in
      let once = unique r.id in
      let one : count (has_id_of r) (xs ++ r ∷ ys) ≤ 1 = omega arith in
      ap (sort_by leq) (select-and p h rows)
      ∙ sym (select-sort_by leq total trans p (select h rows))
      ∙ ap (select p) whole
      ∙ select-same p (λ t. not (leq t r)) (xs ++ r ∷ ys) test
      ∙ select-after r xs ys sorted one
