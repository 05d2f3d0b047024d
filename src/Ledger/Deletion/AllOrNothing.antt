-- ===== src/Ledger/Deletion/AllOrNothing.antt =====
-- transactions.py: the stored transactions after `bulk_delete_transactions`.
use money_flow_service.Prelude.{
  ◌&&◌, ◌+◌, ◌≤◌, ap, ◌∙◌, if◌then◌else◌, not, refl, nat_eq, inr, inl, ◌==◌, arith, Bool-cases, [],
  ◌∷◌, false, true, ◌≡◌, Bool, ℕ, List,
}
use money_flow_service.Prelude.Tables.{
  select-delete, count-le-count, count-delete_self, count-delete_le, select, delete, count, exists,
}
use money_flow_service.Ledger.Deletion.{
  delete_if_found_ind, is_chosen, ids_of, TransactionBulkDeleteResult, contains_id, delete_each,
  bulk_delete_transactions, without_repeats,
}
use money_flow_service.Ledger.Deletion.Distinct.{all_found, without_repeats-contains}
use money_flow_service.Session.{raised, ok, Session, Outcome, open_session, Verdict}
use money_flow_service.Ledger.Reads.{has_transaction_id}
use money_flow_service.Models.{Database, Household, Transaction}

count-false : (ts : List Transaction) → count (λ t. false) ts ≡ 0
unfolding count
count-false [] = refl
count-false (t ∷ ts) = count-false ts

count-or :
    (p q : Transaction → Bool) (ts : List Transaction)
    → count (λ t. if p t then true else q t) ts ≤ count p ts + count q ts
unfolding count
count-or p q [] = omega arith
count-or p q (t ∷ ts) = ground (arith, count-or p q ts)

-- Further deletions keep a count of none.
count-delete_each :
    (p : Transaction → Bool) (ids : List ℕ) (ts : List Transaction)
    → count p ts ≡ 0
    → count p (delete_each ids ts) ≡ 0
unfolding delete_each
count-delete_each p [] ts h = h
count-delete_each p (i ∷ ids) ts h =
    count-delete_each p ids (delete (has_transaction_id i) ts)
      (omega (arith, h, count-delete_le (has_transaction_id i) p ts))

-- No row with one of the ids is left.
delete_each-gone :
    (ids : List ℕ) (ts : List Transaction)
    → count (λ t. contains_id ids t.id) (delete_each ids ts) ≡ 0
unfolding delete_each exists
delete_each-gone [] ts = count-false ts
delete_each-gone (i ∷ ids) ts =
    let rest = delete (has_transaction_id i) ts in
    omega (
      arith,
      count-or (λ t. i == t.id) (λ t. contains_id ids t.id) (delete_each ids rest),
      delete_each-gone ids rest,
      count-le-count (λ t. i == t.id) (has_transaction_id i) (delete_each ids rest)
          (λ t h. ground arith),
      count-delete_each (has_transaction_id i) ids rest
          (count-delete_self (has_transaction_id i) ts),
    )

-- Rows that pass a test which no named row passes are all left.
select-delete_each :
    (p : Transaction → Bool) (ids : List ℕ) (ts : List Transaction)
    → ((t : Transaction) → contains_id ids t.id ≡ true → p t ≡ false)
    → select p (delete_each ids ts) ≡ select p ts
unfolding delete_each exists
select-delete_each p [] ts h = refl
select-delete_each p (i ∷ ids) ts h =
    select-delete_each p ids (delete (has_transaction_id i) ts)
      (λ t k. h t (elim (Bool-cases (i == t.id)) [ inl e ↦ rw e refl | inr e ↦ rw e k ]))
    ∙ select-delete (has_transaction_id i) p ts
        (λ t k. h t (let e : i == t.id ≡ true = ground arith in rw e refl))

contains-without_repeats :
    (i : ℕ) (seen ids : List ℕ)
    → contains_id seen i ≡ false
    → contains_id ids i ≡ true
    → contains_id (without_repeats seen ids) i ≡ true
unfolding without_repeats exists
contains-without_repeats i seen [] h k = cc
contains-without_repeats i seen (j ∷ ids) h k = elim (Bool-cases (j == i)) [
  | inl e ↦
      let same : j ≡ i = ground arith in
      let unseen : contains_id seen j ≡ false = rw same h in rw (unseen, e) refl
  | inr e ↦
      let rest = contains-without_repeats i (j ∷ seen) ids (rw e h) (rw e at k) in
      elim (Bool-cases (contains_id seen j)) [
        | inl s ↦ rw s (contains-without_repeats i (j ∷ seen) ids (rw e h) (rw e at k))
        | inr s ↦ rw (s, e) rest
      ]
]

-- A deletion that is granted was asked for ids of transactions of the household only, no transaction
-- has one of the ids after it, and all others are left; one that is refused leaves the database.
abbrev pub IsAllOrNothing :
    (household_id : ℕ)
    → (transaction_ids : List ℕ) → Database
    → Outcome TransactionBulkDeleteResult × Session
    → Type 0
IsAllOrNothing household_id transaction_ids db (ok result, s) =
    ((i : ℕ)
      → contains_id transaction_ids i ≡ true
      → exists (λ (t : Transaction). t.id == i && t.household_id == household_id) db.transactions
        ≡ true)
    × (count (λ t. contains_id transaction_ids t.id) s.stored.transactions ≡ 0)
    × (select (λ t. not (contains_id transaction_ids t.id)) s.stored.transactions
        ≡ select (λ t. not (contains_id transaction_ids t.id)) db.transactions)
IsAllOrNothing household_id transaction_ids db (raised e, s) = s.stored ≡ db

-- A bulk deletion that succeeds was asked for ids of transactions of the household only, and leaves
-- no transaction with one of the ids and every other one as it was, in the same order; one that
-- raises leaves the stored database as it was.
pub bulk_delete_transactions-IsAllOrNothing :
    (verdict : Verdict) (household : Household) (transaction_ids : List ℕ) (db : Database)
    → IsAllOrNothing household.id transaction_ids db
        (bulk_delete_transactions verdict household transaction_ids (open_session db))
unfolding bulk_delete_transactions
bulk_delete_transactions-IsAllOrNothing verdict household transaction_ids db =
    let ids = without_repeats [] transaction_ids in
    let found_ids = ids_of (select (is_chosen household.id ids) db.transactions) in
    delete_if_found_ind verdict household.id ids found_ids (open_session db)
      (IsAllOrNothing household.id transaction_ids db) (λ e. refl)
      (λ n. (
        (λ i asked.
            all_found household.id ids db.transactions n i
              (contains-without_repeats i [] transaction_ids refl asked)),
        omega (
          arith,
          delete_each-gone ids db.transactions,
          count-le-count (λ t. contains_id transaction_ids t.id) (λ t. contains_id ids t.id)
              (delete_each ids db.transactions)
              (λ t h. contains-without_repeats t.id [] transaction_ids refl h),
        ),
        select-delete_each (λ t. not (contains_id transaction_ids t.id)) ids db.transactions
            (λ t h. ap not (without_repeats-contains t.id [] transaction_ids h)),
      ))
      (λ v. refl)
