-- ===== src/Ledger/Creation/Branches.antt =====
-- transactions.py, `create_transaction`, branch by branch: what holds of each of its ends holds of it.
use money_flow_service.Session.{
  outcome_cases, raised, ok, broadcast_created, try_commit, Session, Outcome, Verdict,
}
use money_flow_service.OwnerLinks.{resolve_owner_fields}
use money_flow_service.Prelude.{
  refl, inr, true, none, some, inl, Option-cases, Option, [], ◌≡◌, ◌∷◌, ◌++◌, ℕ,
}
use money_flow_service.Errors.{
  transaction_source_ref, foreign_key_category, holding_identity, other_constraint,
  transaction_owner_invalid, AppError,
}
use money_flow_service.Ledger.Cases.{
  resolve_owner_fields_cases, ensure_category_cases, fits, load_transaction_read_cases,
}
use money_flow_service.Ledger.Creation.{
  recent_unless_placed, source_ref_of, new_transaction, existing_by_source_ref, create_transaction,
  TransactionCreate, TransactionResponse, replay, insert_transaction,
}
use money_flow_service.Ledger.Allocation.{allocate_order_key}
use money_flow_service.Ledger.Reads.{load_transaction_read, TransactionRead}
use money_flow_service.Prelude.Text.{Text}
use money_flow_service.Models.{User, Household, Database, Transaction}
use money_flow_service.Household.Invitations.{Surroundings}

-- A transaction added to the working database.
abbrev pub with_transaction : Transaction → Database → Database
with_transaction t db = record db { transactions = db.transactions ++ t ∷ [] }

abbrev pub after_commit : Transaction → Session → Session
after_commit t s = record {
  stored = with_transaction t s.working;
  working = with_transaction t s.working;
  events = s.events ++ broadcast_created t.household_id t.id t.version ∷ [];
}

-- After a commit that failed, with what others stored.
abbrev pub after_rollback : (Database → Database) → Session → Session
after_rollback others s = record s { stored = others s.stored; working = others s.stored }

abbrev pub respond : (status_code : ℕ) → Outcome TransactionRead → Outcome TransactionResponse
respond status_code (ok body) = ok (record { status_code = status_code; body = body })
respond status_code (raised e) = raised e

-- The response does not say that a transaction was created.
abbrev pub IsReplay : Outcome TransactionResponse → Type 0
IsReplay (ok r) = r.status_code ≡ 200
IsReplay (raised e) = Unit

pub respond-IsReplay : (o : Outcome TransactionRead) → IsReplay (respond 200 o)
respond-IsReplay (ok body) = refl
respond-IsReplay (raised e) = tt

pub replay-respond :
    (i : ℕ) (s : Session) → replay i s ≡ (respond 200 (load_transaction_read i s).0, s)
replay-respond i s = elim (load_transaction_read_cases i s) [
  | inl (body, e) ↦ rw e
  | inr (x, e) ↦ rw e
]

module _ (verdict : Verdict) (others : Database → Database) (t : Transaction) where
  pub insert_transaction_ind :
      (source_ref : Option Text) (s : Session) (P : Outcome TransactionResponse × Session → Type 0)
      → P (respond 201 (load_transaction_read t.id (after_commit t s)).0, after_commit t s)
      → ((o : Outcome TransactionResponse) → IsReplay o → P (o, after_rollback others s))
      → P (insert_transaction verdict others t source_ref s)
  unfolding insert_transaction try_commit
  insert_transaction_ind source_ref s P committed failed =
      elim (Option-cases (verdict (with_transaction t s.working))) [
        | inl v ↦ elim (load_transaction_read_cases t.id (after_commit t s)) [
          | inl (body, e) ↦ rw (v, e) (rw e at committed)
          | inr (x, e) ↦ rw (v, e) (rw e at committed)
        ]
        | inr (transaction_source_ref, v) ↦
            elim (Option-cases
              (existing_by_source_ref t.household_id source_ref (others s.stored))) [
                | inl e ↦ rw (v, e) (failed _ tt)
                | inr (existing, e) ↦
                    rw (v, e, replay-respond existing.id (after_rollback others s))
                      (failed _ (
                        respond-IsReplay
                          (load_transaction_read existing.id (after_rollback others s)).0))
              ]
        | inr (foreign_key_category, v) ↦ rw v (failed _ tt)
        | inr (holding_identity, v) ↦ rw v (failed _ tt)
        | inr (other_constraint, v) ↦ rw v (failed _ tt)
      ]

module _ (env : Surroundings) (verdict : Verdict) (others : Database → Database)
    (household : Household) (user : User) (payload : TransactionCreate) (s : Session) where
  abbrev new_keyed : Option ℕ × Option Text → (order_key : ℕ) → Transaction
  new_keyed owner order_key =
      new_transaction env household.id user.id payload (source_ref_of payload) owner order_key

  abbrev allocation : Outcome ℕ × Session
  allocation =
      allocate_order_key household.id payload.occurred_on payload.anchor_transaction_id
        payload.insert_position s

  pub create_transaction_ind :
      (P : Outcome TransactionResponse × Session → Type 0)
      → ((existing : Transaction)
          → existing_by_source_ref household.id (source_ref_of payload) s.working ≡ some existing
          → P (respond 200 (load_transaction_read existing.id s).0, s))
      → (existing_by_source_ref household.id (source_ref_of payload) s.working ≡ none
          → (o : Outcome TransactionResponse) → IsReplay o
          → P (o, s))
      → (existing_by_source_ref household.id (source_ref_of payload) s.working ≡ none
          → (e : AppError) (s' : Session) → allocation ≡ (raised e, s')
          → P (raised e, s'))
      → (existing_by_source_ref household.id (source_ref_of payload) s.working ≡ none
          → fits s.working.categories household.id payload.category_id payload.flow_type ≡ true
          → (owner : Option ℕ × Option Text)
          → resolve_owner_fields household.id payload.owner_user_id payload.owner_name
              transaction_owner_invalid s
            ≡ (ok owner, s)
          → (k : ℕ) (s' : Session) → allocation ≡ (ok k, s')
          → P (insert_transaction verdict others (new_keyed owner k) (source_ref_of payload) s'))
      → P (create_transaction env verdict others household user payload s)
  unfolding create_transaction
  create_transaction_ind P replayed unchanged unplaced created =
      elim (Option-cases (existing_by_source_ref household.id (source_ref_of payload) s.working)) [
        | inr (existing, e) ↦ rw (e, replay-respond existing.id s) (replayed existing e)
        | inl e ↦
            elim (ensure_category_cases household.id payload.category_id payload.flow_type s) [
              | inr (x, c) ↦ rw (e, c) (unchanged e _ tt)
              | inl (c, fit) ↦
                  elim (resolve_owner_fields_cases household.id payload.owner_user_id
                    payload.owner_name transaction_owner_invalid s) [
                      | inr (x, r) ↦ rw (e, c, r) (unchanged e _ tt)
                      | inl (owner, r) ↦
                          elim (Option-cases (
                            recent_unless_placed env.now (source_ref_of payload) payload
                              (new_keyed owner 0) s.working)) [
                                | inr (existing, m) ↦
                                    rw (e, c, r, m, replay-respond existing.id s)
                                      (unchanged e _
                                        (respond-IsReplay (load_transaction_read existing.id s).0))
                                | inl m ↦ elim (outcome_cases allocation) [
                                  | inl (k, s', a) ↦
                                      rw (e, c, r, m, a) (created e fit owner r k s' a)
                                  | inr (x, s', a) ↦ rw (e, c, r, m, a) (unplaced e x s' a)
                                ]
                              ]
                    ]
            ]
      ]
