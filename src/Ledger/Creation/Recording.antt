-- ===== src/Ledger/Creation/Recording.antt =====
-- What `create_transaction` (transactions.py) stores.
use money_flow_service.Errors.{transaction_owner_invalid}
use money_flow_service.OwnerLinks.{resolve_owner_fields}
use money_flow_service.Ledger.Creation.Branches.{
  with_transaction, respond-IsReplay, after_rollback, respond, insert_transaction_ind,
  create_transaction_ind, IsReplay, after_commit,
}
use money_flow_service.Ledger.Reads.{
  linked_owner_name, to_transaction_read, has_transaction_id, TransactionRead,
  load_transaction_read,
}
use money_flow_service.Prelude.{
  nat_beq_refl, inr, ◌∙◌, refl, inl, [], Bool-cases, ap, ◌++◌, ◌∷◌, ◌⊎◌, ◌≡◌, map, Bool, List,
  Option, ℕ,
}
use money_flow_service.Ledger.Creation.{
  source_ref_of, insert_transaction, new_transaction, create_transaction, TransactionResponse,
  TransactionCreate,
}
use money_flow_service.Ledger.Cases.{allocate_order_key-keeps}
use money_flow_service.Session.{raised, open_session, ok, Outcome, Verdict, Session}
use money_flow_service.Ledger.Order.{
  key_in, is_on_day, same_day_transactions, InsertPosition, renumber, rebalance_order_keys,
}
use money_flow_service.Ledger.Creation.Replay.{find?-append_new}
use money_flow_service.Ledger.Allocation.{allocate_order_key}
use money_flow_service.Prelude.Text.{Text}
use money_flow_service.Models.{User, Household, Database, Transaction}
use money_flow_service.Prelude.Tables.{update}
use money_flow_service.Household.Invitations.{Surroundings}

-- A transaction up to its place in the day.
abbrev pub unkeyed : Transaction → Transaction
unkeyed t = record t { order_key = 0 }

map-append :
    (f : Transaction → Transaction) (xs ys : List Transaction)
    → map f (xs ++ ys) ≡ map f xs ++ map f ys
map-append f [] ys = refl
map-append f (x ∷ xs) ys = ap (λ zs. f x ∷ zs) (map-append f xs ys)

map-unkeyed-update :
    (p : Transaction → Bool) (key : Transaction → ℕ) (ts : List Transaction)
    → map unkeyed (update p (λ t. record t { order_key = key t }) ts) ≡ map unkeyed ts
unfolding update
map-unkeyed-update p key [] = refl
map-unkeyed-update p key (t ∷ ts) = elim (Bool-cases (p t)) [
  | inl e ↦ rw (e, map-unkeyed-update p key ts) refl
  | inr e ↦ rw (e, map-unkeyed-update p key ts) refl
]

-- The allocation of a key only moves transactions.
abbrev IsMoved : Database → Session → Type 0
IsMoved db s = (map unkeyed s.working.transactions ≡ map unkeyed db.transactions) × (s.stored ≡ db)

rebalance-IsMoved :
    (household_id occurred_on : ℕ) (db : Database) (s : Session)
    → IsMoved db s
    → IsMoved db (record s { working = rebalance_order_keys household_id occurred_on s.working })
unfolding rebalance_order_keys
rebalance-IsMoved household_id occurred_on db s (same, stored) =
    let rows = renumber 1 (same_day_transactions household_id occurred_on s.working) in
    (
      map-unkeyed-update (is_on_day household_id occurred_on) (key_in rows) s.working.transactions
          ∙ same,
      stored,
    )

allocation-IsMoved :
    (household_id occurred_on : ℕ) (anchor : Option ℕ) (position : Option InsertPosition)
    (db : Database) (o : Outcome ℕ) (s' : Session)
    → allocate_order_key household_id occurred_on anchor position (open_session db) ≡ (o, s')
    → IsMoved db s'
allocation-IsMoved household_id occurred_on anchor position db o s' a = rw a at (
    allocate_order_key-keeps household_id occurred_on anchor position (IsMoved db)
      (rebalance-IsMoved household_id occurred_on db) (open_session db) (refl, refl))

-- The transaction that a commit has added can be read.
loaded-after_commit :
    (t : Transaction) (s : Session)
    → (body : TransactionRead) × (load_transaction_read t.id (after_commit t s)
        ≡ (ok body, after_commit t s))
unfolding load_transaction_read
loaded-after_commit t s =
    let (u, found) =
      find?-append_new (has_transaction_id t.id) s.working.transactions t (nat_beq_refl t.id) in
    (
      to_transaction_read u (linked_owner_name (with_transaction t s.working) u.owner_user_id),
      rw found refl,
    )

-- Nothing is written, except by others after a commit that failed.
abbrev pub IsUntouched : (Database → Database) → Database → Session → Type 0
IsUntouched others db s = (s.stored ≡ db) ⊎ (s.stored ≡ others db)

-- 201 with one transaction more, or 200 or an error with nothing written.
abbrev pub IsRecorded :
    Surroundings
    → (Database → Database)
    → Household
    → User
    → TransactionCreate
    → Database
    → Outcome TransactionResponse × Session
    → Type 0
IsRecorded env others household user payload db (ok r, s) =
    ((r.status_code ≡ 200) × IsUntouched others db s)
    ⊎ ((r.status_code ≡ 201)
        × ((owner : Option ℕ × Option Text) × (resolve_owner_fields household.id
                payload.owner_user_id payload.owner_name transaction_owner_invalid (open_session db)
              ≡ (ok owner, open_session db))
            × (map unkeyed s.stored.transactions
                ≡ map unkeyed db.transactions
                  ++ new_transaction env household.id user.id payload (source_ref_of payload) owner
                      0
                    ∷ [])))
IsRecorded env others household user payload db (raised e, s) = IsUntouched others db s

module _ (env : Surroundings) (verdict : Verdict) (others : Database → Database)
    (household : Household) (user : User) (payload : TransactionCreate) (db : Database) where
  untouched-IsRecorded :
      (o : Outcome TransactionResponse) (s : Session)
      → IsReplay o
      → IsUntouched others db s
      → IsRecorded env others household user payload db (o, s)
  untouched-IsRecorded (ok r) s replayed same = inl (replayed, same)
  untouched-IsRecorded (raised e) s replayed same = same

  insert_transaction-IsRecorded :
      (owner : Option ℕ × Option Text) (k : ℕ) (s : Session)
      → resolve_owner_fields household.id payload.owner_user_id payload.owner_name
          transaction_owner_invalid
          (open_session db)
        ≡ (ok owner, open_session db)
      → IsMoved db s
      → IsRecorded env others household user payload db (
          insert_transaction verdict others
            (new_transaction env household.id user.id payload (source_ref_of payload) owner k)
            (source_ref_of payload)
            s)
  insert_transaction-IsRecorded owner k s resolved (same, stored) =
      let t = new_transaction env household.id user.id payload (source_ref_of payload) owner k in
      insert_transaction_ind verdict others t (source_ref_of payload) s
        (IsRecorded env others household user payload db)
        (let (body, loaded) = loaded-after_commit t s in
          rw (IsRecorded, loaded)
            (inr (
              refl,
              (
                owner,
                resolved,
                map-append unkeyed s.working.transactions (t ∷ [])
                    ∙ ap (λ ts. ts ++ unkeyed t ∷ []) same,
              ),
            )))
        (λ o replayed.
          untouched-IsRecorded o (after_rollback others s) replayed (inr (ap others stored)))

  -- A creation either responds with 201 and has stored the new transaction, with the owner that the
  -- payload resolves to, after all that were there, of which at most the order keys have changed; or it
  -- responds with 200 or raises, and has stored nothing: the database is as it was, or as others left it
  -- when the commit failed.
  pub create_transaction-IsRecorded :
      IsRecorded env others household user payload db
        (create_transaction env verdict others household user payload (open_session db))
  create_transaction-IsRecorded =
      create_transaction_ind env verdict others household user payload (open_session db)
        (IsRecorded env others household user payload db)
        (λ existing e.
          let o = (load_transaction_read existing.id (open_session db)).0 in
          untouched-IsRecorded (respond 200 o) (open_session db) (respond-IsReplay o) (inl refl))
        (λ e o replayed. untouched-IsRecorded o (open_session db) replayed (inl refl))
        (λ e x s' a. inl (
          (allocation-IsMoved household.id payload.occurred_on payload.anchor_transaction_id
            payload.insert_position db (raised x) s' a).1))
        (λ e fit owner r k s' a. insert_transaction-IsRecorded owner k s' r (
          allocation-IsMoved household.id payload.occurred_on payload.anchor_transaction_id
            payload.insert_position db (ok k) s' a))
