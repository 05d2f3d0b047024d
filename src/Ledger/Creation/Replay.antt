-- ===== src/Ledger/Creation/Replay.antt =====
-- A creation that is repeated with the same `source_ref` (transactions.py, `create_transaction`).
use money_flow_service.Session.{
  Session, open_session, stored_after, outcome, raised, ok, Verdict, Outcome,
}
use money_flow_service.Prelude.Text.{text_beq_iff, Text}
use money_flow_service.Ledger.Reads.{has_transaction_id, load_transaction_read}
use money_flow_service.Ledger.Creation.Branches.{
  insert_transaction_ind, respond-IsReplay, respond, create_transaction_ind, IsReplay,
}
use money_flow_service.Ledger.Creation.{
  new_transaction, create_transaction, source_ref_of, TransactionCreate, has_source_ref,
  TransactionResponse,
}
use money_flow_service.Prelude.{
  nat_beq_refl, arith, false, refl, inr, inl, [], Bool-cases, ◌++◌, ◌∷◌, true, some, List, ◌≡◌,
  Bool, ℕ,
}
use money_flow_service.Models.{User, Household, Database, Transaction}
use money_flow_service.Household.Invitations.{Surroundings}
use money_flow_service.Prelude.Tables.{find?}

-- A row that one query finds is found by any query that it passes.
find?-weaker :
    (p q : Transaction → Bool) (ts : List Transaction) {t : Transaction}
    → find? p ts ≡ some t
    → q t ≡ true
    → (u : Transaction) × (find? q ts ≡ some u)
unfolding find?
find?-weaker p q [] h k = cc
find?-weaker p q (x ∷ xs) {t} h k = elim (Bool-cases (q x)) [
  | inl e ↦ (x, rw e refl)
  | inr e ↦ elim (Bool-cases (p x)) [
    | inl y ↦ cc (rw y at h)
    | inr y ↦ rw e (find?-weaker p q xs (rw y at h) k)
  ]
]

pub find?-append_new :
    (p : Transaction → Bool) (ts : List Transaction) (t : Transaction)
    → p t ≡ true
    → (u : Transaction) × (find? p (ts ++ t ∷ []) ≡ some u)
unfolding find?
find?-append_new p [] t h = (t, rw h refl)
find?-append_new p (x ∷ xs) t h = elim (Bool-cases (p x)) [
  | inl e ↦ (x, rw e refl)
  | inr e ↦ rw e (find?-append_new p xs t h)
]

-- A transaction of the household with this reference is stored.
abbrev pub IsKnown : (household_id : ℕ) → Text → Database → Type 0
IsKnown household_id source_ref db =
    (t : Transaction) × (find? (has_source_ref household_id source_ref) db.transactions ≡ some t)

-- A response that says that a transaction was created.
abbrev pub IsCreated : Outcome TransactionResponse → Type 0
IsCreated (ok r) = r.status_code ≡ 201
IsCreated (raised e) = false ≡ true

replay-not-created : {X : Type 0} (o : Outcome TransactionResponse) → IsReplay o → IsCreated o → X
replay-not-created (ok r) replayed created = ground arith
replay-not-created (raised e) replayed created = cc created

created-IsKnown :
    (env : Surroundings) (verdict : Verdict) (others : Database → Database) (household : Household)
    (user : User) (payload : TransactionCreate) (db : Database) (source_ref : Text)
    → source_ref_of payload ≡ some source_ref
    → IsCreated (outcome (create_transaction env verdict others household user payload) db)
    → IsKnown household.id source_ref
        (stored_after (create_transaction env verdict others household user payload) db)
created-IsKnown env verdict others household user payload db source_ref ref =
    create_transaction_ind env verdict others household user payload (open_session db)
      (λ r. IsCreated r.0 → IsKnown household.id source_ref r.1.stored)
      (λ existing e created.
        let o = (load_transaction_read existing.id (open_session db)).0 in
        replay-not-created (respond 200 o) (respond-IsReplay o) created)
      (λ e o replayed created. replay-not-created o replayed created)
      (λ e x s' a created. cc created)
      (λ e fit owner r k s' a.
        let t = new_transaction env household.id user.id payload (source_ref_of payload) owner k in
        insert_transaction_ind verdict others t (source_ref_of payload) s'
          (λ r. IsCreated r.0 → IsKnown household.id source_ref r.1.stored)
          (λ created.
            find?-append_new (has_source_ref household.id source_ref) s'.working.transactions t (
              rw (ref, nat_beq_refl household.id, (text_beq_iff source_ref source_ref).1 refl)
                refl))
          (λ o replayed created. replay-not-created o replayed created))

-- The response says 200, and nothing is stored or sent.
abbrev pub IsRepeat : Database → Outcome TransactionResponse × Session → Type 0
IsRepeat db (ok r, s) = (r.status_code ≡ 200) × (s ≡ open_session db)
IsRepeat db (raised e, s) = false ≡ true

IsKnown-create_transaction :
    (env : Surroundings) (verdict : Verdict) (others : Database → Database) (household : Household)
    (user : User) (payload : TransactionCreate) (db : Database) (source_ref : Text)
    → source_ref_of payload ≡ some source_ref
    → IsKnown household.id source_ref db
    → IsRepeat db (create_transaction env verdict others household user payload (open_session db))
unfolding create_transaction load_transaction_read
IsKnown-create_transaction env verdict others household user payload db source_ref ref (t, found) =
    let (u, again) =
      find?-weaker (has_source_ref household.id source_ref) (has_transaction_id t.id)
        db.transactions found (nat_beq_refl t.id) in
    rw (IsRepeat, ref, found, again) (refl, refl)

-- If a request creates a transaction with a `source_ref`, then a request to the same household with the
-- same `source_ref` after trimming, whoever makes it, responds with 200 and stores and sends nothing.
pub create_transaction-once :
    (env env' : Surroundings) (verdict verdict' : Verdict) (others others' : Database → Database)
    (household : Household) (user user' : User) (payload payload' : TransactionCreate)
    (db : Database) (source_ref : Text)
    → source_ref_of payload ≡ some source_ref
    → source_ref_of payload' ≡ some source_ref
    → IsCreated (outcome (create_transaction env verdict others household user payload) db)
    → IsRepeat (stored_after (create_transaction env verdict others household user payload) db) (
        create_transaction env' verdict' others' household user' payload' (
          open_session
            (stored_after (create_transaction env verdict others household user payload) db)))
create_transaction-once env env' verdict verdict' others others' household user user' payload
      payload' db source_ref ref ref' created =
    IsKnown-create_transaction env' verdict' others' household user' payload'
      (stored_after (create_transaction env verdict others household user payload) db) source_ref
      ref' (created-IsKnown env verdict others household user payload db source_ref ref created)
