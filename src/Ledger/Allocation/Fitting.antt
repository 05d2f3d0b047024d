-- ===== src/Ledger/Allocation/Fitting.antt =====
-- What `_allocate_order_key` (transactions.py) gives, for each combination of anchor and position.
use money_flow_service.Errors.{transaction_insert_anchor_required, app_error}
use money_flow_service.Ledger.Allocation.Insertion.{IsPlacement, allocate_rounds-IsPlacement}
use money_flow_service.Prelude.{
  false, refl, [], arith, ◌∷◌, ◌+◌, ◌≡◌, ◌<◌, true, List, leb, Bool, ◌&&◌, none, Option, ℕ,
}
use mathlib.Core.Option.{none, some}
use money_flow_service.Session.{ok, raised, Session, Outcome}
use money_flow_service.Prelude.Tables.{count-le-count, count, select}
use money_flow_service.Ledger.Order.{
  order_step, is_on_day, InsertPosition, max_key, next_append_order_key,
}
use money_flow_service.Models.{Transaction, Database}
use money_flow_service.Ledger.Allocation.{allocate_order_key}

max_key_bound :
    (p : Transaction → Bool) (k : ℕ) (ts : List Transaction)
    → max_key (select p ts) < k
    → count (λ t. p t && leb k t.order_key) ts ≡ 0
unfolding max_key select count
max_key_bound p k [] h = refl
max_key_bound p k (t ∷ ts) h = ground (arith, max_key_bound p k ts)

-- No key of the day reaches the given one.
abbrev pub IsLast : (household_id occurred_on : ℕ) → ℕ → Database → Type 0
IsLast household_id occurred_on k db =
    count (λ t. is_on_day household_id occurred_on t && leb k t.order_key) db.transactions ≡ 0

next_append_order_key-IsLast :
    (household_id occurred_on : ℕ) (db : Database)
    → IsLast household_id occurred_on (next_append_order_key household_id occurred_on none db) db
unfolding next_append_order_key
next_append_order_key-IsLast household_id occurred_on db =
    let p = λ (t : Transaction). is_on_day household_id occurred_on t && true in
    let k = max_key (select p db.transactions) + order_step in
    let bound = max_key_bound p k db.transactions (omega arith) in
    omega (
      arith,
      bound,
      count-le-count (λ t. is_on_day household_id occurred_on t && leb k t.order_key)
          (λ t. p t && leb k t.order_key) db.transactions (λ t h. ground arith),
    )

-- Without an anchor the key is larger than every key of the day; next to an anchor it is placed; and an
-- anchor without a position, or a position without an anchor, is refused.
abbrev pub IsFitting :
    (household_id occurred_on : ℕ) → Option ℕ → Option InsertPosition → Outcome ℕ × Session → Type 0
IsFitting household_id occurred_on none none (ok k, s) = IsLast household_id occurred_on k s.working
IsFitting household_id occurred_on none none (raised e, s) = false ≡ true
IsFitting household_id occurred_on (some anchor_id) (some position) r =
    IsPlacement household_id occurred_on anchor_id position r
IsFitting household_id occurred_on _ _ (o, s) =
    o ≡ raised (app_error 400 transaction_insert_anchor_required)

-- Without an anchor and a position, the allocated order key is larger than every key of the day; with
-- both, a key that is given lies strictly between the keys of the anchor and of its neighbour on that
-- side, as they then are; with one of them only, the allocation is refused.
pub allocate_order_key-IsFitting :
    (household_id occurred_on : ℕ) (anchor_id : Option ℕ) (position : Option InsertPosition)
    (s : Session)
    → IsFitting household_id occurred_on anchor_id position
        (allocate_order_key household_id occurred_on anchor_id position s)
unfolding allocate_order_key
allocate_order_key-IsFitting household_id occurred_on none none s =
    next_append_order_key-IsLast household_id occurred_on s.working
allocate_order_key-IsFitting household_id occurred_on (some anchor_id) (some position) s =
    allocate_rounds-IsPlacement 2 household_id occurred_on anchor_id position s
allocate_order_key-IsFitting household_id occurred_on (some anchor_id) none s = refl
allocate_order_key-IsFitting household_id occurred_on none (some position) s = refl
