-- ===== src/Ledger/Allocation/Insertion.antt =====
-- Where a new transaction stands among those of its day (transactions.py).
use money_flow_service.Errors.{AppError}
use money_flow_service.Session.{raised, Outcome, ok, Session}
use money_flow_service.Ledger.Order.{
  rebalance_order_keys, below, above, key_at, same_day_transactions, place_key, key_before,
  index_of, InsertPosition, midpoint,
}
use money_flow_service.Prelude.{
  zero, inr, inl, Option-cases, arith, none, suc, ◌<◌, some, ◌≡◌, List, Option, ℕ,
}
use money_flow_service.Models.{Transaction, Database}
use money_flow_service.Ledger.Allocation.{allocate_rounds}

abbrev pub LtOption : ℕ → Option ℕ → Type 0
LtOption k none = Unit
LtOption k (some high) = k < high

abbrev pub GtOption : ℕ → Option ℕ → Type 0
GtOption k none = Unit
GtOption k (some low) = low < k

-- A key strictly between the two rows around the place.
abbrev pub IsPlaced : InsertPosition → List Transaction → ℕ → ℕ → Type 0
IsPlaced above rows i k = GtOption k (key_before rows i) × LtOption k (key_at rows i)
IsPlaced below rows i k = GtOption k (key_at rows i) × LtOption k (key_at rows (suc i))

midpoint_between :
    (before after : Option ℕ) {k : ℕ}
    → midpoint before after ≡ some k
    → GtOption k before × LtOption k after
unfolding midpoint
midpoint_between none none h = (tt, tt)
midpoint_between none (some high) h = (tt, ground arith)
midpoint_between (some low) none {k} h = (ground arith, tt)
midpoint_between (some low) (some high) {k} h = (ground arith, ground arith)

place_key_lem :
    (position : InsertPosition) (rows : List Transaction) (i : ℕ) {k : ℕ}
    → place_key position rows i ≡ some k
    → IsPlaced position rows i k
place_key_lem above rows i h = midpoint_between (key_before rows i) (key_at rows i) h
place_key_lem below rows i h = midpoint_between (key_at rows i) (key_at rows (suc i)) h

-- What an allocation next to an anchor gives: the anchor is one of the day's transactions, and the key lies
-- strictly between its own and its neighbour's, in the database as it then is.
abbrev pub PlacedAt :
    (household_id occurred_on anchor_id : ℕ) → InsertPosition → ℕ → Database → Type 0
PlacedAt household_id occurred_on anchor_id position k db =
    (i : ℕ) × (index_of anchor_id (same_day_transactions household_id occurred_on db) ≡ some i)
    × IsPlaced position (same_day_transactions household_id occurred_on db) i k

-- The outcome of an allocation next to an anchor, if it gives a key.
abbrev pub IsPlacement :
    (household_id occurred_on anchor_id : ℕ) → InsertPosition → Outcome ℕ × Session → Type 0
IsPlacement household_id occurred_on anchor_id position (ok k, s) =
    PlacedAt household_id occurred_on anchor_id position k s.working
IsPlacement household_id occurred_on anchor_id position (raised e, s) = Unit

-- What holds of every refusal and of every key that was placed holds of the allocation.
pub allocate_rounds_ind :
    (household_id occurred_on anchor_id : ℕ) (position : InsertPosition)
    (P : Outcome ℕ × Session → Type 0)
    → ((e : AppError) (s : Session) → P (raised e, s))
    → ((i k : ℕ) (s : Session)
        → index_of anchor_id (same_day_transactions household_id occurred_on s.working) ≡ some i
        → place_key position (same_day_transactions household_id occurred_on s.working) i ≡ some k
        → P (ok k, s))
    → (rounds : ℕ) (s : Session)
    → P (allocate_rounds rounds household_id occurred_on anchor_id position s)
unfolding allocate_rounds
allocate_rounds_ind household_id occurred_on anchor_id position P refused placed zero s =
    refused _ s
allocate_rounds_ind household_id occurred_on anchor_id position P refused placed (suc rounds) s =
    let rows = same_day_transactions household_id occurred_on s.working in
    elim (Option-cases (index_of anchor_id rows)) [
      | inl e ↦ rw (allocate_rounds, e) (refused _ s)
      | inr (i, e) ↦ elim (Option-cases (place_key position rows i)) [
        | inl p ↦
            rw (allocate_rounds, e, p)
              (allocate_rounds_ind household_id occurred_on anchor_id position P refused placed
                rounds
                (record s { working = rebalance_order_keys household_id occurred_on s.working }))
        | inr (k, p) ↦ rw (allocate_rounds, e, p) (placed i k s e p)
      ]
    ]

pub allocate_rounds-IsPlacement :
    (rounds household_id occurred_on anchor_id : ℕ) (position : InsertPosition) (s : Session)
    → IsPlacement household_id occurred_on anchor_id position
        (allocate_rounds rounds household_id occurred_on anchor_id position s)
allocate_rounds-IsPlacement rounds household_id occurred_on anchor_id position s =
    allocate_rounds_ind household_id occurred_on anchor_id position
      (IsPlacement household_id occurred_on anchor_id position) (λ e s. tt)
      (λ i k s e p. (
        i,
        e,
        place_key_lem position (same_day_transactions household_id occurred_on s.working) i p,
      ))
      rounds s
