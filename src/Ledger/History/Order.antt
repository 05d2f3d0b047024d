-- ===== src/Ledger/History/Order.antt =====
-- transactions.py: the order of the history is total, and the tests on cursors say where a row stands
-- in it.
use money_flow_service.Prelude.{not, arith, false, ◌≡◌, ℕ, true}
use money_flow_service.Ledger.Cursor.{cursor_of, leq_history, newer_than_cursor, older_than_cursor}
use money_flow_service.Ledger.Order.{leq_same_day}
use money_flow_service.Models.{Transaction}

pub leq_history_total : (a b : Transaction) → leq_history a b ≡ false → leq_history b a ≡ true
leq_history_total a b h = ground arith

pub leq_same_day_trans :
    (a b c : Transaction)
    → leq_same_day a b ≡ true
    → leq_same_day b c ≡ true
    → leq_same_day a c ≡ true
leq_same_day_trans a b c h k = ground arith

pub leq_history_trans :
    (a b c : Transaction) → leq_history a b ≡ true → leq_history b c ≡ true → leq_history a c ≡ true
leq_history_trans a b c h k = ground (arith, leq_same_day_trans a b c)

pub leq_history_antisym :
    (a b : Transaction) → leq_history a b ≡ true → leq_history b a ≡ true → a.id ≡ b.id
leq_history_antisym a b h k = ground arith

pub older_than_cursor-leq :
    (household_id : ℕ) (r t : Transaction)
    → older_than_cursor (cursor_of household_id r) t ≡ not (leq_history r t)
unfolding older_than_cursor
older_than_cursor-leq household_id r t = ground arith

pub newer_than_cursor-leq :
    (household_id : ℕ) (r t : Transaction)
    → newer_than_cursor (cursor_of household_id r) t ≡ not (leq_history t r)
unfolding newer_than_cursor
newer_than_cursor-leq household_id r t = ground arith
