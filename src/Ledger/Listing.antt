-- ===== src/Ledger/Listing.antt =====
-- transactions.py, `list_transactions`: the transactions of a period.
pub mod Periods
mod Examples
use money_flow_service.Errors.{
  month_without_year, start_after_end, dates_not_together, http_exception,
}
use money_flow_service.Session.{◌>>◌, raise_if, query, ◌>>=◌, raise, Handler, pure}
use money_flow_service.Ledger.History.{read_row}
use money_flow_service.Prelude.{
  map, none, not, nat_eq, drop, leb, ◌/◌, ◌||◌, take, ◌&&◌, false, zero, some, ◌==◌, true, ◌%◌, ◌*◌,
  List, ltb, ◌-◌, if◌then◌else◌, suc, ◌+◌, Bool, Option, ℕ,
}
use money_flow_service.Ledger.Order.{leq_same_day, sort_by}
use money_flow_service.Ledger.Reads.{TransactionRead, to_transaction_read}
use money_flow_service.Models.{Database, Household, Transaction}
use money_flow_service.Prelude.Tables.{select}

-- Python's `date(year, month, 1).toordinal()`, the count of days that the model uses.
unfoldable pub days_before_year : (year : ℕ) → ℕ
days_before_year year = let y = year - 1 in y * 365 + y / 4 + y / 400 - y / 100

abbrev pub is_leap : ℕ → Bool
is_leap year = year % 4 == 0 && (not (year % 100 == 0) || year % 400 == 0)

abbrev pub days_in_month : (year month : ℕ) → ℕ
days_in_month year month =
    if month == 2
    then (if is_leap year then 29 else 28)
    else if month == 4 || month == 6 || month == 9 || month == 11
    then 30
    else 31

-- The days of the months before the one after `month`.
unfoldable pub days_through_month : (year month : ℕ) → ℕ
days_through_month year zero = 0
days_through_month year (suc month) = days_through_month year month + days_in_month year (suc month)

unfoldable pub first_day : (year month : ℕ) → ℕ
unfolding days_before_year days_through_month
first_day year month = days_before_year year + days_through_month year (month - 1) + 1

-- A first day and the day after the last one
abbrev pub Period : Type 0
Period = ℕ × ℕ

-- `begin` and `end` of a month, and of a year.
unfoldable pub month_period : (year month : ℕ) → Period
unfolding first_day
month_period year month = (
  first_day year month,
  if month == 12 then first_day (year + 1) 1 else first_day year (month + 1),
)

unfoldable pub year_period : (year : ℕ) → Period
unfolding first_day
year_period year = (first_day year 1, first_day (year + 1) 1)

-- What the request asks for, `none` for everything.
unfoldable pub asked_period : (year month start_date end_date : Option ℕ) → Handler (Option Period)
unfolding month_period year_period
asked_period year month none (some end_date) = raise (http_exception 400 dates_not_together)
asked_period year month (some start_date) none = raise (http_exception 400 dates_not_together)
asked_period year month (some start_date) (some end_date) =
    raise_if (ltb end_date start_date) (http_exception 400 start_after_end)
    >> pure (some (start_date, end_date + 1))
asked_period (some year) (some month) none none = pure (some (month_period year month))
asked_period (some year) none none none = pure (some (year_period year))
asked_period none (some month) none none = raise (http_exception 400 month_without_year)
asked_period none none none none = pure none

abbrev pub is_in_period : Option Period → Transaction → Bool
is_in_period none t = true
is_in_period (some (begin, end)) t = leb begin t.occurred_on && ltb t.occurred_on end

-- `_list_ordering`: the last day first, and each day in its order.
abbrev pub leq_listed : Transaction → Transaction → Bool
leq_listed a b =
    if ltb b.occurred_on a.occurred_on
    then true
    else if ltb a.occurred_on b.occurred_on
    then false
    else leq_same_day a b

unfoldable pub listed_rows :
    (household_id : ℕ) → Option Period → (offset limit : ℕ) → Database → List Transaction
unfolding sort_by select
listed_rows household_id period offset limit db = take limit (
    drop offset (
      sort_by leq_listed
        (select (λ t. t.household_id == household_id && is_in_period period t) db.transactions)))

unfoldable pub list_transactions :
    Household
    → (year month start_date end_date : Option ℕ) → (limit offset : ℕ)
    → Handler (List TransactionRead)
unfolding asked_period listed_rows to_transaction_read
list_transactions household year month start_date end_date limit offset = do
  period ← asked_period year month start_date end_date
  query (λ db. map (read_row db) (listed_rows household.id period offset limit db))
