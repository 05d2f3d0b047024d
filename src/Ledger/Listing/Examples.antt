-- ===== src/Ledger/Listing/Examples.antt =====
-- A leap day and the months of its year (transactions.py).
use money_flow_service.Prelude.{arith, ◌∷◌, some, ◌≡◌, ◌+◌, [], none, ℕ, refl}
use money_flow_service.Ledger.Listing.Periods.{month_period-year}
use money_flow_service.Ledger.Listing.{
  month_period, is_in_period, days_through_month, days_before_year, year_period, first_day,
}
use money_flow_service.Prelude.Tables.{count}
use money_flow_service.Prelude.Text.{text}
use money_flow_service.Models.{Transaction, expense}

-- 29 February 2024
abbrev leap_day : ℕ
leap_day = 738945

-- The count of days is Python's.
leap_day-first : first_day 2024 2 + 28 ≡ leap_day
unfolding first_day days_before_year days_through_month
leap_day-first = refl

abbrev on_leap_day : Transaction
on_leap_day = record {
  id = 1;
  household_id = 10;
  category_id = none;
  flow_type = expense;
  occurred_on = leap_day;
  amount = 100;
  installment_months = none;
  currency = text "KRW";
  memo = [];
  order_key = 1024;
  owner_user_id = none;
  owner_name = none;
  source_ref = none;
  version = 1;
  created_by_user_id = none;
  created_at = 5;
}

month_period-year_example :
    count
      (λ month. is_in_period (some (month_period 2024 month)) on_leap_day)
      (1 ∷ 2 ∷ 3 ∷ 4 ∷ 5 ∷ 6 ∷ 7 ∷ 8 ∷ 9 ∷ 10 ∷ 11 ∷ 12 ∷ [])
    ≡ 1
unfolding year_period first_day days_before_year days_through_month
month_period-year_example = month_period-year 2024 on_leap_day (omega arith)
