-- ===== src/Ledger/Listing/Periods.antt =====
-- transactions.py, `list_transactions`: the months of a year and the year.
use money_flow_service.Prelude.{
  sym, inr, nat_beq_iff, ◌∙◌, refl, ap, inl, Bool, Bool-cases, some, zero, ◌∷◌, suc, ◌-◌, ◌≤◌, [],
  List, ◌%◌, nat_beq, ◌/◌, if◌then◌else◌, ◌+◌, ◌≡◌, ℕ, arith,
}
use money_flow_service.Ledger.Listing.{
  year_period, is_in_period, month_period, Period, days_in_month, first_day, days_before_year,
  is_leap, days_through_month,
}
use money_flow_service.Models.{Transaction}
use money_flow_service.Prelude.Tables.{count}

-- One more day makes a quotient grow at the multiples.
next-quotient_4 : (y : ℕ) → (y + 1) / 4 ≡ y / 4 + (if nat_beq ((y + 1) % 4) 0 then 1 else 0)
next-quotient_4 y = ground arith

next-quotient_100 : (y : ℕ) → (y + 1) / 100 ≡ y / 100 + (if nat_beq ((y + 1) % 100) 0 then 1 else 0)
next-quotient_100 y = ground arith

next-quotient_400 : (y : ℕ) → (y + 1) / 400 ≡ y / 400 + (if nat_beq ((y + 1) % 400) 0 then 1 else 0)
next-quotient_400 y = ground arith

days_through_month-all :
    (year : ℕ) → days_through_month year 12 ≡ (if is_leap year then 366 else 365)
unfolding days_through_month
days_through_month-all year = ground arith

next_year :
    (year : ℕ)
    → 1 ≤ year
    → days_before_year (year + 1) ≡ days_before_year year + (if is_leap year then 366 else 365)
unfolding days_before_year
next_year year h =
    let y = year - 1 in
    let same : y + 1 ≡ year = omega arith in
    ground (arith, next-quotient_4 y, next-quotient_100 y, next-quotient_400 y)

next_january : (year : ℕ) → 1 ≤ year → first_day (year + 1) 1 ≡ first_day year 13
unfolding first_day days_through_month
next_january year h =
    let all = days_through_month-all year in let next = next_year year h in omega arith

-- The first day of the month after.
next_month :
    (year m : ℕ) → first_day year (m + 2) ≡ first_day year (m + 1) + days_in_month year (m + 1)
unfolding first_day days_through_month
next_month year m =
    let before : m + 1 - 1 ≡ m = omega arith in
    let here : m + 2 - 1 ≡ suc m = omega arith in
    let next : m + 1 ≡ suc m = omega arith in rw (before, here, next) (omega arith)

months_from : (first n : ℕ) → List ℕ
months_from first zero = []
months_from first (suc n) = first ∷ months_from (first + 1) n

-- The months as they lie in the year, without a thought for its end.
abbrev span : (year m : ℕ) → Period
span year m = (first_day year m, first_day year (m + 1))

abbrev lies_in : Period → Transaction → ℕ
lies_in (begin, end) t = if is_in_period (some (begin, end)) t then 1 else 0

lies_in-join :
    (a b c : ℕ) (t : Transaction)
    → a ≤ b
    → b ≤ c
    → (if is_in_period (some (a, b)) t then suc (lies_in (b, c) t) else lies_in (b, c) t)
      ≡ lies_in (a, c) t
lies_in-join a b c t h k = ground arith

count-spans :
    (year m n : ℕ) (t : Transaction)
    → (count (λ k. is_in_period (some (span year k)) t) (months_from (m + 1) n)
        ≡ lies_in (first_day year (m + 1), first_day year (m + 1 + n)) t)
      × (first_day year (m + 1) ≤ first_day year (m + 1 + n))
unfolding count months_from
count-spans year m zero t =
    let same : m + 1 + 0 ≡ m + 1 = omega arith in rw same (ground arith, omega arith)
count-spans year m (suc n) t =
    let rest = count-spans year (m + 1) n t in
    let step = next_month year m in
    let later : m + 1 + suc n ≡ m + 1 + 1 + n = omega arith in
    let next : m + 1 + 1 ≡ m + 2 = omega arith in
    let up : first_day year (m + 1) ≤ first_day year (m + 1 + 1) = rw next (omega arith) in
    let joined =
      lies_in-join (first_day year (m + 1)) (first_day year (m + 1 + 1))
        (first_day year (m + 1 + 1 + n)) t up rest.1 in
    rw (later, rest.0) (joined, omega arith)

month_period-span : (year m : ℕ) → 1 ≤ year → month_period year m ≡ span year m
unfolding month_period
month_period-span year m h = elim (Bool-cases (nat_beq m 12)) [
  | inl e ↦
      let december : m ≡ 12 = (nat_beq_iff m 12).0 e in rw (december, next_january year h) refl
  | inr e ↦ rw e refl
]

count-same : (p q : ℕ → Bool) (ks : List ℕ) → ((k : ℕ) → p k ≡ q k) → count p ks ≡ count q ks
unfolding count
count-same p q [] h = refl
count-same p q (k ∷ ks) h = rw (h k, count-same p q ks h) refl

-- A transaction is in the period of exactly one month of a year if it is in the period of the year, and
-- of none otherwise.
pub month_period-year :
    (year : ℕ) (t : Transaction)
    → 1 ≤ year
    → count
        (λ month. is_in_period (some (month_period year month)) t)
        (1 ∷ 2 ∷ 3 ∷ 4 ∷ 5 ∷ 6 ∷ 7 ∷ 8 ∷ 9 ∷ 10 ∷ 11 ∷ 12 ∷ [])
      ≡ (if is_in_period (some (year_period year)) t then 1 else 0)
unfolding year_period months_from
month_period-year year t h =
    let spans = (count-spans year 0 12 t).0 in
    count-same (λ month. is_in_period (some (month_period year month)) t)
      (λ month. is_in_period (some (span year month)) t) (months_from 1 12)
      (λ month. ap (λ p. is_in_period (some p) t) (month_period-span year month h))
    ∙ spans
    ∙ ap (λ end. lies_in (first_day year 1, end) t) (sym (next_january year h))
