-- ===== src/Time/Calendar.antt =====
-- The Gregorian calendar, described without the loops of kernel/time.c: days counted from
-- 1 January of the year 1 by a closed formula.
use exscape_os.Prelude.{
  ℕ, zero, suc, ◌+◌, ◌-◌, ◌*◌, ◌/◌, ◌≤◌, ◌<◌, ◌≡◌, ◌&&◌, List, [], ◌∷◌, arith, ltb, ◌==◌,
  if◌then◌else◌, get_or, take,
}
use exscape_os.Time.{Time, is_leap, days_in_year, years_up, years_down, month_lengths}

-- the days before 1 January of the year `n` of our era
unfoldable pub days_before_year : ℕ → ℕ
days_before_year n = (n - 1) * 365 + (n - 1) / 4 - (n - 1) / 100 + (n - 1) / 400

unfoldable pub total : List ℕ → ℕ
total [] = 0
total (x ∷ xs) = x + total xs

-- the length of a month, 0 to 11, in a year since 1900
unfoldable pub month_length : (year month : ℕ) → ℕ
unfolding is_leap
month_length year month =
    if month == 1 then (if is_leap year then 29 else 28) else get_or month_lengths month 0

-- the days of a year before a month
unfoldable pub days_before : (year month : ℕ) → ℕ
unfolding total is_leap
days_before year month =
    total (take month month_lengths) + (if ltb 1 month && is_leap year then 1 else 0)

-- the number of a day; `year` counts from 1900, `month` from 0, `day` from 1
unfoldable pub day_number : (year month day : ℕ) → ℕ
unfolding days_before days_before_year
day_number year month day = days_before_year (year + 1900) + days_before year month + (day - 1)

-- 1 January 1970
abbrev pub epoch : ℕ
epoch = 719162

-- A date of the calendar at a time of the day.
pub record IsDate (t : Time) : Type 0 where
  pub month_in : t.month < 12
  pub day_from : 0 < t.day
  pub day_to : t.day ≤ month_length t.year t.month
  pub hour_in : t.hour < 24
  pub minute_in : t.minute < 60
  pub second_in : t.second < 60

pub days_before_year-suc :
    (y : ℕ) → days_before_year (y + 1901) ≡ days_before_year (y + 1900) + days_in_year y
unfolding days_before_year days_in_year
days_before_year-suc y = ground arith

pub years_up_lem :
    (n y days : ℕ)
    → years_up n y days + days_before_year (y + 1900) ≡ days + days_before_year (y + n + 1900)
unfolding years_up
years_up_lem zero y days = let e : y + 0 ≡ y = omega arith in rw e
years_up_lem (suc n) y days =
    let e : y + suc n + 1900 ≡ y + 1 + n + 1900 = omega arith in
    let e' : y + 1 + 1900 ≡ y + 1901 = omega arith in
    rw e (
      omega
        (arith, rw e' at (years_up_lem n (y + 1) (days + days_in_year y)), days_before_year-suc y))

pub years_down_lem :
    (n y days : ℕ)
    → n ≤ y
    → years_down n y days + days_before_year (y - n + 1900) ≡ days + days_before_year (y + 1901)
unfolding years_down
years_down_lem zero y days h =
    let e : y - 0 ≡ y = omega arith in rw e (omega (arith, days_before_year-suc y))
years_down_lem (suc n) zero days h = absurd (omega arith)
years_down_lem (suc n) (suc y) days h =
    let e : suc y - suc n ≡ y - n = omega arith in
    let e' : suc y - 1 ≡ y = omega arith in
    let e2 : suc y + 1900 ≡ y + 1901 = omega arith in
    rw (e, e')
      (omega (
        arith,
        years_down_lem n y (days + days_in_year (suc y)) (omega arith),
        rw e2 at (days_before_year-suc (suc y)),
      ))
