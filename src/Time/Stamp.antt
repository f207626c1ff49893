-- ===== src/Time/Stamp.antt =====
-- `kern_mktime` of kernel/time.c against the day count of the calendar.
use exscape_os.Prelude.{
  ℕ, zero, suc, sub_ℕ, ◌+◌, ◌-◌, ◌*◌, ◌^◌, ◌≤◌, ◌<◌, ◌≡◌, refl, ap, ◌∙◌, false, List, [], ◌∷◌, some,
  arith, ltb, ◌==◌, if◌then◌else◌, get_or, get_elem?, take, length, Bool-cases, All, inl, inr,
}
use exscape_os.Time.{
  Time, is_leap, days_in_year, days_in_month, years_up, years_down, month_lengths,
  days_before_month, carry, roll_days, validate_structure, fits_long, kern_mktime,
}
use exscape_os.Time.Calendar.{
  IsDate, days_before_year, total, month_length, days_before, day_number, epoch, years_up_lem,
  years_down_lem,
}

get_elem?-get_or : (xs : List ℕ) (i d : ℕ) → i < length xs → get_elem? xs i ≡ some (get_or xs i d)
get_elem?-get_or [] i d h = absurd (omega arith)
get_elem?-get_or (x ∷ xs) zero d h = refl
get_elem?-get_or (x ∷ xs) (suc i) d h = get_elem?-get_or xs i d (omega arith)

get_or-le : {b : ℕ} (i : ℕ) (xs : List ℕ) → All (λ x. x ≤ b) xs → get_or xs i 0 ≤ b
get_or-le i [] h = omega arith
get_or-le zero (x ∷ xs) h = h.0
get_or-le (suc i) (x ∷ xs) h = get_or-le i xs h.1

-- `days_in_feb` as the code computes it
abbrev feb : ℕ → ℕ
feb y = if days_in_year y == 366 then 29 else 28

month_table : (y m : ℕ) → m < 12 → days_in_month (feb y) m ≡ some (month_length y m)
unfolding days_in_month days_in_year month_length
month_table y m h = ground (arith, get_elem?-get_or month_lengths m 0 h)

before_table :
    (m : ℕ) → m < 12 → get_elem? days_before_month m ≡ some (total (take m month_lengths))
unfolding total
before_table zero h = refl
before_table (suc zero) h = refl
before_table (suc (suc zero)) h = refl
before_table (suc (suc (suc zero))) h = refl
before_table (suc (suc (suc (suc zero)))) h = refl
before_table (suc (suc (suc (suc (suc zero))))) h = refl
before_table (suc (suc (suc (suc (suc (suc zero)))))) h = refl
before_table (suc (suc (suc (suc (suc (suc (suc zero))))))) h = refl
before_table (suc (suc (suc (suc (suc (suc (suc (suc zero)))))))) h = refl
before_table (suc (suc (suc (suc (suc (suc (suc (suc (suc zero))))))))) h = refl
before_table (suc (suc (suc (suc (suc (suc (suc (suc (suc (suc zero)))))))))) h = refl
before_table (suc (suc (suc (suc (suc (suc (suc (suc (suc (suc (suc zero))))))))))) h = refl
before_table (suc (suc (suc (suc (suc (suc (suc (suc (suc (suc (suc (suc m)))))))))))) h =
    absurd (omega arith)

total-take-le : (n : ℕ) (xs : List ℕ) → total (take n xs) ≤ total xs
unfolding total
total-take-le zero xs = omega arith
total-take-le (suc n) [] = omega arith
total-take-le (suc n) (x ∷ xs) = omega (arith, total-take-le n xs)

days_before-le : (y m : ℕ) → days_before y m ≤ 366
unfolding days_before
days_before-le y m = ground (arith, total-take-le m month_lengths)

-- A date of the calendar has nothing to carry and no days to roll over.
validate_structure-IsDate : (t : Time) → IsDate t → validate_structure t ≡ some t
unfolding validate_structure carry roll_days
validate_structure-IsDate t v = ground (arith, month_table t.year t.month v.month_in)

sub_ℕ-eq : (a b c d : ℕ) → a + d ≡ c + b → sub_ℕ a b ≡ sub_ℕ c d
sub_ℕ-eq a b c d h = ground arith

fits : (a b : ℕ) → a < b + 2 ^ 31 → b ≤ a + 2 ^ 31 → fits_long (sub_ℕ a b) ≡ some (sub_ℕ a b)
unfolding fits_long
fits a b h k = ground arith

epoch_lem : days_before_year 1970 ≡ epoch
unfolding days_before_year
epoch_lem = refl

up : (y : ℕ) → 70 ≤ y → years_up (y - 70) 70 0 + epoch ≡ days_before_year (y + 1900)
up y h =
    let e : 70 + (y - 70) ≡ y = omega arith in
    let l : years_up (y - 70) 70 0 + days_before_year 1970 ≡ 0 + days_before_year (y + 1900) =
      rw e at (years_up_lem (y - 70) 70 0) in
    omega (arith, l, epoch_lem)

down : (y : ℕ) → y < 70 → years_down (69 - y) 69 0 + days_before_year (y + 1900) ≡ epoch
down y h =
    let e : 69 - (69 - y) ≡ y = omega arith in
    let l : years_down (69 - y) 69 0 + days_before_year (y + 1900) ≡ 0 + days_before_year 1970 =
      rw e at (years_down_lem (69 - y) 69 0 (omega arith)) in
    omega (arith, l, epoch_lem)

-- the days that the two loops over the years count
years_lem :
    (y : ℕ)
    → (if ltb 70 y then years_up (y - 70) 70 0 else 0) + epoch
      ≡ days_before_year (y + 1900) + (if ltb y 70 then years_down (69 - y) 69 0 else 0)
years_lem y = elim (Bool-cases (ltb 70 y)) [
  | inl after ↦
      let not_before : ltb y 70 ≡ false = ground arith in
      rw (after, not_before) (omega (arith, up y (ground arith)))
  | inr not_after ↦ elim (Bool-cases (ltb y 70)) [
    | inl before ↦ rw (not_after, before) (omega (arith, down y (ground arith)))
    | inr not_before ↦
        let e : y ≡ 70 = ground arith in rw (not_after, not_before, e) (omega (arith, epoch_lem))
  ]
]

-- The sum that the code forms is the one of the calendar.
stamp_sum :
    (s day before leap more fewer start : ℕ)
    → more + epoch ≡ start + fewer
    → 0 < day
    → day ≤ 31
    → before + leap ≤ 366
    → s < 200000
    → 694325 ≤ start
    → start ≤ 743268
    → fits_long (sub_ℕ (s + (day + before + leap + more) * 86400) ((fewer + 1) * 86400))
      ≡ some (sub_ℕ ((start + (before + leap) + (day - 1)) * 86400 + s) (epoch * 86400))
stamp_sum s day before leap more fewer start e d0 d31 b s24 lo hi =
    fits (s + (day + before + leap + more) * 86400) ((fewer + 1) * 86400) (omega arith)
      (omega arith)
    ∙ ap some (
        sub_ℕ-eq (s + (day + before + leap + more) * 86400) ((fewer + 1) * 86400)
          ((start + (before + leap) + (day - 1)) * 86400 + s) (epoch * 86400) (omega arith))

leap_test : (y : ℕ) → (days_in_year y == 366) ≡ is_leap y
unfolding days_in_year
leap_test y = ground arith

month_length-le : (y m : ℕ) → month_length y m ≤ 31
unfolding month_length
month_length-le y m = ground (arith, get_or-le {b = 31} m month_lengths (omega arith))

days_before_year_bounds :
    (y : ℕ)
    → 2 ≤ y
    → y ≤ 136
    → (694325 ≤ days_before_year (y + 1900)) × (days_before_year (y + 1900) ≤ 743268)
unfolding days_before_year
days_before_year_bounds y h k = omega arith

-- the seconds of the day
abbrev pub seconds : Time → ℕ
seconds t = t.second + t.minute * 60 + t.hour * 3600

-- The time stamp of a date of the years 1902 to 2036 is the number of seconds from the start of
-- 1970 to it by the calendar, negative before 1970, and does not overflow.
pub kern_mktime-day_number :
    (t : Time)
    → IsDate t
    → 2 ≤ t.year
    → t.year ≤ 136
    → kern_mktime t
      ≡ some (sub_ℕ (day_number t.year t.month t.day * 86400 + seconds t) (epoch * 86400))
unfolding kern_mktime
kern_mktime-day_number t v from to =
    let (lo, hi) = days_before_year_bounds t.year from to in
    let length_le = month_length-le t.year t.month in
    let before_le = days_before-le t.year t.month in
    rw (validate_structure-IsDate t v, before_table t.month v.month_in, leap_test)
      (unfold day_number days_before in
        stamp_sum (seconds t) t.day (total (take t.month month_lengths)) _ _ _
          (days_before_year (t.year + 1900)) (years_lem t.year) v.day_from (omega (arith, v.day_to))
          before_le (omega (arith, v.hour_in, v.minute_in, v.second_in)) lo hi)

validate_structure-hour_24 :
    (t : Time)
    → IsDate t
    → t.day < month_length t.year t.month
    → validate_structure (record t { hour = 24 }) ≡ some (record t { hour = 24; day = t.day + 1 })
unfolding validate_structure carry roll_days
validate_structure-hour_24 t v inner =
    let le = month_length-le t.year t.month in ground (arith, month_table t.year t.month v.month_in)

-- An hour of 24, as `gettimeofday` makes it of 23, is carried into the day and counted again with
-- the hours: the time stamp is a day too late, for any day but the last of its month.
pub kern_mktime-hour_24 :
    (t : Time)
    → IsDate t
    → 2 ≤ t.year
    → t.year ≤ 136
    → t.hour ≡ 0
    → t.day < month_length t.year t.month
    → kern_mktime (record t { hour = 24 })
      ≡ some (
          sub_ℕ (day_number t.year t.month (t.day + 1) * 86400 + seconds t + 86400) (epoch * 86400))
unfolding kern_mktime
kern_mktime-hour_24 t v from to h0 inner =
    let (lo, hi) = days_before_year_bounds t.year from to in
    let length_le = month_length-le t.year t.month in
    let before_le = days_before-le t.year t.month in
    let m_in = v.month_in in
    let minute_in = v.minute_in in
    let second_in = v.second_in in
    rw (validate_structure-hour_24 t v inner, before_table t.month m_in, leap_test)
      (unfold day_number days_before in
        stamp_sum (t.second + t.minute * 60 + 24 * 3600) (t.day + 1)
          (total (take t.month month_lengths)) _ _ _ (days_before_year (t.year + 1900))
          (years_lem t.year) (omega arith) (omega arith) before_le (omega arith) lo hi
        ∙ ap (λ n. some (sub_ℕ n (epoch * 86400))) (omega arith))
