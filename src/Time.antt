-- ===== src/Time.antt =====
-- kernel/time.c: reading the real-time clock, and the time stamp of a date.
-- The fields of a `Time` are unsigned: `year` has 16 bits, the others have 8, and wrap around.
-- What the clock gives, register by register, is an argument. A fault (`none`) is a failed
-- assertion, a read outside a table, or a time stamp that overflows the 32 bits of `long`.
pub mod Calendar
pub mod Stamp
pub mod Clock
mod Tests
use exscape_os.Prelude.{
  ℕ, zero, suc, ℤ, pos, negsuc, sub_ℕ, ◌+◌, ◌-◌, ◌*◌, ◌/◌, ◌%◌, ◌^◌, Bool, true, false, ◌&&◌, ◌||◌,
  not, List, [], ◌∷◌, Option, none, some, ltb, leb, ◌==◌, if◌then◌else◌, ◌>>=◌, ◌>>◌, assert,
  get_elem?,
}

pub record Time : Type 0 where
  pub year : ℕ
  pub month : ℕ
  pub day : ℕ
  pub hour : ℕ
  pub minute : ℕ
  pub second : ℕ

-- the low bits of a field, for a `w`-bit field
abbrev pub u8 : ℕ → ℕ
u8 n = n % 2 ^ 8

abbrev pub u16 : ℕ → ℕ
u16 n = n % 2 ^ 16

-- bit `k` of a register
abbrev pub bit_set : ℕ → ℕ → Bool
bit_set n k = not (n / 2 ^ k % 2 == 0)

unfoldable pub bcd_to_bin : ℕ → ℕ
bcd_to_bin x = x / 16 * 10 + x % 16

unfoldable pub is_leap : ℕ → Bool
is_leap y = (y % 4 == 0) && (not (y % 100 == 0) || ((y + 1900) % 400 == 0))

unfoldable pub days_in_year : ℕ → ℕ
unfolding is_leap
days_in_year y = if is_leap y then 366 else 365

abbrev pub month_lengths : List ℕ
month_lengths = 31 ∷ 28 ∷ 31 ∷ 30 ∷ 31 ∷ 30 ∷ 31 ∷ 31 ∷ 30 ∷ 31 ∷ 30 ∷ 31 ∷ []

abbrev pub days_before_month : List ℕ
days_before_month = 0 ∷ 31 ∷ 59 ∷ 90 ∷ 120 ∷ 151 ∷ 181 ∷ 212 ∷ 243 ∷ 273 ∷ 304 ∷ 334 ∷ []

-- `_DAYS_IN_MONTH(x)`
unfoldable pub days_in_month : (days_in_feb month : ℕ) → Option ℕ
days_in_month days_in_feb month =
    if month == 1 then some days_in_feb else get_elem? month_lengths month

-- the 12-hour clock's bit for the afternoon, and the hour without it
unfoldable pub mask_pm : Bool → Time → Time × Bool
mask_pm is_24_hour t =
    if not is_24_hour && bit_set t.hour 7
    then (record t { hour = t.hour - 128 }, true)
    else (t, false)

unfoldable pub decode_bcd : Bool → Time → Time
unfolding bcd_to_bin
decode_bcd is_bcd t =
    let year = u16 (bcd_to_bin t.year) in
    if is_bcd
    then (record {
      year = u16 (year + (if ltb year 12 then 2100 else 2000));
      month = u8 (bcd_to_bin t.month);
      day = u8 (bcd_to_bin t.day);
      hour = u8 (bcd_to_bin t.hour);
      minute = u8 (bcd_to_bin t.minute);
      second = u8 (bcd_to_bin t.second);
    })
    else t

unfoldable pub to_24_hour : Bool → Bool → Time → Time
to_24_hour is_24_hour time_is_pm t =
    if is_24_hour
    then t
    else if time_is_pm && (t.hour == 12)
    then record t { hour = 0 }
    else if time_is_pm
    then record t { hour = u8 (t.hour + 12) }
    else t

-- `regb` is status register B of the clock
unfoldable pub rtc_reformat : (regb : ℕ) → Time → Time
rtc_reformat regb t =
    let is_bcd = not (bit_set regb 2) in
    let is_24_hour = bit_set regb 1 in
    let (masked, time_is_pm) = mask_pm is_24_hour t in
    to_24_hour is_24_hour time_is_pm (decode_bcd is_bcd masked)

-- `memcmp(&prev, t, sizeof(Time)) == 0`
unfoldable pub same_time : Time → Time → Bool
same_time s t =
    (s.year == t.year)
    && (s.month == t.month)
    && (s.day == t.day)
    && (s.hour == t.hour)
    && (s.minute == t.minute)
    && (s.second == t.second)

-- The loop of `get_time` over the readings that the clock gives in turn.
unfoldable pub settle : Time → List Time → Option Time
settle prev [] = none
settle prev (t ∷ readings) =
    let rest = settle t readings in if same_time prev t then some t else rest

abbrev pub zero_time : Time
zero_time = record { year = 0; month = 0; day = 0; hour = 0; minute = 0; second = 0 }

-- `get_time`; `none` if the readings run out before two agree
unfoldable pub get_time : (regb : ℕ) → List Time → Option Time
get_time regb readings = do t ← settle zero_time readings; some (rtc_reformat regb t)

-- The carries of `validate_structure`: what overflows a field is added to the next one, and the
-- field itself is left as it is.
unfoldable pub carry : Time → Time
carry t =
    let minute = if ltb 59 t.second then u8 (t.minute + t.second / 60) else t.minute in
    let hour = if ltb 59 minute then u8 (t.hour + minute / 60) else t.hour in
    let day = if ltb 23 hour then u8 (t.day + hour / 24) else t.day in
    let year = if ltb 11 t.month then u16 (t.year + t.month / 12) else t.year in
    record t { year = year; day = day; hour = hour; minute = minute }

-- `while (day > _DAYS_IN_MONTH(month))`; a round takes 28 days at least, so `day` rounds are enough
unfoldable pub roll_days : (fuel : ℕ) → (days_in_feb : ℕ) → Time → Option Time
roll_days zero feb t = none
roll_days (suc fuel) feb t = elim (days_in_month feb t.month) [
  | none ↦ none
  | some n ↦ elim (ltb n t.day) [
    | false ↦ some t
    | true ↦ elim (t.month + 1 == 12) [
      | true ↦
          roll_days fuel (if days_in_year (u16 (t.year + 1)) == 366 then 29 else 28)
            (record t { year = u16 (t.year + 1); month = 0; day = t.day - n })
      | false ↦ roll_days fuel feb (record t { month = t.month + 1; day = t.day - n })
    ]
  ]
]

unfoldable pub validate_structure : Time → Option Time
validate_structure t =
    let t' = carry t in roll_days (suc t'.day) (if days_in_year t'.year == 366 then 29 else 28) t'

-- `for (year = y; n more rounds; year++) days += _DAYS_IN_YEAR(year)`
unfoldable pub years_up : (n y days : ℕ) → ℕ
years_up zero y days = days
years_up (suc n) y days = years_up n (y + 1) (days + days_in_year y)

-- `for (year = y; n more rounds; year--) days -= _DAYS_IN_YEAR(year)`, and the one behind the loop
unfoldable pub years_down : (n y days : ℕ) → ℕ
years_down zero y days = days + days_in_year y
years_down (suc n) y days = years_down n (y - 1) (days + days_in_year y)

-- a `long` has 32 bits
unfoldable pub fits_long : ℤ → Option ℤ
fits_long (pos n) = if ltb n (2 ^ 31) then some (pos n) else none
fits_long (negsuc n) = if ltb n (2 ^ 31) then some (negsuc n) else none

unfoldable pub kern_mktime : Time → Option ℤ
kern_mktime tim = do
  t ← validate_structure tim
  before ← get_elem? days_before_month t.month
  let seconds = t.second + t.minute * 60 + t.hour * 3600
  let leap_day = if ltb 1 t.month && (days_in_year t.year == 366) then 1 else 0
  let days = t.day + before + leap_day
  let more = if ltb 70 t.year then years_up (t.year - 70) 70 0 else 0
  let fewer = if ltb t.year 70 then years_down (69 - t.year) 69 0 else 0
  fits_long (sub_ℕ (seconds + (days + more) * 86400) ((fewer + 1) * 86400))

-- `gettimeofday`: the seconds that it stores; the clock's month is 1 to 12
unfoldable pub gettimeofday : (regb : ℕ) → List Time → Option ℤ
gettimeofday regb readings = do
  t ← get_time regb readings
  assert (ltb 0 t.month)
  kern_mktime (record t {
    month = t.month - 1;
    year = u16 (t.year + 2 ^ 16 - 1900);
    hour = u8 (t.hour + 1);
  })
