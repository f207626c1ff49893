-- ===== src/Time/Clock.antt =====
-- `rtc_reformat` and `get_time` of kernel/time.c against what the clock's registers hold.
use exscape_os.Prelude.{
  ℕ, ◌+◌, ◌-◌, ◌*◌, ◌/◌, ◌%◌, ◌≤◌, ◌<◌, ◌≡◌, refl, ap, true, false, List, [], ◌∷◌, ◌++◌, some,
  arith, ltb, ◌==◌, if◌then◌else◌, Bool-cases, inl, inr, Option-cases, is_some,
}
use exscape_os.Time.{
  Time, u8, u16, bit_set, bcd_to_bin, rtc_reformat, mask_pm, decode_bcd, to_24_hour, same_time,
  settle, zero_time, get_time,
}

-- two decimal digits, four bits each
abbrev pub bcd : ℕ → ℕ
bcd n = n / 10 * 16 + n % 10

-- the registers of a clock in BCD, with a given hour register
abbrev pub registers : ℕ → Time → Time
registers hour t = record {
  year = bcd (t.year % 100);
  month = bcd t.month;
  day = bcd t.day;
  hour = hour;
  minute = bcd t.minute;
  second = bcd t.second;
}

-- the hour register of a 12-hour clock: 12, 1 to 11, and the same with bit 7 in the afternoon
unfoldable pub hour_12 : ℕ → ℕ
hour_12 h =
    if h == 0
    then bcd 12
    else if ltb h 12
    then bcd h
    else if h == 12
    then bcd 12 + 128
    else bcd (h - 12) + 128

-- A time that the registers can hold, in the hundred years that the code assumes.
pub record IsTime (t : Time) : Type 0 where
  pub year_from : 2012 ≤ t.year
  pub year_to : t.year < 2112
  pub month_in : t.month < 100
  pub day_in : t.day < 100
  pub hour_in : t.hour < 24
  pub minute_in : t.minute < 60
  pub second_in : t.second < 60

bcd_to_bin-bcd : (n : ℕ) → n < 100 → u8 (bcd_to_bin (bcd n)) ≡ n
unfolding bcd_to_bin
bcd_to_bin-bcd n h = omega arith

century :
    (y : ℕ)
    → 2012 ≤ y
    → y < 2112
    → (let n = u16 (bcd_to_bin (bcd (y % 100))) in u16 (n + (if ltb n 12 then 2100 else 2000))) ≡ y
unfolding bcd_to_bin
century y from to = ground arith

decode_bcd-registers :
    (h : ℕ) (t : Time)
    → IsTime t
    → decode_bcd true (registers h t) ≡ record t { hour = u8 (bcd_to_bin h) }
unfolding decode_bcd
decode_bcd-registers h t v =
    let n : ℕ = t.minute in
    let year : u16 (
          u16 (bcd_to_bin (bcd (t.year % 100)))
          + (if ltb (u16 (bcd_to_bin (bcd (t.year % 100)))) 12 then 2100 else 2000))
        ≡ t.year =
      century t.year v.year_from v.year_to in
    rw (
      year,
      bcd_to_bin-bcd t.month v.month_in,
      bcd_to_bin-bcd t.day v.day_in,
      bcd_to_bin-bcd t.minute (omega (arith, v.minute_in)),
      bcd_to_bin-bcd t.second (omega (arith, v.second_in)),
    )

-- With the clock in BCD and 24-hour mode, the time that the code makes of the registers is the
-- one that they hold, in the years 2012 to 2111.
pub rtc_reformat-registers :
    (regb : ℕ) (t : Time)
    → IsTime t
    → bit_set regb 2 ≡ false
    → bit_set regb 1 ≡ true
    → rtc_reformat regb (registers (bcd t.hour) t) ≡ t
unfolding rtc_reformat mask_pm to_24_hour
rtc_reformat-registers regb t v is_bcd is_24 =
    rw (is_bcd, is_24, decode_bcd-registers (bcd t.hour) t v)
      (rw (bcd_to_bin-bcd t.hour (omega (arith, v.hour_in))))

morning :
    (h : ℕ)
    → h < 12
    → (bit_set (hour_12 h) 7 ≡ false) × (u8 (bcd_to_bin (hour_12 h)) ≡ (if h == 0 then 12 else h))
unfolding bcd_to_bin hour_12
morning h lt = ground arith

afternoon :
    (h : ℕ)
    → 12 ≤ h
    → h < 24
    → (bit_set (hour_12 h) 7 ≡ true)
      × (u8 (bcd_to_bin (hour_12 h - 128)) ≡ (if h == 12 then 12 else h - 12))
unfolding bcd_to_bin hour_12
afternoon h ge lt = ground arith

-- With the clock in BCD and 12-hour mode, every hour is right but midnight and noon: midnight
-- (12 in the morning) becomes 12, and noon (12 in the afternoon) becomes 0.
pub rtc_reformat-registers_12 :
    (regb : ℕ) (t : Time)
    → IsTime t
    → bit_set regb 2 ≡ false
    → bit_set regb 1 ≡ false
    → rtc_reformat regb (registers (hour_12 t.hour) t)
      ≡ record t { hour = if t.hour == 0 then 12 else if t.hour == 12 then 0 else t.hour }
unfolding rtc_reformat mask_pm to_24_hour
rtc_reformat-registers_12 regb t v is_bcd is_12 =
    let h24 = v.hour_in in
    elim (Bool-cases (ltb t.hour 12)) [
      | inl am ↦
          let (bit, hour) = morning t.hour (ground (arith, am)) in
          rw (is_bcd, is_12, bit, decode_bcd-registers (hour_12 t.hour) t v, hour)
            (ground (arith, am))
      | inr pm ↦
          let (bit, hour) = afternoon t.hour (ground (arith, pm)) h24 in
          rw (is_bcd, is_12, bit, decode_bcd-registers (hour_12 t.hour - 128) t v, hour)
            (ground (arith, pm))
    ]

-- two readings in turn are equal
pub Agree : Time → List Time → Type 0
Agree r readings = (before : List Time) × (after : List Time) × (readings ≡ before ++ r ∷ r ∷ after)

same_time_eq : (s t : Time) → same_time s t ≡ true → s ≡ t
unfolding same_time
same_time_eq s t h = ground (arith, h)

settle-Agree :
    (prev : Time) (readings : List Time) (t : Time)
    → settle prev readings ≡ some t
    → Agree t (prev ∷ readings)
unfolding settle Agree
settle-Agree prev [] t h = cc
settle-Agree prev (r ∷ readings) t h = elim (Bool-cases (same_time prev r)) [
  | inl same ↦
      let e : t ≡ r = ground (arith, h, same) in
      ([], readings, rw (same_time_eq prev r same, e) refl)
  | inr differ ↦
      let (before, after, e) = settle-Agree r readings t (ground (arith, h, differ)) in
      (prev ∷ before, after, ap (λ l. prev ∷ l) e)
]

settle-returns :
    (prev : Time) (before : List Time) (r : Time) (after : List Time)
    → is_some (settle prev (before ++ r ∷ r ∷ after)) ≡ true
unfolding settle same_time
settle-returns prev [] r after = ground arith
settle-returns prev (x ∷ before) r after = ground (arith, settle-returns x before r after)

-- The time that `get_time` returns is made of a reading of the clock that came twice in turn; the
-- code starts from a reading of zeros of its own.
pub get_time-Agree :
    (regb : ℕ) (readings : List Time) (t : Time)
    → get_time regb readings ≡ some t
    → (r : Time) × Agree r (zero_time ∷ readings) × (t ≡ rtc_reformat regb r)
unfolding get_time
get_time-Agree regb readings t h = elim (Option-cases (settle zero_time readings)) [
  | inl n ↦ ground (arith, h, n)
  | inr (r, e) ↦ (r, settle-Agree zero_time readings r e, ground (arith, h, e))
]

-- `get_time` returns as soon as the clock gives the same reading twice in turn.
pub get_time-returns :
    (regb : ℕ) (before : List Time) (r : Time) (after : List Time)
    → is_some (get_time regb (before ++ r ∷ r ∷ after)) ≡ true
unfolding get_time
get_time-returns regb before r after = ground (arith, settle-returns zero_time before r after)
