-- ===== src/Time/Calendar.antt =====
-- What lib/posix/c_lang_support_r/gmtime_r.c computes, against the calendar.
use posix_next.Base.{
  Bool-cases, sym, ap, ◌∙◌, inr, inl, ◌≤◌, ℕ, ◌+◌, ◌≡◌, ◌<◌, arith, refl, ◌==◌, if◌then◌else◌, ℤ,
  pos, negsuc, add_int,
}
use posix_next.Time.{
  int32, year_of, month_of, Tm, time_civil_from_days, era_of, doe_of, year_day, mp_of, doy_of,
  yoe_of, day_of, week_day,
}
use posix_next.Time.Fields.{is_leap, next_in_year, next_in_month, year_length}
use posix_next.Time.Eras.{doe_of-lt, next_in_era, next_era, next_week_day}
use posix_next.Time.Months.{
  stamp, next_wday, next_date, last_day, next_date-month, next_date-next_month, next_date-march,
  stamp-era,
}

-- What the code writes for a day of a year that starts in March.
abbrev in_year : ℤ → ℕ → ℕ → ℤ → Tm
in_year era yoe doy wday = stamp era yoe (mp_of doy) (day_of doy) (year_day yoe doy) wday

stamp_eq :
    (era : ℤ) (yoe : ℕ) (wday : ℤ) {mp mp' mday mday' yday yday' : ℕ}
    → mp ≡ mp'
    → mday ≡ mday'
    → yday ≡ yday'
    → stamp era yoe mp mday yday wday ≡ stamp era yoe mp' mday' yday' wday
stamp_eq era yoe wday m d y = λ i. stamp era yoe (m i) (d i) (y i) wday

next_date-in_year :
    (era : ℤ) (yoe doy : ℕ) (wday : ℤ)
    → yoe ≤ 399
    → doy + 1 < year_length yoe
    → next_date (in_year era yoe doy wday) ≡ in_year era yoe (doy + 1) (next_wday wday)
next_date-in_year era yoe doy wday small h = elim (next_in_month doy (ground arith)) [
  | inl (m, d, at_most, l) ↦
      let inside : day_of doy < last_day yoe (mp_of doy) = ground arith in
      let same_year : year_day yoe (doy + 1) ≡ year_day yoe doy + 1 = ground arith in
      next_date-month era yoe (mp_of doy) (day_of doy) (year_day yoe doy) wday small at_most inside
      ∙ stamp_eq era yoe (next_wday wday) (sym m) (sym d) (sym same_year)
  | inr (m, d, less, l) ↦
      let yday : (if mp_of doy == 9 then 0 else year_day yoe doy + 1) ≡ year_day yoe (doy + 1) =
        ground arith in
      next_date-next_month era yoe (mp_of doy) (day_of doy) (year_day yoe doy) wday small less l
      ∙ stamp_eq era yoe (next_wday wday) (sym m) (sym d) yday
]

-- The first of March.
next_date-new_year :
    (era : ℤ) (yoe doy : ℕ) (wday : ℤ)
    → yoe < 399
    → doy + 1 ≡ year_length yoe
    → next_date (in_year era yoe doy wday) ≡ in_year era (yoe + 1) 0 (next_wday wday)
unfolding is_leap
next_date-new_year era yoe doy wday small h =
    let february : mp_of doy ≡ 11 = ground arith in
    let day : day_of doy ≡ (if is_leap (yoe + 1) then 29 else 28) = ground arith in
    let yday : year_day yoe doy + 1 ≡ year_day (yoe + 1) 0 = ground arith in
    ap next_date (stamp_eq era yoe wday february refl refl)
    ∙ next_date-march era yoe (day_of doy) (year_day yoe doy) wday (omega arith) day
    ∙ ap (λ d. stamp era (yoe + 1) 0 1 d (next_wday wday)) yday

yoe_of-lt : (doe : ℕ) → doe < 146097 → yoe_of doe ≤ 399
unfolding yoe_of
yoe_of-lt doe h = omega arith

next_date-in_era :
    (era : ℤ) (doe : ℕ) (wday : ℤ)
    → doe + 1 < 146097
    → next_date (in_year era (yoe_of doe) (doy_of doe) wday)
      ≡ in_year era (yoe_of (doe + 1)) (doy_of (doe + 1)) (next_wday wday)
next_date-in_era era doe wday h = elim (next_in_year doe h) [
  | inl (y, d, less) ↦
      next_date-in_year era (yoe_of doe) (doy_of doe) wday (yoe_of-lt doe (omega arith)) less
      ∙ (λ i. in_year era (sym y i) (sym d i) (next_wday wday))
  | inr (y, d, last) ↦
      next_date-new_year era (yoe_of doe) (doy_of doe) wday
        (omega (arith, y, yoe_of-lt (doe + 1) h)) last
      ∙ (λ i. in_year era (sym y i) (sym d i) (next_wday wday))
]

-- The last day of an era.
next_date-next_era :
    (era : ℤ) (wday : ℤ)
    → next_date (in_year era (yoe_of 146096) (doy_of 146096) wday)
      ≡ in_year (add_int era (pos 1)) (yoe_of 0) (doy_of 0) (next_wday wday)
unfolding yoe_of doy_of is_leap
next_date-next_era era wday =
    next_date-march era 399 29 59 wday (omega arith) refl ∙ stamp-era era 60 (next_wday wday)

add_int-shift :
    (days : ℤ)
    → add_int (add_int days (pos 1)) (pos 719468) ≡ add_int (add_int days (pos 719468)) (pos 1)
add_int-shift (pos a) = ground arith
add_int-shift (negsuc a) = ground arith

-- The date of a day that is counted from 0000-03-01.
abbrev dated : ℤ → ℤ → Tm
dated z wday = in_year (era_of z) (yoe_of (doe_of z)) (doy_of (doe_of z)) wday

next_date-dated :
    (z wday : ℤ) → next_date (dated z wday) ≡ dated (add_int z (pos 1)) (next_wday wday)
next_date-dated z wday = elim (Bool-cases (doe_of z == 146096)) [
  | inl last ↦
      let end : doe_of z ≡ 146096 = ground arith in
      let (e, d) = next_era z end in
      ap (λ d. next_date (in_year (era_of z) (yoe_of d) (doy_of d) wday)) end
      ∙ next_date-next_era (era_of z) wday
      ∙ (λ i. in_year (sym e i) (yoe_of (sym d i)) (doy_of (sym d i)) (next_wday wday))
  | inr inside ↦
      let before : doe_of z + 1 < 146097 = ground (arith, doe_of-lt z) in
      let (e, d) = next_in_era z before in
      next_date-in_era (era_of z) (doe_of z) wday before
      ∙ (λ i. in_year (sym e i) (yoe_of (sym d i)) (doy_of (sym d i)) (next_wday wday))
]

-- The days within 780,000,000,000 of the epoch, whose years an int can hold.
abbrev pub IsNear : ℤ → Type 0
IsNear (pos n) = n < 780000000000
IsNear (negsuc n) = n < 780000000000

abbrev IsInt : ℤ → Type 0
IsInt (pos n) = n < 2147483648
IsInt (negsuc n) = n < 2147483648

int32-IsInt : (z : ℤ) → IsInt z → int32 z ≡ z
unfolding int32
int32-IsInt (pos n) h = ground arith
int32-IsInt (negsuc n) h = ground arith

-- A day more than the near ones, counted from 0000-03-01.
abbrev IsClose : ℤ → Type 0
IsClose (pos n) = n < 780001000000
IsClose (negsuc n) = n < 780001000000

abbrev IsSmallEra : ℤ → Type 0
IsSmallEra (pos n) = n < 5340000
IsSmallEra (negsuc n) = n < 5340000

era_of-IsSmallEra : (z : ℤ) → IsClose z → IsSmallEra (era_of z)
unfolding era_of
era_of-IsSmallEra (pos n) h = ground (arith, h)
era_of-IsSmallEra (negsuc n) h = ground (arith, h)

year_of-IsInt : (yoe : ℕ) (era : ℤ) (m : ℕ) → yoe ≤ 399 → IsSmallEra era → IsInt (year_of yoe era m)
year_of-IsInt yoe (pos e) m l h = ground (arith, h)
year_of-IsInt yoe (negsuc e) m l h = ground (arith, h)

time_civil_from_days-dated :
    (days : ℤ)
    → IsClose (add_int days (pos 719468))
    → time_civil_from_days days ≡ dated (add_int days (pos 719468)) (week_day days)
unfolding time_civil_from_days
time_civil_from_days-dated days h =
    let z = add_int days (pos 719468) in
    let doe = doe_of z in
    let small : yoe_of doe ≤ 399 = yoe_of-lt doe (doe_of-lt z) in
    rw
      (int32-IsInt (year_of (yoe_of doe) (era_of z) (month_of (mp_of (doy_of doe)))) (
        year_of-IsInt (yoe_of doe) (era_of z) (month_of (mp_of (doy_of doe))) small
          (era_of-IsSmallEra z h)))
      refl

near-IsClose : (days : ℤ) → IsNear days → IsClose (add_int days (pos 719468))
near-IsClose (pos n) h = omega (arith, h)
near-IsClose (negsuc n) h = ground (arith, h)

next-IsClose : (days : ℤ) → IsNear days → IsClose (add_int (add_int days (pos 1)) (pos 719468))
next-IsClose (pos n) h = omega (arith, h)
next-IsClose (negsuc n) h = ground (arith, h)

first_day : dated (add_int (pos 0) (pos 719468)) (week_day (pos 0)) ≡ record {
  sec = 0;
  min = 0;
  hour = 0;
  mday = 1;
  mon = 0;
  year = pos 70;
  wday = pos 4;
  yday = 0;
}
unfolding era_of doe_of yoe_of doy_of week_day
first_day = refl

-- The day 0 is Thursday, 1 January 1970, and for every day that is less than 780,000,000,000 days
-- from it, before or after, the day after it is the next date of the calendar, with the next day of
-- the week and the day of the year.
pub time_civil_from_days-next_date :
    (days : ℤ)
    → IsNear days
    → (time_civil_from_days (pos 0) ≡ record {
      sec = 0;
      min = 0;
      hour = 0;
      mday = 1;
      mon = 0;
      year = pos 70;
      wday = pos 4;
      yday = 0;
    })
      × (time_civil_from_days (add_int days (pos 1)) ≡ next_date (time_civil_from_days days))
time_civil_from_days-next_date days h =
    let z = add_int days (pos 719468) in
    (
      epoch,
      time_civil_from_days-dated (add_int days (pos 1)) (next-IsClose days h)
          ∙ (λ i. dated (add_int-shift days i) (next_week_day days i))
          ∙ sym (next_date-dated z (week_day days))
          ∙ ap next_date (sym (time_civil_from_days-dated days (near-IsClose days h))),
    )
  where
    epoch : time_civil_from_days (pos 0) ≡ record {
      sec = 0;
      min = 0;
      hour = 0;
      mday = 1;
      mon = 0;
      year = pos 70;
      wday = pos 4;
      yday = 0;
    }
    epoch = time_civil_from_days-dated (pos 0) (omega arith) ∙ first_day
