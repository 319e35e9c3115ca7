-- ===== src/Time/Fields.antt =====
-- The years, months and days of an era, lib/posix/c_lang_support_r/gmtime_r.c. A year starts on
-- the first of March.
use posix_next.Base.{
  inr, inl, Bool-cases, if◌then◌else◌, ◌⊎◌, ℕ, ◌+◌, ◌-◌, ◌*◌, ◌/◌, ◌%◌, ◌<◌, ◌≤◌, ◌≡◌, arith, Bool,
  ◌&&◌, ◌||◌, not, ◌==◌,
}
use posix_next.Time.{day_of, mp_of, yoe_of, doy_of}

unfoldable pub is_leap : ℕ → Bool
is_leap y = (y % 4 == 0) && (not (y % 100 == 0) || (y % 400 == 0))

-- The days of an era before the year `y` of it.
abbrev start : ℕ → ℕ
start y = 365 * y + y / 4 - y / 100

doe-split :
    (doe : ℕ)
    → doe < 146097
    → (start (yoe_of doe) + doy_of doe ≡ doe) × (doy_of doe ≤ 365) × (yoe_of doe ≤ 399)
unfolding doy_of yoe_of
doe-split doe h = (omega arith, omega arith, omega arith)

abbrev pub year_length : ℕ → ℕ
year_length yoe = if is_leap (yoe + 1) then 366 else 365

-- The next day of an era is in the same year or the first of the next one.
pub next_in_year :
    (doe : ℕ)
    → doe + 1 < 146097
    → ((yoe_of (doe + 1) ≡ yoe_of doe)
        × (doy_of (doe + 1) ≡ doy_of doe + 1)
        × (doy_of doe + 1 < year_length (yoe_of doe)))
      ⊎ ((yoe_of (doe + 1) ≡ yoe_of doe + 1)
          × (doy_of (doe + 1) ≡ 0)
          × (doy_of doe + 1 ≡ year_length (yoe_of doe)))
unfolding doy_of yoe_of is_leap
next_in_year doe h = elim (Bool-cases (yoe_of (doe + 1) == yoe_of doe)) [
  | inl same ↦ inl (ground arith, ground arith, ground arith)
  | inr other ↦ inr (ground arith, ground arith, ground arith)
]

-- The next day of a year is in the same month or the first of the next one.
abbrev pub month_length : ℕ → ℕ
month_length mp = (153 * (mp + 1) + 2) / 5 - (153 * mp + 2) / 5

pub next_in_month :
    (doy : ℕ)
    → doy ≤ 364
    → ((mp_of (doy + 1) ≡ mp_of doy)
        × (day_of (doy + 1) ≡ day_of doy + 1)
        × (mp_of doy ≤ 11)
        × (day_of doy < month_length (mp_of doy)))
      ⊎ ((mp_of (doy + 1) ≡ mp_of doy + 1)
          × (day_of (doy + 1) ≡ 1)
          × (mp_of doy < 11)
          × (day_of doy ≡ month_length (mp_of doy)))
next_in_month doy h = elim (Bool-cases (mp_of (doy + 1) == mp_of doy)) [
  | inl same ↦ inl (ground arith, ground arith, ground arith, ground arith)
  | inr other ↦ inr (ground arith, ground arith, ground arith, ground arith)
]
