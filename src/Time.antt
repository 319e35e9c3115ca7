-- ===== src/Time.antt =====
-- Civil time, lib/posix/c_lang_support_r/gmtime_r.c and localtime_r.c. A time is in ℤ: the model
-- has no bound where the source has a 64-bit time_t; the year is cut to an int as there. The unsigned values are below 2 ^ 18 and do not
-- wrap, but for the conversion to them.
pub mod Fields
pub mod Eras
pub mod Months
pub mod Calendar
mod Tests
use posix_next.Base.{
  ℕ, ◌+◌, ◌-◌, ◌*◌, ◌/◌, ◌%◌, Bool, true, false, ◌&&◌, ◌||◌, not, ◌==◌, ltb, leb, if◌then◌else◌, ℤ,
  pos, negsuc, add_int, sub_int, times, quot, remainder, leb_int, unsigned,
}

-- `struct tm`
pub record Tm : Type 0 where
  pub sec : ℕ
  pub min : ℕ
  pub hour : ℕ
  pub mday : ℕ
  pub mon : ℕ
  pub year : ℤ
  pub wday : ℤ
  pub yday : ℕ

unfoldable pub week_day : ℤ → ℤ
week_day z =
    if leb_int (negsuc 3) z
    then remainder (add_int z (pos 4)) 7
    else add_int (remainder (add_int z (pos 5)) 7) (pos 6)

-- `era` and `doe`, of the days since 0000-03-01.
unfoldable pub era_of : ℤ → ℤ
era_of z = quot (if leb_int (pos 0) z then z else sub_int z (pos 146096)) 146097

unfoldable pub doe_of : ℤ → ℕ
unfolding era_of
doe_of z = unsigned (sub_int z (times (era_of z) 146097))

-- `yoe`, `doy`, `mp` and `m`
unfoldable pub yoe_of : ℕ → ℕ
yoe_of doe = (doe - doe / 1460 + doe / 36524 - doe / 146096) / 365

unfoldable pub doy_of : ℕ → ℕ
unfolding yoe_of
doy_of doe = doe - (365 * yoe_of doe + yoe_of doe / 4 - yoe_of doe / 100)

abbrev pub mp_of : ℕ → ℕ
mp_of doy = (5 * doy + 2) / 153

abbrev pub month_of : ℕ → ℕ
month_of mp = if ltb mp 10 then mp + 3 else mp - 9

abbrev pub day_of : ℕ → ℕ
day_of doy = doy - (153 * mp_of doy + 2) / 5 + 1

-- The conversion to an int.
unfoldable pub int32 : ℤ → ℤ
int32 z = let u = unsigned z in if ltb u 2147483648 then pos u else negsuc (4294967295 - u)

-- `y + (m <= 2) - 1900`
abbrev pub year_of : ℕ → ℤ → ℕ → ℤ
year_of yoe era m =
    sub_int (add_int (add_int (pos yoe) (times era 400)) (pos (if leb m 2 then 1 else 0)))
      (pos 1900)

abbrev pub year_day : ℕ → ℕ → ℕ
year_day yoe doy =
    if leb 306 doy
    then doy - 306
    else doy + 59 + (if (yoe % 4 == 0 && not (yoe % 100 == 0)) || yoe == 0 then 1 else 0)

-- `time_civil_from_days` on a structure of zeros; the days are since 1970-01-01.
unfoldable pub time_civil_from_days : ℤ → Tm
unfolding week_day era_of doe_of yoe_of doy_of int32
time_civil_from_days days =
    let z = add_int days (pos 719468) in
    let doe = doe_of z in
    let doy = doy_of doe in
    let m = month_of (mp_of doy) in
    record {
      sec = 0;
      min = 0;
      hour = 0;
      mday = day_of doy;
      mon = m - 1;
      year = int32 (year_of (yoe_of doe) (era_of z) m);
      wday = week_day days;
      yday = year_day (yoe_of doe) doy;
    }

unfoldable pub days_of : ℤ → ℤ
days_of z = quot (if leb_int (pos 0) z then z else sub_int z (pos 86399)) 86400

unfoldable pub rem_of : ℤ → ℕ
unfolding days_of
rem_of z = unsigned (sub_int z (times (days_of z) 86400))

unfoldable pub gmtime_r : ℤ → Tm
unfolding time_civil_from_days days_of rem_of
gmtime_r z =
    let rem = rem_of z in
    let hour = rem / 60 / 60 in
    let rest = rem - hour * 60 * 60 in
    let min = rest / 60 in
    record (time_civil_from_days (days_of z)) { sec = rest - min * 60; min = min; hour = hour }

unfoldable pub localtime_r : ℤ → Tm
unfolding gmtime_r
localtime_r timer = gmtime_r timer
