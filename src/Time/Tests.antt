-- ===== src/Time/Tests.antt =====
-- Civil times, and the theorem on lib/posix/c_lang_support_r/gmtime_r.c at one of them.
use posix_next.Base.{arith, ◌≡◌, refl, pos, negsuc, add_int}
use posix_next.Time.{gmtime_r, time_civil_from_days}
use posix_next.Time.Months.{next_date}
use posix_next.Time.Calendar.{time_civil_from_days-next_date}

-- 2000-02-29 23:59:58, and the last second of 1969.
leap_day : gmtime_r (pos 951868798) ≡ record {
  sec = 58;
  min = 59;
  hour = 23;
  mday = 29;
  mon = 1;
  year = pos 100;
  wday = pos 2;
  yday = 59;
}
unfolding gmtime_r
leap_day = refl

before_the_epoch : gmtime_r (negsuc 0) ≡ record {
  sec = 59;
  min = 59;
  hour = 23;
  mday = 31;
  mon = 11;
  year = pos 69;
  wday = pos 3;
  yday = 364;
}
unfolding gmtime_r
before_the_epoch = refl

-- The day before 1 March 2000.
time_civil_from_days-next_date_example :
    (time_civil_from_days (pos 0) ≡ record {
      sec = 0;
      min = 0;
      hour = 0;
      mday = 1;
      mon = 0;
      year = pos 70;
      wday = pos 4;
      yday = 0;
    })
    × (time_civil_from_days (add_int (pos 11016) (pos 1))
        ≡ next_date (time_civil_from_days (pos 11016)))
time_civil_from_days-next_date_example = time_civil_from_days-next_date (pos 11016) (omega arith)
