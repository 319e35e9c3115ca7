-- ===== src/Time/Months.antt =====
-- The calendar, and the months that lib/posix/c_lang_support_r/gmtime_r.c writes.
use posix_next.Base.{
  ap, inr, inl, Bool-cases, sub_int, ◌-◌, ◌≤◌, ℕ, ◌+◌, ◌≡◌, ◌<◌, arith, refl, Bool, true, false,
  ◌||◌, ◌==◌, ltb, leb, if◌then◌else◌, ℤ, pos, negsuc, add_int, times, remainder,
}
use posix_next.Time.{Tm, year_of, month_of}
use posix_next.Time.Fields.{is_leap, month_length}

-- The rule of the Gregorian calendar, for years before the year 0 too.
abbrev pub leap_year : ℤ → Bool
leap_year (pos y) = is_leap y
leap_year (negsuc y) = is_leap (y + 1)

-- `mon` counts from 0.
abbrev pub days_in_month : ℤ → ℕ → ℕ
days_in_month y mon =
    if mon == 1
    then (if leap_year y then 29 else 28)
    else (if mon == 3 || mon == 5 || mon == 8 || mon == 10 then 30 else 31)

-- The date of the next day by the calendar.
abbrev pub next_date : Tm → Tm
next_date t =
    let wday = remainder (add_int t.wday (pos 1)) 7 in
    if ltb t.mday (days_in_month (add_int t.year (pos 1900)) t.mon)
    then record t { mday = t.mday + 1; wday = wday; yday = t.yday + 1 }
    else (if ltb t.mon 11
        then record t { mday = 1; mon = t.mon + 1; wday = wday; yday = t.yday + 1 }
        else record t { mday = 1; mon = 0; year = add_int t.year (pos 1); wday = wday; yday = 0 })

-- What the code writes for a month and day of a year that starts in March.
abbrev pub stamp : ℤ → ℕ → ℕ → ℕ → ℕ → ℤ → Tm
stamp era yoe mp mday yday wday = record {
  sec = 0;
  min = 0;
  hour = 0;
  mday = mday;
  mon = month_of mp - 1;
  year = year_of yoe era (month_of mp);
  wday = wday;
  yday = yday;
}

abbrev pub next_wday : ℤ → ℤ
next_wday wday = remainder (add_int wday (pos 1)) 7

add_int-sub_int : (x : ℤ) (n : ℕ) → add_int (sub_int x (pos n)) (pos n) ≡ x
add_int-sub_int (pos a) n = ground arith
add_int-sub_int (negsuc a) n = ground arith

-- The leap years repeat with the eras.
leap_year-era :
    (era : ℤ) (yoe : ℕ)
    → yoe ≤ 399
    → leap_year (add_int (add_int (pos yoe) (times era 400)) (pos 1)) ≡ is_leap (yoe + 1)
unfolding is_leap
leap_year-era (pos e) yoe h = ground arith
leap_year-era (negsuc e) yoe h = ground arith

abbrev pub last_day : ℕ → ℕ → ℕ
last_day yoe mp = if mp == 11 then (if is_leap (yoe + 1) then 29 else 28) else month_length mp

days_in_month-last_day :
    (era : ℤ) (yoe mp : ℕ)
    → yoe ≤ 399
    → mp ≤ 11
    → days_in_month (add_int (year_of yoe era (month_of mp)) (pos 1900)) (month_of mp - 1)
      ≡ last_day yoe mp
days_in_month-last_day era yoe mp small h =
    rw
      (add_int-sub_int
        (add_int (add_int (pos yoe) (times era 400)) (pos (if leb (month_of mp) 2 then 1 else 0)))
        1900)
      (elim (Bool-cases (mp == 11)) [
        | inl february ↦ of_february (mp) (ground arith)
        | inr other ↦ rw other (ground arith)
      ])
  where
    of_february :
        (mp : ℕ)
        → mp ≡ 11
        → days_in_month
            (add_int
              (add_int (pos yoe) (times era 400))
              (pos (if leb (month_of mp) 2 then 1 else 0)))
            (month_of mp - 1)
          ≡ last_day yoe mp
    of_february mp e = rw e (rw (leap_year-era era yoe small) refl)

-- A day that is not the last of its month.
pub next_date-month :
    (era : ℤ) (yoe mp mday yday : ℕ) (wday : ℤ)
    → yoe ≤ 399
    → mp ≤ 11
    → mday < last_day yoe mp
    → next_date (stamp era yoe mp mday yday wday)
      ≡ stamp era yoe mp (mday + 1) (yday + 1) (next_wday wday)
next_date-month era yoe mp mday yday wday small m h =
    let inside : ltb mday (last_day yoe mp) ≡ true = ground arith in
    rw (days_in_month-last_day era yoe mp small m, inside) refl

-- The year that starts with the January after the year `yoe` of the era.
add_int-year : (era : ℤ) (yoe m : ℕ) → add_int (year_of yoe era 12) (pos 1) ≡ year_of yoe era 1
add_int-year era yoe m = sub_int-add_int (add_int (pos yoe) (times era 400))
  where
    sub_int-add_int :
        (x : ℤ)
        → add_int (sub_int (add_int x (pos 0)) (pos 1900)) (pos 1)
          ≡ sub_int (add_int x (pos 1)) (pos 1900)
    sub_int-add_int (pos a) = ground arith
    sub_int-add_int (negsuc a) = ground arith

january_or_february :
    (mp : ℕ) → (mp == 9) ≡ false → mp < 11 → leb (month_of (mp + 1)) 2 ≡ leb (month_of mp) 2
january_or_february mp e h = ground arith

-- The last day of a month that does not end the year that starts in March.
pub next_date-next_month :
    (era : ℤ) (yoe mp mday yday : ℕ) (wday : ℤ)
    → yoe ≤ 399
    → mp < 11
    → mday ≡ month_length mp
    → next_date (stamp era yoe mp mday yday wday)
      ≡ stamp era yoe (mp + 1) 1 (if mp == 9 then 0 else yday + 1) (next_wday wday)
next_date-next_month era yoe mp mday yday wday small m h =
    let outside : ltb mday (last_day yoe mp) ≡ false = ground arith in
    rw (days_in_month-last_day era yoe mp small (omega arith), outside)
      (elim (Bool-cases (mp == 9)) [
        | inl december ↦ of_december mp (ground arith)
        | inr other ↦
            let inside : ltb (month_of mp - 1) 11 ≡ true = ground arith in
            let month : month_of (mp + 1) - 1 ≡ month_of mp - 1 + 1 = ground arith in
            let year : year_of yoe era (month_of (mp + 1)) ≡ year_of yoe era (month_of mp) =
              ap
                (λ b.
                  sub_int (add_int (add_int (pos yoe) (times era 400)) (pos (if b then 1 else 0)))
                    (pos 1900))
                (january_or_february mp other m) in
            rw (other, inside, month, year) refl
      ])
  where
    of_december :
        (mp : ℕ)
        → mp ≡ 9
        → (if ltb (month_of mp - 1) 11
            then record (stamp era yoe mp mday yday wday) {
              mday = 1;
              mon = month_of mp - 1 + 1;
              wday = next_wday wday;
              yday = yday + 1;
            }
            else record (stamp era yoe mp mday yday wday) {
              mday = 1;
              mon = 0;
              year = add_int (year_of yoe era (month_of mp)) (pos 1);
              wday = next_wday wday;
              yday = 0;
            })
          ≡ stamp era yoe (mp + 1) 1 (if mp == 9 then 0 else yday + 1) (next_wday wday)
    of_december mp e = rw e (rw (add_int-year era yoe mp) refl)

-- The last day of February, in an era and at its end.
year_of-march : (era : ℤ) (yoe : ℕ) → year_of yoe era 2 ≡ year_of (yoe + 1) era 3
year_of-march era yoe = add_to (times era 400)
  where
    add_to :
        (x : ℤ)
        → sub_int (add_int (add_int (pos yoe) x) (pos 1)) (pos 1900)
          ≡ sub_int (add_int (add_int (pos (yoe + 1)) x) (pos 0)) (pos 1900)
    add_to (pos a) = ground arith
    add_to (negsuc a) = ground arith

year_of-era : (era : ℤ) → year_of 400 era 3 ≡ year_of 0 (add_int era (pos 1)) 3
year_of-era (pos e) = ground arith
year_of-era (negsuc e) = ground arith

pub next_date-march :
    (era : ℤ) (yoe mday yday : ℕ) (wday : ℤ)
    → yoe ≤ 399
    → mday ≡ (if is_leap (yoe + 1) then 29 else 28)
    → next_date (stamp era yoe 11 mday yday wday)
      ≡ stamp era (yoe + 1) 0 1 (yday + 1) (next_wday wday)
next_date-march era yoe mday yday wday small h =
    let outside : ltb mday (last_day yoe 11) ≡ false = ground arith in
    rw (days_in_month-last_day era yoe 11 small (omega arith), outside, year_of-march era yoe) refl

pub stamp-era :
    (era : ℤ) (yday : ℕ) (wday : ℤ)
    → stamp era 400 0 1 yday wday ≡ stamp (add_int era (pos 1)) 0 0 1 yday wday
stamp-era era yday wday = rw (year_of-era era) refl
