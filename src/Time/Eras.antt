-- ===== src/Time/Eras.antt =====
-- The days of lib/posix/c_lang_support_r/gmtime_r.c within an era of 400 years, and the seconds
-- within a day.
use posix_next.Base.{
  ◌∙◌, ap, sym, subst, remainder, ℕ, zero, suc, ◌+◌, ◌-◌, ◌%◌, ◌<◌, ◌≡◌, arith, refl, ℤ, pos,
  negsuc, add_int, times,
}
use posix_next.Time.{era_of, doe_of, days_of, rem_of, week_day}

pub doe_of-lt : (z : ℤ) → doe_of z < 146097
unfolding doe_of era_of
doe_of-lt (pos a) = ground arith
doe_of-lt (negsuc a) = ground arith

pub next_in_era :
    (z : ℤ)
    → doe_of z + 1 < 146097
    → (era_of (add_int z (pos 1)) ≡ era_of z) × (doe_of (add_int z (pos 1)) ≡ doe_of z + 1)
unfolding doe_of era_of
next_in_era (pos a) h = (ground arith, ground arith)
next_in_era (negsuc zero) h = absurd (omega arith)
next_in_era (negsuc (suc a)) h = (ground arith, ground arith)

pub next_era :
    (z : ℤ)
    → doe_of z ≡ 146096
    → (era_of (add_int z (pos 1)) ≡ add_int (era_of z) (pos 1)) × (doe_of (add_int z (pos 1)) ≡ 0)
unfolding doe_of era_of
next_era (pos a) h = (ground arith, ground arith)
next_era (negsuc zero) h = (refl, refl)
next_era (negsuc (suc a)) h = (ground arith, ground arith)

early_week_day : (b : ℕ) → week_day (negsuc (4 + b)) ≡ pos (6 - b % 7)
unfolding week_day
early_week_day zero = refl
early_week_day (suc b) = ground arith

next_late_week_day :
    (a : ℕ) → week_day (pos (a + 1)) ≡ remainder (add_int (week_day (pos a)) (pos 1)) 7
unfolding week_day
next_late_week_day a = ground arith

next_early_week_day :
    (b : ℕ)
    → week_day (negsuc (4 + b)) ≡ remainder (add_int (week_day (negsuc (4 + suc b))) (pos 1)) 7
next_early_week_day b = rw (early_week_day (suc b), early_week_day b) (ground arith)

pub next_week_day :
    (z : ℤ) → week_day (add_int z (pos 1)) ≡ remainder (add_int (week_day z) (pos 1)) 7
unfolding week_day
next_week_day (pos a) = next_late_week_day a
next_week_day (negsuc zero) = refl
next_week_day (negsuc (suc zero)) = refl
next_week_day (negsuc (suc (suc zero))) = refl
next_week_day (negsuc (suc (suc (suc zero)))) = refl
next_week_day (negsuc (suc (suc (suc (suc zero))))) = refl
next_week_day (negsuc (suc (suc (suc (suc (suc b)))))) =
    let here : suc (suc (suc (suc (suc b)))) ≡ 4 + suc b = omega arith in
    let there : add_int (negsuc (4 + suc b)) (pos 1) ≡ negsuc (4 + b) = ground arith in
    subst
      (λ x.
        week_day (add_int (negsuc x) (pos 1)) ≡ remainder (add_int (week_day (negsuc x)) (pos 1)) 7)
      (sym here) (ap week_day there ∙ next_early_week_day b)

pub rem_of-lt : (z : ℤ) → rem_of z < 86400
unfolding rem_of days_of
rem_of-lt (pos a) = ground arith
rem_of-lt (negsuc a) = ground arith

pub days_of-rem_of : (z : ℤ) → add_int (times (days_of z) 86400) (pos (rem_of z)) ≡ z
unfolding rem_of days_of
days_of-rem_of (pos a) = ground arith
days_of-rem_of (negsuc a) = ground arith
