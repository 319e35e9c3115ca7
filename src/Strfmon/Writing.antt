-- ===== src/Strfmon/Writing.antt =====
-- That strfmon_one of lib/posix/c_lib_ext/strfmon.c writes the layout of its amount.
use posix_next.Strfmon.Layout.{layout}
use posix_next.Strfmon.Rounding.{nearest}
use posix_next.Strfmon.{Spec}
use posix_next.Strfmon.Amount.{digits_of, right_of, Half}
use posix_next.Strfmon.Digits.{count_digits-bounds}
use posix_next.Base.{zero, false, ◌%◌, ◌==◌, ◌/◌, suc, ◌≡◌, ◌^◌, CString, ◌<◌, ◌≤◌, Bool, ℕ, arith}

some_digits : (c n : ℕ) → suc n < 10 ^ c → 1 ≤ c
some_digits zero n h = absurd (omega (arith, h))
some_digits (suc c) n h = omega arith

pub digits_of-fits : (n : ℕ) → n < 18446744073709551616 → n < 10 ^ digits_of n
digits_of-fits zero h = omega arith
digits_of-fits (suc n) h =
    let some_left : (suc n == 0) ≡ false = ground arith in
    rw some_left ((count_digits-bounds 20 (suc n) (omega (arith, h))).0)

pub digits_of-positive : (n : ℕ) → n < 18446744073709551616 → 1 ≤ digits_of n
digits_of-positive zero h = omega arith
digits_of-positive (suc n) h = some_digits (digits_of (suc n)) n (digits_of-fits (suc n) h)

module _ {ℓ} {Double : Type ℓ} (is_below_zero : Double → Bool)
    (scaled : Double → ℕ → ℕ × Half) where
  -- The amount that is printed, in units of the last digit.
  abbrev pub units : Spec → Double → ℕ
  units spec val = let (n, rest) = scaled val (10 ^ right_of spec) in nearest n rest

  abbrev pub text_of : Spec → Double → CString
  text_of spec val =
      let power = 10 ^ right_of spec in
      layout spec (is_below_zero val) (units spec val / power) (units spec val % power)
