-- ===== src/Strfmon/Rounding.antt =====
-- The rounding of strfmon_one of lib/posix/c_lib_ext/strfmon.c.
use posix_next.Strfmon.Amount.{round, Half}
use posix_next.Base.{ℕ, ◌+◌, ◌%◌, ◌≡◌, ◌<◌, arith, refl}

-- The nearest whole number, of two that are as near the even one, in 64 bits.
abbrev pub nearest : ℕ → Half → ℕ
nearest n Half.above = (n + 1) % 18446744073709551616
nearest n Half.tie = (n + n % 2) % 18446744073709551616
nearest n Half.below = n

pub round-nearest : (n : ℕ) (rest : Half) → n < 18446744073709551616 → round n rest ≡ nearest n rest
unfolding round
round-nearest n Half.above h = refl
round-nearest n Half.tie h = ground arith
round-nearest n Half.below h = refl

pub nearest-fits :
    (n : ℕ) (rest : Half) → n < 18446744073709551616 → nearest n rest < 18446744073709551616
nearest-fits n Half.above h = omega arith
nearest-fits n Half.tie h = omega arith
nearest-fits n Half.below h = h
