-- ===== src/Base/Int.antt =====
-- Signed numbers. `negsuc n` is -(n + 1). Division and remainder by a positive number are those of
-- C, which truncate.
use Prim.Native.Nat.{ℕ, ◌+◌, ◌-◌, ◌*◌, ◌/◌, ◌%◌}
use mathlib.Core.Bool.{Bool, true, false}
use posix_next.Base.Tests.{ltb, leb, if◌then◌else◌}

pub data ℤ : Type 0 where
  pos : ℕ → ℤ
  negsuc : ℕ → ℤ

abbrev pub minus : ℕ → ℕ → ℤ
minus a b = if ltb a b then negsuc (b - a - 1) else pos (a - b)

abbrev pub add_int : ℤ → ℤ → ℤ
add_int (pos a) (pos b) = pos (a + b)
add_int (pos a) (negsuc b) = minus a (b + 1)
add_int (negsuc a) (pos b) = minus b (a + 1)
add_int (negsuc a) (negsuc b) = negsuc (a + b + 1)

abbrev pub sub_int : ℤ → ℤ → ℤ
sub_int (pos a) (pos b) = minus a b
sub_int (pos a) (negsuc b) = pos (a + b + 1)
sub_int (negsuc a) (pos b) = negsuc (a + b)
sub_int (negsuc a) (negsuc b) = minus b a

abbrev pub times : ℤ → ℕ → ℤ
times (pos a) n = pos (a * n)
times (negsuc a) n = minus 0 ((a + 1) * n)

abbrev pub quot : ℤ → ℕ → ℤ
quot (pos a) n = pos (a / n)
quot (negsuc a) n = minus 0 ((a + 1) / n)

abbrev pub remainder : ℤ → ℕ → ℤ
remainder (pos a) n = pos (a % n)
remainder (negsuc a) n = minus 0 ((a + 1) % n)

abbrev pub leb_int : ℤ → ℤ → Bool
leb_int (pos a) (pos b) = leb a b
leb_int (pos a) (negsuc b) = false
leb_int (negsuc a) (pos b) = true
leb_int (negsuc a) (negsuc b) = leb b a

-- The conversion to a 32-bit unsigned number.
abbrev pub unsigned : ℤ → ℕ
unsigned (pos a) = a % 4294967296
unsigned (negsuc a) = 4294967295 - a % 4294967296
