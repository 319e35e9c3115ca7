-- ===== src/Strfmon/Amount.antt =====
-- strfmon_one of lib/posix/c_lib_ext/strfmon.c, which prints one amount. The arithmetic on values
-- of type double is the parameter of the section; 64-bit numbers wrap around.
use posix_next.Base.{
  ◌>>=◌, ℕ, zero, suc, ◌+◌, ◌-◌, ◌*◌, ◌/◌, ◌%◌, Bool, ◌&&◌, ◌||◌, not, ◌==◌, ltb, Option, none,
  some, [], ◌∷◌, ◌++◌, if◌then◌else◌, CString, ℤ, pos, negsuc,
}
use posix_next.Strfmon.{Spec}

-- What is in the buffer, and how many bytes are left in it.
pub record Out : Type 0 where
  pub written : CString
  pub size : ℕ

unfoldable pub putc_if_space : ℕ → Out → Out
putc_if_space ch o =
    if o.size == 0 then o else record { written = o.written ++ (ch ∷ []); size = o.size - 1 }

-- `for (int i = 0; i < n; ++i) putc_if_space(ch, ...)`
unfoldable pub put_times : ℕ → ℕ → Out → Out
unfolding putc_if_space
put_times zero ch o = o
put_times (suc n) ch o = put_times n ch (putc_if_space ch o)

-- `for (int i = 0; i < n; ++i) x *= 10ULL`
unfoldable pub scale_up : ℕ → ℕ → ℕ
scale_up zero x = x
scale_up (suc n) x = scale_up n (x * 10 % 18446744073709551616)

-- `while (t > 0) { ++int_digits; t /= 10ULL; }`, on fuel.
unfoldable pub count_digits : ℕ → ℕ → ℕ
count_digits zero t = 0
count_digits (suc fuel) t = let more = count_digits fuel (t / 10) in if ltb 0 t then suc more else 0

-- `while (divisor > 0)`: the digits before the point, on fuel; `none` where it runs out.
unfoldable pub put_int : ℕ → ℕ → ℕ → Out → Option Out
unfolding putc_if_space
put_int zero divisor cur o = if ltb 0 divisor then none else some o
put_int (suc fuel) divisor cur o =
    let rest = put_int fuel (divisor / 10) cur (putc_if_space (b'0' + cur / divisor % 10) o) in
    if ltb 0 divisor then rest else some o

-- The loop over the digits after the point; `none` for a division by 0.
unfoldable pub put_frac : ℕ → ℕ → ℕ → Out → Option Out
unfolding putc_if_space
put_frac zero ddiv curf o = some o
put_frac (suc n) ddiv curf o =
    let rest = put_frac n (ddiv / 10) (curf % ddiv) (putc_if_space (b'0' + curf / ddiv) o) in
    if ddiv == 0 then none else rest

-- `scaled_int`, and where the rest lies: above 0.5, at 0.5, or below it.
pub data Half : Type 0 where
  above tie below : Half

unfoldable pub round : ℕ → Half → ℕ
round scaled_int above = (scaled_int + 1) % 18446744073709551616
round scaled_int tie =
    if scaled_int % 2 == 1 then (scaled_int + 1) % 18446744073709551616 else scaled_int
round scaled_int below = scaled_int

-- `if (n < 0) n = default`
abbrev pub or_default : ℕ → ℤ → ℕ
or_default default (pos n) = n
or_default default (negsuc n) = default

abbrev pub max : ℕ → ℕ → ℕ
max a b = if ltb a b then b else a

abbrev pub right_of : Spec → ℕ
right_of spec = or_default 2 spec.right_precision

abbrev pub left_of : Spec → ℕ
left_of spec = or_default 0 spec.left_precision

abbrev pub digits_of : ℕ → ℕ
digits_of int_part = if int_part == 0 then 1 else count_digits 20 int_part

abbrev pub display_digits : Spec → ℕ → ℕ
display_digits spec int_part = max (digits_of int_part) (left_of spec)

abbrev pub sign_lead : Spec → Bool → ℕ
sign_lead spec negative = if negative || spec.force_sign || ltb 0 (left_of spec) then 1 else 0

abbrev pub sign_trail : Spec → Bool → ℕ
sign_trail spec negative = if negative && spec.use_parens then 1 else 0

abbrev pub number_len : Spec → Bool → ℕ → ℕ
number_len spec negative int_part =
    sign_lead spec negative
    + display_digits spec int_part
    + (if ltb 0 (right_of spec) then 1 + right_of spec else 0)
    + sign_trail spec negative

abbrev pub sign_char : Spec → Bool → ℕ
sign_char spec negative =
    if negative && spec.use_parens
    then b'('
    else if negative
    then b'-'
    else if spec.force_sign
    then b'+'
    else b' '

-- `field_width - number_len`, where it is positive.
abbrev pub pad_of : Spec → Bool → ℕ → ℕ
pad_of spec negative int_part = or_default 0 spec.field_width - number_len spec negative int_part

abbrev pub put_if : Bool → ℕ → ℕ → Out → Out
put_if b n ch o = if b then put_times n ch o else o

abbrev pub put_int_part : ℕ → Out → Option Out
put_int_part int_part o =
    if int_part == 0
    then some (putc_if_space b'0' o)
    else put_int 20 (scale_up (digits_of int_part - 1) 1) int_part o

abbrev pub put_frac_part : ℕ → ℕ → Out → Option Out
put_frac_part right frac_part o =
    if ltb 0 right
    then put_frac right (scale_up (right - 1) 1) frac_part (putc_if_space b'.' o)
    else some o

-- What is written for the parts of the rounded amount.
unfoldable pub put_amount : Spec → Bool → ℕ → ℕ → Out → Option Out
unfolding put_times put_int put_frac scale_up count_digits
put_amount spec negative int_part frac_part o = do
  let pad = pad_of spec negative int_part
  let o = put_if (not spec.left_justify) pad spec.fill_char o
  let o = put_times (sign_lead spec negative) (sign_char spec negative) o
  let o = put_times (display_digits spec int_part - digits_of int_part) spec.numeric_fill o
  o ← put_int_part int_part o
  o ← put_frac_part (right_of spec) frac_part o
  let o = put_times (sign_trail spec negative) b')' o
  some (put_if spec.left_justify pad spec.fill_char o)

-- `is_below_zero` is `val < 0.0`; `scaled` has `scaled_int` and the rest for an amount and `iscale`.
module _ {ℓ} {Double : Type ℓ} (is_below_zero : Double → Bool)
    (scaled : Double → ℕ → ℕ × Half) where
  -- `none` for a division by 0.
  unfoldable pub strfmon_one : Spec → Double → Out → Option Out
  unfolding put_amount scale_up round
  strfmon_one spec val o =
      let iscale = scale_up (right_of spec) 1 in
      let (scaled_int, rest) = scaled val iscale in
      let amount = round scaled_int rest in
      if iscale == 0
      then none
      else put_amount spec (is_below_zero val) (amount / iscale) (amount % iscale) o
