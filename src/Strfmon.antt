-- ===== src/Strfmon.antt =====
-- lib/posix/c_lib_ext/strfmon.c: the format of an amount. A pointer into the format is the string
-- from it to its terminator. Numbers of the source's type int8_t wrap around. The children have the
-- printing of an amount and the loop over the format.
pub mod Digits
pub mod Amount
pub mod Printing
pub mod Layout
pub mod Rounding
pub mod Writing
pub mod Numbers
pub mod Directives
pub mod Flags
pub mod Parsing
pub mod Shape
pub mod Rendering
mod Tests
use posix_next.Base.{
  ◌>>=◌, ℕ, ◌+◌, ◌-◌, ◌%◌, Bool, true, false, ◌&&◌, ◌||◌, ◌==◌, ltb, leb, Option, none, some, List,
  [], ◌∷◌, if◌then◌else◌, CString, ℤ, pos, negsuc, add_int, times, unsigned,
}

-- `struct strfmon_format_spec`; the loop never reads int_curr_symbol.
pub record Spec : Type 0 where
  pub field_width : ℤ
  pub left_precision : ℤ
  pub right_precision : ℤ
  pub fill_char : ℕ
  pub numeric_fill : ℕ
  pub use_numeric_fill : Bool
  pub use_international : Bool
  pub left_justify : Bool
  pub disable_grouping : Bool
  pub use_currency_symbol : Bool
  pub use_parens : Bool
  pub force_sign : Bool

-- What the parser reads of `struct lconv`.
pub record Lconv : Type 0 where
  pub int_frac_digits : ℕ
  pub frac_digits : ℕ

-- The conversion to int8_t.
unfoldable pub int8 : ℤ → ℤ
int8 z = let b = unsigned z % 256 in if ltb b 128 then pos b else negsuc (255 - b)

abbrev pub is_digit : ℕ → Bool
is_digit c = leb b'0' c && leb c b'9'

abbrev pub next_digit : ℤ → ℕ → ℤ
next_digit value c = int8 (add_int (times value 10) (pos (c - b'0')))

-- The loop of read_number: the value, and where it ends.
unfoldable pub read_digits : ℤ → CString → ℤ × CString
unfolding int8
read_digits value [] = (value, [])
read_digits value (c ∷ p) =
    let rest = read_digits (next_digit value c) p in if is_digit c then rest else (value, c ∷ p)

unfoldable pub read_number : CString → ℤ × CString
unfolding read_digits
read_number [] = (negsuc 0, [])
read_number (c ∷ p) = if is_digit c then read_digits (pos 0) (c ∷ p) else (negsuc 0, c ∷ p)

abbrev pub is_flag : ℕ → Bool
is_flag c = c == b'^' || c == b'+' || c == b'(' || c == b'!' || c == b'-'

-- A case of the switch other than `=`.
abbrev pub set_flag : ℕ → Spec → Spec
set_flag c spec =
    if c == b'^'
    then record spec { disable_grouping = true }
    else if c == b'+'
    then record spec { force_sign = true }
    else if c == b'('
    then record spec { use_parens = true }
    else if c == b'!'
    then record spec { use_currency_symbol = false }
    else record spec { left_justify = true }

abbrev pub set_fill : ℕ → Spec → Spec
set_fill c spec = record spec { use_numeric_fill = true; numeric_fill = c }

-- The loop over the flags; `none` where the format ends after `=`.
unfoldable pub parse_flags : Spec → CString → Option (Spec × CString)
parse_flags spec [] = some (spec, [])
parse_flags spec (c ∷ []) =
    if c == b'='
    then none
    else if is_flag c
    then some (set_flag c spec, [])
    else some (spec, c ∷ [])
parse_flags spec (c ∷ d ∷ p) =
    let after_fill = parse_flags (set_fill d spec) p in
    let after_flag = parse_flags (set_flag c spec) (d ∷ p) in
    if c == b'=' then after_fill else if is_flag c then after_flag else some (spec, c ∷ d ∷ p)

abbrev pub initial : Spec
initial = record {
  field_width = pos 0;
  left_precision = pos 0;
  right_precision = negsuc 0;
  fill_char = b' ';
  numeric_fill = b' ';
  use_numeric_fill = false;
  use_international = false;
  left_justify = false;
  disable_grouping = false;
  use_currency_symbol = true;
  use_parens = false;
  force_sign = false;
}

abbrev pub is_negative : ℤ → Bool
is_negative (pos n) = false
is_negative (negsuc n) = true

abbrev pub at_least_zero : ℤ → ℤ
at_least_zero z = if is_negative z then pos 0 else z

-- A precision after the character `mark`, `old` where the character is not there.
abbrev pub parse_precision : ℕ → ℤ → CString → Option (ℤ × CString)
parse_precision mark old [] = some (old, [])
parse_precision mark old (c ∷ p) =
    if c == mark
    then (let (value, rest) = read_number p in
        if is_negative value then none else some (value, rest))
    else some (old, c ∷ p)

-- `char_max` is CHAR_MAX, which stands for a number that the locale does not have.
abbrev pub locale_digits : ℕ → ℤ → ℕ → ℤ
locale_digits char_max right digits =
    if is_negative right then (if digits == char_max then pos 2 else int8 (pos digits)) else right

abbrev pub parse_conversion : ℕ → Lconv → Spec → CString → Option (Spec × CString)
parse_conversion char_max lc spec [] = none
parse_conversion char_max lc spec (c ∷ p) =
    if c == b'i'
    then some (
      record spec {
        use_international = true;
        right_precision = locale_digits char_max spec.right_precision lc.int_frac_digits;
      },
      p,
    )
    else if c == b'n'
    then some (
      record spec {
        use_international = false;
        right_precision = locale_digits char_max spec.right_precision lc.frac_digits;
      },
      p,
    )
    else none

-- The specification and the rest of the format; `none` for the result false.
unfoldable pub strfmon_parse_format : ℕ → Lconv → CString → Option (Spec × CString)
unfolding parse_flags read_number
strfmon_parse_format char_max lc format = do
  (flagged, p) ← parse_flags initial format
  let (width, p) = read_number p
  (left, p) ← parse_precision b'#' (pos 0) p
  (right, p) ← parse_precision b'.' (negsuc 0) p
  parse_conversion char_max lc
      (record flagged {
        field_width = at_least_zero width;
        left_precision = left;
        right_precision = right;
      })
      p
