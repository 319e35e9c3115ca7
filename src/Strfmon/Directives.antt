-- ===== src/Strfmon/Directives.antt =====
-- The conversions of a format of lib/posix/c_lib_ext/strfmon.c as they are written, and what they
-- mean.
use posix_next.Strfmon.{int8, Spec, Lconv}
use posix_next.Base.{
  ◌||◌, ◌==◌, true, false, not, [], pos, ◌++◌, none, ◌∷◌, if◌then◌else◌, some, ◌≤◌, List, Bool,
  Option, ℤ, CString, ℕ,
}
use posix_next.Strfmon.Numbers.{decimal}

pub data Flag : Type 0 where
  no_grouping plus parens no_symbol left : Flag
  fill : ℕ → Flag

-- A conversion, from the byte after the `%`.
pub record Directive : Type 0 where
  pub flags : List Flag
  pub width : Option ℕ
  pub left : Option ℕ
  pub right : Option ℕ
  pub international : Bool

abbrev pub flag_byte : Flag → ℕ
flag_byte no_grouping = b'^'
flag_byte plus = b'+'
flag_byte parens = b'('
flag_byte no_symbol = b'!'
flag_byte left = b'-'
flag_byte (fill c) = b'='

abbrev pub print_flags : List Flag → CString → CString
print_flags [] rest = rest
print_flags (fill c ∷ fs) rest = b'=' ∷ c ∷ print_flags fs rest
print_flags (f ∷ fs) rest = flag_byte f ∷ print_flags fs rest

abbrev pub print_width : Option ℕ → CString → CString
print_width none rest = rest
print_width (some n) rest = decimal n ++ rest

abbrev pub print_precision : ℕ → Option ℕ → CString → CString
print_precision mark none rest = rest
print_precision mark (some n) rest = mark ∷ (decimal n ++ rest)

abbrev pub conversion : Bool → ℕ
conversion international = if international then b'i' else b'n'

-- The conversion, with what follows it.
abbrev pub print : Directive → CString → CString
print d rest = print_flags d.flags (
    print_width d.width (
      print_precision b'#' d.left
        (print_precision b'.' d.right (conversion d.international ∷ rest))))

-- The numbers fit into the source's type int8_t.
abbrev pub IsSmall : Option ℕ → Type 0
IsSmall none = Unit {0}
IsSmall (some n) = n ≤ 127

abbrev pub IsDirective : Directive → Type 0
IsDirective d = IsSmall d.width × IsSmall d.left × IsSmall d.right

abbrev pub is_no_grouping : Flag → Bool
is_no_grouping no_grouping = true
is_no_grouping f = false

abbrev pub is_plus : Flag → Bool
is_plus plus = true
is_plus f = false

abbrev pub is_parens : Flag → Bool
is_parens parens = true
is_parens f = false

abbrev pub is_no_symbol : Flag → Bool
is_no_symbol no_symbol = true
is_no_symbol f = false

abbrev pub is_left : Flag → Bool
is_left left = true
is_left f = false

abbrev pub is_fill : Flag → Bool
is_fill (fill c) = true
is_fill f = false

abbrev pub has : (Flag → Bool) → List Flag → Bool
has test [] = false
has test (f ∷ fs) = test f || has test fs

-- The fill of the last `=`, `c` where there is none.
abbrev pub last_fill : ℕ → List Flag → ℕ
last_fill c [] = c
last_fill c (fill d ∷ fs) = last_fill d fs
last_fill c (f ∷ fs) = last_fill c fs

abbrev pub number_or : ℤ → Option ℕ → ℤ
number_or old none = old
number_or old (some n) = pos n

-- The digits after the point that are asked for, or else those of the locale, 2 if it has none.
abbrev pub precision_of : ℕ → Option ℕ → ℕ → ℤ
precision_of char_max none digits = if digits == char_max then pos 2 else int8 (pos digits)
precision_of char_max (some n) digits = pos n

-- What the conversion asks for: each flag asks for its option, wherever it stands.
abbrev pub meaning : ℕ → Lconv → Directive → Spec
meaning char_max lc d = record {
  field_width = number_or (pos 0) d.width;
  left_precision = number_or (pos 0) d.left;
  right_precision =
      precision_of char_max d.right
        (if d.international then lc.int_frac_digits else lc.frac_digits);
  fill_char = b' ';
  numeric_fill = last_fill b' ' d.flags;
  use_numeric_fill = has is_fill d.flags;
  use_international = d.international;
  left_justify = has is_left d.flags;
  disable_grouping = has is_no_grouping d.flags;
  use_currency_symbol = not (has is_no_symbol d.flags);
  use_parens = has is_parens d.flags;
  force_sign = has is_plus d.flags;
}

-- What follows the width, and what follows the left precision.
abbrev pub after_left : Directive → CString → CString
after_left d rest = print_precision b'.' d.right (conversion d.international ∷ rest)

abbrev pub after_width : Directive → CString → CString
after_width d rest = print_precision b'#' d.left (after_left d rest)
