-- ===== src/Strfmon/Tests.antt =====
-- The theorems on strfmon at amounts of cents.
use posix_next.Strfmon.Rendering.{byte, amount, Item}
use posix_next.Base.{
  List, ℕ, ◌*◌, ◌/◌, ◌%◌, Bool, false, ltb, ◌==◌, if◌then◌else◌, none, some, [], ◌∷◌, ◌≡◌, arith,
}
use posix_next.Strfmon.{strfmon_parse_format, Lconv, Spec}
use posix_next.Strfmon.Amount.{Half}
use posix_next.Strfmon.Directives.{parens, print, meaning, Directive}
use posix_next.Strfmon.Parsing.{strfmon_parse_format-print}

abbrev is_debt : Bool × ℕ → Bool
is_debt v = v.0

abbrev in_units : Bool × ℕ → ℕ → ℕ × Half
in_units (debt, cents) power =
    let rest = cents * power % 100 in
    (
      cents * power / 100,
      if ltb rest 50 then Half.below else if rest == 50 then Half.tie else Half.above,
    )

abbrev c_locale : Lconv
c_locale = record { int_frac_digits = 127; frac_digits = 127 }

abbrev two_digits : Directive
two_digits = record {
  flags = parens ∷ [];
  width = some 8;
  left = none;
  right = some 1;
  international = false;
}

-- `%(8.1n` and `!`
abbrev sample : List Item
sample = amount two_digits ∷ byte b'!' ∷ []

abbrev plain_spec : Spec
plain_spec = meaning 127 c_locale two_digits

strfmon_parse_format-print_example :
    strfmon_parse_format 127 c_locale (print two_digits (b'!' ∷ [])) ≡ some (plain_spec, b'!' ∷ [])
strfmon_parse_format-print_example =
    strfmon_parse_format-print 127 c_locale two_digits (b'!' ∷ []) (omega arith, tt, omega arith)
