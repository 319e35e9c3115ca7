-- ===== src/Strfmon/Shape.antt =====
-- The first byte and the length of a printed conversion of lib/posix/c_lib_ext/strfmon.c.
use posix_next.Base.{
  length-append, length, ap, ◌==◌, refl, true, false, ◌+◌, ◌≡◌, [], ◌++◌, none, ◌∷◌, ◌<◌, some, ◌≤◌,
  List, Bool, Option, CString, ℕ, arith,
}
use posix_next.Strfmon.Directives.{
  left, no_symbol, parens, plus, no_grouping, fill, Flag, Directive, print_flags, print_width,
  print_precision, conversion, print, IsSmall, IsDirective, after_left, after_width,
}
use posix_next.Strfmon.Numbers.{decimal, decimal_cons}

-- A text that starts with a byte other than `%`.
abbrev pub Head : CString → Type 0
Head s = (c : ℕ) × (p : CString) × (s ≡ c ∷ p) × ((c == b'%') ≡ false)

print_flags-Head : (fs : List Flag) (s : CString) → Head s → Head (print_flags fs s)
print_flags-Head [] s h = h
print_flags-Head (no_grouping ∷ fs) s h = (b'^', print_flags fs s, refl, refl)
print_flags-Head (plus ∷ fs) s h = (b'+', print_flags fs s, refl, refl)
print_flags-Head (parens ∷ fs) s h = (b'(', print_flags fs s, refl, refl)
print_flags-Head (no_symbol ∷ fs) s h = (b'!', print_flags fs s, refl, refl)
print_flags-Head (left ∷ fs) s h = (b'-', print_flags fs s, refl, refl)
print_flags-Head (fill c ∷ fs) s h = (b'=', c ∷ print_flags fs s, refl, refl)

print_width-Head : (o : Option ℕ) (s : CString) → IsSmall o → Head s → Head (print_width o s)
print_width-Head none s i h = h
print_width-Head (some n) s i h =
    let (q, p, first, small) = decimal_cons n i in
    (b'0' + q, p ++ s, ap (λ t. t ++ s) first, ground (arith, small))

print_precision-Head :
    (mark : ℕ) (o : Option ℕ) (s : CString)
    → (mark == b'%') ≡ false
    → Head s
    → Head (print_precision mark o s)
print_precision-Head mark none s m h = h
print_precision-Head mark (some n) s m h = (mark, decimal n ++ s, refl, m)

conversion-Head : (international : Bool) (rest : CString) → Head (conversion international ∷ rest)
conversion-Head true rest = (b'i', rest, refl, refl)
conversion-Head false rest = (b'n', rest, refl, refl)

pub print-Head : (d : Directive) (rest : CString) → IsDirective d → Head (print d rest)
print-Head d rest (hw, hl, hr) = print_flags-Head d.flags _ (
    print_width-Head d.width _ hw (
      print_precision-Head b'#' d.left _ refl
        (print_precision-Head b'.' d.right _ refl (conversion-Head d.international rest))))

-- What follows is shorter.
length-print_flags : (fs : List Flag) (s : CString) → length s ≤ length (print_flags fs s)
length-print_flags [] s = omega arith
length-print_flags (no_grouping ∷ fs) s = omega (arith, length-print_flags fs s)
length-print_flags (plus ∷ fs) s = omega (arith, length-print_flags fs s)
length-print_flags (parens ∷ fs) s = omega (arith, length-print_flags fs s)
length-print_flags (no_symbol ∷ fs) s = omega (arith, length-print_flags fs s)
length-print_flags (left ∷ fs) s = omega (arith, length-print_flags fs s)
length-print_flags (fill c ∷ fs) s = omega (arith, length-print_flags fs s)

length-print_width : (o : Option ℕ) (s : CString) → length s ≤ length (print_width o s)
length-print_width none s = omega arith
length-print_width (some n) s = omega (arith, length-append (decimal n) s)

length-print_precision :
    (mark : ℕ) (o : Option ℕ) (s : CString) → length s ≤ length (print_precision mark o s)
length-print_precision mark none s = omega arith
length-print_precision mark (some n) s = omega (arith, length-append (decimal n) s)

pub length-print : (d : Directive) (rest : CString) → length rest < length (print d rest)
length-print d rest = omega (
  arith,
  length-print_flags d.flags (print_width d.width (after_width d rest)),
  length-print_width d.width (after_width d rest),
  length-print_precision b'#' d.left (after_left d rest),
  length-print_precision b'.' d.right (conversion d.international ∷ rest),
)
