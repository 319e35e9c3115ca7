-- ===== src/Strfmon/Parsing.antt =====
-- How strfmon_parse_format of lib/posix/c_lib_ext/strfmon.c reads a printed conversion back.
use posix_next.Strfmon.Flags.{set_flags, asked_for, set_flags-initial}
use posix_next.Strfmon.{
  parse_conversion, at_least_zero, parse_precision, strfmon_parse_format, locale_digits, set_flag,
  is_digit, is_flag, set_fill, initial, Spec, parse_flags, Lconv, read_number,
}
use posix_next.Base.{
  sym, ap, ◌==◌, ◌||◌, ◌∙◌, refl, true, negsuc, false, ◌≡◌, [], pos, ◌++◌, none, ◌∷◌, if◌then◌else◌,
  some, List, Bool, Option, ℤ, CString, ℕ, arith,
}
use posix_next.Strfmon.Directives.{
  precision_of, left, no_symbol, parens, plus, no_grouping, fill, Flag, Directive, print_flags,
  print_width, print_precision, conversion, print, IsSmall, IsDirective, number_or, meaning,
  after_left, after_width,
}
use posix_next.Strfmon.Numbers.{starts, decimal_cons, read_number-decimal, read_number_none}

locale_digits-precision_of :
    (char_max : ℕ) (o : Option ℕ) (digits : ℕ)
    → locale_digits char_max (number_or (negsuc 0) o) digits ≡ precision_of char_max o digits
locale_digits-precision_of char_max none digits = refl
locale_digits-precision_of char_max (some n) digits = refl

parse_flags_set :
    (c : ℕ) (spec : Spec) (s : CString)
    → (c == b'=') ≡ false
    → is_flag c ≡ true
    → parse_flags spec (c ∷ s) ≡ parse_flags (set_flag c spec) s
unfolding parse_flags
parse_flags_set c spec [] e h = rw (e, h) refl
parse_flags_set c spec (d ∷ s) e h = rw (e, h) refl

parse_flags_fill :
    (c : ℕ) (spec : Spec) (s : CString)
    → parse_flags spec (b'=' ∷ c ∷ s) ≡ parse_flags (set_fill c spec) s
unfolding parse_flags
parse_flags_fill c spec s = refl

abbrev in_flags : ℕ → Bool
in_flags c = c == b'=' || is_flag c

neither : (a b : Bool) → (a || b) ≡ false → (a ≡ false) × (b ≡ false)
neither true b h = cc
neither false b h = (refl, h)

parse_flags_end :
    (spec : Spec) (s : CString) → starts in_flags s ≡ false → parse_flags spec s ≡ some (spec, s)
unfolding parse_flags
parse_flags_end spec [] h = refl
parse_flags_end spec (c ∷ []) h = let (e, f) = neither (c == b'=') (is_flag c) h in rw (e, f) refl
parse_flags_end spec (c ∷ d ∷ s) h =
    let (e, f) = neither (c == b'=') (is_flag c) h in rw (e, f) refl

parse_flags-print_flags :
    (fs : List Flag) (spec : Spec) (s : CString)
    → starts in_flags s ≡ false
    → parse_flags spec (print_flags fs s) ≡ some (set_flags fs spec, s)
parse_flags-print_flags [] spec s h = parse_flags_end spec s h
parse_flags-print_flags (no_grouping ∷ fs) spec s h =
    parse_flags_set b'^' spec _ refl refl ∙ parse_flags-print_flags fs _ s h
parse_flags-print_flags (plus ∷ fs) spec s h =
    parse_flags_set b'+' spec _ refl refl ∙ parse_flags-print_flags fs _ s h
parse_flags-print_flags (parens ∷ fs) spec s h =
    parse_flags_set b'(' spec _ refl refl ∙ parse_flags-print_flags fs _ s h
parse_flags-print_flags (no_symbol ∷ fs) spec s h =
    parse_flags_set b'!' spec _ refl refl ∙ parse_flags-print_flags fs _ s h
parse_flags-print_flags (left ∷ fs) spec s h =
    parse_flags_set b'-' spec _ refl refl ∙ parse_flags-print_flags fs _ s h
parse_flags-print_flags (fill c ∷ fs) spec s h =
    parse_flags_fill c spec _ ∙ parse_flags-print_flags fs _ s h

parse_precision-print_precision :
    (mark : ℕ) (old : ℤ) (o : Option ℕ) (s : CString)
    → IsSmall o
    → starts (λ c. c == mark) s ≡ false
    → starts is_digit s ≡ false
    → parse_precision mark old (print_precision mark o s) ≡ some (number_or old o, s)
parse_precision-print_precision mark old none [] h m e = refl
parse_precision-print_precision mark old none (c ∷ s) h m e = rw m refl
parse_precision-print_precision mark old (some n) s h m e =
    let here : (mark == mark) ≡ true = ground arith in rw (here, read_number-decimal n s h e) refl

read_number-print_width :
    (o : Option ℕ) (s : CString)
    → IsSmall o
    → starts is_digit s ≡ false
    → read_number (print_width o s) ≡ (number_or (negsuc 0) o, s)
read_number-print_width none s h e = read_number_none s e
read_number-print_width (some n) s h e = read_number-decimal n s h e

-- A byte that stands for none of the tests, after a precision that may not be there.
starts-print_precision :
    (test : ℕ → Bool) (mark : ℕ) (o : Option ℕ) (s : CString)
    → test mark ≡ false
    → starts test s ≡ false
    → starts test (print_precision mark o s) ≡ false
starts-print_precision test mark none s m h = h
starts-print_precision test mark (some n) s m h = m

starts-conversion :
    (test : ℕ → Bool) (international : Bool) (rest : CString)
    → test b'i' ≡ false
    → test b'n' ≡ false
    → starts test (conversion international ∷ rest) ≡ false
starts-conversion test true rest i n = i
starts-conversion test false rest i n = n

starts-print_width :
    (o : Option ℕ) (s : CString)
    → IsSmall o
    → starts in_flags s ≡ false
    → starts in_flags (print_width o s) ≡ false
starts-print_width none s h e = e
starts-print_width (some n) s h e =
    let (q, p, first, small) = decimal_cons n h in
    ap (λ t. starts in_flags (t ++ s)) first ∙ ground (arith, small)

width_value : (o : Option ℕ) → at_least_zero (number_or (negsuc 0) o) ≡ number_or (pos 0) o
width_value none = refl
width_value (some n) = refl

parse_conversion-conversion :
    (char_max : ℕ) (lc : Lconv) (spec : Spec) (international : Bool) (rest : CString)
    → parse_conversion char_max lc spec (conversion international ∷ rest)
      ≡ some (
        record spec {
          use_international = international;
          right_precision =
              locale_digits char_max spec.right_precision
                (if international then lc.int_frac_digits else lc.frac_digits);
        },
        rest,
      )
parse_conversion-conversion char_max lc spec true rest = refl
parse_conversion-conversion char_max lc spec false rest = refl

-- What strfmon_parse_format reads of a conversion whose numbers fit into int8_t, whatever follows
-- it: what the conversion means, and what follows it.
pub strfmon_parse_format-print :
    (char_max : ℕ) (lc : Lconv) (d : Directive) (rest : CString)
    → IsDirective d
    → strfmon_parse_format char_max lc (print d rest) ≡ some (meaning char_max lc d, rest)
unfolding strfmon_parse_format
strfmon_parse_format-print char_max lc d rest (hw, hl, hr) =
    let c = conversion d.international ∷ rest in
    let tail = starts-conversion is_digit d.international rest refl refl in
    let left_tail = starts-print_precision is_digit b'.' d.right c refl tail in
    let width_tail =
      starts-print_precision is_digit b'#' d.left (after_left d rest) refl left_tail in
    let flags_tail = starts-print_precision in_flags b'#' d.left (after_left d rest) refl (
      starts-print_precision in_flags b'.' d.right c refl
        (starts-conversion in_flags d.international rest refl refl)) in
    let hash_tail =
      starts-print_precision (λ c. c == b'#') b'.' d.right c refl
        (starts-conversion (λ c. c == b'#') d.international rest refl refl) in
    let dot_tail = starts-conversion (λ c. c == b'.') d.international rest refl refl in
    rw
      (
        parse_flags-print_flags d.flags initial (print_width d.width (after_width d rest))
            (starts-print_width d.width (after_width d rest) hw flags_tail),
        read_number-print_width d.width (after_width d rest) hw width_tail,
        width_value d.width,
        parse_precision-print_precision b'#' (pos 0) d.left (after_left d rest) hl hash_tail
            left_tail,
        parse_precision-print_precision b'.' (negsuc 0) d.right c hr dot_tail tail,
        set_flags-initial d.flags,
        sym (
            locale_digits-precision_of char_max d.right
              (if d.international then lc.int_frac_digits else lc.frac_digits)),
      )
      (parse_conversion-conversion char_max lc
        (record (asked_for d.flags) {
          field_width = number_or (pos 0) d.width;
          left_precision = number_or (pos 0) d.left;
          right_precision = number_or (negsuc 0) d.right;
        })
        d.international rest)
