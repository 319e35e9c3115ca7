-- ===== src/Strfmon/Layout.antt =====
-- What strfmon_one of lib/posix/c_lib_ext/strfmon.c writes for an amount, as one string.
use posix_next.Base.{
  zero, length-replicate, length-append, suc, ℕ, ◌+◌, ◌-◌, ◌≡◌, arith, Bool, true, false, ltb, [],
  ◌∷◌, ◌++◌, if◌then◌else◌, CString, refl, sym, ◌∙◌, length, replicate,
}
use posix_next.Strfmon.{Spec}
use posix_next.Strfmon.Amount.{
  number_len, or_default, max, right_of, left_of, digits_of, sign_lead, sign_trail,
}
use posix_next.Strfmon.Digits.{length-digit_list, digit_list}

-- What stands before the digits, and after them.
abbrev pub prefix : Spec → Bool → CString
prefix spec true = (if spec.use_parens then b'(' else b'-') ∷ []
prefix spec false =
    if spec.force_sign then b'+' ∷ [] else if ltb 0 (left_of spec) then b' ' ∷ [] else []

abbrev pub suffix : Spec → Bool → CString
suffix spec true = if spec.use_parens then b')' ∷ [] else []
suffix spec false = []

abbrev pub fraction : ℕ → ℕ → CString
fraction right frac_part = if ltb 0 right then b'.' ∷ digit_list right frac_part else []

abbrev pub number : Spec → Bool → ℕ → ℕ → CString
number spec negative int_part frac_part =
    prefix spec negative
    ++ (replicate (left_of spec - digits_of int_part) spec.numeric_fill
        ++ (digit_list (digits_of int_part) int_part
            ++ (fraction (right_of spec) frac_part ++ suffix spec negative)))

-- The number with the padding of the field on its side.
abbrev pub layout : Spec → Bool → ℕ → ℕ → CString
layout spec negative int_part frac_part =
    let text = number spec negative int_part frac_part in
    let padding = replicate (or_default 0 spec.field_width - length text) spec.fill_char in
    if spec.left_justify then text ++ padding else padding ++ text

length-prefix :
    (spec : Spec) (negative : Bool) → length (prefix spec negative) ≡ sign_lead spec negative
length-prefix spec true = ground arith
length-prefix spec false = ground arith

length-suffix :
    (spec : Spec) (negative : Bool) → length (suffix spec negative) ≡ sign_trail spec negative
length-suffix spec true = ground arith
length-suffix spec false = refl

length-fraction :
    (right frac_part : ℕ)
    → length (fraction right frac_part) ≡ (if ltb 0 right then 1 + right else 0)
length-fraction zero frac_part = refl
length-fraction (suc k) frac_part = grind (arith, length-digit_list (suc k) frac_part)

plus_minus : (a b : ℕ) → max a b ≡ b - a + a
plus_minus a b = ground arith

pub length-number :
    (spec : Spec) (negative : Bool) (int_part frac_part : ℕ)
    → length (number spec negative int_part frac_part) ≡ number_len spec negative int_part
length-number spec negative int_part frac_part =
    let filler = replicate (left_of spec - digits_of int_part) spec.numeric_fill in
    let digits = digit_list (digits_of int_part) int_part in
    let point = fraction (right_of spec) frac_part in
    let end = suffix spec negative in
    let start = prefix spec negative in
    omega (
      arith,
      length-append start (filler ++ (digits ++ (point ++ end))),
      length-append filler (digits ++ (point ++ end)),
      length-append digits (point ++ end),
      length-append point end,
      length-prefix spec negative,
      length-suffix spec negative,
      length-fraction (right_of spec) frac_part,
      length-replicate (left_of spec - digits_of int_part) spec.numeric_fill,
      length-digit_list (digits_of int_part) int_part,
      plus_minus (digits_of int_part) (left_of spec),
    )

length-padded :
    (left : Bool) (pad fill : ℕ) (text : CString)
    → length (if left then text ++ replicate pad fill else replicate pad fill ++ text)
      ≡ pad + length text
length-padded true pad fill text =
    omega (arith, length-append text (replicate pad fill), length-replicate pad fill)
length-padded false pad fill text =
    omega (arith, length-append (replicate pad fill) text, length-replicate pad fill)

-- The field is as wide as the number, or as its width where that is more.
pub length-layout :
    (spec : Spec) (negative : Bool) (int_part frac_part : ℕ)
    → length (layout spec negative int_part frac_part)
      ≡ max (length (number spec negative int_part frac_part)) (or_default 0 spec.field_width)
length-layout spec negative int_part frac_part =
    let text = number spec negative int_part frac_part in
    let width = or_default 0 spec.field_width in
    length-padded spec.left_justify (width - length text) spec.fill_char text
    ∙ sym (plus_minus (length text) width)
