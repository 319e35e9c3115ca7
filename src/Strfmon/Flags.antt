-- ===== src/Strfmon/Flags.antt =====
-- The flags of a conversion of lib/posix/c_lib_ext/strfmon.c, read one by one and all together.
use posix_next.Strfmon.{set_flag, set_fill, initial, Spec}
use posix_next.Base.{not, ◌&&◌, ◌||◌, ◌∙◌, refl, true, false, ◌≡◌, [], ◌∷◌, List, Bool}
use posix_next.Strfmon.Directives.{
  flag_byte, is_no_symbol, is_parens, is_plus, is_left, is_no_grouping, is_fill, last_fill, has,
  left, no_symbol, parens, plus, no_grouping, fill, Flag,
}

-- The cases of the switch, flag by flag.
abbrev pub set_flags : List Flag → Spec → Spec
set_flags [] spec = spec
set_flags (fill c ∷ fs) spec = set_flags fs (set_fill c spec)
set_flags (f ∷ fs) spec = set_flags fs (set_flag (flag_byte f) spec)

-- The options of a spec with those that the flags ask for.
abbrev with_flags : List Flag → Spec → Spec
with_flags fs spec = record spec {
  numeric_fill = last_fill spec.numeric_fill fs;
  use_numeric_fill = has is_fill fs || spec.use_numeric_fill;
  left_justify = has is_left fs || spec.left_justify;
  disable_grouping = has is_no_grouping fs || spec.disable_grouping;
  use_currency_symbol = not (has is_no_symbol fs) && spec.use_currency_symbol;
  use_parens = has is_parens fs || spec.use_parens;
  force_sign = has is_plus fs || spec.force_sign;
}

or_true : (b : Bool) → (b || true) ≡ true
or_true true = refl
or_true false = refl

and_false : (b : Bool) → (b && false) ≡ false
and_false true = refl
and_false false = refl

or_false : (b : Bool) → (b || false) ≡ b
or_false true = refl
or_false false = refl

and_true : (b : Bool) → (b && true) ≡ b
and_true true = refl
and_true false = refl

set_flags-with_flags : (fs : List Flag) (spec : Spec) → set_flags fs spec ≡ with_flags fs spec
set_flags-with_flags [] spec = refl
set_flags-with_flags (no_grouping ∷ fs) spec =
    set_flags-with_flags fs _ ∙ rw (or_true (has is_no_grouping fs)) refl
set_flags-with_flags (plus ∷ fs) spec =
    set_flags-with_flags fs _ ∙ rw (or_true (has is_plus fs)) refl
set_flags-with_flags (parens ∷ fs) spec =
    set_flags-with_flags fs _ ∙ rw (or_true (has is_parens fs)) refl
set_flags-with_flags (no_symbol ∷ fs) spec =
    set_flags-with_flags fs _ ∙ rw (and_false (not (has is_no_symbol fs))) refl
set_flags-with_flags (left ∷ fs) spec =
    set_flags-with_flags fs _ ∙ rw (or_true (has is_left fs)) refl
set_flags-with_flags (fill c ∷ fs) spec =
    set_flags-with_flags fs _ ∙ rw (or_true (has is_fill fs)) refl

abbrev pub asked_for : List Flag → Spec
asked_for fs = record initial {
  numeric_fill = last_fill b' ' fs;
  use_numeric_fill = has is_fill fs;
  left_justify = has is_left fs;
  disable_grouping = has is_no_grouping fs;
  use_currency_symbol = not (has is_no_symbol fs);
  use_parens = has is_parens fs;
  force_sign = has is_plus fs;
}

pub set_flags-initial : (fs : List Flag) → set_flags fs initial ≡ asked_for fs
set_flags-initial fs =
    set_flags-with_flags fs initial
    ∙ rw
        (
          or_false (has is_fill fs),
          or_false (has is_left fs),
          or_false (has is_no_grouping fs),
          and_true (not (has is_no_symbol fs)),
          or_false (has is_parens fs),
          or_false (has is_plus fs),
        )
        refl
