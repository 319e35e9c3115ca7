-- ===== src/Strfmon/Rendering.antt =====
-- What strfmon of lib/posix/c_lib_ext/strfmon.c prints for a format of plain bytes and conversions.
use posix_next.Strfmon.Writing.{text_of}
use posix_next.Strfmon.{Lconv}
use posix_next.Strfmon.Amount.{right_of, Half}
use posix_next.Base.{◌^◌, ◌≤◌, some, ◌++◌, some, ◌<◌, ◌∷◌, ◌≢◌, [], CString, List, Bool, ℕ}
use posix_next.Strfmon.Directives.{Directive, print, IsDirective, meaning}

pub data Item : Type 0 where
  byte : ℕ → Item
  amount : Directive → Item

abbrev pub print_items : List Item → CString
print_items [] = []
print_items (byte c ∷ items) = c ∷ print_items items
print_items (amount d ∷ items) = b'%' ∷ print d (print_items items)

module _ {ℓ} {Double : Type ℓ} (is_below_zero : Double → Bool) (scaled : Double → ℕ → ℕ × Half)
    (char_max : ℕ) (lc : Lconv) where
  -- Plain bytes are no `%`, there is an argument for every conversion, and the precisions and the
  -- amounts are those that strfmon_one handles.
  abbrev pub ArePrintable : List Item → List Double → Type 0
  ArePrintable [] args = Unit {0}
  ArePrintable (byte c ∷ items) args = (c ≢ b'%') × ArePrintable items args
  ArePrintable (amount d ∷ items) [] = ⊥
  ArePrintable (amount d ∷ items) (val ∷ args) =
      IsDirective d
      × (right_of (meaning char_max lc d) ≤ 19)
      × ((scaled val (10 ^ right_of (meaning char_max lc d))).0 < 18446744073709551616)
      × ArePrintable items args

  abbrev pub rendered : List Item → List Double → CString
  rendered [] args = []
  rendered (byte c ∷ items) args = c ∷ rendered items args
  rendered (amount d ∷ items) [] = []
  rendered (amount d ∷ items) (val ∷ args) =
      text_of is_below_zero scaled (meaning char_max lc d) val ++ rendered items args
