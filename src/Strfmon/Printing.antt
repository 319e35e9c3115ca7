-- ===== src/Strfmon/Printing.antt =====
-- The loop of strfmon in lib/posix/c_lib_ext/strfmon.c. The arguments after the format are a list.
use posix_next.Base.{
  ℕ, zero, suc, ◌+◌, Bool, true, false, ◌&&◌, ◌||◌, not, ◌==◌, ltb, Option, none, some, List, [],
  ◌∷◌, if◌then◌else◌, CString, Errno, einval, e2big, ℤ, pos, negsuc, length,
}
use posix_next.Strfmon.{Lconv, strfmon_parse_format}
use posix_next.Strfmon.Amount.{Out, Half, putc_if_space, strfmon_one}

-- How the loop ends: at the end of the format, with EINVAL, or with what C does not define (an
-- argument that is not there, a division by 0).
pub data End : Type 0 where
  finished failed : Out → End
  undefined : End

pub record Printed : Type 0 where
  pub bytes : CString
  pub terminated : Bool
  pub result : ℤ
  pub errno : Option Errno

-- `*s = '\0'`, where there is room for it.
abbrev pub is_terminated : Out → Bool
is_terminated o = ltb 0 o.size

module _ {ℓ} {Double : Type ℓ} (is_below_zero : Double → Bool) (scaled : Double → ℕ → ℕ × Half)
    (char_max : ℕ) (lc : Lconv) where
  abbrev pub no_more : CString → Bool
  no_more [] = true
  no_more (c ∷ p) = false

  -- On fuel: each round reads a byte of the format or more.
  unfoldable pub print_loop : ℕ → ℕ → CString → List Double → Out → End
  unfolding strfmon_parse_format strfmon_one
  print_loop zero prev format args o = undefined
  print_loop (suc fuel) prev [] args o = finished o
  print_loop (suc fuel) prev (ch ∷ p) args o =
      if ch == b'%' && not (prev == b'%') && no_more p
      then failed o
      else if ch == b'%' && prev == b'%' || not (ch == b'%') && not (prev == b'%')
      then print_loop fuel ch p args (putc_if_space ch o)
      else if ch == b'%'
      then print_loop fuel ch p args o
      else elim (strfmon_parse_format char_max lc (ch ∷ p)) [
        | none ↦ failed o
        | some (spec, rest) ↦ elim args [
          | [] ↦ undefined
          | val ∷ args ↦ elim (strfmon_one is_below_zero scaled spec val o) [
            | none ↦ undefined
            | some o ↦ print_loop fuel ch rest args o
          ]
        ]
      ]

  -- `none` for what C does not define.
  unfoldable pub strfmon : ℕ → CString → List Double → Option Printed
  unfolding print_loop
  strfmon maxsize format args =
      if maxsize == 0
      then some (record { bytes = []; terminated = false; result = negsuc 0; errno = some e2big })
      else elim (print_loop (length format + 1) 0 format args
          (record { written = []; size = maxsize })) [
            | undefined ↦ none
            | finished o ↦ some (record {
              bytes = o.written;
              terminated = is_terminated o;
              result = pos (length o.written);
              errno = none;
            })
            | failed o ↦ some (record {
              bytes = o.written;
              terminated = is_terminated o;
              result = negsuc 0;
              errno = some einval;
            })
          ]
