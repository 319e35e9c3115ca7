-- ===== src/Base/Text.antt =====
-- C strings without their terminator: the list of the bytes before it.
use Prim.Native.Nat.{ℕ}
use mathlib.Core.Path.{◌≡◌, refl}
use mathlib.Core.Bool.{Bool, true, false, ◌&&◌, ◌||◌}
use mathlib.Core.List.{List, [], ◌∷◌, ◌++◌}
use native.Mathlib.Omega.{arith}
use mathlib.Core.Logic.{inl, inr}
use posix_next.Base.Tests.{◌==◌, Bool-cases}

abbrev pub CString : Type 0
CString = List ℕ

-- `strcmp(s, t) == 0`
abbrev pub str_eq : CString → CString → Bool
str_eq [] [] = true
str_eq [] (d ∷ t) = false
str_eq (c ∷ s) [] = false
str_eq (c ∷ s) (d ∷ t) = (c == d) && str_eq s t

-- `strchr(s, c) != NULL`
abbrev pub contains : ℕ → CString → Bool
contains c [] = false
contains c (d ∷ s) = (d == c) || contains c s

pub str_eq_refl : (s : CString) → str_eq s s ≡ true
str_eq_refl [] = refl
str_eq_refl (c ∷ s) = ground (arith, str_eq_refl s)

pub str_eq_sound : (s t : CString) → str_eq s t ≡ true → s ≡ t
str_eq_sound [] [] h = refl
str_eq_sound [] (d ∷ t) h = cc
str_eq_sound (c ∷ s) [] h = cc
str_eq_sound (c ∷ s) (d ∷ t) h = ground (arith, str_eq_sound s t)

pub contains-append :
    (c : ℕ) (s t : CString)
    → contains c s ≡ false
    → contains c t ≡ false
    → contains c (s ++ t) ≡ false
contains-append c [] t hs ht = ht
contains-append c (d ∷ s) t hs ht = elim (Bool-cases (d == c)) [
  | inl here ↦ absurd (ground (arith, hs, here))
  | inr apart ↦ rw apart (contains-append c s t (ground (arith, hs, apart)) ht)
]
