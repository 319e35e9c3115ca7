-- ===== src/Strings/Copying.antt =====
-- What lib/posix/c_lib_ext/strnlen.c and lib/posix/c_lib_ext/stpcpy.c do with a string.
use posix_next.Base.{
  ℕ, zero, suc, ◌+◌, ◌≡◌, min, arith, false, ◌||◌, Bool-cases, inl, inr, Option, none, some, List,
  [], ◌∷◌, ◌++◌, ◌==◌, length, length-append, ◌<◌, CString, contains, refl, ap, subst,
}
use posix_next.Strings.{strnlen, strlen, copy_loop, stpncpy, stpcpy, pointer_after}

-- No byte of the string is a terminator.
abbrev pub IsString : CString → Type 0
IsString s = contains 0 s ≡ false

pub first_byte : (c : ℕ) (s : CString) → IsString (c ∷ s) → ((c == 0) ≡ false) × IsString s
first_byte c s h = elim (Bool-cases (c == 0)) [
  | inl e ↦ absurd (ground (arith, h, e))
  | inr e ↦ (e, subst (λ b. (b || contains 0 s) ≡ false) e h)
]

pub strlen-terminated : (s tail : CString) → IsString s → strlen (s ++ (0 ∷ tail)) ≡ some (length s)
unfolding strlen
strlen-terminated [] tail h = refl
strlen-terminated (c ∷ s) tail h =
    let f = first_byte c s h in rw (f.0, strlen-terminated s tail f.1) (ap some (omega arith))

-- On a terminated string strnlen is the smaller of its length and the bound, and it reads no
-- further than that.
pub strnlen-terminated :
    (s tail : CString) (max : ℕ)
    → IsString s
    → strnlen (s ++ (0 ∷ tail)) max ≡ some (min (length s) max)
unfolding strnlen
strnlen-terminated [] tail zero h = ground arith
strnlen-terminated [] tail (suc max) h = ground arith
strnlen-terminated (c ∷ s) tail zero h = ground arith
strnlen-terminated (c ∷ s) tail (suc max) h =
    let f = first_byte c s h in rw (f.0, strnlen-terminated s tail max f.1) (ap some (omega arith))

copy_loop-string :
    (s tail : CString) (i : ℕ)
    → IsString s
    → copy_loop (s ++ (0 ∷ tail)) (suc (length s)) i none
      ≡ some (s ++ (0 ∷ []), some (i + length s))
unfolding copy_loop
copy_loop-string [] tail i h = ap (λ n. some (0 ∷ [], some n)) (omega arith)
copy_loop-string (c ∷ s) tail i h =
    let f = first_byte c s h in
    rw (f.0, copy_loop-string s tail (i + 1) f.1)
      (ap (λ n. some (c ∷ (s ++ (0 ∷ [])), some n)) (omega arith))

-- stpcpy copies a terminated string with its terminator, whatever follows it in memory, and
-- returns the address of the terminator.
pub stpcpy-copies :
    (s tail : CString) → IsString s → stpcpy (s ++ (0 ∷ tail)) ≡ some (s ++ (0 ∷ []), length s)
unfolding stpcpy stpncpy
stpcpy-copies s tail h =
    let one : length s + 1 ≡ suc (length s) = omega arith in
    rw (stpcpy, strlen-terminated s tail h, stpncpy, one, copy_loop-string s tail 0 h)
      (ap (λ n. some (s ++ (0 ∷ []), n)) (omega arith))

copy_loop-past :
    (mem : List ℕ) (n i : ℕ) (r : Option ℕ) → length mem < n → copy_loop mem n i r ≡ none
unfolding copy_loop
copy_loop-past [] zero i r h = absurd (omega arith)
copy_loop-past [] (suc n) i r h = refl
copy_loop-past (c ∷ mem) zero i r h = absurd (omega arith)
copy_loop-past (c ∷ mem) (suc n) i r h =
    rw (copy_loop-past mem n (i + 1) (pointer_after c i r) (omega arith))

-- stpncpy does not stop at the terminator: with a string whose memory ends there and a bound over
-- its length and the terminator it reads past the end of the memory, whatever the string.
pub stpncpy-overruns : (s : CString) (n : ℕ) → length s + 1 < n → stpncpy (s ++ (0 ∷ [])) n ≡ none
unfolding stpncpy
stpncpy-overruns s n h =
    rw (
      stpncpy,
      copy_loop-past (s ++ (0 ∷ [])) n 0 none (omega (arith, h, length-append s (0 ∷ []))),
    )
