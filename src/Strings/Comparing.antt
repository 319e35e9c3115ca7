-- ===== src/Strings/Comparing.antt =====
-- lib/posix/c_lib_ext/strncasecmp.c and lib/posix/c_lib_ext/strcasecmp.c. `tolower` is that of the
-- C library.
use posix_next.Strings.Copying.{strlen-terminated, first_byte, IsString}
use posix_next.Strings.{strlen}
use posix_next.Base.{
  inr, inl, Bool-cases, ap, ◌≤◌, arith, ◌<◌, length, ◌++◌, take, false, ◌≡◌, CString, ℕ, zero, suc,
  Option, none, some, List, [], ◌∷◌, ◌==◌, ltb, if◌then◌else◌, ℤ, pos, negsuc, refl,
}

-- `(lower1 > lower2) - (lower1 < lower2)`
abbrev pub order : ℕ → ℕ → ℤ
order a b = if ltb b a then pos 1 else (if ltb a b then negsuc 0 else pos 0)

module _ (tolower : ℕ → ℕ) where
  -- The loop; the first argument is the memory at s1. It has read a terminator when `c` is 0.
  unfoldable pub strncasecmp : List ℕ → List ℕ → ℕ → Option ℤ
  strncasecmp s1 s2 zero = some (pos 0)
  strncasecmp [] s2 (suc n) = none
  strncasecmp (c ∷ s1) [] (suc n) = none
  strncasecmp (c ∷ s1) (d ∷ s2) (suc n) =
      let rest = strncasecmp s1 s2 n in
      if tolower c == tolower d
      then (if c == 0 then some (pos 0) else rest)
      else some (order (tolower c) (tolower d))

  abbrev pub longer : ℕ → ℕ → ℕ
  longer a b = if ltb a b then b else a

  unfoldable pub strcasecmp : List ℕ → List ℕ → Option ℤ
  unfolding strncasecmp
  strcasecmp s1 s2 = elim (strlen s1) [
    | none ↦ none
    | some n1 ↦ elim (strlen s2) [ none ↦ none | some n2 ↦ strncasecmp s1 s2 (longer n1 n2) ]
  ]

  -- The order of two texts by their lower-case bytes: that of the first difference, where the end
  -- of a text counts as a byte below all others.
  abbrev pub compare_text : CString → CString → ℤ
  compare_text [] [] = pos 0
  compare_text [] (d ∷ t) = negsuc 0
  compare_text (c ∷ s) [] = pos 1
  compare_text (c ∷ s) (d ∷ t) =
      let rest = compare_text s t in
      if tolower c == tolower d then rest else order (tolower c) (tolower d)

  -- What the code relies on of tolower: the terminator, and it alone, goes to the terminator.
  abbrev pub KeepsEnd : Type 0
  KeepsEnd = (tolower 0 ≡ 0) × ((c : ℕ) → (c == 0) ≡ false → (tolower c == 0) ≡ false)

  order-end : (c : ℕ) → KeepsEnd → (c == 0) ≡ false → 0 < tolower c
  order-end c k e = ground (arith, k.1 c e)

  -- On terminated strings strncasecmp returns the order of their first `n` bytes, whatever follows
  -- the terminators in memory.
  pub strncasecmp-compare_text :
      (s t after_s after_t : CString) (n : ℕ)
      → KeepsEnd
      → IsString s
      → IsString t
      → strncasecmp (s ++ (0 ∷ after_s)) (t ++ (0 ∷ after_t)) n
        ≡ some (compare_text (take n s) (take n t))
  unfolding strncasecmp
  strncasecmp-compare_text s t after_s after_t zero k hs ht = refl
  strncasecmp-compare_text [] [] after_s after_t (suc n) k hs ht = rw (k.0) refl
  strncasecmp-compare_text [] (d ∷ t) after_s after_t (suc n) k hs ht =
      let positive = order-end d k (first_byte d t ht).0 in ground (arith, k.0, positive)
  strncasecmp-compare_text (c ∷ s) [] after_s after_t (suc n) k hs ht =
      let positive = order-end c k (first_byte c s hs).0 in ground (arith, k.0, positive)
  strncasecmp-compare_text (c ∷ s) (d ∷ t) after_s after_t (suc n) k hs ht =
      rw
        (
          (first_byte c s hs).0,
          strncasecmp-compare_text s t after_s after_t n k (first_byte c s hs).1
              (first_byte d t ht).1,
        )
        (elim (Bool-cases (tolower c == tolower d)) [
          | inl same ↦ rw (same) refl
          | inr other ↦ rw (other) refl
        ])

  take-all : (s : CString) (n : ℕ) → length s ≤ n → take n s ≡ s
  take-all [] zero h = refl
  take-all [] (suc n) h = refl
  take-all (c ∷ s) zero h = absurd (omega arith)
  take-all (c ∷ s) (suc n) h = ap (λ r. c ∷ r) (take-all s n (omega arith))

  -- On terminated strings strcasecmp returns the order of the whole strings.
  pub strcasecmp-compare_text :
      (s t after_s after_t : CString)
      → KeepsEnd
      → IsString s
      → IsString t
      → strcasecmp (s ++ (0 ∷ after_s)) (t ++ (0 ∷ after_t)) ≡ some (compare_text s t)
  unfolding strcasecmp
  strcasecmp-compare_text s t after_s after_t k hs ht =
      let n = longer (length s) (length t) in
      rw
        (
          strcasecmp,
          strlen-terminated s after_s hs,
          strlen-terminated t after_t ht,
          strncasecmp-compare_text s t after_s after_t n k hs ht,
          take-all s n (ground arith),
          take-all t n (ground arith),
        )
        refl
