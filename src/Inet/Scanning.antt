-- ===== src/Inet/Scanning.antt =====
-- The first loop of inet_addr in lib/posix/options/networking/inet_addr.c, on numbers and dots.
use mathlib.Core.List.{append-nil}
use posix_next.Base.{
  sym, ℕ, zero, suc, ◌+◌, ◌-◌, ◌≤◌, ◌<◌, Bool, true, false, ◌&&◌, ◌==◌, ltb, some, [], ◌∷◌, ◌++◌,
  CString, length, ◌≡◌, refl, arith, ap, ◌∙◌, both,
}
use posix_next.Strfmon.Digits.{read_from}
use posix_next.Inet.{is_digit, scan_address}

abbrev pub are_digits : CString → Bool
are_digits [] = true
are_digits (c ∷ s) = is_digit c && are_digits s

-- One to three digits of a number below 256.
abbrev pub IsOctet : CString → Type 0
IsOctet s = (are_digits s ≡ true) × (1 ≤ length s) × (length s ≤ 3) × (read_from 0 s < 256)

pub not_dot : (c : ℕ) → is_digit c ≡ true → (c == b'.') ≡ false
not_dot c h = ground arith

scan_address-digits :
    (s rest : CString) (rounds subdigits len dots digits : ℕ)
    → are_digits s ≡ true
    → subdigits + length s ≤ 3
    → length s ≤ rounds
    → scan_address rounds (s ++ rest) subdigits len dots digits
      ≡ scan_address
          (rounds - length s)
          rest
          (subdigits + length s)
          (len + length s)
          dots
          (digits + length s)
unfolding scan_address
scan_address-digits [] rest rounds subdigits len dots digits h l r = λ i.
    scan_address (add_none rounds i) rest (plus_none subdigits i) (plus_none len i) dots
      (plus_none digits i)
  where
    add_none : (n : ℕ) → n ≡ n - 0
    add_none n = omega arith

    plus_none : (n : ℕ) → n ≡ n + 0
    plus_none n = omega arith
scan_address-digits (c ∷ s) rest zero subdigits len dots digits h l r = absurd (omega (arith, r))
scan_address-digits (c ∷ s) rest (suc rounds) subdigits len dots digits h l r =
    let (digit, others) = both (is_digit c) (are_digits s) h in
    let few : ltb 3 subdigits ≡ false = ground (arith, l) in
    rw (few, not_dot c digit, digit)
      (scan_address-digits s rest rounds (subdigits + 1) (len + 1) dots (digits + 1) others
          (omega (arith, l)) (omega (arith, r))
        ∙ (λ i.
            scan_address (less rounds (length s) i) rest (more subdigits (length s) i)
              (more len (length s) i) dots (more digits (length s) i)))
  where
    less : (m n : ℕ) → m - n ≡ suc m - suc n
    less m n = omega arith

    more : (m n : ℕ) → m + 1 + n ≡ m + suc n
    more m n = omega arith

scan_address-dot :
    (rest : CString) (rounds subdigits len dots digits : ℕ)
    → 1 ≤ subdigits
    → subdigits ≤ 3
    → 1 ≤ rounds
    → scan_address rounds (b'.' ∷ rest) subdigits len dots digits
      ≡ scan_address (rounds - 1) rest 0 (len + 1) (dots + 1) digits
unfolding scan_address
scan_address-dot rest zero subdigits len dots digits p l r = absurd (omega arith)
scan_address-dot rest (suc rounds) subdigits len dots digits p l r =
    let few : ltb 3 subdigits ≡ false = ground (arith, l) in
    let some_digits : (subdigits == 0) ≡ false = ground (arith, p) in
    rw (few, some_digits)
      (ap (λ n. scan_address n rest 0 (len + 1) (dots + 1) digits) (omega arith))

scan_address_end :
    (rounds subdigits len dots digits : ℕ)
    → subdigits ≤ 3
    → scan_address rounds [] subdigits len dots digits ≡ some (len, dots, digits)
unfolding scan_address
scan_address_end zero subdigits len dots digits l = refl
scan_address_end (suc rounds) subdigits len dots digits l =
    let few : ltb 3 subdigits ≡ false = ground (arith, l) in rw few refl

pub scan_address-octet :
    (s rest : CString) (rounds len dots digits : ℕ)
    → IsOctet s
    → length s + 1 ≤ rounds
    → scan_address rounds (s ++ (b'.' ∷ rest)) 0 len dots digits
      ≡ scan_address
          (rounds - length s - 1)
          rest
          0
          (len + length s + 1)
          (dots + 1)
          (digits + length s)
scan_address-octet s rest rounds len dots digits (h, some_digits, few, _) r =
    scan_address-digits s (b'.' ∷ rest) rounds 0 len dots digits h (omega (arith, few))
      (omega (arith, r))
    ∙ scan_address-dot rest (rounds - length s) (0 + length s) (len + length s) dots
        (digits + length s) (omega (arith, some_digits)) (omega (arith, few)) (omega (arith, r))

pub scan_address_last :
    (s : CString) (rounds len dots digits : ℕ)
    → IsOctet s
    → length s ≤ rounds
    → scan_address rounds s 0 len dots digits ≡ some (len + length s, dots, digits + length s)
scan_address_last s rounds len dots digits (h, _, few, _) r =
    ap (λ t. scan_address rounds t 0 len dots digits) (sym (append-nil s))
    ∙ scan_address-digits s [] rounds 0 len dots digits h (omega (arith, few)) r
    ∙ scan_address_end (rounds - length s) (0 + length s) (len + length s) dots (digits + length s)
        (omega (arith, few))
