-- ===== src/Strfmon/Numbers.antt =====
-- The numbers of a conversion, and how read_number of lib/posix/c_lib_ext/strfmon.c reads them.
use posix_next.Strfmon.Writing.{digits_of-positive, digits_of-fits}
use native.Mathlib.Nat.{div-lt_iff_lt-mul, mod-lt, div-add-mod', one-le-pow}
use posix_next.Strfmon.Amount.{digits_of}
use posix_next.Strfmon.Digits.{pos_factor, digit_list_rest, pow_suc, digit_list-suc, digit_list}
use posix_next.Strfmon.{is_digit, int8, read_number, read_digits}
use posix_next.Base.{
  zero, ◌%◌, sym, ◌/◌, suc, ap, ◌∙◌, ◌-◌, refl, true, negsuc, false, ◌+◌, ◌≡◌, ◌*◌, [], pos, ◌++◌,
  ◌^◌, ◌∷◌, ◌<◌, ◌≤◌, Bool, ℤ, CString, ℕ, arith,
}

abbrev pub decimal : ℕ → CString
decimal n = digit_list (digits_of n) n

abbrev pub starts : (ℕ → Bool) → CString → Bool
starts test [] = false
starts test (c ∷ s) = test c

int8_small : (n : ℕ) → n ≤ 127 → int8 (pos n) ≡ pos n
unfolding int8
int8_small n h = ground arith

read_digit :
    (a q : ℕ) (p : CString)
    → q < 10
    → a * 10 + q ≤ 127
    → read_digits (pos a) ((b'0' + q) ∷ p) ≡ read_digits (pos (a * 10 + q)) p
unfolding read_digits
read_digit a q p h l =
    let digit : is_digit (b'0' + q) ≡ true = ground arith in
    let value : a * 10 + (b'0' + q - b'0') ≡ a * 10 + q = omega arith in
    rw digit (ap (λ v. read_digits v p) (ap (λ n. int8 (pos n)) value ∙ int8_small (a * 10 + q) l))

read_digits_end : (v : ℤ) (s : CString) → starts is_digit s ≡ false → read_digits v s ≡ (v, s)
unfolding read_digits
read_digits_end v [] e = refl
read_digits_end v (c ∷ s) e = rw e refl

lt_succ : {n : ℕ} → n < 128 → n ≤ 127
lt_succ h = omega (arith, h)

read_digits-digit_list :
    (k n a : ℕ) (s : CString)
    → n < 10 ^ k
    → a * 10 ^ k + n ≤ 127
    → starts is_digit s ≡ false
    → read_digits (pos a) (digit_list k n ++ s) ≡ (pos (a * 10 ^ k + n), s)
read_digits-digit_list zero n a s h l e =
    read_digits_end (pos a) s e ∙ ap (λ v. (pos v, s)) (omega (arith, h))
read_digits-digit_list (suc k) n a s h l e =
    let q = n / 10 ^ k in
    let positive : 1 ≤ 10 ^ k = one-le-pow k 10 (omega arith) in
    let split : (a * 10 + q) * 10 ^ k + n % 10 ^ k ≡ a * 10 ^ suc k + n =
      omega (arith, div-add-mod' n (10 ^ k), ap (λ p. a * p) (pow_suc k)) in
    let small : q < 10 = (div-lt_iff_lt-mul positive).1 (omega (arith, h, pow_suc k)) in
    ap (λ t. read_digits (pos a) (t ++ s)) (digit_list_rest k n h)
    ∙ read_digit a q _ small
        (lt_succ (pos_factor (a * 10 + q) (10 ^ k) 128 positive (omega (arith, split, l))))
    ∙ read_digits-digit_list k (n % 10 ^ k) (a * 10 + q) s (mod-lt n positive)
        (omega (arith, split, l)) e
    ∙ ap (λ v. (pos v, s)) split

pub decimal_cons :
    (n : ℕ) → n ≤ 127 → (q : ℕ) × (p : CString) × (decimal n ≡ (b'0' + q) ∷ p) × (q < 10)
decimal_cons n h = cons_of (digits_of n) n (digits_of-positive n (omega (arith, h)))
  where
    cons_of :
        (c n : ℕ) → 1 ≤ c → (q : ℕ) × (p : CString) × (digit_list c n ≡ (b'0' + q) ∷ p) × (q < 10)
    cons_of zero n h = absurd (omega arith)
    cons_of (suc k) n h =
        (n / 10 ^ k % 10, digit_list k n, digit_list-suc k n, mod-lt (n / 10 ^ k) (omega arith))

pub read_number-decimal :
    (n : ℕ) (s : CString)
    → n ≤ 127
    → starts is_digit s ≡ false
    → read_number (decimal n ++ s) ≡ (pos n, s)
unfolding read_number
read_number-decimal n s h e =
    let (q, p, first, small) = decimal_cons n h in
    let digit : is_digit (b'0' + q) ≡ true = ground (arith, small) in
    let starting : read_number (((b'0' + q) ∷ p) ++ s)
        ≡ read_digits (pos 0) (((b'0' + q) ∷ p) ++ s) =
      rw digit refl in
    ap (λ t. read_number (t ++ s)) first
    ∙ starting
    ∙ sym (ap (λ t. read_digits (pos 0) (t ++ s)) first)
    ∙ read_digits-digit_list (digits_of n) n 0 s (digits_of-fits n (omega (arith, h)))
        (omega (arith, h)) e
    ∙ ap (λ v. (pos v, s)) (omega arith)

pub read_number_none : (s : CString) → starts is_digit s ≡ false → read_number s ≡ (negsuc 0, s)
unfolding read_number
read_number_none [] e = refl
read_number_none (c ∷ s) e = rw e refl
