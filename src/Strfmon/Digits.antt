-- ===== src/Strfmon/Digits.antt =====
-- Decimal numbers, and the loops of strfmon_one in lib/posix/c_lib_ext/strfmon.c that write them.
use posix_next.Strfmon.Amount.{
  scale_up, count_digits, putc_if_space, Out, put_times, put_int, put_frac,
}
use posix_next.Base.{
  take, replicate, length-append, ℕ, zero, suc, ◌+◌, ◌-◌, ◌*◌, ◌/◌, ◌%◌, ◌^◌, ◌<◌, ◌≤◌, ◌≡◌, arith,
  true, false, ltb, ◌==◌, some, [], ◌∷◌, ◌++◌, CString, refl, sym, ap, ◌∙◌, Bool-cases, inl, inr,
  length,
}
use mathlib.Core.List.{append-nil, append_assoc}
use native.Mathlib.Nat.{
  mod-lt, div-lt_iff_lt-mul, mod-eq_of_lt, div-add-mod, div-div-eq-div-mul, one-le-pow,
  pow-le-pow_right,
}

-- The last k digits of n.
abbrev pub digit_list : ℕ → ℕ → CString
digit_list zero n = []
digit_list (suc k) n = digit_list k (n / 10) ++ ((b'0' + n % 10) ∷ [])

-- The number that digits stand for, after others.
abbrev pub read_from : ℕ → CString → ℕ
read_from acc [] = acc
read_from acc (c ∷ s) = read_from (acc * 10 + (c - b'0')) s

pub length-digit_list : (k n : ℕ) → length (digit_list k n) ≡ k
length-digit_list zero n = refl
length-digit_list (suc k) n = omega (
  arith,
  length-append (digit_list k (n / 10)) ((b'0' + n % 10) ∷ []),
  length-digit_list k (n / 10),
)

pub read_from-append :
    (acc : ℕ) (s t : CString) → read_from acc (s ++ t) ≡ read_from (read_from acc s) t
read_from-append acc [] t = refl
read_from-append acc (c ∷ s) t = read_from-append (acc * 10 + (c - b'0')) s t

pub pow_suc : (k : ℕ) → 10 ^ suc k ≡ 10 * 10 ^ k
pow_suc k = omega arith

pow_pos : (k : ℕ) → 1 ≤ 10 ^ k
pow_pos k = one-le-pow k 10 (omega arith)

-- The remainder by ten times P, by its last digit and the digits before it.
mod_ten_times : (n P : ℕ) → 1 ≤ P → n % (10 * P) ≡ n / 10 % P * 10 + n % 10
mod_ten_times n P h = omega (
  arith,
  div-add-mod n (10 * P),
  div-add-mod (n / 10) P,
  ap (λ q. P * q) (div-div-eq-div-mul n 10 P),
)

pub read_from-digit_list :
    (k n acc : ℕ) → read_from acc (digit_list k n) ≡ acc * 10 ^ k + n % 10 ^ k
read_from-digit_list zero n acc = omega arith
read_from-digit_list (suc k) n acc =
    read_from-append acc (digit_list k (n / 10)) ((b'0' + n % 10) ∷ [])
    ∙ omega (
      arith,
      read_from-digit_list k (n / 10) acc,
      mod_ten_times n (10 ^ k) (pow_pos k),
      ap (λ p. n % p) (pow_suc k),
      ap (λ p. acc * p) (pow_suc k),
    )

div_ten : (k n : ℕ) → n / 10 ^ suc k ≡ n / 10 / 10 ^ k
div_ten k n = ap (λ d. n / d) (pow_suc k) ∙ sym (div-div-eq-div-mul n 10 (10 ^ k))

-- The first digit.
pub digit_list-suc : (k n : ℕ) → digit_list (suc k) n ≡ (b'0' + n / 10 ^ k % 10) ∷ digit_list k n
digit_list-suc zero n = ap (λ q. (b'0' + q % 10) ∷ []) (omega arith)
digit_list-suc (suc k) n =
    ap (λ s. s ++ ((b'0' + n % 10) ∷ [])) (digit_list-suc k (n / 10))
    ∙ ap (λ q. (b'0' + q % 10) ∷ digit_list (suc k) n) (sym (div_ten k n))

pub digit_list-mod : (k n : ℕ) → digit_list k (n % 10 ^ k) ≡ digit_list k n
digit_list-mod zero n = refl
digit_list-mod (suc k) n =
    let last = mod_ten_times n (10 ^ k) (pow_pos k) in
    let same = ap (λ p. n % p) (pow_suc k) in
    let front : n % 10 ^ suc k / 10 ≡ n / 10 % 10 ^ k = omega (arith, last, same) in
    let digit : n % 10 ^ suc k % 10 ≡ n % 10 = omega (arith, last, same) in
    (λ i. digit_list k (front i) ++ ((b'0' + digit i) ∷ []))
    ∙ ap (λ s. s ++ ((b'0' + n % 10) ∷ [])) (digit_list-mod k (n / 10))

-- The first digit of a number of at most k + 1 digits.
pub digit_list_rest :
    (k n : ℕ)
    → n < 10 ^ suc k
    → digit_list (suc k) n ≡ (b'0' + n / 10 ^ k) ∷ digit_list k (n % 10 ^ k)
digit_list_rest k n h =
    let small : n / 10 ^ k < 10 = (div-lt_iff_lt-mul (pow_pos k)).1 (omega (arith, pow_suc k)) in
    digit_list-suc k n ∙ (λ i. (b'0' + mod-eq_of_lt small i) ∷ sym (digit_list-mod k n) i)

pub pos_factor : (a b m : ℕ) → 1 ≤ b → a * b < m → a < m
pos_factor a zero m p h = absurd (omega arith)
pos_factor a (suc b) m p h = omega (arith, h)

pub scale_up-pow : (n x : ℕ) → 1 ≤ x → x * 10 ^ n < 18446744073709551616 → scale_up n x ≡ x * 10 ^ n
unfolding scale_up
scale_up-pow zero x p h = omega arith
scale_up-pow (suc n) x p h =
    let step : x * 10 ^ suc n ≡ x * 10 * 10 ^ n = ap (λ q. x * q) (pow_suc n) ∙ omega arith in
    let small : x * 10 < 18446744073709551616 =
      pos_factor (x * 10) (10 ^ n) _ (pow_pos n) (omega (arith, step, h)) in
    ap (scale_up n) (mod-eq_of_lt small)
    ∙ scale_up-pow n (x * 10) (omega arith) (omega (arith, step))
    ∙ sym step

-- The precisions for which `iscale` is the power of ten.
pub pow-fits : (n : ℕ) → n ≤ 19 → 10 ^ n < 18446744073709551616
pow-fits n h = omega (arith, pow-le-pow_right {n = 10} (omega arith) {i = n} {j = 19} h)

pub count_digits-bounds :
    (fuel t : ℕ) → t < 10 ^ fuel → (t < 10 ^ count_digits fuel t) × (count_digits fuel t ≤ fuel)
unfolding count_digits
count_digits-bounds zero t h = (h, omega arith)
count_digits-bounds (suc fuel) t h =
    let (fits, few) = count_digits-bounds fuel (t / 10) (omega (arith, pow_suc fuel, h)) in
    elim (Bool-cases (ltb 0 t)) [
      | inl more ↦
          rw more (omega (arith, fits, pow_suc (count_digits fuel (t / 10)), h), omega (arith, few))
      | inr none_left ↦ rw none_left (ground arith, omega arith)
    ]

-- What is written where there is room for all of it.
unfoldable pub puts : CString → Out → Out
puts [] o = o
puts (c ∷ s) o = puts s (putc_if_space c o)

pub puts-append : (s t : CString) (o : Out) → puts (s ++ t) o ≡ puts t (puts s o)
unfolding puts
puts-append [] t o = refl
puts-append (c ∷ s) t o = puts-append s t (putc_if_space c o)

abbrev out : CString → ℕ → Out
out w n = record { written = w; size = n }

out_eq : {w w' : CString} {n n' : ℕ} → w ≡ w' → n ≡ n' → out w n ≡ out w' n'
out_eq w n = λ i. out (w i) (n i)

putc_room : (c : ℕ) (w : CString) (n : ℕ) → putc_if_space c (out w (suc n)) ≡ out (w ++ (c ∷ [])) n
unfolding putc_if_space
putc_room c w n =
    let room : (suc n == 0) ≡ false = ground arith in rw room (out_eq refl (omega arith))

puts_in :
    (s w : CString) (n : ℕ)
    → puts s (record { written = w; size = n })
      ≡ record { written = w ++ take n s; size = n - length s }
unfolding puts putc_if_space
puts_in [] w zero = out_eq (sym (append-nil w)) refl
puts_in [] w (suc n) = out_eq (sym (append-nil w)) (omega arith)
puts_in (c ∷ s) w zero = puts_in s w zero ∙ out_eq refl (omega arith)
puts_in (c ∷ s) w (suc n) =
    ap (puts s) (putc_room c w n)
    ∙ puts_in s (w ++ (c ∷ [])) n
    ∙ out_eq (append_assoc w (c ∷ []) (take n s)) (omega arith)

pub puts-take :
    (s : CString) (o : Out)
    → puts s o ≡ record { written = o.written ++ take o.size s; size = o.size - length s }
puts-take s o = puts_in s o.written o.size

pub put_times-replicate : (n ch : ℕ) (o : Out) → put_times n ch o ≡ puts (replicate n ch) o
unfolding puts put_times
put_times-replicate zero ch o = refl
put_times-replicate (suc n) ch o = put_times-replicate n ch (putc_if_space ch o)

put_int_zero : (fuel n : ℕ) (o : Out) → put_int fuel 0 n o ≡ some o
unfolding put_int
put_int_zero zero n o = refl
put_int_zero (suc fuel) n o = refl

pow_div : (k : ℕ) → 10 ^ suc k / 10 ≡ 10 ^ k
pow_div k = omega (arith, pow_suc k)

is_pos : (k : ℕ) → ltb 0 (10 ^ k) ≡ true
is_pos k = ground (arith, pow_pos k)

is_not_zero : (k : ℕ) → (10 ^ k == 0) ≡ false
is_not_zero k = ground (arith, pow_pos k)

pub put_int-digits :
    (k fuel n : ℕ) (o : Out)
    → k < fuel
    → put_int fuel (10 ^ k) n o ≡ some (puts (digit_list (suc k) n) o)
unfolding put_int puts
put_int-digits k zero n o h = absurd (omega arith)
put_int-digits zero (suc fuel) n o h =
    put_int_zero fuel n _ ∙ ap (λ q. some (putc_if_space (b'0' + q % 10) o)) (omega arith)
put_int-digits (suc k) (suc fuel) n o h =
    rw (is_pos (suc k), pow_div k)
      (put_int-digits k fuel n (putc_if_space (b'0' + n / 10 ^ suc k % 10) o) (omega (arith, h)))
    ∙ ap (λ s. some (puts s o)) (sym (digit_list-suc (suc k) n))

pub put_frac-digits :
    (k n : ℕ) (o : Out)
    → n < 10 ^ suc k
    → put_frac (suc k) (10 ^ k) n o ≡ some (puts (digit_list (suc k) n) o)
unfolding put_frac puts
put_frac-digits zero n o h = ap (λ q. some (putc_if_space (b'0' + q) o)) (omega (arith, h))
put_frac-digits (suc k) n o h =
    rw (put_frac, is_not_zero (suc k), pow_div k)
      (put_frac-digits k (n % 10 ^ suc k) (putc_if_space (b'0' + n / 10 ^ suc k) o)
        (mod-lt n (pow_pos (suc k))))
    ∙ ap (λ s. some (puts s o)) (sym (digit_list_rest (suc k) n h))
