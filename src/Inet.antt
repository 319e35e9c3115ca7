-- ===== src/Inet.antt =====
-- lib/posix/options/networking/inet_addr.c: the address that a text in dotted decimals stands for.
-- `htonl` is that of the C library; unsigned numbers have 32 bits.
pub mod Bits
pub mod Scanning
pub mod Octets
mod Tests
use posix_next.Base.{
  ℕ, zero, suc, ◌+◌, ◌-◌, ◌*◌, ◌%◌, Bool, true, false, ◌&&◌, ◌||◌, not, ◌==◌, ltb, leb, Option,
  none, some, List, [], ◌∷◌, if◌then◌else◌, CString, take,
}
use Prim.Native.Nat.{bit_or}

abbrev pub is_digit : ℕ → Bool
is_digit c = leb b'0' c && leb c b'9'

abbrev pub is_space : ℕ → Bool
is_space c = c == b' ' || leb 9 c && leb c 13

-- The first loop, with the rounds that are left: `len`, `dots` and `digits` where it ends, `none`
-- where it returns -1.
unfoldable pub scan_address : ℕ → CString → ℕ → ℕ → ℕ → ℕ → Option (ℕ × ℕ × ℕ)
scan_address zero cp subdigits len dots digits = some (len, dots, digits)
scan_address (suc rounds) [] subdigits len dots digits =
    if ltb 3 subdigits then none else some (len, dots, digits)
scan_address (suc rounds) (c ∷ cp) subdigits len dots digits =
    let after_dot = scan_address rounds cp 0 (len + 1) (dots + 1) digits in
    let after_digit = scan_address rounds cp (subdigits + 1) (len + 1) dots (digits + 1) in
    if ltb 3 subdigits
    then none
    else if c == b'.'
    then (if subdigits == 0 then none else after_dot)
    else if is_digit c
    then after_digit
    else if is_space c
    then some (len, dots, digits)
    else none

abbrev pub is_last : CString → Bool
is_last [] = true
is_last (c ∷ cp) = false

-- The second loop, over the first `len` bytes.
unfoldable pub pack_bytes : ℕ → ℕ → CString → ℕ
pack_bytes val tmp [] = val
pack_bytes val tmp (c ∷ cp) =
    let tmp' = if c == b'.' then tmp else tmp * 10 + (c - b'0') in
    let packed = pack_bytes (bit_or (val * 256 % 4294967296) tmp') 0 cp in
    let more = pack_bytes val tmp' cp in if c == b'.' || is_last cp then packed else more

module _ (htonl : ℕ → ℕ) where
  -- `none` is NULL; -1 is converted to an unsigned number. The loop has INET_ADDRSTRLEN + 1 rounds.
  unfoldable pub inet_addr : Option CString → ℕ
  unfolding scan_address pack_bytes
  inet_addr none = 4294967295
  inet_addr (some cp) = elim (scan_address 17 cp 0 0 0 0) [
    | none ↦ 4294967295
    | some (len, dots, digits) ↦
        if not (dots == 3) || ltb digits 4 then 4294967295 else htonl (pack_bytes 0 0 (take len cp))
  ]
