-- ===== src/Inet/Octets.antt =====
-- What inet_addr of lib/posix/options/networking/inet_addr.c reads of four numbers with dots.
use posix_next.Inet.Bits.{bit_or_byte}
use native.Mathlib.Nat.{mod-eq_of_lt}
use posix_next.Base.{
  take, length-append, ℕ, zero, suc, ◌+◌, ◌-◌, ◌*◌, ◌%◌, ◌≤◌, ◌<◌, true, false, ltb, some, [], ◌∷◌,
  ◌++◌, CString, length, ◌≡◌, refl, arith, ap, ◌∙◌, both,
}
use Prim.Native.Nat.{bit_or}
use posix_next.Strfmon.Digits.{read_from}
use posix_next.Inet.{inet_addr, is_digit, is_last, scan_address, pack_bytes}
use posix_next.Inet.Scanning.{are_digits, IsOctet, not_dot, scan_address-octet, scan_address_last}

-- A number and the dot after it, or the end.
pack_bytes-dot :
    (s rest : CString) (val tmp : ℕ)
    → are_digits s ≡ true
    → pack_bytes val tmp (s ++ (b'.' ∷ rest))
      ≡ pack_bytes (bit_or (val * 256 % 4294967296) (read_from tmp s)) 0 rest
unfolding pack_bytes
pack_bytes-dot [] rest val tmp h = refl
pack_bytes-dot (c ∷ s) rest val tmp h =
    let (digit, others) = both (is_digit c) (are_digits s) h in
    rw (not_dot c digit, goes_on s) (pack_bytes-dot s rest val (tmp * 10 + (c - b'0')) others)
  where
    goes_on : (s : CString) → is_last (s ++ (b'.' ∷ rest)) ≡ false
    goes_on [] = refl
    goes_on (c ∷ s) = refl

pack_bytes_end :
    (s : CString) (val tmp : ℕ)
    → are_digits s ≡ true
    → 1 ≤ length s
    → pack_bytes val tmp s ≡ bit_or (val * 256 % 4294967296) (read_from tmp s)
unfolding pack_bytes
pack_bytes_end [] val tmp h l = absurd (omega arith)
pack_bytes_end (c ∷ []) val tmp h l =
    let (digit, _) = both (is_digit c) true h in rw (not_dot c digit) refl
pack_bytes_end (c ∷ d ∷ s) val tmp h l =
    let (digit, others) = both (is_digit c) (are_digits (d ∷ s)) h in
    rw (not_dot c digit) (pack_bytes_end (d ∷ s) val (tmp * 10 + (c - b'0')) others (omega arith))

abbrev pub dotted : CString → CString → CString → CString → CString
dotted a b c d = a ++ (b'.' ∷ (b ++ (b'.' ∷ (c ++ (b'.' ∷ d)))))

take-length : (s : CString) (n : ℕ) → n ≡ length s → take n s ≡ s
take-length [] zero e = refl
take-length [] (suc n) e = refl
take-length (c ∷ s) zero e = absurd (omega (arith, e))
take-length (c ∷ s) (suc n) e = ap (λ t. c ∷ t) (take-length s n (omega (arith, e)))

push_byte : (v t : ℕ) → v < 16777216 → t < 256 → bit_or (v * 256 % 4294967296) t ≡ v * 256 + t
push_byte v t hv ht =
    ap (λ x. bit_or x t) (mod-eq_of_lt {n = v * 256} {m = 4294967296} (omega (arith, hv)))
    ∙ bit_or_byte v t ht

-- The number of four bytes, the first one on top.
abbrev pub quad : CString → CString → CString → CString → ℕ
quad a b c d = ((read_from 0 a * 256 + read_from 0 b) * 256 + read_from 0 c) * 256 + read_from 0 d

pack_bytes-dotted :
    (a b c d : CString)
    → IsOctet a
    → IsOctet b
    → IsOctet c
    → IsOctet d
    → pack_bytes 0 0 (dotted a b c d) ≡ quad a b c d
pack_bytes-dotted a b c d (ha, _, _, ra) (hb, _, _, rb) (hc, _, _, rc) (hd, ld, _, rd) =
    let first : bit_or (0 * 256 % 4294967296) (read_from 0 a) ≡ read_from 0 a =
      push_byte 0 (read_from 0 a) (omega arith) ra ∙ omega arith in
    let va = read_from 0 a in
    let vb = va * 256 + read_from 0 b in
    let vc = vb * 256 + read_from 0 c in
    pack_bytes-dot a (b ++ (b'.' ∷ (c ++ (b'.' ∷ d)))) 0 0 ha
    ∙ ap (λ v. pack_bytes v 0 (b ++ (b'.' ∷ (c ++ (b'.' ∷ d))))) first
    ∙ pack_bytes-dot b (c ++ (b'.' ∷ d)) va 0 hb
    ∙ ap (λ v. pack_bytes v 0 (c ++ (b'.' ∷ d)))
        (push_byte va (read_from 0 b) (omega (arith, ra)) rb)
    ∙ pack_bytes-dot c d vb 0 hc
    ∙ ap (λ v. pack_bytes v 0 d) (push_byte vb (read_from 0 c) (omega (arith, ra, rb)) rc)
    ∙ pack_bytes_end d vc 0 hd ld
    ∙ push_byte vc (read_from 0 d) (omega (arith, ra, rb, rc)) rd

scan_address-dotted :
    (a b c d : CString)
    → IsOctet a
    → IsOctet b
    → IsOctet c
    → IsOctet d
    → scan_address 17 (dotted a b c d) 0 0 0 0
      ≡ some (
        0 + length a + 1 + length b + 1 + length c + 1 + length d,
        3,
        0 + length a + length b + length c + length d,
      )
scan_address-dotted a b c d ha hb hc hd =
    let (_, la, fa, _) = ha in
    let (_, lb, fb, _) = hb in
    let (_, lc, fc, _) = hc in
    let (_, ld, fd, _) = hd in
    scan_address-octet a (b ++ (b'.' ∷ (c ++ (b'.' ∷ d)))) 17 0 0 0 ha (omega (arith, fa))
    ∙ scan_address-octet b (c ++ (b'.' ∷ d)) _ _ _ _ hb (omega (arith, fa, fb))
    ∙ scan_address-octet c d _ _ _ _ hc (omega (arith, fa, fb, fc))
    ∙ scan_address_last d _ _ _ _ hd (omega (arith, fa, fb, fc, fd))

length-dotted :
    (a b c d : CString)
    → 0 + length a + 1 + length b + 1 + length c + 1 + length d ≡ length (dotted a b c d)
length-dotted a b c d = omega (
  arith,
  length-append a (b'.' ∷ (b ++ (b'.' ∷ (c ++ (b'.' ∷ d))))),
  length-append b (b'.' ∷ (c ++ (b'.' ∷ d))),
  length-append c (b'.' ∷ d),
)

-- inet_addr reads four numbers below 256, of one to three digits each and with dots between them,
-- as the 32-bit number that has them for its bytes.
pub inet_addr-dotted :
    (htonl : ℕ → ℕ) (a b c d : CString)
    → IsOctet a
    → IsOctet b
    → IsOctet c
    → IsOctet d
    → inet_addr htonl (some (dotted a b c d)) ≡ htonl (quad a b c d)
unfolding inet_addr
inet_addr-dotted htonl a b c d ha hb hc hd =
    let (_, la, _, _) = ha in
    let (_, lb, _, _) = hb in
    let (_, lc, _, _) = hc in
    let (_, ld, _, _) = hd in
    let enough : ltb (0 + length a + length b + length c + length d) 4 ≡ false =
      ground (arith, la, lb, lc, ld) in
    rw
      (
        inet_addr,
        scan_address-dotted a b c d ha hb hc hd,
        enough,
        take-length (dotted a b c d) _ (length-dotted a b c d),
        pack_bytes-dotted a b c d ha hb hc hd,
      )
      refl
