-- ===== src/Inet/Bits.antt =====
-- The bitwise or of disjoint bytes, as lib/posix/options/networking/inet_addr.c uses it.
use posix_next.Base.{ℕ, zero, suc, ◌+◌, ◌*◌, ◌/◌, ◌^◌, ◌≤◌, ◌<◌, ◌≡◌, arith, ap}
use Prim.Native.Nat.{bit_or, bit_or-bitwise, digits, max}

two_pow : (k : ℕ) → 2 ^ suc k ≡ 2 * 2 ^ k
two_pow k = omega arith

-- Above the lowest k digits there is nothing of b, and below them nothing of a.
digits_disjoint :
    (fuel a b q k : ℕ) → a ≤ fuel → a ≡ q * 2 ^ k → b < 2 ^ k → digits (λ b. b) max fuel a b ≡ a + b
digits_disjoint zero zero b q k l e h = omega arith
digits_disjoint zero (suc a) b q k l e h = absurd (omega arith)
digits_disjoint (suc fuel) zero b q k l e h = omega arith
digits_disjoint (suc fuel) (suc a) b q zero l e h = omega (
  arith,
  h,
  digits_disjoint fuel (suc a / 2) (b / 2) (suc a / 2) 0 (omega (arith, l)) (omega arith)
      (omega (arith, h)),
)
digits_disjoint (suc fuel) (suc a) b q (suc k) l e h =
    let doubled = ap (λ p. q * p) (two_pow k) in
    omega (
      arith,
      e,
      doubled,
      digits_disjoint fuel (suc a / 2) (b / 2) q k (omega (arith, l)) (omega (arith, e, doubled))
          (omega (arith, h, two_pow k)),
    )

pub bit_or_byte : (n b : ℕ) → b < 256 → bit_or (n * 256) b ≡ n * 256 + b
bit_or_byte n b h =
    simp bit_or-bitwise
      (digits_disjoint (n * 256) (n * 256) b n 8 (omega arith) (omega arith) (omega (arith, h)))
