-- ===== src/Inet/Tests.antt =====
-- The theorem on inet_addr at the address 10.0.2.255.
use posix_next.Base.{ℕ, some, [], ◌∷◌, ◌≡◌, refl, arith}
use posix_next.Inet.{inet_addr}
use posix_next.Inet.Octets.{dotted, inet_addr-dotted}

abbrev same_order : ℕ → ℕ
same_order n = n

inet_addr-dotted_example :
    inet_addr same_order
      (some (dotted (b'1' ∷ b'0' ∷ []) (b'0' ∷ []) (b'2' ∷ []) (b'2' ∷ b'5' ∷ b'5' ∷ [])))
    ≡ 167772927
inet_addr-dotted_example =
    inet_addr-dotted same_order (b'1' ∷ b'0' ∷ []) (b'0' ∷ []) (b'2' ∷ []) (b'2' ∷ b'5' ∷ b'5' ∷ [])
      (refl, omega arith, omega arith, omega arith) (refl, omega arith, omega arith, omega arith)
      (refl, omega arith, omega arith, omega arith) (refl, omega arith, omega arith, omega arith)
