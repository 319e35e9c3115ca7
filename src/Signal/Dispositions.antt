-- ===== src/Signal/Dispositions.antt =====
-- An action that is given to sigaction of lib/posix/options/signals/signal.c comes back from the
-- next call.
use posix_next.Base.{
  ℕ, suc, ◌+◌, ◌<◌, ◌≡◌, ◌↔◌, arith, true, false, subst, sym, ap, ◌∙◌, get_or, pos,
}
use posix_next.Signal.{Sigset}
use posix_next.Signal.Mapping.{
  Numbers, Consistent, z_sig_from_posix, z_sig_to_posix, to_posix-from_posix,
}
use posix_next.Signal.Remapping.{sig_words_remap-lt, sig_words_remap, sig_words_remap_iff}
use posix_next.Signal.Actions.{set_from_posix, set_to_posix}

-- The signal i + 1 has a number in the kernel's set.
abbrev pub HasCounterpart : Numbers → ℕ → ℕ → Type 0
HasCounterpart n k_bits i =
    (k : ℕ) × (k < k_bits) × (z_sig_from_posix n (pos (1 + i)) ≡ pos (suc k))

number_eq : (i l : ℕ) → pos (1 + l) ≡ pos (suc i) → l ≡ i
number_eq i l e = ground (arith, e)

-- A set that is converted to the kernel and back has the signals that it had and that the kernel
-- knows, and no other.
pub set_to_posix-set_from_posix :
    (n : Numbers) (nbits k_bits : ℕ) (s : Sigset) (i : ℕ)
    → Consistent n
    → i < nbits
    → (get_or (set_to_posix n nbits (set_from_posix n k_bits s)) i false ≡ true)
      ↔ ((get_or s i false ≡ true) × HasCounterpart n k_bits i)
unfolding set_to_posix set_from_posix
set_to_posix-set_from_posix n nbits k_bits s i c h = (forth, back)
  where
    k_set : Sigset
    k_set = sig_words_remap (λ j. z_sig_from_posix n (pos j)) s k_bits

    outer :
        (get_or (sig_words_remap (λ j. z_sig_to_posix n (pos j)) k_set nbits) i false ≡ true)
        ↔ ((j : ℕ) × (get_or k_set j false ≡ true) × (z_sig_to_posix n (pos (1 + j)) ≡ pos (suc i)))
    outer = sig_words_remap_iff (λ j. z_sig_to_posix n (pos j)) k_set nbits i h

    forth :
        get_or (sig_words_remap (λ j. z_sig_to_posix n (pos j)) k_set nbits) i false ≡ true
        → (get_or s i false ≡ true) × HasCounterpart n k_bits i
    forth m =
        let (j, mj, ej) = outer.0 m in
        let small = sig_words_remap-lt (λ j. z_sig_from_posix n (pos j)) s k_bits j mj in
        let (l, ml, el) =
          (sig_words_remap_iff (λ j. z_sig_from_posix n (pos j)) s k_bits j small).0 mj in
        let one : pos (1 + j) ≡ pos (suc j) = ap pos (omega arith) in
        let back_again : z_sig_to_posix n (pos (suc j)) ≡ pos (1 + l) =
          to_posix-from_posix n (1 + l) (suc j) c (omega arith) el in
        let same : l ≡ i = number_eq i l (sym back_again ∙ ap (z_sig_to_posix n) (sym one) ∙ ej) in
        (
          subst (λ x. get_or s x false ≡ true) same ml,
          (j, small, subst (λ x. z_sig_from_posix n (pos (1 + x)) ≡ pos (suc j)) same el),
        )

    back :
        (get_or s i false ≡ true) × HasCounterpart n k_bits i
        → get_or (sig_words_remap (λ j. z_sig_to_posix n (pos j)) k_set nbits) i false ≡ true
    back (m, (k, small, e)) =
        let in_kernel =
          (sig_words_remap_iff (λ j. z_sig_from_posix n (pos j)) s k_bits k small).1 (i, m, e) in
        let one : pos (1 + k) ≡ pos (suc k) = ap pos (omega arith) in
        let other : pos (1 + i) ≡ pos (suc i) = ap pos (omega arith) in
        outer.1 (
          k,
          in_kernel,
          ap (z_sig_to_posix n) one
              ∙ to_posix-from_posix n (1 + i) (suc k) c (omega arith) e
              ∙ other,
        )
