-- ===== src/Signal/Remapping.antt =====
-- The conversion of signal sets, lib/posix/options/shared/z_sig_set.c. A set is the list of the bits
-- of its words, the lowest first (Signal).
use posix_next.Base.{
  length-replicate, ℕ, zero, suc, ◌+◌, ◌<◌, ◌≡◌, ◌⊎◌, arith, Bool, true, false, Bool-cases, inl,
  inr, [], ◌∷◌, ◌==◌, ltb, if◌then◌else◌, length, length-set, get_or, set, replicate, refl, ap, ◌∙◌,
  ◌↔◌, ℤ, pos, negsuc,
}
use posix_next.Signal.{Sigset}
use posix_next.Signal.Sets.{get_or-set, get_or-replicate}

-- What the loop does with the signal that the map gives.
unfoldable pub mark : ℤ → Sigset → Sigset
mark (negsuc n) dst = dst
mark (pos zero) dst = dst
mark (pos (suc i)) dst = if ltb i (length dst) then set dst i true else dst

-- Both loops: over the set bits of the words, from the signal number `from` on.
unfoldable pub remap_from : (ℕ → ℤ) → ℕ → Sigset → Sigset → Sigset
unfolding mark
remap_from sigmap from [] dst = dst
remap_from sigmap from (b ∷ src) dst =
    remap_from sigmap (from + 1) src (if b then mark (sigmap from) dst else dst)

unfoldable pub sig_words_remap : (ℕ → ℤ) → Sigset → ℕ → Sigset
unfolding remap_from
sig_words_remap sigmap src dst_bits = remap_from sigmap 1 src (replicate dst_bits false)

length-mark : (t : ℤ) (dst : Sigset) → length (mark t dst) ≡ length dst
unfolding mark
length-mark (negsuc n) dst = refl
length-mark (pos zero) dst = refl
length-mark (pos (suc i)) dst = ground (arith, length-set dst i true)

get_or-mark :
    (t : ℤ) (dst : Sigset) (i : ℕ)
    → i < length dst
    → (get_or (mark t dst) i false ≡ true)
    → (get_or dst i false ≡ true) ⊎ (t ≡ pos (suc i))
unfolding mark
get_or-mark (negsuc n) dst i h m = inl m
get_or-mark (pos zero) dst i h m = inl m
get_or-mark (pos (suc j)) dst i h m = elim (Bool-cases (j == i)) [
  | inl same ↦ inr (ground arith)
  | inr apart ↦ inl (ground (arith, m, get_or-set dst j i true h))
]

mark-keeps :
    (t : ℤ) (dst : Sigset) (i : ℕ)
    → i < length dst
    → get_or dst i false ≡ true
    → get_or (mark t dst) i false ≡ true
unfolding mark
mark-keeps (negsuc n) dst i h m = m
mark-keeps (pos zero) dst i h m = m
mark-keeps (pos (suc j)) dst i h m = ground (arith, get_or-set dst j i true)

mark-marks :
    (dst : Sigset) (i : ℕ) → i < length dst → get_or (mark (pos (suc i)) dst) i false ≡ true
unfolding mark
mark-marks dst i h = ground (arith, get_or-set dst i i true)

-- A signal that is set after the loops was set before, or comes from a set bit.
get_or-remap_from :
    (sigmap : ℕ → ℤ) (from : ℕ) (src dst : Sigset) (i : ℕ)
    → i < length dst
    → get_or (remap_from sigmap from src dst) i false ≡ true
    → (get_or dst i false ≡ true)
      ⊎ ((j : ℕ) × (get_or src j false ≡ true) × (sigmap (from + j) ≡ pos (suc i)))
unfolding remap_from
get_or-remap_from sigmap from [] dst i h m = inl m
get_or-remap_from sigmap from (false ∷ src) dst i h m =
    elim (get_or-remap_from sigmap (from + 1) src dst i h m) [
      | inl old ↦ inl old
      | inr (j, set_bit, hit) ↦ inr (suc j, set_bit, ap sigmap (omega arith) ∙ hit)
    ]
get_or-remap_from sigmap from (true ∷ src) dst i h m =
    elim (get_or-remap_from sigmap (from + 1) src (mark (sigmap from) dst) i
      (omega (arith, h, length-mark (sigmap from) dst)) m) [
        | inl old ↦ elim (get_or-mark (sigmap from) dst i h old) [
          | inl older ↦ inl older
          | inr hit ↦ inr (zero, refl, ap sigmap (omega arith) ∙ hit)
        ]
        | inr (j, set_bit, hit) ↦ inr (suc j, set_bit, ap sigmap (omega arith) ∙ hit)
      ]

remap_from-keeps :
    (sigmap : ℕ → ℤ) (from : ℕ) (src dst : Sigset) (i : ℕ)
    → i < length dst
    → get_or dst i false ≡ true
    → get_or (remap_from sigmap from src dst) i false ≡ true
unfolding remap_from
remap_from-keeps sigmap from [] dst i h m = m
remap_from-keeps sigmap from (false ∷ src) dst i h m =
    remap_from-keeps sigmap (from + 1) src dst i h m
remap_from-keeps sigmap from (true ∷ src) dst i h m =
    remap_from-keeps sigmap (from + 1) src (mark (sigmap from) dst) i
      (omega (arith, h, length-mark (sigmap from) dst)) (mark-keeps (sigmap from) dst i h m)

remap_from-marks :
    (sigmap : ℕ → ℤ) (from : ℕ) (src dst : Sigset) (i j : ℕ)
    → i < length dst
    → get_or src j false ≡ true
    → sigmap (from + j) ≡ pos (suc i)
    → get_or (remap_from sigmap from src dst) i false ≡ true
unfolding remap_from
remap_from-marks sigmap from [] dst i j h s e = cc
remap_from-marks sigmap from (false ∷ src) dst i zero h s e = cc
remap_from-marks sigmap from (true ∷ src) dst i zero h s e =
    let f : sigmap from ≡ pos (suc i) = ap sigmap (omega arith) ∙ e in
    rw f (
      remap_from-keeps sigmap (from + 1) src (mark (pos (suc i)) dst) i
        (omega (arith, h, length-mark (pos (suc i)) dst)) (mark-marks dst i h))
remap_from-marks sigmap from (b ∷ src) dst i (suc j) h s e =
    remap_from-marks sigmap (from + 1) src (if b then mark (sigmap from) dst else dst) i j (kept b)
      s (ap sigmap (omega arith) ∙ e)
  where
    kept : (c : Bool) → i < length (if c then mark (sigmap from) dst else dst)
    kept true = omega (arith, h, length-mark (sigmap from) dst)
    kept false = h

-- The set that results has exactly the signals to which the map takes a signal of the source, as
-- far as they fit: a signal without a counterpart is left out, and none appears that has no
-- preimage.
pub sig_words_remap_iff :
    (sigmap : ℕ → ℤ) (src : Sigset) (bits i : ℕ)
    → i < bits
    → (get_or (sig_words_remap sigmap src bits) i false ≡ true)
      ↔ ((j : ℕ) × (get_or src j false ≡ true) × (sigmap (1 + j) ≡ pos (suc i)))
unfolding sig_words_remap
sig_words_remap_iff sigmap src bits i h = (forth, back)
  where
    zeros : Sigset
    zeros = replicate bits false

    room : i < length zeros
    room = omega (arith, h, length-replicate bits false)

    forth :
        get_or (remap_from sigmap 1 src zeros) i false ≡ true
        → (j : ℕ) × (get_or src j false ≡ true) × (sigmap (1 + j) ≡ pos (suc i))
    forth m = elim (get_or-remap_from sigmap 1 src zeros i room m) [
      | inl old ↦ absurd (ground (arith, old, get_or-replicate bits i false))
      | inr found ↦ found
    ]

    back :
        (j : ℕ) × (get_or src j false ≡ true) × (sigmap (1 + j) ≡ pos (suc i))
        → get_or (remap_from sigmap 1 src zeros) i false ≡ true
    back (j, s, e) = remap_from-marks sigmap 1 src zeros i j room s e

length-remap_from :
    (sigmap : ℕ → ℤ) (from : ℕ) (src dst : Sigset)
    → length (remap_from sigmap from src dst) ≡ length dst
unfolding remap_from
length-remap_from sigmap from [] dst = refl
length-remap_from sigmap from (false ∷ src) dst = length-remap_from sigmap (from + 1) src dst
length-remap_from sigmap from (true ∷ src) dst =
    length-remap_from sigmap (from + 1) src (mark (sigmap from) dst) ∙ length-mark (sigmap from) dst

get_or-lt : (s : Sigset) (i : ℕ) → get_or s i false ≡ true → i < length s
get_or-lt [] i h = cc
get_or-lt (b ∷ s) zero h = omega arith
get_or-lt (b ∷ s) (suc i) h = omega (arith, get_or-lt s i h)

-- A set has no signal beyond its size.
pub sig_words_remap-lt :
    (sigmap : ℕ → ℤ) (src : Sigset) (bits i : ℕ)
    → get_or (sig_words_remap sigmap src bits) i false ≡ true
    → i < bits
unfolding sig_words_remap
sig_words_remap-lt sigmap src bits i h = omega (
  arith,
  get_or-lt (remap_from sigmap 1 src (replicate bits false)) i h,
  length-remap_from sigmap 1 src (replicate bits false),
  length-replicate bits false,
)
