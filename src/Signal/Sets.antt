-- ===== src/Signal/Sets.antt =====
-- Membership in the signal sets of lib/posix/options/signals/signal.c.
use posix_next.Base.{
  length-replicate, both, ℕ, zero, suc, ◌+◌, ◌-◌, ◌<◌, ◌≡◌, arith, Bool, true, false, ◌&&◌, ◌||◌,
  Bool-cases, inl, inr, [], ◌∷◌, ◌==◌, ltb, leb, if◌then◌else◌, length, length-set, get_or, set,
  replicate, refl, einval, Result, ok, err, ℤ, pos, negsuc,
}
use posix_next.Signal.{
  Sigset, Config, signo_valid, signo_fits, sigemptyset, clear_from, sigfillset, index, write_bit,
  sigaddset, sigdelset, sigismember,
}

pub get_or-set :
    (s : Sigset) (i j : ℕ) (b : Bool)
    → j < length s
    → get_or (set s i b) j false ≡ (if i == j then b else get_or s j false)
get_or-set [] i j b h = absurd (omega arith)
get_or-set (x ∷ s) zero zero b h = ground arith
get_or-set (x ∷ s) zero (suc j) b h = ground arith
get_or-set (x ∷ s) (suc i) zero b h = ground arith
get_or-set (x ∷ s) (suc i) (suc j) b h = ground (arith, get_or-set s i j b)

pub get_or-replicate :
    (n i : ℕ) (b : Bool) → get_or (replicate n b) i false ≡ (if ltb i n then b else false)
get_or-replicate zero i b = ground arith
get_or-replicate (suc n) zero b = ground arith
get_or-replicate (suc n) (suc i) b = ground (arith, get_or-replicate n i b)

module _ (cfg : Config) where
  -- The numbers that name a signal which a set can hold.
  abbrev pub is_signal : ℤ → Bool
  is_signal signo = signo_valid cfg signo && signo_fits cfg signo

  length-clear_from : (n signo : ℕ) (s : Sigset) → length (clear_from cfg n signo s) ≡ length s
  unfolding clear_from
  length-clear_from zero signo s = refl
  length-clear_from (suc n) signo s = elim (Bool-cases (ltb 0 signo && ltb (signo - 1) cfg.nbits)) [
    | inl inside ↦
        rw (inside, length-clear_from n (signo + 1) (set s (signo - 1) false))
          (length-set s (signo - 1) false)
    | inr outside ↦ rw outside (length-clear_from n (signo + 1) s)
  ]

  get_or-clear_from :
      (n signo : ℕ) (s : Sigset) (j : ℕ)
      → length s ≡ cfg.nbits
      → j < cfg.nbits
      → get_or (clear_from cfg n signo s) j false
        ≡ (if leb signo (j + 1) && ltb (j + 1) (signo + n) then false else get_or s j false)
  unfolding clear_from
  get_or-clear_from zero signo s j l h = ground arith
  get_or-clear_from (suc n) signo s j l h =
      elim (Bool-cases (ltb 0 signo && ltb (signo - 1) cfg.nbits)) [
        | inl inside ↦
            rw
              (
                inside,
                get_or-clear_from n (signo + 1) (set s (signo - 1) false) j
                    (omega (arith, l, length-set s (signo - 1) false)) h,
                get_or-set s (signo - 1) j false (omega (arith, l)),
              )
              (ground arith)
        | inr outside ↦ rw (outside, get_or-clear_from n (signo + 1) s j l h) (ground arith)
      ]

  index-fits : (signo : ℤ) → signo_fits cfg signo ≡ true → index cfg signo < cfg.nbits
  unfolding signo_fits
  index-fits (pos n) h = ground (arith, h)
  index-fits (negsuc n) h = cc

  sigismember-set :
      (b : Bool) (s : Sigset) (signo other : ℤ)
      → length s ≡ cfg.nbits
      → is_signal other ≡ true
      → sigismember cfg (set s (index cfg signo) b) other
        ≡ (if index cfg signo == index cfg other then ok b else sigismember cfg s other)
  unfolding sigismember
  sigismember-set b s signo other l h =
      let (v, f) = both (signo_valid cfg other) (signo_fits cfg other) h in
      rw
        (
          v,
          f,
          get_or-set s (index cfg signo) (index cfg other) b (omega (arith, l, index-fits other f)),
        )
        (elim (Bool-cases (index cfg signo == index cfg other)) [
          | inl same ↦ rw same refl
          | inr apart ↦ rw apart refl
        ])

  abbrev Writes : Bool → Sigset → ℤ → ℤ → Result (Unit {0}) × Sigset → Type 0
  Writes b s signo other out =
      if is_signal signo
      then ((out.0 ≡ ok tt)
          × (sigismember cfg out.1 other
              ≡ (if index cfg signo == index cfg other then ok b else sigismember cfg s other))
          × (length out.1 ≡ cfg.nbits))
      else ((out.0 ≡ err einval) × (out.1 ≡ s))

  write_bit-Writes :
      (b : Bool) (s : Sigset) (signo other : ℤ)
      → length s ≡ cfg.nbits
      → is_signal other ≡ true
      → Writes b s signo other (write_bit cfg b s signo)
  unfolding write_bit
  write_bit-Writes b s signo other l h = elim (Bool-cases (signo_valid cfg signo)) [
    | inl v ↦ elim (Bool-cases (signo_fits cfg signo)) [
      | inl f ↦
          rw (v, f)
            (
              refl,
              sigismember-set b s signo other l h,
              omega (arith, l, length-set s (index cfg signo) b),
            )
      | inr f ↦ rw (v, f) (refl, refl)
    ]
    | inr v ↦ rw v (refl, refl)
  ]

  -- sigaddset and sigdelset on a set of the full size: a number that names no signal is refused and
  -- changes nothing; otherwise sigismember then finds the signal added or gone, and for every
  -- other signal what it found before.
  pub sigismember-write :
      (b : Bool) (s : Sigset) (signo other : ℤ)
      → length s ≡ cfg.nbits
      → is_signal other ≡ true
      → let (r, t) = (if b then sigaddset cfg s signo else sigdelset cfg s signo) in
        if is_signal signo
        then ((r ≡ ok tt)
            × (sigismember cfg t other
                ≡ (if index cfg signo == index cfg other then ok b else sigismember cfg s other))
            × (length t ≡ cfg.nbits))
        else ((r ≡ err einval) × (t ≡ s))
  unfolding sigaddset sigdelset
  sigismember-write true s signo other l h = write_bit-Writes true s signo other l h
  sigismember-write false s signo other l h = write_bit-Writes false s signo other l h

  -- A new set is empty, and a full one has every signal below the cancellation signal and from
  -- SIGRTMIN on, and no other.
  pub sigismember-init :
      (signo : ℤ)
      → is_signal signo ≡ true
      → (sigismember cfg (sigemptyset cfg) signo ≡ ok false)
        × (sigismember cfg (sigfillset cfg) signo
            ≡ ok (ltb (index cfg signo + 1) cfg.cancel || leb cfg.rtmin (index cfg signo + 1)))
  unfolding sigemptyset sigfillset sigismember
  sigismember-init signo h =
      let (v, f) = both (signo_valid cfg signo) (signo_fits cfg signo) h in
      let i = index-fits signo f in
      (
        rw (v, f, get_or-replicate cfg.nbits (index cfg signo) false) (ground arith),
        rw
            (
              v,
              f,
              get_or-clear_from (cfg.rtmin - cfg.cancel) cfg.cancel (replicate cfg.nbits true)
                  (index cfg signo) (length-replicate cfg.nbits true) i,
              get_or-replicate cfg.nbits (index cfg signo) true,
            )
            (ground (arith, i)),
      )
