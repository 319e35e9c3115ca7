-- ===== src/Signal.antt =====
-- Signal sets, lib/posix/options/signals/signal.c. A set is the list of the bits of its words, the
-- lowest first: the bit `(signo - 1) % BITS_PER_LONG` of the word `(signo - 1) / BITS_PER_LONG` is
-- the bit `signo - 1` of the list. A signal number is an int.
pub mod Sets
pub mod Mapping
pub mod Remapping
pub mod Actions
pub mod Delivery
pub mod Dispositions
pub mod Masks
pub mod Shim
mod Tests
use posix_next.Base.{
  ℕ, zero, suc, ◌+◌, ◌-◌, ◌≤◌, Bool, true, false, ◌&&◌, ◌||◌, not, Option, none, some, List, [],
  ◌∷◌, ◌==◌, ltb, leb, if◌then◌else◌, length, get_or, set, replicate, Errno, einval, Result, ok,
  err, ℤ, pos, negsuc,
}

abbrev pub Sigset : Type 0
Sigset = List Bool

-- CONFIG_THREAD_CANCEL_SIGNAL_NUMBER, SIGRTMIN, SIGRTMAX and SIGSET_NLONGS * BITS_PER_LONG.
pub record Config : Type 0 where
  pub cancel : ℕ
  pub rtmin : ℕ
  pub rtmax : ℕ
  pub nbits : ℕ

module _ (cfg : Config) where
  abbrev pub posix_sig_is_reserved : ℕ → Bool
  posix_sig_is_reserved signo = signo == cfg.cancel || signo == cfg.cancel + 1

  unfoldable pub signo_valid : ℤ → Bool
  signo_valid (negsuc n) = false
  signo_valid (pos signo) =
      if signo == 0 || posix_sig_is_reserved signo
      then false
      else (if ltb signo cfg.rtmin then leb signo 31 else leb signo cfg.rtmax)

  unfoldable pub signo_fits : ℤ → Bool
  signo_fits (negsuc n) = false
  signo_fits (pos signo) = ltb 0 signo && leb signo cfg.nbits

  unfoldable pub sigemptyset : Sigset
  sigemptyset = replicate cfg.nbits false

  -- The second loop of sigfillset, with `left` signals to go from `signo` on.
  unfoldable pub clear_from : ℕ → ℕ → Sigset → Sigset
  clear_from zero signo s = s
  clear_from (suc left) signo s =
      clear_from left (signo + 1)
        (if ltb 0 signo && ltb (signo - 1) cfg.nbits then set s (signo - 1) false else s)

  unfoldable pub sigfillset : Sigset
  unfolding clear_from
  sigfillset = clear_from (cfg.rtmin - cfg.cancel) cfg.cancel (replicate cfg.nbits true)

  abbrev pub index : ℤ → ℕ
  index (pos n) = n - 1
  index (negsuc n) = 0

  unfoldable pub write_bit : Bool → Sigset → ℤ → Result (Unit {0}) × Sigset
  unfolding signo_valid signo_fits
  write_bit b s signo =
      if not (signo_valid signo)
      then (err einval, s)
      else (if not (signo_fits signo) then (err einval, s) else (ok tt, set s (index signo) b))

  unfoldable pub sigaddset : Sigset → ℤ → Result (Unit {0}) × Sigset
  unfolding write_bit
  sigaddset s signo = write_bit true s signo

  unfoldable pub sigdelset : Sigset → ℤ → Result (Unit {0}) × Sigset
  unfolding write_bit
  sigdelset s signo = write_bit false s signo

  unfoldable pub sigismember : Sigset → ℤ → Result Bool
  unfolding signo_valid signo_fits
  sigismember s signo =
      if not (signo_valid signo)
      then err einval
      else (if not (signo_fits signo) then err einval else ok (get_or s (index signo) false))
