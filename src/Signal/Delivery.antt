-- ===== src/Signal/Delivery.antt =====
-- Sending and waiting for signals, lib/posix/options/signals/signal.c and
-- lib/posix/options/realtime_signals/rtsig.c. What the kernel returns (k_sig_queue, k_sig_mask,
-- k_sig_timedwait, k_sig_pending, k_sig_delivered) is an argument; a loop that waits has the list of
-- the results of its rounds, and goes on waiting where the list ends.
use posix_next.Base.{
  ◌⊎◌, ℕ, ◌≡◌, ◌≤◌, arith, Bool, true, false, ◌||◌, not, Bool-cases, inl, inr, Option, none, some,
  List, [], ◌∷◌, ◌==◌, ltb, if◌then◌else◌, refl, Errno, eagain, einval, esrch, eintr, Result, ok,
  err, ℤ, pos, negsuc,
}
use posix_next.Signal.{Sigset, Config, signo_valid}
use posix_next.Signal.Mapping.{Numbers, z_sig_from_posix, z_sig_to_posix}
use posix_next.Signal.Actions.{set_from_posix, set_to_posix, is_positive}

-- `ksigno_to_posix`
unfoldable pub ksigno_to_posix : Numbers → ℤ → ℤ
ksigno_to_posix n k = if is_positive (z_sig_to_posix n k) then z_sig_to_posix n k else k

-- Whom a signal goes to: the calling thread, or the one of the number.
pub data Target : Type 0 where
  self : Target
  thread : ℤ → Target

abbrev pub int_eq : ℤ → ℤ → Bool
int_eq (pos a) (pos b) = a == b
int_eq (negsuc a) (negsuc b) = a == b
int_eq (pos a) (negsuc b) = false
int_eq (negsuc a) (pos b) = false

-- `kill` up to its call of k_sig_queue: the target and the kernel's number, or an error.
unfoldable pub kill_number : Config → Numbers → ℤ → Result ℤ
kill_number cfg n sig =
    if int_eq sig (pos 0)
    then ok (pos 0)
    else (if not (signo_valid cfg sig)
        then err einval
        else (if is_positive (z_sig_from_posix n sig)
            then ok (z_sig_from_posix n sig)
            else err einval))

unfoldable pub kill_target : ℤ → ℤ → Result Target
kill_target self_pid pid =
    if int_eq pid self_pid
    then ok self
    else (if is_positive pid then ok (thread pid) else err esrch)

unfoldable pub kill_request : Config → Numbers → ℤ → ℤ → ℤ → Result (Target × ℤ)
unfolding kill_number kill_target
kill_request cfg n self_pid pid sig = elim (kill_number cfg n sig) [
  | err e ↦ err e
  | ok k ↦ elim (kill_target self_pid pid) [ err e ↦ err e | ok t ↦ ok (t, k) ]
]

-- `queue` is what k_sig_queue returns for a request.
unfoldable pub kill :
    Config → Numbers → ℤ → ℤ → ℤ → (Target × ℤ → Result (Unit {0})) → Result (Unit {0})
unfolding kill_request
kill cfg n self_pid pid sig queue = elim (kill_request cfg n self_pid pid sig) [
  | err e ↦ err e
  | ok r ↦ queue r
]

-- `sigqueue`; `set_size` is SIGNAL_SET_SIZE.
unfoldable pub sigqueue_request : Numbers → ℕ → ℤ → ℤ → Result (Target × ℤ)
sigqueue_request n set_size pid (negsuc s) = err einval
sigqueue_request n set_size pid (pos s) =
    if ltb set_size s
    then err einval
    else (if int_eq pid (pos 0) || int_eq pid (negsuc 0)
        then err esrch
        else elim (z_sig_from_posix n (pos s)) [
          | negsuc k ↦ err einval
          | pos k ↦ ok (thread pid, pos k)
        ])

unfoldable pub sigqueue : Numbers → ℕ → ℤ → ℤ → (Target × ℤ → Result (Unit {0})) → Result (Unit {0})
unfolding sigqueue_request
sigqueue n set_size pid sig queue = elim (sigqueue_request n set_size pid sig) [
  | err e ↦ err e
  | ok r ↦ queue r
]

-- How a round of k_sig_timedwait ends: -EAGAIN, another error, or a signal.
pub data Round : Type 0 where
  again : Round
  fault : Errno → Round
  signal : ℤ → Round

pub data Ret {ℓ} (A : Type ℓ) : Type ℓ where
  returns : A → Ret A
  fails : Errno → Ret A
  waits : Ret A

-- `do … while (ret == -EAGAIN)`
unfoldable pub poll : List Round → Ret ℤ
poll [] = waits
poll (again ∷ rs) = poll rs
poll (fault e ∷ rs) = fails e
poll (signal k ∷ rs) = returns k

abbrev pub posix_number : Numbers → Ret ℤ → Ret ℤ
posix_number n (returns k) = returns (ksigno_to_posix n k)
posix_number n (fails e) = fails e
posix_number n waits = waits

-- The signal that `*sig` gets; the last argument says whether `set` and `sig` are given.
unfoldable pub sigwait : Numbers → Bool → List Round → Ret ℤ
unfolding poll ksigno_to_posix
sigwait n given rs = if given then posix_number n (poll rs) else fails einval

unfoldable pub sigwaitinfo : Numbers → Bool → List Round → Ret ℤ
unfolding poll ksigno_to_posix
sigwaitinfo n given rs = if given then posix_number n (poll rs) else fails einval

-- One round with a time that is given: its end, with an error for -EAGAIN.
abbrev pub single : Errno → Round → Ret ℤ
single e again = fails e
single e (fault f) = fails f
single e (signal k) = returns k

-- `timed` is the only round where `timeout` is given.
unfoldable pub sigtimedwait : Numbers → Bool → Option Round → List Round → Ret ℤ
unfolding poll ksigno_to_posix
sigtimedwait n given (some round) rs =
    if given then posix_number n (single eagain round) else fails einval
sigtimedwait n given none rs = if given then posix_number n (poll rs) else fails einval

-- The loop of posix_sig_wait_delivered over the counts that it samples; `true` when it ends.
unfoldable pub posix_sig_wait_delivered : ℕ → List ℕ → Bool
posix_sig_wait_delivered start [] = false
posix_sig_wait_delivered start (c ∷ cs) =
    let rest = posix_sig_wait_delivered start cs in if c == start then rest else true

unfoldable pub pause : ℕ → List ℕ → Ret (Unit {0})
unfolding posix_sig_wait_delivered
pause start counts = if posix_sig_wait_delivered start counts then fails eintr else waits

-- `mask` is the kernel's mask of the thread; `allowed` is what k_sig_mask returns for the new one.
unfoldable pub sigsuspend :
    Numbers → ℕ → Option Sigset → Result (Unit {0}) → ℕ → List ℕ → Sigset → Ret (Unit {0}) × Sigset
unfolding posix_sig_wait_delivered
sigsuspend n k_bits none allowed start counts mask = (fails einval, mask)
sigsuspend n k_bits (some s) (err e) start counts mask = (fails e, mask)
sigsuspend n k_bits (some s) (ok u) start counts mask =
    if posix_sig_wait_delivered start counts
    then (fails eintr, mask)
    else (waits, set_from_posix n k_bits s)

-- `answer` is what k_sig_pending yields, and the last argument whether `set` is given.
unfoldable pub sigpending : Numbers → ℕ → Result Sigset → Bool → Result Sigset
unfolding set_to_posix
sigpending n nbits answer false = err einval
sigpending n nbits (err e) true = err e
sigpending n nbits (ok k) true = ok (set_to_posix n nbits k)

-- A signal that both functions take (it is below the tables' end or a real-time signal, and no
-- reserved one): where the kernel has a counterpart, kill and sigqueue ask for the same number;
-- where a named signal has none, kill refuses it with EINVAL, and sigqueue asks for the number 0,
-- which sends nothing.
pub kill-sigqueue :
    (cfg : Config) (n : Numbers) (set_size s k p self_pid : ℕ)
    → s ≤ set_size
    → (s == 0) ≡ false
    → signo_valid cfg (pos s) ≡ true
    → (p == 0) ≡ false
    → (p == self_pid) ≡ false
    → z_sig_from_posix n (pos s) ≡ pos k
    → (sigqueue_request n set_size (pos p) (pos s) ≡ ok (thread (pos p), pos k))
      × (kill_request cfg n (pos self_pid) (pos p) (pos s)
          ≡ (if k == 0 then err einval else ok (thread (pos p), pos k)))
unfolding sigqueue_request kill_request kill_number kill_target
kill-sigqueue cfg n set_size s k p self_pid h nz valid pz other e =
    let fits : ltb set_size s ≡ false = ground arith in
    (
      rw (fits, pz, e) refl,
      elim (Bool-cases (k == 0)) [
        | inl none_there ↦ rw (kill_request, kill_number, nz, valid, e, none_there) refl
        | inr there ↦
            rw (kill_request, kill_number, kill_target, nz, valid, e, there, other, pz) refl
      ],
    )

-- Whether a sample differs from the first.
abbrev pub has_other : ℕ → List ℕ → Bool
has_other start [] = false
has_other start (c ∷ cs) = not (c == start) || has_other start cs

wait_delivered-has_other :
    (start : ℕ) (cs : List ℕ) → posix_sig_wait_delivered start cs ≡ has_other start cs
unfolding posix_sig_wait_delivered
wait_delivered-has_other start [] = refl
wait_delivered-has_other start (c ∷ cs) =
    let ih = wait_delivered-has_other start cs in
    elim (Bool-cases (c == start)) [ inl same ↦ rw (same) ih | inr other ↦ rw (other) refl ]

-- sigsuspend leaves the kernel's mask as it was whenever it returns; it returns EINVAL for no set,
-- the error of the kernel's that refuses the new mask, and otherwise EINTR, and that just where a
-- sample of the count of deliveries differs from the one at the start.
pub sigsuspend-restores :
    (n : Numbers) (k_bits : ℕ) (s : Option Sigset) (allowed : Result (Unit {0})) (start : ℕ)
    (counts : List ℕ) (mask : Sigset)
    → let (r, after) = sigsuspend n k_bits s allowed start counts mask in
      ((after ≡ mask) ⊎ (r ≡ waits))
      × (r ≡ elim s [
        | none ↦ fails einval
        | some _ ↦ elim allowed [
          | err e ↦ fails e
          | ok u ↦ if has_other start counts then fails eintr else waits
        ]
      ])
unfolding sigsuspend posix_sig_wait_delivered
sigsuspend-restores n k_bits none allowed start counts mask = (inl refl, refl)
sigsuspend-restores n k_bits (some s) (err e) start counts mask = (inl refl, refl)
sigsuspend-restores n k_bits (some s) (ok u) start counts mask =
    let same = wait_delivered-has_other start counts in
    elim (Bool-cases (has_other start counts)) [
      | inl delivered ↦ rw (same, delivered) (inl refl, refl)
      | inr silent ↦ rw (same, silent) (inr refl, refl)
    ]
