-- ===== src/Signal/Masks.antt =====
-- The signal mask of a thread, and signals to a thread: pthread_sigmask and pthread_kill of
-- lib/posix/options/threads_base/pthread.c, and sigprocmask of
-- lib/posix/options/signals/signal.c. The kernel's k_sig_mask has the mask as its state; what it
-- does for a request is an argument.
use posix_next.Base.{
  inr, inl, Bool-cases, ◌↔◌, ℕ, ◌≡◌, ◌<◌, Bool, true, false, ◌||◌, not, Option, none, some,
  if◌then◌else◌, get_or, refl, einval, Result, ok, err, ℤ, pos,
}
use posix_next.Signal.{signo_valid, Config, Sigset}
use posix_next.Signal.Mapping.{Numbers, Consistent, z_sig_from_posix}
use posix_next.Signal.Actions.{set_from_posix, set_to_posix, is_positive}
use posix_next.Signal.Delivery.{kill_number, int_eq}
use posix_next.Signal.Dispositions.{HasCounterpart, set_to_posix-set_from_posix}

-- SIG_BLOCK, SIG_SETMASK and SIG_UNBLOCK, with K_SIG_BLOCK and its like, and any other int.
pub data How : Type 0 where
  block setmask unblock other_how : How

abbrev pub is_how : How → Bool
is_how block = true
is_how setmask = true
is_how unblock = true
is_how other_how = false

-- `kernel` takes the request and the mask of the thread: what it returns, with the mask before the
-- call, and the mask after it. `wanted` says whether `oset` is given.
unfoldable pub pthread_sigmask :
    Numbers
    → ℕ
    → ℕ
    → (How → Option Sigset → Sigset → Result Sigset × Sigset)
    → How
    → Option Sigset
    → Bool
    → Sigset
    → Result (Option Sigset) × Sigset
pthread_sigmask n nbits k_bits kernel how set wanted mask =
    if not (is_how how)
    then (err einval, mask)
    else let kset : Option Sigset = elim set [
      | none ↦ none
      | some s ↦ some (set_from_posix n k_bits s)
    ] in
      let (r, after) = kernel how kset mask in
      (
        elim r [
          | err e ↦ err e
          | ok old ↦ ok (if wanted then some (set_to_posix n nbits old) else none)
        ],
        after,
      )

unfoldable pub sigprocmask :
    Numbers
    → ℕ
    → ℕ
    → (How → Option Sigset → Sigset → Result Sigset × Sigset)
    → How
    → Option Sigset
    → Bool
    → Sigset
    → Result (Option Sigset) × Sigset
unfolding pthread_sigmask
sigprocmask n nbits k_bits kernel how set wanted mask =
    pthread_sigmask n nbits k_bits kernel how set wanted mask

-- `pthread_kill` up to k_sig_queue: the number that it asks for.
unfoldable pub pthread_kill_number : Numbers → ℤ → Result ℤ
pthread_kill_number n sig =
    if int_eq sig (pos 0)
    then ok (pos 0)
    else (if is_positive (z_sig_from_posix n sig) then ok (z_sig_from_posix n sig) else err einval)

-- What the kernel does with SIG_SETMASK: the new mask, and the old one in the answer.
abbrev pub SetsMask : (How → Option Sigset → Sigset → Result Sigset × Sigset) → Type 0
SetsMask kernel =
    ((k mask : Sigset) → kernel setmask (some k) mask ≡ (ok mask, k))
    × ((how : How) (mask : Sigset) → kernel how none mask ≡ (ok mask, mask))

-- With a kernel that sets the mask it is given and answers with the one before: the mask that
-- sigprocmask sets is what a later call without a set reports, for the signals that the kernel
-- knows, and no other signal is reported.
pub sigprocmask-setmask :
    (n : Numbers) (nbits k_bits : ℕ)
    (kernel : How → Option Sigset → Sigset → Result Sigset × Sigset) (s mask : Sigset) (i : ℕ)
    → Consistent n
    → SetsMask kernel
    → i < nbits
    → let (r, after) = sigprocmask n nbits k_bits kernel setmask (some s) false mask in
      (r ≡ ok none)
      × ((seen : Sigset) × (sigprocmask n nbits k_bits kernel block none true after
            ≡ (ok (some seen), after))
          × ((get_or seen i false ≡ true)
              ↔ ((get_or s i false ≡ true) × HasCounterpart n k_bits i)))
unfolding sigprocmask pthread_sigmask
sigprocmask-setmask n nbits k_bits kernel s mask i c k h =
    let inner = set_from_posix n k_bits s in
    rw (sigprocmask, pthread_sigmask, k.0 inner mask, k.1 block inner)
      (refl, (set_to_posix n nbits inner, refl, set_to_posix-set_from_posix n nbits k_bits s i c h))

-- A signal that kill takes has the same number in pthread_kill; the numbers that kill refuses and
-- pthread_kill takes are those that name no signal for the application but have a counterpart in
-- the kernel, such as the one for cancellation.
pub kill_number-pthread_kill_number :
    (cfg : Config) (n : Numbers) (sig : ℤ)
    → kill_number cfg n sig ≡ (
        if int_eq sig (pos 0) || signo_valid cfg sig then pthread_kill_number n sig else err einval)
unfolding kill_number pthread_kill_number
kill_number-pthread_kill_number cfg n sig = elim (Bool-cases (int_eq sig (pos 0))) [
  | inl null ↦ rw (kill_number, pthread_kill_number, null) refl
  | inr some_signal ↦ elim (Bool-cases (signo_valid cfg sig)) [
    | inl named ↦ rw (kill_number, pthread_kill_number, some_signal, named) refl
    | inr reserved ↦ rw (kill_number, some_signal, reserved) refl
  ]
]
