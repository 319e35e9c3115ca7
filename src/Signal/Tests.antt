-- ===== src/Signal/Tests.antt =====
-- The theorems on signals at concrete numbers.
use posix_next.Signal.Shim.{shim-sigaction, with_info, z_sig_shim}
use posix_next.Signal.Actions.{sigaction_request, Action, kernel_action, function}
use posix_next.Base.{
  some, ◌↔◌, ℕ, ◌+◌, ◌≡◌, refl, arith, true, false, [], ◌∷◌, get_or, ok, err, einval, pos,
}
use posix_next.Signal.{Config, signo_valid}
use posix_next.Signal.Mapping.{
  Numbers, Consistent, z_sig_from_posix, posix_to_k_std, fill, z_sig_map,
}
use posix_next.Signal.Remapping.{sig_words_remap, sig_words_remap_iff}
use posix_next.Signal.Delivery.{kill_number, kill_request, thread, sigqueue_request, kill-sigqueue}

abbrev board : Config
board = record { cancel = 32; rtmin = 34; rtmax = 64; nbits = 64 }

-- SIGUSR1 (10) is the kernel's 30, and the signal 16 has no counterpart.
abbrev numbers : Numbers
numbers = record {
  names = (1, 1) ∷ (2, 2) ∷ (10, 30) ∷ (12, 31) ∷ (32, 32) ∷ (33, 33) ∷ [];
  rtmin = 34;
  rtmax = 64;
  k_rtmin = 34;
  k_num_rt = 30;
}

consistent : Consistent numbers
consistent = record {
  posix_names = (
    refl,
    omega arith,
    (
      refl,
      omega arith,
      (refl, omega arith, (refl, omega arith, (refl, omega arith, (refl, omega arith, tt)))),
    ),
  );
  k_names = (
    refl,
    omega arith,
    (
      refl,
      omega arith,
      (refl, omega arith, (refl, omega arith, (refl, omega arith, (refl, omega arith, tt)))),
    ),
  );
  above = omega arith;
  enough = omega arith;
}

abbrev waiting : Action
waiting = record {
  handler = function 5;
  nocldstop = false;
  onstack = false;
  resethand = false;
  restart = true;
  siginfo = true;
  nocldwait = false;
  nodefer = true;
  mask = false ∷ true ∷ [];
}

sig_words_remap_iff_example :
    (get_or (sig_words_remap (λ i. pos (i + 1)) (true ∷ []) 3) 1 false ≡ true)
    ↔ ((j : ℕ) × (get_or (true ∷ []) j false ≡ true) × (pos (1 + j + 1) ≡ pos 2))
sig_words_remap_iff_example = sig_words_remap_iff (λ i. pos (i + 1)) (true ∷ []) 3 1 (omega arith)

-- The signal 16 is one of those that the kernel lacks.
kill-sigqueue_example :
    (sigqueue_request numbers 64 (pos 5) (pos 16) ≡ ok (thread (pos 5), pos 0))
    × (kill_request board numbers (pos 1) (pos 5) (pos 16) ≡ err einval)
unfolding z_sig_from_posix posix_to_k_std fill z_sig_map signo_valid
kill-sigqueue_example =
    kill-sigqueue board numbers 64 16 0 5 1 (omega arith) refl refl refl refl refl

shim-sigaction_example :
    (sigaction_request board numbers 32 (pos 10) (some waiting)
      ≡ some (pos 30, some (kernel_action numbers 32 waiting)))
    × (kill_number board numbers (pos 10) ≡ ok (pos 30))
    × (z_sig_shim numbers (pos 30) (kernel_action numbers 32 waiting) ≡ some (with_info 5 (pos 10)))
unfolding z_sig_from_posix posix_to_k_std fill z_sig_map signo_valid
shim-sigaction_example =
    shim-sigaction board numbers 32 10 30 waiting consistent refl (omega arith) (omega arith) refl
