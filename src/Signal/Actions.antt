-- ===== src/Signal/Actions.antt =====
-- Signal actions, lib/posix/options/signals/signal.c, with the sets converted word by word
-- (lib/posix/options/shared/z_sig_set.c). `nbits` and `k_bits` are the sizes of the two sets. The
-- kernel's k_sig_action is not part of the repository: what it returns is an argument.
use posix_next.Base.{
  ◌==◌, ℕ, Bool, false, Option, none, some, if◌then◌else◌, not, einval, Result, ok, err, ℤ, pos,
  negsuc,
}
use posix_next.Signal.{Sigset, Config, signo_valid}
use posix_next.Signal.Mapping.{Numbers, z_sig_from_posix, z_sig_to_posix}
use posix_next.Signal.Remapping.{sig_words_remap}

-- SIG_DFL, SIG_IGN or a function of the application.
pub data Handler : Type 0 where
  dfl ign : Handler
  function : ℕ → Handler

-- `struct sigaction`; the flags are the bits of `sa_flags` that posix_signal.h defines.
pub record Action : Type 0 where
  pub handler : Handler
  pub nocldstop : Bool
  pub onstack : Bool
  pub resethand : Bool
  pub restart : Bool
  pub siginfo : Bool
  pub nocldwait : Bool
  pub nodefer : Bool
  pub mask : Sigset

-- K_SIG_DFL, K_SIG_IGN, z_sig_shim, or another function that was given to the kernel itself.
pub data KHandler : Type 0 where
  k_dfl k_ign shim : KHandler
  raw : ℕ → KHandler

-- `struct k_sig_action`, with K_SIG_SA_SIGINFO, K_SIG_SA_RESETHAND and K_SIG_SA_NODEFER; `user_data` is NULL or the function of the application.
pub record KAction : Type 0 where
  pub handler : KHandler
  pub user_data : Option ℕ
  pub siginfo : Bool
  pub resethand : Bool
  pub nodefer : Bool
  pub mask : Sigset

-- `z_sig_set_from_posix_slow` and `z_sig_set_to_posix_slow`
unfoldable pub set_from_posix : Numbers → ℕ → Sigset → Sigset
unfolding sig_words_remap
set_from_posix n k_bits s = sig_words_remap (λ i. z_sig_from_posix n (pos i)) s k_bits

unfoldable pub set_to_posix : Numbers → ℕ → Sigset → Sigset
unfolding sig_words_remap
set_to_posix n nbits s = sig_words_remap (λ i. z_sig_to_posix n (pos i)) s nbits

abbrev pub kernel_handler : Handler → KHandler
kernel_handler dfl = k_dfl
kernel_handler ign = k_ign
kernel_handler (function f) = shim

abbrev pub kernel_data : Handler → Option ℕ
kernel_data dfl = none
kernel_data ign = none
kernel_data (function f) = some f

-- What sigaction gives to the kernel.
unfoldable pub kernel_action : Numbers → ℕ → Action → KAction
unfolding set_from_posix
kernel_action n k_bits act = record {
  handler = kernel_handler act.handler;
  user_data = kernel_data act.handler;
  siginfo = act.siginfo;
  resethand = act.resethand;
  nodefer = act.nodefer;
  mask = set_from_posix n k_bits act.mask;
}

-- A NULL pointer is SIG_DFL.
abbrev pub from_data : Option ℕ → Handler
from_data none = dfl
from_data (some f) = function f

abbrev pub posix_handler : KHandler → Option ℕ → Handler
posix_handler shim d = from_data d
posix_handler (raw f) d = function f
posix_handler k_ign d = ign
posix_handler k_dfl d = dfl

unfoldable pub posix_sig_disposition_get : Numbers → ℕ → KAction → Action
unfolding set_to_posix
posix_sig_disposition_get n nbits k = record {
  handler = posix_handler k.handler k.user_data;
  nocldstop = false;
  onstack = false;
  resethand = k.resethand;
  restart = false;
  siginfo = k.siginfo;
  nocldwait = false;
  nodefer = k.nodefer;
  mask = set_to_posix n nbits k.mask;
}

abbrev pub is_positive : ℤ → Bool
is_positive (pos n) = not (n == 0)
is_positive (negsuc n) = false

-- What sigaction asks of the kernel: the number and the new action. `none` is a refusal with EINVAL.
unfoldable pub sigaction_request :
    Config → Numbers → ℕ → ℤ → Option Action → Option (ℤ × Option KAction)
unfolding kernel_action
sigaction_request cfg n k_bits sig act =
    if not (signo_valid cfg sig)
    then none
    else (if is_positive (z_sig_from_posix n sig)
        then some (
          z_sig_from_posix n sig,
          elim act [ none ↦ none | some a ↦ some (kernel_action n k_bits a) ],
        )
        else none)

-- `answer` is what the kernel returns for the request: the action that was in force.
unfoldable pub sigaction :
    Config → Numbers → ℕ → ℤ → Option Action → (ℤ × Option KAction → Result KAction) → Result Action
unfolding sigaction_request posix_sig_disposition_get
sigaction cfg n k_bits sig act answer = elim (sigaction_request cfg n k_bits sig act) [
  | none ↦ err einval
  | some r ↦ elim (answer r) [
    | err e ↦ err e
    | ok old ↦ ok (posix_sig_disposition_get n cfg.nbits old)
  ]
]
