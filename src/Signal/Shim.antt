-- ===== src/Signal/Shim.antt =====
-- The handler that the kernel calls, z_sig_shim of lib/posix/options/signals/signal.c, and the way
-- of a signal from sigaction and kill to it.
use posix_next.Base.{
  ◌∙◌, ℕ, ◌≡◌, ◌<◌, ◌==◌, arith, Bool, true, false, Option, none, some, if◌then◌else◌, refl, ap, ok,
  ℤ, pos,
}
use posix_next.Signal.{Config, signo_valid}
use posix_next.Signal.Mapping.{Numbers, Consistent, z_sig_from_posix, to_posix-from_posix}
use posix_next.Signal.Actions.{
  Action, Handler, dfl, ign, function, KAction, kernel_action, sigaction_request, kernel_data,
}
use posix_next.Signal.Delivery.{ksigno_to_posix, kill_number}

-- A call of a function of the application: with the number alone, or with a siginfo_t that has it
-- and a context.
pub data Invocation : Type 0 where
  plain with_info : ℕ → ℤ → Invocation

-- `action` is what k_sig_current reports.
unfoldable pub z_sig_shim : Numbers → ℤ → KAction → Option Invocation
unfolding ksigno_to_posix
z_sig_shim n ksigno action = elim action.user_data [
  | none ↦ none
  | some f ↦ some (
      if action.siginfo
      then with_info f (ksigno_to_posix n ksigno)
      else plain f (ksigno_to_posix n ksigno))
]

-- The call that the application wants for a handler, SA_SIGINFO and a number.
abbrev pub wanted : Handler → Bool → ℤ → Option Invocation
wanted dfl siginfo sig = none
wanted ign siginfo sig = none
wanted (function f) siginfo sig = some (if siginfo then with_info f sig else plain f sig)

data_wanted :
    (h : Handler) (siginfo : Bool) (sig : ℤ)
    → elim (kernel_data h) as (λ _. Option Invocation) [
      | none ↦ none
      | some f ↦ some (if siginfo then with_info f sig else plain f sig)
    ]
      ≡ wanted h siginfo sig
data_wanted dfl siginfo sig = refl
data_wanted ign siginfo sig = refl
data_wanted (function f) siginfo sig = refl

z_sig_shim-kernel_action :
    (n : Numbers) (k_bits : ℕ) (k : ℤ) (act : Action)
    → z_sig_shim n k (kernel_action n k_bits act)
      ≡ wanted act.handler act.siginfo (ksigno_to_posix n k)
unfolding z_sig_shim kernel_action
z_sig_shim-kernel_action n k_bits k act = data_wanted act.handler act.siginfo (ksigno_to_posix n k)

ksigno_to_posix-from_posix :
    (n : Numbers) (s k : ℕ)
    → Consistent n
    → 0 < s
    → 0 < k
    → z_sig_from_posix n (pos s) ≡ pos k
    → ksigno_to_posix n (pos k) ≡ pos s
unfolding ksigno_to_posix
ksigno_to_posix-from_posix n s k c hs hk e =
    let positive : (s == 0) ≡ false = ground arith in
    rw (to_posix-from_posix n s k c hk e, positive) refl

-- An action that sigaction accepts for a signal: sigaction gives the kernel a number and an action,
-- kill of that signal asks for the same number, and the shim, called with both, calls the function
-- of the action with the number that the application knows, as SA_SIGINFO says, or nothing where
-- the handler is SIG_DFL or SIG_IGN.
pub shim-sigaction :
    (cfg : Config) (n : Numbers) (k_bits s k : ℕ) (act : Action)
    → Consistent n
    → signo_valid cfg (pos s) ≡ true
    → 0 < s
    → 0 < k
    → z_sig_from_posix n (pos s) ≡ pos k
    → (sigaction_request cfg n k_bits (pos s) (some act)
        ≡ some (pos k, some (kernel_action n k_bits act)))
      × (kill_number cfg n (pos s) ≡ ok (pos k))
      × (z_sig_shim n (pos k) (kernel_action n k_bits act) ≡ wanted act.handler act.siginfo (pos s))
unfolding sigaction_request kill_number
shim-sigaction cfg n k_bits s k act c v hs hk e =
    let positive : (k == 0) ≡ false = ground arith in
    let nonzero : (s == 0) ≡ false = ground arith in
    (
      rw (v, e, positive) refl,
      rw (v, e, positive, nonzero) refl,
      z_sig_shim-kernel_action n k_bits (pos k) act
          ∙ ap (wanted act.handler act.siginfo) (ksigno_to_posix-from_posix n s k c hs hk e),
    )
