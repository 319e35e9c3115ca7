-- ===== src/Sched/Attr.antt =====
-- The attributes of a new thread and its start: lib/posix/options/threads_base/pthread.c,
-- lib/posix/options/thread_priority_scheduling/pthread_sched.c and
-- lib/posix/options/shared/posix_internal.h. The numbers of priorities are at most 128, so that
-- the field of type int8_t holds them. PTHREAD_STACK_MIN and K_LOWEST_APPLICATION_THREAD_PRIO are
-- arguments.
use posix_next.Base.{
  ℕ, Bool, true, false, ◌&&◌, not, ltb, Option, none, some, if◌then◌else◌, einval, enotsup, Result,
  ok, err, ℤ, pos,
}
use posix_next.Sched.{
  Policy, fifo, rr, other, Config, valid_posix_policy, is_posix_policy_prio_valid,
  posix_to_zephyr_priority,
}

-- `struct posix_thread_attr`; `stack` says whether it is not NULL, `detached` is
-- PTHREAD_CREATE_DETACHED and `inherit` PTHREAD_INHERIT_SCHED.
pub record Attr : Type 0 where
  pub stack : Bool
  pub stacksize : ℕ
  pub guardsize : ℕ
  pub priority : ℤ
  pub schedpolicy : Policy
  pub cancel_enabled : Bool
  pub cancel_async : Bool
  pub scope_system : Bool
  pub detached : Bool
  pub inherit : Bool
  pub initialized : Bool

abbrev pub posix_thread_attr_is_valid : ℕ → Attr → Bool
posix_thread_attr_is_valid stack_min attr =
    if not attr.initialized
    then false
    else (if attr.stack && ltb attr.stacksize stack_min
        then false
        else valid_posix_policy attr.schedpolicy)

-- `(struct posix_thread_attr){0}`, by the constants of include/zephyr/posix/pthread.h and sched.h.
abbrev pub zeros : Attr
zeros = record {
  stack = false;
  stacksize = 0;
  guardsize = 0;
  priority = pos 0;
  schedpolicy = other;
  cancel_enabled = true;
  cancel_async = false;
  scope_system = true;
  detached = false;
  inherit = true;
  initialized = false;
}

-- PTHREAD_SCOPE_PROCESS, PTHREAD_SCOPE_SYSTEM, and any other int.
pub data Scope : Type 0 where
  process system no_scope : Scope

-- The end of a setter: the new attributes, or EINVAL.
abbrev pub update : Bool → Attr → Attr → Result (Unit {0}) × Attr
update allowed old new = if allowed then (ok tt, new) else (err einval, old)

module _ (cfg : Config) (stack_min : ℕ) where
  abbrev pub default_policy : Policy
  default_policy = if cfg.preempt then rr else fifo

  unfoldable pub posix_thread_attr_init : ℤ → Attr
  posix_thread_attr_init lowest = record {
    stack = false;
    stacksize = 0;
    guardsize = 0;
    priority = posix_to_zephyr_priority cfg lowest default_policy;
    schedpolicy = default_policy;
    cancel_enabled = true;
    cancel_async = false;
    scope_system = true;
    detached = false;
    inherit = true;
    initialized = true;
  }

  -- `none` is a NULL pointer.
  unfoldable pub pthread_attr_setschedparam : Option ℤ → Attr → Result (Unit {0}) × Attr
  pthread_attr_setschedparam none attr = (err einval, attr)
  pthread_attr_setschedparam (some priority) attr =
      update
        (posix_thread_attr_is_valid stack_min attr
          && is_posix_policy_prio_valid cfg priority attr.schedpolicy)
        attr (record attr { priority = priority })

  unfoldable pub pthread_attr_getschedparam : Attr → Result ℤ
  pthread_attr_getschedparam attr =
      if posix_thread_attr_is_valid stack_min attr then ok attr.priority else err einval

  unfoldable pub pthread_attr_setschedpolicy : Policy → Attr → Result (Unit {0}) × Attr
  pthread_attr_setschedpolicy policy attr =
      update (posix_thread_attr_is_valid stack_min attr && valid_posix_policy policy) attr
        (record attr { schedpolicy = policy })

  unfoldable pub pthread_attr_setscope : Scope → Attr → Result (Unit {0}) × Attr
  pthread_attr_setscope scope attr =
      if not (posix_thread_attr_is_valid stack_min attr) then (err einval, attr) else elim scope [
        | no_scope ↦ (err einval, attr)
        | process ↦ (err enotsup, attr)
        | system ↦ (ok tt, record attr { scope_system = true })
      ]

  -- `none` is an int that is neither of the two constants.
  unfoldable pub pthread_attr_setinheritsched : Option Bool → Attr → Result (Unit {0}) × Attr
  pthread_attr_setinheritsched none attr = (err einval, attr)
  pthread_attr_setinheritsched (some inherit) attr =
      update (posix_thread_attr_is_valid stack_min attr) attr (record attr { inherit = inherit })

  unfoldable pub pthread_attr_setdetachstate : Option Bool → Attr → Result (Unit {0}) × Attr
  pthread_attr_setdetachstate none attr = (err einval, attr)
  pthread_attr_setdetachstate (some detached) attr =
      update (posix_thread_attr_is_valid stack_min attr) attr (record attr { detached = detached })

  unfoldable pub pthread_attr_destroy : Attr → Result (Unit {0}) × Attr
  pthread_attr_destroy attr = update (posix_thread_attr_is_valid stack_min attr) attr zeros

  -- `pthread_create` up to sys_thread_create: the priority and whether K_DETACHED is set. The
  -- caller runs at `current`.
  unfoldable pub pthread_create : ℤ → ℤ → Option Attr → Result (ℤ × Bool)
  unfolding posix_thread_attr_init
  pthread_create lowest current given =
      let attr : Attr = elim given [ none ↦ posix_thread_attr_init lowest | some a ↦ a ] in
      let valid : Bool = elim given [
        | none ↦ true
        | some a ↦ posix_thread_attr_is_valid stack_min a
      ] in
      if not valid
      then err einval
      else ok (
        (if attr.inherit
            then current
            else posix_to_zephyr_priority cfg attr.priority attr.schedpolicy),
        attr.detached,
      )
