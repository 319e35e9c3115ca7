-- ===== src/Sched.antt =====
-- Scheduling policies and priorities: lib/posix/options/shared/posix_internal.h,
-- lib/posix/options/shared/pthread_priority.c, and the calls of
-- lib/posix/options/thread_priority_scheduling/pthread_sched.c on a thread. The state of a thread is
-- its priority in the kernel. An assertion of the source is no code here.
pub mod Attr
pub mod Order
pub mod Attributes
pub mod Creation
mod Tests
use posix_next.Base.{
  ℕ, ◌+◌, ◌-◌, ◌*◌, Bool, true, false, ◌&&◌, not, Option, none, some, if◌then◌else◌, Errno, einval,
  Result, ok, err, ℤ, pos, negsuc, minus, add_int, sub_int, leb_int,
}

-- SCHED_FIFO, SCHED_RR, SCHED_OTHER, and any other int.
pub data Policy : Type 0 where
  fifo rr other unknown : Policy

-- CONFIG_COOP_ENABLED, CONFIG_PREEMPT_ENABLED, CONFIG_NUM_COOP_PRIORITIES and
-- CONFIG_NUM_PREEMPT_PRIORITIES. K_HIGHEST_THREAD_PRIO is the kernel's.
pub record Config : Type 0 where
  pub coop : Bool
  pub preempt : Bool
  pub num_coop : ℕ
  pub num_preempt : ℕ
  pub highest : ℤ

abbrev pub valid_posix_policy : Policy → Bool
valid_posix_policy fifo = true
valid_posix_policy rr = true
valid_posix_policy other = true
valid_posix_policy unknown = false

abbrev pub is_fifo : Policy → Bool
is_fifo fifo = true
is_fifo rr = false
is_fifo other = false
is_fifo unknown = false

abbrev pub posix_sched_priority_min : Policy → ℤ
posix_sched_priority_min policy = if not (valid_posix_policy policy) then negsuc 0 else pos 0

abbrev pub clamp : ℤ → ℤ → ℤ → ℤ
clamp z low high = if leb_int z low then low else (if leb_int high z then high else z)

abbrev pub negate : ℤ → ℤ
negate z = sub_int (pos 0) z

module _ (cfg : Config) where
  unfoldable pub posix_sched_priority_max : Policy → ℤ
  posix_sched_priority_max policy =
      if cfg.coop && is_fifo policy
      then sub_int (pos cfg.num_coop) (pos 1)
      else (if cfg.preempt && valid_posix_policy policy && not (is_fifo policy)
          then sub_int (pos cfg.num_preempt) (pos 1)
          else negsuc 0)

  unfoldable pub is_posix_policy_prio_valid : ℤ → Policy → Bool
  unfolding posix_sched_priority_max
  is_posix_policy_prio_valid priority policy =
      leb_int (posix_sched_priority_min policy) priority
      && leb_int priority (posix_sched_priority_max policy)

  -- ZEPHYR_TO_POSIX_PRIORITY
  abbrev pub from_zephyr : ℤ → ℤ
  from_zephyr zprio =
      if not (leb_int (pos 0) zprio)
      then negate (add_int zprio (pos 1))
      else sub_int (sub_int (pos cfg.num_preempt) zprio) (pos 1)

  -- The priority and what `*policy` gets.
  unfoldable pub zephyr_to_posix_priority : ℤ → ℤ × Policy
  zephyr_to_posix_priority z =
      let z_prio = clamp z cfg.highest (sub_int (pos cfg.num_preempt) (pos 1)) in
      (from_zephyr z_prio, if not (leb_int (pos 0) z_prio) then fifo else rr)

  unfoldable pub posix_to_zephyr_priority : ℤ → Policy → ℤ
  posix_to_zephyr_priority priority policy =
      if is_fifo policy
      then negate (add_int priority (pos 1))
      else sub_int (sub_int (pos cfg.num_preempt) priority) (pos 1)

  -- `none` is a NULL pointer.
  unfoldable pub pthread_setschedparam : Policy → Option ℤ → ℤ → Result (Unit {0}) × ℤ
  pthread_setschedparam policy none z = (err einval, z)
  pthread_setschedparam policy (some priority) z =
      if not (valid_posix_policy policy)
      then (err einval, z)
      else (if not (is_posix_policy_prio_valid priority policy)
          then (err einval, z)
          else (ok tt, posix_to_zephyr_priority priority policy))

  -- With both pointers given.
  unfoldable pub pthread_getschedparam : ℤ → ℤ × Policy
  pthread_getschedparam z = zephyr_to_posix_priority z

  unfoldable pub pthread_setschedprio : ℤ → ℤ → Result (Unit {0}) × ℤ
  pthread_setschedprio prio z =
      let (old, policy) = pthread_getschedparam z in pthread_setschedparam policy (some prio) z
