-- ===== src/Semaphore.antt =====
-- Semaphores, lib/posix/options/semaphores/semaphore.c. An unnamed semaphore is a kernel semaphore
-- (Kernel.SemOps), known by its count; a NULL pointer is `none`. Named semaphores are in the child
-- module Named.
pub mod Named
pub mod Counting
mod Tests
use posix_next.Base.{
  ℕ, Bool, true, false, Option, none, some, ltb, if◌then◌else◌, Errno, einval, ebusy, eagain,
  etimedout, Result, ok, err,
}
use posix_next.Kernel.{
  Timeout, forever, ms, got, expired, never, Deadline, null, invalid, in_ms, SemOps,
}

-- How a call ends; `blocks` is a call that does not return while no other thread runs.
pub data Ret : Type 0 where
  done : Ret
  fails : Errno → Ret
  blocks : Ret

-- `value_max` is CONFIG_POSIX_SEM_VALUE_MAX.
module _ (sem : SemOps) (value_max : ℕ) where
  -- `waited_on` says whether the wait queue has a thread.
  pub sem_destroy : Option ℕ → Bool → Ret × Option ℕ
  sem_destroy none waited_on = (fails einval, none)
  sem_destroy (some c) true = (fails ebusy, some c)
  sem_destroy (some c) false = (done, some (sem.reset c))

  pub sem_getvalue : Option ℕ → Result ℕ
  sem_getvalue none = err einval
  sem_getvalue (some c) = ok c

  pub sem_init : Option ℕ → ℕ → Ret × Option ℕ
  sem_init s value = if ltb value_max value then (fails einval, s) else (done, some value)

  pub sem_post : Option ℕ → Ret × Option ℕ
  sem_post none = (fails einval, none)
  sem_post (some c) = (done, some (sem.give value_max c))

  pub sem_timedwait : Deadline → ℕ → Ret × ℕ
  sem_timedwait null c = (fails einval, c)
  sem_timedwait invalid c = (fails einval, c)
  sem_timedwait (in_ms t) c = elim (sem.take (ms t) c) [
    | got d ↦ (done, d)
    | expired ↦ (fails etimedout, c)
    | never ↦ (blocks, c)
  ]

  pub sem_trywait : ℕ → Ret × ℕ
  sem_trywait c = elim (sem.take (ms 0) c) [
    | got d ↦ (done, d)
    | expired ↦ (fails eagain, c)
    | never ↦ (blocks, c)
  ]

  pub sem_wait : ℕ → Ret × ℕ
  sem_wait c = elim (sem.take forever c) [
    | got d ↦ (done, d)
    | expired ↦ (done, c)
    | never ↦ (blocks, c)
  ]
