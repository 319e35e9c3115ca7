-- ===== src/Rwlock.antt =====
-- Read-write locks, lib/posix/options/rw_locks/rwlock.c. A lock is three semaphores and the owner;
-- the semaphores are the kernel's (Kernel.SemOps), and so is the pool of objects: what
-- `posix_get_pool_obj` finds is an argument.
pub mod Spec
pub mod Refine
pub mod Race
pub mod Attr
mod Tests
use posix_next.Base.{
  ℕ, suc, ◌+◌, ◌-◌, Bool, true, false, Option, none, some, ◌==◌, leb, if◌then◌else◌, Errno, einval,
  ebusy, enomem, etimedout,
}
use posix_next.Kernel.{
  Timeout, forever, ms, got, expired, never, Deadline, null, invalid, in_ms, SemOps,
}

-- `struct posix_rwlock`: the counts of rd_sem, wr_sem and reader_active, and the owner.
pub record Rwlock : Type 0 where
  pub rd : ℕ
  pub wr : ℕ
  pub active : ℕ
  pub owner : Option ℕ

-- How a call ends; `blocks` is a call that does not return while no other thread runs.
pub data Ret : Type 0 where
  done : Ret
  fails : Errno → Ret
  blocks : Ret

-- `k_current_get() == rwl->wr_owner`
abbrev pub owns : ℕ → Option ℕ → Bool
owns self none = false
owns self (some t) = t == self

-- `limit` is CONCURRENT_READER_LIMIT.
module _ (sem : SemOps) (limit : ℕ) where
  -- `(void)sys_sem_take(s, K_NO_WAIT)`
  unfoldable pub try_take : ℕ → ℕ
  try_take c = elim (sem.take (ms 0) c) [ got d ↦ d | _ ↦ c ]

  -- The object that pthread_rwlock_init fills.
  pub rwlock_init : Option ℕ → Ret × Option Rwlock
  rwlock_init none = (fails enomem, none)
  rwlock_init (some h) = (done, some (record { rd = limit; wr = 1; active = 1; owner = none }))

  pub read_lock_acquire : Timeout → Rwlock → Ret × Rwlock
  unfolding try_take
  read_lock_acquire timeout l = elim (sem.take timeout l.wr) [
    | got c ↦ (done, record l { active = try_take l.active; rd = try_take l.rd; wr = sem.give 1 c })
    | expired ↦ (fails ebusy, l)
    | never ↦ (blocks, l)
  ]

  -- What is left of the timeout for the second wait.
  unfoldable pub remaining : Timeout → ℕ → Timeout
  remaining forever elapsed = forever
  remaining (ms t) elapsed = ms (if leb t elapsed then 0 else t - elapsed)

  -- The second wait of `write_lock_acquire`, which holds wr_sem: for the readers to finish.
  unfoldable pub write_lock_drain : Timeout → ℕ → Rwlock → Ret × Rwlock
  write_lock_drain timeout self l = elim (sem.take timeout l.active) [
    | got c ↦ (done, record l { active = c; owner = some self })
    | expired ↦ (fails ebusy, record l { wr = sem.give 1 l.wr })
    | never ↦ (blocks, l)
  ]

  -- `elapsed` is the time that the first wait took.
  pub write_lock_acquire : Timeout → ℕ → ℕ → Rwlock → Ret × Rwlock
  unfolding write_lock_drain remaining
  write_lock_acquire timeout elapsed self l = elim (sem.take timeout l.wr) [
    | got c ↦ write_lock_drain (remaining timeout elapsed) self (record l { wr = c })
    | expired ↦ (fails ebusy, l)
    | never ↦ (blocks, l)
  ]

  -- The read branch of pthread_rwlock_unlock up to its test, which says whether this was the last
  -- reader, and what follows the test.
  unfoldable pub unlock_read : Rwlock → Bool × Rwlock
  unlock_read l = (sem.give limit l.rd == limit, record l { rd = sem.give limit l.rd })

  unfoldable pub unlock_last : Bool → Rwlock → Rwlock
  unlock_last last l = if last then record l { active = sem.give 1 l.active } else l

  pub unlock : ℕ → Rwlock → Rwlock
  unfolding unlock_read unlock_last
  unlock self l =
      if owns self l.owner
      then record l { owner = none; active = sem.give 1 l.active; wr = sem.give 1 l.wr }
      else (let (last, l') = unlock_read l in unlock_last last l')

  -- The entry points; `obj` is what `posix_get_pool_obj` finds.
  abbrev on_object : (Rwlock → Ret × Rwlock) → Option Rwlock → Ret × Option Rwlock
  on_object f none = (fails einval, none)
  on_object f (some l) = let (r, l') = f l in (r, some l')

  abbrev timed : Ret × Option Rwlock → Ret × Option Rwlock
  timed (fails e, o) = (fails etimedout, o)
  timed (r, o) = (r, o)

  abbrev timed_object : (Rwlock → Ret × Rwlock) → Option Rwlock → Ret × Option Rwlock
  timed_object f none = (fails einval, none)
  timed_object f (some l) = timed (on_object f (some l))

  pub rwlock_rdlock : Option Rwlock → Ret × Option Rwlock
  rwlock_rdlock = on_object (read_lock_acquire forever)

  pub rwlock_tryrdlock : Option Rwlock → Ret × Option Rwlock
  rwlock_tryrdlock = on_object (read_lock_acquire (ms 0))

  pub rwlock_timedrdlock : Deadline → Option Rwlock → Ret × Option Rwlock
  rwlock_timedrdlock null obj = (fails einval, obj)
  rwlock_timedrdlock invalid obj = (fails einval, obj)
  rwlock_timedrdlock (in_ms t) obj = timed_object (read_lock_acquire (ms t)) obj

  pub rwlock_wrlock : ℕ → ℕ → Option Rwlock → Ret × Option Rwlock
  rwlock_wrlock elapsed self = on_object (write_lock_acquire forever elapsed self)

  pub rwlock_trywrlock : ℕ → ℕ → Option Rwlock → Ret × Option Rwlock
  rwlock_trywrlock elapsed self = on_object (write_lock_acquire (ms 0) elapsed self)

  pub rwlock_timedwrlock : Deadline → ℕ → ℕ → Option Rwlock → Ret × Option Rwlock
  rwlock_timedwrlock null elapsed self obj = (fails einval, obj)
  rwlock_timedwrlock invalid elapsed self obj = (fails einval, obj)
  rwlock_timedwrlock (in_ms t) elapsed self obj =
      timed_object (write_lock_acquire (ms t) elapsed self) obj

  pub rwlock_unlock : ℕ → Option Rwlock → Ret × Option Rwlock
  rwlock_unlock self = on_object (λ l. (done, unlock self l))

-- The lock goes back to the pool unless a writer owns it.
pub rwlock_destroy : Option Rwlock → Ret × Option Rwlock
rwlock_destroy none = (fails einval, none)
rwlock_destroy (some l) = elim l.owner [ some t ↦ (fails ebusy, some l) | none ↦ (done, none) ]
