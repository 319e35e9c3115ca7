-- ===== src/Rwlock/Refine.antt =====
-- The semaphores of lib/posix/options/rw_locks/rwlock.c implement the lock of Rwlock/Spec.
use posix_next.Base.{zero, ap, ◌∙◌, ◌≤◌, ◌+◌, Option, some, ebusy, none, ◌-◌, arith, ◌<◌, ◌≡◌}
use posix_next.Rwlock.{
  fails, done, blocks, ms, Timeout, suc, ℕ, SemOps, Rwlock, try_take, read_lock_acquire,
  write_lock_acquire, write_lock_drain, remaining, unlock,
}
use posix_next.Kernel.{forever, ms, SemOps}
use posix_next.Rwlock.Spec.{
  Lock, free, reading, draining, vacant, writing, readers, read, write, go_on, release, represent,
  represented, unavailable,
}

-- A writer waits for readers.
abbrev pub HasWaitingWriter : Lock → Type 0
HasWaitingWriter vacant = Unit {0}
HasWaitingWriter (draining n) = Unit {0}
HasWaitingWriter l = ⊥

-- A thread that may unlock: a reader while there is one, or the writer.
abbrev pub Holds : ℕ → Lock → Type 0
Holds self (reading n) = Unit {0}
Holds self (draining n) = Unit {0}
Holds self (writing w) = w ≡ self
Holds self l = ⊥

module _ (sem : SemOps) (limit : ℕ) where
  try_take-suc : (c : ℕ) → try_take sem limit (suc c) ≡ c
  unfolding try_take
  try_take-suc c = rw (try_take, sem.take_suc (ms 0) c)

  pub try_take_zero : try_take sem limit 0 ≡ 0
  unfolding try_take
  try_take_zero = rw (try_take, sem.take_zero_ms 0)

  pub give_one : sem.give 1 0 ≡ 1
  give_one = sem.give_below 1 0 (omega arith)

  -- A reader gets in where wr_sem is free.
  pub enters :
      (t : Timeout) (r c a : ℕ)
      → r ≡ suc c
      → read_lock_acquire sem limit t (record { rd = r; wr = 1; active = a; owner = none })
        ≡ (done, record { rd = c; wr = 1; active = try_take sem limit a; owner = none })
  unfolding read_lock_acquire
  enters t r c a e =
      ap (λ x. read_lock_acquire sem limit t (record { rd = x; wr = 1; active = a; owner = none }))
        e
      ∙ rw (read_lock_acquire, sem.take_suc t 0, try_take-suc c, give_one)

  -- Where it is not, the caller leaves the lock as it is.
  module _ (r a : ℕ) (o : Option ℕ) where
    abbrev closed : Rwlock
    closed = record { rd = r; wr = 0; active = a; owner = o }

    refused_read : (t : Timeout) → read_lock_acquire sem limit t closed ≡ (unavailable t, closed)
    unfolding read_lock_acquire
    refused_read forever = rw (read_lock_acquire, sem.take_zero_forever)
    refused_read (ms n) = rw (read_lock_acquire, sem.take_zero_ms n)

    refused_write :
        (t : Timeout) (elapsed self : ℕ)
        → write_lock_acquire sem limit t elapsed self closed ≡ (unavailable t, closed)
    unfolding write_lock_acquire
    refused_write forever elapsed self = rw (write_lock_acquire, sem.take_zero_forever)
    refused_write (ms n) elapsed self = rw (write_lock_acquire, sem.take_zero_ms n)

  -- With wr_sem free it goes on to wait for the readers.
  pub takes_write :
      (t : Timeout) (elapsed self r a : ℕ)
      → write_lock_acquire sem limit t elapsed self
          (record { rd = r; wr = 1; active = a; owner = none })
        ≡ write_lock_drain sem limit
            (remaining sem limit t elapsed)
            self
            (record { rd = r; wr = 0; active = a; owner = none })
  unfolding write_lock_acquire
  takes_write t elapsed self r a = rw (write_lock_acquire, sem.take_suc t 0)

  pub drained :
      (t : Timeout) (self r : ℕ)
      → write_lock_drain sem limit t self (record { rd = r; wr = 0; active = 1; owner = none })
        ≡ (done, record { rd = r; wr = 0; active = 0; owner = some self })
  unfolding write_lock_drain
  drained t self r = rw (write_lock_drain, sem.take_suc t 0)

  not_drained :
      (t : Timeout) (self r : ℕ)
      → write_lock_drain sem limit t self (record { rd = r; wr = 0; active = 0; owner = none })
        ≡ elim t [
          | forever ↦ (blocks, record { rd = r; wr = 0; active = 0; owner = none })
          | ms n ↦ (fails ebusy, record { rd = r; wr = 1; active = 0; owner = none })
        ]
  unfolding write_lock_drain
  not_drained forever self r = rw (write_lock_drain, sem.take_zero_forever)
  not_drained (ms n) self r = rw (write_lock_drain, sem.take_zero_ms n, give_one)

  -- read_lock_acquire does what a lock promises to a reader, while there is room for one more.
  pub read_lock_acquire_refines :
      (t : Timeout) (l : Lock)
      → readers l < limit
      → read_lock_acquire sem limit t (represent limit l) ≡ represented limit (read t l)
  unfolding read
  read_lock_acquire_refines t free h =
      enters t limit (limit - 1) 1 (omega arith) ∙ rw (try_take-suc 0)
  read_lock_acquire_refines t (reading n) h =
      enters t (limit - (n + 1)) (limit - (n + 1 + 1)) 0 (omega arith) ∙ rw (try_take_zero)
  read_lock_acquire_refines t (draining n) h = refused_read (limit - (n + 1)) 0 none t
  read_lock_acquire_refines t vacant h = refused_read limit 1 none t
  read_lock_acquire_refines t (writing w) h = refused_read limit 0 (some w) t

  -- write_lock_acquire does what a lock promises to a writer.
  pub write_lock_acquire_refines :
      (t : Timeout) (elapsed self : ℕ) (l : Lock)
      → write_lock_acquire sem limit t elapsed self (represent limit l)
        ≡ represented limit (write t self l)
  unfolding write remaining
  write_lock_acquire_refines forever elapsed self free =
      takes_write forever elapsed self limit 1 ∙ drained forever self limit
  write_lock_acquire_refines (ms n) elapsed self free =
      takes_write (ms n) elapsed self limit 1 ∙ drained _ self limit
  write_lock_acquire_refines forever elapsed self (reading n) =
      takes_write forever elapsed self (limit - (n + 1)) 0
      ∙ not_drained forever self (limit - (n + 1))
  write_lock_acquire_refines (ms k) elapsed self (reading n) =
      takes_write (ms k) elapsed self (limit - (n + 1)) 0 ∙ not_drained _ self (limit - (n + 1))
  write_lock_acquire_refines forever elapsed self (draining n) =
      refused_write (limit - (n + 1)) 0 none forever elapsed self
  write_lock_acquire_refines (ms k) elapsed self (draining n) =
      refused_write (limit - (n + 1)) 0 none (ms k) elapsed self
  write_lock_acquire_refines forever elapsed self vacant =
      refused_write limit 1 none forever elapsed self
  write_lock_acquire_refines (ms k) elapsed self vacant =
      refused_write limit 1 none (ms k) elapsed self
  write_lock_acquire_refines forever elapsed self (writing w) =
      refused_write limit 0 (some w) forever elapsed self
  write_lock_acquire_refines (ms k) elapsed self (writing w) =
      refused_write limit 0 (some w) (ms k) elapsed self

  -- A writer that waits for the readers goes on when the last of them has left.
  pub write_lock_drain_refines :
      (t : Timeout) (self : ℕ) (l : Lock)
      → HasWaitingWriter l
      → write_lock_drain sem limit t self (represent limit l) ≡ represented limit (go_on t self l)
  unfolding go_on
  write_lock_drain_refines forever self vacant h = drained forever self limit
  write_lock_drain_refines (ms k) self vacant h = drained (ms k) self limit
  write_lock_drain_refines forever self (draining n) h = not_drained forever self (limit - (n + 1))
  write_lock_drain_refines (ms k) self (draining n) h = not_drained (ms k) self (limit - (n + 1))
  write_lock_drain_refines t self free h = absurd h
  write_lock_drain_refines t self (reading n) h = absurd h
  write_lock_drain_refines t self (writing w) h = absurd h

  unlock_not_last :
      (self wr r : ℕ)
      → r + 1 < limit
      → unlock sem limit self (record { rd = r; wr = wr; active = 0; owner = none })
        ≡ record { rd = r + 1; wr = wr; active = 0; owner = none }
  unfolding unlock
  unlock_not_last self wr r h = rw (unlock, sem.give_below limit r (omega arith)) (ground arith)

  unlock_reader :
      (self wr r : ℕ)
      → r + 1 ≡ limit
      → unlock sem limit self (record { rd = r; wr = wr; active = 0; owner = none })
        ≡ record { rd = limit; wr = wr; active = 1; owner = none }
  unfolding unlock
  unlock_reader self wr r h =
      rw (unlock, sem.give_below limit r (omega arith)) (ground (arith, give_one))

  unlock_writer :
      (self w r : ℕ)
      → w ≡ self
      → unlock sem limit self (record { rd = r; wr = 0; active = 0; owner = some w })
        ≡ record { rd = r; wr = 1; active = 1; owner = none }
  unfolding unlock
  unlock_writer self w r h = rw (unlock, give_one) (ground arith)

  -- pthread_rwlock_unlock does what a lock promises when a reader, or the writer itself, leaves.
  pub unlock_refines :
      (self : ℕ) (l : Lock)
      → Holds self l
      → readers l ≤ limit
      → unlock sem limit self (represent limit l) ≡ represent limit (release l)
  unfolding release
  unlock_refines self (reading zero) h r = unlock_reader self 1 (limit - (0 + 1)) (omega arith)
  unlock_refines self (reading (suc n)) h r =
      unlock_not_last self 1 (limit - (suc n + 1)) (omega arith)
      ∙ ap (λ x. record { rd = x; wr = 1; active = 0; owner = none }) (omega arith)
  unlock_refines self (draining zero) h r = unlock_reader self 0 (limit - (0 + 1)) (omega arith)
  unlock_refines self (draining (suc n)) h r =
      unlock_not_last self 0 (limit - (suc n + 1)) (omega arith)
      ∙ ap (λ x. record { rd = x; wr = 0; active = 0; owner = none }) (omega arith)
  unlock_refines self (writing w) h r = unlock_writer self w limit h
  unlock_refines self free h r = absurd h
  unlock_refines self vacant h r = absurd h
