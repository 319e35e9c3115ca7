-- ===== src/Barrier.antt =====
-- Barriers, lib/posix/options/barriers/barrier.c. The mutex of a barrier is held from the start of
-- pthread_barrier_wait to its wait on the condition variable, and from each wake-up to the next
-- wait or to the return; each of these sections is one step. The object pool and the condition
-- variable are the kernel's: what their functions return, and how many threads a signal wakes, are
-- arguments.
pub mod Rounds
pub mod Reuse
pub mod Attr
mod Tests
use posix_next.Base.{
  ℕ, ◌+◌, ◌-◌, ◌%◌, ◌^◌, ◌≡◌, Bool, ◌&&◌, ◌||◌, Option, none, some, List, [], ◌∷◌, ◌==◌, ltb, not,
  if◌then◌else◌, Errno, einval, enomem, Result, ok, err,
}

-- `struct posix_barrier` without its kernel objects.
pub record Barrier : Type 0 where
  pub max : ℕ
  pub count : ℕ

-- How a section of pthread_barrier_wait ends: the thread returns (and signals the condition
-- variable on its way out), as the serial thread or not, or it waits on the condition variable.
pub data Section : Type 0 where
  serial released waits : Section

-- From `k_mutex_lock` on: `++bar->count` on a uint32_t, and the first test of the loop.
pub wait_arrive : Barrier → Section × Barrier
wait_arrive b =
    if count == b.max
    then (serial, record b { count = 0 })
    else (if not (count == 0)
        then (waits, record b { count = count })
        else (released, record b { count = count }))
  where
    count : ℕ
    count = (b.count + 1) % 2 ^ 32

-- After `k_condvar_wait` returns: the test of the loop again.
pub wait_resume : Barrier → Section × Barrier
wait_resume b = if not (b.count == 0) then (waits, b) else (released, b)

-- `alloc` is the barrier that `sys_elastipool_alloc` found, with its handle.
pub barrier_init : Option ℕ → ℕ → Result (ℕ × Barrier)
barrier_init alloc count =
    if count == 0
    then err einval
    else elim alloc [ none ↦ err enomem | some h ↦ ok (h, record { max = count; count = 0 }) ]

-- The handle after pthread_barrier_destroy, which is -1 on success. `obj` is what
-- `posix_get_pool_obj` finds and `freed` what `sys_elastipool_free` returns.
pub barrier_destroy : Option Barrier → Result (Unit {0}) → ℕ → Result (Unit {0}) × ℕ
barrier_destroy none freed handle = (err einval, handle)
barrier_destroy (some b) (ok _) handle = (ok tt, 2 ^ 32 - 1)
barrier_destroy (some b) (err e) handle = (err e, handle)

-- The threads of a program that use one barrier. The last three fields count what has happened:
-- calls of pthread_barrier_wait, and its two kinds of return.
pub record System : Type 0 where
  pub bar : Barrier
  pub waiting : ℕ
  pub woken : ℕ
  pub arrivals : ℕ
  pub serials : ℕ
  pub releases : ℕ

-- `k_condvar_signal`: `wakes` says how many of the waiting threads it wakes.
abbrev pub signal : (ℕ → ℕ) → System → System
signal wakes s = record s {
  waiting = s.waiting - wakes s.waiting;
  woken = s.woken + wakes s.waiting;
}

-- What a section does to the threads.
abbrev pub settle : (ℕ → ℕ) → Section × Barrier → System → System
settle wakes (serial, b) s = signal wakes (record s { bar = b; serials = s.serials + 1 })
settle wakes (released, b) s = signal wakes (record s { bar = b; releases = s.releases + 1 })
settle wakes (waits, b) s = record s { bar = b; waiting = s.waiting + 1 }

pub data Event : Type 0 where
  arrive resume : Event

-- A thread that is not blocked calls pthread_barrier_wait, or a woken thread gets the mutex. An
-- event that cannot happen changes nothing.
pub step : (ℕ → ℕ) → ℕ → System → Event → System
step wakes threads s arrive =
    if ltb (s.waiting + s.woken) threads
    then settle wakes (wait_arrive s.bar) (record s { arrivals = s.arrivals + 1 })
    else s
step wakes threads s resume =
    if s.woken == 0 then s else settle wakes (wait_resume s.bar) (record s { woken = s.woken - 1 })

pub run : (ℕ → ℕ) → ℕ → System → List Event → System
run wakes threads s [] = s
run wakes threads s (e ∷ es) = run wakes threads (step wakes threads s e) es

-- A barrier that has just been made.
pub fresh : ℕ → System
fresh max = record {
  bar = record { max = max; count = 0 };
  waiting = 0;
  woken = 0;
  arrivals = 0;
  serials = 0;
  releases = 0;
}
