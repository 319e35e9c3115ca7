-- ===== src/Rwlock/Race.antt =====
-- Calls on a lock of lib/posix/options/rw_locks/rwlock.c one after another, and two that overlap.
use posix_next.Base.{true, ◌==◌, arith, ◌-◌, ◌≤◌, ◌∙◌, ap, [], ◌∷◌, ◌+◌, List, some, ◌<◌, ◌≡◌}
use posix_next.Base.{refl, ap, [], ◌∷◌}
use posix_next.Rwlock.{
  remaining, ℕ, Timeout, SemOps, Rwlock, Ret, done, read_lock_acquire, write_lock_acquire,
  write_lock_drain, unlock, unlock_read, unlock_last,
}
use posix_next.Rwlock.Refine.{
  HasWaitingWriter, Holds, read_lock_acquire_refines, write_lock_acquire_refines,
  write_lock_drain_refines, unlock_refines, enters, takes_write, drained, give_one, try_take_zero,
}
use posix_next.Rwlock.Spec.{
  Lock, reading, readers, read, write, go_on, release, represent, represented,
}

-- A call that runs to its end or to its wait; `goes_on` is a writer that has waited for readers.
pub data Call : Type 0 where
  reads : Timeout → Call
  writes : Timeout → ℕ → ℕ → Call
  goes_on : Timeout → ℕ → Call
  leaves : ℕ → Call

unfoldable pub spec_step : Lock → Call → Ret × Lock
spec_step l (reads t) = read t l
spec_step l (writes t elapsed self) = write t self l
spec_step l (goes_on t self) = go_on t self l
spec_step l (leaves self) = (done, release l)

-- What the callers must keep: there is room for one more reader, and only holders unlock.
abbrev pub Permitted : ℕ → Lock → Call → Type 0
Permitted limit l (reads t) = readers l < limit
Permitted limit l (writes t elapsed self) = Unit {0}
Permitted limit l (goes_on t self) = HasWaitingWriter l
Permitted limit l (leaves self) = Holds self l × (readers l ≤ limit)

abbrev pub AllPermitted : ℕ → Lock → List Call → Type 0
AllPermitted limit l [] = Unit {0}
AllPermitted limit l (c ∷ cs) = Permitted limit l c × AllPermitted limit (spec_step l c).1 cs

pub spec_run : Lock → List Call → List Ret
spec_run l [] = []
spec_run l (c ∷ cs) = let (r, l') = spec_step l c in r ∷ spec_run l' cs

module _ (sem : SemOps) (limit : ℕ) where
  pub step : Rwlock → Call → Ret × Rwlock
  step l (reads t) = read_lock_acquire sem limit t l
  step l (writes t elapsed self) = write_lock_acquire sem limit t elapsed self l
  step l (goes_on t self) = write_lock_drain sem limit t self l
  step l (leaves self) = (done, unlock sem limit self l)

  pub run : Rwlock → List Call → List Ret
  run l [] = []
  run l (c ∷ cs) = let (r, l') = step l c in r ∷ run l' cs

  step_refines :
      (l : Lock) (c : Call)
      → Permitted limit l c
      → step (represent limit l) c ≡ represented limit (spec_step l c)
  unfolding step spec_step
  step_refines l (reads t) p = read_lock_acquire_refines sem limit t l p
  step_refines l (writes t elapsed self) p = write_lock_acquire_refines sem limit t elapsed self l
  step_refines l (goes_on t self) p = write_lock_drain_refines sem limit t self l p
  step_refines l (leaves self) p = ap (λ m. (done, m)) (unlock_refines sem limit self l p.0 p.1)

  -- Calls that do not overlap, made by callers that keep to the reader limit and unlock only what
  -- they hold, return on the semaphores exactly what the abstract lock returns: readers share it,
  -- a writer has it alone, and none enters while a writer waits.
  pub run_refines :
      (l : Lock) (cs : List Call)
      → AllPermitted limit l cs
      → run (represent limit l) cs ≡ spec_run l cs
  unfolding run spec_run
  run_refines l [] p = refl
  run_refines l (c ∷ cs) p =
      ap (λ o. o.0 ∷ run o.1 cs) (step_refines l c p.0)
      ∙ ap (λ rs. (spec_step l c).0 ∷ rs) (run_refines (spec_step l c).1 cs p.1)

  -- The last reader is in pthread_rwlock_unlock, between its test of the reader count and its give
  -- of reader_active, when another reader gets the lock: then a writer gets it too, with whatever
  -- timeout, while that reader still holds it.
  pub reader_writer_overlap :
      (t u : Timeout) (elapsed w : ℕ)
      → 0 < limit
      → let (last, left) = unlock_read sem limit (represent limit (reading 0)) in
        let (r, entered) = read_lock_acquire sem limit t left in
        let (s, owned) =
          write_lock_acquire sem limit u elapsed w (unlock_last sem limit last entered) in
        (r ≡ done) × (s ≡ done) × (owned.owner ≡ some w) × (owned.rd + 1 ≡ limit)
  unfolding unlock_read unlock_last
  reader_writer_overlap t u elapsed w h =
      rw
        (
          last_gives,
          same limit,
          enters sem limit t limit (limit - 1) 0 (omega arith),
          try_take_zero sem limit,
          give_one sem limit,
          takes_write sem limit u elapsed w (limit - 1) 1,
          drained sem limit (remaining sem limit u elapsed) w (limit - 1),
        )
        (refl, refl, refl, omega arith)
    where
      last_gives : sem.give limit (limit - 1) ≡ limit
      last_gives = sem.give_below limit (limit - 1) (omega arith) ∙ omega arith

      same : (n : ℕ) → (n == n) ≡ true
      same n = ground arith
