-- ===== src/Rwlock/Tests.antt =====
-- The theorems on lib/posix/options/rw_locks/rwlock.c at concrete locks.
use posix_next.Base.{◌≡◌, ◌+◌, refl, arith, some, List, [], ◌∷◌}
use posix_next.Kernel.{forever, ms}
use posix_next.Kernel.Counting.{counting}
use posix_next.Rwlock.{
  done, read_lock_acquire, write_lock_acquire, unlock, unlock_read, unlock_last,
}
use posix_next.Rwlock.Refine.{unlock_refines, write_lock_acquire_refines}
use posix_next.Rwlock.Spec.{
  go_on, read, free, reading, writing, represent, represented, write, release,
}
use posix_next.Rwlock.Race.{
  Call, reads, writes, goes_on, leaves, run, spec_run, spec_step, run_refines,
  reader_writer_overlap,
}

-- Two readers, a writer that waits for them, and a reader that the writer keeps out.
abbrev two_readers_and_writer : List Call
two_readers_and_writer =
    reads forever
    ∷ reads (ms 5)
    ∷ writes forever 0 7
    ∷ reads (ms 0)
    ∷ leaves 1
    ∷ leaves 2
    ∷ goes_on forever 7
    ∷ leaves 7
    ∷ []

run_refines_example :
    run counting 4 (represent 4 free) two_readers_and_writer ≡ spec_run free two_readers_and_writer
unfolding spec_step read write go_on release
run_refines_example = run_refines counting 4 free two_readers_and_writer (
  omega arith,
  (
    omega arith,
    (tt, (omega arith, ((tt, omega arith), ((tt, omega arith), (tt, ((refl, omega arith), tt)))))),
  ),
)

reader_writer_overlap_example :
    let (last, left) = unlock_read counting 4 (represent 4 (reading 0)) in
    let (r, entered) = read_lock_acquire counting 4 forever left in
    let (s, owned) =
      write_lock_acquire counting 4 (ms 3) 1 7 (unlock_last counting 4 last entered) in
    (r ≡ done) × (s ≡ done) × (owned.owner ≡ some 7) × (owned.rd + 1 ≡ 4)
reader_writer_overlap_example = reader_writer_overlap counting 4 forever (ms 3) 1 7 (omega arith)

unlock_refines_example :
    unlock counting 4 7 (represent 4 (writing 7)) ≡ represent 4 (release (writing 7))
unlock_refines_example = unlock_refines counting 4 7 (writing 7) refl (omega arith)

write_lock_acquire_refines_example :
    write_lock_acquire counting 4 (ms 20) 5 7 (represent 4 (reading 1))
    ≡ represented 4 (write (ms 20) 7 (reading 1))
write_lock_acquire_refines_example = write_lock_acquire_refines counting 4 (ms 20) 5 7 (reading 1)
