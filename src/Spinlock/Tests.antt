-- ===== src/Spinlock/Tests.antt =====
-- The theorem on lib/posix/options/spin_locks/spinlock.c at a concrete history.
use posix_next.Base.{refl, arith, some, List, [], ◌∷◌}
use posix_next.Spinlock.{
  find_spin, spin_init, spin_lock, spin_trylock, spin_lock_common, spin_unlock, set_spin,
}
use posix_next.Spinlock.Exclusion.{
  Call, inits, locks, tries, unlocks, System, IsExclusive, step, run, mutual_exclusion,
}

abbrev no_locks : System
no_locks = record { pool = []; holders = 0 }

-- The lock 3 is made, taken, tried by a second thread, released and taken again.
abbrev two_threads : List Call
two_threads = inits (some 0) 0 (some 3) ∷ locks 3 ∷ tries 3 ∷ unlocks 3 ∷ locks 3 ∷ []

mutual_exclusion_example : IsExclusive 3 (run 3 no_locks two_threads)
unfolding step find_spin spin_init spin_lock spin_trylock spin_lock_common spin_unlock set_spin
mutual_exclusion_example =
    mutual_exclusion 3 no_locks two_threads (refl, omega arith)
      (refl, (tt, (tt, (omega arith, (tt, tt)))))
