-- ===== src/Semaphore/Tests.antt =====
-- The theorems on lib/posix/options/semaphores/semaphore.c at concrete semaphores.
use posix_next.Base.{
  ◌≤◌, ◌≤◌, ◌≡◌, ◌<◌, ◌+◌, ◌⊎◌, refl, arith, true, false, none, some, List, [], ◌∷◌, CString,
}
use posix_next.Kernel.{in_ms}
use posix_next.Kernel.Counting.{counting}
use posix_next.Semaphore.Counting.{times, step, expected, step-expected}
use posix_next.Semaphore.Named.{int_max, int_max, nsem_find, Nsem, Config, Flags, object_at}
use posix_next.Semaphore.Named.{nsem_find, sem_open, sem_close, sem_unlink}
use posix_next.Semaphore.Named.World.{opens, closes, unlinks, count, linked}
use posix_next.Semaphore.Named.World as World
use posix_next.Semaphore.Named.Lifetime as Lifetime
use posix_next.Semaphore.Named.Lifetime.{lifetime, start}

step-expected_example :
    step counting 9 4 (times (in_ms 5)) ≡ expected counting 9 4 (times (in_ms 5))
step-expected_example = step-expected counting 9 4 (times (in_ms 5)) (omega arith)

abbrev limits : Config
limits = record { value_max = 9; namelen_max = 16 }

abbrev creating : Flags
creating = record { creat = true; excl = false }

abbrev name_a : CString
name_a = 97 ∷ []

-- Opened twice at the address 1, unlinked, and closed once.
abbrev shared_use : List World.Call
shared_use =
    opens (some name_a) creating 2 (some 1) true
    ∷ opens (some name_a) creating 2 (some 5) true
    ∷ unlinks (some name_a)
    ∷ closes 1
    ∷ []

lifetime_example :
    let w = Lifetime.run limits start shared_use in
    ((object_at 1 w.objects ≡ none) × (count 1 w.handles ≡ 0))
    ⊎ ((o : Nsem) × (object_at 1 w.objects ≡ some o)
        × (o.ref_count ≡ count 1 w.handles + linked o.name)
        × (0 < o.ref_count)
        × (o.ref_count ≤ int_max))
unfolding start World.step sem_open sem_close sem_unlink object_at nsem_find
lifetime_example = lifetime limits shared_use 1 (refl, (refl, (tt, (omega arith, tt))))
