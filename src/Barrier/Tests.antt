-- ===== src/Barrier/Tests.antt =====
-- The theorems on lib/posix/options/barriers/barrier.c at concrete barriers.
use posix_next.Base.{ℕ, zero, suc, ◌≡◌, ◌≤◌, ◌*◌, ◌/◌, ◌-◌, refl, arith, List, [], ◌∷◌}
use posix_next.Barrier.{step, Event, arrive, resume, run, fresh}
use posix_next.Barrier.Rounds.{Releases, WakesWaiting, no_early_release}
use posix_next.Barrier.Reuse.{WakesOne, reuse, reuse_deadlock}

-- A signal that wakes one thread where there is one.
abbrev wake_one : ℕ → ℕ
wake_one zero = 0
wake_one (suc w) = 1

wake_one-WakesWaiting : WakesWaiting wake_one
wake_one-WakesWaiting zero = omega arith
wake_one-WakesWaiting (suc w) = omega arith

wake_one-WakesOne : WakesOne wake_one
wake_one-WakesOne zero h = absurd (omega arith)
wake_one-WakesOne (suc w) h = refl

abbrev two_rounds : List Event
two_rounds = arrive ∷ arrive ∷ resume ∷ arrive ∷ arrive ∷ resume ∷ []

-- A complete round, after which the thread that waits is to resume.
abbrev one_round : List Event
one_round = arrive ∷ arrive ∷ []

no_early_release_example :
    let s = run wake_one 2 (fresh 2) one_round in
    (s.serials ≡ s.arrivals / 2)
    × (s.releases ≤ s.serials * (2 - 1))
    × Releases 2 s (step wake_one 2 s resume)
no_early_release_example =
    no_early_release wake_one 2 2 one_round resume wake_one-WakesWaiting (omega arith) (omega arith)

reuse_deadlock_example :
    let s = run wake_one 2 (fresh 2) (reuse 2) in
    (run wake_one 2 s two_rounds ≡ s) × (s.waiting ≡ 2) × (s.serials ≡ 1) × (s.releases ≡ 0)
reuse_deadlock_example =
    reuse_deadlock wake_one 2 two_rounds wake_one-WakesOne (omega arith) (omega arith)
