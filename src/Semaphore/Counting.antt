-- ===== src/Semaphore/Counting.antt =====
-- The unnamed semaphores of lib/posix/options/semaphores/semaphore.c count.
use posix_next.Kernel.{invalid, null}
use posix_next.Base.{
  refl, inr, inl, zero, Bool-cases, etimedout, einval, ok, eagain, [], ◌+◌, suc, leb, ℕ_discrete,
  ◌∷◌, false, none, ◌==◌, ◌≡◌, arith, List, ◌≤◌, if◌then◌else◌,
}
use posix_next.Semaphore.{
  ms, forever, in_ms, Option, if◌then◌else◌, some, ℕ, Deadline, SemOps, Ret, done, fails, blocks,
  sem_destroy, sem_getvalue, sem_init, sem_post, sem_timedwait, sem_trywait, sem_wait,
}

-- A call on a semaphore that exists, and that nobody waits on when it is destroyed.
pub data Call : Type 0 where
  posts waits tries resets : Call
  times : Deadline → Call

module _ (sem : SemOps) (value_max : ℕ) where
  abbrev value_or : ℕ → Option ℕ → ℕ
  value_or c none = c
  value_or c (some d) = d

  pub step : ℕ → Call → Ret × ℕ
  step c posts = let (r, s) = sem_post sem value_max (some c) in (r, value_or c s)
  step c waits = sem_wait sem value_max c
  step c tries = sem_trywait sem value_max c
  step c resets = let (r, s) = sem_destroy sem value_max (some c) false in (r, value_or c s)
  step c (times d) = sem_timedwait sem value_max d c

  pub run : ℕ → List Call → ℕ
  run c [] = c
  run c (e ∷ es) = run (step c e).1 es

  -- What each call returns and leaves: post adds one up to the limit, the three waits take one
  -- where there is one and otherwise fail or block as POSIX says, and an invalid time is refused
  -- whatever the value.
  abbrev pub expected : ℕ → Call → Ret × ℕ
  expected c posts = (done, if c == value_max then c else c + 1)
  expected zero waits = (blocks, 0)
  expected (suc c) waits = (done, c)
  expected zero tries = (fails eagain, 0)
  expected (suc c) tries = (done, c)
  expected c resets = (done, 0)
  expected c (times null) = (fails einval, c)
  expected c (times invalid) = (fails einval, c)
  expected zero (times (in_ms t)) = (fails etimedout, 0)
  expected (suc c) (times (in_ms t)) = (done, c)

  -- Every call on a semaphore whose value is within the limit returns and leaves what `expected`
  -- says: post adds one up to the limit, the waits take one or fail or block as POSIX says.
  pub step-expected : (c : ℕ) (e : Call) → c ≤ value_max → step c e ≡ expected c e
  unfolding step sem_post sem_wait sem_trywait sem_destroy sem_timedwait
  step-expected c posts h = elim (ℕ_discrete c value_max) [
    | yes full ↦ ground (arith, sem.give_full value_max)
    | no room ↦ ground (arith, sem.give_below value_max c)
  ]
  step-expected zero waits h = rw (sem_wait, sem.take_zero_forever)
  step-expected (suc c) waits h = rw (sem_wait, sem.take_suc forever c)
  step-expected zero tries h = rw (sem_trywait, sem.take_zero_ms 0)
  step-expected (suc c) tries h = rw (sem_trywait, sem.take_suc (ms 0) c)
  step-expected c resets h = rw (sem.reset_zero c)
  step-expected zero (times null) h = refl
  step-expected (suc c) (times null) h = refl
  step-expected zero (times invalid) h = refl
  step-expected (suc c) (times invalid) h = refl
  step-expected zero (times (in_ms t)) h = rw (sem_timedwait, sem.take_zero_ms t)
  step-expected (suc c) (times (in_ms t)) h = rw (sem_timedwait, sem.take_suc (ms t) c)

  expected-le : (c : ℕ) (e : Call) → c ≤ value_max → (expected c e).1 ≤ value_max
  expected-le c posts h = ground arith
  expected-le zero waits h = h
  expected-le (suc c) waits h = omega arith
  expected-le zero tries h = h
  expected-le (suc c) tries h = omega arith
  expected-le c resets h = omega arith
  expected-le zero (times null) h = h
  expected-le (suc c) (times null) h = h
  expected-le zero (times invalid) h = h
  expected-le (suc c) (times invalid) h = h
  expected-le zero (times (in_ms t)) h = h
  expected-le (suc c) (times (in_ms t)) h = omega arith

  run-le : (c : ℕ) (es : List Call) → c ≤ value_max → run c es ≤ value_max
  unfolding run
  run-le c [] h = h
  run-le c (e ∷ es) h = run-le (step c e).1 es (rw (step-expected c e h) (expected-le c e h))

  -- sem_init accepts exactly the values up to the limit; from then on, whatever calls follow, the
  -- value that sem_getvalue reports stays within the limit.
  pub getvalue-le :
      (s : Option ℕ) (value : ℕ) (es : List Call)
      → if leb value value_max
        then ((sem_init sem value_max s value ≡ (done, some value))
            × ((c : ℕ) × (sem_getvalue sem value_max (some (run value es)) ≡ ok c)
                × (c ≤ value_max)))
        else (sem_init sem value_max s value ≡ (fails einval, s))
  unfolding sem_init sem_getvalue
  getvalue-le s value es = elim (Bool-cases (leb value value_max)) [
    | inl fits ↦ rw fits (ground arith, (run value es, refl, run-le value es (ground arith)))
    | inr large ↦ rw large (ground arith)
  ]
