-- ===== src/Barrier/Reuse.antt =====
-- A barrier of lib/posix/options/barriers/barrier.c that its threads use again at once: the loop
-- of pthread_barrier_wait tests the count, which the next round has raised.
use native.Mathlib.Nat.{add-zero}
use posix_next.Base.{zero, ap, suc, true, ◌++◌, ◌∙◌, replicate, refl, ◌-◌, [], ◌^◌, arith, ◌<◌}
use posix_next.Barrier.{
  ltb, [], ◌∷◌, ◌+◌, List, ◌≡◌, ℕ, System, Event, arrive, resume, step, run, fresh, wait_arrive,
  wait_resume, waits, serial,
}

dec_ltb : (a b : ℕ) → a < b → ltb a b ≡ true
dec_ltb a b h = ground arith

-- A signal wakes one of the waiting threads.
abbrev pub WakesOne : (ℕ → ℕ) → Type 0
WakesOne wakes = (w : ℕ) → 0 < w → wakes w ≡ 1

-- A round in which k threads wait already.
abbrev filling : ℕ → ℕ → System
filling max k = record {
  bar = record { max = max; count = k };
  waiting = k;
  woken = 0;
  arrivals = k;
  serials = 0;
  releases = 0;
}

-- All threads of the program wait, in a round that one of them has begun.
abbrev pub stuck : ℕ → System
stuck max = record {
  bar = record { max = max; count = 1 };
  waiting = max;
  woken = 0;
  arrivals = max + 1;
  serials = 1;
  releases = 0;
}

module _ (wakes : ℕ → ℕ) (max k : ℕ) (small : max < 2 ^ 32) where
  wait_arrive-waits :
      k + 1 < max
      → wait_arrive (record { max = max; count = k }) ≡ (waits, record { max = max; count = k + 1 })
  unfolding wait_arrive
  wait_arrive-waits r = ground arith

  wait_arrive-serial :
      k + 1 ≡ max
      → wait_arrive (record { max = max; count = k }) ≡ (serial, record { max = max; count = 0 })
  unfolding wait_arrive
  wait_arrive-serial e = ground arith

  arrive_early : k + 1 < max → step wakes max (filling max k) arrive ≡ filling max (k + 1)
  unfolding step
  arrive_early r = rw (dec_ltb (k + 0) max (omega arith), wait_arrive-waits r)

arrive_all :
    (wakes : ℕ → ℕ) (max k j : ℕ) (rest : List Event)
    → max < 2 ^ 32
    → k + j < max
    → run wakes max (filling max k) (replicate j arrive ++ rest)
      ≡ run wakes max (filling max (k + j)) rest
unfolding run
arrive_all wakes max k zero rest h r = rw add-zero
arrive_all wakes max k (suc j) rest h r =
    ap (λ t. run wakes max t (replicate j arrive ++ rest))
      (arrive_early wakes max k h (omega arith))
    ∙ arrive_all wakes max (k + 1) j rest h (omega arith)
    ∙ (ap (λ m. run wakes max (filling max m) rest) (omega arith))

-- The threads of a program with `max` of them: all but one wait, the last one completes the
-- round, starts the next before a thread that was woken gets the mutex, and then that one runs.
abbrev pub reuse : ℕ → List Event
reuse max = replicate (max - 1) arrive ++ (arrive ∷ arrive ∷ resume ∷ [])

-- After the serial thread has woken one of the others, and after it has come back.
abbrev completed : ℕ → ℕ → System
completed max k = record {
  bar = record { max = max; count = 0 };
  waiting = k - 1;
  woken = 1;
  arrivals = k + 1;
  serials = 1;
  releases = 0;
}

abbrev begun : ℕ → ℕ → System
begun max k = record {
  bar = record { max = max; count = 1 };
  waiting = k - 1 + 1;
  woken = 1;
  arrivals = k + 1 + 1;
  serials = 1;
  releases = 0;
}

module _ (wakes : ℕ → ℕ) (one : WakesOne wakes) (max k : ℕ) (small : max < 2 ^ 32) (e : k + 1 ≡ max)
    (p : 0 < k) where
  complete : step wakes max (filling max k) arrive ≡ completed max k
  unfolding step
  complete = rw (dec_ltb (k + 0) max (omega arith), wait_arrive-serial wakes max k small e, one k p)

  begin : step wakes max (completed max k) arrive ≡ begun max k
  unfolding step
  begin =
      rw (dec_ltb (k - 1 + 1) max (omega arith), wait_arrive-waits wakes max 0 small (omega arith))

  wake : step wakes max (begun max k) resume ≡ stuck max
  unfolding step wait_resume
  wake = ground arith

  reuse_end : run wakes max (filling max k) (arrive ∷ arrive ∷ resume ∷ []) ≡ stuck max
  unfolding run
  reuse_end = rw (complete, begin, wake)

step-stuck : (wakes : ℕ → ℕ) (max : ℕ) (e : Event) → step wakes max (stuck max) e ≡ stuck max
unfolding step
step-stuck wakes max arrive = ground arith
step-stuck wakes max resume = refl

run-stuck : (wakes : ℕ → ℕ) (max : ℕ) (es : List Event) → run wakes max (stuck max) es ≡ stuck max
unfolding run
run-stuck wakes max [] = refl
run-stuck wakes max (e ∷ es) = rw (step-stuck wakes max e) (run-stuck wakes max es)

run-reuse :
    (wakes : ℕ → ℕ) (max : ℕ)
    → WakesOne wakes
    → 1 < max
    → max < 2 ^ 32
    → run wakes max (fresh max) (reuse max) ≡ stuck max
unfolding fresh
run-reuse wakes max c p h =
    arrive_all wakes max 0 (max - 1) (arrive ∷ arrive ∷ resume ∷ []) h (omega arith)
    ∙ reuse_end wakes c max (0 + (max - 1)) h (omega arith) (omega arith)

-- Where a signal wakes one waiting thread: for every barrier of two threads or more, used by just
-- as many threads, there is a run after which all of them wait for ever, although a round was
-- completed: of its threads only the serial one has returned, and whatever follows changes nothing.
pub reuse_deadlock :
    (wakes : ℕ → ℕ) (max : ℕ) (es : List Event)
    → WakesOne wakes
    → 1 < max
    → max < 2 ^ 32
    → let s = run wakes max (fresh max) (reuse max) in
      (run wakes max s es ≡ s) × (s.waiting ≡ max) × (s.serials ≡ 1) × (s.releases ≡ 0)
reuse_deadlock wakes max es c p h =
    rw (run-reuse wakes max c p h) (run-stuck wakes max es, refl, refl, refl)
