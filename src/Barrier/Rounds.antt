-- ===== src/Barrier/Rounds.antt =====
-- The rounds of a barrier of lib/posix/options/barriers/barrier.c.
use native.Mathlib.Nat.{mul-add-div_right, div-eq_of_lt}
use posix_next.Base.{
  refl, ◌==◌, zero, ◌∙◌, suc, ap, inl, inr, ℕ_discrete, sym, ◌⊎◌, Bool-cases, [], ◌∷◌, ◌+◌, ◌-◌,
  ◌*◌, ◌/◌, ◌^◌, ◌≡◌, arith, ℕ, ◌≤◌, ◌<◌,
}
use posix_next.Barrier.{
  ltb, serial, waits, signal, Barrier, ◌∷◌, List, System, Event, arrive, resume, step, run, fresh,
  wait_arrive, wait_resume,
}

-- The calls made so far fill `serials` rounds and `count` places of the next; a thread is blocked
-- or has returned; those of the round in progress are blocked.
pub record IsValid (max : ℕ) (s : System) : Type 0 where
  pub size : s.bar.max ≡ max
  pub room : s.bar.count < max
  pub rounds : s.arrivals ≡ s.serials * max + s.bar.count
  pub threads : s.arrivals ≡ s.waiting + s.woken + s.serials + s.releases
  pub held : s.bar.count ≤ s.waiting + s.woken

-- A signal wakes no more threads than wait.
abbrev pub WakesWaiting : (ℕ → ℕ) → Type 0
WakesWaiting wakes = (w : ℕ) → wakes w ≤ w

signal-IsValid :
    (wakes : ℕ → ℕ) (max : ℕ) (s : System)
    → WakesWaiting wakes
    → IsValid max s
    → IsValid max (signal wakes s)
signal-IsValid wakes max s c v = omega (arith, c s.waiting)

-- The two ways in which an arrival ends while the count stays below the limit.
arrive_cases :
    (b : Barrier)
    → b.max < 2 ^ 32
    → b.count < b.max
    → ((wait_arrive b ≡ (serial, record b { count = 0 })) × (b.count + 1 ≡ b.max))
      ⊎ ((wait_arrive b ≡ (waits, record b { count = b.count + 1 })) × (b.count + 1 < b.max))
unfolding wait_arrive
arrive_cases b h r = elim (ℕ_discrete (b.count + 1) b.max) [
  | yes full ↦ inl (ground arith, full)
  | no open' ↦ inr (ground arith, omega arith)
]

arrive-IsValid :
    (wakes : ℕ → ℕ) (n max : ℕ) (s : System)
    → WakesWaiting wakes
    → max < 2 ^ 32
    → IsValid max s
    → IsValid max (step wakes n s arrive)
unfolding step
arrive-IsValid wakes n max s c h v = elim (Bool-cases (ltb (s.waiting + s.woken) n)) [
  | inr none_free ↦ rw none_free v
  | inl free ↦ elim (arrive_cases s.bar (omega arith) (omega arith)) [
    | inl (e, full) ↦
        rw (free, e)
          (signal-IsValid wakes max
            (record s {
              bar = record { max = s.bar.max; count = 0 };
              arrivals = s.arrivals + 1;
              serials = s.serials + 1;
            })
            c (omega arith))
    | inr (e, open') ↦ rw (free, e) (omega arith)
  ]
]

resume-IsValid :
    (wakes : ℕ → ℕ) (n max : ℕ) (s : System)
    → WakesWaiting wakes
    → IsValid max s
    → IsValid max (step wakes n s resume)
unfolding step wait_resume
resume-IsValid wakes n max s c v = elim (Bool-cases (s.woken == 0)) [
  | inl asleep ↦ rw asleep v
  | inr awake ↦ elim (Bool-cases (s.bar.count == 0)) [
    | inl zero' ↦
        rw (awake, zero')
          (signal-IsValid wakes max (record s { woken = s.woken - 1; releases = s.releases + 1 }) c
            (ground arith))
    | inr more ↦ rw (awake, more) (ground arith)
  ]
]

pub step-IsValid :
    (wakes : ℕ → ℕ) (n max : ℕ) (s : System) (e : Event)
    → WakesWaiting wakes
    → max < 2 ^ 32
    → IsValid max s
    → IsValid max (step wakes n s e)
step-IsValid wakes n max s arrive c h v = arrive-IsValid wakes n max s c h v
step-IsValid wakes n max s resume c h v = resume-IsValid wakes n max s c v

-- Whatever the threads do, the barrier keeps its invariant.
pub run-IsValid :
    (wakes : ℕ → ℕ) (n max : ℕ) (s : System) (es : List Event)
    → WakesWaiting wakes
    → max < 2 ^ 32
    → IsValid max s
    → IsValid max (run wakes n s es)
unfolding run
run-IsValid wakes n max s [] c h v = v
run-IsValid wakes n max s (e ∷ es) c h v =
    run-IsValid wakes n max (step wakes n s e) es c h (step-IsValid wakes n max s e c h v)

fresh-IsValid : (max : ℕ) → 0 < max → IsValid max (fresh max)
unfolding fresh
fresh-IsValid max h = omega arith

div_round : (m q r : ℕ) → 0 < m → r < m → (q * m + r) / m ≡ q
div_round m q r p h = omega (arith, mul-add-div_right p q r, div-eq_of_lt h)

mul_pred : (a m : ℕ) → 0 < m → a * (m - 1) + a ≡ a * m
mul_pred a zero h = absurd (omega arith)
mul_pred a (suc m) h = let e : suc m - 1 ≡ m = omega arith in rw e (omega arith)

-- What a step does to the calls that have returned without being the serial one: it adds none, or
-- one, and then every call that has arrived belongs to a round that is complete.
abbrev pub Releases : ℕ → System → System → Type 0
Releases max s t =
    (t.releases ≡ s.releases) ⊎ ((t.releases ≡ s.releases + 1) × (s.arrivals ≡ s.serials * max))

arrive-Releases :
    (wakes : ℕ → ℕ) (n max : ℕ) (s : System)
    → max < 2 ^ 32
    → IsValid max s
    → Releases max s (step wakes n s arrive)
unfolding step
arrive-Releases wakes n max s h v = elim (Bool-cases (ltb (s.waiting + s.woken) n)) [
  | inr none_free ↦ rw none_free (inl refl)
  | inl free ↦ elim (arrive_cases s.bar (omega (arith, v.size)) (omega (arith, v.size, v.room))) [
    | inl (e, full) ↦ rw (free, e) (inl refl)
    | inr (e, open') ↦ rw (free, e) (inl refl)
  ]
]

resume-Releases :
    (wakes : ℕ → ℕ) (n max : ℕ) (s : System)
    → IsValid max s
    → Releases max s (step wakes n s resume)
unfolding step wait_resume
resume-Releases wakes n max s v = elim (Bool-cases (s.woken == 0)) [
  | inl asleep ↦ rw asleep (inl refl)
  | inr awake ↦ elim (Bool-cases (s.bar.count == 0)) [
    | inl zero' ↦
        let all_complete : s.arrivals ≡ s.serials * max = ground (arith, zero', v.rounds) in
        rw (awake, zero') (inr (refl, all_complete))
    | inr more ↦ rw (awake, more) (inl refl)
  ]
]

step-Releases :
    (wakes : ℕ → ℕ) (n max : ℕ) (s : System) (e : Event)
    → max < 2 ^ 32
    → IsValid max s
    → Releases max s (step wakes n s e)
step-Releases wakes n max s arrive h v = arrive-Releases wakes n max s h v
step-Releases wakes n max s resume h v = resume-Releases wakes n max s v

-- In any run of any number of threads on a new barrier for max threads, 0 < max < 2 ^ 32, where a
-- signal wakes no more threads than wait: the calls that have returned as the serial thread are as
-- many as the arrivals divided by max, at most max - 1 other calls have returned for each of them,
-- and such a call returns next only if all calls that have arrived, its own among them, fill
-- complete rounds, each with its serial thread.
pub no_early_release :
    (wakes : ℕ → ℕ) (n max : ℕ) (es : List Event) (e : Event)
    → WakesWaiting wakes
    → 0 < max
    → max < 2 ^ 32
    → let s = run wakes n (fresh max) es in
      (s.serials ≡ s.arrivals / max)
      × (s.releases ≤ s.serials * (max - 1))
      × Releases max s (step wakes n s e)
no_early_release wakes n max es e c p h =
    let s = run wakes n (fresh max) es in
    let v = run-IsValid wakes n max (fresh max) es c h (fresh-IsValid max p) in
    (
      sym (ap (λ a. a / max) v.rounds ∙ div_round max s.serials _ p v.room),
      omega (arith, v.rounds, v.threads, v.held, mul_pred s.serials max p),
      step-Releases wakes n max s e h v,
    )
