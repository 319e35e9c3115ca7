-- ===== src/Timer/Notifying.antt =====
-- When a timer of lib/posix/options/timers/timer.c calls the function of the application.
use posix_next.Base.{
  ◌%◌, ap, ◌∙◌, ℕ, zero, suc, ◌+◌, ◌<◌, ◌≡◌, min, arith, Bool, true, false, ◌||◌, not, Bool-cases,
  inl, inr, ◌==◌, List, [], ◌∷◌, if◌then◌else◌, refl,
}
use posix_next.Timer.{
  first_duration, zephyr_timer_interrupt, Timespec, Itimerspec, Timer, threaded, Phase, starting,
  waiting, ended, new_timer, is_zero_time, ts_to_ms, zero_time, timer_gettime, timer_settime,
  from_ms, expire, thread_starts, thread_wakes, timer_delete,
}

-- What happens to a timer after it was created.
pub data Event : Type 0 where
  settime : Bool → ℕ → Itimerspec → Event
  expires starts wakes deletes : Event

module _ (valid : Timespec → Bool) where
  unfoldable pub step : Event → Timer → Timer
  unfolding timer_settime expire thread_starts thread_wakes timer_delete
  step (settime absolute remaining new) t = (timer_settime valid false absolute remaining new t).1
  step expires t = expire t
  step starts t = thread_starts t
  step wakes t = thread_wakes t
  step deletes t = timer_delete t

  unfoldable pub run : List Event → Timer → Timer
  unfolding step
  run [] t = t
  run (e ∷ es) t = run es (step e t)

  -- Nothing is left that calls the function.
  abbrev Silent : Timer → Type 0
  Silent t = (t.notify ≡ threaded) × (t.phase ≡ ended)

  Silent-settime :
      (absolute : Bool) (remaining : ℕ) (new : Itimerspec) (t : Timer)
      → Silent t
      → Silent (step (settime absolute remaining new) t)
        × ((step (settime absolute remaining new) t).calls ≡ t.calls)
  unfolding step timer_settime
  Silent-settime absolute remaining new t h =
      elim (Bool-cases (not (valid new.interval) || not (valid new.value))) [
        | inl refused ↦ rw (step, timer_settime, refused) (h, refl)
        | inr accepted ↦
            rw (step, timer_settime, accepted)
              (elim (Bool-cases (is_zero_time new.value)) [
                | inl disarms ↦ rw disarms (elim (Bool-cases t.active) [
                  | inl on ↦ rw on (h, refl)
                  | inr off ↦ rw off (h, refl)
                ])
                | inr arms ↦ rw arms (elim (Bool-cases t.active) [
                  | inl on ↦ rw on (h, refl)
                  | inr off ↦ rw off (h, refl)
                ])
              ])
      ]

  Silent-step :
      (e : Event) (t : Timer) → Silent t → Silent (step e t) × ((step e t).calls ≡ t.calls)
  unfolding step expire thread_starts thread_wakes timer_delete timer_settime zephyr_timer_interrupt
  Silent-step (settime absolute remaining new) t h = Silent-settime absolute remaining new t h
  Silent-step expires t h = elim (Bool-cases t.running) [
    | inl on ↦ rw (expire, on, h.0) ((h.0, h.1), refl)
    | inr off ↦ rw (expire, off) (h, refl)
  ]
  Silent-step starts t h = rw (thread_starts, h.1) (h, refl)
  Silent-step wakes t h = rw (thread_wakes, h.1) (h, refl)
  Silent-step deletes t h = elim (Bool-cases t.active) [
    | inl on ↦ rw (timer_delete, h.0, on) ((h.0, refl), refl)
    | inr off ↦ rw (timer_delete, h.0, off) ((h.0, refl), refl)
  ]

  Silent-run : (es : List Event) (t : Timer) → Silent t → (run es t).calls ≡ t.calls
  unfolding run
  Silent-run [] t h = refl
  Silent-run (e ∷ es) t h =
      let (still, same) = Silent-step e t h in Silent-run es (step e t) still ∙ same

  -- A timer with a thread and a function.
  abbrev armed : ℕ → Timespec → ℕ → Bool → ℕ → Phase → ℕ → Timer
  armed due interval reload on sem phase calls = record {
    notify = threaded;
    has_function = true;
    interval = interval;
    reload = reload;
    active = on;
    sem_cond = sem;
    running = on;
    due = due;
    period = reload;
    phase = phase;
    calls = calls;
  }

  settime-armed :
      (absolute : Bool) (remaining : ℕ) (new : Itimerspec) (phase : Phase)
      → valid new.interval ≡ true
      → valid new.value ≡ true
      → is_zero_time new.value ≡ false
      → step (settime absolute remaining new) (armed 0 zero_time 0 false 0 phase 0)
        ≡ armed
            (first_duration absolute remaining new.value)
            new.interval
            (ts_to_ms new.interval)
            true
            0
            phase
            0
  unfolding step timer_settime
  settime-armed absolute remaining new phase vi vv arms =
      rw (step, timer_settime, vi, vv, arms) refl

  -- A timer with a thread that is armed for one time before its thread has run: the thread, when it
  -- starts, takes the timer for a disarmed one; it ends at the expiry without a call, and whatever
  -- follows the function is never called.
  pub notification_lost :
      (absolute : Bool) (remaining : ℕ) (new : Itimerspec) (es : List Event)
      → valid new.interval ≡ true
      → valid new.value ≡ true
      → is_zero_time new.value ≡ false
      → ts_to_ms new.interval ≡ 0
      → (run
          (settime absolute remaining new ∷ starts ∷ expires ∷ wakes ∷ es)
          (new_timer threaded true)).calls
        ≡ 0
  unfolding run step timer_settime expire thread_starts thread_wakes zephyr_timer_interrupt
  notification_lost absolute remaining new es vi vv arms once =
      ap (λ t. (run (starts ∷ expires ∷ wakes ∷ es) t).calls)
        (settime-armed absolute remaining new starting vi vv arms)
      ∙ ap
          (λ r.
            (run (starts ∷ expires ∷ wakes ∷ es) (
              armed (first_duration absolute remaining new.value) new.interval r true 0 starting
                0)).calls)
          once
      ∙ Silent-run es
          (thread_wakes (
            expire (
              thread_starts (
                armed (first_duration absolute remaining new.value) new.interval 0 true 0 starting
                  0))))
          (refl, refl)

  -- The rounds of a timer with a thread: it expires, and the thread goes on.
  unfoldable pub rounds : ℕ → Timer → Timer
  rounds zero t = t
  rounds (suc n) t = rounds n (thread_wakes (expire t))

  round :
      (due : ℕ) (interval : Timespec) (reload calls : ℕ)
      → thread_wakes (expire (armed due interval reload true 0 waiting calls))
        ≡ armed due interval reload (not (reload == 0)) 0 waiting (calls + 1)
  unfolding expire thread_wakes zephyr_timer_interrupt
  round due interval reload calls = elim (Bool-cases (reload == 0)) [
    | inl once ↦ rw (once) refl
    | inr periodic ↦ rw (periodic) refl
  ]

  rounds-disarmed :
      (n : ℕ) (due : ℕ) (interval : Timespec) (reload calls : ℕ)
      → (rounds n (armed due interval reload false 0 waiting calls)).calls ≡ calls
  unfolding rounds expire thread_wakes
  rounds-disarmed zero due interval reload calls = refl
  rounds-disarmed (suc n) due interval reload calls = rounds-disarmed n due interval reload calls

  rounds-armed :
      (n : ℕ) (due : ℕ) (interval : Timespec) (reload calls : ℕ)
      → (rounds n (armed due interval reload true 0 waiting calls)).calls
        ≡ calls + (if reload == 0 then min n 1 else n)
  unfolding rounds
  rounds-armed zero due interval reload calls = ground arith
  rounds-armed (suc n) due interval reload calls =
      ap (λ t. (rounds n t).calls) (round due interval reload calls)
      ∙ elim (Bool-cases (reload == 0)) [
        | inl once ↦ rw (once, rounds-disarmed n due interval reload (calls + 1)) (omega arith)
        | inr periodic ↦
            rw (periodic, rounds-armed n due interval reload (calls + 1), periodic) (omega arith)
      ]

  -- A timer with a thread that is armed when its thread waits, and expiries after each of which the
  -- thread gets its turn before the next one: the function is called once at each, and for a timer
  -- without an interval at the first one only.
  pub rounds-calls :
      (absolute : Bool) (remaining : ℕ) (new : Itimerspec) (n : ℕ)
      → valid new.interval ≡ true
      → valid new.value ≡ true
      → is_zero_time new.value ≡ false
      → (rounds n
          (run (starts ∷ settime absolute remaining new ∷ []) (new_timer threaded true))).calls
        ≡ (if ts_to_ms new.interval == 0 then min n 1 else n)
  unfolding run thread_starts
  rounds-calls absolute remaining new n vi vv arms =
      ap (λ t. (rounds n t).calls) (settime-armed absolute remaining new waiting vi vv arms)
      ∙ rounds-armed n (first_duration absolute remaining new.value) new.interval
          (ts_to_ms new.interval) 0
      ∙ omega arith

  -- What timer_gettime reports of an armed timer with so many milliseconds left: the interval that
  -- timer_settime was given, and a value that has the milliseconds, with nanoseconds in their range.
  pub gettime-settime :
      (absolute : Bool) (remaining : ℕ) (new : Itimerspec) (t : Timer)
      → valid new.interval ≡ true
      → valid new.value ≡ true
      → is_zero_time new.value ≡ false
      → let now = timer_gettime remaining (step (settime absolute remaining new) t) in
        (now.interval ≡ new.interval)
        × (now.value ≡ from_ms remaining)
        × (ts_to_ms (from_ms remaining) ≡ remaining % 4294967296)
        × (now.value.nsec < 1000000000)
  unfolding step timer_settime timer_gettime
  gettime-settime absolute remaining new t vi vv arms =
      rw (step, timer_settime, vi, vv, arms)
        (refl, refl, ap (λ n. n % 4294967296) (omega arith), omega arith)
