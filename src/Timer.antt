-- ===== src/Timer.antt =====
-- Timers, lib/posix/options/timers/timer.c. The kernel's timer is known by whether it runs and by
-- its first and its further periods: one that runs expires, and stops then if the further period is 0. The thread of a timer with
-- SIGEV_THREAD is cut where it waits for its semaphore. What the kernel returns
-- (k_timer_remaining_get, and timespec_is_valid of a value) is an argument; so are the results of
-- the calls that timer_create makes. `calls` counts the calls of the function of the application.
pub mod Notifying
mod Tests
use posix_next.Base.{
  leb_int, minus, negsuc, ℕ, zero, suc, ◌+◌, ◌-◌, ◌*◌, ◌/◌, ◌%◌, min, Bool, true, false, ◌&&◌, ◌||◌,
  not, ◌==◌, leb, Option, none, some, if◌then◌else◌, Errno, einval, enomem, Result, ok, err, ℤ, pos,
  add_int, times, unsigned,
}

-- The second is a time_t, and the nanoseconds of a valid value are not negative.
pub record Timespec : Type 0 where
  pub sec : ℤ
  pub nsec : ℕ

pub record Itimerspec : Type 0 where
  pub interval : Timespec
  pub value : Timespec

-- SIGEV_NONE, SIGEV_SIGNAL, SIGEV_THREAD, and any other int.
pub data Notify : Type 0 where
  no_notify signalled threaded other_notify : Notify

-- Where the thread of the timer is: before its loop, at the semaphore, or at its end. A timer
-- without one is at its end.
pub data Phase : Type 0 where
  starting waiting ended : Phase

-- `struct timer_obj`
pub record Timer : Type 0 where
  pub notify : Notify
  pub has_function : Bool
  pub interval : Timespec
  pub reload : ℕ
  pub active : Bool
  pub sem_cond : ℕ
  pub running : Bool
  pub due : ℕ
  pub period : ℕ
  pub phase : Phase
  pub calls : ℕ

abbrev pub zero_time : Timespec
zero_time = record { sec = pos 0; nsec = 0 }

-- An int64_t that goes to a uint32_t.
abbrev pub ts_to_ms : Timespec → ℕ
ts_to_ms t = unsigned (add_int (times t.sec 1000) (pos (t.nsec / 1000000)))

abbrev is_zero : ℤ → Bool
is_zero (pos n) = n == 0
is_zero (negsuc n) = false

abbrev pub is_zero_time : Timespec → Bool
is_zero_time t = is_zero t.sec && t.nsec == 0

abbrev pub new_timer : Notify → Bool → Timer
new_timer notify has_function = record {
  notify = notify;
  has_function = has_function;
  interval = zero_time;
  reload = 0;
  active = false;
  sem_cond = 0;
  running = false;
  due = 0;
  period = 0;
  phase = elim notify [
    | threaded ↦ starting
    | no_notify ↦ ended
    | signalled ↦ ended
    | other_notify ↦ ended
  ];
  calls = 0;
}

-- `given` says whether `evp` and `timerid` are not NULL, `clock` whether the clock is one of the
-- two; then whether the slab has a block, and how the start of the thread ends. The timer that is
-- created, and whether its block is kept.
unfoldable pub timer_create :
    Bool → Bool → Bool → Result (Unit {0}) → Notify → Bool → Result Timer × Bool
timer_create given clock block started notify has_function =
    if not given || not clock
    then (err einval, false)
    else (if not block then (err enomem, false) else elim notify [
      | no_notify ↦ (ok (new_timer no_notify has_function), true)
      | signalled ↦ (ok (new_timer signalled has_function), true)
      | threaded ↦ elim started [
        | err e ↦ (err e, false)
        | ok u ↦ (ok (new_timer threaded has_function), true)
      ]
      | other_notify ↦ (err einval, false)
    ])

-- What is left, in milliseconds, as a value; `remaining` is not negative.
abbrev pub from_ms : ℕ → Timespec
from_ms remaining = record {
  sec = pos (remaining / 1000);
  nsec = (remaining - remaining / 1000 * 1000) * 1000000;
}

unfoldable pub timer_gettime : ℕ → Timer → Itimerspec
timer_gettime remaining t = record {
  interval = t.interval;
  value = if t.active then from_ms remaining else zero_time;
}

-- k_timer_stop and k_timer_start
abbrev pub stop : Timer → Timer
stop t = record t { running = false }

abbrev pub start : ℕ → ℕ → Timer → Timer
start due period t = record t { running = true; due = due; period = period }

abbrev pub stop_if_active : Timer → Timer
stop_if_active t = if t.active then stop t else t

-- The first period of the timer that timer_settime starts; `absolute` is TIMER_ABSTIME.
unfoldable pub first_duration : Bool → ℕ → Timespec → ℕ
first_duration absolute remaining value =
    if absolute
    then (if leb (ts_to_ms value) remaining then 0 else ts_to_ms value - remaining)
    else ts_to_ms value

-- `old` says whether `ovalue` is not NULL; the result has what it gets.
unfoldable pub timer_settime :
    (Timespec → Bool) → Bool → Bool → ℕ → Itimerspec → Timer → Result (Option Itimerspec) × Timer
unfolding timer_gettime
timer_settime valid old absolute remaining new t =
    if not (valid new.interval) || not (valid new.value) then (err einval, t) else (
      ok (if old then some (timer_gettime remaining t) else none),
      (if is_zero_time new.value
          then record (stop_if_active t) { active = false }
          else start (first_duration absolute remaining new.value) (ts_to_ms new.interval)
              (record (stop_if_active t) {
                reload = ts_to_ms new.interval;
                interval = new.interval;
                active = true;
              })),
    )

-- `limit` is CONFIG_POSIX_DELAYTIMER_MAX, and `status` what k_timer_status_get returns.
unfoldable pub timer_getoverrun : ℕ → ℕ → ℤ
timer_getoverrun limit status =
    let overruns = minus status 1 in if leb_int overruns (pos limit) then overruns else pos limit

-- The thread is woken and cancelled.
unfoldable pub timer_delete : Timer → Timer
timer_delete t =
    let u : Timer = record (stop_if_active t) { active = false } in
    elim t.notify [
      | no_notify ↦ u
      | signalled ↦ u
      | threaded ↦ record u { sem_cond = 1; phase = ended }
      | other_notify ↦ u
    ]

-- `zephyr_timer_wrapper`, in the interrupt of the timer.
unfoldable pub zephyr_timer_wrapper : Timer → Timer
zephyr_timer_wrapper t = record t {
  active = if t.reload == 0 then false else t.active;
  calls = if t.has_function then t.calls + 1 else t.calls;
}

-- `zephyr_timer_interrupt`: the semaphore's limit is 1.
unfoldable pub zephyr_timer_interrupt : Timer → Timer
zephyr_timer_interrupt t = record t { sem_cond = 1 }

-- The kernel's timer runs out.
unfoldable pub expire : Timer → Timer
unfolding zephyr_timer_wrapper zephyr_timer_interrupt
expire t =
    if not t.running
    then t
    else let u : Timer = record t { running = not (t.period == 0) } in
      elim t.notify [
        | no_notify ↦ u
        | signalled ↦ zephyr_timer_wrapper u
        | threaded ↦ zephyr_timer_interrupt u
        | other_notify ↦ u
      ]

-- The top of the loop of zephyr_thread_wrapper, up to its wait.
abbrev pub loop_top : Timer → Timer
loop_top t = record t { active = if t.reload == 0 then false else t.active; phase = waiting }

unfoldable pub thread_starts : Timer → Timer
thread_starts t = elim t.phase [ starting ↦ loop_top t | waiting ↦ t | ended ↦ t ]

-- The thread goes on after its wait, and comes to the next one or to its end.
abbrev pub after_wait : Timer → Timer
after_wait t =
    if not t.active
    then record t { phase = ended }
    else loop_top (record t { calls = if t.has_function then t.calls + 1 else t.calls })

unfoldable pub thread_wakes : Timer → Timer
thread_wakes t = elim t.phase [
  | starting ↦ t
  | waiting ↦ if t.sem_cond == 0 then t else after_wait (record t { sem_cond = t.sem_cond - 1 })
  | ended ↦ t
]
