-- ===== src/Timer/Tests.antt =====
-- The theorems on lib/posix/options/timers/timer.c at concrete times.
use posix_next.Base.{false, ◌≡◌, refl, Bool, true, ltb, [], ◌∷◌, pos}
use posix_next.Timer.{Timespec, Itimerspec, threaded, new_timer, zero_time}
use posix_next.Timer.Notifying.{
  settime, starts, expires, wakes, run, rounds, notification_lost, rounds-calls,
}

abbrev in_range : Timespec → Bool
in_range t = ltb t.nsec 1000000000

-- In 1.5 s, and once; and then each 2 s.
abbrev once : Itimerspec
once = record { interval = zero_time; value = record { sec = pos 1; nsec = 500000000 } }

abbrev periodic : Itimerspec
periodic = record {
  interval = record { sec = pos 2; nsec = 0 };
  value = record { sec = pos 1; nsec = 500000000 };
}

notification_lost_example :
    (run in_range
      (settime false 0 once
        ∷ starts
        ∷ expires
        ∷ wakes
        ∷ settime false 0 periodic
        ∷ expires
        ∷ wakes
        ∷ [])
      (new_timer threaded true)).calls
    ≡ 0
notification_lost_example =
    notification_lost in_range false 0 once (settime false 0 periodic ∷ expires ∷ wakes ∷ []) refl
      refl refl refl

rounds-calls_example :
    (rounds in_range 3
      (run in_range (starts ∷ settime false 0 periodic ∷ []) (new_timer threaded true))).calls
    ≡ 3
rounds-calls_example = rounds-calls in_range false 0 periodic 3 refl refl refl
