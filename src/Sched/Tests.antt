-- ===== src/Sched/Tests.antt =====
-- The theorems on scheduling at a concrete configuration: 16 cooperative priorities and 15
-- preemptive ones.
use posix_next.Base.{◌≡◌, refl, true, false, some, ok, pos, negsuc}
use posix_next.Sched.{
  Config, rr, other, pthread_setschedparam, pthread_getschedparam, is_posix_policy_prio_valid,
  posix_sched_priority_max,
}
use posix_next.Sched.Attr.{Attr, zeros}
use posix_next.Sched.Order.{getschedparam-setschedparam}

abbrev board : Config
board = record { coop = true; preempt = true; num_coop = 16; num_preempt = 15; highest = negsuc 15 }

abbrev explicit_rr : Attr
explicit_rr = record zeros { schedpolicy = rr; inherit = false; initialized = true }

getschedparam-setschedparam_example :
    let (r, after) = pthread_setschedparam board other (some (pos 14)) (negsuc 3) in
    (r ≡ ok tt) × (pthread_getschedparam board after ≡ (pos 14, rr))
unfolding is_posix_policy_prio_valid posix_sched_priority_max
getschedparam-setschedparam_example =
    getschedparam-setschedparam board (pos 14) other (negsuc 3) refl refl
