-- ===== src/Sched/Attributes.antt =====
-- Histories of the attributes of a thread, lib/posix/options/threads_base/pthread.c and
-- lib/posix/options/thread_priority_scheduling/pthread_sched.c.
use posix_next.Base.{
  both, ℕ, ◌≡◌, arith, Bool, true, false, ◌&&◌, not, Option, none, some, List, [], ◌∷◌, ◌⊎◌, inl,
  inr, Bool-cases, einval, enotsup, Result, ok, err, ℤ, refl,
}
use posix_next.Sched.{Policy, Config, valid_posix_policy, is_posix_policy_prio_valid}
use posix_next.Sched.Attr.{
  Attr, Scope, process, system, no_scope, posix_thread_attr_is_valid, update,
  pthread_attr_setschedparam, pthread_attr_setschedpolicy, pthread_attr_setscope,
  pthread_attr_setinheritsched, pthread_attr_setdetachstate, pthread_attr_destroy,
}

pub data Call : Type 0 where
  schedparam : Option ℤ → Call
  schedpolicy : Policy → Call
  scope : Scope → Call
  inheritsched : Option Bool → Call
  detachstate : Option Bool → Call
  destroy : Call

module _ (cfg : Config) (stack_min : ℕ) where
  unfoldable pub apply : Call → Attr → Result (Unit {0}) × Attr
  apply (schedparam p) attr = pthread_attr_setschedparam cfg stack_min p attr
  apply (schedpolicy p) attr = pthread_attr_setschedpolicy cfg stack_min p attr
  apply (scope s) attr = pthread_attr_setscope cfg stack_min s attr
  apply (inheritsched i) attr = pthread_attr_setinheritsched cfg stack_min i attr
  apply (detachstate d) attr = pthread_attr_setdetachstate cfg stack_min d attr
  apply destroy attr = pthread_attr_destroy cfg stack_min attr

  unfoldable pub run : List Call → Attr → Attr
  unfolding apply
  run [] attr = attr
  run (c ∷ cs) attr = run cs (apply c attr).1

  -- The priority is one of the policy's, unless the attributes are not initialised.
  abbrev pub Schedulable : Attr → Type 0
  Schedulable attr =
      (attr.initialized ≡ false)
      ⊎ ((posix_thread_attr_is_valid stack_min attr ≡ true)
          × (is_posix_policy_prio_valid cfg attr.priority attr.schedpolicy ≡ true))

  -- No call but pthread_attr_setschedpolicy with another policy.
  abbrev pub keeps_policy : Call → Bool
  keeps_policy (schedparam p) = true
  keeps_policy (schedpolicy p) = not (valid_posix_policy p)
  keeps_policy (scope s) = true
  keeps_policy (inheritsched i) = true
  keeps_policy (detachstate d) = true
  keeps_policy destroy = true

  abbrev pub all_keep_policy : List Call → Bool
  all_keep_policy [] = true
  all_keep_policy (c ∷ cs) = keeps_policy c && all_keep_policy cs

  Schedulable-update :
      (allowed : Bool) (old new : Attr)
      → Schedulable old
      → (allowed ≡ true → Schedulable new)
      → Schedulable (update allowed old new).1
  Schedulable-update true old new h k = k refl
  Schedulable-update false old new h k = h

  is_both : (p : Policy) → valid_posix_policy p ≡ true → not (valid_posix_policy p) ≡ true → ⊥
  is_both p h k = ground (arith, h, k)

  Schedulable-scope :
      (s : Scope) (attr : Attr) → Schedulable attr → Schedulable (apply (scope s) attr).1
  unfolding apply pthread_attr_setscope
  Schedulable-scope s attr h = elim (Bool-cases (posix_thread_attr_is_valid stack_min attr)) [
    | inl valid ↦ rw valid (of_scope s)
    | inr invalid ↦ rw invalid h
  ]
    where
      of_scope :
          (s : Scope)
          → Schedulable
              (elim s as (λ _. Result (Unit {0}) × Attr) [
                | no_scope ↦ (err einval, attr)
                | process ↦ (err enotsup, attr)
                | system ↦ (ok tt, record attr { scope_system = true })
              ]).1
      of_scope no_scope = h
      of_scope process = h
      of_scope system = h

  Schedulable-apply :
      (c : Call) (attr : Attr)
      → keeps_policy c ≡ true
      → Schedulable attr
      → Schedulable (apply c attr).1
  unfolding apply pthread_attr_setschedparam pthread_attr_setschedpolicy pthread_attr_setscope
      pthread_attr_setinheritsched pthread_attr_setdetachstate pthread_attr_destroy
  Schedulable-apply (schedparam none) attr k h = h
  Schedulable-apply (schedparam (some p)) attr k h = Schedulable-update _ attr _ h (λ e. inr (
      both (posix_thread_attr_is_valid stack_min attr)
        (is_posix_policy_prio_valid cfg p attr.schedpolicy) e))
  Schedulable-apply (schedpolicy p) attr k h = Schedulable-update _ attr _ h (λ e.
      absurd
        (is_both p (both (posix_thread_attr_is_valid stack_min attr) (valid_posix_policy p) e).1 k))
  Schedulable-apply (scope s) attr k h = Schedulable-scope s attr h
  Schedulable-apply (inheritsched none) attr k h = h
  Schedulable-apply (inheritsched (some i)) attr k h = Schedulable-update _ attr _ h (λ e. h)
  Schedulable-apply (detachstate none) attr k h = h
  Schedulable-apply (detachstate (some d)) attr k h = Schedulable-update _ attr _ h (λ e. h)
  Schedulable-apply destroy attr k h = Schedulable-update _ attr _ h (λ e. inl refl)

  pub Schedulable-run :
      (cs : List Call) (attr : Attr)
      → all_keep_policy cs ≡ true
      → Schedulable attr
      → Schedulable (run cs attr)
  unfolding run
  Schedulable-run [] attr k h = h
  Schedulable-run (c ∷ cs) attr k h =
      let (now, later) = both (keeps_policy c) (all_keep_policy cs) k in
      Schedulable-run cs (apply c attr).1 later (Schedulable-apply c attr now h)
