-- ===== src/Sched/Creation.antt =====
-- The priority at which pthread_create of lib/posix/options/threads_base/pthread.c starts a thread.
use posix_next.Base.{
  sym, ◌∙◌, subst, ap, ℕ, ◌≡◌, ◌≤◌, ◌<◌, arith, Bool, true, false, ◌&&◌, some, [], ◌∷◌, ◌⊎◌, einval,
  ok, err, ℤ, pos, negsuc, sub_int, leb_int, refl,
}
use posix_next.Sched.{
  fifo, rr, Config, is_posix_policy_prio_valid, posix_to_zephyr_priority, posix_sched_priority_max,
}
use posix_next.Sched.Attr.{
  Attr, posix_thread_attr_is_valid, pthread_attr_setschedparam, pthread_attr_setschedpolicy,
  pthread_create,
}
use posix_next.Sched.Order.{kernel_priority}
use posix_next.Sched.Attributes.{schedparam, schedpolicy, apply, run}

module _ (cfg : Config) (stack_min : ℕ) where
  -- A priority of the kernel's that the configuration has.
  abbrev pub in_range : ℤ → Bool
  in_range z =
      leb_int (sub_int (pos 0) (pos cfg.num_coop)) z
      && leb_int z (sub_int (pos cfg.num_preempt) (pos 1))

  -- What pthread_create does with attributes.
  abbrev pub Created : ℤ → ℤ → Attr → Type 0
  Created lowest current attr =
      ((posix_thread_attr_is_valid stack_min attr ≡ false)
        × (pthread_create cfg stack_min lowest current (some attr) ≡ err einval))
      ⊎ ((posix_thread_attr_is_valid stack_min attr ≡ true)
          × (attr.inherit ≡ true)
          × (pthread_create cfg stack_min lowest current (some attr) ≡ ok (current, attr.detached)))
      ⊎ ((n : ℕ) × (posix_thread_attr_is_valid stack_min attr ≡ true)
          × (attr.inherit ≡ false)
          × (attr.priority ≡ pos n)
          × (pthread_create cfg stack_min lowest current (some attr)
              ≡ ok (kernel_priority cfg n attr.schedpolicy, attr.detached))
          × (in_range (kernel_priority cfg n attr.schedpolicy) ≡ true))

  in_rr :
      (p : ℕ)
      → cfg.preempt ≡ true
      → p < cfg.num_preempt
      → is_posix_policy_prio_valid cfg (pos p) rr ≡ true
  unfolding is_posix_policy_prio_valid posix_sched_priority_max
  in_rr p pre below = ground arith

  set_priority :
      (p : ℕ) (attr : Attr)
      → cfg.preempt ≡ true
      → p < cfg.num_preempt
      → posix_thread_attr_is_valid stack_min attr ≡ true
      → attr.schedpolicy ≡ rr
      → (apply cfg stack_min (schedparam (some (pos p))) attr).1 ≡ record attr { priority = pos p }
  unfolding apply pthread_attr_setschedparam
  set_priority p attr pre below valid policy =
      let prio : is_posix_policy_prio_valid cfg (pos p) attr.schedpolicy ≡ true =
        subst (λ q. is_posix_policy_prio_valid cfg (pos p) q ≡ true) (sym policy)
          (in_rr p pre below) in
      rw (valid, prio) refl

  set_fifo :
      (attr : Attr)
      → posix_thread_attr_is_valid stack_min attr ≡ true
      → (apply cfg stack_min (schedpolicy fifo) attr).1 ≡ record attr { schedpolicy = fifo }
  unfolding apply pthread_attr_setschedpolicy
  set_fifo attr valid = rw valid refl

  fifo_is_valid :
      (attr : Attr)
      → posix_thread_attr_is_valid stack_min attr ≡ true
      → posix_thread_attr_is_valid stack_min (record attr { schedpolicy = fifo }) ≡ true
  fifo_is_valid attr h = ground (arith, h)

  create_fifo :
      (p : ℕ) (attr : Attr) (lowest current : ℤ)
      → posix_thread_attr_is_valid stack_min attr ≡ true
      → attr.inherit ≡ false
      → pthread_create cfg stack_min lowest current
          (some (record attr { priority = pos p; schedpolicy = fifo }))
        ≡ ok (negsuc p, attr.detached)
  unfolding pthread_create posix_to_zephyr_priority
  create_fifo p attr lowest current valid explicit =
      rw (fifo_is_valid attr valid, explicit) (ap (λ z. ok (z, attr.detached)) (ground arith))

  -- The priority is not checked again when the policy changes: with preemptive priorities and
  -- attributes that are valid, of SCHED_RR and with an explicit schedule, a priority p of SCHED_RR
  -- that is at least the number of the cooperative ones is set, then SCHED_FIFO, and pthread_create then
  -- starts the thread at -(p + 1), which is no priority of the configuration.
  pub setschedpolicy-out_of_range :
      (p : ℕ) (attr : Attr) (lowest current : ℤ)
      → cfg.preempt ≡ true
      → p < cfg.num_preempt
      → cfg.num_coop ≤ p
      → posix_thread_attr_is_valid stack_min attr ≡ true
      → attr.schedpolicy ≡ rr
      → attr.inherit ≡ false
      → (pthread_create cfg stack_min lowest current
            (some (run cfg stack_min (schedparam (some (pos p)) ∷ schedpolicy fifo ∷ []) attr))
          ≡ ok (negsuc p, attr.detached))
        × (in_range (negsuc p) ≡ false)
  unfolding run
  setschedpolicy-out_of_range p attr lowest current pre below above valid policy explicit = (
    ap (λ a. pthread_create cfg stack_min lowest current (some a))
          (ap (λ a. (apply cfg stack_min (schedpolicy fifo) a).1)
              (set_priority p attr pre below valid policy)
            ∙ set_fifo (record attr { priority = pos p }) valid)
        ∙ create_fifo p attr lowest current valid explicit,
    ground arith,
  )
