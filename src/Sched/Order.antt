-- ===== src/Sched/Order.antt =====
-- What the two ways of counting priorities have to do with one another,
-- lib/posix/options/shared/pthread_priority.c.
use posix_next.Base.{
  ◌∙◌, sym, ap, subst, inr, inl, Bool-cases, ℕ, ◌-◌, ◌≡◌, ◌<◌, arith, true, false, some,
  if◌then◌else◌, einval, ok, err, ℤ, pos, negsuc, sub_int, leb_int, refl,
}
use posix_next.Sched.{
  clamp, Policy, fifo, rr, other, unknown, Config, valid_posix_policy, posix_sched_priority_max,
  is_posix_policy_prio_valid, zephyr_to_posix_priority, posix_to_zephyr_priority,
  pthread_setschedparam, pthread_getschedparam, is_fifo,
}

leb_int_antisym : (x y : ℤ) → leb_int x y ≡ true → leb_int y x ≡ true → x ≡ y
leb_int_antisym (pos a) (pos b) h k = ground arith
leb_int_antisym (pos a) (negsuc b) h k = cc
leb_int_antisym (negsuc a) (pos b) h k = cc
leb_int_antisym (negsuc a) (negsuc b) h k = ground arith

leb_int_trans : (x y z : ℤ) → leb_int x y ≡ true → leb_int y z ≡ true → leb_int x z ≡ true
leb_int_trans (pos a) (pos b) (pos c) h k = ground arith
leb_int_trans (pos a) (pos b) (negsuc c) h k = cc
leb_int_trans (pos a) (negsuc b) z h k = cc
leb_int_trans (negsuc a) y (pos c) h k = refl
leb_int_trans (negsuc a) (pos b) (negsuc c) h k = cc
leb_int_trans (negsuc a) (negsuc b) (negsuc c) h k = ground arith

clamp-inside :
    (z low high : ℤ) → leb_int low z ≡ true → leb_int z high ≡ true → clamp z low high ≡ z
clamp-inside z low high h k = elim (Bool-cases (leb_int z low)) [
  | inl at_low ↦ rw at_low (leb_int_antisym low z h at_low)
  | inr above ↦ elim (Bool-cases (leb_int high z)) [
    | inl at_high ↦ rw (above, at_high) (leb_int_antisym high z at_high k)
    | inr below ↦ rw (above, below) refl
  ]
]

-- The policy that the kernel's priorities tell apart.
abbrev pub reported : Policy → Policy
reported fifo = fifo
reported rr = rr
reported other = rr
reported unknown = unknown

module _ (cfg : Config) where
  -- The kernel has the cooperative priorities of the configuration.
  abbrev pub KernelRange : Type 0
  KernelRange = leb_int cfg.highest (sub_int (pos 0) (pos cfg.num_coop)) ≡ true

  -- The priority in the kernel of a number of a policy.
  abbrev pub kernel_priority : ℕ → Policy → ℤ
  kernel_priority p policy = if is_fifo policy then negsuc p else pos (cfg.num_preempt - p - 1)

  abbrev pub count : Policy → ℕ
  count policy = if is_fifo policy then cfg.num_coop else cfg.num_preempt

  pub valid-number :
      (p : ℤ) (policy : Policy)
      → valid_posix_policy policy ≡ true
      → is_posix_policy_prio_valid cfg p policy ≡ true
      → (n : ℕ) × (p ≡ pos n) × (n < count policy)
  unfolding is_posix_policy_prio_valid posix_sched_priority_max
  valid-number (pos p) fifo v h = (p, refl, ground arith)
  valid-number (pos p) rr v h = (p, refl, ground arith)
  valid-number (pos p) other v h = (p, refl, ground arith)
  valid-number p unknown v h = cc
  valid-number (negsuc p) fifo v h = cc
  valid-number (negsuc p) rr v h = cc
  valid-number (negsuc p) other v h = cc

  pub posix_to_zephyr-kernel_priority :
      (n : ℕ) (policy : Policy)
      → n < count policy
      → posix_to_zephyr_priority cfg (pos n) policy ≡ kernel_priority n policy
  unfolding posix_to_zephyr_priority
  posix_to_zephyr-kernel_priority n fifo h = ground arith
  posix_to_zephyr-kernel_priority n rr h = ground arith
  posix_to_zephyr-kernel_priority n other h = ground arith
  posix_to_zephyr-kernel_priority n unknown h = ground arith

  zephyr_to_posix-preemptible :
      (n : ℕ)
      → KernelRange
      → n < cfg.num_preempt
      → zephyr_to_posix_priority cfg (pos (cfg.num_preempt - n - 1)) ≡ (pos n, rr)
  unfolding zephyr_to_posix_priority
  zephyr_to_posix-preemptible n k h =
      let z = pos (cfg.num_preempt - n - 1) in
      let below : leb_int (sub_int (pos 0) (pos cfg.num_coop)) z ≡ true = ground arith in
      let low = leb_int_trans cfg.highest (sub_int (pos 0) (pos cfg.num_coop)) z k below in
      let high : leb_int z (sub_int (pos cfg.num_preempt) (pos 1)) ≡ true = ground arith in
      let nonneg : leb_int (pos 0) z ≡ true = ground arith in
      rw (clamp-inside z cfg.highest (sub_int (pos cfg.num_preempt) (pos 1)) low high, nonneg)
        (ap (λ x. (x, rr)) (ground arith))

  zephyr_to_posix-kernel_priority :
      (n : ℕ) (policy : Policy)
      → KernelRange
      → valid_posix_policy policy ≡ true
      → n < count policy
      → zephyr_to_posix_priority cfg (kernel_priority n policy) ≡ (pos n, reported policy)
  unfolding zephyr_to_posix_priority
  zephyr_to_posix-kernel_priority n fifo k v h =
      let low : leb_int cfg.highest (negsuc n) ≡ true =
        leb_int_trans cfg.highest (sub_int (pos 0) (pos cfg.num_coop)) (negsuc n) k
          (ground arith) in
      let inside =
        clamp-inside (negsuc n) cfg.highest (sub_int (pos cfg.num_preempt) (pos 1)) low
          (ground arith) in
      rw inside (ap (λ x. (x, fifo)) (ground arith))
  zephyr_to_posix-kernel_priority n rr k v h = zephyr_to_posix-preemptible n k h
  zephyr_to_posix-kernel_priority n other k v h = zephyr_to_posix-preemptible n k h
  zephyr_to_posix-kernel_priority n unknown k v h = cc

  zephyr_to_posix-posix_to_zephyr :
      (p : ℤ) (policy : Policy)
      → KernelRange
      → valid_posix_policy policy ≡ true
      → is_posix_policy_prio_valid cfg p policy ≡ true
      → zephyr_to_posix_priority cfg (posix_to_zephyr_priority cfg p policy) ≡ (p, reported policy)
  zephyr_to_posix-posix_to_zephyr p policy k v h =
      let (n, e, l) = valid-number p policy v h in
      subst
        (λ x.
          zephyr_to_posix_priority cfg (posix_to_zephyr_priority cfg x policy)
          ≡ (x, reported policy))
        (sym e)
        (ap (zephyr_to_posix_priority cfg) (posix_to_zephyr-kernel_priority n policy l)
          ∙ zephyr_to_posix-kernel_priority n policy k v l)

  -- pthread_setschedparam with one of the three policies, where the kernel has the priorities of
  -- the configuration: for a priority in the range of the policy, pthread_getschedparam then
  -- returns the priority, with SCHED_RR in the place of SCHED_OTHER; otherwise the result is
  -- EINVAL and the thread is as it was.
  pub getschedparam-setschedparam :
      (p : ℤ) (policy : Policy) (z : ℤ)
      → KernelRange
      → valid_posix_policy policy ≡ true
      → let (r, after) = pthread_setschedparam cfg policy (some p) z in
        if is_posix_policy_prio_valid cfg p policy
        then (r ≡ ok tt) × (pthread_getschedparam cfg after ≡ (p, reported policy))
        else (r ≡ err einval) × (after ≡ z)
  unfolding pthread_setschedparam pthread_getschedparam
  getschedparam-setschedparam p policy z k v =
      elim (Bool-cases (is_posix_policy_prio_valid cfg p policy)) [
        | inl h ↦ rw (v, h) (refl, zephyr_to_posix-posix_to_zephyr p policy k v h)
        | inr h ↦ rw (v, h) (refl, refl)
      ]

  kernel_priority-urgency :
      (a b : ℕ) (policy : Policy)
      → a < count policy
      → b < count policy
      → leb_int (pos a) (pos b) ≡ leb_int (kernel_priority b policy) (kernel_priority a policy)
  kernel_priority-urgency a b fifo ha hb = refl
  kernel_priority-urgency a b rr ha hb = ground arith
  kernel_priority-urgency a b other ha hb = ground arith
  kernel_priority-urgency a b unknown ha hb = ground arith

  -- Of two numbers of a policy, the larger one is the more urgent one in the kernel, where lower
  -- numbers go first; and those of SCHED_FIFO go before those of the other policies.
  pub posix_to_zephyr-urgency :
      (p q r : ℤ) (policy : Policy)
      → valid_posix_policy policy ≡ true
      → is_posix_policy_prio_valid cfg p policy ≡ true
      → is_posix_policy_prio_valid cfg q policy ≡ true
      → is_posix_policy_prio_valid cfg r fifo ≡ true
      → (leb_int p q
          ≡ leb_int (posix_to_zephyr_priority cfg q policy) (posix_to_zephyr_priority cfg p policy))
        × (is_fifo policy ≡ false
            → leb_int (posix_to_zephyr_priority cfg p policy) (posix_to_zephyr_priority cfg r fifo)
              ≡ false)
  posix_to_zephyr-urgency p q r policy v hp hq hr =
      let (a, ea, la) = valid-number p policy v hp in
      let (b, eb, lb) = valid-number q policy v hq in
      let (c, ec, lc) = valid-number r fifo refl hr in
      rw
        (
          ea,
          eb,
          ec,
          posix_to_zephyr-kernel_priority a policy la,
          posix_to_zephyr-kernel_priority b policy lb,
          posix_to_zephyr-kernel_priority c fifo lc,
        )
        (kernel_priority-urgency a b policy la lb, λ preemptible. rw preemptible refl)
