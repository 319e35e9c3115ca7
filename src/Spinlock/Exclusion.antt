-- ===== src/Spinlock/Exclusion.antt =====
-- A lock of lib/posix/options/spin_locks/spinlock.c has one holder at most.
use posix_next.Base.{
  ℕ, ◌+◌, ◌-◌, ◌≡◌, ◌<◌, ◌≤◌, arith, Bool, true, false, Bool-cases, Option-cases, inl, inr, Option,
  none, some, List, [], ◌∷◌, ◌==◌, if◌then◌else◌, Result, ok, err, refl, not, ◌||◌, subst,
}
use posix_next.Spinlock.{
  Spin, find_spin, set_spin, free_spin, spin_init, spin_destroy, Turn, returns, spins,
  spin_lock_common, spin_lock, spin_trylock, spin_unlock,
}

-- What the threads of a program do with the locks of the pool.
pub data Call : Type 0 where
  inits : Option ℕ → ℕ → Option ℕ → Call
  destroys locks tries unlocks : ℕ → Call

-- The pool, and how many threads have one lock of it, by what the calls returned.
pub record System : Type 0 where
  pub pool : List Spin
  pub holders : ℕ

abbrev gained : Turn → ℕ
gained (returns (ok u)) = 1
gained (returns (err e)) = 0
gained spins = 0

abbrev lost : Result (Unit {0}) → ℕ
lost (ok u) = 1
lost (err e) = 0

abbrev at : ℕ → ℕ → ℕ → ℕ
at l h n = if h == l then n else 0

unfoldable pub step : ℕ → System → Call → System
step l s (inits p pshared alloc) = record s { pool = (spin_init p pshared alloc s.pool).2 }
step l s (destroys h) = record s { pool = (spin_destroy (some h) s.pool).1 }
step l s (locks h) =
    let (t, p) = spin_lock (some h) s.pool in
    record { pool = p; holders = s.holders + at l h (gained t) }
step l s (tries h) =
    let (t, p) = spin_trylock (some h) s.pool in
    record { pool = p; holders = s.holders + at l h (gained t) }
step l s (unlocks h) =
    let (r, p) = spin_unlock (some h) s.pool in
    record { pool = p; holders = s.holders - at l h (lost r) }

-- The pool gives out handles that are free; a lock that `l` names is not destroyed, and only a
-- holder unlocks.
abbrev pub Permitted : ℕ → System → Call → Type 0
Permitted l s (inits p pshared none) = Unit {0}
Permitted l s (inits p pshared (some h)) = find_spin h s.pool ≡ none
Permitted l s (destroys h) = (h == l) ≡ false
Permitted l s (locks h) = Unit {0}
Permitted l s (tries h) = Unit {0}
Permitted l s (unlocks h) = if h == l then 0 < s.holders else Unit {0}

abbrev pub AllPermitted : ℕ → System → List Call → Type 0
AllPermitted l s [] = Unit {0}
AllPermitted l s (c ∷ cs) = Permitted l s c × AllPermitted l (step l s c) cs

unfoldable pub run : ℕ → System → List Call → System
unfolding step
run l s [] = s
run l s (c ∷ cs) = run l (step l s c) cs

abbrev value_or_zero : Option ℕ → ℕ
value_or_zero none = 0
value_or_zero (some v) = v

-- The value of the lock is the number of its holders, and that is 0 or 1.
abbrev pub IsExclusive : ℕ → System → Type 0
IsExclusive l s = (value_or_zero (find_spin l s.pool) ≡ s.holders) × (s.holders ≤ 1)

find-set :
    (l h v : ℕ) (pool : List Spin)
    → find_spin l (set_spin h v pool) ≡ (
        if h == l
        then elim (find_spin l pool) [ none ↦ none | some w ↦ some v ]
        else find_spin l pool)
unfolding find_spin set_spin
find-set l h v [] = ground arith
find-set l h v (s ∷ ss) = elim (Bool-cases (s.handle == h)) [
  | inl e ↦ elim (Bool-cases (h == l)) [ inl k ↦ ground arith | inr k ↦ ground arith ]
  | inr e ↦ elim (Bool-cases (s.handle == l)) [
    | inl k ↦ ground arith
    | inr k ↦ ground (arith, find-set l h v ss)
  ]
]

find-free :
    (l h : ℕ) (pool : List Spin)
    → (h == l) ≡ false
    → find_spin l (free_spin h pool) ≡ find_spin l pool
unfolding find_spin free_spin
find-free l h [] other = refl
find-free l h (s ∷ ss) other = elim (Bool-cases (s.handle == h)) [
  | inl e ↦ ground arith
  | inr e ↦ ground (arith, find-free l h ss other)
]

-- What the invariant says of the lock itself.
at_lock :
    (l h v : ℕ) (s : System)
    → (h == l) ≡ true
    → find_spin h s.pool ≡ some v
    → IsExclusive l s
    → (find_spin l s.pool ≡ some v) × (v ≡ s.holders)
at_lock l h v s here e x =
    let there : find_spin l s.pool ≡ some v =
      subst (λ k. find_spin k s.pool ≡ some v) (ground arith) e in
    (there, subst (λ o. value_or_zero o ≡ s.holders) there x.0)

unchanged :
    (l h : ℕ) (s : System)
    → IsExclusive l s
    → IsExclusive l (record s { holders = s.holders + at l h 0 })
      × IsExclusive l (record s { holders = s.holders - at l h 0 })
unchanged l h s x = elim (Bool-cases (h == l)) [
  | inl here ↦
      rw here ((omega (arith, x.0), omega (arith, x.1)), (omega (arith, x.0), omega (arith, x.1)))
  | inr other ↦
      rw other ((omega (arith, x.0), omega (arith, x.1)), (omega (arith, x.0), omega (arith, x.1)))
]

acquire-IsExclusive :
    (l h : ℕ) (wait : Bool) (s : System)
    → IsExclusive l s
    → (let (t, p) = spin_lock_common (some h) wait s.pool in
        IsExclusive l (record { pool = p; holders = s.holders + at l h (gained t) }))
unfolding spin_lock_common
acquire-IsExclusive l h wait s x = elim (Option-cases (find_spin h s.pool)) [
  | inl e ↦ rw (spin_lock_common, e) (unchanged l h s x).0
  | inr (v, e) ↦ elim (Bool-cases (v == 0)) [
    | inl free ↦ elim (Bool-cases (h == l)) [
      | inl here ↦
          let known = at_lock l h v s here e x in
          rw (spin_lock_common, e, free, find-set l h 1 s.pool, here, known.0)
            (ground (arith, known.1), ground (arith, known.1))
      | inr other ↦
          rw (spin_lock_common, e, free, find-set l h 1 s.pool, other)
            (omega (arith, x.0), omega (arith, x.1))
    ]
    | inr held ↦
        elim wait
          as (λ b.
            (let (t, p) = spin_lock_common (some h) b s.pool in
              IsExclusive l (record { pool = p; holders = s.holders + at l h (gained t) }))) [
                | true ↦ rw (spin_lock_common, e, held) (unchanged l h s x).0
                | false ↦ rw (spin_lock_common, e, held) (unchanged l h s x).0
              ]
  ]
]

release-IsExclusive :
    (l h : ℕ) (s : System)
    → (if h == l then 0 < s.holders else Unit {0})
    → IsExclusive l s
    → (let (r, p) = spin_unlock (some h) s.pool in
        IsExclusive l (record { pool = p; holders = s.holders - at l h (lost r) }))
unfolding spin_unlock
release-IsExclusive l h s may x = elim (Option-cases (find_spin h s.pool)) [
  | inl e ↦ rw (spin_unlock, e) (unchanged l h s x).1
  | inr (v, e) ↦ elim (Bool-cases (h == l)) [
    | inl here ↦
        let known = at_lock l h v s here e x in
        let some_holder : 0 < s.holders =
          subst (λ b. if b then 0 < s.holders else Unit {0}) here may in
        let one : (v == 1) ≡ true = ground (arith, known.1, x.1, some_holder) in
        rw (spin_unlock, e, one, find-set l h 0 s.pool, here, known.0)
          (ground (arith, known.1, x.1), ground (arith, x.1))
    | inr other ↦ elim (Bool-cases (v == 1)) [
      | inl one ↦
          rw (spin_unlock, e, one, find-set l h 0 s.pool, other)
            (omega (arith, x.0), omega (arith, x.1))
      | inr more ↦ rw (spin_unlock, e, more, other) (omega (arith, x.0), omega (arith, x.1))
    ]
  ]
]

init-IsExclusive :
    (l : ℕ) (p : Option ℕ) (pshared : ℕ) (alloc : Option ℕ) (s : System)
    → Permitted l s (inits p pshared alloc)
    → IsExclusive l s
    → IsExclusive l (record s { pool = (spin_init p pshared alloc s.pool).2 })
unfolding spin_init find_spin
init-IsExclusive l none pshared alloc s may x = x
init-IsExclusive l (some q) pshared none s may x =
    elim (Bool-cases (not (pshared == 0 || pshared == 1))) [
      | inl bad ↦ rw bad x
      | inr fine ↦ rw fine x
    ]
init-IsExclusive l (some q) pshared (some h) s may x =
    elim (Bool-cases (not (pshared == 0 || pshared == 1))) [
      | inl bad ↦ rw bad x
      | inr fine ↦ elim (Bool-cases (h == l)) [
        | inl here ↦
            let absent : find_spin l s.pool ≡ none =
              subst (λ k. find_spin k s.pool ≡ none) (ground arith) may in
            rw (fine, here) (subst (λ o. value_or_zero o ≡ s.holders) absent x.0, x.1)
        | inr other ↦ rw (fine, other) x
      ]
    ]

destroy-IsExclusive :
    (l h : ℕ) (s : System)
    → (h == l) ≡ false
    → IsExclusive l s
    → IsExclusive l (record s { pool = (spin_destroy (some h) s.pool).1 })
unfolding spin_destroy
destroy-IsExclusive l h s other x = elim (Option-cases (find_spin h s.pool)) [
  | inl e ↦ rw (spin_destroy, e) x
  | inr (v, e) ↦ rw (spin_destroy, e, find-free l h s.pool other) x
]

call-IsExclusive :
    (l : ℕ) (s : System) (c : Call) → Permitted l s c → IsExclusive l s → IsExclusive l (step l s c)
unfolding step spin_lock spin_trylock
call-IsExclusive l s (inits p pshared alloc) may x = init-IsExclusive l p pshared alloc s may x
call-IsExclusive l s (destroys h) may x = destroy-IsExclusive l h s may x
call-IsExclusive l s (locks h) may x = acquire-IsExclusive l h true s x
call-IsExclusive l s (tries h) may x = acquire-IsExclusive l h false s x
call-IsExclusive l s (unlocks h) may x = release-IsExclusive l h s may x

-- Whatever the threads of a program do with the locks of the pool, if the pool gives out free
-- handles, a lock is not destroyed while the history lasts and is unlocked only while it is held:
-- where it held before, it holds after the history that at most one thread has the lock, and that
-- its word is the number of its holders.
pub mutual_exclusion :
    (l : ℕ) (s : System) (cs : List Call)
    → IsExclusive l s
    → AllPermitted l s cs
    → IsExclusive l (run l s cs)
unfolding run
mutual_exclusion l s [] x may = x
mutual_exclusion l s (c ∷ cs) x may =
    mutual_exclusion l (step l s c) cs (call-IsExclusive l s c may.0 x) may.1
