-- ===== src/Spinlock.antt =====
-- Spin locks, lib/posix/options/spin_locks/spinlock.c, and the search of a pool for a handle,
-- lib/posix/options/shared/posix_pool.c. What sys_elastipool_alloc finds is an argument. A thread
-- that spins makes one attempt after another; each attempt is a step.
pub mod Exclusion
mod Tests
use posix_next.Base.{
  ℕ, ◌≡◌, Bool, true, false, ◌||◌, not, Option, none, some, List, [], ◌∷◌, ◌==◌, if◌then◌else◌,
  Errno, einval, enomem, ebusy, Result, ok, err,
}

-- An object of `posix_spin_pool` that is in use.
pub record Spin : Type 0 where
  pub handle : ℕ
  pub value : ℕ

-- `posix_get_pool_obj_unlocked`: the value of the object, `none` where it is not in use.
unfoldable pub find_spin : ℕ → List Spin → Option ℕ
find_spin h [] = none
find_spin h (s ∷ ss) = if s.handle == h then some s.value else find_spin h ss

unfoldable pub set_spin : ℕ → ℕ → List Spin → List Spin
set_spin h v [] = []
set_spin h v (s ∷ ss) = if s.handle == h then record s { value = v } ∷ ss else s ∷ set_spin h v ss

unfoldable pub free_spin : ℕ → List Spin → List Spin
free_spin h [] = []
free_spin h (s ∷ ss) = if s.handle == h then ss else s ∷ free_spin h ss

-- A pointer to a lock is `none` where it is NULL. The results are the new content of the pointer
-- and of the pool. PTHREAD_PROCESS_PRIVATE is 0 and PTHREAD_PROCESS_SHARED is 1.
unfoldable pub spin_init :
    Option ℕ → ℕ → Option ℕ → List Spin → Result (Unit {0}) × Option ℕ × List Spin
spin_init none pshared alloc pool = (err einval, none, pool)
spin_init (some l) pshared alloc pool =
    if not (pshared == 0 || pshared == 1) then (err einval, some l, pool) else elim alloc [
      | none ↦ (err enomem, some l, pool)
      | some h ↦ (ok tt, some h, record { handle = h; value = 0 } ∷ pool)
    ]

unfoldable pub spin_destroy : Option ℕ → List Spin → Result (Unit {0}) × List Spin
spin_destroy none pool = (err einval, pool)
spin_destroy (some h) pool = elim (find_spin h pool) [
  | none ↦ (err einval, pool)
  | some v ↦ (ok tt, free_spin h pool)
]

-- `spins` is a turn of the loop that does not end it.
pub data Turn : Type 0 where
  returns : Result (Unit {0}) → Turn
  spins : Turn

-- `pthread_spin_lock_common` up to the end of a turn of its loop.
unfoldable pub spin_lock_common : Option ℕ → Bool → List Spin → Turn × List Spin
spin_lock_common none wait pool = (returns (err einval), pool)
spin_lock_common (some h) wait pool = elim (find_spin h pool) [
  | none ↦ (returns (err einval), pool)
  | some v ↦
      if v == 0
      then (returns (ok tt), set_spin h 1 pool)
      else (if wait then (spins, pool) else (returns (err ebusy), pool))
]

unfoldable pub spin_lock : Option ℕ → List Spin → Turn × List Spin
unfolding spin_lock_common
spin_lock h pool = spin_lock_common h true pool

unfoldable pub spin_trylock : Option ℕ → List Spin → Turn × List Spin
unfolding spin_lock_common
spin_trylock h pool = spin_lock_common h false pool

unfoldable pub spin_unlock : Option ℕ → List Spin → Result (Unit {0}) × List Spin
spin_unlock none pool = (err einval, pool)
spin_unlock (some h) pool = elim (find_spin h pool) [
  | none ↦ (err einval, pool)
  | some v ↦ (ok tt, if v == 1 then set_spin h 0 pool else pool)
]
