-- ===== src/Kernel.antt =====
-- What the modelled functions rely on of the kernel: waits with a timeout, and its counting
-- semaphores (sys_sem, k_sem), which are not part of this repository.
pub mod Counting
use posix_next.Base.{ℕ, suc, ◌+◌, ◌≡◌, ◌<◌}

-- `ms 0` is K_NO_WAIT.
pub data Timeout : Type 0 where
  forever : Timeout
  ms : ℕ → Timeout

-- How a wait for a semaphore ends while no other thread runs: with its new count, with an error
-- when the time is over, or never.
pub data Wait : Type 0 where
  got : ℕ → Wait
  expired never : Wait

-- An absolute time that a caller passes: NULL, out of range, or so many milliseconds from now.
pub data Deadline : Type 0 where
  null invalid : Deadline
  in_ms : ℕ → Deadline

-- A semaphore is known by its count; `give` has the limit and the count.
pub record SemOps : Type 0 where
  pub take : Timeout → ℕ → Wait
  pub give : ℕ → ℕ → ℕ
  pub reset : ℕ → ℕ
  pub take_suc : (t : Timeout) (c : ℕ) → take t (suc c) ≡ got c
  pub take_zero_ms : (n : ℕ) → take (ms n) 0 ≡ expired
  pub take_zero_forever : take forever 0 ≡ never
  pub give_below : (l c : ℕ) → c < l → give l c ≡ c + 1
  pub give_full : (l : ℕ) → give l l ≡ l
  pub reset_zero : (c : ℕ) → reset c ≡ 0
