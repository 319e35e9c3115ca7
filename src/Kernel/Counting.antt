-- ===== src/Kernel/Counting.antt =====
-- Semaphores that only count, as an instance of what the modelled functions rely on.
use posix_next.Base.{ℕ, zero, suc, ◌+◌, ◌≡◌, ◌<◌, arith, refl, ◌==◌, if◌then◌else◌}
use posix_next.Kernel.{Timeout, forever, ms, Wait, got, expired, never, SemOps}

abbrev pub counting_take : Timeout → ℕ → Wait
counting_take forever zero = never
counting_take (ms n) zero = expired
counting_take t (suc c) = got c

abbrev pub counting_give : ℕ → ℕ → ℕ
counting_give l c = if c == l then l else c + 1

takes : (t : Timeout) (c : ℕ) → counting_take t (suc c) ≡ got c
takes forever c = refl
takes (ms n) c = refl

gives : (l c : ℕ) → c < l → counting_give l c ≡ c + 1
gives l c h = ground arith

gives_full : (l : ℕ) → counting_give l l ≡ l
gives_full l = ground arith

pub counting : SemOps
counting = record {
  take = counting_take;
  give = counting_give;
  reset = λ c. 0;
  take_suc = takes;
  take_zero_ms = λ n. refl;
  take_zero_forever = refl;
  give_below = gives;
  give_full = gives_full;
  reset_zero = λ c. refl;
}
