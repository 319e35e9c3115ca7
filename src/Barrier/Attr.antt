-- ===== src/Barrier/Attr.antt =====
-- Barrier attributes, lib/posix/options/barriers/barrier.c, with _POSIX_THREAD_PROCESS_SHARED. The
-- attributes are the value of `pshared`: PTHREAD_PROCESS_PRIVATE is 0, PTHREAD_PROCESS_SHARED is 1.
use posix_next.Base.{ℕ, ◌==◌, ◌&&◌, not, if◌then◌else◌, Errno, einval}

-- What a call returns: 0, or the negated error number.
pub data Code : Type 0 where
  success : Code
  minus : Errno → Code

pub barrierattr_init : Code × ℕ
barrierattr_init = (success, 0)

pub barrierattr_setpshared : ℕ → ℕ → Code × ℕ
barrierattr_setpshared pshared attr =
    if not (pshared == 0) && not (pshared == 1) then (minus einval, attr) else (success, pshared)

pub barrierattr_getpshared : ℕ → Code × ℕ
barrierattr_getpshared attr = (success, attr)

pub barrierattr_destroy : ℕ → Code × ℕ
barrierattr_destroy attr = (success, attr)
