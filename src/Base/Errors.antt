-- ===== src/Base/Errors.antt =====
-- The error numbers of errno.h that the modelled functions report.
pub data Errno : Type 0 where
  einval enoent enomem erange ebusy eagain etimedout eexist enospc enametoolong : Errno
  ebadf emsgsize enosys enotsup eoverflow eacces emfile esrch eintr eio e2big : Errno

-- A fallible call: its value, or the error that it reports.
pub data Result {ℓ} (A : Type ℓ) : Type ℓ where
  ok : A → Result A
  err : Errno → Result A
