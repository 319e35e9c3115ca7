-- ===== src/Rwlock/Spec.antt =====
-- What a read-write lock promises, without its semaphores.
use posix_next.Kernel.{forever}
use posix_next.Base.{some, ◌-◌, ebusy, zero}
use posix_next.Rwlock.{◌+◌, none, ms, Timeout, ℕ, suc, Ret, done, fails, blocks, Rwlock}

-- `reading n` has n + 1 readers; while a writer waits for them it is `draining n`, and `vacant`
-- once the last of them has left and before the writer goes on.
pub data Lock : Type 0 where
  free : Lock
  reading draining : ℕ → Lock
  vacant : Lock
  writing : ℕ → Lock

abbrev pub readers : Lock → ℕ
readers free = 0
readers (reading n) = n + 1
readers (draining n) = n + 1
readers vacant = 0
readers (writing t) = 0

-- A lock that cannot be had: the caller waits for ever or is refused when its time is over.
abbrev pub unavailable : Timeout → Ret
unavailable forever = blocks
unavailable (ms t) = fails ebusy

-- Readers get in while no writer holds the lock or waits for it.
unfoldable pub read : Timeout → Lock → Ret × Lock
read t free = (done, reading 0)
read t (reading n) = (done, reading (n + 1))
read t l = (unavailable t, l)

-- A writer gets in where there is nobody; if it waits for readers no new ones get in.
unfoldable pub write : Timeout → ℕ → Lock → Ret × Lock
write t self free = (done, writing self)
write forever self (reading n) = (blocks, draining n)
write (ms t) self (reading n) = (fails ebusy, reading n)
write t self l = (unavailable t, l)

-- The waiting writer goes on.
unfoldable pub go_on : Timeout → ℕ → Lock → Ret × Lock
go_on t self vacant = (done, writing self)
go_on forever self (draining n) = (blocks, draining n)
go_on (ms t) self (draining n) = (fails ebusy, reading n)
go_on t self l = (unavailable t, l)

-- One reader less, or no writer.
unfoldable pub release : Lock → Lock
release (reading zero) = free
release (reading (suc n)) = reading n
release (draining zero) = vacant
release (draining (suc n)) = draining n
release (writing t) = free
release l = l

-- The semaphores and the owner of a lock that has this state.
abbrev pub represent : ℕ → Lock → Rwlock
represent limit free = record { rd = limit; wr = 1; active = 1; owner = none }
represent limit (reading n) = record { rd = limit - (n + 1); wr = 1; active = 0; owner = none }
represent limit (draining n) = record { rd = limit - (n + 1); wr = 0; active = 0; owner = none }
represent limit vacant = record { rd = limit; wr = 0; active = 1; owner = none }
represent limit (writing t) = record { rd = limit; wr = 0; active = 0; owner = some t }

abbrev pub represented : ℕ → Ret × Lock → Ret × Rwlock
represented limit (r, l) = (r, represent limit l)
