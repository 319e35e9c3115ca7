-- ===== src/Shm/Access.antt =====
-- Operations on one object of lib/posix/options/shared_memory_objects/shm.c. `bits` is the width of
-- size_t, off_t and intptr_t.
use posix_next.Base.{
  ℕ, suc, ◌+◌, ◌-◌, ◌%◌, ◌^◌, min, Bool, true, ◌||◌, not, List, [], ◌++◌, ◌==◌, ltb, leb,
  if◌then◌else◌, length, take, drop, replicate, einval, ebusy, enomem, eoverflow, enotsup, Result,
  ok, err, ℤ, pos, negsuc,
}
use posix_next.Shm.{Shm}

-- SEEK_SET, SEEK_CUR, SEEK_END, or another value.
pub data Whence : Type 0 where
  set cur end other : Whence

-- CONFIG_MMU, and what the map or the allocation of new memory returns.
unfoldable pub shm_ftruncate : Bool → Shm → ℤ → Result (Unit {0}) × Shm
shm_ftruncate alloc o (negsuc n) = (err einval, o)
shm_ftruncate alloc o (pos len) =
    if len == 0
    then (if o.size == 0 then (ok tt, o) else (err ebusy, o))
    else (if alloc
        then (ok tt, record o { mem = replicate len 0; size = len })
        else (err enomem, o))

module _ (bits : ℕ) where
  -- A signed value where the code compares it with an unsigned one.
  abbrev pub as_unsigned : ℤ → ℕ
  as_unsigned (pos n) = n
  as_unsigned (negsuc n) = 2 ^ bits - (n + 1)

  abbrev pub int_max : ℕ
  int_max = 2 ^ (bits - 1) - 1

  -- `offset += addend; if (offset < 0)`, where the sum fits.
  abbrev pub seek_to : ℤ → ℕ → Result ℕ
  seek_to (pos n) addend = ok (n + addend)
  seek_to (negsuc n) addend = if ltb addend (suc n) then err einval else ok (addend - suc n)

  -- The tests after the switch: the second one compares a size_t with an off_t.
  unfoldable pub seek_from : ℤ → ℕ → Result ℕ
  seek_from offset addend =
      if ltb int_max addend || ltb (int_max - addend) (as_unsigned offset)
      then err eoverflow
      else seek_to offset addend

  unfoldable pub shm_lseek : Shm → ℤ → Whence → ℕ → Result ℕ
  unfolding seek_from
  shm_lseek o offset set pos' = seek_from offset 0
  shm_lseek o offset cur pos' = seek_from offset pos'
  shm_lseek o offset end pos' = seek_from offset o.size
  shm_lseek o offset other pos' = err einval

  -- The offset of the mapping in the memory of the object. `fixed` is MAP_FIXED, `page` a power of
  -- two; the sum of the length and the offset is a size_t.
  unfoldable pub shm_mmap : Bool → ℕ → Shm → ℕ → Bool → ℤ → Result ℕ
  shm_mmap mmu page o len fixed (negsuc n) = err einval
  shm_mmap mmu page o len fixed (pos off) =
      if (len == 0) || fixed || not (off % page == 0) || ltb o.size ((len + off) % 2 ^ bits)
      then err einval
      else (if not mmu then err enotsup else (if length o.mem == 0 then err enomem else ok off))

-- How much shm_rw moves.
abbrev pub rw_size : Shm → ℕ → ℕ → ℕ
rw_size o size offset = if leb o.size offset then 0 else min size (o.size - offset)

-- `memcpy(&mem[offset], buf, n)`
abbrev pub overwrite : List ℕ → ℕ → List ℕ → List ℕ
overwrite mem offset bytes = take offset mem ++ (bytes ++ drop (offset + length bytes) mem)

-- `shm_rw` for a read: the bytes that `buf` gets, and the size that is returned.
unfoldable pub shm_read : Shm → ℕ → ℕ → List ℕ × ℕ
shm_read o size offset =
    let n = rw_size o size offset in (if ltb 0 n then take n (drop offset o.mem) else [], n)

-- `shm_rw` for a write of the first `size` bytes of `buf`.
unfoldable pub shm_write : Shm → List ℕ → ℕ → ℕ → ℕ × Shm
shm_write o buf size offset =
    let n = rw_size o size offset in
    (n, if ltb 0 n then record o { mem = overwrite o.mem offset (take n buf) } else o)

-- `struct zvfs_stat`: the mode is ZVFS_MODE_IFSHM.
pub record Stat : Type 0 where
  pub is_shm : Bool
  pub st_size : ℕ

unfoldable pub shm_fstat : Shm → Stat
shm_fstat o = record { is_shm = true; st_size = o.size }

-- The requests of the descriptor table with their arguments, and what they return.
pub data Request : Type 0 where
  lseek : ℤ → Whence → ℕ → Request
  mmap : ℕ → Bool → ℤ → Request
  set_lock stat unknown : Request
  truncate : ℤ → Request

pub data Reply : Type 0 where
  done : Reply
  offset : ℕ → Reply
  status : Stat → Reply

abbrev at_offset : Result ℕ → Result Reply
at_offset (ok n) = ok (offset n)
at_offset (err e) = err e

abbrev no_value : Result (Unit {0}) → Result Reply
no_value (ok u) = ok done
no_value (err e) = err e

module _ (bits : ℕ) (mmu : Bool) (page : ℕ) (alloc : Bool) where
  unfoldable pub shm_ioctl : Request → Shm → Result Reply × Shm
  unfolding shm_lseek shm_mmap shm_fstat shm_ftruncate
  shm_ioctl (lseek off whence pos') o = (at_offset (shm_lseek bits o off whence pos'), o)
  shm_ioctl (mmap len fixed off) o = (at_offset (shm_mmap bits mmu page o len fixed off), o)
  shm_ioctl set_lock o = (ok done, o)
  shm_ioctl stat o = (ok (status (shm_fstat o)), o)
  shm_ioctl (truncate len) o = let (r, p) = shm_ftruncate alloc o len in (no_value r, p)
  shm_ioctl unknown o = (err enotsup, o)
