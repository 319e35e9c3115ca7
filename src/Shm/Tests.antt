-- ===== src/Shm/Tests.antt =====
-- The theorems on lib/posix/options/shared_memory_objects/shm.c at concrete objects.
use posix_next.Base.{
  ℕ, ◌+◌, ◌-◌, ◌≡◌, min, refl, arith, true, false, ◌&&◌, leb, ltb, if◌then◌else◌, some, List, [],
  ◌∷◌, length, get_or, CString, err, einval, negsuc,
}
use posix_next.Shm.{
  Shm, Flags, object_at, update_at, shm_obj_find, shm_obj_add, shm_obj_remove, refcount,
  drop_handle, arguments_valid, shm_obj_name_valid, open_key, shm_open, shm_unlink, shm_close,
  close_fd,
}
use posix_next.Shm.Access.{end, shm_lseek, shm_write}
use posix_next.Shm.Offsets.{seek_result, shm_lseek-result}
use posix_next.Shm.Bytes.{shm_write-bytes}
use posix_next.Shm.Changes.{Held}
use posix_next.Shm.Keeping.{Kept, run-Kept}
use posix_next.Shm.Lifetime.{Call, opens, unlinks, closes, run, step, start}

abbrev two_bytes : Shm
two_bytes = record { addr = 1; mem = 5 ∷ 6 ∷ 7 ∷ []; size = 3; hash = 0; unlinked = false }

shm_lseek-result_example :
    shm_lseek 32 two_bytes (negsuc 0) end 1
    ≡ (if true then seek_result 31 (negsuc 0) 3 else err einval)
shm_lseek-result_example = shm_lseek-result 31 two_bytes (negsuc 0) end 1 (omega arith)

shm_write-bytes_example :
    let (n, p) = shm_write two_bytes (8 ∷ 9 ∷ []) 2 2 in
    (n ≡ min 2 (3 - 2))
    × (get_or p.mem 2 0 ≡ (
        if leb 2 2 && ltb 2 (2 + n)
        then get_or (8 ∷ 9 ∷ []) (2 - 2) 0
        else get_or (5 ∷ 6 ∷ 7 ∷ []) 2 0))
    × (p.size ≡ 3)
    × (p.size ≡ length p.mem)
shm_write-bytes_example = shm_write-bytes two_bytes (8 ∷ 9 ∷ []) 2 2 2 refl (omega arith)

-- The hash is the length of the name.
abbrev by_length : CString → ℕ
by_length n = length n

abbrev creating : Flags
creating = record { rd = false; rw = true; creat = true; excl = false; trunc = false }

abbrev name_a : CString
name_a = b'/' ∷ b'a' ∷ []

-- Opened twice at the address 1, unlinked, and closed once.
abbrev shared_use : List Call
shared_use =
    opens (some name_a) creating 7 true (some 1)
    ∷ opens (some name_a) creating 7 true (some 2)
    ∷ unlinks (some name_a)
    ∷ closes 1
    ∷ []

-- Then the last descriptor is closed.
run-Kept_example :
    let w = run by_length 16 start shared_use in
    Held (object_at 1 w.objects) (refcount 1 w.handles)
    × Kept by_length 16
        (closes 1)
        (object_at 1 w.objects)
        (object_at 1 (step by_length 16 w (closes 1)).objects)
unfolding step object_at refcount shm_open shm_unlink open_key arguments_valid shm_obj_name_valid
    shm_obj_find shm_obj_add close_fd drop_handle shm_close update_at shm_obj_remove run
run-Kept_example =
    run-Kept by_length 16 shared_use (closes 1) 1 (refl, (refl, (tt, (omega arith, tt))))
      (omega arith)
