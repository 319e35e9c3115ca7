-- ===== src/Shm.antt =====
-- Shared memory objects, lib/posix/options/shared_memory_objects/shm.c: the list of objects, and
-- shm_open, shm_unlink and the close of a descriptor. An object is known by its address. The
-- descriptor table (zvfs), the heap and the hash function are not part of the repository: what
-- they return is an argument, and the table is the list of the objects that open descriptors
-- refer to.
pub mod Access
pub mod Offsets
pub mod Bytes
pub mod Registry
pub mod Changes
pub mod Lifetime
pub mod Keeping
pub mod Names
mod Tests
use posix_next.Base.{
  ◌+◌, ℕ, Bool, true, false, ◌&&◌, ◌||◌, not, Option, none, some, List, [], ◌∷◌, ◌++◌, ◌==◌, ltb,
  if◌then◌else◌, length, take, get_or, CString, Errno, einval, emfile, eacces, eexist, enospc,
  enoent, Result, ok, err,
}

-- `struct shm_obj`; `mem` is empty where the pointer is NULL.
pub record Shm : Type 0 where
  pub addr : ℕ
  pub mem : List ℕ
  pub size : ℕ
  pub hash : ℕ
  pub unlinked : Bool

-- `shm_list`, and for each open descriptor the object that it refers to.
pub record World : Type 0 where
  pub objects : List Shm
  pub handles : List ℕ

-- Of `oflag`: the bits O_RDONLY, O_RDWR, O_CREAT, O_EXCL and O_TRUNC.
pub record Flags : Type 0 where
  pub rd : Bool
  pub rw : Bool
  pub creat : Bool
  pub excl : Bool
  pub trunc : Bool

-- `name` is read up to `len` bytes; its first byte is the terminator where it is empty.
unfoldable pub shm_obj_name_valid : Option CString → ℕ → Bool
shm_obj_name_valid none len = false
shm_obj_name_valid (some name) len =
    if not (get_or name 0 0 == b'/') then false else (if ltb len 2 then false else true)

-- The first object with the hash.
unfoldable pub shm_obj_find : ℕ → List Shm → Option Shm
shm_obj_find key [] = none
shm_obj_find key (o ∷ os) = if o.hash == key then some o else shm_obj_find key os

unfoldable pub shm_obj_add : Shm → List Shm → List Shm
shm_obj_add o os = os ++ (o ∷ [])

unfoldable pub shm_obj_remove : ℕ → List Shm → List Shm
shm_obj_remove a [] = []
shm_obj_remove a (o ∷ os) = if o.addr == a then os else o ∷ shm_obj_remove a os

-- The object at an address, and a write to it.
unfoldable pub object_at : ℕ → List Shm → Option Shm
object_at a [] = none
object_at a (o ∷ os) = if o.addr == a then some o else object_at a os

unfoldable pub update_at : ℕ → (Shm → Shm) → List Shm → List Shm
update_at a f [] = []
update_at a f (o ∷ os) = if o.addr == a then f o ∷ os else o ∷ update_at a f os

-- `zvfs_fd_obj_refcount`: the number of open descriptors of an object.
unfoldable pub refcount : ℕ → List ℕ → ℕ
refcount a [] = 0
refcount a (b ∷ bs) = if b == a then refcount a bs + 1 else refcount a bs

unfoldable pub drop_handle : ℕ → List ℕ → List ℕ
drop_handle a [] = []
drop_handle a (b ∷ bs) = if b == a then bs else b ∷ drop_handle a bs

-- `hash` is sys_hash32_djb2 and `path_max` PATH_MAX.
module _ (hash : CString → ℕ) (path_max : ℕ) where
  -- `strnlen(name, PATH_MAX)`
  abbrev pub name_len : Option CString → ℕ
  name_len none = 0
  name_len (some name) = length (take path_max name)

  -- `hash32(name, name_len)`
  abbrev pub key_of : CString → ℕ
  key_of name = hash (take path_max name)

  -- The tests of shm_open before it reserves a descriptor; `mode` is `mode & 0777`.
  unfoldable pub arguments_valid : Option CString → Flags → ℕ → Bool
  unfolding shm_obj_name_valid
  arguments_valid name flags mode =
      if mode == 0
      then false
      else (if (flags.rd && flags.rw) || (not flags.rd && not flags.rw)
          then false
          else (if flags.rd && flags.trunc then false else shm_obj_name_valid name (name_len name)))

  -- The rest, once a descriptor is reserved: `alloc` is what k_calloc returns.
  unfoldable pub open_key : ℕ → Flags → Option ℕ → World → Result ℕ × World
  unfolding shm_obj_find shm_obj_add
  open_key key flags alloc w = elim (shm_obj_find key w.objects) [
    | some o ↦
        if o.unlinked
        then (err eacces, w)
        else (if flags.creat && flags.excl
            then (err eexist, w)
            else (ok o.addr, record w { handles = o.addr ∷ w.handles }))
    | none ↦
        if flags.creat
        then elim alloc [
          | none ↦ (err enospc, w)
          | some a ↦ (
            ok a,
            record {
              objects =
                  shm_obj_add
                    (record { addr = a; mem = []; size = 0; hash = key; unlinked = false })
                    w.objects;
              handles = a ∷ w.handles;
            },
          )
        ]
        else (err enoent, w)
  ]

  -- On success the object that the new descriptor refers to. `fd_free` says whether
  -- zvfs_reserve_fd succeeds.
  unfoldable pub shm_open : Option CString → Flags → ℕ → Bool → Option ℕ → World → Result ℕ × World
  unfolding arguments_valid open_key
  shm_open none flags mode fd_free alloc w = (err einval, w)
  shm_open (some name) flags mode fd_free alloc w =
      if not (arguments_valid (some name) flags mode)
      then (err einval, w)
      else (if fd_free then open_key (key_of name) flags alloc w else (err emfile, w))

  unfoldable pub shm_unlink : Option CString → World → Result (Unit {0}) × World
  unfolding shm_obj_name_valid shm_obj_find shm_obj_remove refcount update_at
  shm_unlink none w = (err einval, w)
  shm_unlink (some name) w =
      if not (shm_obj_name_valid (some name) (name_len (some name)))
      then (err einval, w)
      else elim (shm_obj_find (key_of name) w.objects) [
        | none ↦ (err enoent, w)
        | some o ↦ if o.unlinked then (err enoent, w) else (
          ok tt,
          record w {
            objects =
                let os = update_at o.addr (λ p. record p { unlinked = true }) w.objects in
                if refcount o.addr w.handles == 0 then shm_obj_remove o.addr os else os;
          },
        )
      ]

-- `shm_close`, for the object at an address.
unfoldable pub shm_close : ℕ → List Shm → List Shm
unfolding shm_obj_remove object_at
shm_close a os = elim (object_at a os) [
  | none ↦ os
  | some o ↦ if o.unlinked then shm_obj_remove a os else os
]

-- What the descriptor table, which is not part of the repository, does at the close of a descriptor
-- of the object: it drops the descriptor, and calls shm_close where it was the last one.
unfoldable pub close_fd : ℕ → World → World
unfolding shm_close refcount drop_handle
close_fd a w =
    let hs = drop_handle a w.handles in
    record {
      objects = if refcount a hs == 0 then shm_close a w.objects else w.objects;
      handles = hs;
    }
