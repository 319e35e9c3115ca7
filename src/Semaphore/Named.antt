-- ===== src/Semaphore/Named.antt =====
-- Named semaphores, lib/posix/options/semaphores/semaphore.c: the list of objects and its reference
-- counts. An object is known by its address, and so is the `sem_t` in it. Each function holds
-- `nsem_mutex` while it works on the list, so a call is one step. What the allocator returns is an
-- argument.
pub mod Registry
pub mod World
pub mod References
pub mod Changes
pub mod Lifetime
use posix_next.Base.{
  ℕ, ◌+◌, ◌-◌, Bool, true, false, ◌&&◌, not, Option, none, some, List, [], ◌∷◌, ◌++◌, ◌==◌, ltb,
  if◌then◌else◌, length, CString, str_eq, Errno, einval, eexist, enoent, enospc, enametoolong,
  Result, ok, err,
}

-- What sem_open does: it returns, or its assertion that the count is not INT_MAX stops it.
pub data Opened : Type 0 where
  returns : Result ℕ → Opened
  asserts : Opened

abbrev pub int_max : ℕ
int_max = 2147483647

-- `struct nsem_obj`; the count is an int, which the assertion of sem_open keeps from overflowing;
-- `name` is NULL once the semaphore is unlinked, `value` is what the semaphore
-- was initialised with.
pub record Nsem : Type 0 where
  pub addr : ℕ
  pub name : Option CString
  pub ref_count : ℕ
  pub value : ℕ

-- CONFIG_POSIX_SEM_VALUE_MAX and CONFIG_POSIX_SEM_NAMELEN_MAX
pub record Config : Type 0 where
  pub value_max : ℕ
  pub namelen_max : ℕ

pub record Flags : Type 0 where
  pub creat : Bool
  pub excl : Bool

abbrev pub has_name : CString → Option CString → Bool
has_name n none = false
has_name n (some m) = str_eq m n

-- `nsem_find`: the first linked object of that name.
unfoldable pub nsem_find : CString → List Nsem → Option ℕ
nsem_find n [] = none
nsem_find n (o ∷ os) = if has_name n o.name then some o.addr else nsem_find n os

-- The object at an address.
unfoldable pub object_at : ℕ → List Nsem → Option Nsem
object_at a [] = none
object_at a (o ∷ os) = if o.addr == a then some o else object_at a os

-- A write to the object at an address.
unfoldable pub update_at : ℕ → (Nsem → Nsem) → List Nsem → List Nsem
update_at a f [] = []
update_at a f (o ∷ os) = (if o.addr == a then f o else o) ∷ update_at a f os

-- `sys_slist_find_and_remove`, and the memory of the object goes back to the heap.
unfoldable pub remove_object : ℕ → List Nsem → List Nsem
remove_object a [] = []
remove_object a (o ∷ os) = if o.addr == a then remove_object a os else o ∷ remove_object a os

abbrev pub set_refs : ℕ → Nsem → Nsem
set_refs n o = record o { ref_count = n }

-- A count of 0 after the decrement frees the object. The code asserts that it is not negative.
unfoldable pub nsem_unref : ℕ → List Nsem → List Nsem
nsem_unref a os = elim (object_at a os) [
  | none ↦ os
  | some o ↦
      if o.ref_count == 1
      then remove_object a os
      else update_at a (λ p. record p { ref_count = p.ref_count - 1 }) os
]

-- What is left of `sem_open` under the lock where no object has the name: `alloc` is the address
-- that the first k_calloc returns, `name_fits` says whether the second one succeeds.
unfoldable pub create : Bool → Option ℕ → Bool → CString → ℕ → List Nsem → Opened × List Nsem
create false alloc name_fits name value os = (returns (err enoent), os)
create true none name_fits name value os = (returns (err enospc), os)
create true (some a) false name value os = (returns (err enospc), os)
create true (some a) true name value os = (
  returns (ok a),
  os ++ (record { addr = a; name = some name; ref_count = 2; value = value } ∷ []),
)

abbrev pub refs_of : Option Nsem → ℕ
refs_of none = 0
refs_of (some o) = o.ref_count

-- Where an object has the name.
unfoldable pub open_existing : Flags → ℕ → List Nsem → Opened × List Nsem
unfolding object_at
open_existing flags a os =
    if flags.creat && flags.excl
    then (returns (err eexist), os)
    else if refs_of (object_at a os) == int_max
    then (asserts, os)
    else (returns (ok a), update_at a (λ o. record o { ref_count = o.ref_count + 1 }) os)

-- `value` is what `va_arg` yields, which the code takes and tests also where O_CREAT is not set.
unfoldable pub sem_open :
    Config → Option CString → Flags → ℕ → Option ℕ → Bool → List Nsem → Opened × List Nsem
unfolding create open_existing
sem_open cfg none flags value alloc name_fits os = (returns (err einval), os)
sem_open cfg (some name) flags value alloc name_fits os =
    if ltb cfg.value_max value
    then (returns (err einval), os)
    else (if ltb cfg.namelen_max (length name + 1)
        then (returns (err enametoolong), os)
        else elim (nsem_find name os) [
          | some a ↦ open_existing flags a os
          | none ↦ create flags.creat alloc name_fits name value os
        ])

unfoldable pub sem_unlink : Config → Option CString → List Nsem → Result (Unit {0}) × List Nsem
unfolding nsem_unref
sem_unlink cfg none os = (err einval, os)
sem_unlink cfg (some name) os =
    if ltb cfg.namelen_max (length name + 1)
    then (err enametoolong, os)
    else elim (nsem_find name os) [
      | none ↦ (err enoent, os)
      | some a ↦ (ok tt, nsem_unref a (update_at a (λ o. record o { name = none }) os))
    ]

unfoldable pub sem_close : Option ℕ → List Nsem → Result (Unit {0}) × List Nsem
unfolding nsem_unref
sem_close none os = (err einval, os)
sem_close (some a) os = (ok tt, nsem_unref a os)
