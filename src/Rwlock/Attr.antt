-- ===== src/Rwlock/Attr.antt =====
-- Attribute objects of read-write locks, lib/posix/options/rw_locks/rwlock.c. A NULL pointer is
-- `none`; a call returns what is behind the pointer afterwards.
use posix_next.Base.{
  refl, inr, inl, Bool-cases, ◌≡◌, ℕ, Bool, true, false, Option, none, some, ◌==◌, ◌||◌,
  if◌then◌else◌, einval, Result, ok, err,
}

pub record Attr : Type 0 where
  pub initialized : Bool
  pub pshared : ℕ

abbrev pub process_private : ℕ
process_private = 0

abbrev pub process_shared : ℕ
process_shared = 1

pub getpshared : Option Attr → Result ℕ
getpshared none = err einval
getpshared (some a) = if a.initialized then ok a.pshared else err einval

pub setpshared : Option Attr → ℕ → Result (Unit {0}) × Option Attr
setpshared none p = (err einval, none)
setpshared (some a) p =
    if a.initialized
    then (if p == process_private || p == process_shared
        then (ok tt, some (record a { pshared = p }))
        else (err einval, some a))
    else (err einval, some a)

pub attr_init : Option Attr → Result (Unit {0}) × Option Attr
attr_init none = (err einval, none)
attr_init (some a) = (ok tt, some (record { initialized = true; pshared = process_private }))

pub attr_destroy : Option Attr → Result (Unit {0}) × Option Attr
attr_destroy none = (err einval, none)
attr_destroy (some a) =
    if a.initialized
    then (ok tt, some (record { initialized = false; pshared = 0 }))
    else (err einval, some a)

-- On an object that was initialised, getpshared returns the last value that setpshared accepted,
-- which are the two that POSIX names; any other value is refused and changes nothing.
pub getpshared-setpshared :
    (a : Attr) (p : ℕ)
    → let o = (attr_init (some a)).1 in
      let (r, o') = setpshared o p in
      if p == process_private || p == process_shared
      then (r ≡ ok tt) × (getpshared o' ≡ ok p)
      else (r ≡ err einval) × (getpshared o' ≡ ok process_private)
unfolding attr_init setpshared getpshared
getpshared-setpshared a p = elim (Bool-cases (p == process_private || p == process_shared)) [
  | inl valid ↦ rw valid (refl, refl)
  | inr other ↦ rw other (refl, refl)
]

-- Once destroyed, an object is refused by every call but init.
pub destroyed_is_refused :
    (a : Attr) (p : ℕ)
    → let o = (attr_destroy (some a)).1 in
      (getpshared o ≡ err einval)
      × (setpshared o p ≡ (err einval, o))
      × (attr_destroy o ≡ (err einval, o))
unfolding attr_destroy setpshared getpshared
destroyed_is_refused a p = elim (Bool-cases a.initialized) [
  | inl live ↦ rw live (refl, refl, refl)
  | inr dead ↦ rw dead (refl, refl, refl)
]
