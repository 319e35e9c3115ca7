-- ===== src/Shm/Names.antt =====
-- Names and hashes in lib/posix/options/shared_memory_objects/shm.c.
use posix_next.Base.{
  ℕ, ◌≡◌, arith, true, false, ◌&&◌, Option, none, some, List, [], ◌∷◌, CString, refl, ok,
}
use posix_next.Shm.{
  Shm, World, Flags, shm_obj_find, shm_obj_add, key_of, arguments_valid, open_key, shm_open,
}

find-add :
    (key : ℕ) (os : List Shm) (p : Shm)
    → shm_obj_find key os ≡ none
    → p.hash ≡ key
    → shm_obj_find key (shm_obj_add p os) ≡ some p
unfolding shm_obj_find shm_obj_add
find-add key [] p h e = ground arith
find-add key (o ∷ os) p h e = ground (arith, find-add key os p)

module _ (hash : CString → ℕ) (path_max : ℕ) where
  abbrev new_object : ℕ → ℕ → Shm
  new_object key a = record { addr = a; mem = []; size = 0; hash = key; unlinked = false }

  abbrev with_new : ℕ → ℕ → World → World
  with_new key a w = record {
    objects = shm_obj_add (new_object key a) w.objects;
    handles = a ∷ w.handles;
  }

  open_key-new :
      (key a : ℕ) (flags : Flags) (w : World)
      → flags.creat ≡ true
      → shm_obj_find key w.objects ≡ none
      → open_key hash path_max key flags (some a) w ≡ (ok a, with_new key a w)
  unfolding open_key
  open_key-new key a flags w creat absent = rw (open_key, absent, creat)

  open_key-shared :
      (key a : ℕ) (flags : Flags) (alloc : Option ℕ) (w : World)
      → (flags.creat && flags.excl) ≡ false
      → shm_obj_find key w.objects ≡ none
      → (open_key hash path_max key flags alloc (with_new key a w)).0 ≡ ok a
  unfolding open_key
  open_key-shared key a flags alloc w shared absent =
      rw (open_key, find-add key w.objects (new_object key a) absent refl, shared)

  -- An object is found by its hash alone: where two accepted names have the same hash, the second
  -- one opens the object that the first one created, with whatever flags that do not ask for a new
  -- object.
  pub shm_open-collision :
      (name other : CString) (create again : Flags) (mode a : ℕ) (alloc : Option ℕ) (w : World)
      → key_of hash path_max name ≡ key_of hash path_max other
      → arguments_valid hash path_max (some name) create mode ≡ true
      → arguments_valid hash path_max (some other) again mode ≡ true
      → create.creat ≡ true
      → (again.creat && again.excl) ≡ false
      → shm_obj_find (key_of hash path_max name) w.objects ≡ none
      → let (first, w') = shm_open hash path_max (some name) create mode true (some a) w in
        (first ≡ ok a) × ((shm_open hash path_max (some other) again mode true alloc w').0 ≡ ok a)
  unfolding shm_open open_key
  shm_open-collision name other create again mode a alloc w same fine fine' creat shared absent =
      rw (fine, open_key-new (key_of hash path_max name) a create w creat absent, fine', ← same)
        (refl, open_key-shared (key_of hash path_max name) a again alloc w shared absent)
