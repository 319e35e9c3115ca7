-- ===== src/Shm/Keeping.antt =====
-- When an object of lib/posix/options/shared_memory_objects/shm.c leaves the list.
use posix_next.Base.{
  ◌<◌, ℕ, ◌≡◌, arith, Bool, true, false, ◌&&◌, not, ◌⊎◌, Bool-cases, Option-cases, inl, inr, ◌==◌,
  if◌then◌else◌, Option, none, some, List, [], ◌∷◌, CString, refl, subst,
}
use posix_next.Shm.{
  Shm, World, Flags, object_at, shm_obj_find, refcount, key_of, name_len, arguments_valid,
  shm_obj_name_valid, open_key, shm_open, shm_unlink, close_fd, drop_handle, shm_obj_add,
}
use posix_next.Shm.Registry.{
  find-object_at, object_at-add, object_at-update_at, object_at-remove, Unique-update_at,
}
use posix_next.Shm.Changes.{Held, IsValid, object_at-closed, unlinked_objects, closed_objects}
use posix_next.Shm.Lifetime.{
  Call, opens, unlinks, closes, step, Permitted, AllPermitted, run, start, run-IsValid,
  start-IsValid,
}

module _ (hash : CString → ℕ) (path_max : ℕ) where
  -- The call is a shm_unlink of a name with the hash of the object.
  abbrev pub IsUnlink : Call → Shm → Type 0
  IsUnlink (opens name flags mode fd_free alloc) o = ⊥
  IsUnlink (unlinks none) o = ⊥
  IsUnlink (unlinks (some name)) o = key_of hash path_max name ≡ o.hash
  IsUnlink (closes a) o = ⊥

  -- What a call does to an object at an address: the object loses its name in a shm_unlink of it
  -- only, and leaves the list only in such a call or if it had lost its name before.
  abbrev pub Kept : Call → Option Shm → Option Shm → Type 0
  Kept c none q = Unit {0}
  Kept c (some o) none = (o.unlinked ≡ true) ⊎ IsUnlink c o
  Kept c (some o) (some p) = (p.unlinked ≡ o.unlinked) ⊎ IsUnlink c o

  Kept-same : (c : Call) (q : Option Shm) → Kept c q q
  Kept-same c none = tt
  Kept-same c (some o) = inl refl

  find-hash : (key : ℕ) (os : List Shm) (o : Shm) → shm_obj_find key os ≡ some o → key ≡ o.hash
  unfolding shm_obj_find
  find-hash key [] o e = cc
  find-hash key (p ∷ os) o e = elim (Bool-cases (p.hash == key)) [
    | inl hit ↦
        let same : p ≡ o = ground (arith, e) in subst (λ q. key ≡ q.hash) same (ground arith)
    | inr miss ↦ find-hash key os o (ground (arith, e))
  ]

  Kept-add :
      (c : Call) (a : ℕ) (os : List Shm) (p : Shm)
      → object_at p.addr os ≡ none
      → Kept c (object_at a os) (object_at a (shm_obj_add p os))
  Kept-add c a os p fresh = rw (object_at-add a os p fresh) (elim (Bool-cases (p.addr == a)) [
    | inl same ↦
        let gone : object_at a os ≡ none =
          subst (λ k. object_at k os ≡ none) {x = p.addr} (ground arith) fresh in
        rw gone tt
    | inr other ↦ rw other (Kept-same c (object_at a os))
  ])

  abbrev Fresh : Option ℕ → World → Type 0
  Fresh none w = Unit {0}
  Fresh (some a) w = object_at a w.objects ≡ none

  Kept-open_key :
      (c : Call) (a key : ℕ) (flags : Flags) (alloc : Option ℕ) (w : World)
      → Fresh alloc w
      → Kept c
          (object_at a w.objects)
          (object_at a (open_key hash path_max key flags alloc w).1.objects)
  unfolding open_key
  Kept-open_key c a key flags alloc w fresh = elim (Option-cases (shm_obj_find key w.objects)) [
    | inr (o, e) ↦ elim (Bool-cases o.unlinked) [
      | inl gone ↦ rw (open_key, e, gone) (Kept-same c (object_at a w.objects))
      | inr linked ↦ elim (Bool-cases (flags.creat && flags.excl)) [
        | inl exclusive ↦ rw (open_key, e, linked, exclusive) (Kept-same c (object_at a w.objects))
        | inr shared ↦ rw (open_key, e, linked, shared) (Kept-same c (object_at a w.objects))
      ]
    ]
    | inl e ↦ elim (Bool-cases flags.creat) [
      | inl creat ↦
          elim alloc
              as (λ m.
                Fresh m w
                → Kept c (object_at a w.objects)
                    (object_at a (open_key hash path_max key flags m w).1.objects)) [
                      | none ↦ λ f. rw (open_key, e, creat) (Kept-same c (object_at a w.objects))
                      | some b ↦ λ f.
                          rw (open_key, e, creat)
                            (Kept-add c a w.objects
                              (record {
                                addr = b;
                                mem = [];
                                size = 0;
                                hash = key;
                                unlinked = false;
                              })
                              f)
                    ]
            fresh
      | inr plain ↦ rw (open_key, e, plain) (Kept-same c (object_at a w.objects))
    ]
  ]

  Permitted-Fresh :
      (w : World) (name : Option CString) (flags : Flags) (mode : ℕ) (fd_free : Bool)
      (alloc : Option ℕ)
      → Permitted w (opens name flags mode fd_free alloc)
      → Fresh alloc w
  Permitted-Fresh w name flags mode fd_free none p = tt
  Permitted-Fresh w name flags mode fd_free (some a) p = p

  Kept-unlinked :
      (w : World) (name : CString) (o : Shm) (a : ℕ)
      → IsValid w
      → shm_obj_find (key_of hash path_max name) w.objects ≡ some o
      → Kept (unlinks (some name)) (object_at a w.objects) (object_at a (unlinked_objects o.addr w))
  Kept-unlinked w name o a v e =
      let key = key_of hash path_max name in
      let here = find-object_at key w.objects o v.unique e in
      elim (Bool-cases (o.addr == a)) [
        | inl same ↦
            let at_a : object_at a w.objects ≡ some o =
              subst (λ k. object_at k w.objects ≡ some o) {x = o.addr} (ground arith) here in
            rw at_a (named (object_at a (unlinked_objects o.addr w)) (find-hash key w.objects o e))
        | inr other ↦ elim (Bool-cases (refcount o.addr w.handles == 0)) [
          | inl unused ↦
              rw
                (
                  unused,
                  object_at-remove o.addr a _ (Unique-update_at o.addr w.objects v.unique),
                  other,
                  object_at-update_at o.addr a w.objects,
                  other,
                )
                (Kept-same (unlinks (some name)) (object_at a w.objects))
          | inr used ↦
              rw (used, object_at-update_at o.addr a w.objects, other)
                (Kept-same (unlinks (some name)) (object_at a w.objects))
        ]
      ]
    where
      named :
          (q : Option Shm)
          → key_of hash path_max name ≡ o.hash
          → Kept (unlinks (some name)) (some o) q
      named none h = inr h
      named (some p) h = inr h

  Kept-closed :
      (w : World) (a b : ℕ)
      → 0 < refcount b w.handles
      → IsValid w
      → Kept (closes b) (object_at a w.objects) (object_at a (closed_objects b w))
  Kept-closed w a b open_once v = elim (Option-cases (object_at b w.objects)) [
    | inl e ↦
        let h : Held none (refcount b w.handles) =
          subst (λ q. Held q (refcount b w.handles)) e (v.held b) in
        absurd (omega (arith, h))
    | inr (o, e) ↦ rw (object_at-closed w b a o e v) (elim (Bool-cases (b == a)) [
      | inl same ↦
          let at_a : object_at a w.objects ≡ some o =
            subst (λ k. object_at k w.objects ≡ some o) {x = b} (ground arith) e in
          rw (same, at_a) (left (refcount b (drop_handle b w.handles) == 0) o)
      | inr other ↦ rw other (Kept-same (closes b) (object_at a w.objects))
    ])
  ]
    where
      left :
          (last : Bool) (o : Shm)
          → Kept (closes b) (some o) (if last && o.unlinked then none else some o)
      left true o = elim (Bool-cases o.unlinked) [
        | inl gone ↦ rw gone (inl refl)
        | inr linked ↦ rw linked (inl refl)
      ]
      left false o = inl refl

  Kept-step :
      (w : World) (c : Call) (a : ℕ)
      → Permitted w c
      → IsValid w
      → Kept c (object_at a w.objects) (object_at a (step hash path_max w c).objects)
  unfolding step shm_open shm_unlink close_fd
  Kept-step w (opens none flags mode fd_free alloc) a p v =
      Kept-same (opens none flags mode fd_free alloc) (object_at a w.objects)
  Kept-step w (opens (some name) flags mode fd_free alloc) a p v =
      let c = opens (some name) flags mode fd_free alloc in
      elim (Bool-cases (not (arguments_valid hash path_max (some name) flags mode))) [
        | inl bad ↦ rw (step, shm_open, bad) (Kept-same c (object_at a w.objects))
        | inr good ↦ elim (Bool-cases fd_free) [
          | inl free ↦
              rw (step, shm_open, good, free)
                (Kept-open_key c a (key_of hash path_max name) flags alloc w
                  (Permitted-Fresh w (some name) flags mode fd_free alloc p))
          | inr full ↦ rw (step, shm_open, good, full) (Kept-same c (object_at a w.objects))
        ]
      ]
  Kept-step w (unlinks none) a p v = Kept-same (unlinks none) (object_at a w.objects)
  Kept-step w (unlinks (some name)) a p v =
      let c = unlinks (some name) in
      elim (Bool-cases
        (not (shm_obj_name_valid (some name) (name_len hash path_max (some name))))) [
          | inl bad ↦ rw (step, shm_unlink, bad) (Kept-same c (object_at a w.objects))
          | inr good ↦ elim (Option-cases (shm_obj_find (key_of hash path_max name) w.objects)) [
            | inl e ↦ rw (step, shm_unlink, good, e) (Kept-same c (object_at a w.objects))
            | inr (o, e) ↦ elim (Bool-cases o.unlinked) [
              | inl gone ↦
                  rw (step, shm_unlink, good, e, gone) (Kept-same c (object_at a w.objects))
              | inr linked ↦ rw (step, shm_unlink, good, e, linked) (Kept-unlinked w name o a v e)
            ]
          ]
        ]
  Kept-step w (closes b) a p v = Kept-closed w a b p v

-- After any history of shm_open, shm_unlink and close from the empty list, in which the heap
-- returns memory that no object has and callers close only what they have open: an open descriptor
-- refers to an object of the list, and an object without a name has an open descriptor. The next
-- such call takes the name of an object only if it is a shm_unlink of a name with its hash, and takes
-- it off the list only if it is such a call or if the object had no name any more.
pub run-Kept :
    (hash : CString → ℕ) (path_max : ℕ) (cs : List Call) (c : Call) (a : ℕ)
    → AllPermitted hash path_max start cs
    → Permitted (run hash path_max start cs) c
    → let w = run hash path_max start cs in
      Held (object_at a w.objects) (refcount a w.handles)
      × Kept hash path_max c (object_at a w.objects) (object_at a (step hash path_max w c).objects)
run-Kept hash path_max cs c a p q =
    let v = run-IsValid hash path_max start cs p start-IsValid in
    (v.held a, Kept-step hash path_max (run hash path_max start cs) c a q v)
