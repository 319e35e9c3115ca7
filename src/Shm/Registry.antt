-- ===== src/Shm/Registry.antt =====
-- Laws of the object list of lib/posix/options/shared_memory_objects/shm.c.
use mathlib.Core.Option as LibOption
use posix_next.Base.{
  ℕ, ◌-◌, ◌≡◌, arith, true, Bool-cases, inl, inr, ◌==◌, if◌then◌else◌, none, some, List, [], ◌∷◌,
  refl, subst,
}
use posix_next.Shm.{
  Shm, object_at, update_at, shm_obj_find, shm_obj_add, shm_obj_remove, refcount, drop_handle,
}

abbrev pub Unique : List Shm → Type 0
Unique [] = Unit {0}
Unique (o ∷ os) = (object_at o.addr os ≡ none) × Unique os

abbrev pub unlink : Shm → Shm
unlink o = record o { unlinked = true }

pub object_at-update_at :
    (a b : ℕ) (os : List Shm)
    → object_at b (update_at a unlink os)
      ≡ (if a == b then LibOption.map unlink (object_at b os) else object_at b os)
unfolding object_at update_at
object_at-update_at a b [] = ground arith
object_at-update_at a b (o ∷ os) = ground (arith, object_at-update_at a b os)

pub Unique-update_at : (a : ℕ) (os : List Shm) → Unique os → Unique (update_at a unlink os)
unfolding update_at
Unique-update_at a [] u = tt
Unique-update_at a (o ∷ os) u =
    ground (arith, Unique-update_at a os, object_at-update_at a o.addr os)

pub object_at-remove :
    (a b : ℕ) (os : List Shm)
    → Unique os
    → object_at b (shm_obj_remove a os) ≡ (if a == b then none else object_at b os)
unfolding object_at shm_obj_remove
object_at-remove a b [] u = ground arith
object_at-remove a b (o ∷ os) u = elim (Bool-cases (o.addr == a)) [
  | inl here ↦
      let e : o.addr ≡ a = ground arith in
      rw here (elim (Bool-cases (a == b)) [
        | inl same ↦ rw same (subst (λ k. object_at k os ≡ none) (ground arith) u.0)
        | inr apart ↦ ground arith
      ])
  | inr there ↦ ground (arith, object_at-remove a b os u.1)
]

pub Unique-remove : (a : ℕ) (os : List Shm) → Unique os → Unique (shm_obj_remove a os)
unfolding shm_obj_remove
Unique-remove a [] u = tt
Unique-remove a (o ∷ os) u = ground (arith, Unique-remove a os, object_at-remove a o.addr os)

pub object_at-add :
    (b : ℕ) (os : List Shm) (p : Shm)
    → object_at p.addr os ≡ none
    → object_at b (shm_obj_add p os) ≡ (if p.addr == b then some p else object_at b os)
unfolding object_at shm_obj_add
object_at-add b [] p h = ground arith
object_at-add b (o ∷ os) p h = ground (arith, object_at-add b os p)

pub Unique-add :
    (os : List Shm) (p : Shm) → object_at p.addr os ≡ none → Unique os → Unique (shm_obj_add p os)
unfolding object_at shm_obj_add
Unique-add [] p h u = (refl, tt)
Unique-add (o ∷ os) p h u = ground (arith, Unique-add os p, object_at-add o.addr os p)

pub find-object_at :
    (key : ℕ) (os : List Shm) (o : Shm)
    → Unique os
    → shm_obj_find key os ≡ some o
    → object_at o.addr os ≡ some o
unfolding object_at shm_obj_find
find-object_at key [] o u h = cc
find-object_at key (p ∷ os) o u h = elim (Bool-cases (p.hash == key)) [
  | inl hit ↦
      let e : p ≡ o = ground (arith, h) in
      subst (λ q. object_at q.addr (p ∷ os) ≡ some q) e (ground arith)
  | inr miss ↦
      let later : object_at o.addr os ≡ some o = find-object_at key os o u.1 (ground (arith, h)) in
      elim (Bool-cases (p.addr == o.addr)) [
        | inl same ↦
            let gone : object_at o.addr os ≡ none =
              subst (λ k. object_at k os ≡ none) {x = p.addr} (ground arith) u.0 in
            absurd (ground (arith, later, gone))
        | inr apart ↦ rw apart later
      ]
]

pub refcount-drop_handle :
    (a b : ℕ) (hs : List ℕ)
    → refcount b (drop_handle a hs) ≡ (if a == b then refcount b hs - 1 else refcount b hs)
unfolding refcount drop_handle
refcount-drop_handle a b [] = ground arith
refcount-drop_handle a b (h ∷ hs) = ground (arith, refcount-drop_handle a b hs)
