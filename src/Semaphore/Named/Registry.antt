-- ===== src/Semaphore/Named/Registry.antt =====
-- Laws of the object list of lib/posix/options/semaphores/semaphore.c.
use mathlib.Core.Option.{none, some}
use posix_next.Base.{inr, inl, Bool-cases, ◌++◌, [], ◌==◌, true, arith, if◌then◌else◌, ◌∷◌, ◌≡◌}
use mathlib.Core.Option as LibOption
use posix_next.Base.{refl, subst, sym, ◌∙◌}
use posix_next.Semaphore.Named.{
  ℕ, List, CString, Nsem, has_name, nsem_find, object_at, update_at, remove_object,
}

-- Every object has an address of its own.
abbrev pub UniqueAddrs : List Nsem → Type 0
UniqueAddrs [] = Unit {0}
UniqueAddrs (o ∷ os) = (object_at o.addr os ≡ none) × UniqueAddrs os

-- A write keeps the address.
abbrev pub KeepsAddr : (Nsem → Nsem) → Type 0
KeepsAddr f = (o : Nsem) → (f o).addr ≡ o.addr

pub object_at-update_at :
    (a b : ℕ) (f : Nsem → Nsem) (os : List Nsem)
    → KeepsAddr f
    → object_at b (update_at a f os)
      ≡ (if a == b then LibOption.map f (object_at b os) else object_at b os)
unfolding object_at update_at
object_at-update_at a b f [] k = ground arith
object_at-update_at a b f (o ∷ os) k = ground (arith, k o, object_at-update_at a b f os k)

pub object_at-remove_object :
    (a b : ℕ) (os : List Nsem)
    → object_at b (remove_object a os) ≡ (if a == b then none else object_at b os)
unfolding object_at remove_object
object_at-remove_object a b [] = ground arith
object_at-remove_object a b (o ∷ os) = ground (arith, object_at-remove_object a b os)

pub object_at-append :
    (a : ℕ) (os : List Nsem) (p : Nsem)
    → object_at a os ≡ none
    → object_at a (os ++ (p ∷ [])) ≡ (if p.addr == a then some p else none)
unfolding object_at
object_at-append a [] p h = refl
object_at-append a (o ∷ os) p h = ground (arith, object_at-append a os p)

pub object_at-append_some :
    (a : ℕ) (os : List Nsem) (p q : Nsem)
    → object_at a os ≡ some q
    → object_at a (os ++ (p ∷ [])) ≡ some q
unfolding object_at
object_at-append_some a [] p q h = cc
object_at-append_some a (o ∷ os) p q h = ground (arith, object_at-append_some a os p q)

pub UniqueAddrs-update_at :
    (a : ℕ) (f : Nsem → Nsem) (os : List Nsem)
    → KeepsAddr f
    → UniqueAddrs os
    → UniqueAddrs (update_at a f os)
unfolding update_at
UniqueAddrs-update_at a f [] k u = tt
UniqueAddrs-update_at a f (o ∷ os) k u = (
  subst (λ b. object_at b (update_at a f os) ≡ none) (sym kept)
      (object_at-update_at a o.addr f os k ∙ rw u.0 (ground arith)),
  UniqueAddrs-update_at a f os k u.1,
)
  where
    kept : (if o.addr == a then f o else o).addr ≡ o.addr
    kept = ground (arith, k o)

pub UniqueAddrs-remove_object :
    (a : ℕ) (os : List Nsem) → UniqueAddrs os → UniqueAddrs (remove_object a os)
unfolding remove_object
UniqueAddrs-remove_object a [] u = tt
UniqueAddrs-remove_object a (o ∷ os) u =
    ground (arith, UniqueAddrs-remove_object a os, object_at-remove_object a o.addr os)

pub UniqueAddrs-append :
    (os : List Nsem) (p : Nsem)
    → object_at p.addr os ≡ none
    → UniqueAddrs os
    → UniqueAddrs (os ++ (p ∷ []))
unfolding object_at
UniqueAddrs-append [] p h u = (refl, tt)
UniqueAddrs-append (o ∷ os) p h u =
    ground (arith, UniqueAddrs-append os p, object_at-append o.addr os p)

-- `nsem_find` leads to an object in the list that is linked under the name.
pub nsem_find-object_at :
    (n : CString) (os : List Nsem) (a : ℕ)
    → UniqueAddrs os
    → nsem_find n os ≡ some a
    → (o : Nsem) × (object_at a os ≡ some o) × (has_name n o.name ≡ true)
unfolding nsem_find object_at
nsem_find-object_at n [] a u h = cc
nsem_find-object_at n (o ∷ os) a u h = elim (Bool-cases (has_name n o.name)) [
  | inl hit ↦ (o, ground arith, hit)
  | inr miss ↦ let (p, e, m) = nsem_find-object_at n os a u.1 (ground arith) in (p, ground arith, m)
]
