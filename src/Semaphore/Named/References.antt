-- ===== src/Semaphore/Named/References.antt =====
-- What one reference less does to the objects of lib/posix/options/semaphores/semaphore.c.
use posix_next.Semaphore.Named.Registry.{
  UniqueAddrs-update_at, UniqueAddrs-remove_object, object_at-update_at, UniqueAddrs,
  object_at-remove_object,
}
use mathlib.Core.Option.{Option}
use mathlib.Core.Option as LibOption
use posix_next.Base.{
  ◌≤◌, inr, arith, inl, false, true, ◌-◌, Bool-cases, Option-cases, ◌==◌, if◌then◌else◌, List, ◌<◌,
  ◌≡◌, ℕ, ◌+◌, refl, ◌∙◌, [], ◌∷◌, none, some,
}
use posix_next.Semaphore.Named.{int_max, Nsem, object_at, nsem_unref}
use posix_next.Semaphore.Named.World.{World, count, drop_handle, linked, Counts, IsValid}

count-drop_handle :
    (a b : ℕ) (hs : List ℕ)
    → count b (drop_handle a hs) ≡ (if a == b then count b hs - 1 else count b hs)
count-drop_handle a b [] = ground arith
count-drop_handle a b (h ∷ hs) = ground (arith, count-drop_handle a b hs)

-- The writes of sem_unlink and of sem_open.
abbrev pub no_name : Nsem → Nsem
no_name o = record o { name = none }

abbrev pub one_more : Nsem → Nsem
one_more o = record o { ref_count = o.ref_count + 1 }

pub count-drop_same :
    (a b : ℕ) (hs : List ℕ) → (a == b) ≡ true → count b (drop_handle a hs) ≡ count b hs - 1
count-drop_same a b hs h = ground (arith, count-drop_handle a b hs)

pub count-drop_other :
    (a b : ℕ) (hs : List ℕ) → (a == b) ≡ false → count b (drop_handle a hs) ≡ count b hs
count-drop_other a b hs h = ground (arith, count-drop_handle a b hs)

-- What one reference less does to every object.
pub object_at-unref :
    (a b : ℕ) (os : List Nsem) (o : Nsem)
    → object_at a os ≡ some o
    → object_at b (nsem_unref a os) ≡ (
        if a == b
        then (if o.ref_count == 1 then none else some (record o { ref_count = o.ref_count - 1 }))
        else object_at b os)
unfolding nsem_unref
object_at-unref a b os o e = elim (Bool-cases (o.ref_count == 1)) [
  | inl last ↦ rw (nsem_unref, e, last) (object_at-remove_object a b os)
  | inr more ↦
      rw (nsem_unref, e, more)
        (object_at-update_at a b (λ p. record p { ref_count = p.ref_count - 1 }) os (λ p. refl)
          ∙ same (object_at b os) (λ (t : (a == b) ≡ true). ground (arith, e)))
]
  where
    same :
        (q : Option Nsem)
        → ((a == b) ≡ true → q ≡ some o)
        → (if a == b
            then LibOption.map (λ (p : Nsem). record p { ref_count = p.ref_count - 1 }) q
            else q)
          ≡ (if a == b then some (record o { ref_count = o.ref_count - 1 }) else q)
    same q h = elim (Bool-cases (a == b)) [ inl t ↦ rw (t, h t) | inr f ↦ rw f ]

pub UniqueAddrs-unref : (a : ℕ) (os : List Nsem) → UniqueAddrs os → UniqueAddrs (nsem_unref a os)
unfolding nsem_unref
UniqueAddrs-unref a os u = elim (Option-cases (object_at a os)) [
  | inl e ↦ rw (nsem_unref, e) u
  | inr (o, e) ↦ elim (Bool-cases (o.ref_count == 1)) [
    | inl last ↦ rw (nsem_unref, e, last) (UniqueAddrs-remove_object a os u)
    | inr more ↦ rw (nsem_unref, e, more) (UniqueAddrs-update_at a _ os (λ p. refl) u)
  ]
]

pub unref-Counts :
    (a b h : ℕ) (os : List Nsem) (o : Nsem)
    → object_at a os ≡ some o
    → (if a == b
        then (o.ref_count ≡ h + 1 + linked o.name) × (o.ref_count ≤ int_max)
        else Counts (object_at b os) h)
    → Counts (object_at b (nsem_unref a os)) h
unref-Counts a b h os o e c = elim (Bool-cases (a == b)) [
  | inl same ↦ elim (Bool-cases (o.ref_count == 1)) [
    | inl last ↦ rw (object_at-unref a b os o e, same, last) (ground arith)
    | inr more ↦ rw (object_at-unref a b os o e, same, more) (ground arith)
  ]
  | inr other ↦ rw (object_at-unref a b os o e, other) (rw other at c)
]

-- The object at an address that is held.
pub held :
    (w : World) (a : ℕ)
    → IsValid w
    → 0 < count a w.handles
    → (o : Nsem) × (object_at a w.objects ≡ some o)
held w a v p = elim (Option-cases (object_at a w.objects)) [
  | inl e ↦ absurd (omega (arith, rw e at (v.counts a)))
  | inr (o, e) ↦ (o, e)
]

pub counts_at :
    (w : World) (a : ℕ) (o : Nsem)
    → IsValid w
    → object_at a w.objects ≡ some o
    → (o.ref_count ≡ count a w.handles + linked o.name)
      × (0 < o.ref_count)
      × (o.ref_count ≤ int_max)
counts_at w a o v e = rw e at (v.counts a)
