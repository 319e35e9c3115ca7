-- ===== src/Semaphore/Named/Lifetime.antt =====
-- How long a named semaphore of lib/posix/options/semaphores/semaphore.c lives.
use posix_next.Base.{
  ◌≤◌, ◌==◌, ◌≤◌, arith, subst, Option-cases, ◌<◌, inr, length, false, ◌+◌, inl, ltb, ◌&&◌, ◌⊎◌,
  true, Bool-cases, ◌≡◌, List, CString, Option, Bool, ℕ, refl, [], ◌∷◌, none, some,
}
use posix_next.Semaphore.Named.{
  int_max, int_max, has_name, Nsem, Config, Flags, nsem_find, object_at, sem_open, sem_unlink,
  open_existing, create,
}
use posix_next.Semaphore.Named.World.{
  Counts, World, Call, opens, unlinks, closes, count, linked, step, IsValid, Permitted, with_handle,
}
use posix_next.Semaphore.Named.Changes.{
  close-IsValid, unlinked-IsValid, reopened-IsValid, created-IsValid,
}
use posix_next.Semaphore.Named.Registry.{nsem_find-object_at}

linked_name :
    (n : CString) (m : Option CString) → has_name n m ≡ true → (k : CString) × (m ≡ some k)
linked_name n none h = cc
linked_name n (some k) h = (k, refl)

unlink-IsValid :
    (cfg : Config) (name : Option CString) (w : World)
    → IsValid w
    → IsValid (record w { objects = (sem_unlink cfg name w.objects).1 })
unfolding sem_unlink
unlink-IsValid cfg none w v = v
unlink-IsValid cfg (some n) w v = elim (Bool-cases (ltb cfg.namelen_max (length n + 1))) [
  | inl long ↦ rw long v
  | inr short ↦ elim (Option-cases (nsem_find n w.objects)) [
    | inl e ↦ rw (short, e) v
    | inr (a, e) ↦
        let (o, f, m) = nsem_find-object_at n w.objects a v.unique e in
        let (k, q) = linked_name n o.name m in rw (short, e) (unlinked-IsValid cfg w a v o k f q)
  ]
]

create-IsValid :
    (cfg : Config) (w : World) (creat : Bool) (alloc : Option ℕ) (name_fits : Bool) (n : CString)
    (value : ℕ)
    → IsValid w
    → ((a : ℕ) → alloc ≡ some a → object_at a w.objects ≡ none)
    → IsValid (with_handle (create creat alloc name_fits n value w.objects) w.handles)
unfolding create
create-IsValid cfg w false alloc name_fits n value v fresh = v
create-IsValid cfg w true none name_fits n value v fresh = v
create-IsValid cfg w true (some a) false n value v fresh = v
create-IsValid cfg w true (some a) true n value v fresh =
    created-IsValid cfg w a v n value (fresh a refl)

open_existing-IsValid :
    (cfg : Config) (w : World) (flags : Flags) (a : ℕ) (o : Nsem)
    → IsValid w
    → object_at a w.objects ≡ some o
    → IsValid (with_handle (open_existing flags a w.objects) w.handles)
unfolding open_existing
open_existing-IsValid cfg w flags a o v e = elim (Bool-cases (flags.creat && flags.excl)) [
  | inl refused ↦ rw refused v
  | inr opened ↦ elim (Bool-cases (o.ref_count == int_max)) [
    | inl full ↦ rw (opened, e, full) v
    | inr room ↦ rw (opened, e, room) (reopened-IsValid cfg w a v o e room)
  ]
]

open-IsValid :
    (cfg : Config) (name : Option CString) (flags : Flags) (value : ℕ) (alloc : Option ℕ)
    (name_fits : Bool) (w : World)
    → IsValid w
    → ((a : ℕ) → alloc ≡ some a → object_at a w.objects ≡ none)
    → IsValid (with_handle (sem_open cfg name flags value alloc name_fits w.objects) w.handles)
unfolding sem_open
open-IsValid cfg none flags value alloc name_fits w v fresh = v
open-IsValid cfg (some n) flags value alloc name_fits w v fresh =
    elim (Bool-cases (ltb cfg.value_max value)) [
      | inl large ↦ rw large v
      | inr fits ↦ elim (Bool-cases (ltb cfg.namelen_max (length n + 1))) [
        | inl long ↦ rw (fits, long) v
        | inr short ↦ elim (Option-cases (nsem_find n w.objects)) [
          | inl e ↦
              rw (fits, short, e) (create-IsValid cfg w flags.creat alloc name_fits n value v fresh)
          | inr (a, e) ↦
              let (o, f, m) = nsem_find-object_at n w.objects a v.unique e in
              rw (fits, short, e) (open_existing-IsValid cfg w flags a o v f)
        ]
      ]
    ]

-- Every permitted call keeps the reference counts right, failed calls included.
pub step-IsValid :
    (cfg : Config) (w : World) (c : Call) → Permitted w c → IsValid w → IsValid (step cfg w c)
unfolding step
step-IsValid cfg w (opens name flags value (some a) name_fits) p v =
    open-IsValid cfg name flags value (some a) name_fits w v
      (λ b e. subst (λ c. object_at c w.objects ≡ none) (ground arith) p)
step-IsValid cfg w (opens name flags value none name_fits) p v =
    open-IsValid cfg name flags value none name_fits w v (λ b e. cc)
step-IsValid cfg w (unlinks name) p v = unlink-IsValid cfg name w v
step-IsValid cfg w (closes a) p v = close-IsValid cfg w a v p

unfoldable pub run : Config → World → List Call → World
run cfg w [] = w
run cfg w (c ∷ cs) = run cfg (step cfg w c) cs

abbrev pub AllPermitted : Config → World → List Call → Type 0
AllPermitted cfg w [] = Unit {0}
AllPermitted cfg w (c ∷ cs) = Permitted w c × AllPermitted cfg (step cfg w c) cs

unfoldable pub start : World
start = record { objects = []; handles = [] }

run-IsValid :
    (cfg : Config) (w : World) (cs : List Call)
    → AllPermitted cfg w cs
    → IsValid w
    → IsValid (run cfg w cs)
unfolding run
run-IsValid cfg w [] p v = v
run-IsValid cfg w (c ∷ cs) p v = run-IsValid cfg (step cfg w c) cs p.1 (step-IsValid cfg w c p.0 v)

start-IsValid : IsValid start
unfolding start object_at
start-IsValid = record { unique = tt; counts = λ a. refl }

-- After any history of calls from the empty list, in which the heap returns addresses that no
-- object has and callers close only what they hold: where there is no object nobody holds the
-- address, and the reference count of an object is the number of its handles, and one more while
-- it has its name, it is not zero, and it fits into an int, since a sem_open that would take it
-- beyond INT_MAX stops at its assertion.
pub lifetime :
    (cfg : Config) (cs : List Call) (a : ℕ)
    → AllPermitted cfg start cs
    → let w = run cfg start cs in
      ((object_at a w.objects ≡ none) × (count a w.handles ≡ 0))
      ⊎ ((o : Nsem) × (object_at a w.objects ≡ some o)
          × (o.ref_count ≡ count a w.handles + linked o.name)
          × (0 < o.ref_count)
          × (o.ref_count ≤ int_max))
lifetime cfg cs a p =
    read (object_at a (run cfg start cs).objects)
      ((run-IsValid cfg start cs p start-IsValid).counts a) refl
  where
    read :
        (q : Option Nsem)
        → Counts q (count a (run cfg start cs).handles)
        → object_at a (run cfg start cs).objects ≡ q
        → ((object_at a (run cfg start cs).objects ≡ none)
            × (count a (run cfg start cs).handles ≡ 0))
          ⊎ ((o : Nsem) × (object_at a (run cfg start cs).objects ≡ some o)
              × (o.ref_count ≡ count a (run cfg start cs).handles + linked o.name)
              × (0 < o.ref_count)
              × (o.ref_count ≤ int_max))
    read none c e = inl (e, c)
    read (some o) c e = inr (o, e, c.0, c.1, c.2)
