-- ===== src/Shm/Lifetime.antt =====
-- How long an object of lib/posix/options/shared_memory_objects/shm.c lives.
use posix_next.Base.{
  ℕ, ◌≡◌, ◌<◌, Bool, true, false, ◌&&◌, not, Bool-cases, Option-cases, inl, inr, Option, none, some,
  List, [], ◌∷◌, CString, refl,
}
use posix_next.Shm.{
  World, Flags, object_at, shm_obj_find, refcount, key_of, name_len, arguments_valid,
  shm_obj_name_valid, open_key, shm_open, shm_unlink, close_fd,
}
use posix_next.Shm.Registry.{find-object_at}
use posix_next.Shm.Changes.{
  IsValid, opened-IsValid, created-IsValid, unlinked-IsValid, closed-IsValid,
}

pub data Call : Type 0 where
  opens : Option CString → Flags → ℕ → Bool → Option ℕ → Call
  unlinks : Option CString → Call
  closes : ℕ → Call

unfoldable pub step : (CString → ℕ) → ℕ → World → Call → World
step hash path_max w (opens name flags mode fd_free alloc) =
    (shm_open hash path_max name flags mode fd_free alloc w).1
step hash path_max w (unlinks name) = (shm_unlink hash path_max name w).1
step hash path_max w (closes a) = close_fd a w

-- The heap returns memory that no object of the list has, and a caller closes what it has open.
abbrev pub Permitted : World → Call → Type 0
Permitted w (opens name flags mode fd_free none) = Unit {0}
Permitted w (opens name flags mode fd_free (some a)) = object_at a w.objects ≡ none
Permitted w (unlinks name) = Unit {0}
Permitted w (closes a) = 0 < refcount a w.handles

module _ (hash : CString → ℕ) (path_max : ℕ) where
  abbrev pub AllPermitted : World → List Call → Type 0
  AllPermitted w [] = Unit {0}
  AllPermitted w (c ∷ cs) = Permitted w c × AllPermitted (step hash path_max w c) cs

  unfoldable pub run : World → List Call → World
  run w [] = w
  run w (c ∷ cs) = run (step hash path_max w c) cs

  abbrev Fresh : Option ℕ → World → Type 0
  Fresh none w = Unit {0}
  Fresh (some a) w = object_at a w.objects ≡ none

  open_key-IsValid :
      (key : ℕ) (flags : Flags) (alloc : Option ℕ) (w : World)
      → Fresh alloc w
      → IsValid w
      → IsValid (open_key hash path_max key flags alloc w).1
  unfolding open_key
  open_key-IsValid key flags alloc w fresh v = elim (Option-cases (shm_obj_find key w.objects)) [
    | inr (o, e) ↦ elim (Bool-cases o.unlinked) [
      | inl gone ↦ rw (open_key, e, gone) v
      | inr linked ↦ elim (Bool-cases (flags.creat && flags.excl)) [
        | inl exclusive ↦ rw (open_key, e, linked, exclusive) v
        | inr shared ↦
            rw (open_key, e, linked, shared)
              (opened-IsValid w o.addr o (find-object_at key w.objects o v.unique e) v)
      ]
    ]
    | inl e ↦ elim (Bool-cases flags.creat) [
      | inl creat ↦
          elim alloc as (λ m. Fresh m w → IsValid (open_key hash path_max key flags m w).1) [
            | none ↦ λ f. rw (open_key, e, creat) v
            | some a ↦ λ f.
                rw (open_key, e, creat)
                  (created-IsValid w
                    (record { addr = a; mem = []; size = 0; hash = key; unlinked = false }) f refl
                    v)
          ]
            fresh
      | inr plain ↦ rw (open_key, e, plain) v
    ]
  ]

  address_unused :
      (w : World) (name : CString) (flags : Flags) (mode : ℕ) (fd_free : Bool) (alloc : Option ℕ)
      → Permitted w (opens (some name) flags mode fd_free alloc)
      → Fresh alloc w
  address_unused w name flags mode fd_free none p = tt
  address_unused w name flags mode fd_free (some a) p = p

  call-IsValid :
      (w : World) (c : Call) → Permitted w c → IsValid w → IsValid (step hash path_max w c)
  unfolding step shm_open shm_unlink
  call-IsValid w (opens none flags mode fd_free alloc) p v = v
  call-IsValid w (opens (some name) flags mode fd_free alloc) p v =
      elim (Bool-cases (not (arguments_valid hash path_max (some name) flags mode))) [
        | inl bad ↦ rw (step, shm_open, bad) v
        | inr good ↦
            elim fd_free
              as (λ b. IsValid (step hash path_max w (opens (some name) flags mode b alloc))) [
                | true ↦
                    rw (step, shm_open, good)
                      (open_key-IsValid (key_of hash path_max name) flags alloc w
                        (address_unused w name flags mode fd_free alloc p) v)
                | false ↦ rw (step, shm_open, good) v
              ]
      ]
  call-IsValid w (unlinks none) p v = v
  call-IsValid w (unlinks (some name)) p v =
      elim (Bool-cases
        (not (shm_obj_name_valid (some name) (name_len hash path_max (some name))))) [
          | inl bad ↦ rw (step, shm_unlink, bad) v
          | inr good ↦ elim (Option-cases (shm_obj_find (key_of hash path_max name) w.objects)) [
            | inl e ↦ rw (step, shm_unlink, good, e) v
            | inr (o, e) ↦ elim (Bool-cases o.unlinked) [
              | inl gone ↦ rw (step, shm_unlink, good, e, gone) v
              | inr linked ↦
                  rw (step, shm_unlink, good, e, linked)
                    (unlinked-IsValid w o.addr o
                      (find-object_at (key_of hash path_max name) w.objects o v.unique e) v)
            ]
          ]
        ]
  call-IsValid w (closes a) p v = closed-IsValid w a p v

  pub run-IsValid :
      (w : World) (cs : List Call) → AllPermitted w cs → IsValid w → IsValid (run w cs)
  unfolding run
  run-IsValid w [] p v = v
  run-IsValid w (c ∷ cs) p v = run-IsValid (step hash path_max w c) cs p.1 (call-IsValid w c p.0 v)

abbrev pub start : World
start = record { objects = []; handles = [] }

pub start-IsValid : IsValid start
unfolding object_at refcount
start-IsValid = record { unique = tt; held = λ a. refl }
