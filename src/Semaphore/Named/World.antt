-- ===== src/Semaphore/Named/World.antt =====
-- A list of named semaphores of lib/posix/options/semaphores/semaphore.c and the handles to them.
use posix_next.Base.{[], suc, ◌==◌, ◌≤◌, ◌<◌, none, if◌then◌else◌, ◌+◌, err, Bool, ◌≡◌}
use posix_next.Semaphore.Named.{
  CString, ok, ◌∷◌, Opened, returns, asserts, int_max, List, Option, some, ℕ, Nsem, Config, Flags,
  object_at, sem_open, sem_unlink, sem_close,
}
use posix_next.Semaphore.Named.Registry.{UniqueAddrs}

-- The list, and the addresses that callers hold: one for each sem_open that is not closed yet.
pub record World : Type 0 where
  pub objects : List Nsem
  pub handles : List ℕ

abbrev pub count : ℕ → List ℕ → ℕ
count a [] = 0
count a (b ∷ bs) = if b == a then suc (count a bs) else count a bs

-- One handle less.
abbrev pub drop_handle : ℕ → List ℕ → List ℕ
drop_handle a [] = []
drop_handle a (b ∷ bs) = if b == a then bs else b ∷ drop_handle a bs

pub data Call : Type 0 where
  opens : Option CString → Flags → ℕ → Option ℕ → Bool → Call
  unlinks : Option CString → Call
  closes : ℕ → Call

abbrev pub with_handle : Opened × List Nsem → List ℕ → World
with_handle (returns (ok a), os) hs = record { objects = os; handles = a ∷ hs }
with_handle (returns (err e), os) hs = record { objects = os; handles = hs }
with_handle (asserts, os) hs = record { objects = os; handles = hs }

unfoldable pub step : Config → World → Call → World
step cfg w (opens name flags value alloc name_fits) =
    with_handle (sem_open cfg name flags value alloc name_fits w.objects) w.handles
step cfg w (unlinks name) = record w { objects = (sem_unlink cfg name w.objects).1 }
step cfg w (closes a) = record {
  objects = (sem_close (some a) w.objects).1;
  handles = drop_handle a w.handles;
}

abbrev pub linked : Option CString → ℕ
linked none = 0
linked (some n) = 1

-- An object counts the handles to it, and one more while it is linked; the count fits into an int;
-- where there is no object there is no handle.
abbrev pub Counts : Option Nsem → ℕ → Type 0
Counts none h = h ≡ 0
Counts (some o) h = (o.ref_count ≡ h + linked o.name) × (0 < o.ref_count) × (o.ref_count ≤ int_max)

pub record IsValid (w : World) : Type 0 where
  pub unique : UniqueAddrs w.objects
  pub counts : (a : ℕ) → Counts (object_at a w.objects) (count a w.handles)

-- The heap returns memory that no object of the list has, and a caller closes what it holds.
abbrev pub Permitted : World → Call → Type 0
Permitted w (opens name flags value (some a) name_fits) = object_at a w.objects ≡ none
Permitted w (opens name flags value none name_fits) = Unit {0}
Permitted w (unlinks name) = Unit {0}
Permitted w (closes a) = 0 < count a w.handles
