-- ===== src/Mqueue/Memory.antt =====
-- The blocks of the heap that mq_open of lib/posix/options/message_passing/mqueue.c takes.
use posix_next.Base.{
  ℕ, ◌+◌, ◌-◌, ◌*◌, ◌≡◌, arith, Bool, true, false, not, ◌&&◌, ◌||◌, Bool-cases, Option-cases, List,
  [], ◌∷◌, ◌++◌, suc, length-append, inl, inr, if◌then◌else◌, Option, none, some, refl, ap, ◌==◌,
  ltb, length, CString, enospc, Result, ok, err,
}
use posix_next.Mqueue.{
  Mqueue, update_at, World, Config, Flags, Limits, Heap, find_in_list, create, open_existing,
  limits_or_zero, open_found, mq_open, is_some,
}

-- The attributes of an O_CREAT are within CONFIG_MSG_SIZE_MAX and CONFIG_POSIX_MQ_OPEN_MAX.
abbrev pub is_oversized : Config → Limits → Bool
is_oversized cfg a = ltb cfg.msg_size_max a.mq_msgsize || ltb cfg.mq_open_max a.mq_maxmsg

-- After an error everything is as before; a success adds a descriptor, and four blocks with a new
-- queue or one without.
abbrev pub Accounted : World → Result ℕ × World → Type 0
Accounted w (err e, w') = w' ≡ w
Accounted w (ok d, w') =
    (length w'.descs ≡ length w.descs + 1)
    × (w'.live ≡ w.live + 3 * (length w'.queues - length w.queues) + 1)

live_back : (w : World) (n : ℕ) → record w { live = w.live + n - n } ≡ w
live_back w n = ap (λ k. record w { live = k }) (omega arith)

either :
    (w : World) (b : Bool) (x y : Result ℕ × World)
    → Accounted w x
    → Accounted w y
    → Accounted w (if b then x else y)
either w true x y hx hy = hx
either w false x y hx hy = hy

length-update_at :
    (a : ℕ) (f : Mqueue → Mqueue) (qs : List Mqueue) → length (update_at a f qs) ≡ length qs
unfolding update_at
length-update_at a f [] = refl
length-update_at a f (q ∷ qs) = elim (Bool-cases (q.addr == a)) [
  | inl here ↦ rw here refl
  | inr there ↦ rw there (ap suc (length-update_at a f qs))
]

added :
    (qs : List Mqueue) (q : Mqueue) (n : ℕ)
    → n + 4 ≡ n + 3 * (length (qs ++ (q ∷ [])) - length qs) + 1
added qs q n = omega (arith, length-append qs (q ∷ []))

create-Accounted :
    (cfg : Config) (heap : Heap) (nonblock : Bool) (name : CString) (a : Limits) (d : ℕ) (w : World)
    → is_oversized cfg a ≡ false
    → Accounted w (create cfg heap nonblock name a d w)
unfolding create
create-Accounted cfg heap nonblock name a d w fits = elim (Option-cases heap.object) [
  | inl e ↦ rw (fits, e) (live_back w 1)
  | inr (o, e) ↦
      rw (fits, e)
        (either w heap.name_fits _ _
          (either w (not (ltb (a.mq_msgsize * a.mq_maxmsg) cfg.size_mod) || not heap.buffer_fits) _
            _ (live_back w 3) (omega arith, added w.queues _ w.live))
          (live_back w 2))
]

open_existing-Accounted :
    (a : ℕ) (nonblock : Bool) (d : ℕ) (w : World) → Accounted w (open_existing a nonblock d w)
unfolding open_existing
open_existing-Accounted a nonblock d w = (
  omega arith,
  omega (arith, length-update_at a (λ q. record q { ref_count = q.ref_count + 1 }) w.queues),
)

open_found-Accounted :
    (cfg : Config) (heap : Heap) (flags : Flags) (name : CString) (a : Limits) (found : Option ℕ)
    (w : World)
    → is_oversized cfg a ≡ false
    → Accounted w (open_found cfg heap flags name a found w)
unfolding open_found
open_found-Accounted cfg heap flags name a found w fits = elim (Option-cases heap.desc) [
  | inl e ↦ rw e refl
  | inr (d, e) ↦
      rw e
        (elim found
          as (λ f. Accounted w (elim f [
            | none ↦ create cfg heap flags.nonblock name a d w
            | some q ↦ open_existing q flags.nonblock d w
          ])) [
            | none ↦ create-Accounted cfg heap flags.nonblock name a d w fits
            | some q ↦ open_existing-Accounted q flags.nonblock d w
          ])
]

-- An O_CREAT or an open within the limits either succeeds with a descriptor, and four blocks of the
-- heap where the queue is new, one where it is not, or fails and changes nothing.
pub mq_open-Accounted :
    (cfg : Config) (heap : Heap) (name : Option CString) (flags : Flags) (attrs : Option Limits)
    (w : World)
    → is_oversized cfg (limits_or_zero flags.creat attrs) ≡ false
    → Accounted w (mq_open cfg heap name flags attrs w)
unfolding mq_open open_found
mq_open-Accounted cfg heap none flags attrs w fits = refl
mq_open-Accounted cfg heap (some name) flags attrs w fits =
    let a = limits_or_zero flags.creat attrs in
    let found = find_in_list name w.queues in
    either w (flags.creat && (a.mq_msgsize == 0 || a.mq_maxmsg == 0)) _ _ refl (
      either w (ltb cfg.namelen_max (length name + 1)) _ _ refl (
        either w (is_some found && flags.creat && flags.excl) _ _ refl (
          either w (not (is_some found) && not flags.creat) _ _ refl
            (open_found-Accounted cfg heap flags name a found w fits))))

-- An O_CREAT of a new name with attributes over the limits, where the heap has a descriptor, fails
-- with ENOSPC and keeps the block: no descriptor refers to it.
pub oversized_leaks :
    (cfg : Config) (heap : Heap) (name : CString) (flags : Flags) (a : Limits) (d : ℕ) (w : World)
    → flags.creat ≡ true
    → (a.mq_msgsize == 0 || a.mq_maxmsg == 0) ≡ false
    → ltb cfg.namelen_max (length name + 1) ≡ false
    → find_in_list name w.queues ≡ none
    → heap.desc ≡ some d
    → is_oversized cfg a ≡ true
    → mq_open cfg heap (some name) flags (some a) w ≡ (err enospc, record w { live = w.live + 1 })
unfolding mq_open open_found create
oversized_leaks cfg heap name flags a d w creat positive short absent allocated large =
    rw (creat, positive, short, absent, allocated, large)
