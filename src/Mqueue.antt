-- ===== src/Mqueue.antt =====
-- Message queues, lib/posix/options/message_passing/mqueue.c. Queues and descriptors are known by
-- their addresses. The kernel's k_msgq (MsgqOps), the heap and pthread_create are not part of the
-- repository: what they return is an argument, and `live` counts the blocks that k_malloc has
-- given and k_free has not taken back. Calls do not overlap.
pub mod Memory
pub mod Transfer
pub mod Fifo
pub mod Order
pub mod Events
pub mod Registration
mod Tests
use posix_next.Base.{
  ℕ, suc, ◌+◌, ◌-◌, ◌*◌, ◌%◌, ◌^◌, ◌≡◌, ◌<◌, Bool, true, false, ◌&&◌, ◌||◌, not, Option, none, some,
  List, [], ◌∷◌, ◌++◌, ◌==◌, ltb, if◌then◌else◌, length, take, CString, str_eq, Errno, einval,
  ebadf, eexist, enoent, enospc, enosys, ebusy, eagain, etimedout, emsgsize, enametoolong, Result,
  ok, err,
}
use posix_next.Kernel.{Timeout, forever, ms, Deadline, null, invalid, in_ms}

abbrev pub Message : Type 0
Message = List ℕ

-- How a wait on a k_msgq ends while no other thread runs.
pub data Put : Type 0 where
  stored : List Message → Put
  put_expired put_never : Put

pub data Get : Type 0 where
  taken : Message → List Message → Get
  get_expired get_never : Get

-- k_msgq_put has the limit, the messages and the new one; k_msgq_get has the messages.
pub record MsgqOps : Type 0 where
  pub put : Timeout → ℕ → List Message → Message → Put
  pub get : Timeout → List Message → Get
  pub put_room :
      (t : Timeout) (max : ℕ) (q : List Message) (m : Message)
      → length q < max
      → put t max q m ≡ stored (q ++ (m ∷ []))
  pub put_full_ms :
      (n max : ℕ) (q : List Message) (m : Message)
      → length q ≡ max
      → put (ms n) max q m ≡ put_expired
  pub put_full_forever :
      (max : ℕ) (q : List Message) (m : Message) → length q ≡ max → put forever max q m ≡ put_never
  pub get_cons : (t : Timeout) (m : Message) (q : List Message) → get t (m ∷ q) ≡ taken m q
  pub get_nil_ms : (n : ℕ) → get (ms n) [] ≡ get_expired
  pub get_nil_forever : get forever [] ≡ get_never

-- `sigev_notify`; `unset` is the 0 that memset leaves.
pub data Notify : Type 0 where
  unset no_signal signal thread : Notify

pub record Sigevent : Type 0 where
  pub notify : Notify
  pub attributes : Option ℕ

abbrev pub no_event : Sigevent
no_event = record { notify = unset; attributes = none }

-- `mqueue_object`
pub record Mqueue : Type 0 where
  pub addr : ℕ
  pub name : Option CString
  pub ref_count : ℕ
  pub msg_size : ℕ
  pub max_msgs : ℕ
  pub messages : List Message
  pub event : Sigevent

-- `mqueue_desc`
pub record Desc : Type 0 where
  pub addr : ℕ
  pub queue : ℕ
  pub nonblock : Bool

pub record World : Type 0 where
  pub queues : List Mqueue
  pub descs : List Desc
  pub live : ℕ

-- CONFIG_MQUEUE_NAMELEN_MAX, CONFIG_MSG_SIZE_MAX, CONFIG_POSIX_MQ_OPEN_MAX and SIZE_MAX + 1
pub record Config : Type 0 where
  pub namelen_max : ℕ
  pub msg_size_max : ℕ
  pub mq_open_max : ℕ
  pub size_mod : ℕ

pub record Flags : Type 0 where
  pub creat : Bool
  pub excl : Bool
  pub nonblock : Bool

-- `struct mq_attr` at an open; 0 stands for every value that is not positive.
pub record Limits : Type 0 where
  pub mq_msgsize : ℕ
  pub mq_maxmsg : ℕ

-- What the four calls of k_malloc return: the first two with the address.
pub record Heap : Type 0 where
  pub desc : Option ℕ
  pub object : Option ℕ
  pub name_fits : Bool
  pub buffer_fits : Bool

abbrev pub has_name : CString → Option CString → Bool
has_name n none = false
has_name n (some m) = str_eq m n

unfoldable pub find_in_list : CString → List Mqueue → Option ℕ
find_in_list n [] = none
find_in_list n (q ∷ qs) = if has_name n q.name then some q.addr else find_in_list n qs

unfoldable pub queue_at : ℕ → List Mqueue → Option Mqueue
queue_at a [] = none
queue_at a (q ∷ qs) = if q.addr == a then some q else queue_at a qs

unfoldable pub update_at : ℕ → (Mqueue → Mqueue) → List Mqueue → List Mqueue
update_at a f [] = []
update_at a f (q ∷ qs) = if q.addr == a then f q ∷ qs else q ∷ update_at a f qs

-- `sys_slist_find_and_remove`
unfoldable pub remove_at : ℕ → List Mqueue → List Mqueue
remove_at a [] = []
remove_at a (q ∷ qs) = if q.addr == a then qs else q ∷ remove_at a qs

unfoldable pub remove_desc : ℕ → List Desc → List Desc
remove_desc d [] = []
remove_desc d (e ∷ es) = if e.addr == d then es else e ∷ remove_desc d es

-- `remove_mq`: an object with no references leaves the list, and its buffer and itself the heap.
unfoldable pub remove_mq : ℕ → World → World
remove_mq a w = elim (queue_at a w.queues) [
  | none ↦ w
  | some q ↦
      if q.ref_count == 0 then record w { queues = remove_at a w.queues; live = w.live - 2 } else w
]

-- The part of mq_open after the descriptor has been allocated, where there is no queue yet: the
-- object, its name and its buffer. A failure takes back what was allocated on the way, but the
-- first test jumps past the label that frees the descriptor.
unfoldable pub create : Config → Heap → Bool → CString → Limits → ℕ → World → Result ℕ × World
create cfg heap nonblock name attrs d w =
    if ltb cfg.msg_size_max attrs.mq_msgsize || ltb cfg.mq_open_max attrs.mq_maxmsg
    then (err enospc, record w { live = w.live + 1 })
    else elim heap.object [
      | none ↦ (err enospc, record w { live = w.live + 1 - 1 })
      | some a ↦
          if heap.name_fits
          then (if not (ltb (attrs.mq_msgsize * attrs.mq_maxmsg) cfg.size_mod)
                || not heap.buffer_fits
              then (err enospc, record w { live = w.live + 3 - 3 })
              else (
                ok d,
                record {
                  queues =
                      w.queues
                      ++ (record {
                        addr = a;
                        name = some name;
                        ref_count = 1;
                        msg_size = attrs.mq_msgsize;
                        max_msgs = attrs.mq_maxmsg;
                        messages = [];
                        event = no_event;
                      }
                          ∷ []);
                  descs = record { addr = d; queue = a; nonblock = nonblock } ∷ w.descs;
                  live = w.live + 4;
                },
              ))
          else (err enospc, record w { live = w.live + 2 - 2 })
    ]

-- Where the queue exists.
unfoldable pub open_existing : ℕ → Bool → ℕ → World → Result ℕ × World
open_existing a nonblock d w = (
  ok d,
  record {
    queues = update_at a (λ q. record q { ref_count = q.ref_count + 1 }) w.queues;
    descs = record { addr = d; queue = a; nonblock = nonblock } ∷ w.descs;
    live = w.live + 1;
  },
)

abbrev pub limits_or_zero : Bool → Option Limits → Limits
limits_or_zero true (some attrs) = attrs
limits_or_zero creat attrs = record { mq_msgsize = 0; mq_maxmsg = 0 }

-- From the allocation of the descriptor on. `found` is the queue that the list had.
unfoldable pub open_found :
    Config → Heap → Flags → CString → Limits → Option ℕ → World → Result ℕ × World
unfolding create open_existing
open_found cfg heap flags name attrs found w = elim heap.desc [
  | none ↦ (err enospc, w)
  | some d ↦ elim found [
    | none ↦ create cfg heap flags.nonblock name attrs d w
    | some a ↦ open_existing a flags.nonblock d w
  ]
]

abbrev is_some : Option ℕ → Bool
is_some none = false
is_some (some a) = true

unfoldable pub mq_open :
    Config → Heap → Option CString → Flags → Option Limits → World → Result ℕ × World
unfolding open_found
mq_open cfg heap none flags attrs w = (err einval, w)
mq_open cfg heap (some name) flags attrs w =
    let a = limits_or_zero flags.creat attrs in
    if flags.creat && (a.mq_msgsize == 0 || a.mq_maxmsg == 0)
    then (err einval, w)
    else (if ltb cfg.namelen_max (length name + 1)
        then (err enametoolong, w)
        else (let found = find_in_list name w.queues in
            if is_some found && flags.creat && flags.excl
            then (err eexist, w)
            else (if not (is_some found) && not flags.creat
                then (err enoent, w)
                else open_found cfg heap flags name a found w)))

abbrev pub release : Mqueue → Mqueue
release q = record q { ref_count = q.ref_count - 1 }

abbrev pub no_name : Mqueue → Mqueue
no_name q = record q { name = none }

-- `mqd->mqueue->name == NULL`
abbrev pub is_unlinked : Option Mqueue → Bool
is_unlinked none = false
is_unlinked (some q) = elim q.name [ none ↦ true | some n ↦ false ]

unfoldable pub mq_close : Option Desc → World → Result (Unit {0}) × World
unfolding remove_mq
mq_close none w = (err ebadf, w)
mq_close (some d) w =
    let w' = record w { queues = update_at d.queue release w.queues } in
    let w'' = if is_unlinked (queue_at d.queue w'.queues) then remove_mq d.queue w' else w' in
    (ok tt, record w'' { descs = remove_desc d.addr w''.descs; live = w''.live - 1 })

unfoldable pub mq_unlink : CString → World → Result (Unit {0}) × World
unfolding remove_mq
mq_unlink name w = elim (find_in_list name w.queues) [
  | none ↦ (err ebadf, w)
  | some a ↦
      (ok tt, remove_mq a (record w { queues = update_at a no_name w.queues; live = w.live - 1 }))
]
