-- ===== src/Mqueue/Tests.antt =====
-- The theorems on lib/posix/options/message_passing/mqueue.c at concrete queues.
use posix_next.Base.{
  ℕ, ◌≡◌, refl, arith, true, false, ltb, if◌then◌else◌, Option, none, some, List, [], ◌∷◌, ◌++◌,
  length, Errno,
}
use posix_next.Kernel.{Timeout, forever, ms, in_ms}
use posix_next.Mqueue.{
  Message, Put, stored, put_expired, put_never, Get, taken, get_expired, get_never, MsgqOps, thread,
  World, Config, Flags, Heap, mq_open,
}
use posix_next.Mqueue.Transfer.{Handle, send_message, receive_message}
use posix_next.Mqueue.Fifo.{
  state_of, sends_to, receives_from, send_message-sends_to, receive_message-receives_from,
}
use posix_next.Mqueue.Order.{Call, sends, sends_until, receives, Log, InOrder, run, run-InOrder}
use posix_next.Mqueue.Memory.{Accounted, mq_open-Accounted}

-- A kernel queue that stores what fits and gives the oldest message.
abbrev full_put : Timeout → Put
full_put forever = put_never
full_put (ms n) = put_expired

abbrev list_put : Timeout → ℕ → List Message → Message → Put
list_put t max q m = if ltb (length q) max then stored (q ++ (m ∷ [])) else full_put t

abbrev list_get : Timeout → List Message → Get
list_get forever [] = get_never
list_get (ms n) [] = get_expired
list_get t (m ∷ q) = taken m q

list_get_cons : (t : Timeout) (m : Message) (q : List Message) → list_get t (m ∷ q) ≡ taken m q
list_get_cons forever m q = refl
list_get_cons (ms n) m q = refl

list_queue : MsgqOps
list_queue = record {
  put = list_put;
  get = list_get;
  put_room = λ t max q m h. let e : ltb (length q) max ≡ true = ground (arith, h) in rw e refl;
  put_full_ms = λ n max q m h. let e : ltb (length q) max ≡ false = ground (arith, h) in rw e refl;
  put_full_forever =
      λ max q m h. let e : ltb (length q) max ≡ false = ground (arith, h) in rw e refl;
  get_cons = list_get_cons;
  get_nil_ms = λ n. refl;
  get_nil_forever = refl;
}

abbrev spawn : Option ℕ → Option Errno
spawn a = none

-- Two messages of up to two bytes, and a thread for each message.
abbrev empty_queue : Handle
empty_queue = record {
  nonblock = false;
  object = record {
    addr = 1;
    name = some (97 ∷ []);
    ref_count = 1;
    msg_size = 2;
    max_msgs = 2;
    messages = [];
    event = record { notify = thread; attributes = none };
  };
}

abbrev new_log : Log
new_log = record { handle = empty_queue; sent = []; received = [] }

abbrev traffic : List Call
traffic =
    sends (1 ∷ 2 ∷ []) 2
    ∷ sends (3 ∷ 4 ∷ []) 1
    ∷ sends_until (5 ∷ 6 ∷ []) 2 (in_ms 10)
    ∷ receives 2
    ∷ []

run-InOrder_example : InOrder list_queue spawn (run list_queue spawn new_log traffic)
run-InOrder_example = run-InOrder list_queue spawn new_log traffic (λ a. refl) (refl, omega arith)

send_message-sends_to_example :
    state_of (send_message list_queue spawn (some empty_queue) (1 ∷ 2 ∷ []) 2 forever)
    ≡ sends_to (some empty_queue) (1 ∷ 2 ∷ []) 2 forever
send_message-sends_to_example =
    send_message-sends_to list_queue spawn (some empty_queue) (1 ∷ 2 ∷ []) 2 forever (λ a. refl)
      (omega arith)

receive_message-receives_from_example :
    receive_message list_queue spawn (some empty_queue) 2 (ms 4)
    ≡ receives_from (some empty_queue) 2 (ms 4)
receive_message-receives_from_example =
    receive_message-receives_from list_queue spawn (some empty_queue) 2 (ms 4)

abbrev cfg : Config
cfg = record { namelen_max = 16; msg_size_max = 32; mq_open_max = 8; size_mod = 4294967296 }

abbrev heap : Heap
heap = record { desc = some 2; object = some 1; name_fits = true; buffer_fits = true }

abbrev creating : Flags
creating = record { creat = true; excl = true; nonblock = false }

abbrev no_queues : World
no_queues = record { queues = []; descs = []; live = 0 }

mq_open-Accounted_example : Accounted no_queues (
    mq_open cfg heap
      (some (97 ∷ []))
      creating
      (some (record { mq_msgsize = 2; mq_maxmsg = 2 }))
      no_queues)
mq_open-Accounted_example =
    mq_open-Accounted cfg heap (some (97 ∷ [])) creating
      (some (record { mq_msgsize = 2; mq_maxmsg = 2 })) no_queues refl

abbrev spawn_attr : ℕ → Option Errno
spawn_attr a = none
