-- ===== src/Mqueue/Fifo.antt =====
-- What sending and receiving of lib/posix/options/message_passing/mqueue.c do on every branch, and
-- the order of the messages.
use posix_next.Base.{
  etimedout, true, suc, eagain, sym, Bool, ebadf, ◌-◌, emsgsize, ℕ, ◌+◌, ◌%◌, ◌^◌, ◌≤◌, ◌≡◌, arith,
  Option, none, some, List, [], ◌∷◌, ◌++◌, ltb, if◌then◌else◌, Bool-cases, inl, inr, length, take,
  Errno, refl, false, zero,
}
use posix_next.Kernel.{Timeout, forever, ms}
use posix_next.Mqueue.{stored, Message, MsgqOps, Notify, unset, no_signal, signal, thread}
use posix_next.Mqueue.Transfer.{
  notified, Effect, after_put, after_get, Handle, Ret, returns, fails, never_returns, wait_time,
  time_error, with_messages, notify_sent, send_message, receive_message,
}

-- A wait that nothing ends: a call that does not block, and one with no time left, fail at once.
abbrev pub waited : Bool → Timeout → Ret
waited true t = fails eagain
waited false forever = never_returns
waited false (ms zero) = fails eagain
waited false (ms (suc n)) = fails etimedout

-- The descriptor, with other messages in its queue.
abbrev pub holding : Handle → List Message → Handle
holding h qs = record { nonblock = h.nonblock; object = record (h.object) { messages = qs } }

-- A NULL descriptor is refused, and a message that is too long; the others join the queue at its end, up to the first
-- msg_size bytes of the memory, and wait for room where there is none.
abbrev pub sends_to : Option Handle → List ℕ → ℕ → Timeout → Ret × Option Handle
sends_to none mem len t = (fails ebadf, none)
sends_to (some h) mem len t =
    if ltb h.object.msg_size len
    then (fails emsgsize, some h)
    else (if ltb (length h.object.messages) h.object.max_msgs
        then (returns 0, some (holding h (h.object.messages ++ (take h.object.msg_size mem ∷ []))))
        else (waited h.nonblock t, some h))

abbrev pub first_of : Handle → List Message → Ret → (Ret × Option Message) × Option Handle
first_of h [] r = ((r, none), some h)
first_of h (m ∷ ms') r = ((returns h.object.msg_size, some m), some (holding h ms'))

-- A NULL descriptor is refused, and a buffer that is too small; otherwise the oldest message leaves the queue.
abbrev pub receives_from : Option Handle → ℕ → Timeout → (Ret × Option Message) × Option Handle
receives_from none len t = ((fails ebadf, none), none)
receives_from (some h) len t =
    if ltb len h.object.msg_size
    then ((fails emsgsize, none), some h)
    else first_of h h.object.messages (waited h.nonblock t)

abbrev pub IsWithin : Option Handle → Type 0
IsWithin none = Unit {0}
IsWithin (some h) = length h.object.messages ≤ h.object.max_msgs

-- What the kernel's wait ends with.
abbrev ended : Timeout → Ret
ended forever = never_returns
ended (ms n) = fails (time_error (ms n))

ended-wait_time : (b : Bool) (t : Timeout) → ended (wait_time b t) ≡ waited b t
ended-wait_time true t = refl
ended-wait_time false forever = refl
ended-wait_time false (ms zero) = refl
ended-wait_time false (ms (suc n)) = ground arith

-- Without the effect.
abbrev pub state_of : (Ret × Effect) × Option Handle → Ret × Option Handle
state_of r = (r.0.0, r.1)

module _ (msgq : MsgqOps) (spawn : Option ℕ → Option Errno) where
  notified_returns :
      (n : Notify) (a : Option ℕ)
      → ((b : Option ℕ) → spawn b ≡ none)
      → (notified msgq spawn n a).0 ≡ returns 0
  notified_returns unset a never_fails = refl
  notified_returns no_signal a never_fails = refl
  notified_returns signal a never_fails = refl
  notified_returns thread a never_fails = rw (notified, never_fails a)

  after_put-stored :
      (h : Handle) (t : Timeout) (ms' : List Message)
      → ((a : Option ℕ) → spawn a ≡ none)
      → state_of (after_put msgq spawn h t (stored ms')) ≡ (returns 0, some (with_messages h ms'))
  unfolding after_put notify_sent
  after_put-stored h t ms' never_fails =
      elim (Bool-cases
        (ltb 0 ((length ms' % 2 ^ 32 + 2 ^ 32 - length h.object.messages % 2 ^ 32) % 2 ^ 32))) [
          | inl more ↦
              rw
                (more, notified_returns h.object.event.notify h.object.event.attributes never_fails)
          | inr same ↦ rw same
        ]

  get-first_of :
      (h : Handle) (t : Timeout) (ms' : List Message)
      → after_get h t (msgq.get t ms') ≡ first_of h ms' (ended t)
  get-first_of h t (m ∷ ms') = rw (msgq.get_cons t m ms')
  get-first_of h forever [] = rw msgq.get_nil_forever
  get-first_of h (ms n) [] = rw (msgq.get_nil_ms n)

  put_full :
      (h : Handle) (t : Timeout) (m : Message)
      → length h.object.messages ≡ h.object.max_msgs
      → state_of (after_put msgq spawn h t (msgq.put t h.object.max_msgs h.object.messages m))
        ≡ (ended t, some h)
  unfolding after_put notify_sent
  put_full h forever m full = rw (msgq.put_full_forever h.object.max_msgs h.object.messages m full)
  put_full h (ms n) m full = rw (msgq.put_full_ms n h.object.max_msgs h.object.messages m full)

  -- Where threads can be started, send_message does on a queue within its bound what `sends_to`
  -- says: a NULL descriptor gives EBADF and a message that is too long EMSGSIZE; one that fits joins
  -- the queue at its end if there is room, and otherwise the call fails with EAGAIN if it is not to
  -- block or has no time, with ETIMEDOUT after its time, or waits for ever.
  pub send_message-sends_to :
      (h : Option Handle) (mem : List ℕ) (len : ℕ) (t : Timeout)
      → ((a : Option ℕ) → spawn a ≡ none)
      → IsWithin h
      → state_of (send_message msgq spawn h mem len t) ≡ sends_to h mem len t
  unfolding send_message
  send_message-sends_to none mem len t never_fails bound = refl
  send_message-sends_to (some h) mem len t never_fails bound =
      elim (Bool-cases (ltb h.object.msg_size len)) [
        | inl long ↦ rw long
        | inr fits ↦ elim (Bool-cases (ltb (length h.object.messages) h.object.max_msgs)) [
          | inl room ↦
              rw
                (
                  fits,
                  room,
                  msgq.put_room (wait_time h.nonblock t) h.object.max_msgs h.object.messages
                      (take h.object.msg_size mem) (ground arith),
                )
                (after_put-stored h (wait_time h.nonblock t)
                  (h.object.messages ++ (take h.object.msg_size mem ∷ [])) never_fails)
          | inr full ↦
              rw (fits, full, sym (ended-wait_time h.nonblock t))
                (put_full h (wait_time h.nonblock t) (take h.object.msg_size mem) (ground arith))
        ]
      ]

  -- receive_message does what `receives_from` says: a NULL descriptor gives EBADF and a buffer that is
  -- too small EMSGSIZE, the oldest message leaves the queue, and with no message the call fails with
  -- EAGAIN if it is not to block or has no time, with ETIMEDOUT after its time, or waits for ever.
  pub receive_message-receives_from :
      (h : Option Handle) (len : ℕ) (t : Timeout)
      → receive_message msgq spawn h len t ≡ receives_from h len t
  unfolding receive_message
  receive_message-receives_from none len t = refl
  receive_message-receives_from (some h) len t = elim (Bool-cases (ltb len h.object.msg_size)) [
    | inl short ↦ rw short
    | inr fits ↦
        rw (fits, sym (ended-wait_time h.nonblock t))
          (get-first_of h (wait_time h.nonblock t) h.object.messages)
  ]
