-- ===== src/Mqueue/Transfer.antt =====
-- Sending and receiving, lib/posix/options/message_passing/mqueue.c. A call has the descriptor's
-- flag and the object that the descriptor points to. A callback of the application is not run: the
-- effect says that it was called, or that a thread was started for it.
use posix_next.Base.{
  ℕ, ◌+◌, ◌-◌, ◌%◌, ◌^◌, Bool, true, false, Option, none, some, List, ◌==◌, ltb, if◌then◌else◌,
  length, take, Errno, einval, ebadf, eagain, etimedout, emsgsize,
}
use posix_next.Kernel.{Timeout, forever, ms, Deadline, null, invalid, in_ms}
use posix_next.Mqueue.{
  Put, Get, Message, MsgqOps, stored, put_expired, put_never, taken, get_expired, get_never, Notify,
  unset, no_signal, signal, thread, Sigevent, Mqueue,
}

-- A descriptor with the object that it points to; a NULL descriptor is `none`.
pub record Handle : Type 0 where
  pub nonblock : Bool
  pub object : Mqueue

pub data Ret : Type 0 where
  returns : ℕ → Ret
  fails : Errno → Ret
  never_returns : Ret

pub data Effect : Type 0 where
  nothing called started : Effect

abbrev pub wait_time : Bool → Timeout → Timeout
wait_time true t = ms 0
wait_time false t = t

-- `K_TIMEOUT_EQ(timeout, K_NO_WAIT) ? EAGAIN : ETIMEDOUT`
abbrev pub time_error : Timeout → Errno
time_error forever = etimedout
time_error (ms n) = if n == 0 then eagain else etimedout

abbrev pub with_messages : Handle → List Message → Handle
with_messages h qs = record h { object = record (h.object) { messages = qs } }

abbrev pub after_get : Handle → Timeout → Get → (Ret × Option Message) × Option Handle
after_get h t (taken m ms') = ((returns h.object.msg_size, some m), some (with_messages h ms'))
after_get h t get_expired = ((fails (time_error t), none), some h)
after_get h t get_never = ((never_returns, none), some h)

-- `spawn` is what pthread_create returns for the attributes.
module _ (msgq : MsgqOps) (spawn : Option ℕ → Option Errno) where
  abbrev pub notified : Notify → Option ℕ → Ret × Effect
  notified unset a = (returns 0, nothing)
  notified no_signal a = (returns 0, called)
  notified signal a = (returns 0, nothing)
  notified thread a = elim (spawn a) [ none ↦ (returns 0, started) | some e ↦ (fails e, nothing) ]

  -- The end of send_message, for a message that has been put.
  unfoldable pub notify_sent : Sigevent → Ret × Effect
  notify_sent e = notified e.notify e.attributes

  -- The rest of send_message once k_msgq_put has ended. The numbers of used entries are 32-bit.
  unfoldable pub after_put : Handle → Timeout → Put → (Ret × Effect) × Option Handle
  unfolding notify_sent
  after_put h t (stored ms') =
      if ltb 0 ((length ms' % 2 ^ 32 + 2 ^ 32 - length h.object.messages % 2 ^ 32) % 2 ^ 32)
      then (notify_sent h.object.event, some (with_messages h ms'))
      else ((returns 0, nothing), some (with_messages h ms'))
  after_put h t put_expired = ((fails (time_error t), nothing), some h)
  after_put h t put_never = ((never_returns, nothing), some h)

  -- `mem` is the memory at msg_ptr: k_msgq_put copies msg_size bytes of it.
  unfoldable pub send_message :
      Option Handle → List ℕ → ℕ → Timeout → (Ret × Effect) × Option Handle
  unfolding after_put
  send_message none mem len t = ((fails ebadf, nothing), none)
  send_message (some h) mem len t =
      let t' = wait_time h.nonblock t in
      let q = h.object in
      if ltb q.msg_size len
      then ((fails emsgsize, nothing), some h)
      else after_put h t' (msgq.put t' q.max_msgs q.messages (take q.msg_size mem))

  -- The buffer of the caller gets the message.
  unfoldable pub receive_message :
      Option Handle → ℕ → Timeout → (Ret × Option Message) × Option Handle
  receive_message none len t = ((fails ebadf, none), none)
  receive_message (some h) len t =
      let q = h.object in
      if ltb len q.msg_size
      then ((fails emsgsize, none), some h)
      else (let t' = wait_time h.nonblock t in after_get h t' (msgq.get t' q.messages))

  unfoldable pub mq_send : Option Handle → List ℕ → ℕ → (Ret × Effect) × Option Handle
  unfolding send_message
  mq_send h mem len = send_message h mem len forever

  unfoldable pub mq_timedsend :
      Option Handle → List ℕ → ℕ → Deadline → (Ret × Effect) × Option Handle
  unfolding send_message
  mq_timedsend h mem len null = ((fails einval, nothing), h)
  mq_timedsend h mem len invalid = ((fails einval, nothing), h)
  mq_timedsend h mem len (in_ms n) = send_message h mem len (ms n)

  unfoldable pub mq_receive : Option Handle → ℕ → (Ret × Option Message) × Option Handle
  unfolding receive_message
  mq_receive h len = receive_message h len forever

  unfoldable pub mq_timedreceive :
      Option Handle → ℕ → Deadline → (Ret × Option Message) × Option Handle
  unfolding receive_message
  mq_timedreceive h len null = ((fails einval, none), h)
  mq_timedreceive h len invalid = ((fails einval, none), h)
  mq_timedreceive h len (in_ms n) = receive_message h len (ms n)
