-- ===== src/Mqueue/Events.antt =====
-- Attributes and notification, lib/posix/options/message_passing/mqueue.c.
use posix_next.Base.{
  ℕ, Bool, true, false, not, ◌&&◌, Option, none, some, ◌==◌, if◌then◌else◌, length, Errno, einval,
  ebadf, ebusy, enosys, Result, ok, err,
}
use posix_next.Mqueue.{Notify, unset, no_signal, signal, thread, Sigevent, no_event, Mqueue}
use posix_next.Mqueue.Transfer.{Handle}

-- `struct mq_attr` as mq_getattr fills it.
pub record Attr : Type 0 where
  pub mq_flags : ℕ
  pub mq_maxmsg : ℕ
  pub mq_msgsize : ℕ
  pub mq_curmsgs : ℕ

-- `(not.sigev_notify & SIGEV_MASK) != 0`
abbrev pub is_registered : Notify → Bool
is_registered unset = false
is_registered no_signal = true
is_registered signal = true
is_registered thread = true

unfoldable pub remove_notification : Mqueue → Mqueue
remove_notification q = record q { event = no_event }

abbrev pub is_signal : Notify → Bool
is_signal signal = true
is_signal unset = false
is_signal no_signal = false
is_signal thread = false

-- The thread that a message starts: it calls the application's function, and then removes the
-- registration.
unfoldable pub mq_notify_thread : Handle → Handle
unfolding remove_notification
mq_notify_thread h = record h { object = remove_notification h.object }

-- `o_nonblock` is the value of O_NONBLOCK; `detach` is what pthread_attr_setdetachstate returns.
module _ (o_nonblock : ℕ) (detach : ℕ → Option Errno) where
  abbrev pub flags_of : Bool → ℕ
  flags_of true = o_nonblock
  flags_of false = 0

  unfoldable pub mq_getattr : Option Handle → Result Attr
  mq_getattr none = err ebadf
  mq_getattr (some h) = ok (record {
    mq_flags = flags_of h.nonblock;
    mq_maxmsg = h.object.max_msgs;
    mq_msgsize = h.object.msg_size;
    mq_curmsgs = length h.object.messages;
  })

  -- With whether omqstat is given, and with what it gets.
  unfoldable pub mq_setattr :
      Option Handle → ℕ → Bool → Result (Option (Result Attr)) × Option Handle
  unfolding mq_getattr
  mq_setattr none flags wanted = (err ebadf, none)
  mq_setattr (some h) flags wanted =
      if not (flags == 0) && not (flags == o_nonblock) then (err einval, some h) else (
        ok (if wanted then some (mq_getattr (some h)) else none),
        some (record h { nonblock = not (flags == 0) }),
      )

  abbrev pub detached : Option ℕ → Option Errno
  detached none = none
  detached (some a) = detach a

  unfoldable pub mq_notify : Option Handle → Option Sigevent → Result (Unit {0}) × Option Handle
  unfolding remove_notification
  mq_notify none event = (err ebadf, none)
  mq_notify (some h) none =
      if is_registered h.object.event.notify
      then (ok tt, some (record h { object = remove_notification h.object }))
      else (err einval, some h)
  mq_notify (some h) (some e) =
      if is_registered h.object.event.notify
      then (err ebusy, some h)
      else (if is_signal e.notify then (err enosys, some h) else elim (detached e.attributes) [
        | some r ↦ (err r, some h)
        | none ↦ (ok tt, some (record h { object = record (h.object) { event = e } }))
      ])
