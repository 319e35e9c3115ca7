-- ===== src/Mqueue/Registration.antt =====
-- The attributes and the registration for notification of a queue,
-- lib/posix/options/message_passing/mqueue.c.
use posix_next.Base.{
  ◌||◌, ℕ, ◌≡◌, arith, Bool, true, false, Bool-cases, inl, inr, if◌then◌else◌, Option, none, some,
  refl, ap, sym, ◌==◌, length, Errno, einval, ebusy, Result, ok, err,
}
use posix_next.Mqueue.{Sigevent, no_event}
use posix_next.Mqueue.Transfer.{Handle}
use posix_next.Mqueue.Events.{
  Attr, mq_getattr, mq_setattr, is_registered, is_signal, detached, remove_notification, mq_notify,
  mq_notify_thread,
}

abbrev with_flag : Handle → Bool → Handle
with_flag h b = record h { nonblock = b }

abbrev pub with_event : Handle → Sigevent → Handle
with_event h e = record h { object = record (h.object) { event = e } }

abbrev pub attr_of : Handle → ℕ → Result Attr
attr_of h flags = ok (record {
  mq_flags = flags;
  mq_maxmsg = h.object.max_msgs;
  mq_msgsize = h.object.msg_size;
  mq_curmsgs = length h.object.messages;
})

module _ (o_nonblock : ℕ) (detach : ℕ → Option Errno) where
  -- mq_setattr accepts 0 and O_NONBLOCK, reports the attributes that there were,
  -- and changes what mq_getattr reports to the new flags and nothing else; it refuses any other
  -- flags and then changes nothing.
  pub getattr-setattr :
      (h : Handle) (flags : ℕ)
      → if flags == 0 || flags == o_nonblock
        then ((k : Handle) × (mq_setattr o_nonblock detach (some h) flags true
              ≡ (ok (some (mq_getattr o_nonblock detach (some h))), some k))
            × (mq_getattr o_nonblock detach (some k) ≡ attr_of h flags))
        else (mq_setattr o_nonblock detach (some h) flags true ≡ (err einval, some h))
  unfolding mq_getattr mq_setattr
  getattr-setattr h flags = elim (Bool-cases (flags == 0)) [
    | inl clear ↦ rw clear (with_flag h false, refl, ap (attr_of h) {x = 0} (ground arith))
    | inr some_bits ↦ elim (Bool-cases (flags == o_nonblock)) [
      | inl set ↦
          rw (some_bits, set)
            (with_flag h true, refl, ap (attr_of h) {x = o_nonblock} (ground arith))
      | inr other ↦ rw (some_bits, other)
    ]
  ]

  -- One registration at a time. On a queue without one, a request for a call or a thread whose
  -- attributes can be used succeeds; the queue then refuses every further request with EBUSY, and
  -- is again as before after a request of NULL and after the end of the notifying thread.
  pub notify-exclusive :
      (h : Handle) (e f : Sigevent)
      → is_registered e.notify ≡ true
      → is_signal e.notify ≡ false
      → detached o_nonblock detach e.attributes ≡ none
      → h.object.event ≡ no_event
      → (mq_notify o_nonblock detach (some h) (some e) ≡ (ok tt, some (with_event h e)))
        × (mq_notify o_nonblock detach (some (with_event h e)) (some f)
            ≡ (err ebusy, some (with_event h e)))
        × (mq_notify o_nonblock detach (some (with_event h e)) none ≡ (ok tt, some h))
        × (mq_notify_thread (with_event h e) ≡ h)
  unfolding mq_notify mq_notify_thread remove_notification
  notify-exclusive h e f real no_sig usable free =
      let back = ap (with_event h) (sym free) in
      (rw (free, no_sig, usable), rw real, rw real (ap (λ k. (ok tt, some k)) back), back)
