-- ===== src/Mqueue/Order.antt =====
-- The order of the messages of a queue of lib/posix/options/message_passing/mqueue.c.
use posix_next.Base.{
  true, suc, Bool, ℕ, ◌≤◌, ◌≡◌, arith, Option, none, some, List, [], ◌∷◌, ◌++◌, ltb, Bool-cases,
  inl, inr, length, length-append, take, Errno, refl, sym, subst, ap, ◌∙◌, false, zero,
}
use posix_next.Kernel.{Timeout, forever, ms, Deadline, null, invalid, in_ms}
use posix_next.Mqueue.{Message, MsgqOps}
use posix_next.Mqueue.Transfer.{
  Handle, Ret, returns, fails, never_returns, mq_send, mq_timedsend, mq_receive, mq_timedreceive,
  send_message, receive_message,
}
use posix_next.Mqueue.Fifo.{
  state_of, sends_to, receives_from, waited, first_of, send_message-sends_to,
  receive_message-receives_from,
}

-- A call through a descriptor, with the memory that is sent and its length, or the size of the
-- buffer.
pub data Call : Type 0 where
  sends : List ℕ → ℕ → Call
  sends_until : List ℕ → ℕ → Deadline → Call
  receives : ℕ → Call
  receives_until : ℕ → Deadline → Call

-- A queue, what senders have been told was sent, and what receivers got.
pub record Log : Type 0 where
  pub handle : Handle
  pub sent : List Message
  pub received : List Message

abbrev handle_or : Handle → Option Handle → Handle
handle_or h none = h
handle_or h (some k) = k

abbrev accepted : Message → Ret → List Message
accepted m (returns n) = m ∷ []
accepted m (fails e) = []
accepted m never_returns = []

abbrev message_of : Option Message → List Message
message_of none = []
message_of (some m) = m ∷ []

abbrev after_send : Log → List ℕ → Ret × Option Handle → Log
after_send l mem r = record {
  handle = handle_or l.handle r.1;
  sent = l.sent ++ accepted (take l.handle.object.msg_size mem) r.0;
  received = l.received;
}

abbrev after_receive : Log → (Ret × Option Message) × Option Handle → Log
after_receive l r = record {
  handle = handle_or l.handle r.1;
  sent = l.sent;
  received = l.received ++ message_of r.0.1;
}

module _ (msgq : MsgqOps) (spawn : Option ℕ → Option Errno) where
  unfoldable pub step : Log → Call → Log
  step l (sends mem len) = after_send l mem (state_of (mq_send msgq spawn (some l.handle) mem len))
  step l (sends_until mem len d) =
      after_send l mem (state_of (mq_timedsend msgq spawn (some l.handle) mem len d))
  step l (receives len) = after_receive l (mq_receive msgq spawn (some l.handle) len)
  step l (receives_until len d) = after_receive l (mq_timedreceive msgq spawn (some l.handle) len d)

  unfoldable pub run : Log → List Call → Log
  unfolding step
  run l [] = l
  run l (c ∷ cs) = run (step l c) cs

  -- Everything that was sent has been received or is in the queue, in the order in which it was
  -- sent, and the queue is within its bound.
  abbrev pub InOrder : Log → Type 0
  InOrder l =
      (l.sent ≡ l.received ++ l.handle.object.messages)
      × (length l.handle.object.messages ≤ l.handle.object.max_msgs)

  append_assoc : (xs ys zs : List Message) → (xs ++ ys) ++ zs ≡ xs ++ (ys ++ zs)
  append_assoc [] ys zs = refl
  append_assoc (x ∷ xs) ys zs = ap (λ vs. x ∷ vs) (append_assoc xs ys zs)

  append_nil : (xs : List Message) → xs ++ [] ≡ xs
  append_nil [] = refl
  append_nil (x ∷ xs) = ap (λ vs. x ∷ vs) (append_nil xs)

  nothing_new :
      (l : Log) (b : Bool) (t : Timeout) (mem : List ℕ)
      → InOrder l
      → InOrder (after_send l mem (waited b t, some l.handle))
  nothing_new l true t mem h = (append_nil l.sent ∙ h.0, h.1)
  nothing_new l false forever mem h = (append_nil l.sent ∙ h.0, h.1)
  nothing_new l false (ms zero) mem h = (append_nil l.sent ∙ h.0, h.1)
  nothing_new l false (ms (suc n)) mem h = (append_nil l.sent ∙ h.0, h.1)

  sends_to-InOrder :
      (l : Log) (mem : List ℕ) (len : ℕ) (t : Timeout)
      → InOrder l
      → InOrder (after_send l mem (sends_to (some l.handle) mem len t))
  sends_to-InOrder l mem len t h = elim (Bool-cases (ltb l.handle.object.msg_size len)) [
    | inl long ↦ rw long (append_nil l.sent ∙ h.0, h.1)
    | inr fits ↦
        elim (Bool-cases (ltb (length l.handle.object.messages) l.handle.object.max_msgs)) [
          | inl room ↦
              rw (fits, room)
                (
                  ap (λ vs. vs ++ (take l.handle.object.msg_size mem ∷ [])) h.0
                      ∙ append_assoc l.received l.handle.object.messages
                          (take l.handle.object.msg_size mem ∷ []),
                  ground (
                    arith,
                    length-append l.handle.object.messages (take l.handle.object.msg_size mem ∷ []),
                  ),
                )
          | inr full ↦ rw (fits, full) (nothing_new l l.handle.nonblock t mem h)
        ]
  ]

  refused : (l : Log) → InOrder l → InOrder (record l { received = l.received ++ [] })
  refused l h = (h.0 ∙ ap (λ vs. vs ++ l.handle.object.messages) (sym (append_nil l.received)), h.1)

  first_of-InOrder :
      (l : Log) (qs : List Message) (r : Ret)
      → l.handle.object.messages ≡ qs
      → InOrder l
      → InOrder (after_receive l (first_of l.handle qs r))
  first_of-InOrder l [] r e h = refused l h
  first_of-InOrder l (m ∷ qs) r e h = (
    h.0 ∙ ap (λ vs. l.received ++ vs) e ∙ sym (append_assoc l.received (m ∷ []) qs),
    omega (arith, h.1, ap length e),
  )

  receives_from-InOrder :
      (l : Log) (len : ℕ) (t : Timeout)
      → InOrder l
      → InOrder (after_receive l (receives_from (some l.handle) len t))
  receives_from-InOrder l len t h = elim (Bool-cases (ltb len l.handle.object.msg_size)) [
    | inl short ↦ rw short (refused l h)
    | inr fits ↦
        rw fits (first_of-InOrder l l.handle.object.messages (waited l.handle.nonblock t) refl h)
  ]

  send_message-InOrder :
      (l : Log) (mem : List ℕ) (len : ℕ) (t : Timeout)
      → ((a : Option ℕ) → spawn a ≡ none)
      → InOrder l
      → InOrder (after_send l mem (state_of (send_message msgq spawn (some l.handle) mem len t)))
  send_message-InOrder l mem len t never_fails h =
      subst (λ r. InOrder (after_send l mem r))
        (sym (send_message-sends_to msgq spawn (some l.handle) mem len t never_fails h.1))
        (sends_to-InOrder l mem len t h)

  receive_message-InOrder :
      (l : Log) (len : ℕ) (t : Timeout)
      → InOrder l
      → InOrder (after_receive l (receive_message msgq spawn (some l.handle) len t))
  receive_message-InOrder l len t h =
      subst (λ r. InOrder (after_receive l r))
        (sym (receive_message-receives_from msgq spawn (some l.handle) len t))
        (receives_from-InOrder l len t h)

  step-InOrder :
      (l : Log) (c : Call) → ((a : Option ℕ) → spawn a ≡ none) → InOrder l → InOrder (step l c)
  unfolding step mq_send mq_timedsend mq_receive mq_timedreceive
  step-InOrder l (sends mem len) never_fails h =
      send_message-InOrder l mem len forever never_fails h
  step-InOrder l (sends_until mem len null) never_fails h = (append_nil l.sent ∙ h.0, h.1)
  step-InOrder l (sends_until mem len invalid) never_fails h = (append_nil l.sent ∙ h.0, h.1)
  step-InOrder l (sends_until mem len (in_ms n)) never_fails h =
      send_message-InOrder l mem len (ms n) never_fails h
  step-InOrder l (receives len) never_fails h = receive_message-InOrder l len forever h
  step-InOrder l (receives_until len null) never_fails h = refused l h
  step-InOrder l (receives_until len invalid) never_fails h = refused l h
  step-InOrder l (receives_until len (in_ms n)) never_fails h =
      receive_message-InOrder l len (ms n) h

  -- Whatever calls send and receive on a queue within its bound, if threads for its notifications
  -- can be started: the messages that the senders were told are sent are, in the same order, those
  -- that were received followed by those in the queue, and the queue stays within its bound.
  pub run-InOrder :
      (l : Log) (cs : List Call)
      → ((a : Option ℕ) → spawn a ≡ none)
      → InOrder l
      → InOrder (run l cs)
  unfolding run
  run-InOrder l [] never_fails h = h
  run-InOrder l (c ∷ cs) never_fails h =
      run-InOrder (step l c) cs never_fails (step-InOrder l c never_fails h)
