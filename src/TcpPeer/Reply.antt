-- ===== src/TcpPeer/Reply.antt =====
-- What a peer answers.
use cs_144_minnow_tcp.Base.{
  ◌+◌, ◌-◌, ◌≤◌, ◌<◌, ◌≡◌, ◌⊎◌, refl, ap, sym, ◌∙◌, Bool, true, false, not, ◌&&◌, some, List, [],
  ◌∷◌, ◌++◌, is_empty, append-nil, length, arith, mod64, Bool-cases, inl, inr, if◌then◌else◌,
}
use mathlib.Core.Bool.{false≢true}
use cs_144_minnow_tcp.ByteStream.{is_finished}
use cs_144_minnow_tcp.Messages.{TcpSenderMessage, TcpReceiverMessage}
use cs_144_minnow_tcp.TcpSender
use cs_144_minnow_tcp.TcpSender.{TcpSender, make_empty_message}
use cs_144_minnow_tcp.TcpSender.Inv
use cs_144_minnow_tcp.TcpSender.Receive.{Handled, receive-Handled}
use cs_144_minnow_tcp.TcpSender.Push.{Filled, window_of, push-Filled}
use cs_144_minnow_tcp.TcpReceiver
use cs_144_minnow_tcp.TcpSegment.{TcpMessage}
use cs_144_minnow_tcp.TcpPeer.{
  TcpPeer, active, send, push, take_message, reply, stop_lingering, receive,
}
use cs_144_minnow_tcp.TcpPeer.Halves.{
  with_half, send_each-with_half, pure_ack, make_empty_message-pure_ack, IsCalm,
  take_message-IsCalm, IsCalm-take_message,
}

-- What is sent: the sender's `msgs`; if there are none and something is due, one segment that only
-- acknowledges; and no more.
abbrev pub Answered :
    TcpPeer → TcpMessage → TcpPeer → List TcpSenderMessage → List TcpMessage → Type 0
Answered p msg p' msgs out =
    ((out ≡ with_half (TcpReceiver.send p'.receiver) msgs)
      × ((is_empty msgs ≡ false) ⊎ IsCalm p msg.sender))
    ⊎ ((msgs ≡ [])
        × (¬ IsCalm p msg.sender)
        × (out ≡ with_half (TcpReceiver.send p'.receiver) (pure_ack p'.sender ∷ [])))

-- What `receive` gives: the sender handles its half, then fills the window; the receiver takes the
-- other half; nothing is left to be sent; and the answer is sent.
pub record Replied (p : TcpPeer) (msg : TcpMessage) (p' : TcpPeer) (out : List TcpMessage)
    : Type 0 where
  pub acked : TcpSender
  pub msgs : List TcpSenderMessage
  pub handled : Handled p.sender msg.receiver acked
  pub filled :
      Filled acked (acked.next_seqno - acked.bytes_in_flight + window_of acked) p'.sender msgs
  pub received : p'.receiver ≡ TcpReceiver.receive p.receiver msg.sender
  pub sent : p'.need_send ≡ false
  pub heard : p'.time_of_last_receipt ≡ p.cumulative_time
  pub lingers : p'.linger_after_streams_finish ≡ (
      p.linger_after_streams_finish
      && not (p'.receiver.reassembler.output.closed && not (is_finished p'.sender.input)))
  pub answer : Answered p msg p' msgs out

-- The peer after its sender became `s` and sent `msgs`.
abbrev sent_by : TcpPeer → TcpSender → List TcpSenderMessage → TcpPeer
sent_by t s msgs = record t { sender = s; need_send = if is_empty msgs then t.need_send else false }

pushed :
    (t : TcpPeer) (s : TcpSender) (msgs : List TcpSenderMessage)
    → TcpSender.push t.sender ≡ some (s, msgs)
    → push t ≡ some (sent_by t s msgs, with_half (TcpReceiver.send t.receiver) msgs)
unfolding push
pushed t s msgs e = rw e (ap (λ x. some x) (send_each-with_half (record t { sender = s }) msgs))

abbrev answer_of : TcpPeer → List TcpMessage
answer_of q =
    if q.need_send then with_half (TcpReceiver.send q.receiver) (pure_ack q.sender ∷ []) else []

reply_lem : (q : TcpPeer) → reply q ≡ (record q { need_send = false }, answer_of q)
reply_lem q = by_need q.need_send refl
  where
    by_need :
        (b : Bool)
        → q.need_send ≡ b
        → (if b then send q (make_empty_message q.sender) else (q, [])) ≡ (
          record q { need_send = false },
          if b then with_half (TcpReceiver.send q.receiver) (pure_ack q.sender ∷ []) else [],
        )
    by_need true e = rw (make_empty_message-pure_ack q.sender) refl
    by_need false e = ap (λ b. (record q { need_send = b }, [])) e

stop_lingering_lem :
    (x : TcpPeer)
    → stop_lingering x ≡ record x {
      linger_after_streams_finish =
          x.linger_after_streams_finish
          && not (x.receiver.reassembler.output.closed && not (is_finished x.sender.input));
    }
stop_lingering_lem x =
    by_test (x.receiver.reassembler.output.closed && not (is_finished x.sender.input))
  where
    and_not : (l c : Bool) → (if c then false else l) ≡ (l && not c)
    and_not true true = refl
    and_not true false = refl
    and_not false true = refl
    and_not false false = refl

    by_test :
        (c : Bool)
        → (if c then record x { linger_after_streams_finish = false } else x)
          ≡ record x { linger_after_streams_finish = x.linger_after_streams_finish && not c }
    by_test true =
        ap (λ b. record x { linger_after_streams_finish = b })
          (and_not x.linger_after_streams_finish true)
    by_test false =
        ap (λ b. record x { linger_after_streams_finish = b })
          (and_not x.linger_after_streams_finish false)

-- The peer at the end, which lingers if `l`.
abbrev ended : TcpPeer → TcpSender → Bool → TcpPeer
ended t s l = record t { sender = s; need_send = false; linger_after_streams_finish = l }

answered :
    (p : TcpPeer) (msg : TcpMessage) (s : TcpSender) (msgs : List TcpSenderMessage) (l : Bool)
    → length msg.sender.payload + 2 < mod64
    → Answered p msg (ended (take_message p msg) s l) msgs (
        with_half (TcpReceiver.send (take_message p msg).receiver) msgs
        ++ answer_of (sent_by (take_message p msg) s msgs))
answered p msg s [] l fits =
    let t = take_message p msg in
    let half = with_half (TcpReceiver.send t.receiver) (pure_ack s ∷ []) in
    elim (Bool-cases t.need_send) [
      | inl due ↦ inr (
        refl,
        λ calm. false≢true (sym (IsCalm-take_message p msg calm) ∙ due),
        ap (λ b. if b then half else []) due,
      )
      | inr none_due ↦
          inl (
            ap (λ b. if b then half else []) none_due,
            inr (take_message-IsCalm p msg fits none_due),
          )
    ]
answered p msg s (m ∷ ms) l fits = inl (append-nil _, inl refl)

next_same :
    (s s' : TcpSender) (msg : TcpReceiverMessage) → Handled s msg s' → s'.next_seqno ≡ s.next_seqno
next_same s s' msg (inl (reset, aborted)) = aborted.next_seqno
next_same s s' msg (inr (inl (no_reset, no_ack, e))) = ap (λ t. t.next_seqno) e
next_same s s' msg (inr (inr (no_reset, ackno, ack, inl (beyond, e)))) = ap (λ t. t.next_seqno) e
next_same s s' msg (inr (inr (no_reset, ackno, ack, inr (known, acked)))) = acked.next_seqno

-- For an active peer with a valid sender whose sequence numbers are far from 2 ^ 64, and a message
-- with a 16-bit window and a payload shorter than 2 ^ 64 - 2, receive returns: the sender takes the
-- window and the ackno and then fills the window, and the receiver takes the segment. Each segment
-- of the sender is sent with the receiver's new half; if there is none, exactly one empty segment
-- with the next number is sent if a reply was owed, the segment had a SYN, a payload or a FIN, or
-- its number was just below the ackno, and else none. Nothing is left to be sent, the time of
-- receipt is noted, and the peer will not linger if the inbound stream ended first.
pub receive-Replied :
    (p : TcpPeer) (msg : TcpMessage)
    → active p ≡ true
    → Inv.IsValid p.sender
    → p.sender.next_seqno + 65536 < mod64
    → msg.receiver.window_size ≤ 65535
    → length msg.sender.payload + 2 < mod64
    → (p' : TcpPeer) × (out : List TcpMessage) × (receive p msg ≡ some (p', out))
      × Replied p msg p' out
unfolding receive
receive-Replied p msg on v far h fits =
    let t = take_message p msg in
    let (valid, handled) = receive-Handled p.sender msg.receiver v h in
    let same = next_same p.sender t.sender msg.receiver handled in
    let (s, msgs, e, filled) = push-Filled t.sender valid (omega (arith, same)) in
    let q = sent_by t s msgs in
    let l =
      p.linger_after_streams_finish
      && not (t.receiver.reassembler.output.closed && not (is_finished s.input)) in
    (
      ended t s l,
      with_half (TcpReceiver.send t.receiver) msgs ++ answer_of q,
      rw on rw (pushed t s msgs e) rw (reply_lem q) (
          ap (λ x. some (x, with_half (TcpReceiver.send t.receiver) msgs ++ answer_of q))
            (stop_lingering_lem (record q { need_send = false }))),
      record {
        acked = t.sender;
        msgs = msgs;
        handled = handled;
        filled = filled;
        received = refl;
        sent = refl;
        heard = refl;
        lingers = refl;
        answer = answered p msg s msgs l fits;
      },
    )
