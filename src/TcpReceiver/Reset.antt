-- ===== src/TcpReceiver/Reset.antt =====
-- The error flag that an RST sets, through src/tcp_receiver.cc and src/reassembler.cc.
use cs_144_minnow_tcp.Base.{
  ℕ, add64, ◌≡◌, inl, inr, refl, ap, ◌∙◌, Bool, true, ◌&&◌, none, List, [], ◌∷◌, ◌==◌, Bool-cases,
}
use cs_144_minnow_tcp.ByteStream.{Bytes, ByteStream, push, available_capacity}
use cs_144_minnow_tcp.Reassembler.{
  Reassembler, Pending, flush, insert, clip, store, note_end, close_at_end,
}
use cs_144_minnow_tcp.Messages.{TcpSenderMessage}
use cs_144_minnow_tcp.TcpReceiver.{TcpReceiver, accept, receive, send}
use cs_144_minnow_tcp.TcpReceiver.Cases.{Outcome, dropped, aborted, accepted, receive-Outcome}

push-error : (s : ByteStream) (b : Bytes) → (push s b).error ≡ s.error
unfolding push
push-error s [] = refl
push-error s (x ∷ b) = elim (Bool-cases (available_capacity s == 0)) [
  | inl full ↦ rw full refl
  | inr room ↦ rw room refl
]

flush-error : (out : ByteStream) (m : Pending) → (flush out m).0.error ≡ out.error
unfolding flush
flush-error out [] = refl
flush-error out ((k, b) ∷ m) = elim (Bool-cases (k == out.bytes_pushed)) [
  | inl at ↦ rw at (flush-error (push out b) m ∙ push-error out b)
  | inr not_yet ↦ rw not_yet refl
]

close_at_end-error :
    (out : ByteStream) (end_index : ℕ) (eof_seen : Bool)
    → (close_at_end out end_index eof_seen).error ≡ out.error
close_at_end-error out end_index eof_seen =
    elim (Bool-cases (eof_seen && out.bytes_pushed == end_index)) [
      | inl at_end ↦ rw at_end refl
      | inr not_yet ↦ rw not_yet refl
    ]

insert-error :
    (r : Reassembler) (first : ℕ) (bytes : Bytes) (is_last : Bool)
    → (insert r first bytes is_last).output.error ≡ r.output.error
unfolding insert
insert-error r first bytes is_last =
    let r' = note_end r first bytes is_last in
    let c =
      clip r.output.bytes_pushed (add64 r.output.bytes_pushed (available_capacity r.output)) first
        bytes in
    let flushed = flush r.output (store c.0 c.1 r.pending) in
    close_at_end-error flushed.0 r'.end_index r'.eof_seen
    ∙ flush-error r.output (store c.0 c.1 r.pending)

receive-error :
    (t : TcpReceiver) (msg : TcpSenderMessage)
    → t.reassembler.output.error ≡ true
    → (receive t msg).reassembler.output.error ≡ true
unfolding accept
receive-error t msg h = go (receive-Outcome t msg)
  where
    go : {t' : TcpReceiver} → Outcome t msg t' → t'.reassembler.output.error ≡ true
    go (dropped _ _ _ e) = ap (λ (u : TcpReceiver). u.reassembler.output.error) e ∙ h
    go (aborted _ e) = ap (λ (u : TcpReceiver). u.reassembler.output.error) e
    go (accepted isn _ _ e) =
        ap (λ (u : TcpReceiver). u.reassembler.output.error) e
        ∙ insert-error t.reassembler _ msg.payload msg.fin
        ∙ h

unfoldable pub receive_each : TcpReceiver → List TcpSenderMessage → TcpReceiver
receive_each t [] = t
receive_each t (msg ∷ msgs) = receive_each (receive t msg) msgs

receive_each-error :
    (t : TcpReceiver) (msgs : List TcpSenderMessage)
    → t.reassembler.output.error ≡ true
    → (receive_each t msgs).reassembler.output.error ≡ true
unfolding receive_each
receive_each-error t [] h = h
receive_each-error t (msg ∷ msgs) h =
    receive_each-error (receive t msg) msgs (receive-error t msg h)

reset_sets :
    (t : TcpReceiver) (msg : TcpSenderMessage)
    → msg.rst ≡ true
    → (receive t msg).reassembler.output.error ≡ true
unfolding receive
reset_sets t msg h = rw h refl

send_broken :
    (t : TcpReceiver)
    → t.reassembler.output.error ≡ true
    → send t ≡ record { ackno = none; window_size = 0; rst = true }
unfolding send
send_broken t h = rw h refl

-- After a segment with RST, whatever segments follow, the receiver answers with RST, no ackno and a
-- closed window.
pub send_after_reset :
    (t : TcpReceiver) (msg : TcpSenderMessage) (msgs : List TcpSenderMessage)
    → msg.rst ≡ true
    → send (receive_each (receive t msg) msgs)
      ≡ record { ackno = none; window_size = 0; rst = true }
send_after_reset t msg msgs h =
    send_broken (receive_each (receive t msg) msgs)
      (receive_each-error (receive t msg) msgs (reset_sets t msg h))
