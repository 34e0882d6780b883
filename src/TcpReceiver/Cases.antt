-- ===== src/TcpReceiver/Cases.antt =====
-- The outcomes of `receive`.
use cs_144_minnow_tcp.Base.{
  if◌then◌else◌, none, not, ◌≡◌, ◌⊎◌, inl, inr, refl, sym, ap, subst, Bool, true, false, not,
  Option, none, some, Bool-cases, if◌then◌else◌,
}
use cs_144_minnow_tcp.Wrap32.{Wrap32}
use cs_144_minnow_tcp.Messages.{TcpSenderMessage}
use cs_144_minnow_tcp.TcpReceiver.{TcpReceiver, set_error, close, accept, receive, receive_from}

-- What a segment does to a receiver: nothing, only an error and the end of the stream, or an
-- insertion under an initial sequence number that stays.
-- The three outcomes are equations on the next state.
pub data Outcome (t : TcpReceiver) (msg : TcpSenderMessage) (t' : TcpReceiver) : Type 0 where
  dropped : t.isn ≡ none → msg.rst ≡ false → msg.syn ≡ false → t' ≡ t → Outcome t msg t'
  aborted :
      msg.rst ≡ true
      → t' ≡ record t { reassembler = close (set_error t.reassembler) }
      → Outcome t msg t'
  accepted :
      (isn : Wrap32)
      → msg.rst ≡ false
      → (t.isn ≡ some isn) ⊎ ((t.isn ≡ none) × (msg.syn ≡ true) × (isn ≡ msg.seqno))
      → t' ≡ accept t.reassembler isn msg
      → Outcome t msg t'

receive_from-Outcome :
    (o : Option Wrap32) (t : TcpReceiver) (msg : TcpSenderMessage)
    → t.isn ≡ o
    → msg.rst ≡ false
    → Outcome t msg (receive_from o t msg)
unfolding receive_from
receive_from-Outcome (some isn) t msg e h = accepted isn h (inl e) refl
receive_from-Outcome none t msg e h = elim (Bool-cases msg.syn) [
  | inl syn ↦
      accepted msg.seqno h (inr (e, syn, refl))
        (ap (λ b. if not b then t else accept t.reassembler msg.seqno msg) syn)
  | inr data_only ↦
      dropped e h data_only
        (ap (λ b. if not b then t else accept t.reassembler msg.seqno msg) data_only)
]

abbrev pub reset_branch : TcpReceiver → TcpSenderMessage → Bool → TcpReceiver
reset_branch t msg b =
    if b
    then record t { reassembler = close (set_error t.reassembler) }
    else receive_from t.isn t msg

pub receive-Outcome : (t : TcpReceiver) (msg : TcpSenderMessage) → Outcome t msg (receive t msg)
unfolding receive
receive-Outcome t msg = elim (Bool-cases msg.rst) [
  | inl reset ↦ aborted reset (ap (reset_branch t msg) reset)
  | inr plain ↦
      subst (Outcome t msg) (sym (ap (reset_branch t msg) plain))
        (receive_from-Outcome t.isn t msg refl plain)
]
