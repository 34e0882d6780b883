-- ===== src/TcpPeer/Halves.antt =====
-- The messages that a peer makes of its two halves, and those that it has to answer.
use cs_144_minnow_tcp.Base.{
  ℕ, ◌+◌, ◌%◌, ◌^◌, ◌<◌, ◌≡◌, ◌≢◌, refl, ap, ap₂, sym, add64, ◌∙◌, Bool, true, false, not, ◌||◌,
  ◌==◌, ==_iff, Option, none, some, List, [], ◌∷◌, is_empty, length, arith, mod64, Bool-cases, inl,
  inr, if◌then◌else◌,
}
use mathlib.Core.Bool.{false≢true}
use mathlib.Core.Option.{some-injective, some-ne-none}
use cs_144_minnow_tcp.Wrap32.{Wrap32, wrap, plus, same}
use cs_144_minnow_tcp.Messages.{TcpSenderMessage, TcpReceiverMessage, sequence_length, bit, bit_le}
use cs_144_minnow_tcp.TcpSender.{TcpSender, make_empty_message}
use cs_144_minnow_tcp.TcpReceiver
use cs_144_minnow_tcp.TcpSegment.{TcpMessage}
use cs_144_minnow_tcp.TcpPeer.{TcpPeer, send, send_each, keep_alive, take_message}

-- The sender's messages, each with the receiver's half `r`.
abbrev pub with_half : TcpReceiverMessage → List TcpSenderMessage → List TcpMessage
with_half r [] = []
with_half r (msg ∷ msgs) = record { sender = msg; receiver = r } ∷ with_half r msgs

pub send_each-with_half :
    (p : TcpPeer) (msgs : List TcpSenderMessage)
    → send_each p msgs ≡ (
      record p { need_send = if is_empty msgs then p.need_send else false },
      with_half (TcpReceiver.send p.receiver) msgs,
    )
unfolding send_each
send_each-with_half p [] = refl
send_each-with_half p (msg ∷ msgs) = rw (send_each-with_half (send p msg).0 msgs) (
    ap (λ b. (record p { need_send = b }, with_half (TcpReceiver.send p.receiver) (msg ∷ msgs)))
      (either (is_empty msgs)))
  where
    either : (b : Bool) → (if b then false else false) ≡ false
    either true = refl
    either false = refl

-- A segment that occupies no number and carries the next one.
abbrev pub pure_ack : TcpSender → TcpSenderMessage
pure_ack s = record {
  seqno = wrap s.next_seqno s.isn;
  syn = false;
  payload = [];
  fin = false;
  rst = s.input.error;
}

pub make_empty_message-pure_ack : (s : TcpSender) → make_empty_message s ≡ pure_ack s
unfolding make_empty_message wrap
make_empty_message-pure_ack s = refl

-- Nothing is due: no reply is owed, the segment occupies no number, and it does not stand just
-- below the ackno.
abbrev pub IsCalm : TcpPeer → TcpSenderMessage → Type 0
IsCalm p msg =
    (p.need_send ≡ false)
    × (msg.syn ≡ false)
    × (msg.payload ≡ [])
    × (msg.fin ≡ false)
    × ((TcpReceiver.send p.receiver).ackno
        ≢ some (record { raw_value = (msg.seqno.raw_value + 1) % 2 ^ 32 }))

no_length :
    (msg : TcpSenderMessage)
    → length msg.payload + 2 < mod64
    → sequence_length msg ≡ 0
    → (msg.syn ≡ false) × (msg.payload ≡ []) × (msg.fin ≡ false)
no_length msg h e = (
  no_bit msg.syn (omega (arith, h, e, bit_le msg.syn, bit_le msg.fin)),
  no_bytes msg.payload (omega (arith, h, e, bit_le msg.syn, bit_le msg.fin)),
  no_bit msg.fin (omega (arith, h, e, bit_le msg.syn, bit_le msg.fin)),
)
  where
    no_bit : (b : Bool) → bit b ≡ 0 → b ≡ false
    no_bit true z = absurd (omega (arith, z))
    no_bit false z = refl

    no_bytes : (xs : List ℕ) → length xs ≡ 0 → xs ≡ []
    no_bytes [] z = refl
    no_bytes (x ∷ xs) z = absurd (omega (arith, z))

abbrev just_below : Wrap32 → Option Wrap32 → Bool
just_below w none = false
just_below w (some ackno) = same (plus w 1) ackno

not_below :
    (w : Wrap32) (o : Option Wrap32)
    → just_below w o ≡ false
    → o ≢ some (record { raw_value = (w.raw_value + 1) % 2 ^ 32 })
unfolding same plus
not_below w none h = λ e. some-ne-none _ (sym e)
not_below w (some a) h = λ e. false≢true (
    sym h
    ∙ (==_iff ((w.raw_value + 1) % 2 ^ 32) a.raw_value).1
        (sym (ap (λ x. x.raw_value) (some-injective _ _ e))))

not_below_back :
    (w : Wrap32) (o : Option Wrap32)
    → o ≢ some (record { raw_value = (w.raw_value + 1) % 2 ^ 32 })
    → just_below w o ≡ false
unfolding same plus
not_below_back w none h = refl
not_below_back w (some a) h = elim (Bool-cases ((w.raw_value + 1) % 2 ^ 32 == a.raw_value)) [
  | inl below ↦ absurd (
      h (
        ap (λ n. some (record { raw_value = n }))
          (sym ((==_iff ((w.raw_value + 1) % 2 ^ 32) a.raw_value).0 below))))
  | inr other ↦ other
]

keep_alive-just_below :
    (p : TcpPeer) (msg : TcpSenderMessage)
    → keep_alive p msg ≡ just_below msg.seqno (TcpReceiver.send p.receiver).ackno
keep_alive-just_below p msg = by_ackno (TcpReceiver.send p.receiver).ackno
  where
    by_ackno :
        (o : Option Wrap32)
        → elim o [ none ↦ false | some our_ackno ↦ same (plus msg.seqno 1) our_ackno ]
          ≡ just_below msg.seqno o
    by_ackno none = refl
    by_ackno (some a) = refl

none_of : (a b c : Bool) → (a || not b || c) ≡ false → (a ≡ false) × (b ≡ true) × (c ≡ false)
none_of true b c h = absurd (false≢true (sym h))
none_of false false c h = absurd (false≢true (sym h))
none_of false true c h = (refl, refl, h)

-- `receive` owes an answer exactly if something is due.
module _ (p : TcpPeer) (msg : TcpMessage) where
  pub take_message-IsCalm :
      length msg.sender.payload + 2 < mod64
      → (take_message p msg).need_send ≡ false
      → IsCalm p msg.sender
  take_message-IsCalm h e =
      let (owed, empty, alive) =
        none_of p.need_send (sequence_length msg.sender == 0) (keep_alive p msg.sender) e in
      let (syn, payload, fin) =
        no_length msg.sender h ((==_iff (sequence_length msg.sender) 0).0 empty) in
      (
        owed,
        syn,
        payload,
        fin,
        not_below msg.sender.seqno _ (sym (keep_alive-just_below p msg.sender) ∙ alive),
      )

  pub IsCalm-take_message : IsCalm p msg.sender → (take_message p msg).need_send ≡ false
  IsCalm-take_message (owed, syn, payload, fin, other) =
      let alive : keep_alive p msg.sender ≡ false =
        keep_alive-just_below p msg.sender ∙ not_below_back msg.sender.seqno _ other in
      let empty : (sequence_length msg.sender == 0) ≡ true =
        ap₂ (λ s f. add64 (add64 (bit s) (length msg.sender.payload)) (bit f) == 0) syn fin
        ∙ ap (λ xs. add64 (add64 0 (length xs)) 0 == 0) payload in
      ap (λ b. b || not (sequence_length msg.sender == 0) || keep_alive p msg.sender) owed
      ∙ ap (λ b. not b || keep_alive p msg.sender) empty
      ∙ alive
