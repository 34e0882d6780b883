-- ===== src/TcpSegment.antt =====
-- util/tcp_segment.{hh,cc} and util/udinfo.hh. The string that `to_string` prints is not modelled. A
-- message's two halves are owned or borrowed references in the code; here they are the messages.
pub mod Sum
pub mod RoundTrip
use cs_144_minnow_tcp.Base.{
  ℕ, ◌+◌, ◌-◌, ◌*◌, ◌/◌, ◌%◌, ◌^◌, Bool, true, false, not, ◌||◌, ◌==◌, if◌then◌else◌, Option, none,
  some, List, [], ltb,
}
use cs_144_minnow_tcp.Base
use mathlib.Core.Option.{map}
use cs_144_minnow_tcp.Ref.{objects}
use cs_144_minnow_tcp.Wrap32.{Wrap32}
use cs_144_minnow_tcp.ByteStream.{Bytes}
use cs_144_minnow_tcp.Messages.{TcpSenderMessage, TcpReceiverMessage}
use cs_144_minnow_tcp.Parser.{Parser, Parse, set_error, remove_prefix, concatenate_all_remaining}
use cs_144_minnow_tcp.Parser
use cs_144_minnow_tcp.Parser.Chain.{◌>>=◌, ◌>>◌, return, lift}
use cs_144_minnow_tcp.Serializer.{Serializer, buffer_string, finish}
use cs_144_minnow_tcp.Serializer as Serial
use cs_144_minnow_tcp.Checksum.{add_all, value}
use cs_144_minnow_tcp.Checksum

-- `TCPMessage`
pub record TcpMessage : Type 0 where
  pub sender : TcpSenderMessage
  pub receiver : TcpReceiverMessage

pub record UserDatagramInfo : Type 0 where
  pub src_port : ℕ
  pub dst_port : ℕ
  pub cksum : ℕ

pub record TcpSegment : Type 0 where
  pub message : TcpMessage
  pub udinfo : UserDatagramInfo

-- `TCPSegment::HEADER_LENGTH`
abbrev pub header_length : ℕ
header_length = 20

-- The value of the checksum over what the parser holds.
unfoldable pub checked_sum : ℕ → Parse ℕ
unfolding add_all value
checked_sum pseudo p =
    Base.◌>>=◌ (Parser.buffer p.input)
      (λ views. map (λ v. (v, p)) (value (add_all (Checksum.new pseudo) views)))

abbrev pub segment_of : ℕ → ℕ → ℕ → ℕ → ℕ → ℕ → ℕ → Bytes → TcpSegment
segment_of src_port dst_port seqno ackno octet window_size cksum payload =
    let reset = octet / 2 ^ 2 % 2 == 1 in
    record {
      message = record {
        sender = record {
          seqno = record { raw_value = seqno };
          syn = octet / 2 ^ 1 % 2 == 1;
          payload = payload;
          fin = octet % 2 == 1;
          rst = reset;
        };
        receiver = record {
          ackno =
              if not (octet / 2 ^ 4 % 2 == 1) then none else some (record { raw_value = ackno });
          window_size = window_size;
          rst = reset;
        };
      };
      udinfo = record { src_port = src_port; dst_port = dst_port; cksum = cksum };
    }

-- The end of `TCPSegment::parse`: the options are skipped and the payload is taken out. `partial` is
-- the segment before it.
unfoldable pub parse_payload : ℕ → TcpSegment → Parser → Option (TcpSegment × Bool)
unfolding remove_prefix concatenate_all_remaining
parse_payload data_offset partial p =
    let sender = partial.message.sender in
    if ltb data_offset 5
    then some (partial, true)
    else Base.◌>>=◌ (remove_prefix (data_offset * 4 - header_length) p) (λ r.
      map
        (λ payload. (
          record partial {
            message = record partial.message { sender = record sender { payload = payload } };
          },
          r.1.error,
        ))
        (concatenate_all_remaining r.1))

-- The fields of a segment, after its checksum was found right. An integer that is read into a local
-- variable starts at 0, or keeps what the last one read.
unfoldable pub parse_fields : TcpSegment → Parse (ℕ × TcpSegment)
parse_fields s = do
  src_port ← Parser.integer 2 s.udinfo.src_port
  dst_port ← Parser.integer 2 s.udinfo.dst_port
  seqno ← Parser.integer 4 0
  ackno ← Parser.integer 4 seqno
  offset_octet ← Parser.integer 1 0
  octet ← Parser.integer 1 offset_octet
  window_size ← Parser.integer 2 s.message.receiver.window_size
  cksum ← Parser.integer 2 s.udinfo.cksum
  urgent ← Parser.integer 2 0
  return (
    offset_octet / 2 ^ 4,
    segment_of src_port dst_port seqno ackno octet window_size cksum s.message.sender.payload,
  )

-- `TCPSegment::parse`, and the parser's error flag after it
unfoldable pub parse : TcpSegment → ℕ → Parser → Option (TcpSegment × Bool)
parse s pseudo p = Base.◌>>=◌ (checked_sum pseudo p) (λ c.
    if not (c.0 == 0)
    then some (s, true)
    else Base.◌>>=◌ (parse_fields s p) (λ r. parse_payload r.0.0 r.0.1 r.1))

-- The flags of a segment: the operands of `|` have no bit in common.
abbrev pub ack_bit : Option Wrap32 → ℕ
ack_bit none = 0
ack_bit (some ackno) = 16

abbrev pub flags : TcpMessage → ℕ
flags m =
    ack_bit m.receiver.ackno
    + (if m.sender.rst || m.receiver.rst then 4 else 0)
    + (if m.sender.syn then 2 else 0)
    + (if m.sender.fin then 1 else 0)

-- `ackno.value_or( Wrap32 { 0 } )`
abbrev pub raw_ackno : Option Wrap32 → ℕ
raw_ackno none = 0
raw_ackno (some ackno) = ackno.raw_value

-- `TCPSegment::serialize`
unfoldable pub serialize : TcpSegment → Serializer → Serializer
serialize s t = buffer_string s.message.sender.payload (
    Serial.integer 2 0 (
      Serial.integer 2 s.udinfo.cksum (
        Serial.integer 2 s.message.receiver.window_size (
          Serial.integer 1 (flags s.message) (
            Serial.integer 1 80 (
              Serial.integer 4 (raw_ackno s.message.receiver.ackno) (
                Serial.integer 4 s.message.sender.seqno.raw_value
                  (Serial.integer 2 s.udinfo.dst_port (Serial.integer 2 s.udinfo.src_port t)))))))))

-- `TCPSegment::compute_checksum`
unfoldable pub compute_checksum : TcpSegment → ℕ → Option TcpSegment
unfolding serialize add_all value
compute_checksum s pseudo =
    let cleared = record s { udinfo = record s.udinfo { cksum = 0 } } in
    map (λ cksum. record s { udinfo = record s.udinfo { cksum = cksum } })
      (value (add_all (Checksum.new pseudo) (objects (finish (serialize cleared Serial.new)))))
