-- ===== src/TcpSegment/RoundTrip.antt =====
-- TCP segments, written and read back.
use cs_144_minnow_tcp.Base.{
  ℕ, ◌+◌, ◌/◌, ◌%◌, ◌^◌, ◌<◌, ◌≡◌, refl, ap, ap₂, sym, ◌∙◌, Bool, true, false, not, ◌||◌, Option,
  none, some, arith, flatten, ◌==◌, subst, if◌then◌else◌,
}
use cs_144_minnow_tcp.Ref.{objects}
use cs_144_minnow_tcp.Wrap32.{Wrap32}
use cs_144_minnow_tcp.ByteStream.{Bytes}
use cs_144_minnow_tcp.Parser.{Parser}
use cs_144_minnow_tcp.Parser.Inv.{contents, IsValid}
use cs_144_minnow_tcp.Parser.Reading.{remove_prefix_drops}
use cs_144_minnow_tcp.Parser.Rest.{concatenate_all_remaining_rest}
use cs_144_minnow_tcp.Parser.Reads.{Reads, bind-Reads, map-Reads, integer-Reads}
use cs_144_minnow_tcp.Serializer.{Serializer, buffer_string, finish}
use cs_144_minnow_tcp.Serializer as Serial
use cs_144_minnow_tcp.Serializer.Written.{finish-Writes}
use cs_144_minnow_tcp.Checksum.Weight.{}
use cs_144_minnow_tcp.TcpSegment.{
  TcpSegment, parse_fields, parse_payload, parse, flags, ack_bit, raw_ackno, segment_of, serialize,
  compute_checksum,
}
use cs_144_minnow_tcp.TcpSegment.Sum.{
  IsSegment, with_cksum, header_bytes, serialize-Writes, SumFits, checksum_of, checked_sum_zero,
}

-- What is read back: the two RST flags are one bit.
abbrev pub one_rst : TcpSegment → TcpSegment
one_rst s =
    let rst = s.message.sender.rst || s.message.receiver.rst in
    let sender = record s.message.sender { rst = rst } in
    let receiver = record s.message.receiver { rst = rst } in
    record s { message = record { sender = sender; receiver = receiver } }

abbrev flag_word : Option Wrap32 → Bool → Bool → Bool → ℕ
flag_word ackno rst syn fin =
    ack_bit ackno + (if rst then 4 else 0) + (if syn then 2 else 0) + (if fin then 1 else 0)

flags_decoded :
    (ackno : Option Wrap32) (rst syn fin : Bool)
    → ((flag_word ackno rst syn fin / 2 ^ 2 % 2 == 1) ≡ rst)
      × ((flag_word ackno rst syn fin / 2 ^ 1 % 2 == 1) ≡ syn)
      × ((flag_word ackno rst syn fin % 2 == 1) ≡ fin)
      × ((if not (flag_word ackno rst syn fin / 2 ^ 4 % 2 == 1)
            then none
            else some (record { raw_value = raw_ackno ackno }))
          ≡ ackno)
      × (flag_word ackno rst syn fin < 2 ^ 8)
flags_decoded none true true true = (refl, refl, refl, refl, omega arith)
flags_decoded none true true false = (refl, refl, refl, refl, omega arith)
flags_decoded none true false true = (refl, refl, refl, refl, omega arith)
flags_decoded none true false false = (refl, refl, refl, refl, omega arith)
flags_decoded none false true true = (refl, refl, refl, refl, omega arith)
flags_decoded none false true false = (refl, refl, refl, refl, omega arith)
flags_decoded none false false true = (refl, refl, refl, refl, omega arith)
flags_decoded none false false false = (refl, refl, refl, refl, omega arith)
flags_decoded (some k) true true true = (refl, refl, refl, refl, omega arith)
flags_decoded (some k) true true false = (refl, refl, refl, refl, omega arith)
flags_decoded (some k) true false true = (refl, refl, refl, refl, omega arith)
flags_decoded (some k) true false false = (refl, refl, refl, refl, omega arith)
flags_decoded (some k) false true true = (refl, refl, refl, refl, omega arith)
flags_decoded (some k) false true false = (refl, refl, refl, refl, omega arith)
flags_decoded (some k) false false true = (refl, refl, refl, refl, omega arith)
flags_decoded (some k) false false false = (refl, refl, refl, refl, omega arith)

abbrev with_payload : TcpSegment → Bytes → TcpSegment
with_payload s payload =
    let sender = record s.message.sender { payload = payload } in
    record s { message = record s.message { sender = sender } }

restored :
    (s : TcpSegment) (payload : Bytes)
    → segment_of s.udinfo.src_port s.udinfo.dst_port s.message.sender.seqno.raw_value
        (raw_ackno s.message.receiver.ackno)
        (flags s.message)
        s.message.receiver.window_size
        s.udinfo.cksum
        payload
      ≡ with_payload (one_rst s) payload
restored s payload =
    let (rst, syn, fin, ackno, small) =
      flags_decoded s.message.receiver.ackno (s.message.sender.rst || s.message.receiver.rst)
        s.message.sender.syn s.message.sender.fin in
    rw (rst, syn, fin, ackno) refl

parse_fields-Reads :
    (old s : TcpSegment)
    → IsSegment s
    → s.udinfo.cksum < 2 ^ 16
    → Reads
        (parse_fields old)
        (header_bytes s)
        (5, with_payload (one_rst s) old.message.sender.payload)
unfolding parse_fields
parse_fields-Reads old s i h =
    subst (λ t. Reads (parse_fields old) (header_bytes s) (5, t))
      (restored s old.message.sender.payload)
      (bind-Reads _ (integer-Reads 2 old.udinfo.src_port s.udinfo.src_port i.src_fits) (
        bind-Reads _ (integer-Reads 2 old.udinfo.dst_port s.udinfo.dst_port i.dst_fits) (
          bind-Reads _ (integer-Reads 4 0 s.message.sender.seqno.raw_value i.seqno_fits) (
            bind-Reads _ (integer-Reads 4 _ (raw_ackno s.message.receiver.ackno) i.ackno_fits) (
              bind-Reads _ (integer-Reads 1 0 80 (omega arith)) (
                bind-Reads _ (integer-Reads 1 80 (flags s.message) flags_fit) (
                  bind-Reads _
                    (integer-Reads 2 old.message.receiver.window_size s.message.receiver.window_size
                      i.window_fits)
                    (bind-Reads _ (integer-Reads 2 old.udinfo.cksum s.udinfo.cksum h)
                      (map-Reads _ (integer-Reads 2 0 0 (omega arith)))))))))))
  where
    flags_fit : flags s.message < 2 ^ 8
    flags_fit =
        (flags_decoded s.message.receiver.ackno (s.message.sender.rst || s.message.receiver.rst)
          s.message.sender.syn s.message.sender.fin).4

parse_payload_rest :
    (partial : TcpSegment) (p : Parser)
    → IsValid p.input
    → p.error ≡ false
    → parse_payload 5 partial p ≡ some (with_payload partial (contents p.input), false)
unfolding parse_payload
parse_payload_rest partial p v e =
    let (q, removed, w, d, same) = remove_prefix_drops 0 p v in
    rw removed rw (concatenate_all_remaining_rest q w)
      (ap₂ (λ bs err. some (with_payload partial bs, err)) d (same ∙ e))

-- A segment with its checksum goes through a parser whatever its buffers; the two RST flags come
-- back as one.
pub parse-serialize :
    (old s s' : TcpSegment) (pseudo : ℕ) (p : Parser)
    → IsSegment s
    → SumFits pseudo s
    → compute_checksum s pseudo ≡ some s'
    → IsValid p.input
    → p.error ≡ false
    → contents p.input ≡ flatten (objects (finish (serialize s' Serial.new)))
    → parse old pseudo p ≡ some (one_rst s', false)
unfolding parse
parse-serialize old s s' pseudo p i f computed v e content =
    let (c, small, is, good) = checksum_of pseudo s i f s' computed in
    let bytes =
      content
      ∙ ap (λ t. flatten (objects (finish (serialize t Serial.new)))) is
      ∙ finish-Writes (serialize-Writes (with_cksum s c)) in
    let (q, got, w, d, e') =
      (parse_fields-Reads old (with_cksum s c) (same_fields c) small).reads p
        s.message.sender.payload v e bytes in
    rw (checked_sum_zero pseudo s i f c p small good v bytes) rw got (
      parse_payload_rest (with_payload (one_rst (with_cksum s c)) old.message.sender.payload) q w e'
      ∙ ap (λ bs. some (with_payload (one_rst (with_cksum s c)) bs, false)) d
      ∙ ap (λ t. some (one_rst t, false)) (sym is))
  where
    same_fields : (c : ℕ) → IsSegment (with_cksum s c)
    same_fields c = record {
      src_fits = i.src_fits;
      dst_fits = i.dst_fits;
      seqno_fits = i.seqno_fits;
      ackno_fits = i.ackno_fits;
      window_fits = i.window_fits;
      payload_fits = i.payload_fits;
    }
