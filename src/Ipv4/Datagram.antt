-- ===== src/Ipv4/Datagram.antt =====
-- IPv4 datagrams, written and read back.
use cs_144_minnow_tcp.Base.{
  ℕ, ◌+◌, ◌≤◌, ◌≡◌, refl, ap, sym, ◌∙◌, false, some, ◌++◌, arith, length, flatten, le→leb,
}
use mathlib.Core.Option.{map, some-injective}
use cs_144_minnow_tcp.Ref.{objects}
use cs_144_minnow_tcp.Parser.{Parser, truncate, truncate_list, owned_all}
use cs_144_minnow_tcp.Parser.Inv.{contents, IsValid}
use cs_144_minnow_tcp.Parser.Rest.{dump_all_rest, objects-owned_all}
use cs_144_minnow_tcp.Serializer.{Serializer, buffer_all, finish}
use cs_144_minnow_tcp.Serializer as Serial
use cs_144_minnow_tcp.Serializer.Written.{finish-Writes, then-Writes, buffer_all-Writes}
use cs_144_minnow_tcp.Ipv4.{
  Ipv4Header, Ipv4Datagram, payload_length, serialize_fields, compute_checksum, parse_datagram,
  serialize_datagram,
}
use cs_144_minnow_tcp.Ipv4.Header.{
  IsHeader, header_bytes, fields-Writes, serialize_four, parse-Reads,
}

untruncated : (q : Parser) (len : ℕ) → q.input.size ≤ len → truncate len q ≡ some (tt, q)
unfolding truncate truncate_list
untruncated q len h = rw (le→leb q.input.size len h) refl

pub serialized_four :
    (d : Ipv4Datagram)
    → d.header.ver ≡ 4
    → serialize_datagram d Serial.new
      ≡ some (buffer_all d.payload (serialize_fields d.header Serial.new))
unfolding serialize_datagram
serialized_four d e = ap (map (buffer_all d.payload)) (serialize_four d.header Serial.new e)

payload_counted : (h : Ipv4Header) (n : ℕ) → IsHeader h → h.len ≡ 20 + n → payload_length h ≡ n
unfolding payload_length
payload_counted h n i e = omega (arith, i.hlen_five, i.len_fits, e)

-- A datagram with a header without options, whose checksum and length are right, survives serialize
-- and a parse of the same bytes in any nonempty buffers: the header and the bytes of the payload
-- come back, without an error.
pub parse_datagram-serialize_datagram :
    (old d : Ipv4Datagram) (s : Serializer) (p : Parser)
    → IsHeader d.header
    → compute_checksum d.header ≡ some d.header
    → d.header.len ≡ 20 + length (flatten (objects d.payload))
    → serialize_datagram d Serial.new ≡ some s
    → IsValid p.input
    → p.error ≡ false
    → contents p.input ≡ flatten (objects (finish s))
    → (g : Ipv4Datagram) × (parse_datagram old p ≡ some (g, false))
      × (g.header ≡ d.header)
      × (flatten (objects g.payload) ≡ flatten (objects d.payload))
unfolding parse_datagram
parse_datagram-serialize_datagram old d s p h c counted sent v e content =
    let (q, got, w, d', e') =
      (parse-Reads old.header d.header h c).reads p (flatten (objects d.payload)) v e
        (content ∙ written) in
    let (xs, left, same) = dump_all_rest q.input w in
    (
      record { header = d.header; payload = owned_all xs },
      rw got rw
          (untruncated q (payload_length d.header) (omega (arith, fits, w.counted, ap length d')))
          rw left (ap (λ b. some (record { header = d.header; payload = owned_all xs }, b)) e'),
      refl,
      ap flatten (objects-owned_all xs) ∙ same ∙ d',
    )
  where
    fits : payload_length d.header ≡ length (flatten (objects d.payload))
    fits = payload_counted d.header (length (flatten (objects d.payload))) h counted

    written : flatten (objects (finish s)) ≡ header_bytes d.header ++ flatten (objects d.payload)
    written =
        ap (λ t. flatten (objects (finish t)))
          (some-injective _ _ (sym sent ∙ serialized_four d h.ver_four))
        ∙ finish-Writes (then-Writes (fields-Writes d.header) (buffer_all-Writes d.payload))
