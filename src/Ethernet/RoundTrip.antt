-- ===== src/Ethernet/RoundTrip.antt =====
-- Ethernet headers and frames, written and read back.
use cs_144_minnow_tcp.Base.{◌<◌, ◌^◌, ◌≡◌, refl, ap, sym, ◌∙◌, false, some, ◌++◌, length, flatten}
use cs_144_minnow_tcp.Ref.{objects}
use cs_144_minnow_tcp.ByteStream.{Bytes}
use cs_144_minnow_tcp.ArpTable.{EthernetAddress}
use cs_144_minnow_tcp.Parser.{Parser, owned_all}
use cs_144_minnow_tcp.Parser.Inv.{contents, IsValid}
use cs_144_minnow_tcp.Parser.Rest.{dump_all_rest, objects-owned_all}
use cs_144_minnow_tcp.Parser.Reads.{
  Reads, bind-Reads, map-Reads, integer-Reads, integers-Reads, each_byte, AllBytes,
}
use cs_144_minnow_tcp.Serializer.{new, finish}
use cs_144_minnow_tcp.Serializer.Writing.{bytes_of}
use cs_144_minnow_tcp.Serializer.Written.{
  Writes, integer-Writes, integers-Writes, buffer_all-Writes, finish-Writes, then-Writes,
}
use cs_144_minnow_tcp.Ethernet.{
  EthernetHeader, EthernetFrame, parse, serialize, parse_frame, serialize_frame,
}

-- Six bytes.
abbrev pub IsAddress : EthernetAddress → Type 0
IsAddress a = (length a ≡ 6) × AllBytes a

pub record IsHeader (h : EthernetHeader) : Type 0 where
  pub dst_fits : IsAddress h.dst
  pub src_fits : IsAddress h.src
  pub type_fits : h.type < 2 ^ 16

abbrev pub header_bytes : EthernetHeader → Bytes
header_bytes h = each_byte h.dst ++ (each_byte h.src ++ (bytes_of 2 h.type))

pub serialize-Writes : (h : EthernetHeader) → Writes (serialize h) (header_bytes h)
unfolding serialize
serialize-Writes h =
    then-Writes (integers-Writes h.dst)
      (then-Writes (integers-Writes h.src) (integer-Writes 2 h.type))

pub parse-Reads :
    (old h : EthernetHeader) → IsHeader old → IsHeader h → Reads (parse old) (header_bytes h) h
unfolding parse
parse-Reads old h o v =
    bind-Reads _ (integers-Reads old.dst h.dst (o.dst_fits.0 ∙ sym v.dst_fits.0) v.dst_fits.1) (
      bind-Reads _ (integers-Reads old.src h.src (o.src_fits.0 ∙ sym v.src_fits.0) v.src_fits.1)
        (map-Reads _ (integer-Reads 2 old.type h.type v.type_fits)))

-- A frame with a header of two addresses of six bytes and a 16-bit type survives serialize and a
-- parse of the same bytes in any nonempty buffers, into a frame whose old addresses have six bytes:
-- the header and the bytes of the payload come back, without an error.
pub parse_frame-serialize_frame :
    (old f : EthernetFrame) (p : Parser)
    → IsHeader old.header
    → IsHeader f.header
    → IsValid p.input
    → p.error ≡ false
    → contents p.input ≡ flatten (objects (finish (serialize_frame f new)))
    → (g : EthernetFrame) × (parse_frame old p ≡ some (g, false))
      × (g.header ≡ f.header)
      × (flatten (objects g.payload) ≡ flatten (objects f.payload))
unfolding parse_frame serialize_frame
parse_frame-serialize_frame old f p o h v e d =
    let (q, got, w, d', e') =
      (parse-Reads old.header f.header o h).reads p (flatten (objects f.payload)) v e (d ∙ sent) in
    let (xs, left, same) = dump_all_rest q.input w in
    (
      record { header = f.header; payload = owned_all xs },
      rw got rw left (ap (λ b. some (record { header = f.header; payload = owned_all xs }, b)) e'),
      refl,
      ap flatten (objects-owned_all xs) ∙ same ∙ d',
    )
  where
    sent :
        flatten (objects (finish (serialize_frame f new)))
        ≡ header_bytes f.header ++ flatten (objects f.payload)
    sent = finish-Writes (then-Writes (serialize-Writes f.header) (buffer_all-Writes f.payload))
