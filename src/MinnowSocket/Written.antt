-- ===== src/MinnowSocket/Written.antt =====
-- Every message is written to the tunnel.
use cs_144_minnow_tcp.Base.{ℕ, ◌<◌, ◌≡◌, refl, some, List, [], ◌∷◌, arith, mod32, ◌-◌}
use cs_144_minnow_tcp.Ref.{Ref, objects}
use cs_144_minnow_tcp.ByteStream.{Bytes}
use cs_144_minnow_tcp.Serializer.{finish, buffer_all}
use cs_144_minnow_tcp.Serializer as Serial
use cs_144_minnow_tcp.Checksum.{add_all}
use cs_144_minnow_tcp.Checksum
use cs_144_minnow_tcp.Checksum.Folding.{value-residue, residue}
use cs_144_minnow_tcp.Ipv4.{Ipv4Header, Ipv4Datagram, pseudo_checksum, serialize_fields}
use cs_144_minnow_tcp.Ipv4.Checksummed.{add_all_fits, compute_checksum-Summed}
use cs_144_minnow_tcp.Ipv4.Datagram.{serialized_four}
use cs_144_minnow_tcp.TcpSegment.{TcpMessage, TcpSegment, compute_checksum}
use cs_144_minnow_tcp.TcpSegment
use cs_144_minnow_tcp.TcpOverIp.{FdAdapter, addressed, header_of, wrap_tcp_in_ip, write}
use cs_144_minnow_tcp.MinnowSocket.{write_all}

-- The sum of a checksum wraps around, so that it has a value whatever it starts from.
compute_checksum-some :
    (s : TcpSegment) (pseudo : ℕ)
    → pseudo < mod32
    → (s' : TcpSegment) × (compute_checksum s pseudo ≡ some s')
unfolding compute_checksum
compute_checksum-some s pseudo h =
    let cleared = record s { udinfo = record s.udinfo { cksum = 0 } } in
    let xss = objects (finish (TcpSegment.serialize cleared Serial.new)) in
    let sum = add_all (Checksum.new pseudo) xss in
    let has_value = value-residue sum (add_all_fits (Checksum.new pseudo) xss h) in
    (record s { udinfo = record s.udinfo { cksum = 65535 - residue sum.sum } }, rw has_value refl)

pseudo_checksum_fits : (h : Ipv4Header) → pseudo_checksum h < mod32
unfolding pseudo_checksum
pseudo_checksum_fits h = omega arith

write-some :
    (a : FdAdapter) (msg : TcpMessage) → (buffers : List (Ref Bytes)) × (write a msg ≡ some buffers)
unfolding write wrap_tcp_in_ip
write-some a msg =
    let (seg, summed) =
      compute_checksum-some (addressed a msg) (pseudo_checksum (header_of a msg))
        (pseudo_checksum_fits (header_of a msg)) in
    let (c, headed, again) = compute_checksum-Summed (header_of a msg) refl in
    let d : Ipv4Datagram = record {
      header = record (header_of a msg) { cksum = c };
      payload = finish (TcpSegment.serialize seg Serial.new);
    } in
    (
      finish (buffer_all d.payload (serialize_fields d.header Serial.new)),
      rw summed rw headed rw (serialized_four d refl) refl,
    )

-- One list of buffers for each message, in order, as the adapter writes it.
abbrev pub AllWritten : FdAdapter → List TcpMessage → List (List (Ref Bytes)) → Type 0
AllWritten a [] [] = Unit {0}
AllWritten a [] (buffers ∷ out) = ⊥
AllWritten a (msg ∷ msgs) [] = ⊥
AllWritten a (msg ∷ msgs) (buffers ∷ out) = (write a msg ≡ some buffers) × AllWritten a msgs out

pub write_all-AllWritten :
    (a : FdAdapter) (msgs : List TcpMessage)
    → (out : List (List (Ref Bytes))) × (write_all a msgs ≡ some out) × AllWritten a msgs out
unfolding write_all
write_all-AllWritten a [] = ([], refl, tt)
write_all-AllWritten a (msg ∷ msgs) =
    let (buffers, one) = write-some a msg in
    let (out, others, all) = write_all-AllWritten a msgs in
    (buffers ∷ out, rw one rw others refl, (one, all))
