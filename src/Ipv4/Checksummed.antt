-- ===== src/Ipv4/Checksummed.antt =====
-- The checksum that `compute_checksum` gives an IPv4 header.
use cs_144_minnow_tcp.Base.{ℕ, ◌-◌, ◌<◌, ◌≡◌, refl, some, List, [], ◌∷◌, arith, mod32}
use cs_144_minnow_tcp.Ref.{objects}
use cs_144_minnow_tcp.ByteStream.{Bytes}
use cs_144_minnow_tcp.Serializer.{finish}
use cs_144_minnow_tcp.Serializer as Serial
use cs_144_minnow_tcp.Checksum.{InternetChecksum, add_byte, add, add_all, value}
use cs_144_minnow_tcp.Checksum
use cs_144_minnow_tcp.Checksum.Folding.{value-residue, residue}
use cs_144_minnow_tcp.Ipv4.{Ipv4Header, serialize_fields, compute_checksum}
use cs_144_minnow_tcp.Ipv4.Header.{serialize_four}

add_byte_fits : (c : InternetChecksum) (b : ℕ) → (add_byte c b).sum < mod32
add_byte_fits c b = omega arith

add_fits : (c : InternetChecksum) (bs : Bytes) → c.sum < mod32 → (add c bs).sum < mod32
unfolding add
add_fits c [] h = h
add_fits c (b ∷ bs) h = add_fits (add_byte c b) bs (add_byte_fits c b)

pub add_all_fits :
    (c : InternetChecksum) (xss : List Bytes) → c.sum < mod32 → (add_all c xss).sum < mod32
unfolding add_all
add_all_fits c [] h = h
add_all_fits c (xs ∷ xss) h = add_all_fits (add c xs) xss (add_fits c xs h)

-- The header with its checksum.
abbrev pub Summed : Ipv4Header → Type 0
Summed h =
    (c : ℕ) × (compute_checksum h ≡ some (record h { cksum = c }))
    × (compute_checksum (record h { cksum = c }) ≡ some (record h { cksum = c }))

pub compute_checksum-Summed : (h : Ipv4Header) → h.ver ≡ 4 → Summed h
unfolding compute_checksum
compute_checksum-Summed h four =
    let cleared = record h { cksum = 0 } in
    let sum = add_all (Checksum.new 0) (objects (finish (serialize_fields cleared Serial.new))) in
    let total = value-residue sum (
      add_all_fits (Checksum.new 0) (objects (finish (serialize_fields cleared Serial.new)))
        (omega arith)) in
    (
      65535 - residue sum.sum,
      rw (serialize_four cleared Serial.new four) rw total refl,
      rw (serialize_four cleared Serial.new four) rw total refl,
    )
