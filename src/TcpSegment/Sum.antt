-- ===== src/TcpSegment/Sum.antt =====
-- The bytes of a TCP segment, and the checksum over them.
use cs_144_minnow_tcp.Base.{
  ℕ, ◌+◌, ◌-◌, ◌*◌, ◌^◌, ◌<◌, ◌≡◌, ap, sym, ◌∙◌, Bool, false, some, List, ◌++◌, arith, length,
  length-append, flatten, mod32, Option-cases, inl, inr,
}
use mathlib.Core.Option.{map, some-injective, some-ne-none}
use cs_144_minnow_tcp.Ref.{objects}
use cs_144_minnow_tcp.ByteStream.{Bytes}
use cs_144_minnow_tcp.Parser.{Parser}
use cs_144_minnow_tcp.Parser.Inv.{contents, IsValid}
use cs_144_minnow_tcp.Parser.Rest.{buffer_rest}
use cs_144_minnow_tcp.Parser.Reads.{AllBytes}
use cs_144_minnow_tcp.Serializer.{Serializer, buffer_string, finish}
use cs_144_minnow_tcp.Serializer as Serial
use cs_144_minnow_tcp.Serializer.Writing.{bytes_of}
use cs_144_minnow_tcp.Serializer.Written.{
  Writes, integer-Writes, buffer_string-Writes, finish-Writes, then-Writes,
}
use cs_144_minnow_tcp.Checksum.{add, add_all, value}
use cs_144_minnow_tcp.Checksum
use cs_144_minnow_tcp.Checksum.Folding.{value-value, value-residue, residue}
use cs_144_minnow_tcp.Checksum.Weight.{
  weight, flips, weight-append, weight_le, weight-bytes_of, add-weight, add_all-flatten,
  AllBytes-append,
}
use cs_144_minnow_tcp.TcpSegment.{
  TcpSegment, checked_sum, flags, raw_ackno, serialize, compute_checksum,
}

-- Each field fits its type.
pub record IsSegment (s : TcpSegment) : Type 0 where
  pub src_fits : s.udinfo.src_port < 2 ^ 16
  pub dst_fits : s.udinfo.dst_port < 2 ^ 16
  pub seqno_fits : s.message.sender.seqno.raw_value < 2 ^ 32
  pub ackno_fits : raw_ackno s.message.receiver.ackno < 2 ^ 32
  pub window_fits : s.message.receiver.window_size < 2 ^ 16
  pub payload_fits : AllBytes s.message.sender.payload

abbrev pub with_cksum : TcpSegment → ℕ → TcpSegment
with_cksum s c = record s { udinfo = record s.udinfo { cksum = c } }

-- The bytes before the checksum and the whole segment.
abbrev front_bytes : TcpSegment → Bytes
front_bytes s =
    bytes_of 2 s.udinfo.src_port
    ++ (bytes_of 2 s.udinfo.dst_port
        ++ (bytes_of 4 s.message.sender.seqno.raw_value
            ++ (bytes_of 4 (raw_ackno s.message.receiver.ackno)
                ++ (bytes_of 1 80
                    ++ (bytes_of 1 (flags s.message)
                        ++ bytes_of 2 s.message.receiver.window_size)))))

abbrev pub header_bytes : TcpSegment → Bytes
header_bytes s = front_bytes s ++ (bytes_of 2 s.udinfo.cksum ++ bytes_of 2 0)

abbrev pub segment_bytes : TcpSegment → Bytes
segment_bytes s = header_bytes s ++ s.message.sender.payload

pub serialize-Writes : (s : TcpSegment) → Writes (serialize s) (segment_bytes s)
unfolding serialize
serialize-Writes s = then-Writes (integer-Writes 2 s.udinfo.src_port) (
    then-Writes (integer-Writes 2 s.udinfo.dst_port) (
      then-Writes (integer-Writes 4 s.message.sender.seqno.raw_value) (
        then-Writes (integer-Writes 4 (raw_ackno s.message.receiver.ackno)) (
          then-Writes (integer-Writes 1 80) (
            then-Writes (integer-Writes 1 (flags s.message)) (
              then-Writes (integer-Writes 2 s.message.receiver.window_size) (
                then-Writes (integer-Writes 2 s.udinfo.cksum) (
                  then-Writes (integer-Writes 2 0)
                    (buffer_string-Writes s.message.sender.payload)))))))))

-- The sum over a segment, short of its checksum.
abbrev base_weight : TcpSegment → ℕ
base_weight s = weight false (front_bytes s) + weight false s.message.sender.payload

segment_weight :
    (s : TcpSegment)
    → s.udinfo.cksum < 2 ^ 16
    → weight false (segment_bytes s) ≡ base_weight s + s.udinfo.cksum
segment_weight s h =
    weight-append false (front_bytes s) rest
    ∙ ap (weight false (front_bytes s) +◌) (
        weight-append false (bytes_of 2 s.udinfo.cksum) (bytes_of 2 0 ++ s.message.sender.payload)
        ∙ ap (◌+ weight false (bytes_of 2 0 ++ s.message.sender.payload))
            (weight-bytes_of s.udinfo.cksum h))
    ∙ regroup (weight false (front_bytes s)) s.udinfo.cksum (weight false s.message.sender.payload)
  where
    rest : Bytes
    rest = bytes_of 2 s.udinfo.cksum ++ (bytes_of 2 0 ++ s.message.sender.payload)

    regroup : (a b c : ℕ) → a + (b + (0 + (0 + c))) ≡ a + c + b
    regroup a b c = omega arith

segment-AllBytes : (s : TcpSegment) → AllBytes s.message.sender.payload → AllBytes (segment_bytes s)
segment-AllBytes s a = AllBytes-append (header_bytes s) s.message.sender.payload (omega arith) a

-- A sum that the checksum is taken of fits a uint32_t with room to spare.
abbrev pub SumFits : ℕ → TcpSegment → Type 0
SumFits pseudo s = pseudo + 65280 * (20 + length s.message.sender.payload) + 65535 < mod32

module _ (pseudo : ℕ) (s : TcpSegment) (i : IsSegment s) (f : SumFits pseudo s) where
  room : pseudo + base_weight s + 65535 < mod32
  room = omega (
    arith,
    segment_weight (with_cksum s 0) (omega arith),
    weight_le false (segment_bytes (with_cksum s 0))
        (segment-AllBytes (with_cksum s 0) i.payload_fits),
    length-append (header_bytes (with_cksum s 0)) s.message.sender.payload,
  )

  -- The checksum taken over a segment whatever its buffers.
  summed :
      (c : ℕ) (xss : List Bytes)
      → c < 2 ^ 16
      → flatten xss ≡ segment_bytes (with_cksum s c)
      → (b : Bool) × (add_all (Checksum.new pseudo) xss
          ≡ record { sum = pseudo + base_weight s + c; parity = b })
  summed c xss h e = (
    _,
    add_all-flatten (Checksum.new pseudo) xss
        ∙ ap (add (Checksum.new pseudo)) e
        ∙ add-weight pseudo false (segment_bytes (with_cksum s c))
            (segment-AllBytes (with_cksum s c) i.payload_fits)
            (omega (arith, room, segment_weight (with_cksum s c) h))
        ∙ ap (λ n. record { sum = n; parity = flips false (segment_bytes (with_cksum s c)) })
            (omega (arith, segment_weight (with_cksum s c) h)),
  )

-- The checksum that `compute_checksum` sets makes the segment verify.
module _ (pseudo : ℕ) (s : TcpSegment) (i : IsSegment s) (f : SumFits pseudo s) where
  computed_as :
      (b : Bool) × (compute_checksum s pseudo
        ≡ map (with_cksum s) (value (record { sum = pseudo + base_weight s; parity = b })))
  unfolding compute_checksum
  computed_as =
      let (b, e) =
        summed pseudo s i f 0 (objects (finish (serialize (with_cksum s 0) Serial.new)))
          (omega arith) (finish-Writes (serialize-Writes (with_cksum s 0))) in
      (
        b,
        ap (λ c. map (with_cksum s) (value c))
            (e
              ∙ ap (λ n. record { sum = n; parity = b }) {y = pseudo + base_weight s}
                  (omega arith)),
      )

  pub compute_checksum-some : (c : ℕ) × (compute_checksum s pseudo ≡ some (with_cksum s c))
  compute_checksum-some =
      let (b, e) = computed_as in
      (
        65535 - residue (pseudo + base_weight s),
        e
            ∙ ap (map (with_cksum s)) (
                value-residue (record { sum = pseudo + base_weight s; parity = b })
                  (omega (arith, room pseudo s i f))),
      )

  pub checksum_of :
      (s' : TcpSegment)
      → compute_checksum s pseudo ≡ some s'
      → (c : ℕ) × (c < 2 ^ 16)
        × (s' ≡ with_cksum s c)
        × ((b : Bool) → value (record { sum = pseudo + base_weight s + c; parity = b }) ≡ some 0)
  checksum_of s' computed =
      let (b, e) = computed_as in
      elim (Option-cases (value (record { sum = pseudo + base_weight s; parity = b }))) [
        | inl fault ↦ elim (some-ne-none s' (sym computed ∙ e ∙ ap (map (with_cksum s)) fault)) [ ]
        | inr found ↦
            let (c, got) = found in
            let fits = room pseudo s i f in
            (
              c,
              omega (arith, (value-value (pseudo + base_weight s) c b b fits got).0),
              some-injective _ _ (sym computed ∙ e ∙ ap (map (with_cksum s)) got),
              (λ b'. (value-value (pseudo + base_weight s) c b b' fits got).1),
            )
      ]

  -- The segment verifies whatever its buffers.
  pub checked_sum_zero :
      (c : ℕ) (p : Parser)
      → c < 2 ^ 16
      → ((b : Bool) → value (record { sum = pseudo + base_weight s + c; parity = b }) ≡ some 0)
      → IsValid p.input
      → contents p.input ≡ segment_bytes (with_cksum s c)
      → checked_sum pseudo p ≡ some (0, p)
  unfolding checked_sum
  checked_sum_zero c p h good v e =
      let (xs, seen, same) = buffer_rest p.input v in
      let (b, sum) = summed pseudo s i f c xs h (same ∙ e) in
      rw seen (ap (map (λ r. (r, p))) (ap value sum ∙ good b))
