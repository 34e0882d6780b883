-- ===== src/ArpMessage/RoundTrip.antt =====
-- ARP messages written and read back, and messages that are refused.
use mathlib.Core.Option.{some-injective, some-ne-none}
use cs_144_minnow_tcp.Base.{
  List, subst, ℕ, ◌<◌, ◌^◌, ◌≡◌, refl, ap, sym, ◌∙◌, true, false, not, none, some, ◌++◌, length,
  flatten, Bool-cases, inl, inr, if◌then◌else◌,
}
use cs_144_minnow_tcp.Ref.{objects}
use cs_144_minnow_tcp.ByteStream.{Bytes}
use cs_144_minnow_tcp.Parser.{Parser, set_error}
use cs_144_minnow_tcp.Parser.Chain.{integers, ◌>>◌, return}
use cs_144_minnow_tcp.Parser.Inv.{contents, IsValid}
use cs_144_minnow_tcp.Parser.Reading.{Gives}
use cs_144_minnow_tcp.Parser.Reads.{
  Reads, bind-Reads, map-Reads, integer-Reads, integers-Reads, each_byte,
}
use cs_144_minnow_tcp.Parser.Checked.{
  Checked, integer_checked, integers_checked, bind_checked, map_checked, give_up_checked,
}
use cs_144_minnow_tcp.Serializer.{Serializer, new, finish}
use cs_144_minnow_tcp.Serializer.Writing.{bytes_of}
use cs_144_minnow_tcp.Serializer.Written.{
  Writes, integer-Writes, integers-Writes, finish-Writes, then-Writes,
}
use cs_144_minnow_tcp.Ethernet.RoundTrip.{IsAddress}
use cs_144_minnow_tcp.ArpMessage.{
  ArpMessage, supported, parse, parse_addresses, serialize, serialize_fields,
}

-- Each field fits its type.
pub record IsMessage (m : ArpMessage) : Type 0 where
  pub hardware_fits : m.hardware_type < 2 ^ 16
  pub protocol_fits : m.protocol_type < 2 ^ 16
  pub hardware_size_fits : m.hardware_address_size < 2 ^ 8
  pub protocol_size_fits : m.protocol_address_size < 2 ^ 8
  pub opcode_fits : m.opcode < 2 ^ 16
  pub sender_fits : IsAddress m.sender_ethernet_address
  pub sender_ip_fits : m.sender_ip_address < 2 ^ 32
  pub target_fits : IsAddress m.target_ethernet_address
  pub target_ip_fits : m.target_ip_address < 2 ^ 32

abbrev address_bytes : ArpMessage → Bytes
address_bytes m =
    each_byte m.sender_ethernet_address
    ++ (bytes_of 4 m.sender_ip_address
        ++ (each_byte m.target_ethernet_address ++ bytes_of 4 m.target_ip_address))

abbrev pub message_bytes : ArpMessage → Bytes
message_bytes m =
    bytes_of 2 m.hardware_type
    ++ (bytes_of 2 m.protocol_type
        ++ (bytes_of 1 m.hardware_address_size
            ++ (bytes_of 1 m.protocol_address_size ++ (bytes_of 2 m.opcode ++ address_bytes m))))

fields-Writes : (m : ArpMessage) → Writes (serialize_fields m) (message_bytes m)
fields-Writes m = then-Writes (integer-Writes 2 m.hardware_type) (
    then-Writes (integer-Writes 2 m.protocol_type) (
      then-Writes (integer-Writes 1 m.hardware_address_size) (
        then-Writes (integer-Writes 1 m.protocol_address_size) (
          then-Writes (integer-Writes 2 m.opcode) (
            then-Writes (integers-Writes m.sender_ethernet_address) (
              then-Writes (integer-Writes 4 m.sender_ip_address) (
                then-Writes (integers-Writes m.target_ethernet_address)
                  (integer-Writes 4 m.target_ip_address))))))))

parse_addresses-Reads :
    (old m : ArpMessage)
    → IsMessage old
    → IsMessage m
    → Reads
        (parse_addresses (record m {
          sender_ethernet_address = old.sender_ethernet_address;
          sender_ip_address = old.sender_ip_address;
          target_ethernet_address = old.target_ethernet_address;
          target_ip_address = old.target_ip_address;
        }))
        (address_bytes m)
        m
unfolding parse_addresses
parse_addresses-Reads old m o v =
    bind-Reads _
      (integers-Reads old.sender_ethernet_address m.sender_ethernet_address
        (o.sender_fits.0 ∙ sym v.sender_fits.0) v.sender_fits.1)
      (bind-Reads _ (integer-Reads 4 old.sender_ip_address m.sender_ip_address v.sender_ip_fits) (
        bind-Reads _
          (integers-Reads old.target_ethernet_address m.target_ethernet_address
            (o.target_fits.0 ∙ sym v.target_fits.0) v.target_fits.1)
          (map-Reads _
            (integer-Reads 4 old.target_ip_address m.target_ip_address v.target_ip_fits))))

parse-Reads :
    (old m : ArpMessage)
    → IsMessage old
    → IsMessage m
    → supported m ≡ true
    → Reads (parse old) (message_bytes m) m
unfolding parse
parse-Reads old m o v s =
    bind-Reads _ (integer-Reads 2 old.hardware_type m.hardware_type v.hardware_fits) (
      bind-Reads _ (integer-Reads 2 old.protocol_type m.protocol_type v.protocol_fits) (
        bind-Reads _
          (integer-Reads 1 old.hardware_address_size m.hardware_address_size v.hardware_size_fits)
          (bind-Reads _
            (integer-Reads 1 old.protocol_address_size m.protocol_address_size v.protocol_size_fits)
            (bind-Reads _ (integer-Reads 2 old.opcode m.opcode v.opcode_fits)
              (rw s (parse_addresses-Reads old m o v))))))

module _ (m : ArpMessage) where
  pub supported-serialize : supported m ≡ true → serialize m new ≡ some (serialize_fields m new)
  unfolding serialize
  supported-serialize known = rw known refl

  unsupported-serialize : supported m ≡ false → serialize m new ≡ none
  unfolding serialize
  unsupported-serialize unknown = rw unknown refl

-- A supported message goes through a parser whatever its buffers, and whatever follows it.
pub parse-serialize :
    (old m : ArpMessage) (s : Serializer) (p : Parser) (rest : Bytes)
    → IsMessage old
    → IsMessage m
    → serialize m new ≡ some s
    → IsValid p.input
    → p.error ≡ false
    → contents p.input ≡ flatten (objects (finish s)) ++ rest
    → Gives (parse old p) m rest false
parse-serialize old m s p rest o h sent v e d = elim (Bool-cases (supported m)) [
  | inl known ↦ (parse-Reads old m o h known).reads p rest v e (
      d
      ∙ ap (λ r. flatten (objects (finish r)) ++ rest)
          (sym (some-injective _ _ (sym (supported-serialize m known) ∙ sent)))
      ∙ ap (◌++ rest) (finish-Writes (fields-Writes m)))
  | inr unknown ↦ elim (some-ne-none s (sym sent ∙ unsupported-serialize m unknown)) [ ]
]

six : (bs : List ℕ) → length bs ≡ 6 → Checked (integers bs) 6 (λ a. Unit {0})
six bs h = subst (λ n. Checked (integers bs) n (λ a. Unit {0})) h (integers_checked bs)

parse_addresses_checked :
    (m : ArpMessage)
    → length m.sender_ethernet_address ≡ 6
    → length m.target_ethernet_address ≡ 6
    → supported m ≡ true
    → Checked (parse_addresses m) 20 (λ m'. supported m' ≡ true)
unfolding parse_addresses supported
parse_addresses_checked m sender target known =
    bind_checked _ (six m.sender_ethernet_address sender) (λ a.
      bind_checked _ (integer_checked 4 m.sender_ip_address) (λ b.
        bind_checked _ (six m.target_ethernet_address target)
          (λ c. map_checked _ (integer_checked 4 m.target_ip_address) (λ d. known))))

either_checked :
    (m : ArpMessage)
    → length m.sender_ethernet_address ≡ 6
    → length m.target_ethernet_address ≡ 6
    → Checked
        (if not (supported m) then set_error >> return m else parse_addresses m)
        20
        (λ m'. supported m' ≡ true)
either_checked m sender target = elim (Bool-cases (supported m)) [
  | inl known ↦ rw known (parse_addresses_checked m sender target known)
  | inr unknown ↦ rw unknown (give_up_checked m 20 (λ m'. supported m' ≡ true))
]

-- A parse of any input ends without a fault. If the error flag is down then, it was down before,
-- 28 bytes were read, and the message is supported.
pub parse_checked :
    (m : ArpMessage)
    → length m.sender_ethernet_address ≡ 6
    → length m.target_ethernet_address ≡ 6
    → Checked (parse m) 28 (λ m'. supported m' ≡ true)
unfolding parse
parse_checked m sender target = bind_checked _ (integer_checked 2 m.hardware_type) (λ a.
    bind_checked _ (integer_checked 2 m.protocol_type) (λ b.
      bind_checked _ (integer_checked 1 m.hardware_address_size) (λ c.
        bind_checked _ (integer_checked 1 m.protocol_address_size) (λ d.
          bind_checked _ (integer_checked 2 m.opcode) (λ e.
            either_checked
              (record m {
                hardware_type = a;
                protocol_type = b;
                hardware_address_size = c;
                protocol_address_size = d;
                opcode = e;
              })
              sender target)))))
