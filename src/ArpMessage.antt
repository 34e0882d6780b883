-- ===== src/ArpMessage.antt =====
-- util/arp_message.{hh,cc}: ARP messages. The string that `to_string` prints is not modelled.
pub mod RoundTrip
use cs_144_minnow_tcp.Base.{
  ℕ, Bool, not, ◌&&◌, ◌||◌, ◌==◌, if◌then◌else◌, Option, none, some, [], ◌∷◌,
}
use cs_144_minnow_tcp.ArpTable.{EthernetAddress}
use cs_144_minnow_tcp.Ethernet.{type_ipv4}
use cs_144_minnow_tcp.Parser.{Parse, set_error}
use cs_144_minnow_tcp.Parser
use cs_144_minnow_tcp.Parser.Chain.{◌>>=◌, ◌>>◌, return, integers}
use cs_144_minnow_tcp.Serializer.{Serializer}
use cs_144_minnow_tcp.Serializer as Serial

abbrev pub type_ethernet : ℕ
type_ethernet = 1

abbrev pub opcode_request : ℕ
opcode_request = 1

abbrev pub opcode_reply : ℕ
opcode_reply = 2

pub record ArpMessage : Type 0 where
  pub hardware_type : ℕ
  pub protocol_type : ℕ
  pub hardware_address_size : ℕ
  pub protocol_address_size : ℕ
  pub opcode : ℕ
  pub sender_ethernet_address : EthernetAddress
  pub sender_ip_address : ℕ
  pub target_ethernet_address : EthernetAddress
  pub target_ip_address : ℕ

abbrev pub zero_address : EthernetAddress
zero_address = 0 ∷ 0 ∷ 0 ∷ 0 ∷ 0 ∷ 0 ∷ []

-- A message as its member initialisers leave it.
abbrev pub new : ArpMessage
new = record {
  hardware_type = type_ethernet;
  protocol_type = type_ipv4;
  hardware_address_size = 6;
  protocol_address_size = 4;
  opcode = 0;
  sender_ethernet_address = zero_address;
  sender_ip_address = 0;
  target_ethernet_address = zero_address;
  target_ip_address = 0;
}

unfoldable pub supported : ArpMessage → Bool
supported m =
    m.hardware_type == type_ethernet
    && m.protocol_type == type_ipv4
    && m.hardware_address_size == 6
    && m.protocol_address_size == 4
    && (m.opcode == opcode_request || m.opcode == opcode_reply)

-- The second half of `ARPMessage::parse`
unfoldable pub parse_addresses : ArpMessage → Parse ArpMessage
parse_addresses m = do
  sender ← integers m.sender_ethernet_address
  sender_ip ← Parser.integer 4 m.sender_ip_address
  target ← integers m.target_ethernet_address
  target_ip ← Parser.integer 4 m.target_ip_address
  return (record m {
    sender_ethernet_address = sender;
    sender_ip_address = sender_ip;
    target_ethernet_address = target;
    target_ip_address = target_ip;
  })

-- `ARPMessage::parse`
unfoldable pub parse : ArpMessage → Parse ArpMessage
unfolding supported parse_addresses
parse m = do
  hardware_type ← Parser.integer 2 m.hardware_type
  protocol_type ← Parser.integer 2 m.protocol_type
  hardware_address_size ← Parser.integer 1 m.hardware_address_size
  protocol_address_size ← Parser.integer 1 m.protocol_address_size
  opcode ← Parser.integer 2 m.opcode
  let m' = record m {
    hardware_type = hardware_type;
    protocol_type = protocol_type;
    hardware_address_size = hardware_address_size;
    protocol_address_size = protocol_address_size;
    opcode = opcode;
  }
  if not (supported m') then set_error >> return m' else parse_addresses m'

abbrev pub serialize_fields : ArpMessage → Serializer → Serializer
serialize_fields m s = Serial.integer 4 m.target_ip_address (
    Serial.integers m.target_ethernet_address (
      Serial.integer 4 m.sender_ip_address (
        Serial.integers m.sender_ethernet_address (
          Serial.integer 2 m.opcode (
            Serial.integer 1 m.protocol_address_size (
              Serial.integer 1 m.hardware_address_size
                (Serial.integer 2 m.protocol_type (Serial.integer 2 m.hardware_type s))))))))

-- `ARPMessage::serialize` throws on an unsupported message.
unfoldable pub serialize : ArpMessage → Serializer → Option Serializer
unfolding supported
serialize m s = if not (supported m) then none else some (serialize_fields m s)
