-- ===== src/TcpOverIp/Wrapped.antt =====
-- Segments that one adapter wraps and its peer's adapter unwraps.
use cs_144_minnow_tcp.Base.{
  ℕ, ◌^◌, ◌≤◌, ◌<◌, ◌≡◌, refl, ap, sym, subst, ◌∙◌, true, false, ◌||◌, ◌⊎◌, inl, inr, some, List,
  arith, length, flatten, mod64, ◌==◌, ==_iff, if◌then◌else◌,
}
use mathlib.Core.Option.{some-injective}
use cs_144_minnow_tcp.Ref.{objects}
use cs_144_minnow_tcp.ByteStream.{Bytes}
use cs_144_minnow_tcp.ByteStream.Inv.{AllProper, held-zero}
use cs_144_minnow_tcp.Parser.{owned_all}
use cs_144_minnow_tcp.Parser.Rest.{over, over-IsValid, new_owned}
use cs_144_minnow_tcp.Serializer.{finish}
use cs_144_minnow_tcp.Serializer as Serial
use cs_144_minnow_tcp.Ipv4.{Ipv4Header, Ipv4Datagram, pseudo_checksum, payload_length}
use cs_144_minnow_tcp.Ipv4.Checksummed.{compute_checksum-Summed}
use cs_144_minnow_tcp.TcpSegment.{TcpMessage, TcpSegment}
use cs_144_minnow_tcp.TcpSegment
use cs_144_minnow_tcp.TcpSegment.Sum.{IsSegment, SumFits, with_cksum, compute_checksum-some}
use cs_144_minnow_tcp.TcpSegment.RoundTrip.{one_rst, parse-serialize}
use cs_144_minnow_tcp.TcpOverIp.{
  FdAdapter, addressed, header_of, wrap_tcp_in_ip, accept, connect, empty_segment, is_unrelated,
  unwrap_tcp_in_ip,
}

-- The segment fits an IPv4 datagram.
abbrev pub FitsDatagram : FdAdapter → TcpMessage → Type 0
FitsDatagram a msg =
    IsSegment (addressed a msg)
    × (length msg.sender.payload ≤ 65495)
    × (a.cfg.source.ipv4_numeric < 2 ^ 32)
    × (a.cfg.destination.ipv4_numeric < 2 ^ 32)

-- The other adapter is connected to this one, or listens on its port and the message opens a
-- connection.
abbrev pub Hears : FdAdapter → FdAdapter → TcpMessage → Type 0
Hears b a msg =
    ((b.listen ≡ false) × (b.cfg.source ≡ a.cfg.destination) × (b.cfg.destination ≡ a.cfg.source))
    ⊎ ((b.listen ≡ true)
        × (b.cfg.source.port ≡ a.cfg.destination.port)
        × (msg.sender.syn ≡ true)
        × (msg.sender.rst || msg.receiver.rst ≡ false))

sum_fits :
    (a : FdAdapter) (msg : TcpMessage)
    → FitsDatagram a msg
    → SumFits (pseudo_checksum (header_of a msg)) (addressed a msg)
unfolding pseudo_checksum payload_length
sum_fits a msg f = omega (arith, f.1, f.2, f.3)

abbrev wrapped : FdAdapter → TcpMessage → ℕ → ℕ → Ipv4Datagram
wrapped a msg c h = record {
  header = record (header_of a msg) { cksum = h };
  payload = finish (TcpSegment.serialize (with_cksum (addressed a msg) c) Serial.new);
}

-- `wrap_tcp_in_ip` returns a datagram for every segment that fits.
pub wrap_tcp_in_ip-wrapped :
    (a : FdAdapter) (msg : TcpMessage)
    → FitsDatagram a msg
    → (c h : ℕ) × (TcpSegment.compute_checksum (addressed a msg) (pseudo_checksum (header_of a msg))
        ≡ some (with_cksum (addressed a msg) c))
      × (wrap_tcp_in_ip a msg ≡ some (wrapped a msg c h))
unfolding wrap_tcp_in_ip
wrap_tcp_in_ip-wrapped a msg f =
    let (c, e) =
      compute_checksum-some (pseudo_checksum (header_of a msg)) (addressed a msg) f.0
        (sum_fits a msg f) in
    let (h, computed, again) = compute_checksum-Summed (header_of a msg) refl in
    (c, h, e, rw e rw computed refl)

-- The adapter after a message from `a`: a listener is connected by it.
abbrev pub heard : (ℕ → ℕ) → FdAdapter → Ipv4Header → ℕ → FdAdapter
heard resolve b header port = if b.listen then connect resolve b header port else b

equal : (n : ℕ) → (n == n) ≡ true
equal n = (==_iff n n).1 refl

accept-heard :
    (resolve : ℕ → ℕ) (b a : FdAdapter) (msg : TcpMessage) (c h : ℕ)
    → Hears b a msg
    → accept resolve b (wrapped a msg c h).header (one_rst (with_cksum (addressed a msg) c)) ≡ (
      heard resolve b (wrapped a msg c h).header a.cfg.source.port,
      some (one_rst (addressed a msg)).message,
    )
unfolding accept
accept-heard resolve b a msg c h (inl (connected, source, destination)) =
    rw connected rw
      (ap (λ e. a.cfg.destination.port == e.port) source ∙ equal a.cfg.destination.port) rw
      (ap (λ e. a.cfg.source.port == e.port) destination ∙ equal a.cfg.source.port) refl
accept-heard resolve b a msg c h (inr (yes_listens, port, syn, rst)) =
    rw yes_listens rw (ap (a.cfg.destination.port ==◌) port ∙ equal a.cfg.destination.port) rw syn
      rw rst rw (equal a.cfg.source.port) refl

related :
    (b a : FdAdapter) (msg : TcpMessage) (c h : ℕ)
    → Hears b a msg
    → is_unrelated b (wrapped a msg c h).header ≡ false
related b a msg c h (inl (connected, source, destination)) =
    rw connected rw
      (ap (λ e. a.cfg.destination.ipv4_numeric == e.ipv4_numeric) source
        ∙ equal a.cfg.destination.ipv4_numeric)
      rw
      (ap (λ e. a.cfg.source.ipv4_numeric == e.ipv4_numeric) destination
        ∙ equal a.cfg.source.ipv4_numeric)
      refl
related b a msg c h (inr (yes_listens, port, syn, rst)) = rw yes_listens refl

unwrap_wrapped :
    (resolve : ℕ → ℕ) (a b : FdAdapter) (msg : TcpMessage) (c h : ℕ) (xs : List Bytes)
    → FitsDatagram a msg
    → Hears b a msg
    → TcpSegment.compute_checksum (addressed a msg) (pseudo_checksum (header_of a msg))
      ≡ some (with_cksum (addressed a msg) c)
    → AllProper xs
    → length (flatten xs) < mod64
    → flatten xs ≡ flatten (objects (wrapped a msg c h).payload)
    → unwrap_tcp_in_ip resolve b (record (wrapped a msg c h) { payload = owned_all xs })
      ≡ some (
        heard resolve b (wrapped a msg c h).header a.cfg.source.port,
        some (one_rst (addressed a msg)).message,
      )
unfolding unwrap_tcp_in_ip pseudo_checksum payload_length
unwrap_wrapped resolve a b msg c h xs f hears computed proper small bytes =
    let got =
      parse-serialize empty_segment (addressed a msg) (with_cksum (addressed a msg) c)
        (pseudo_checksum (header_of a msg)) (over xs) f.0 (sum_fits a msg f) computed
        (over-IsValid xs proper small) refl (held-zero xs ∙ bytes) in
    rw (related b a msg c h hears) rw (new_owned xs small) rw got
      (ap some (accept-heard resolve b a msg c h hears))

-- Let a message fit an IPv4 datagram, and let the other adapter be connected to the one that wraps
-- it, or listen on the port it goes to while the message has SYN and no RST. Then unwrapping what
-- was wrapped, its payload in any nonempty buffers, returns the message, its two RST flags made
-- one; a listener is then connected to the sender.
pub unwrap_tcp_in_ip-wrap_tcp_in_ip :
    (resolve : ℕ → ℕ) (a b : FdAdapter) (msg : TcpMessage) (d : Ipv4Datagram) (xs : List Bytes)
    → FitsDatagram a msg
    → Hears b a msg
    → wrap_tcp_in_ip a msg ≡ some d
    → AllProper xs
    → length (flatten xs) < mod64
    → flatten xs ≡ flatten (objects d.payload)
    → unwrap_tcp_in_ip resolve b (record d { payload = owned_all xs })
      ≡ some (heard resolve b d.header a.cfg.source.port, some (one_rst (addressed a msg)).message)
unwrap_tcp_in_ip-wrap_tcp_in_ip resolve a b msg d xs f hears sent proper small bytes =
    let (c, h, computed, returned) = wrap_tcp_in_ip-wrapped a msg f in
    let is : d ≡ wrapped a msg c h = some-injective _ _ (sym sent ∙ returned) in
    subst
      (λ e.
        unwrap_tcp_in_ip resolve b (record e { payload = owned_all xs })
        ≡ some
            (heard resolve b e.header a.cfg.source.port, some (one_rst (addressed a msg)).message))
      (sym is)
      (unwrap_wrapped resolve a b msg c h xs f hears computed proper small
        (bytes ∙ ap (λ e. flatten (objects e.payload)) is))
