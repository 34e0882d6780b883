-- ===== src/Ipv4/Header.antt =====
-- IPv4 headers, written and read back.
use cs_144_minnow_tcp.Base.{
  ℕ, ◌+◌, ◌-◌, ◌*◌, ◌/◌, ◌%◌, ◌^◌, ◌<◌, ◌≡◌, refl, ap, sym, ◌∙◌, Bool, true, false, some, [], ◌++◌,
  arith, ◌==◌, ==_iff, le→ltb, drop, subst, if◌then◌else◌,
}
use cs_144_minnow_tcp.ByteStream.{Bytes}
use cs_144_minnow_tcp.Parser.{Parser}
use cs_144_minnow_tcp.Parser.Inv.{contents}
use cs_144_minnow_tcp.Parser.Reading.{remove_prefix_drops}
use cs_144_minnow_tcp.Parser.Reads.{Reads, bind-Reads, integer-Reads}
use cs_144_minnow_tcp.Serializer.{Serializer}
use cs_144_minnow_tcp.Serializer.Writing.{bytes_of}
use cs_144_minnow_tcp.Serializer.Written.{Writes, integer-Writes, then-Writes}
use cs_144_minnow_tcp.Ipv4.{
  Ipv4Header, header_length, first_byte, fo_val, serialize, serialize_fields, compute_checksum,
  check, verify, parse,
}

-- The fields fit their types, and there are no options.
pub record IsHeader (h : Ipv4Header) : Type 0 where
  pub ver_four : h.ver ≡ 4
  pub hlen_five : h.hlen ≡ 5
  pub tos_fits : h.tos < 2 ^ 8
  pub len_fits : h.len < 2 ^ 16
  pub id_fits : h.id < 2 ^ 16
  pub offset_fits : h.offset < 2 ^ 13
  pub ttl_fits : h.ttl < 2 ^ 8
  pub proto_fits : h.proto < 2 ^ 8
  pub cksum_fits : h.cksum < 2 ^ 16
  pub src_fits : h.src < 2 ^ 32
  pub dst_fits : h.dst < 2 ^ 32

abbrev pub header_bytes : Ipv4Header → Bytes
header_bytes h =
    bytes_of 1 (first_byte h)
    ++ (bytes_of 1 h.tos
        ++ (bytes_of 2 h.len
            ++ (bytes_of 2 h.id
                ++ (bytes_of 2 (fo_val h)
                    ++ (bytes_of 1 h.ttl
                        ++ (bytes_of 1 h.proto
                            ++ (bytes_of 2 h.cksum ++ (bytes_of 4 h.src ++ bytes_of 4 h.dst))))))))

pub fields-Writes : (h : Ipv4Header) → Writes (serialize_fields h) (header_bytes h)
fields-Writes h = then-Writes (integer-Writes 1 (first_byte h)) (
    then-Writes (integer-Writes 1 h.tos) (
      then-Writes (integer-Writes 2 h.len) (
        then-Writes (integer-Writes 2 h.id) (
          then-Writes (integer-Writes 2 (fo_val h)) (
            then-Writes (integer-Writes 1 h.ttl) (
              then-Writes (integer-Writes 1 h.proto) (
                then-Writes (integer-Writes 2 h.cksum)
                  (then-Writes (integer-Writes 4 h.src) (integer-Writes 4 h.dst)))))))))

pub serialize_four :
    (h : Ipv4Header) (s : Serializer) → h.ver ≡ 4 → serialize h s ≡ some (serialize_fields h s)
unfolding serialize
serialize_four h s e = rw ((==_iff h.ver 4).1 e) refl

-- The flags and the offset, taken apart again.
module _ (offset : ℕ) (h : offset < 2 ^ 13) where
  abbrev fo_word : Bool → Bool → ℕ
  fo_word df mf = (if df then 16384 else 0) + (if mf then 8192 else 0) + offset % 2 ^ 13

  fo_fits : (df mf : Bool) → fo_word df mf < 2 ^ 16
  fo_fits true true = omega arith
  fo_fits true false = omega arith
  fo_fits false true = omega arith
  fo_fits false false = omega arith

  fo_df : (df mf : Bool) → (fo_word df mf / 2 ^ 14 % 2 == 1) ≡ df
  fo_df true true = ground arith
  fo_df true false = ground arith
  fo_df false true = ground arith
  fo_df false false = ground arith

  fo_mf : (df mf : Bool) → (fo_word df mf / 2 ^ 13 % 2 == 1) ≡ mf
  fo_mf true true = ground arith
  fo_mf true false = ground arith
  fo_mf false true = ground arith
  fo_mf false false = ground arith

  fo_offset : (df mf : Bool) → fo_word df mf % 2 ^ 13 ≡ offset
  fo_offset true true = omega arith
  fo_offset true false = omega arith
  fo_offset false true = omega arith
  fo_offset false false = omega arith

verify_ok : (h : Ipv4Header) (p : Parser) → compute_checksum h ≡ some h → verify h p ≡ some (h, p)
unfolding verify
verify_ok h p c = rw c rw ((==_iff h.cksum h.cksum).1 refl) refl

check-Reads : (h : Ipv4Header) → IsHeader h → compute_checksum h ≡ some h → Reads (check h) [] h
unfolding check
check-Reads h i c = record {
  reads = λ p rest v e d.
      (let (p', removed, w, d', same) = remove_prefix_drops (h.hlen * 4 - header_length) p v in
        rw ((==_iff h.ver 4).1 i.ver_four) rw (le→ltb h.hlen 5 (omega (arith, i.hlen_five))) simp e
          rw removed rw (verify_ok h p' c)
          (
            p',
            refl,
            w,
            d' ∙ ap (λ n. drop n (contents p.input)) {y = 0} (omega (arith, i.hlen_five)) ∙ d,
            same ∙ e,
          ));
}

-- What `parse` makes of the fields that it reads.
restored :
    (h : Ipv4Header)
    → IsHeader h
    → Path Ipv4Header
        (record h {
          ver = first_byte h / 2 ^ 4;
          hlen = first_byte h % 2 ^ 4;
          df = fo_val h / 2 ^ 14 % 2 == 1;
          mf = fo_val h / 2 ^ 13 % 2 == 1;
          offset = fo_val h % 2 ^ 13;
        })
        h
restored h i =
    rw
      (
        fo_df h.offset i.offset_fits h.df h.mf,
        fo_mf h.offset i.offset_fits h.df h.mf,
        fo_offset h.offset i.offset_fits h.df h.mf,
      )
      rw (version, words) refl
  where
    version : first_byte h / 2 ^ 4 ≡ h.ver
    version = omega (arith, i.ver_four, i.hlen_five)

    words : first_byte h % 2 ^ 4 ≡ h.hlen
    words = omega (arith, i.ver_four, i.hlen_five)

pub parse-Reads :
    (old h : Ipv4Header)
    → IsHeader h
    → compute_checksum h ≡ some h
    → Reads (parse old) (header_bytes h) h
unfolding parse
parse-Reads old h i c = bind-Reads _ (integer-Reads 1 0 (first_byte h) (omega arith)) (
    bind-Reads _ (integer-Reads 1 old.tos h.tos i.tos_fits) (
      bind-Reads _ (integer-Reads 2 old.len h.len i.len_fits) (
        bind-Reads _ (integer-Reads 2 old.id h.id i.id_fits) (
          bind-Reads _ (integer-Reads 2 0 (fo_val h) (fo_fits h.offset i.offset_fits h.df h.mf)) (
            bind-Reads _ (integer-Reads 1 old.ttl h.ttl i.ttl_fits) (
              bind-Reads _ (integer-Reads 1 old.proto h.proto i.proto_fits) (
                bind-Reads _ (integer-Reads 2 old.cksum h.cksum i.cksum_fits) (
                  bind-Reads _ (integer-Reads 4 old.src h.src i.src_fits) (
                    bind-Reads _ {j = []} (integer-Reads 4 old.dst h.dst i.dst_fits) (
                      subst (λ g. Reads (check g) [] h) (sym (restored h i))
                        (check-Reads h i c)))))))))))
