-- ===== src/Host.antt =====
-- src/nat64.c: the translator's own ICMP messages, `host_send_icmp4`, `host_send_icmp4_error`,
-- `host_handle_icmp4` and their namesakes for IPv6. A list of events is what the function does to the
-- tunnel; `own` is `gcfg.local_addr4` or `gcfg.local_addr6`.
pub mod Laws
pub mod Laws6
pub mod Errors
use tayga.Base.{
  ℕ, ◌+◌, ◌-◌, ◌*◌, ◌/◌, ◌%◌, ◌^◌, bit_and, bit_or, Bool, true, false, ◌&&◌, not, if◌then◌else◌,
  ◌==◌, ltb, Option, none, some, List, [], ◌∷◌, ◌++◌, length, take, drop,
}
use tayga.Word.{Endian, htonl, htons, u16, u32}
use tayga.Addr.{In6Addr}
use tayga.Fragment.{ip6_size}
use tayga.Icmp.{mtu_min}
use tayga.Parse.{ip4_size, icmp_size}
use tayga.Checksum.{ip_checksum, ones_add, ip6_checksum}
use tayga.Packet.{
  Ip4Header, Ip6Header, Ip6Frag, IcmpHeader, ip4_bytes, icmp_bytes, read_icmp, header_checksum,
  Frame, Packet, packet4, packet6, Event, written, Pkt4,
}

-- `header.ip4` with its checksum.
unfoldable pub with_checksum : Endian → Ip4Header → Ip4Header
unfolding header_checksum
with_checksum e h = record h { cksum = header_checksum e h }

-- The checksums of `icmp` with a field of zero and of the data.
unfoldable pub icmp_sum : Endian → IcmpHeader → List ℕ → ℕ
unfolding icmp_bytes
icmp_sum e icmp bs =
    ones_add (ip_checksum e bs) (ip_checksum e (icmp_bytes e (record icmp { cksum = 0 })))

unfoldable pub host_send_icmp4 : Endian → ℕ → ℕ → ℕ → IcmpHeader → List ℕ → List Event
unfolding with_checksum icmp_sum icmp_bytes
host_send_icmp4 e tos src dest icmp bs =
    let header : Ip4Header = record {
      ver_ihl = 0x45;
      tos = tos;
      length = htons e (u16 (ip4_size + icmp_size + length bs));
      ident = 0;
      flags_offset = 0;
      ttl = 64;
      proto = 1;
      cksum = 0;
      src = src;
      dest = dest;
    } in
    let reply = record icmp { cksum = icmp_sum e icmp bs } in
    written none (packet4 (with_checksum e header) (icmp_bytes e reply ++ bs)) ∷ []

-- The most that an error quotes.
abbrev pub quote_max : ℕ
quote_max = 576 - ip4_size - icmp_size

unfoldable pub host_send_icmp4_error : Endian → ℕ → ℕ → ℕ → ℕ → Pkt4 → List Event
unfolding host_send_icmp4 read_icmp
host_send_icmp4_error e own type code word orig =
    let orig_len = u32 (orig.header_len + length orig.payload) in
    let quoted = if ltb quote_max orig_len then quote_max else orig_len in
    let icmp : IcmpHeader = record {
      type = type;
      code = code;
      cksum = 0;
      word = htonl e (u32 word);
    } in
    if orig.data_proto == 1 && not ((read_icmp e orig.payload).type == 8)
    then []
    else host_send_icmp4 e 0 own orig.ip4.src icmp (take quoted orig.frame.raw)

-- A packet to the translator itself, of protocol ICMP.
unfoldable pub host_handle_icmp4 : Endian → Pkt4 → List Event
unfolding host_send_icmp4 read_icmp
host_handle_icmp4 e p =
    let icmp = read_icmp e p.payload in
    if icmp.type == 8
    then host_send_icmp4 e p.ip4.tos p.ip4.dest p.ip4.src (record icmp { type = 0 })
        (drop icmp_size p.payload)
    else []

-- `struct pkt` after `parse_ip6`.
pub record Pkt6 : Type 0 where
  pub frame : Frame
  pub ip6 : Ip6Header
  pub ip6_frag : Option Ip6Frag
  pub header_len : ℕ
  pub data_proto : ℕ
  pub payload : List ℕ

unfoldable pub host_send_icmp6 : Endian → ℕ → In6Addr → In6Addr → IcmpHeader → List ℕ → List Event
unfolding icmp_sum icmp_bytes
host_send_icmp6 e tc src dest icmp bs =
    let header : Ip6Header = record {
      ver_tc_fl = htonl e (bit_or (0x6 * 2 ^ 28) (tc * 2 ^ 20));
      payload_length = htons e (u16 (icmp_size + length bs));
      next_header = 58;
      hop_limit = 64;
      src = src;
      dest = dest;
    } in
    let pseudo = ip6_checksum e src dest (u32 (length bs + icmp_size)) 58 in
    let reply = record icmp { cksum = ones_add (icmp_sum e icmp bs) pseudo } in
    written none (packet6 header (icmp_bytes e reply ++ bs)) ∷ []

abbrev pub quote_max6 : ℕ
quote_max6 = mtu_min - ip6_size - icmp_size

unfoldable pub host_send_icmp6_error : Endian → In6Addr → ℕ → ℕ → ℕ → Pkt6 → List Event
unfolding host_send_icmp6 read_icmp
host_send_icmp6_error e own type code word orig =
    let orig_len = u32 (ip6_size + orig.header_len + length orig.payload) in
    let quoted = if ltb quote_max6 orig_len then quote_max6 else orig_len in
    let icmp : IcmpHeader = record {
      type = type;
      code = code;
      cksum = 0;
      word = htonl e (u32 word);
    } in
    if orig.data_proto == 58 && not ((read_icmp e orig.payload).type == 128)
    then []
    else host_send_icmp6 e 0 own orig.ip6.src icmp (take quoted orig.frame.raw)

-- The traffic class of a header.
abbrev pub traffic_class : Endian → Ip6Header → ℕ
traffic_class e h = bit_and (htonl e h.ver_tc_fl / 2 ^ 20) 0xff

unfoldable pub host_handle_icmp6 : Endian → Pkt6 → List Event
unfolding host_send_icmp6 read_icmp
host_handle_icmp6 e p =
    let icmp = read_icmp e p.payload in
    if icmp.type == 128
    then host_send_icmp6 e (traffic_class e p.ip6) p.ip6.dest p.ip6.src (record icmp { type = 129 })
        (drop icmp_size p.payload)
    else []
