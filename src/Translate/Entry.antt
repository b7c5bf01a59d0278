-- ===== src/Translate/Entry.antt =====
-- src/nat64.c: `handle_ip4` and `handle_ip6`, which the threads call for each packet of the tunnel.
-- The translation of an offload aggregate, in src/gso.c, is an argument: it tells whether it took the
-- packet, and what it did.
use tayga.Base.{
  ℕ, ◌+◌, ◌-◌, Bool, true, false, ◌&&◌, ◌||◌, not, if◌then◌else◌, ◌==◌, bit_and, Option, none, some,
  List, [], ◌∷◌, ◌++◌, length, take,
}
use tayga.Word.{Endian, htons, u32}
use tayga.Checksum.{ip_checksum, ones_add, ip6_checksum}
use tayga.Resolve.{in6_are_addr_equal}
use tayga.Packet.{read_icmp, Frame, Event, dropped, Pkt4, parse_frame4}
use tayga.Host.{
  Pkt6, host_send_icmp4_error, host_handle_icmp4, host_send_icmp6_error, host_handle_icmp6,
}
use tayga.Parse6.{parse_ip6}
use tayga.Translate.{AddressMap, Config, World}
use tayga.Translate.Data4.{xlate_4to6_data}
use tayga.Translate.Data6.{xlate_6to4_data}
use tayga.Translate.Error4.{xlate_4to6_icmp_error}
use tayga.Translate.Error6.{xlate_6to4_icmp_error}

-- The aggregates that are translated as such.
pub data Aggregate : Type 0 where
  tcpv4 tcpv6 udp_l4 : Aggregate

abbrev pub Gso : Type 0 → Type 0
Gso S = Aggregate → Frame → World S → Bool × (List Event × World S)

-- `gso_type` without its flag for ECN, and whether it is `VIRTIO_NET_HDR_GSO_NONE`.
abbrev pub gtype : Frame → ℕ
gtype f = bit_and f.vhdr.gso_type (0xff - 0x80)

abbrev pub is_aggregate : Frame → Bool
is_aggregate f = f.has_vhdr && not (gtype f == 0)

abbrev pub aggregate4 : Frame → Option Aggregate
aggregate4 f = if gtype f == 1 then some tcpv4 else if gtype f == 5 then some udp_l4 else none

abbrev pub aggregate6 : Frame → Option Aggregate
aggregate6 f = if gtype f == 4 then some tcpv6 else if gtype f == 5 then some udp_l4 else none

module _ {S : Type 0} where
  -- What is not taken is dropped, behind what was sent of it.
  abbrev pub taken : Frame → Bool × (List Event × World S) → List Event × World S
  taken f (true, r) = r
  taken f (false, r) = (r.0 ++ (dropped ∷ []), r.1)

  abbrev pub offloaded : Gso S → Frame → World S → Option Aggregate → List Event × World S
  offloaded gso f w none = (dropped ∷ [], w)
  offloaded gso f w (some a) = taken f (gso a f w)

  unfoldable pub handle_aggregate :
      Config → Gso S → Frame → World S → Option Aggregate → List Event × World S
  handle_aggregate c gso f w a = offloaded gso f w (if c.with_offload then a else none)

-- The checks behind `parse_ip4`: the TTL, the checksum and the length of the header, and the checksum of
-- ICMP.
unfoldable pub is_bad_ip4 : Endian → Pkt4 → Bool
is_bad_ip4 e p =
    p.ip4.ttl == 0
    || not (ip_checksum e (take p.header_len p.frame.raw) == 0)
    || not (u32 (p.header_len + length p.payload) == htons e p.ip4.length)
    || (p.data_proto == 1 && not (ip_checksum e p.payload == 0))

unfoldable pub handle_self4 : Config → Pkt4 → List Event
unfolding host_handle_icmp4 host_send_icmp4_error
handle_self4 c p =
    if p.data_proto == 1
    then host_handle_icmp4 c.endian p
    else host_send_icmp4_error c.endian c.local_addr4 3 2 0 p

-- The checks behind `parse_ip6`.
unfoldable pub is_bad_pkt6 : Endian → Pkt6 → Bool
is_bad_pkt6 e p =
    p.ip6.hop_limit == 0
    || not (u32 (p.header_len + length p.payload) == htons e p.ip6.payload_length)
    || (p.data_proto == 58
        && not (
            ones_add (ip_checksum e p.payload)
              (ip6_checksum e p.ip6.src p.ip6.dest (length p.payload) 58)
            == 0))

unfoldable pub handle_self6 : Config → Pkt6 → List Event
unfolding host_handle_icmp6 host_send_icmp6_error
handle_self6 c p =
    if p.data_proto == 58
    then host_handle_icmp6 c.endian p
    else host_send_icmp6_error c.endian c.local_addr6 4 1 6 p

module _ (m : AddressMap) where
  abbrev pub with_ident : ℕ → List Event × m.Store → List Event × World m.Store
  with_ident ident (events, s) = (events, record { store = s; ident = ident })

  -- The packet is for another host.
  unfoldable pub forward4 : Config → Pkt4 → World m.Store → List Event × World m.Store
  unfolding xlate_4to6_data xlate_4to6_icmp_error host_send_icmp4_error read_icmp
  forward4 c p w =
      let type = (read_icmp c.endian p.payload).type in
      if p.ip4.ttl == 1
      then (host_send_icmp4_error c.endian c.local_addr4 11 0 0 p, w)
      else if not (p.data_proto == 1) || type == 8 || type == 0
      then xlate_4to6_data m c p w
      else with_ident w.ident (xlate_4to6_icmp_error m c p w.store)

  abbrev pub parsed4 : Config → Frame → World m.Store → Option Pkt4 → List Event × World m.Store
  parsed4 c f w none = (dropped ∷ [], w)
  parsed4 c f w (some p) =
      if is_bad_ip4 c.endian p
      then (dropped ∷ [], w)
      else if p.ip4.dest == c.local_addr4
      then (handle_self4 c p, w)
      else forward4 c p w

  unfoldable pub handle_ip4 :
      Config → Gso m.Store → Frame → World m.Store → List Event × World m.Store
  unfolding parse_frame4 is_bad_ip4 handle_self4 forward4 handle_aggregate
  handle_ip4 c gso f w =
      if is_aggregate f
      then handle_aggregate c gso f w (aggregate4 f)
      else parsed4 c f w (parse_frame4 c.endian false f)

  unfoldable pub forward6 : Config → Pkt6 → World m.Store → List Event × World m.Store
  unfolding xlate_6to4_data xlate_6to4_icmp_error host_send_icmp6_error read_icmp
  forward6 c p w =
      let type = (read_icmp c.endian p.payload).type in
      if p.ip6.hop_limit == 1
      then (host_send_icmp6_error c.endian c.local_addr6 3 0 0 p, w)
      else if not (p.data_proto == 58) || type == 128 || type == 129
      then xlate_6to4_data m c p w
      else xlate_6to4_icmp_error m c p w

  -- What the parser sent comes first.
  abbrev pub parsed6 :
      Config → World m.Store → List Event × Option Pkt6 → List Event × World m.Store
  parsed6 c w (sent, none) = (sent ++ (dropped ∷ []), w)
  parsed6 c w (sent, some p) =
      if is_bad_pkt6 c.endian p
      then (dropped ∷ [], w)
      else if in6_are_addr_equal p.ip6.dest c.local_addr6
      then (handle_self6 c p, w)
      else forward6 c p w

  unfoldable pub handle_ip6 :
      Config → Gso m.Store → Frame → World m.Store → List Event × World m.Store
  unfolding parse_ip6 is_bad_pkt6 handle_self6 forward6 handle_aggregate
  handle_ip6 c gso f w =
      if is_aggregate f
      then handle_aggregate c gso f w (aggregate6 f)
      else parsed6 c w (parse_ip6 c.endian c.local_addr6 false f)
