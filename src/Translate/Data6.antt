-- ===== src/Translate/Data6.antt =====
-- src/nat64.c: `xlate_6to4_data`.
use tayga.Base.{ℕ, ◌+◌, true, false, if◌then◌else◌, ltb, List, [], ◌∷◌, length}
use tayga.Word.{Endian, htons}
use tayga.Prefix.{ok, err}
use tayga.Fragment.{ip6_size}
use tayga.Parse.{ip4_size}
use tayga.Payload.{Translated}
use tayga.Payload6.{Segment6, xlate_payload_6to4}
use tayga.Packet.{Ip4Header, packet4, Event, written, dropped}
use tayga.Host.{Pkt6, host_send_icmp6_error, with_checksum}
use tayga.Parse6.{offset_of}
use tayga.Translate.{
  Mapped, mapped, rejected, unmapped, AddressMap, Config, World, decrement, xlate_header_6to4,
  out_vhdr,
}

abbrev pub segment6 : Endian → Pkt6 → Segment6
segment6 e p = record {
  src = p.ip6.src;
  dest = p.ip6.dest;
  payload_length = htons e p.ip6.payload_length;
  ip6_frag = offset_of e p.ip6_frag;
  header_len = p.header_len;
  data_proto = p.data_proto;
  payload = p.payload;
  has_vhdr = p.frame.has_vhdr;
  needs_csum = p.frame.vhdr.needs_csum;
  csum_start = p.frame.vhdr.csum_start;
  csum_offset = p.frame.vhdr.csum_offset;
}

-- The data is translated and the header gets its checksum, or the packet is dropped.
unfoldable pub write4 : Endian → Pkt6 → Ip4Header → Translated → List Event
unfolding with_checksum
write4 e p h (err r) = dropped ∷ []
write4 e p h (ok (bs, needs_csum)) =
    written (out_vhdr ip4_size p.frame needs_csum p.data_proto) (packet4 (with_checksum e h) bs)
    ∷ []

-- What follows the mapping of the addresses: the events, and the counter of identifications.
unfoldable pub send_6to4 : Config → Pkt6 → ℕ → ℕ → ℕ → List Event × ℕ
unfolding xlate_header_6to4 xlate_payload_6to4 write4 host_send_icmp6_error
send_6to4 c p src dest counter =
    let (made, next) = xlate_header_6to4 c.endian p src dest (length p.payload) counter in
    let h = record made { ttl = decrement made.ttl } in
    if ltb c.mtus.mtu (ip6_size + length p.payload)
    then (host_send_icmp6_error c.endian c.local_addr6 2 0 c.mtus.mtu p, counter)
    else (
      write4 c.endian p h
          (xlate_payload_6to4 c.endian c.offload false src dest (segment6 c.endian p)),
      next,
    )

abbrev pub unreachable6 : Config → ℕ → Pkt6 → List Event
unreachable6 c code p = dropped ∷ host_send_icmp6_error c.endian c.local_addr6 1 code 0 p

module _ (m : AddressMap) where
  abbrev pub sent6 : m.Store → List Event × ℕ → List Event × World m.Store
  sent6 s (events, ident) = (events, record { store = s; ident = ident })

  abbrev pub from_source6 : Config → Pkt6 → ℕ → ℕ → Mapped ℕ × m.Store → List Event × World m.Store
  from_source6 c p ident dest (rejected, s) = sent6 s (unreachable6 c 5 p, ident)
  from_source6 c p ident dest (unmapped, s) = sent6 s (dropped ∷ [], ident)
  from_source6 c p ident dest (mapped src, s) = sent6 s (send_6to4 c p src dest ident)

  -- Only the source may be assigned an address of the dynamic pool.
  abbrev pub from_dest6 : Config → Pkt6 → ℕ → Mapped ℕ × m.Store → List Event × World m.Store
  from_dest6 c p ident (rejected, s) = sent6 s (unreachable6 c 0 p, ident)
  from_dest6 c p ident (unmapped, s) = sent6 s (dropped ∷ [], ident)
  from_dest6 c p ident (mapped dest, s) = from_source6 c p ident dest (m.to_ip4 true p.ip6.src s)

  unfoldable pub xlate_6to4_data : Config → Pkt6 → World m.Store → List Event × World m.Store
  unfolding send_6to4 host_send_icmp6_error
  xlate_6to4_data c p w = from_dest6 c p w.ident (m.to_ip4 false p.ip6.dest w.store)
