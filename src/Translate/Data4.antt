-- ===== src/Translate/Data4.antt =====
-- src/nat64.c: `xlate_4to6_data`, from the mapping of the addresses to the writes. Fragment has which
-- packets are sent; this module makes them.
use tayga.Base.{
  ℕ, Bool, false, ◌&&◌, if◌then◌else◌, ◌==◌, none, List, [], ◌∷◌, ◌++◌, length, take, drop,
}
use tayga.Word.{Endian, htonl, htons}
use tayga.Addr.{In6Addr}
use tayga.Prefix.{ok, err}
use tayga.Checksum.{ip6_checksum}
use tayga.Fragment.{Frag, Sent, too_big, whole, fragments, sends, ip6_size}
use tayga.Payload.{Translated, put_u16, never_zero, full_cksum, xlate_payload_4to6}
use tayga.Packet.{Ip6Header, Ip6Frag, frag_bytes, packet6, Event, written, dropped, Pkt4, segment4}
use tayga.Host.{host_send_icmp4_error}
use tayga.Translate.{
  Mapped, mapped, rejected, unmapped, AddressMap, Config, World, decrement, xlate_header_4to6,
  out_vhdr,
}

-- A checksum that the device was to complete is completed before the packet is split.
unfoldable pub complete : Endian → Ip6Header → Pkt4 → Bool → List ℕ → List ℕ
unfolding full_cksum put_u16
complete e h p needs_csum bs =
    let k = if p.data_proto == 17 then 3 else 8 in
    let ck = full_cksum e k (ip6_checksum e h.src h.dest (length bs) p.data_proto) bs in
    if p.frame.has_vhdr && needs_csum
    then put_u16 e k (if p.data_proto == 17 then never_zero ck else ck) bs
    else bs

-- One turn of the loop.
unfoldable pub fragment : Endian → Ip6Header → ℕ → List ℕ → Frag → Event
unfolding frag_bytes
fragment e h ident bs f =
    let frag : Ip6Frag = record {
      next_header = h.next_header;
      reserved = 0;
      offset_flags = htons e f.offset_flags;
      ident = htonl e (htons e ident);
    } in
    let head = record h { payload_length = htons e f.payload_length; next_header = 44 } in
    written none (packet6 head (frag_bytes e frag ++ take f.size (drop f.start bs)))

abbrev pub fragments_of : Endian → Ip6Header → ℕ → List ℕ → List Frag → List Event
fragments_of e h ident bs [] = []
fragments_of e h ident bs (f ∷ fs) = fragment e h ident bs f ∷ fragments_of e h ident bs fs

-- The data is translated, or the packet is dropped.
abbrev pub write_whole : Pkt4 → Ip6Header → Translated → List Event
write_whole p h (err r) = dropped ∷ []
write_whole p h (ok (bs, needs_csum)) =
    written (out_vhdr ip6_size p.frame needs_csum p.data_proto) (packet6 h bs) ∷ []

abbrev pub write_fragments : Endian → Pkt4 → Ip6Header → List Frag → Translated → List Event
write_fragments e p h fs (err r) = dropped ∷ []
write_fragments e p h fs (ok (bs, needs_csum)) =
    fragments_of e h p.ip4.ident (complete e h p needs_csum bs) fs

abbrev pub write_sent : Config → Pkt4 → Ip6Header → Translated → Sent → List Event
write_sent c p h t (too_big mtu) = host_send_icmp4_error c.endian c.local_addr4 3 4 mtu p
write_sent c p h t whole = write_whole p h t
write_sent c p h t (fragments fs) = write_fragments c.endian p h fs t

-- What follows the mapping of the addresses.
unfoldable pub send_4to6 : Config → Pkt4 → In6Addr → In6Addr → List Event
unfolding xlate_header_4to6 xlate_payload_4to6 sends complete fragment host_send_icmp4_error
send_4to6 c p src dest =
    let made = xlate_header_4to6 c.endian p src dest (length p.payload) in
    let h = record made { hop_limit = decrement made.hop_limit } in
    write_sent c p h (xlate_payload_4to6 c.endian c.offload false src dest (segment4 c.endian p))
      (sends c.mtus c.writes (htons c.endian p.ip4.flags_offset) (length p.payload))

-- An address that is not mapped: the packet is dropped, and a rejection is answered.
abbrev pub unreachable4 : Config → ℕ → Pkt4 → List Event
unreachable4 c code p = dropped ∷ host_send_icmp4_error c.endian c.local_addr4 3 code 0 p

module _ (m : AddressMap) where
  abbrev pub from_source4 :
      Config → Pkt4 → ℕ → In6Addr → Mapped In6Addr × m.Store → List Event × World m.Store
  from_source4 c p ident dest (rejected, s) =
      (unreachable4 c 10 p, record { store = s; ident = ident })
  from_source4 c p ident dest (unmapped, s) = (dropped ∷ [], record { store = s; ident = ident })
  from_source4 c p ident dest (mapped src, s) =
      (send_4to6 c p src dest, record { store = s; ident = ident })

  abbrev pub from_dest4 : Config → Pkt4 → ℕ → Mapped In6Addr × m.Store → List Event × World m.Store
  from_dest4 c p ident (rejected, s) = (unreachable4 c 1 p, record { store = s; ident = ident })
  from_dest4 c p ident (unmapped, s) = (dropped ∷ [], record { store = s; ident = ident })
  from_dest4 c p ident (mapped dest, s) = from_source4 c p ident dest (m.to_ip6 p.ip4.src s)

  unfoldable pub xlate_4to6_data : Config → Pkt4 → World m.Store → List Event × World m.Store
  unfolding send_4to6 host_send_icmp4_error
  xlate_4to6_data c p w = from_dest4 c p w.ident (m.to_ip6 p.ip4.dest w.store)
