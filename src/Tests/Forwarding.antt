-- ===== src/Tests/Forwarding.antt =====
-- The two directions of src/nat64.c on whole packets.
use tayga.Base.{◌%◌, ◌^◌, ◌≡◌, refl, arith, true, false, some, [], ◌∷◌, length, All}
use tayga.Word.{little, htonl, htons}
use tayga.Addr.{validate_ip6_addr}
use tayga.Cache.{create_cache}
use tayga.Handlers.{Store}
use tayga.Payload.{udp_cksum_drop, get_u16}
use tayga.Mask.{mask4_of, mask6_of}
use tayga.Maps.{rfc6052}
use tayga.Resolve.{MapPair, Mapping}
use tayga.Translate.Widths.{IsWide}
use tayga.Translate.Keeping.{IsWideStore, maps_to_in6}
use tayga.Translate.Errors6.{IsError6, xlate_4to6_icmp_error-IsError6}
use tayga.Walk.{walk_extensions}
use tayga.Packet.{Pkt4, get_u32, read_in6, read_ip4, read_ip6}
use tayga.Host.{Pkt6}
use tayga.Parse6.{is_bad_ip6, start_walk, take_frag, is_bad_icmp6, pkt6, segments_left, parse_ip6}
use tayga.Parse6.Laws.{IsPkt6, parse_ip6-IsPkt6}
use tayga.Translate.{AddressMap, Config, World, xlate_header_4to6, xlate_header_6to4}
use tayga.Translate.Mapper.{address_map}
use tayga.Payload6.{xlate_payload_6to4}
use tayga.Translate.Data6.{segment6, send_6to4}
use tayga.Translate.Entry.{Gso, handle_ip4, handle_ip6}
use tayga.Translate.Error4.{frag_em, xlate_4to6_icmp_error}
use tayga.Translate.Headers.{xlate_header_6to4-4to6}
use tayga.Translate.Safety.{handle_ip4-IsAllowed4, handle_ip6-IsAllowed6}
use tayga.Translate.Safety4.{IsAllowed4}
use tayga.Translate.Safety6.{IsAllowed6}
use tayga.Translate.Sent4.{IsFit6, IsSent4, send_6to4-IsSent4}
use tayga.Tests.Mappings.{configured, hashing, fresh, fresh-IsCache}
use tayga.Tests.Messages.{raw4, raw6, plain, udp4, udp6, router6, peer6, header4}

parsed6 : (parse_ip6 little router6 false (plain raw6)).1 ≡ some udp6
unfolding parse_ip6 is_bad_ip6 start_walk take_frag is_bad_icmp6 pkt6 segments_left walk_extensions
    validate_ip6_addr read_ip6 read_in6 get_u16 get_u32 htonl htons
parsed6 = refl

parse_ip6-IsPkt6_example :
    IsPkt6 little false (plain raw6) udp6 × ((parse_ip6 little router6 false (plain raw6)).0 ≡ [])
parse_ip6-IsPkt6_example =
    parse_ip6-IsPkt6 little router6 false (plain raw6) udp6 (omega arith) parsed6

abbrev settings : Config
settings = record {
  endian = little;
  mtus = record { mtu = 1500; ipv6_offlink_mtu = 1280 };
  offload = record { vnet_hdr_sz = 0; udp_cksum_mode = udp_cksum_drop };
  local_addr4 = 0x01ff00c0;
  local_addr6 = router6;
  with_offload = false;
  writes = λ i. true;
}

abbrev mapper : AddressMap
mapper = address_map configured hashing 10

abbrev world : World Store
world = record { store = fresh; ident = 0xb00b }

-- No aggregate is taken.
abbrev no_gso : Gso Store
no_gso a f w = (false, ([], w))

handle_ip4-IsAllowed4_example :
    All
      (IsAllowed4 settings (read_ip4 little raw4))
      (handle_ip4 mapper settings no_gso (plain raw4) world).0
handle_ip4-IsAllowed4_example =
    handle_ip4-IsAllowed4 mapper settings (plain raw4) world no_gso refl (omega arith)

handle_ip6-IsAllowed6_example :
    All
      (IsAllowed6 settings (read_ip6 little raw6))
      (handle_ip6 mapper settings no_gso (plain raw6) world).0
handle_ip6-IsAllowed6_example =
    handle_ip6-IsAllowed6 mapper settings (plain raw6) world no_gso refl (omega arith)

udp6-IsFit6 : IsFit6 udp6 0xb00b
udp6-IsFit6 = record {
  hop_limit = omega arith;
  live = omega arith;
  proto = omega arith;
  counter_small = omega arith;
  bytes = omega arith;
}

send_6to4-IsSent4_example :
    let r = send_6to4 settings udp6 0x210200c0 0x0100000a 0xb00b in
    IsSent4 little udp6 0x210200c0 0x0100000a 0xb00b r.1
      (xlate_payload_6to4 little settings.offload false 0x210200c0 0x0100000a
        (segment6 little udp6))
      r.0
send_6to4-IsSent4_example =
    send_6to4-IsSent4 settings udp6 0x210200c0 0x0100000a 0xb00b udp6-IsFit6 tt (omega arith)
      (omega arith) (omega arith) (omega arith)

-- A later fragment of a UDP packet.
abbrev piece4 : Pkt4
piece4 = record udp4 {
  ip4 = record {
    ver_ihl = 0x45;
    tos = 8;
    length = 0x1e00;
    ident = 0x0100;
    flags_offset = 0xb920;
    ttl = 63;
    proto = 17;
    cksum = 0;
    src = 0x210200c0;
    dest = 0x0100000a;
  };
}

abbrev piece6 : Pkt6
piece6 = record udp6 {
  ip6 = xlate_header_4to6 little piece4 peer6 router6 18;
  ip6_frag = some (frag_em little piece4 17);
}

xlate_header_6to4-4to6_example :
    let (h, next) = xlate_header_6to4 little piece6 0x210200c0 0x0100000a 10 7 in
    (h.tos ≡ 8)
    × (h.ttl ≡ 63)
    × (h.proto ≡ 17)
    × (h.ident ≡ 0x0100)
    × (htons little h.flags_offset ≡ htons little 0xb920 % 2 ^ 14)
    × (next ≡ 7)
xlate_header_6to4-4to6_example =
    xlate_header_6to4-4to6 little piece4 peer6 router6 piece6 18 0x210200c0 0x0100000a 10 7
      (omega arith) (omega arith) (omega arith) (λ h. omega arith) (λ h. omega arith) refl refl refl

-- 64:ff9b::/96 alone.
abbrev prefix : MapPair
prefix = record {
  map4 = record {
    addr = 0;
    mask = htonl little (mask4_of 0);
    prefix_len = 0;
    type = rfc6052;
    owner = 0;
  };
  map6 = record {
    addr = record { w0 = 0x9bff6400; w1 = 0; w2 = 0; w3 = 0 };
    mask = mask6_of little 96;
    prefix_len = 96;
    type = rfc6052;
    owner = 0;
  };
}

abbrev nat64 : Mapping
nat64 = record {
  endian = little;
  wkpf_strict = false;
  local_addr4 = settings.local_addr4;
  local_addr6 = settings.local_addr6;
  map4_list = prefix.map4 ∷ [];
  map6_list = prefix.map6 ∷ [];
  container = λ o. prefix;
}

nat64-IsWide : IsWide nat64
nat64-IsWide = record {
  addr4 = λ o. omega arith;
  addr6 = λ o. (omega arith, omega arith, omega arith, omega arith);
}

fresh-IsWideStore : IsWideStore nat64 hashing 10 nat64-IsWide fresh
unfolding create_cache
fresh-IsWideStore = record { cache = fresh-IsCache; active = λ c m. ground arith }

-- A router cannot reach the host of `udp4`.
abbrev unreachable4 : Pkt4
unreachable4 = record udp4 { data_proto = 1; payload = 3 ∷ 1 ∷ 0 ∷ 0 ∷ 0 ∷ 0 ∷ 0 ∷ 0 ∷ raw4 }

xlate_4to6_icmp_error-IsError6_example :
    All
      (IsError6 little unreachable4)
      (xlate_4to6_icmp_error (address_map nat64 hashing 10) settings unreachable4 fresh).0
xlate_4to6_icmp_error-IsError6_example =
    xlate_4to6_icmp_error-IsError6 (address_map nat64 hashing 10) settings unreachable4 fresh
      (maps_to_in6 nat64 hashing 10 nat64-IsWide) fresh-IsWideStore
      (omega arith, omega arith, omega arith, omega arith) (omega arith) refl (omega arith)
      (omega arith) (omega arith) (omega arith)

-- `udp4` with a checksum for 10.0.0.1.
abbrev checked4 : Pkt4
checked4 = record udp4 {
  ip4 = record header4 { dest = 0x0100000a };
  payload = 18 ∷ 52 ∷ 0 ∷ 53 ∷ 0 ∷ 10 ∷ 86 ∷ 80 ∷ 202 ∷ 254 ∷ [];
}

-- A router cannot reach the host of `udp6`.
abbrev unreachable6 : Pkt6
unreachable6 = record udp6 { data_proto = 58; payload = 1 ∷ 0 ∷ 0 ∷ 0 ∷ 0 ∷ 0 ∷ 0 ∷ 0 ∷ raw6 }
