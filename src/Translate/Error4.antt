-- ===== src/Translate/Error4.antt =====
-- src/nat64.c: `xlate_4to6_icmp_error`, around its `switch`, which is in Icmp. No `stats_drop` is called
-- here: an error that cannot be translated leaves no event.
use tayga.Base.{
  ℕ, ◌+◌, ◌-◌, ◌*◌, ◌/◌, ◌^◌, bit_and, bit_or, true, false, ◌&&◌, not, if◌then◌else◌, ◌==◌, ltb,
  Option, none, some, List, [], ◌∷◌, ◌++◌, length, take, drop,
}
use tayga.Word.{Endian, htonl, htons, u16}
use tayga.Addr.{In6Addr}
use tayga.Prefix.{ok, err}
use tayga.Checksum.{ip_checksum, ones_add, ip6_checksum}
use tayga.Fragment.{is_set, ip4_f_mask, ip4_f_mf, ip6_size, ip6_frag_size}
use tayga.Icmp.{Icmp, mtu_min, is_one_of, error_4to6}
use tayga.Parse.{icmp_size}
use tayga.Payload.{Translated, xlate_payload_4to6}
use tayga.Packet.{
  IcmpHeader, Ip6Header, Ip6Frag, icmp_bytes, ip6_bytes, frag_bytes, read_icmp, Frame, packet6,
  Event, written, Pkt4, parse_frame4, segment4,
}
use tayga.Translate.{
  Mapped, mapped, rejected, unmapped, AddressMap, Config, decrement, xlate_header_4to6,
}

-- What the error quotes, as `memset` and the two assignments leave it.
abbrev pub embedded : List ℕ → Frame
embedded bs = record {
  raw = bs;
  has_vhdr = false;
  vhdr = record { gso_type = 0; needs_csum = false; csum_start = 0; csum_offset = 0 };
}

-- `p_em.data`, cut to the length that the error states, if it does.
abbrev pub stated : ℕ → List ℕ → Option (List ℕ)
stated em_len bs =
    if em_len == 0 then some bs else if ltb (length bs) em_len then none else some (take em_len bs)

unfoldable pub quoted4 : Endian → Pkt4 → Option (List ℕ)
unfolding read_icmp
quoted4 e p =
    let icmp = read_icmp e p.payload in
    let rest = drop icmp_size p.payload in
    if is_one_of icmp.type (3 ∷ 11 ∷ 12 ∷ [])
    then stated (bit_and (htonl e icmp.word / 2 ^ 14) 0x3fc) rest
    else some rest

-- The quoted packet is a fragment, and then it needs a fragment header.
abbrev pub em_frag_len : Endian → Pkt4 → ℕ
em_frag_len e q =
    if is_set (htons e q.ip4.flags_offset) (bit_or ip4_f_mask ip4_f_mf) then ip6_frag_size else 0

-- The error fits the minimal MTU.
unfoldable pub cut4 : Endian → Pkt4 → Pkt4
cut4 e q =
    let most = mtu_min - ip6_size * 2 - icmp_size - em_frag_len e q in
    if ltb mtu_min (ip6_size * 2 + icmp_size + em_frag_len e q + length q.payload)
    then record q { payload = take most q.payload }
    else q

-- The quoted packet, unless it is missing, broken or ICMP that is no echo request.
abbrev pub answerable : Endian → Pkt4 → Option Pkt4
answerable e q =
    if q.data_proto == 1 && not ((read_icmp e q.payload).type == 8) then none else some (cut4 e q)

abbrev pub quoted_packet4 : Endian → Option Pkt4 → Option Pkt4
quoted_packet4 e none = none
quoted_packet4 e (some q) = answerable e q

abbrev pub parse_quoted4 : Endian → Option (List ℕ) → Option Pkt4
parse_quoted4 e none = none
parse_quoted4 e (some bs) = quoted_packet4 e (parse_frame4 e true (embedded bs))

unfoldable pub embedded4 : Endian → Pkt4 → Option Pkt4
unfolding quoted4 parse_frame4 cut4 read_icmp
embedded4 e p = parse_quoted4 e (quoted4 e p)

-- The header of the quoted packet.
unfoldable pub header_em : Endian → Pkt4 → In6Addr → In6Addr → Ip6Header
unfolding xlate_header_4to6
header_em e q src dest =
    let len = htons e q.ip4.length - q.header_len + em_frag_len e q in
    let made = xlate_header_4to6 e q src dest (if ltb 0xffff len then 0xffff else len) in
    if em_frag_len e q == 0 then made else record made { next_header = 44 }

-- Its fragment header.
unfoldable pub frag_em : Endian → Pkt4 → ℕ → Ip6Frag
frag_em e q next_header =
    let off = htons e q.ip4.flags_offset in
    let flags = bit_or (bit_and off ip4_f_mask * 2 ^ 3) (if is_set off ip4_f_mf then 1 else 0) in
    record {
      next_header = next_header;
      reserved = 0;
      offset_flags = htons e (u16 flags);
      ident = htonl e (htons e q.ip4.ident);
    }

-- The quoted headers in memory: with the fragment header if there is one.
unfoldable pub em_bytes : Endian → Pkt4 → In6Addr → In6Addr → List ℕ
unfolding header_em ip6_bytes frag_bytes frag_em xlate_header_4to6
em_bytes e q src dest =
    ip6_bytes e (header_em e q src dest)
    ++ (if em_frag_len e q == 0
        then []
        else frag_bytes e (frag_em e q (xlate_header_4to6 e q src dest 0).next_header))

-- The type, code and word of the new error.
unfoldable pub switch_4to6 : Config → Pkt4 → Pkt4 → Option Icmp
unfolding read_icmp error_4to6
switch_4to6 c p q =
    let icmp = read_icmp c.endian p.payload in
    error_4to6 c.mtus.mtu (htons c.endian q.ip4.length)
      (record { kind = icmp.type; code = icmp.code; word = htonl c.endian icmp.word })

abbrev pub fresh_icmp : Endian → Icmp → ℕ → IcmpHeader
fresh_icmp e i cksum = record { type = i.kind; code = i.code; cksum = cksum; word = htonl e i.word }

-- The error is written: `quote` is the headers in memory that it quotes, and `bs` their data.
unfoldable pub write_error6 :
    Endian → Pkt4 → Icmp → List ℕ → List ℕ → In6Addr → In6Addr → List Event
unfolding xlate_header_4to6 icmp_bytes
write_error6 e p i quote bs src dest =
    let made = xlate_header_4to6 e p src dest (icmp_size + length quote + length bs) in
    let h = record made { hop_limit = decrement made.hop_limit } in
    let sum = ip_checksum e (icmp_bytes e (fresh_icmp e i 0) ++ quote) in
    let cksum =
      ones_add (ip6_checksum e src dest (htons e h.payload_length) 58)
        (ones_add sum (ip_checksum e bs)) in
    written none (packet6 h ((icmp_bytes e (fresh_icmp e i cksum) ++ quote) ++ bs)) ∷ []

module _ (m : AddressMap) where
  abbrev pub to_dest6 :
      Endian
      → Pkt4
      → Icmp
      → List ℕ
      → List ℕ
      → In6Addr
      → Mapped In6Addr × m.Store
      → List Event × m.Store
  to_dest6 e p i quote bs src (mapped dest, s) = (write_error6 e p i quote bs src dest, s)
  to_dest6 e p i quote bs src (rejected, s) = ([], s)
  to_dest6 e p i quote bs src (unmapped, s) = ([], s)

  -- A source that is not mapped is replaced by our own address.
  abbrev pub to_source6 :
      Config → Pkt4 → Icmp → List ℕ → List ℕ → Mapped In6Addr × m.Store → List Event × m.Store
  to_source6 c p i quote bs (mapped src, s) =
      to_dest6 c.endian p i quote bs src (m.to_ip6 p.ip4.dest s)
  to_source6 c p i quote bs (rejected, s) =
      to_dest6 c.endian p i quote bs c.local_addr6 (m.to_ip6 p.ip4.dest s)
  to_source6 c p i quote bs (unmapped, s) =
      to_dest6 c.endian p i quote bs c.local_addr6 (m.to_ip6 p.ip4.dest s)

  abbrev pub with_payload6 :
      Config → Pkt4 → Icmp → List ℕ → Translated → m.Store → List Event × m.Store
  with_payload6 c p i quote (err r) s = ([], s)
  with_payload6 c p i quote (ok (bs, _)) s = to_source6 c p i quote bs (m.to_ip6 p.ip4.src s)

  abbrev pub with_switch6 :
      Config → Pkt4 → Pkt4 → In6Addr → In6Addr → Option Icmp → m.Store → List Event × m.Store
  with_switch6 c p q src dest none s = ([], s)
  with_switch6 c p q src dest (some i) s =
      with_payload6 c p i (em_bytes c.endian q src dest)
        (xlate_payload_4to6 c.endian c.offload true src dest (segment4 c.endian q)) s

  -- The addresses of the quoted packet, the source first.
  abbrev pub em_dest6 :
      Config → Pkt4 → Pkt4 → In6Addr → Mapped In6Addr × m.Store → List Event × m.Store
  em_dest6 c p q src (mapped dest, s) = with_switch6 c p q src dest (switch_4to6 c p q) s
  em_dest6 c p q src (rejected, s) = ([], s)
  em_dest6 c p q src (unmapped, s) = ([], s)

  abbrev pub em_source6 : Config → Pkt4 → Pkt4 → Mapped In6Addr × m.Store → List Event × m.Store
  em_source6 c p q (mapped src, s) = em_dest6 c p q src (m.to_ip6 q.ip4.dest s)
  em_source6 c p q (rejected, s) = ([], s)
  em_source6 c p q (unmapped, s) = ([], s)

  abbrev pub quoting4 : Config → Pkt4 → m.Store → Option Pkt4 → List Event × m.Store
  quoting4 c p s none = ([], s)
  quoting4 c p s (some q) = em_source6 c p q (m.to_ip6 q.ip4.src s)

  unfoldable pub xlate_4to6_icmp_error : Config → Pkt4 → m.Store → List Event × m.Store
  unfolding embedded4 em_bytes switch_4to6 xlate_payload_4to6 write_error6
  xlate_4to6_icmp_error c p s = quoting4 c p s (embedded4 c.endian p)
