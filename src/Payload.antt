-- ===== src/Payload.antt =====
-- src/nat64.c: `xlate_payload_4to6`, with `gso_calc_pseudo6` of src/gso.c, which it calls. The data of
-- a packet is the list of its bytes; a field of 16 bits is told by its place in half words, since all
-- of them stand at even offsets.
pub mod Laws
pub mod Keeps
use tayga.Base.{
  ℕ, zero, suc, ◌+◌, ◌-◌, ◌*◌, ◌/◌, ◌%◌, ◌^◌, bit_and, bit_or, Bool, true, false, ◌&&◌, ◌||◌, not,
  if◌then◌else◌, ◌==◌, ltb, List, [], ◌∷◌, length,
}
use tayga.Word.{Endian, htonl, htons, u32, not16, big_little}
use tayga.Addr.{In6Addr, error_drop}
use tayga.Prefix.{Result, ok, err}
use tayga.Checksum.{
  load, halves, fold_loop, fold_fuel, ip_checksum, ones_add, ip6_checksum, convert_cksum,
}
use tayga.Fragment.{is_set, ip4_f_mask, ip4_f_mf}
use tayga.Parse.{Ip4}

pub data UdpCksumMode : Type 0 where
  udp_cksum_drop udp_cksum_calc udp_cksum_fwd : UdpCksumMode

-- What the function reads of `struct pkt`; `needs_csum` is the flag of `vhdr`.
pub record Segment : Type 0 where
  pub ip4 : Ip4
  pub header_len : ℕ
  pub data_proto : ℕ
  pub payload : List ℕ
  pub has_vhdr : Bool
  pub needs_csum : Bool
  pub csum_start : ℕ
  pub csum_offset : ℕ

-- `gcfg.vnet_hdr_sz` and `gcfg.udp_cksum_mode`.
pub record Offload : Type 0 where
  pub vnet_hdr_sz : ℕ
  pub udp_cksum_mode : UdpCksumMode

-- The data, and whether its checksum is still to be completed.
abbrev pub Translated : Type 0
Translated = Result (List ℕ × Bool)

unfoldable pub get_u16 : Endian → ℕ → List ℕ → ℕ
get_u16 e zero (b0 ∷ b1 ∷ bs) = load e (b0 ∷ b1 ∷ [])
get_u16 e (suc k) (b0 ∷ b1 ∷ bs) = get_u16 e k bs
get_u16 e k bs = 0

unfoldable pub put_u16 : Endian → ℕ → ℕ → List ℕ → List ℕ
put_u16 e zero v (b0 ∷ b1 ∷ bs) =
    big_little e (v / 256) (v % 256) ∷ big_little e (v % 256) (v / 256) ∷ bs
put_u16 e (suc k) v (b0 ∷ b1 ∷ bs) = b0 ∷ b1 ∷ put_u16 e k v bs
put_u16 e k v bs = bs

-- The half words of an address as `ntohs` reads them, added up.
abbrev pub net_halves : Endian → In6Addr → ℕ
net_halves e a =
    halves (htonl e a.w0) + halves (htonl e a.w1) + halves (htonl e a.w2) + halves (htonl e a.w3)

unfoldable pub gso_calc_pseudo6 : Endian → In6Addr → In6Addr → ℕ → ℕ → ℕ
unfolding fold_loop
gso_calc_pseudo6 e src dest proto len =
    fold_loop fold_fuel (u32 (net_halves e src + net_halves e dest + halves len + proto))

abbrev pub partial : Segment → Bool
partial p = p.has_vhdr && p.needs_csum

abbrev pub untouched : Segment → Translated
untouched p = ok (p.payload, p.needs_csum)

-- A transport header that the data is too short for.
abbrev pub too_short : Bool → Segment → Translated
too_short em p = if em then untouched p else err error_drop

abbrev pub never_zero : ℕ → ℕ
never_zero ck = if ck == 0 then 0xffff else ck

-- `pseudo` is the checksum of the pseudo header.
unfoldable pub full_cksum : Endian → ℕ → ℕ → List ℕ → ℕ
full_cksum e k pseudo bs = ones_add (ip_checksum e (put_u16 e k 0 bs)) pseudo

unfoldable pub xlate_icmp_4to6 : Endian → In6Addr → In6Addr → Segment → Translated
unfolding get_u16 put_u16
xlate_icmp_4to6 e src6 dest6 p =
    let pseudo = ip6_checksum e src6 dest6 (u32 (p.ip4.length + 2 ^ 32 - p.header_len)) 58 in
    let ck = ones_add (get_u16 e 1 p.payload) pseudo in
    elim p.payload [
      | [] ↦ untouched p
      | type ∷ rest ↦
          if type == 8
          then ok (
            put_u16 e 1 (ones_add ck (not16 ((128 - 8) * 2 ^ big_little e 8 0))) (128 ∷ rest),
            p.needs_csum,
          )
          else ok (
            put_u16 e 1 (ones_add ck (not16 ((129 - 0) * 2 ^ big_little e 8 0))) (129 ∷ rest),
            p.needs_csum,
          )
    ]

-- The metadata of a partial checksum at byte `at`.
abbrev pub is_bad_offload : ℕ → Segment → Bool
is_bad_offload at p =
    not (p.csum_start == p.header_len)
    || not (p.csum_offset == at)
    || ltb p.ip4.length (u32 (p.csum_start + p.csum_offset + 2))

-- A partial checksum is completed here, or seeded for the device.
unfoldable pub offload_udp : Endian → Offload → In6Addr → In6Addr → Segment → Translated
unfolding full_cksum gso_calc_pseudo6
offload_udp e c src6 dest6 p =
    if c.vnet_hdr_sz == 0
    then ok (
      put_u16 e 3
          (never_zero (full_cksum e 3 (ip6_checksum e src6 dest6 (length p.payload) 17) p.payload))
          p.payload,
      false,
    )
    else ok (
      put_u16 e 3 (htons e (gso_calc_pseudo6 e src6 dest6 17 (length p.payload))) p.payload,
      true,
    )

unfoldable pub offload_tcp : Endian → Offload → In6Addr → In6Addr → Segment → Translated
unfolding full_cksum gso_calc_pseudo6
offload_tcp e c src6 dest6 p =
    if c.vnet_hdr_sz == 0
    then ok (
      put_u16 e 8 (full_cksum e 8 (ip6_checksum e src6 dest6 (length p.payload) 6) p.payload)
          p.payload,
      false,
    )
    else ok
        (put_u16 e 8 (htons e (gso_calc_pseudo6 e src6 dest6 6 (length p.payload))) p.payload, true)

-- The adjustment of RFC 1624 for the addresses.
unfoldable pub adjusted : Endian → ℕ → In6Addr → In6Addr → Segment → ℕ
adjusted e k src6 dest6 p =
    ones_add (get_u16 e k p.payload) (not16 (convert_cksum src6 dest6 p.ip4.src p.ip4.dest))

unfoldable pub adjust : Endian → In6Addr → In6Addr → Segment → Translated
unfolding adjusted
adjust e src6 dest6 p =
    let k = if p.data_proto == 6 then 8 else 3 in
    let ck = adjusted e k src6 dest6 p in
    let sent = if p.data_proto == 17 || p.data_proto == 136 then never_zero ck else ck in
    ok (put_u16 e k sent p.payload, p.needs_csum)

-- A UDP datagram without a checksum.
unfoldable pub xlate_unchecked :
    Endian → UdpCksumMode → Bool → In6Addr → In6Addr → Segment → Translated
unfolding full_cksum
xlate_unchecked e udp_cksum_drop em src6 dest6 p = err error_drop
xlate_unchecked e udp_cksum_fwd em src6 dest6 p = untouched p
xlate_unchecked e udp_cksum_calc em src6 dest6 p =
    if em
    then untouched p
    else ok (
      put_u16 e 3
          (never_zero (full_cksum e 3 (ip6_checksum e src6 dest6 (length p.payload) 17) p.payload))
          p.payload,
      p.needs_csum,
    )

unfoldable pub xlate_udp_4to6 : Endian → Offload → Bool → In6Addr → In6Addr → Segment → Translated
unfolding offload_udp xlate_unchecked adjust
xlate_udp_4to6 e c em src6 dest6 p =
    if ltb (length p.payload) 8
    then too_short em p
    else if partial p
    then (let udp_len = htons e (get_u16 e 2 p.payload) in
        if is_bad_offload 6 p || ltb udp_len 8 || ltb (length p.payload) udp_len
        then err error_drop
        else offload_udp e c src6 dest6 p)
    else if get_u16 e 3 p.payload == 0
    then xlate_unchecked e c.udp_cksum_mode em src6 dest6 p
    else adjust e src6 dest6 p

-- The data offset in byte 12, in bytes.
abbrev pub doff_of : Endian → List ℕ → ℕ
doff_of e bs = bit_and (htons e (get_u16 e 6 bs) / 2 ^ 12) 0x0f * 4

unfoldable pub xlate_tcp_4to6 : Endian → Offload → Bool → In6Addr → In6Addr → Segment → Translated
unfolding offload_tcp adjust
xlate_tcp_4to6 e c em src6 dest6 p =
    if ltb (length p.payload) 20
    then too_short em p
    else if partial p
    then (if is_bad_offload 16 p
          || ltb (doff_of e p.payload) 20
          || ltb (length p.payload) (doff_of e p.payload)
        then err error_drop
        else offload_tcp e c src6 dest6 p)
    else adjust e src6 dest6 p

-- UDP-Lite and DCCP.
unfoldable pub xlate_other_4to6 : Endian → Bool → In6Addr → In6Addr → Segment → Translated
unfolding adjust
xlate_other_4to6 e em src6 dest6 p =
    if ltb (length p.payload) (if p.data_proto == 33 then 12 else 8)
    then too_short em p
    else if partial p
    then err error_drop
    else if p.data_proto == 136 && get_u16 e 3 p.payload == 0
    then too_short em p
    else adjust e src6 dest6 p

-- The addresses are those of the IPv6 header; `em` tells a packet embedded in an ICMP error.
unfoldable pub xlate_payload_4to6 :
    Endian → Offload → Bool → In6Addr → In6Addr → Segment → Translated
unfolding xlate_icmp_4to6 xlate_udp_4to6 xlate_tcp_4to6 xlate_other_4to6
xlate_payload_4to6 e c em src6 dest6 p =
    if is_set p.ip4.flags_offset (bit_or ip4_f_mask ip4_f_mf) && partial p
    then err error_drop
    else if is_set p.ip4.flags_offset ip4_f_mask
    then untouched p
    else if p.data_proto == 1
    then xlate_icmp_4to6 e src6 dest6 p
    else if p.data_proto == 17
    then xlate_udp_4to6 e c em src6 dest6 p
    else if p.data_proto == 6
    then xlate_tcp_4to6 e c em src6 dest6 p
    else if p.data_proto == 33 || p.data_proto == 136
    then xlate_other_4to6 e em src6 dest6 p
    else if partial p
    then err error_drop
    else untouched p
