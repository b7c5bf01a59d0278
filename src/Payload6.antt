-- ===== src/Payload6.antt =====
-- src/nat64.c: `xlate_payload_6to4`, with `gso_calc_pseudo4` of src/gso.c, which it calls. The data is
-- as in Payload; `offset_flags` is that of the fragment header, if there is one.
pub mod Laws
pub mod Keeps
use tayga.Base.{
  ℕ, zero, suc, ◌+◌, ◌-◌, ◌*◌, ◌/◌, ◌%◌, ◌^◌, bit_or, Bool, true, false, ◌&&◌, ◌||◌, not,
  if◌then◌else◌, ◌==◌, ltb, Option, none, some, List, [], ◌∷◌, length,
}
use tayga.Word.{Endian, htonl, htons, u16, u32, not16, big_little}
use tayga.Addr.{In6Addr, error_drop}
use tayga.Prefix.{ok, err}
use tayga.Checksum.{
  halves, fold_loop, fold_fuel, ones_add, ip4_checksum, ip6_checksum, convert_cksum,
}
use tayga.Fragment.{is_set}
use tayga.Payload.{
  UdpCksumMode, udp_cksum_drop, udp_cksum_calc, udp_cksum_fwd, Offload, Translated, get_u16,
  put_u16, never_zero, full_cksum, doff_of,
}

abbrev pub ip6_f_mask : ℕ
ip6_f_mask = 0xfff8

abbrev pub ip6_f_mf : ℕ
ip6_f_mf = 0x0001

pub record Segment6 : Type 0 where
  pub src : In6Addr
  pub dest : In6Addr
  pub payload_length : ℕ
  pub ip6_frag : Option ℕ
  pub header_len : ℕ
  pub data_proto : ℕ
  pub payload : List ℕ
  pub has_vhdr : Bool
  pub needs_csum : Bool
  pub csum_start : ℕ
  pub csum_offset : ℕ

unfoldable pub gso_calc_pseudo4 : Endian → ℕ → ℕ → ℕ → ℕ → ℕ
unfolding fold_loop
gso_calc_pseudo4 e src dest proto len =
    fold_loop fold_fuel (u32 (halves (htonl e src) + halves (htonl e dest) + proto + len % 2 ^ 16))

abbrev pub is_partial : Segment6 → Bool
is_partial p = p.has_vhdr && p.needs_csum

abbrev pub as_it_is : Segment6 → Translated
as_it_is p = ok (p.payload, p.needs_csum)

abbrev pub cut_short : Bool → Segment6 → Translated
cut_short em p = if em then as_it_is p else err error_drop

-- With a fragment header whose field has one of the flags.
abbrev pub frag_set : Option ℕ → ℕ → Bool
frag_set none flags = false
frag_set (some off) flags = is_set off flags

unfoldable pub xlate_icmp_6to4 : Endian → Segment6 → Translated
unfolding get_u16 put_u16
xlate_icmp_6to4 e p =
    let pseudo =
      not16 (ip6_checksum e p.src p.dest (u32 (p.payload_length + 2 ^ 32 - p.header_len)) 58) in
    let ck = ones_add (get_u16 e 1 p.payload) pseudo in
    elim p.payload [
      | [] ↦ as_it_is p
      | type ∷ rest ↦
          if type == 128
          then ok (
            put_u16 e 1 (ones_add ck (u16 ((128 - 8) * 2 ^ big_little e 8 0))) (8 ∷ rest),
            p.needs_csum,
          )
          else ok (
            put_u16 e 1 (ones_add ck (u16 ((129 - 0) * 2 ^ big_little e 8 0))) (0 ∷ rest),
            p.needs_csum,
          )
    ]

abbrev pub is_bad_offload6 : ℕ → Segment6 → Bool
is_bad_offload6 at p =
    not (p.csum_start == 40 + p.header_len)
    || not (p.csum_offset == at)
    || ltb (40 + p.payload_length) (u32 (p.csum_start + p.csum_offset + 2))

unfoldable pub offload_udp6 : Endian → Offload → ℕ → ℕ → Segment6 → Translated
unfolding full_cksum gso_calc_pseudo4
offload_udp6 e c src4 dest4 p =
    if c.vnet_hdr_sz == 0
    then ok (
      put_u16 e 3
          (never_zero (full_cksum e 3 (ip4_checksum e src4 dest4 (length p.payload) 17) p.payload))
          p.payload,
      false,
    )
    else ok (
      put_u16 e 3 (htons e (gso_calc_pseudo4 e src4 dest4 17 (length p.payload))) p.payload,
      true,
    )

unfoldable pub offload_tcp6 : Endian → Offload → ℕ → ℕ → Segment6 → Translated
unfolding full_cksum gso_calc_pseudo4
offload_tcp6 e c src4 dest4 p =
    if c.vnet_hdr_sz == 0
    then ok (
      put_u16 e 8 (full_cksum e 8 (ip4_checksum e src4 dest4 (length p.payload) 6) p.payload)
          p.payload,
      false,
    )
    else ok
        (put_u16 e 8 (htons e (gso_calc_pseudo4 e src4 dest4 6 (length p.payload))) p.payload, true)

-- The adjustment of RFC 1624 for the addresses.
unfoldable pub adjusted6 : Endian → ℕ → ℕ → ℕ → Segment6 → ℕ
adjusted6 e k src4 dest4 p =
    ones_add (get_u16 e k p.payload) (convert_cksum p.src p.dest src4 dest4)

unfoldable pub adjust6 : Endian → ℕ → ℕ → Segment6 → Translated
unfolding adjusted6
adjust6 e src4 dest4 p =
    let k = if p.data_proto == 6 then 8 else 3 in
    let ck = adjusted6 e k src4 dest4 p in
    let sent = if p.data_proto == 17 || p.data_proto == 136 then never_zero ck else ck in
    ok (put_u16 e k sent p.payload, p.needs_csum)

unfoldable pub xlate_unchecked6 : Endian → UdpCksumMode → Bool → ℕ → ℕ → Segment6 → Translated
unfolding full_cksum
xlate_unchecked6 e udp_cksum_drop em src4 dest4 p = err error_drop
xlate_unchecked6 e udp_cksum_fwd em src4 dest4 p = as_it_is p
xlate_unchecked6 e udp_cksum_calc em src4 dest4 p =
    if em
    then as_it_is p
    else ok (
      put_u16 e 3
          (never_zero
            (full_cksum e 3 (ip4_checksum e src4 dest4 (length p.payload) p.data_proto) p.payload))
          p.payload,
      p.needs_csum,
    )

unfoldable pub xlate_udp_6to4 : Endian → Offload → Bool → ℕ → ℕ → Segment6 → Translated
unfolding offload_udp6 xlate_unchecked6 adjust6
xlate_udp_6to4 e c em src4 dest4 p =
    if ltb (length p.payload) 8
    then cut_short em p
    else if is_partial p
    then (let udp_len = htons e (get_u16 e 2 p.payload) in
        if is_bad_offload6 6 p || ltb udp_len 8 || ltb (length p.payload) udp_len
        then err error_drop
        else offload_udp6 e c src4 dest4 p)
    else if get_u16 e 3 p.payload == 0
    then xlate_unchecked6 e c.udp_cksum_mode em src4 dest4 p
    else adjust6 e src4 dest4 p

unfoldable pub xlate_tcp_6to4 : Endian → Offload → Bool → ℕ → ℕ → Segment6 → Translated
unfolding offload_tcp6 adjust6
xlate_tcp_6to4 e c em src4 dest4 p =
    if ltb (length p.payload) 20
    then cut_short em p
    else if is_partial p
    then (if is_bad_offload6 16 p
          || ltb (doff_of e p.payload) 20
          || ltb (length p.payload) (doff_of e p.payload)
        then err error_drop
        else offload_tcp6 e c src4 dest4 p)
    else adjust6 e src4 dest4 p

-- UDP-Lite and DCCP.
unfoldable pub xlate_other_6to4 : Endian → Bool → ℕ → ℕ → Segment6 → Translated
unfolding adjust6
xlate_other_6to4 e em src4 dest4 p =
    if ltb (length p.payload) (if p.data_proto == 33 then 12 else 8)
    then cut_short em p
    else if is_partial p
    then err error_drop
    else if p.data_proto == 136 && get_u16 e 3 p.payload == 0
    then cut_short em p
    else adjust6 e src4 dest4 p

-- The addresses are those of the IPv4 header; `em` tells a packet embedded in an ICMPv6 error.
unfoldable pub xlate_payload_6to4 : Endian → Offload → Bool → ℕ → ℕ → Segment6 → Translated
unfolding xlate_icmp_6to4 xlate_udp_6to4 xlate_tcp_6to4 xlate_other_6to4
xlate_payload_6to4 e c em src4 dest4 p =
    if frag_set p.ip6_frag (bit_or ip6_f_mask ip6_f_mf) && is_partial p
    then err error_drop
    else if frag_set p.ip6_frag ip6_f_mask
    then as_it_is p
    else if p.data_proto == 58
    then xlate_icmp_6to4 e p
    else if p.data_proto == 17
    then xlate_udp_6to4 e c em src4 dest4 p
    else if p.data_proto == 6
    then xlate_tcp_6to4 e c em src4 dest4 p
    else if p.data_proto == 33 || p.data_proto == 136
    then xlate_other_6to4 e em src4 dest4 p
    else if is_partial p
    then err error_drop
    else as_it_is p
