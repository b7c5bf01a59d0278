-- ===== src/Translate.antt =====
-- src/nat64.c: what the two directions of the translation share. The address mapper is an interface,
-- which the handlers of src/addrmap.c fill; the rest of `gcfg` that is read is a record. The child
-- modules have the packets (Data4, Data6), the ICMP errors (Error4, Error6) and the entry points.
pub mod Data4
pub mod Data6
pub mod Error4
pub mod Error6
pub mod Entry
pub mod Headers
pub mod Sent4
pub mod Mapper
pub mod Widths
pub mod Valid6
pub mod Written6
pub mod Written4
pub mod Fits
pub mod Quoted4
pub mod Quoted6
pub mod Errors6
pub mod Errors4
pub mod Keeping
pub mod Safety4
pub mod Safety6
pub mod Safety
use tayga.Base.{
  ℕ, ◌+◌, ◌-◌, ◌*◌, ◌/◌, ◌%◌, ◌^◌, bit_and, bit_or, Bool, true, false, ◌&&◌, ◌||◌, if◌then◌else◌,
  ◌==◌, leb, Option, none, some, List, [], ◌∷◌,
}
use tayga.Word.{Endian, htonl, htons, u16}
use tayga.Addr.{In6Addr}
use tayga.Fragment.{Mtus, is_set, ip4_f_df, ip4_f_mf}
use tayga.Parse.{ip4_size}
use tayga.Payload.{Offload}
use tayga.Payload6.{ip6_f_mf}
use tayga.Packet.{Ip4Header, Ip6Header, Ip6Frag, Vnet, Frame, Event, Pkt4}
use tayga.Host.{Pkt6, traffic_class}
use tayga.Ident.{next_ip4_ident}

-- The address of a mapping, `ERROR_REJECT` or `ERROR_DROP`.
pub data Mapped (A : Type 0) : Type 0 where
  mapped : A → Mapped A
  rejected : Mapped A
  unmapped : Mapped A

-- `map_ip4_to_ip6` and `map_ip6_to_ip4` on whatever state they keep; the latter with `dyn_alloc`.
pub record AddressMap : Type 1 where
  pub Store : Type 0
  pub to_ip6 : ℕ → Store → Mapped In6Addr × Store
  pub to_ip4 : Bool → In6Addr → Store → Mapped ℕ × Store

-- `writes i` tells whether the write of fragment `i` succeeds; `with_offload` is that
-- `tun_offload_effective` is not `TUN_OFFLOAD_OFF`.
pub record Config : Type 0 where
  pub endian : Endian
  pub mtus : Mtus
  pub offload : Offload
  pub local_addr4 : ℕ
  pub local_addr6 : In6Addr
  pub with_offload : Bool
  pub writes : ℕ → Bool

-- The state of the mapper and `global_ip4_ident`.
pub record World (S : Type 0) : Type 0 where
  pub store : S
  pub ident : ℕ

-- `--x` on a `uint8_t`.
abbrev pub decrement : ℕ → ℕ
decrement n = (n + 255) % 256

-- The header has its addresses already.
unfoldable pub xlate_header_4to6 : Endian → Pkt4 → In6Addr → In6Addr → ℕ → Ip6Header
xlate_header_4to6 e p src dest payload_length = record {
  ver_tc_fl = htonl e (bit_or (0x6 * 2 ^ 28) (p.ip4.tos * 2 ^ 20));
  payload_length = htons e (u16 payload_length);
  next_header = if p.data_proto == 1 then 58 else p.data_proto;
  hop_limit = p.ip4.ttl;
  src = src;
  dest = dest;
}

-- `flags_offset` for a fragment header's field, both by `ntohs`.
unfoldable pub flags_6to4 : ℕ → ℕ
flags_6to4 off =
    let moved = off / 2 ^ 3 in
    bit_and (if is_set off ip6_f_mf then bit_or moved ip4_f_mf else moved) (0xffff - ip4_f_df)

-- `ident`, `flags_offset` and the counter of identifications.
unfoldable pub ident_6to4 : Endian → Option Ip6Frag → ℕ → ℕ → ℕ × ℕ × ℕ
unfolding flags_6to4 next_ip4_ident
ident_6to4 e (some h) total counter =
    (htons e (htonl e h.ident % 2 ^ 16), htons e (flags_6to4 (htons e h.offset_flags)), counter)
ident_6to4 e none total counter =
    if leb total 1260
    then (htons e (next_ip4_ident counter).0, 0, (next_ip4_ident counter).1)
    else (0, htons e ip4_f_df, counter)

unfoldable pub xlate_header_6to4 : Endian → Pkt6 → ℕ → ℕ → ℕ → ℕ → Ip4Header × ℕ
unfolding ident_6to4
xlate_header_6to4 e p src dest payload_length counter =
    let (ident, flags, next) = ident_6to4 e p.ip6_frag (ip4_size + payload_length) counter in
    (
      record {
        ver_ihl = 0x45;
        tos = traffic_class e p.ip6;
        length = htons e (u16 (ip4_size + payload_length));
        ident = ident;
        flags_offset = flags;
        ttl = p.ip6.hop_limit;
        proto = if p.data_proto == 58 then 1 else p.data_proto;
        cksum = 0;
        src = src;
        dest = dest;
      },
      next,
    )

-- The metadata of a packet whose checksum the device completes; `size` is that of the IP header.
abbrev pub out_vhdr : ℕ → Frame → Bool → ℕ → Option Vnet
out_vhdr size f needs_csum proto =
    if f.has_vhdr && needs_csum && (proto == 6 || proto == 17)
    then some (record {
      gso_type = 0;
      needs_csum = true;
      csum_start = size;
      csum_offset = if proto == 17 then 6 else 16;
    })
    else none
