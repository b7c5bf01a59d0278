-- ===== src/Parse6.antt =====
-- src/nat64.c: `parse_ip6` around its loop over the extension headers, which is Walk. The events are
-- those of the Parameter Problem that it sends for a routing header; without a packet it is
-- `ERROR_DROP`. A `struct pkt` is cleared before, so it has no fragment header yet.
pub mod Passes
pub mod Laws
use tayga.Base.{
  ℕ, ◌+◌, ◌-◌, ◌*◌, ◌/◌, ◌^◌, bit_and, bit_or, Bool, true, false, ◌&&◌, ◌||◌, not, if◌then◌else◌,
  ◌==◌, ltb, Option, none, some, List, [], ◌∷◌, length, take, drop,
}
use tayga.Word.{Endian, htonl, htons, u32}
use tayga.Addr.{In6Addr, is_error, validate_ip6_addr}
use tayga.Fragment.{is_set, ip6_size, ip6_frag_size}
use tayga.Parse.{icmp_size}
use tayga.Payload6.{ip6_f_mask, ip6_f_mf, frag_set}
use tayga.Walk.{Walk, walk_extensions}
use tayga.Packet.{Ip6Header, Ip6Frag, read_ip6, read_frag, Frame, Event}
use tayga.Host.{Pkt6, host_send_icmp6_error}

-- Before the loop: the header is long enough, of version 6, and between addresses that are not dropped.
unfoldable pub is_bad_ip6 : Endian → Frame → Bool
unfolding read_ip6
is_bad_ip6 e f =
    let h = read_ip6 e f.raw in
    ltb (length f.raw) ip6_size
    || not (htonl e h.ver_tc_fl / 2 ^ 28 == 6)
    || is_error (validate_ip6_addr e h.src)
    || is_error (validate_ip6_addr e h.dest)

unfoldable pub start_walk : Endian → Frame → Walk
unfolding read_ip6
start_walk e f =
    let h = read_ip6 e f.raw in
    let left = length f.raw - ip6_size in
    record {
      bytes = drop ip6_size f.raw;
      data_len = if ltb (htons e h.payload_length) left then htons e h.payload_length else left;
      data_proto = h.next_header;
      header_len = 0;
      seg_left = 0;
      seg_ptr = ip6_size;
    }

-- Behind the loop and the fragment header, if there is one.
pub record Behind : Type 0 where
  pub walk : Walk
  pub ip6_frag : Option Ip6Frag

-- `offset_flags` by `ntohs`.
abbrev pub offset_of : Endian → Option Ip6Frag → Option ℕ
offset_of e none = none
offset_of e (some h) = some (htons e h.offset_flags)

abbrev pub skip_frag : Walk → Ip6Frag → Walk
skip_frag w h = record w {
  bytes = drop ip6_frag_size w.bytes;
  data_len = w.data_len - ip6_frag_size;
  data_proto = h.next_header;
  header_len = u32 (w.header_len + ip6_frag_size);
}

-- The fragment header.
unfoldable pub take_frag : Endian → Bool → Walk → Option Behind
unfolding read_frag
take_frag e em w =
    if w.data_proto == 44
    then (let h = read_frag e w.bytes in
        let off = htons e h.offset_flags in
        let left = w.data_len - ip6_frag_size in
        if ltb w.data_len ip6_frag_size
        then none
        else if not em && is_set off ip6_f_mf && is_set left 7
        then none
        else if ltb 65535 (u32 (bit_and off ip6_f_mask + left))
        then none
        else some (record { walk = skip_frag w h; ip6_frag = some h }))
    else some (record { walk = w; ip6_frag = none })

-- ICMP must be whole, and ICMPv4 is not for IPv6.
unfoldable pub is_bad_icmp6 : Endian → Bool → Behind → Bool
is_bad_icmp6 e em b =
    if b.walk.data_proto == 58
    then not em && frag_set (offset_of e b.ip6_frag) (bit_or ip6_f_mask ip6_f_mf)
      || ltb b.walk.data_len icmp_size
    else b.walk.data_proto == 1

unfoldable pub pkt6 : Endian → Frame → Behind → Pkt6
unfolding read_ip6
pkt6 e f b = record {
  frame = f;
  ip6 = read_ip6 e f.raw;
  ip6_frag = b.ip6_frag;
  header_len = b.walk.header_len;
  data_proto = b.walk.data_proto;
  payload = take b.walk.data_len b.walk.bytes;
}

-- The test of `seg_left` at the end.
unfoldable pub segments_left : Endian → In6Addr → Bool → Walk → Pkt6 → List Event × Option Pkt6
unfolding host_send_icmp6_error
segments_left e own em w p =
    if w.seg_left == 0
    then ([], some p)
    else if em
    then ([], none)
    else (host_send_icmp6_error e own 4 0 (u32 (w.seg_ptr + 4)) p, none)

abbrev pub finish : Endian → In6Addr → Bool → Frame → Option Behind → List Event × Option Pkt6
finish e own em f none = ([], none)
finish e own em f (some b) =
    if is_bad_icmp6 e em b then ([], none) else segments_left e own em b.walk (pkt6 e f b)

abbrev pub from_walk : Endian → In6Addr → Bool → Frame → Option Walk → List Event × Option Pkt6
from_walk e own em f none = ([], none)
from_walk e own em f (some w) = finish e own em f (take_frag e em w)

unfoldable pub parse_ip6 : Endian → In6Addr → Bool → Frame → List Event × Option Pkt6
unfolding is_bad_ip6 start_walk walk_extensions take_frag is_bad_icmp6 segments_left pkt6
parse_ip6 e own em f =
    if is_bad_ip6 e f
    then ([], none)
    else from_walk e own em f (walk_extensions 9 0 (start_walk e f))
