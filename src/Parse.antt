-- ===== src/Parse.antt =====
-- src/nat64.c: `parse_ip4`. The fields of the header are numbers as `ntohs` gives them, and the
-- addresses are raw words; `data` moves on by `header_len`.
pub mod Laws
use tayga.Base.{
  ℕ, ◌+◌, ◌-◌, ◌*◌, ◌/◌, ◌^◌, bit_and, Bool, true, false, not, ◌&&◌, ◌||◌, if◌then◌else◌, ◌==◌, ltb,
  Option, none, some, [], ◌∷◌,
}
use tayga.Word.{Endian, u32}
use tayga.Addr.{Status, error_none, error_reject, error_drop, error_local, validate_ip4_addr}
use tayga.Fragment.{is_set, ip4_f_mask, ip4_f_mf}
use tayga.Icmp.{is_one_of}

-- The fields of `struct ip4` that are read.
pub record Ip4 : Type 0 where
  pub ver_ihl : ℕ
  pub length : ℕ
  pub flags_offset : ℕ
  pub proto : ℕ
  pub src : ℕ
  pub dest : ℕ

-- The fields of `struct pkt` that are set.
pub record Pkt : Type 0 where
  pub header_len : ℕ
  pub data_len : ℕ
  pub data_proto : ℕ

abbrev pub ip4_size : ℕ
ip4_size = 20

abbrev pub icmp_size : ℕ
icmp_size = 8

abbrev pub is_drop : Status → Bool
is_drop error_none = false
is_drop error_reject = false
is_drop error_drop = true
is_drop error_local = false

abbrev pub header_bytes : Ip4 → ℕ
header_bytes h = bit_and h.ver_ihl 0x0f * 4

unfoldable pub is_bad_header : Endian → Ip4 → ℕ → Bool
is_bad_header e h data_len =
    not (h.ver_ihl / 2 ^ 4 == 4)
    || ltb (header_bytes h) ip4_size
    || ltb data_len (header_bytes h)
    || ltb h.length (header_bytes h)
    || is_drop (validate_ip4_addr e h.src)
    || is_drop (validate_ip4_addr e h.dest)

-- The packet behind the header.
unfoldable pub behind : Ip4 → ℕ → Pkt
behind h data_len = record {
  header_len = header_bytes h;
  data_len = (if ltb h.length data_len then h.length else data_len) - header_bytes h;
  data_proto = h.proto;
}

unfoldable pub is_bad_payload : Bool → Ip4 → Pkt → Bool
is_bad_payload em h p =
    if p.data_proto == 1
    then not em && is_set h.flags_offset (ip4_f_mask + ip4_f_mf) || ltb p.data_len icmp_size
    else if is_one_of p.data_proto (0 ∷ 43 ∷ 44 ∷ 58 ∷ 60 ∷ [])
    then true
    else not em && is_set h.flags_offset ip4_f_mf && is_set p.data_len 7
      || ltb 65535 (u32 (u32 (bit_and h.flags_offset ip4_f_mask * 8) + p.data_len))

-- `em` says that the packet is embedded in an ICMP error; `none` is `ERROR_DROP`.
unfoldable pub parse_ip4 : Endian → Bool → Ip4 → ℕ → Option Pkt
parse_ip4 e em h data_len =
    if ltb data_len ip4_size
    then none
    else if is_bad_header e h data_len
    then none
    else if is_bad_payload em h (behind h data_len)
    then none
    else some (behind h data_len)
