-- ===== src/Fragment.antt =====
-- src/nat64.c: how `xlate_4to6_data` sends a translated packet, whole or in fragments. Lengths and
-- offsets are in host order; the source stores them by `htons`. A write to the tunnel is not in the
-- source: whether write `i` succeeds is the argument `writes i`.
pub mod Laws
pub mod Sends
use tayga.Base.{
  ℕ, zero, suc, ◌+◌, ◌-◌, ◌*◌, ◌%◌, ◌^◌, bit_and, bit_or, Bool, true, false, ◌&&◌, ◌||◌, not,
  if◌then◌else◌, ◌==◌, ltb, leb, List, [], ◌∷◌,
}
use tayga.Word.{u16, u32}

-- The constants of src/tayga.h for `flags_offset`, and two header sizes.
abbrev pub ip4_f_df : ℕ
ip4_f_df = 0x4000

abbrev pub ip4_f_mf : ℕ
ip4_f_mf = 0x2000

abbrev pub ip4_f_mask : ℕ
ip4_f_mask = 0x1fff

abbrev pub ip6_size : ℕ
ip6_size = 40

abbrev pub ip6_frag_size : ℕ
ip6_frag_size = 8

abbrev pub mtu_adj : ℕ
mtu_adj = 20

-- `gcfg.mtu`, a `uint16_t`, and `gcfg.ipv6_offlink_mtu`.
pub record Mtus : Type 0 where
  pub mtu : ℕ
  pub ipv6_offlink_mtu : ℕ

-- One IPv6 fragment: where its data starts and how much it is, and the header fields.
pub record Frag : Type 0 where
  pub start : ℕ
  pub size : ℕ
  pub payload_length : ℕ
  pub offset_flags : ℕ

-- What is done with the packet: `host_send_icmp4_error` is called with an MTU, or one packet is
-- written, or the fragments are.
pub data Sent : Type 0 where
  too_big : ℕ → Sent
  whole : Sent
  fragments : List Frag → Sent

-- `frag_size` at the start of the function.
unfoldable pub frag_size : Mtus → ℕ
frag_size g =
    let smaller = if ltb g.mtu g.ipv6_offlink_mtu then g.mtu else g.ipv6_offlink_mtu in
    u32 (smaller + 2 ^ 32 - ip6_size)

-- `(frag_size - sizeof(header.ip6_frag)) & ~7`.
unfoldable pub frag_room : ℕ → ℕ
frag_room size = bit_and (u32 (size + 2 ^ 32 - ip6_frag_size)) (2 ^ 32 - 8)

abbrev pub is_set : ℕ → ℕ → Bool
is_set off flags = not (bit_and off flags == 0)

-- The header of the fragment that the loop is at; `more` is its flag.
abbrev pub frag_at : ℕ → ℕ → ℕ → Bool → Frag
frag_at start off size more = record {
  start = start;
  size = size;
  payload_length = u16 (ip6_frag_size + size);
  offset_flags = if more then bit_or off 1 else off;
}

-- The loop: `i` fragments are written, `start` bytes are sent and `data_len` are left.
unfoldable pub frag_loop : (ℕ → Bool) → Bool → ℕ → ℕ → ℕ → ℕ → ℕ → ℕ → List Frag
frag_loop writes mf zero i start data_len off room = []
frag_loop writes mf (suc fuel) i start data_len off room =
    let size = if ltb data_len room then data_len else room in
    let left = data_len - size in
    let head = frag_at start off size (not (left == 0) || mf) in
    let rest = frag_loop writes mf fuel (suc i) (start + size) left (u16 (off + size)) size in
    if data_len == 0 then [] else (head ∷ (if writes i then rest else []))

-- `no_frag_hdr` and the early return, for `flags_offset` in host order.
unfoldable pub sends : Mtus → (ℕ → Bool) → ℕ → ℕ → Sent
sends g writes off data_len =
    let split = fragments (
      frag_loop writes (is_set off ip4_f_mf) data_len 0 0 data_len
        (u16 (bit_and off ip4_f_mask * 8)) (frag_room (frag_size g))) in
    if not (is_set off (ip4_f_mask + ip4_f_mf))
    then (if is_set off ip4_f_df
        then (if ltb g.mtu (ip6_size + data_len)
            then too_big (u32 (g.mtu + 2 ^ 32 - mtu_adj))
            else whole)
        else if leb data_len (frag_size g)
        then whole
        else split)
    else split
