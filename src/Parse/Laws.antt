-- ===== src/Parse/Laws.antt =====
-- What `parse_ip4` of src/nat64.c accepts, and what the later stages may rely on.
use tayga.Base.{
  ℕ, ◌+◌, ◌-◌, ◌*◌, ◌/◌, ◌%◌, ◌^◌, ◌≤◌, ◌<◌, ◌≡◌, ◌≢◌, refl, ap, ◌↔◌, ◌⊎◌, inl, inr, arith, Bool,
  true, false, ltb, Bool-cases, none, some, [], ◌∷◌, bit_and_mask, bit_and_field,
}
use Prim.Native.Nat.{min}
use tayga.Word.{Endian}
use tayga.Addr.{error_drop, validate_ip4_addr}
use tayga.Fragment.Sends.{IsSent, sends-IsSent}
use tayga.Fragment.{Mtus, sends}
use tayga.Icmp.{is_one_of}
use tayga.Parse.{Ip4, Pkt, is_bad_header, behind, is_bad_payload, parse_ip4}

-- A header of version 4 that fits the data and its own length, between addresses that may be routed.
abbrev pub IsHeader : Endian → Ip4 → ℕ → Type 0
IsHeader e h n =
    let size = h.ver_ihl % 16 * 4 in
    (h.ver_ihl / 16 ≡ 4)
    × (20 ≤ size)
    × (size ≤ n)
    × (size ≤ h.length)
    × (validate_ip4_addr e h.src ≢ error_drop)
    × (validate_ip4_addr e h.dest ≢ error_drop)

-- A payload of `n` bytes: a whole ICMP header in no fragment, or a protocol that is not IPv6's own in
-- a packet of at most 65535 bytes, with a multiple of 8 where more follows.
abbrev pub IsPayload : Bool → Ip4 → ℕ → Type 0
IsPayload em h n =
    ((h.proto ≡ 1) × ((em ≡ true) ⊎ (h.flags_offset % 2 ^ 14 ≡ 0)) × (8 ≤ n))
    ⊎ ((h.proto ≢ 1)
        × (is_one_of h.proto (0 ∷ 43 ∷ 44 ∷ 58 ∷ 60 ∷ []) ≡ false)
        × ((em ≡ true) ⊎ (h.flags_offset / 2 ^ 13 % 2 ≡ 0) ⊎ (n % 8 ≡ 0))
        × (h.flags_offset % 2 ^ 13 * 8 + n ≤ 65535))

is_bad_header_lem : (e : Endian) (h : Ip4) (n : ℕ) → (is_bad_header e h n ≡ false) ↔ IsHeader e h n
unfolding is_bad_header
is_bad_header_lem e h n = ground (arith, bit_and_mask 4 h.ver_ihl)

is_bad_payload_lem :
    (em : Bool) (h : Ip4) (p : Pkt)
    → p.data_len ≤ 65535
    → p.data_proto ≡ h.proto
    → (is_bad_payload em h p ≡ false) ↔ IsPayload em h p.data_len
unfolding is_bad_payload
is_bad_payload_lem em h p a b = ground (
  arith,
  bit_and_mask 14 h.flags_offset,
  bit_and_mask 13 h.flags_offset,
  bit_and_field 13 1 h.flags_offset,
  bit_and_mask 3 p.data_len,
)

behind_lem :
    (h : Ip4) (n : ℕ)
    → h.length < 2 ^ 16
    → ((behind h n).header_len ≡ h.ver_ihl % 16 * 4)
      × ((behind h n).data_len ≡ min n h.length - h.ver_ihl % 16 * 4)
      × ((behind h n).data_proto ≡ h.proto)
      × ((behind h n).data_len ≤ 65535)
unfolding behind
behind_lem h n l =
    let b = bit_and_mask 4 h.ver_ihl in (ground (arith, b), ground (arith, b), refl, ground arith)

-- `parse_ip4` accepts exactly the packets with a header that fits and a payload that may be
-- translated, and then leaves the data behind the header, cut to the length that the header states.
pub parse_ip4_lem :
    (e : Endian) (em : Bool) (h : Ip4) (n : ℕ)
    → h.length < 2 ^ 16
    → ((parse_ip4 e em h n ≡ none) × ¬ (IsHeader e h n × IsPayload em h (behind h n).data_len))
      ⊎ ((parse_ip4 e em h n ≡ some (behind h n))
          × IsHeader e h n
          × IsPayload em h (behind h n).data_len
          × ((behind h n).header_len ≡ h.ver_ihl % 16 * 4)
          × ((behind h n).header_len + (behind h n).data_len ≡ min n h.length)
          × ((behind h n).data_proto ≡ h.proto))
unfolding parse_ip4
parse_ip4_lem e em h n l =
    let r = behind_lem h n l in
    let hd = is_bad_header_lem e h n in
    let bd = is_bad_payload_lem em h (behind h n) (r.3) (r.2) in
    elim (Bool-cases (ltb n 20)) [
      | inl s ↦ rw s (inl (refl, λ x. let i = x.0 in ground arith))
      | inr s ↦ elim (Bool-cases (is_bad_header e h n)) [
        | inl b ↦ rw (s, b) (inl (refl, λ x. ground (arith, hd.1 x.0)))
        | inr b ↦ elim (Bool-cases (is_bad_payload em h (behind h n))) [
          | inl c ↦ rw (s, b, c) (inl (refl, λ x. ground (arith, bd.1 x.1)))
          | inr c ↦ rw (s, b, c) (inr (refl, hd.0 b, bd.0 c, r.0, ground (arith, hd.0 b), r.2))
        ]
      ]
    ]

-- What is parsed may be sent: the lengths that `parse_ip4` lets through are those that the fragments
-- can count.
pub parse_ip4-IsSent :
    (e : Endian) (h : Ip4) (n : ℕ) (p : Pkt) (g : Mtus) (writes : ℕ → Bool)
    → h.length < 2 ^ 16
    → 1280 ≤ g.mtu
    → g.mtu ≤ 65535
    → 1280 ≤ g.ipv6_offlink_mtu
    → ((i : ℕ) → writes i ≡ true)
    → parse_ip4 e false h n ≡ some p
    → IsSent g h.flags_offset p.data_len (sends g writes h.flags_offset p.data_len)
parse_ip4-IsSent e h n p g writes l a b c w q =
    let r = behind_lem h n l in
    elim (parse_ip4_lem e false h n l) [
      | inl x ↦ ground arith
      | inr x ↦
          let same : p ≡ behind h n = ground arith in
          let total : h.flags_offset % 2 ^ 13 * 8 + p.data_len ≤ 65535 =
            ground (arith, ap (λ (t : Pkt). t.data_len) same) in
          sends-IsSent g writes h.flags_offset p.data_len a b c total w
    ]
