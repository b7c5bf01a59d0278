-- ===== src/Fragment/Sends.antt =====
-- What src/nat64.c sends for a translated packet: the choice between an error, one packet and
-- fragments, against the MTUs.
use tayga.Base.{
  ℕ, ◌+◌, ◌-◌, ◌*◌, ◌/◌, ◌%◌, ◌^◌, ◌≤◌, ◌<◌, bit_and, ◌≡◌, ap, ◌∙◌, ◌⊎◌, inl, inr, arith, Bool,
  true, not, ◌==◌, ltb, leb, Bool-cases, bit_and_high, bit_and_mask, bit_and_field,
}
use tayga.Word.{u16, u32}
use tayga.Fragment.{
  Mtus, Sent, too_big, whole, fragments, frag_size, frag_room, is_set, frag_loop, sends, ip4_f_mask,
  ip4_f_mf, ip4_f_df, ip6_size, ip6_frag_size,
}
use tayga.Fragment.Laws.{Covers, frag_loop-Covers}

-- What may be done with `len` bytes under `flags_offset` `off`, whose lowest 13 bits are the offset,
-- bit 13 is MF and bit 14 is DF.
abbrev pub IsSent : Mtus → ℕ → ℕ → Sent → Type 0
IsSent g off len (too_big m) =
    (off % 2 ^ 14 ≡ 0) × (off / 2 ^ 14 % 2 ≡ 1) × (g.mtu < 40 + len) × (m + 20 ≡ g.mtu)
IsSent g off len whole =
    (off % 2 ^ 14 ≡ 0)
    × (40 + len ≤ g.mtu)
    × ((off / 2 ^ 14 % 2 ≡ 1) ⊎ (40 + len ≤ g.ipv6_offlink_mtu))
IsSent g off len (fragments fs) =
    ((1 ≤ off % 2 ^ 14)
      ⊎ ((off / 2 ^ 14 % 2 ≡ 0) × ((g.mtu < 40 + len) ⊎ (g.ipv6_offlink_mtu < 40 + len))))
    × ((room : ℕ) × (48 + room ≤ g.mtu)
        × (48 + room ≤ g.ipv6_offlink_mtu)
        × Covers room (off / 2 ^ 13 % 2 == 1) 0 (off % 2 ^ 13 * 8) len fs)

frag_size_lem :
    (g : Mtus)
    → 1280 ≤ g.mtu
    → g.mtu < 2 ^ 32
    → 1280 ≤ g.ipv6_offlink_mtu
    → (1280 ≤ 40 + frag_size g)
      × (40 + frag_size g ≤ g.mtu)
      × (40 + frag_size g ≤ g.ipv6_offlink_mtu)
      × ((40 + frag_size g ≡ g.mtu) ⊎ (40 + frag_size g ≡ g.ipv6_offlink_mtu))
unfolding frag_size
frag_size_lem g a b c = elim (Bool-cases (ltb g.mtu g.ipv6_offlink_mtu)) [
  | inl h ↦
      let less : g.mtu < g.ipv6_offlink_mtu = ground arith in
      rw h (omega arith, omega arith, omega arith, inl (omega arith))
  | inr h ↦
      let more : g.ipv6_offlink_mtu ≤ g.mtu = ground arith in
      rw h (omega arith, omega arith, omega arith, inr (omega arith))
]

frag_room_lem :
    (s : ℕ)
    → 16 ≤ s
    → s < 2 ^ 32
    → (1 ≤ frag_room s) × (8 + frag_room s ≤ s) × (frag_room s % 8 ≡ 0)
unfolding frag_room
frag_room_lem s a b =
    let inner : u32 (s + 2 ^ 32 - ip6_frag_size) ≡ s - 8 = omega arith in
    let room : frag_room s ≡ (s - 8) / 8 * 8 =
      ap (λ (t : ℕ). bit_and t (2 ^ 32 - 8)) inner ∙ bit_and_high 3 29 (s - 8) (omega arith) in
    rw room (omega arith, omega arith, omega arith)

is_set_frag : (off : ℕ) → is_set off (ip4_f_mask + ip4_f_mf) ≡ not (off % 2 ^ 14 == 0)
is_set_frag off = ap (λ (t : ℕ). not (t == 0)) (bit_and_mask 14 off)

is_set_df : (off : ℕ) → is_set off ip4_f_df ≡ (off / 2 ^ 14 % 2 == 1)
is_set_df off = ground (arith, bit_and_field 14 1 off)

is_set_mf : (off : ℕ) → is_set off ip4_f_mf ≡ (off / 2 ^ 13 % 2 == 1)
is_set_mf off = ground (arith, bit_and_field 13 1 off)

split_lem :
    (g : Mtus) (writes : ℕ → Bool) (off len : ℕ)
    → 1280 ≤ g.mtu
    → g.mtu ≤ 65535
    → 1280 ≤ g.ipv6_offlink_mtu
    → off % 2 ^ 13 * 8 + len ≤ 65535
    → ((i : ℕ) → writes i ≡ true)
    → (room : ℕ) × (48 + room ≤ g.mtu)
      × (48 + room ≤ g.ipv6_offlink_mtu)
      × Covers room (off / 2 ^ 13 % 2 == 1) 0 (off % 2 ^ 13 * 8) len (
          frag_loop writes
            (is_set off ip4_f_mf)
            len
            0
            0
            len
            (u16 (bit_and off ip4_f_mask * 8))
            (frag_room (frag_size g)))
split_lem g writes off len a b c d w =
    let s = frag_size_lem g a (omega arith) c in
    let r = frag_room_lem (frag_size g) (omega (arith, s)) (omega (arith, s)) in
    let start : u16 (bit_and off ip4_f_mask * 8) ≡ off % 2 ^ 13 * 8 =
      omega (arith, bit_and_mask 13 off) in
    (
      frag_room (frag_size g),
      omega (arith, s, r),
      omega (arith, s, r),
      rw (start, is_set_mf off)
          (frag_loop-Covers writes (off / 2 ^ 13 % 2 == 1) (frag_room (frag_size g)) len 0 0 len
            (off % 2 ^ 13 * 8) (frag_room (frag_size g)) w (omega arith) r.0 (omega arith)
            (omega (arith, s, r)) (inr (r.2)) (inr (omega arith)) d),
    )

-- With MTUs of at least 1280 and every write accepted, an error is sent only for a packet with DF
-- that is no fragment and too large, and states the MTU less 20; one packet is sent only if it fits;
-- and the fragments that are sent otherwise fit the MTUs and cover the data.
pub sends-IsSent :
    (g : Mtus) (writes : ℕ → Bool) (off len : ℕ)
    → 1280 ≤ g.mtu
    → g.mtu ≤ 65535
    → 1280 ≤ g.ipv6_offlink_mtu
    → off % 2 ^ 13 * 8 + len ≤ 65535
    → ((i : ℕ) → writes i ≡ true)
    → IsSent g off len (sends g writes off len)
unfolding sends
sends-IsSent g writes off len a b c d w =
    let split = split_lem g writes off len a b c d w in
    let s = frag_size_lem g a (omega arith) c in
    rw (is_set_frag off, is_set_df off)
      (elim (Bool-cases (off % 2 ^ 14 == 0)) [
        | inr h ↦ rw h (inl (ground arith), split)
        | inl h ↦ elim (Bool-cases (off / 2 ^ 14 % 2 == 1)) [
          | inl df ↦ elim (Bool-cases (ltb g.mtu (ip6_size + len))) [
            | inl big ↦
                rw (h, df, big) ((ground arith), (ground arith), (ground arith), (ground arith))
            | inr fits ↦ rw (h, df, fits) ((ground arith), (ground arith), inl (ground arith))
          ]
          | inr df ↦ elim (Bool-cases (leb len (frag_size g))) [
            | inl fits ↦ rw (h, df, fits) (ground arith, ground (arith, s), inr (ground (arith, s)))
            | inr big ↦ rw (h, df, big) (inr ((ground arith), (ground (arith, s))), split)
          ]
        ]
      ])
