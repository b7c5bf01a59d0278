-- ===== src/Translate/Headers.antt =====
-- The IP headers that src/nat64.c makes: what the two directions carry over.
use tayga.Base.{
  ℕ, ◌+◌, ◌-◌, ◌*◌, ◌/◌, ◌%◌, ◌^◌, ◌<◌, ◌≡◌, ◌≢◌, refl, ap, ap₂, ◌∙◌, arith, Bool, if◌then◌else◌,
  ◌==◌, bit_and, bit_or, some, bit_and_mask, bit_and_field, bit_or_add, bit_or_add', bit_and_split,
  zero-bit_and,
}
use tayga.Word.{Endian, big, little, htonl, htons, u16}
use tayga.Word.Laws.{htonl-htonl}
use tayga.Addr.{In6Addr}
use tayga.Fragment.{is_set, ip4_f_df, ip4_f_mask, ip4_f_mf}
use tayga.Payload6.{ip6_f_mf}
use tayga.Packet.{Pkt4}
use tayga.Host.{Pkt6, traffic_class}
use tayga.Translate.{xlate_header_4to6, flags_6to4, ident_6to4, xlate_header_6to4}
use tayga.Translate.Error4.{frag_em}

pub swap16 : (e : Endian) (n : ℕ) → n < 2 ^ 16 → htons e (htons e n) ≡ n
unfolding htons
swap16 big n h = refl
swap16 little n h = omega arith

pub swap16-lt : (e : Endian) (n : ℕ) → n < 2 ^ 16 → htons e n < 2 ^ 16
unfolding htons
swap16-lt big n h = h
swap16-lt little n h = omega arith

-- The version and the traffic class in the first word.
class_word :
    (tos : ℕ) → tos < 256 → bit_or (0x6 * 2 ^ 28) (tos * 2 ^ 20) ≡ 6 * 2 ^ 28 + tos * 2 ^ 20
class_word tos h = bit_or_add 28 6 (tos * 2 ^ 20) (omega arith)

traffic_class_lem :
    (e : Endian) (p : Pkt4) (src dest : In6Addr) (n : ℕ)
    → p.ip4.tos < 256
    → traffic_class e (xlate_header_4to6 e p src dest n) ≡ p.ip4.tos
unfolding xlate_header_4to6
traffic_class_lem e p src dest n h =
    let w : ℕ = 6 * 2 ^ 28 + p.ip4.tos * 2 ^ 20 in
    let back : htonl e (htonl e (bit_or (0x6 * 2 ^ 28) (p.ip4.tos * 2 ^ 20))) ≡ w =
      htonl-htonl e _ (omega (arith, class_word p.ip4.tos h)) ∙ class_word p.ip4.tos h in
    ap (λ (t : ℕ). bit_and (t / 2 ^ 20) 0xff) back ∙ bit_and_mask 8 (w / 2 ^ 20) ∙ omega arith

-- An offset and the flag for more fragments, moved to IPv6 and back.
moved :
    (off : ℕ)
    → bit_or (bit_and off ip4_f_mask * 2 ^ 3) (if is_set off ip4_f_mf then 1 else 0)
      ≡ off % 2 ^ 13 * 8 + off / 2 ^ 13 % 2
moved off =
    let low : bit_and off ip4_f_mask ≡ off % 2 ^ 13 = bit_and_mask 13 off in
    let flag : (if is_set off ip4_f_mf then 1 else 0) ≡ off / 2 ^ 13 % 2 =
      ground (arith, bit_and_field 13 1 off) in
    rw (low, flag) (bit_or_add 3 (off % 2 ^ 13) (off / 2 ^ 13 % 2) (omega arith))

clear_df : (v : ℕ) → v < 2 ^ 14 → bit_and v (0xffff - ip4_f_df) ≡ v
clear_df v h =
    let top : v / 2 ^ 14 ≡ 0 = omega arith in
    bit_and_split 14 v (0xffff - ip4_f_df)
    ∙ rw (top, zero-bit_and ((0xffff - ip4_f_df) / 2 ^ 14))
        (omega (arith, bit_and_mask 14 (v % 2 ^ 14)))

flags_6to4_lem : (o m : ℕ) → o < 2 ^ 13 → m < 2 → flags_6to4 (o * 8 + m) ≡ o + m * 2 ^ 13
unfolding flags_6to4
flags_6to4_lem o m ho hm =
    let place : (o * 8 + m) / 2 ^ 3 ≡ o = omega arith in
    let flag : is_set (o * 8 + m) ip6_f_mf ≡ (m == 1) =
      ground (arith, bit_and_mask 1 (o * 8 + m)) in
    let with_mf : (if m == 1 then bit_or o ip4_f_mf else o) ≡ o + m * 2 ^ 13 =
      ground (arith, bit_or_add' 13 1 o ho) in
    ap₂ (λ (b : Bool) (t : ℕ). bit_and (if b then bit_or t ip4_f_mf else t) (0xffff - ip4_f_df))
      flag place
    ∙ ap (λ (t : ℕ). bit_and t (0xffff - ip4_f_df)) with_mf
    ∙ clear_df (o + m * 2 ^ 13) (omega arith)

hops :
    (e : Endian) (q : Pkt4) (src6 dest6 : In6Addr) (n : ℕ)
    → (xlate_header_4to6 e q src6 dest6 n).hop_limit ≡ q.ip4.ttl
unfolding xlate_header_4to6
hops e q src6 dest6 n = refl

-- For a fragment that is no ICMP, the header that `xlate_header_6to4` makes of what
-- `xlate_header_4to6` and the fragment header make of an IPv4 header has its type of service, TTL,
-- protocol and identification, its offset and its flag for more fragments; DF is cleared, and no
-- identification is used up.
pub xlate_header_6to4-4to6 :
    (e : Endian) (q : Pkt4) (src6 dest6 : In6Addr) (p : Pkt6) (n src dest len counter : ℕ)
    → q.ip4.tos < 256
    → q.ip4.ident < 2 ^ 16
    → q.ip4.flags_offset < 2 ^ 16
    → q.data_proto ≢ 1
    → q.data_proto ≢ 58
    → p.ip6 ≡ xlate_header_4to6 e q src6 dest6 n
    → p.ip6_frag ≡ some (frag_em e q q.data_proto)
    → p.data_proto ≡ q.data_proto
    → let (h, next) = xlate_header_6to4 e p src dest len counter in
      (h.tos ≡ q.ip4.tos)
      × (h.ttl ≡ q.ip4.ttl)
      × (h.proto ≡ q.data_proto)
      × (h.ident ≡ q.ip4.ident)
      × (htons e h.flags_offset ≡ htons e q.ip4.flags_offset % 2 ^ 14)
      × (next ≡ counter)
unfolding xlate_header_6to4 ident_6to4 frag_em
xlate_header_6to4-4to6 e q src6 dest6 p n src dest len counter t i f icmp icmp6 same frag proto =
    let off : ℕ = htons e q.ip4.flags_offset in
    let value : ℕ = off % 2 ^ 13 * 8 + off / 2 ^ 13 % 2 in
    let back : htons e (htons e (u16 value)) ≡ value =
      swap16 e (u16 value) (omega arith) ∙ omega arith in
    let flags : flags_6to4 value ≡ off % 2 ^ 14 =
      flags_6to4_lem (off % 2 ^ 13) (off / 2 ^ 13 % 2) (omega arith) (omega arith) ∙ omega arith in
    let ident : htonl e (htonl e (htons e q.ip4.ident)) % 2 ^ 16 ≡ htons e q.ip4.ident =
      ap (λ (t : ℕ). t % 2 ^ 16)
        (htonl-htonl e (htons e q.ip4.ident) (omega (arith, swap16-lt e q.ip4.ident i)))
      ∙ omega (arith, swap16-lt e q.ip4.ident i) in
    rw (same, frag, proto, moved off, back, flags)
      (
        traffic_class_lem e q src6 dest6 n t,
        hops e q src6 dest6 n,
        ground arith,
        ap (htons e) ident ∙ swap16 e q.ip4.ident i,
        swap16 e (off % 2 ^ 14) (omega arith),
        refl,
      )
