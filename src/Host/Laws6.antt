-- ===== src/Host/Laws6.antt =====
-- The ICMPv6 messages that src/nat64.c sends for the translator itself pass its own checks.
use tayga.Base.{
  ℕ, ◌+◌, ◌-◌, ◌*◌, ◌/◌, ◌%◌, ◌^◌, ◌≤◌, ◌<◌, ◌≡◌, refl, sym, subst, bit_or, bit_or_split,
  zero-bit_or, ap, ap₂, ◌∙◌, arith, none, List, [], ◌∷◌, ◌++◌, length, All,
}
use tayga.Word.{Endian, big, little, htonl, htons, u32}
use tayga.Word.Laws.{htonl-htonl}
use tayga.Addr.{In6Addr}
use tayga.Prefix.Bytes.{IsIn6}
use tayga.Checksum.{halves, words6, ones_add, ip_checksum, ip6_checksum}
use tayga.Checksum.Bytes.{ones, sum16, IsByte, ip_checksum_lem}
use tayga.Checksum.Laws.{ones_add_lem, ip6_checksum_lem}
use tayga.Packet.{Ip6Header, IcmpHeader, icmp_bytes, packet6, written}
use tayga.Packet.Sums.{IsIcmp, pair}
use tayga.Host.{icmp_sum, host_send_icmp6}
use tayga.Host.Laws.{
  HasIcmp, icmp_sum_lem, icmp_bytes-HasIcmp, message-sum, length-icmp_bytes, htons-htons,
}

-- What `handle_ip6` asks of an ICMPv6 packet, but for its addresses: version 6, the next header, a
-- checksum over the pseudo header and the data, which hold the ICMP header, and a length that counts
-- the data.
abbrev pub IsChecked6 : Endian → Ip6Header → List ℕ → Type 0
IsChecked6 e h body =
    (htonl e h.ver_tc_fl / 2 ^ 28 ≡ 6)
    × (h.next_header ≡ 58)
    × (8 ≤ length body)
    × (ones_add (ip_checksum e body) (ip6_checksum e h.src h.dest (length body) 58) ≡ 0)
    × (htons e h.payload_length ≡ length body)

pub ones_add-zero :
    (x y : ℕ)
    → (x + y) % 65535 ≡ 0
    → 1 ≤ y
    → ones_add (65535 - ones (0xffff + x)) (65535 - ones y) ≡ 0
ones_add-zero x y h p =
    ground
      (arith, ones_add_lem (65535 - ones (0xffff + x)) (65535 - ones y) (omega arith) (omega arith))

-- The version of a header with a traffic class of 8 bits.
pub version6 :
    (e : Endian) (tc : ℕ)
    → tc < 256
    → htonl e (htonl e (bit_or (0x6 * 2 ^ 28) (tc * 2 ^ 20))) / 2 ^ 28 ≡ 6
version6 e tc h =
    let class : ℕ = tc * 2 ^ 20 in
    let no_version : class / 2 ^ 28 ≡ 0 = omega arith in
    let low : class % 2 ^ 28 ≡ class = omega arith in
    let word : bit_or (0x6 * 2 ^ 28) class ≡ 0x6 * 2 ^ 28 + class =
      bit_or_split 28 (0x6 * 2 ^ 28) class ∙ rw (no_version, low, zero-bit_or class) refl in
    ap (λ (w : ℕ). w / 2 ^ 28) (htonl-htonl e _ (omega (arith, word)) ∙ word) ∙ omega arith

adds :
    (s c y : ℕ)
    → c < 2 ^ 16
    → (s + c) % 65535 ≡ 0
    → let ck = ones_add c (65535 - ones y) in (ck < 2 ^ 16) × ((s + ck + y) % 65535 ≡ 0)
adds s c y h z = ground (arith, ones_add_lem c (65535 - ones y) h (omega arith))

htons-positive : (e : Endian) → 1 ≤ htons e 58
unfolding htons
htons-positive big = omega arith
htons-positive little = omega arith

-- A message that sums to zero with its pseudo header passes the test of `handle_ip6`.
pub checked6 :
    (e : Endian) (src dest : In6Addr) (icmp : IcmpHeader) (bs : List ℕ) (ck : ℕ)
    → IsIn6 src
    → IsIn6 dest
    → IsIcmp icmp
    → All IsByte bs
    → length bs ≤ 65527
    → ck < 2 ^ 16
    → (pair e icmp.type icmp.code
          + halves icmp.word
          + sum16 e bs
          + ck
          + (words6 src + words6 dest + htonl e (8 + length bs) + htons e 58))
        % 65535
      ≡ 0
    → let body = icmp_bytes e (record icmp { cksum = ck }) ++ bs in
      ones_add (ip_checksum e body) (ip6_checksum e src dest (length body) 58) ≡ 0
checked6 e src dest icmp bs ck hs hd i h l small zero =
    let n : ℕ = 8 + length bs in
    let y : ℕ = words6 src + words6 dest + htonl e n + htons e 58 in
    let body : List ℕ = icmp_bytes e (record icmp { cksum = ck }) ++ bs in
    let whole = message-sum e icmp bs ck i h small in
    let len : length body ≡ n = length-icmp_bytes e (record icmp { cksum = ck }) bs in
    let pseudo = ip6_checksum_lem e src dest n 58 hs hd (omega arith) (omega arith) in
    let positive : 1 ≤ y = omega (arith, htons-positive e) in
    ap₂ ones_add (ip_checksum_lem e body whole.0)
      (ap (λ (t : ℕ). ip6_checksum e src dest t 58) len ∙ pseudo)
    ∙ ones_add-zero (sum16 e body) y (omega (arith, whole.1, zero)) positive

-- For fields that fit their widths and data of at most 65527 bytes, `host_send_icmp6` writes one
-- packet, between the addresses it was given and with a hop limit of 64, that passes the checks of
-- `handle_ip6` on anything but the addresses: version, next header, payload length and the checksum.
-- Its message has the type, the code, the word and the data it was given.
pub host_send_icmp6-IsChecked6 :
    (e : Endian) (tc : ℕ) (src dest : In6Addr) (icmp : IcmpHeader) (bs : List ℕ)
    → tc < 256
    → IsIn6 src
    → IsIn6 dest
    → IsIcmp icmp
    → All IsByte bs
    → length bs ≤ 65527
    → (h : Ip6Header) × (body : List ℕ) × (host_send_icmp6 e tc src dest icmp bs
        ≡ written none (packet6 h body) ∷ [])
      × (h.src ≡ src)
      × (h.dest ≡ dest)
      × (h.hop_limit ≡ 64)
      × IsChecked6 e h body
      × HasIcmp e icmp bs body
unfolding host_send_icmp6
host_send_icmp6-IsChecked6 e tc src dest icmp bs ht hs hd i h l =
    let c = icmp_sum e icmp bs in
    let sum = icmp_sum_lem e icmp bs i h in
    let n : ℕ = length bs + 8 in
    let p : ℕ = words6 src + words6 dest + htonl e n + htons e 58 in
    let pseudo = ip6_checksum_lem e src dest n 58 hs hd (omega arith) (omega arith) in
    let s : ℕ = pair e icmp.type icmp.code + halves icmp.word + sum16 e bs in
    let ck : ℕ = ones_add c (ip6_checksum e src dest (u32 n) 58) in
    let same : ck ≡ ones_add c (65535 - ones p) =
      ap (ones_add c) (ap (λ (t : ℕ). ip6_checksum e src dest t 58) (omega arith) ∙ pseudo) in
    let add = adds s c p sum.0 sum.1 in
    let order : n ≡ 8 + length bs = omega arith in
    (
      _,
      _,
      refl,
      refl,
      refl,
      refl,
      (
        version6 e tc ht,
        refl,
        omega (arith, length-icmp_bytes e (record icmp { cksum = ck }) bs),
        checked6 e src dest icmp bs ck hs hd i h l (omega (arith, same, add.0)) (
            subst
              (λ (t : ℕ).
                (s + ck + (words6 src + words6 dest + htonl e t + htons e 58)) % 65535 ≡ 0)
              order (omega (arith, add.1, same))),
        htons-htons e (8 + length bs) (omega arith)
            ∙ sym (length-icmp_bytes e (record icmp { cksum = ck }) bs),
      ),
      icmp_bytes-HasIcmp e icmp ck bs i.word,
    )
