-- ===== src/Translate/Written6.antt =====
-- The ICMPv6 errors that `xlate_4to6_icmp_error` of src/nat64.c writes pass the checks of `handle_ip6`.
use tayga.Base.{
  ℕ, ◌+◌, ◌-◌, ◌%◌, ◌^◌, ◌≤◌, ◌<◌, ◌≡◌, refl, sym, subst, ap, ◌∙◌, arith, none, List, [], ◌∷◌, ◌++◌,
  length, length-append, All,
}
use tayga.Word.{Endian, htonl, htons}
use tayga.Addr.{In6Addr}
use tayga.Prefix.Bytes.{IsIn6}
use tayga.Checksum.{halves, words6, ones_add, ip_checksum, ip6_checksum}
use tayga.Checksum.Bytes.{ones, sum16, IsByte, ip_checksum_lem}
use tayga.Checksum.Laws.{ones_add_lem, ip6_checksum_lem}
use tayga.Packet.{Ip6Header, IcmpHeader, icmp_bytes, packet6, written, Pkt4}
use tayga.Packet.Sums.{IsIcmp, pair, All-append, ones_add-complements}
use tayga.Host.Laws.{message-sum, length-icmp_bytes, htons-htons}
use tayga.Host.Laws6.{IsChecked6, version6, checked6}
use tayga.Icmp.{Icmp}
use tayga.Translate.{decrement, xlate_header_4to6}
use tayga.Translate.Error4.{fresh_icmp, write_error6}

-- Whole 16-bit words in front.
pub sum16-append :
    (e : Endian) (xs ys : List ℕ) → length xs % 2 ≡ 0 → sum16 e (xs ++ ys) ≡ sum16 e xs + sum16 e ys
unfolding sum16
sum16-append e [] ys h = omega arith
sum16-append e (x ∷ []) ys h = omega (arith, h)
sum16-append e (x ∷ y ∷ xs) ys h = omega (arith, sum16-append e xs ys (omega (arith, h)))

-- A complement and what makes a sum vanish.
adds :
    (s c y : ℕ)
    → c < 2 ^ 16
    → (s + c) % 65535 ≡ 0
    → let ck = ones_add (65535 - ones y) c in (ck < 2 ^ 16) × ((s + ck + y) % 65535 ≡ 0)
adds s c y h z = ground (arith, ones_add_lem (65535 - ones y) c (omega arith) h)

-- The sum of the header, what it quotes and the data, which are summed in two runs.
pub quote_sum :
    (e : Endian) (icmp : IcmpHeader) (quote bs : List ℕ)
    → IsIcmp icmp
    → All IsByte quote
    → length quote % 2 ≡ 0
    → All IsByte bs
    → let c =
        ones_add
          (ip_checksum e (icmp_bytes e (record icmp { cksum = 0 }) ++ quote))
          (ip_checksum e bs) in
      (c < 2 ^ 16)
      × ((pair e icmp.type icmp.code + halves icmp.word + sum16 e (quote ++ bs) + c) % 65535 ≡ 0)
quote_sum e icmp quote bs fit hq even hb =
    let front : List ℕ = icmp_bytes e (record icmp { cksum = 0 }) ++ quote in
    let first = message-sum e icmp quote 0 fit hq (omega arith) in
    let sum = ones_add-complements (65535 + sum16 e front) (65535 + sum16 e bs) in
    rw (ip_checksum_lem e front first.0, ip_checksum_lem e bs hb, sum16-append e quote bs even)
      (sum.1, omega (arith, sum.0, first.1))

pub append_assoc : (xs ys zs : List ℕ) → (xs ++ ys) ++ zs ≡ xs ++ (ys ++ zs)
append_assoc [] ys zs = refl
append_assoc (x ∷ xs) ys zs = ap (λ (t : List ℕ). x ∷ t) (append_assoc xs ys zs)

-- The checksum of the whole, whose length `m` is read from the header.
error_sum :
    (e : Endian) (icmp : IcmpHeader) (quote bs : List ℕ) (src dest : In6Addr) (m : ℕ)
    → IsIn6 src
    → IsIn6 dest
    → IsIcmp icmp
    → All IsByte quote
    → length quote % 2 ≡ 0
    → All IsByte bs
    → length quote + length bs ≤ 65527
    → m ≡ 8 + (length quote + length bs)
    → let c =
        ones_add
          (ip_checksum e (icmp_bytes e (record icmp { cksum = 0 }) ++ quote))
          (ip_checksum e bs) in
      let ck = ones_add (ip6_checksum e src dest m 58) c in
      let body = (icmp_bytes e (record icmp { cksum = ck }) ++ quote) ++ bs in
      (length body ≡ 8 + (length quote + length bs))
      × (ones_add (ip_checksum e body) (ip6_checksum e src dest (length body) 58) ≡ 0)
error_sum e icmp quote bs src dest m hs hd fit hq even hb l same =
    let all : List ℕ = quote ++ bs in
    let c : ℕ =
      ones_add (ip_checksum e (icmp_bytes e (record icmp { cksum = 0 }) ++ quote))
        (ip_checksum e bs) in
    let sum = quote_sum e icmp quote bs fit hq even hb in
    let long : length all ≡ length quote + length bs = length-append quote bs in
    let m_all : m ≡ 8 + length all = omega (arith, same, long) in
    let y : ℕ = words6 src + words6 dest + htonl e m + htons e 58 in
    let pseudo = ip6_checksum_lem e src dest m 58 hs hd (omega arith) (omega arith) in
    let s : ℕ = pair e icmp.type icmp.code + halves icmp.word + sum16 e all in
    let ck : ℕ = ones_add (ip6_checksum e src dest m 58) c in
    let add = adds s c y sum.0 sum.1 in
    let ck_same : ck ≡ ones_add (65535 - ones y) c = ap (λ (t : ℕ). ones_add t c) pseudo in
    let zero : (s + ck + y) % 65535 ≡ 0 = omega (arith, ck_same, add.1) in
    let flat : (icmp_bytes e (record icmp { cksum = ck }) ++ quote) ++ bs
        ≡ icmp_bytes e (record icmp { cksum = ck }) ++ all =
      append_assoc (icmp_bytes e (record icmp { cksum = ck })) quote bs in
    let good =
      checked6 e src dest icmp all ck hs hd fit (All-append quote bs hq hb) (omega (arith, long))
        (omega (arith, ck_same, add.0))
        (subst
          (λ (t : ℕ). (s + ck + (words6 src + words6 dest + htonl e t + htons e 58)) % 65535 ≡ 0)
          m_all zero) in
    subst
      (λ (body : List ℕ).
        (length body ≡ 8 + (length quote + length bs))
        × (ones_add (ip_checksum e body) (ip6_checksum e src dest (length body) 58) ≡ 0))
      (sym flat)
      (length-icmp_bytes e (record icmp { cksum = ck }) all ∙ ap (λ (t : ℕ). 8 + t) long, good)

-- For fields that fit their widths and an even number of quoted bytes, `write_error6` writes one
-- packet that passes the checks of `handle_ip6`.
pub write_error6-IsChecked6 :
    (e : Endian) (p : Pkt4) (i : Icmp) (quote bs : List ℕ) (src dest : In6Addr)
    → IsIn6 src
    → IsIn6 dest
    → IsIcmp (fresh_icmp e i 0)
    → All IsByte quote
    → length quote % 2 ≡ 0
    → All IsByte bs
    → p.data_proto ≡ 1
    → p.ip4.tos < 256
    → length quote + length bs ≤ 65527
    → (h : Ip6Header) × (body : List ℕ) × (write_error6 e p i quote bs src dest
        ≡ written none (packet6 h body) ∷ [])
      × (h.src ≡ src)
      × (h.dest ≡ dest)
      × (h.next_header ≡ 58)
      × (h.hop_limit ≡ decrement p.ip4.ttl)
      × (length body ≡ 8 + (length quote + length bs))
      × IsChecked6 e h body
unfolding write_error6 xlate_header_4to6
write_error6-IsChecked6 e p i quote bs src dest hs hd fit hq even hb proto tos l =
    let same = htons-htons e (8 + length quote + length bs) (omega arith) in
    let sum =
      error_sum e (fresh_icmp e i 0) quote bs src dest _ hs hd fit hq even hb l
        (same ∙ omega arith) in
    (
      _,
      _,
      refl,
      refl,
      refl,
      rw proto refl,
      refl,
      sum.0,
      (
        version6 e p.ip4.tos tos,
        rw proto refl,
        omega (arith, sum.0),
        sum.1,
        same ∙ omega (arith, sum.0),
      ),
    )
