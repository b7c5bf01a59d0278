-- ===== src/Translate/Written4.antt =====
-- The ICMP errors that `xlate_6to4_icmp_error` of src/nat64.c writes pass the checks of `handle_ip4`.
use tayga.Base.{
  ℕ, ◌+◌, ◌%◌, ◌^◌, ◌≤◌, ◌<◌, ◌≡◌, refl, sym, subst, ap, ◌∙◌, arith, none, List, [], ◌∷◌, ◌++◌,
  length, length-append, All,
}
use tayga.Word.{Endian}
use tayga.Checksum.{ones_add, ip_checksum}
use tayga.Checksum.Bytes.{IsByte, ip_checksum_lem}
use tayga.Packet.{Ip4Header, IcmpHeader, ip4_bytes, icmp_bytes, packet4, written}
use tayga.Packet.Sums.{
  IsIp4, IsIcmp, All-append, ip4_bytes-IsByte, ip_checksum-zero, header_checksum-zero,
}
use tayga.Host.{Pkt6, with_checksum}
use tayga.Host.Laws.{IsChecked4, message-sum, length-icmp_bytes, htons-htons}
use tayga.Icmp.{Icmp}
use tayga.Translate.{decrement, xlate_header_6to4}
use tayga.Translate.Error4.{fresh_icmp}
use tayga.Translate.Error6.{quote_bytes, write_error4}
use tayga.Translate.Sent4.{HasOffset, header_fits}
use tayga.Translate.Written6.{append_assoc, quote_sum}

-- The quoted header.
pub quote_bytes-IsByte :
    (e : Endian) (h : Ip4Header)
    → IsIp4 h
    → h.cksum ≡ 0
    → All IsByte (quote_bytes e h) × (length (quote_bytes e h) ≡ 20)
unfolding quote_bytes ip4_bytes
quote_bytes-IsByte e h fit z =
    let same : ip4_bytes e (record h { cksum = 0 }) ≡ ip4_bytes e h =
      ap (λ (n : ℕ). ip4_bytes e (record h { cksum = n })) (sym z) in
    let bytes = subst (All IsByte) same (ip4_bytes-IsByte e h 0 fit (omega arith)) in
    let c : ℕ = ip_checksum e (ip4_bytes e h) in
    let small : c < 2 ^ 16 = omega (arith, ip_checksum_lem e (ip4_bytes e h) bytes) in
    (ip4_bytes-IsByte e h c fit small, refl)

-- The checksum of the whole, which is summed in two runs.
error_sum4 :
    (e : Endian) (icmp : IcmpHeader) (quote bs : List ℕ)
    → IsIcmp icmp
    → All IsByte quote
    → length quote % 2 ≡ 0
    → All IsByte bs
    → let c =
        ones_add
          (ip_checksum e (icmp_bytes e (record icmp { cksum = 0 }) ++ quote))
          (ip_checksum e bs) in
      let body = (icmp_bytes e (record icmp { cksum = c }) ++ quote) ++ bs in
      (length body ≡ 8 + (length quote + length bs)) × (ip_checksum e body ≡ 0)
error_sum4 e icmp quote bs fit hq even hb =
    let all : List ℕ = quote ++ bs in
    let c : ℕ =
      ones_add (ip_checksum e (icmp_bytes e (record icmp { cksum = 0 }) ++ quote))
        (ip_checksum e bs) in
    let sum = quote_sum e icmp quote bs fit hq even hb in
    let long : length all ≡ length quote + length bs = length-append quote bs in
    let whole = message-sum e icmp all c fit (All-append quote bs hq hb) sum.0 in
    let flat : (icmp_bytes e (record icmp { cksum = c }) ++ quote) ++ bs
        ≡ icmp_bytes e (record icmp { cksum = c }) ++ all =
      append_assoc (icmp_bytes e (record icmp { cksum = c })) quote bs in
    subst
      (λ (body : List ℕ). (length body ≡ 8 + (length quote + length bs)) × (ip_checksum e body ≡ 0))
      (sym flat)
      (
        length-icmp_bytes e (record icmp { cksum = c }) all ∙ ap (λ (t : ℕ). 8 + t) long,
        ip_checksum-zero e _ whole.0 (omega (arith, whole.1, sum.1)),
      )

-- For fields that fit their widths and an even number of quoted bytes, `write_error4` writes one packet
-- that passes the checks of `handle_ip4`.
pub write_error4-IsChecked4 :
    (e : Endian) (p : Pkt6) (i : Icmp) (quote bs : List ℕ) (src dest counter : ℕ)
    → p.data_proto ≡ 58
    → HasOffset e p.ip6_frag
    → counter < 2 ^ 16
    → src < 2 ^ 32
    → dest < 2 ^ 32
    → IsIcmp (fresh_icmp e i 0)
    → All IsByte quote
    → length quote % 2 ≡ 0
    → All IsByte bs
    → length quote + length bs ≤ 65507
    → let r = write_error4 e p i quote bs src dest counter in
      (h : Ip4Header) × (body : List ℕ) × (r.0 ≡ written none (packet4 h body) ∷ [])
      × (h.src ≡ src)
      × (h.dest ≡ dest)
      × (h.proto ≡ 1)
      × (h.ttl ≡ decrement p.ip6.hop_limit)
      × (length body ≡ 8 + (length quote + length bs))
      × IsChecked4 e h body
unfolding write_error4 xlate_header_6to4 with_checksum
write_error4-IsChecked4 e p i quote bs src dest counter proto off small hs hd fit hq even hb l =
    let n : ℕ = 8 + length quote + length bs in
    let made = (xlate_header_6to4 e p src dest n counter).0 in
    let header : Ip4Header = record made { ttl = decrement made.ttl } in
    let fits = header_fits e p src dest counter (omega (arith, proto)) small off hs hd n in
    let sum = error_sum4 e (fresh_icmp e i 0) quote bs fit hq even hb in
    (
      _,
      _,
      refl,
      refl,
      refl,
      rw proto refl,
      refl,
      sum.0,
      (
        refl,
        rw proto refl,
        omega (arith, sum.0),
        header_checksum-zero e header fits.0 refl,
        sum.1,
        htons-htons e (20 + n) (omega arith) ∙ omega (arith, sum.0),
      ),
    )
