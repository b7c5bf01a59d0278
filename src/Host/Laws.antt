-- ===== src/Host/Laws.antt =====
-- The ICMP messages that src/nat64.c sends for the translator itself: their checksums, their lengths,
-- and what they quote.
use tayga.Base.{
  ℕ, ◌+◌, ◌%◌, ◌^◌, ◌≤◌, ◌<◌, ◌≡◌, refl, ◌∙◌, arith, none, List, [], ◌∷◌, ◌++◌, length, drop, All,
}
use tayga.Word.{Endian, big, little, htons, u16}
use tayga.Walk.{byte}
use tayga.Checksum.{load, halves, ip_checksum}
use tayga.Checksum.Bytes.{sum16, IsByte, ip_checksum_lem}
use tayga.Packet.{
  Ip4Header, IcmpHeader, get_u32, word_bytes, ip4_bytes, icmp_bytes, header_checksum, packet4,
  written,
}
use tayga.Packet.Sums.{
  IsIp4, IsIcmp, pair, All-append, sum16-icmp_bytes, sum16-icmp_header, icmp_bytes-IsByte,
  ip_checksum-zero, ones_add-complements, header_checksum-zero,
}
use tayga.Host.{with_checksum, icmp_sum, host_send_icmp4}

-- A 16-bit field as the receiver reads it.
pub htons-htons : (e : Endian) (n : ℕ) → n < 2 ^ 16 → htons e (htons e (u16 n)) ≡ n
unfolding htons
htons-htons big n h = omega arith
htons-htons little n h = omega arith

pub htons-lt : (e : Endian) (n : ℕ) → htons e (u16 n) < 2 ^ 16
unfolding htons
htons-lt big n = omega arith
htons-lt little n = omega arith

-- The message that `icmp_sum` completes.
pub icmp_sum_lem :
    (e : Endian) (icmp : IcmpHeader) (bs : List ℕ)
    → IsIcmp icmp
    → All IsByte bs
    → (icmp_sum e icmp bs < 2 ^ 16)
      × ((pair e icmp.type icmp.code + halves icmp.word + sum16 e bs + icmp_sum e icmp bs) % 65535
          ≡ 0)
unfolding icmp_sum
icmp_sum_lem e icmp bs i h =
    let low = ip_checksum_lem e bs h in
    let front =
      ip_checksum_lem e (icmp_bytes e (record icmp { cksum = 0 }))
        (icmp_bytes-IsByte e icmp 0 i (omega arith)) in
    let header = sum16-icmp_header e icmp 0 (omega arith) i.word in
    let sum =
      ones_add-complements (65535 + sum16 e bs)
        (65535 + sum16 e (icmp_bytes e (record icmp { cksum = 0 }))) in
    rw (low, front) (sum.1, omega (arith, sum.0, header))

-- What `handle_ip4` asks of an ICMP packet, but for its addresses and its fragment fields: version 4
-- and a header of 20 bytes, the protocol, both checksums, and a length that counts the data, which
-- hold the ICMP header.
abbrev pub IsChecked4 : Endian → Ip4Header → List ℕ → Type 0
IsChecked4 e h body =
    (h.ver_ihl ≡ 0x45)
    × (h.proto ≡ 1)
    × (8 ≤ length body)
    × (ip_checksum e (ip4_bytes e h) ≡ 0)
    × (ip_checksum e body ≡ 0)
    × (htons e h.length ≡ 20 + length body)

-- And of its ICMP header: the type, the code and the second word, with the data behind it.
abbrev pub HasIcmp : Endian → IcmpHeader → List ℕ → List ℕ → Type 0
HasIcmp e icmp bs body =
    (byte 0 body ≡ icmp.type)
    × (byte 1 body ≡ icmp.code)
    × (get_u32 e 1 body ≡ icmp.word)
    × (drop 8 body ≡ bs)

load-word_bytes : (e : Endian) (w : ℕ) → w < 2 ^ 32 → load e (word_bytes e w) ≡ w
load-word_bytes big w h = omega arith
load-word_bytes little w h = omega arith

pub icmp_bytes-HasIcmp :
    (e : Endian) (icmp : IcmpHeader) (c : ℕ) (bs : List ℕ)
    → icmp.word < 2 ^ 32
    → HasIcmp e icmp bs (icmp_bytes e (record icmp { cksum = c }) ++ bs)
unfolding icmp_bytes get_u32
icmp_bytes-HasIcmp e icmp c bs h = (refl, refl, load-word_bytes e icmp.word h, refl)

-- The message is whole: it sums to zero with what stands in front.
pub message-sum :
    (e : Endian) (icmp : IcmpHeader) (bs : List ℕ) (c : ℕ)
    → IsIcmp icmp
    → All IsByte bs
    → c < 2 ^ 16
    → All IsByte (icmp_bytes e (record icmp { cksum = c }) ++ bs)
      × (sum16 e (icmp_bytes e (record icmp { cksum = c }) ++ bs)
          ≡ pair e icmp.type icmp.code + halves icmp.word + sum16 e bs + c)
message-sum e icmp bs c i h k = (
  All-append (icmp_bytes e (record icmp { cksum = c })) bs (icmp_bytes-IsByte e icmp c i k) h,
  omega (arith, sum16-icmp_bytes e icmp c bs k i.word),
)

pub length-icmp_bytes :
    (e : Endian) (icmp : IcmpHeader) (bs : List ℕ)
    → length (icmp_bytes e icmp ++ bs) ≡ 8 + length bs
unfolding icmp_bytes
length-icmp_bytes e icmp bs = omega arith

-- For fields that fit their widths and data of at most 65507 bytes, `host_send_icmp4` writes one
-- packet, between the addresses it was given, with a TTL of 64 and no fragment, that passes the
-- checks of `handle_ip4` on anything but the addresses: version, header length, protocol, total
-- length and both checksums. Its message has the type, the code, the word and the data it was given.
pub host_send_icmp4-IsChecked4 :
    (e : Endian) (tos src dest : ℕ) (icmp : IcmpHeader) (bs : List ℕ)
    → tos < 256
    → src < 2 ^ 32
    → dest < 2 ^ 32
    → IsIcmp icmp
    → All IsByte bs
    → length bs ≤ 65507
    → (h : Ip4Header) × (body : List ℕ) × (host_send_icmp4 e tos src dest icmp bs
        ≡ written none (packet4 h body) ∷ [])
      × (h.src ≡ src)
      × (h.dest ≡ dest)
      × (h.ttl ≡ 64)
      × (h.flags_offset ≡ 0)
      × IsChecked4 e h body
      × HasIcmp e icmp bs body
unfolding host_send_icmp4 with_checksum
host_send_icmp4-IsChecked4 e tos src dest icmp bs t s d i h l =
    let c = icmp_sum e icmp bs in
    let sum = icmp_sum_lem e icmp bs i h in
    let whole = message-sum e icmp bs c i h (sum.0) in
    let header : Ip4Header = record {
      ver_ihl = 0x45;
      tos = tos;
      length = htons e (u16 (20 + 8 + length bs));
      ident = 0;
      flags_offset = 0;
      ttl = 64;
      proto = 1;
      cksum = 0;
      src = src;
      dest = dest;
    } in
    let fits : IsIp4 header = record {
      ver_ihl = omega arith;
      tos = t;
      length = htons-lt e (20 + 8 + length bs);
      ident = omega arith;
      flags_offset = omega arith;
      ttl = omega arith;
      proto = omega arith;
      src = s;
      dest = d;
    } in
    (
      record header { cksum = header_checksum e header },
      icmp_bytes e (record icmp { cksum = c }) ++ bs,
      refl,
      refl,
      refl,
      refl,
      refl,
      (
        refl,
        refl,
        omega (arith, length-icmp_bytes e (record icmp { cksum = c }) bs),
        header_checksum-zero e header fits refl,
        ip_checksum-zero e _ whole.0 (omega (arith, whole.1, sum.1)),
        htons-htons e (20 + 8 + length bs) (omega arith)
            ∙ omega (arith, length-icmp_bytes e (record icmp { cksum = c }) bs),
      ),
      icmp_bytes-HasIcmp e icmp c bs i.word,
    )
