-- ===== src/Translate/Sent4.antt =====
-- The IPv4 packets that `xlate_6to4_data` of src/nat64.c writes.
use tayga.Base.{
  ℕ, ◌+◌, ◌-◌, ◌/◌, ◌%◌, ◌^◌, ◌≤◌, ◌<◌, ◌≡◌, refl, sym, ap, ◌∙◌, subst, ◌⊎◌, inl, inr, arith, false,
  if◌then◌else◌, leb, ltb, bit_or, Bool-cases, leb→le, Bool, List, [], ◌∷◌, Option, none, some, All,
  length, bit_and_lt, bit_or_lt, bit_and_mask,
}
use tayga.Word.{Endian, htonl, htons}
use tayga.Checksum.{ip_checksum}
use tayga.Checksum.Bytes.{IsByte}
use tayga.Fragment.{is_set, ip4_f_df, ip4_f_mf, ip6_size}
use tayga.Addr.{Status}
use tayga.Prefix.{ok, err}
use tayga.Payload.{Translated}
use tayga.Payload.Keeps.{Keeps, fails, keeps}
use tayga.Payload6.{xlate_payload_6to4, ip6_f_mf}
use tayga.Payload6.Keeps.{xlate_payload_6to4-Keeps}
use tayga.Ident.{next_ip4_ident}
use tayga.Packet.{Vnet, Ip4Header, Ip6Frag, ip4_bytes, packet4, Event, written, dropped}
use tayga.Packet.Sums.{IsIp4, header_checksum-zero}
use tayga.Host.{Pkt6, with_checksum}
use tayga.Host.Laws.{htons-htons, htons-lt}
use tayga.Translate.{Config, decrement, flags_6to4, ident_6to4, xlate_header_6to4}
use tayga.Translate.Headers.{swap16, swap16-lt}
use tayga.Translate.Data6.{segment6, write4, send_6to4}

-- The fields that the header is made of fit their widths.
pub record IsFit6 (p : Pkt6) (counter : ℕ) : Type 0 where
  pub hop_limit : p.ip6.hop_limit < 256
  pub live : 1 ≤ p.ip6.hop_limit
  pub proto : p.data_proto < 256
  pub counter_small : counter < 2 ^ 16
  pub bytes : All IsByte p.payload

-- RFC 7915, section 5.1, for a packet without a fragment header: up to 1260 bytes it gets an
-- identification and may be fragmented; a larger one has DF and no identification.
abbrev pub IsIdentified : Endian → Option Ip6Frag → ℕ → ℕ → ℕ → ℕ → ℕ → Type 0
IsIdentified e (some f) total ident flags counter next = next ≡ counter
IsIdentified e none total ident flags counter next =
    ((total ≤ 1260) × (flags ≡ 0) × (htons e ident ≡ counter) × (next ≡ (counter + 1) % 2 ^ 16))
    ⊎ ((1260 < total) × (htons e flags ≡ 0x4000) × (ident ≡ 0) × (next ≡ counter))

flags_small : (off : ℕ) → off < 2 ^ 16 → flags_6to4 off < 2 ^ 16
unfolding flags_6to4
flags_small off h =
    let shifted : off / 2 ^ 3 < 2 ^ 14 = omega arith in
    let set = bit_or_lt 14 (off / 2 ^ 3) ip4_f_mf shifted (omega arith) in
    bit_and_lt 16 (if is_set off ip6_f_mf then bit_or (off / 2 ^ 3) ip4_f_mf else off / 2 ^ 3)
      (0xffff - ip4_f_df) (ground arith)

-- A fragment header's field, if there is one.
abbrev pub HasOffset : Endian → Option Ip6Frag → Type 0
HasOffset e none = Unit
HasOffset e (some f) = htons e f.offset_flags < 2 ^ 16

ident_6to4_lem :
    (e : Endian) (o : Option Ip6Frag) (total counter : ℕ) (h : Ip4Header)
    → HasOffset e o
    → counter < 2 ^ 16
    → h.ident ≡ (ident_6to4 e o total counter).0
    → h.flags_offset ≡ (ident_6to4 e o total counter).1
    → (h.ident < 2 ^ 16)
      × (h.flags_offset < 2 ^ 16)
      × IsIdentified e o total h.ident h.flags_offset counter (ident_6to4 e o total counter).2
unfolding ident_6to4
ident_6to4_lem e (some f) total counter h off c i k = (
  omega (arith, i, htons-lt e (htonl e f.ident)),
  omega (arith, k, swap16-lt e (flags_6to4 (htons e f.offset_flags)) (flags_small _ off)),
  refl,
)
ident_6to4_lem e none total counter h off c i k = elim (Bool-cases (leb total 1260)) [
  | inl short ↦
      let ident : h.ident ≡ htons e counter = rw short at i in
      let flags : h.flags_offset ≡ 0 = rw short at k in
      let small : total ≤ 1260 = leb→le total 1260 short in
      rw short (
        omega (arith, ident, swap16-lt e counter c),
        omega (arith, flags),
        inl (small, flags, ap (htons e) ident ∙ swap16 e counter c, refl),
      )
  | inr long ↦
      let ident : h.ident ≡ 0 = rw long at i in
      let flags : h.flags_offset ≡ htons e ip4_f_df = rw long at k in
      let large : 1260 < total = ground arith in
      rw long (
        omega (arith, ident),
        omega (arith, flags, swap16-lt e ip4_f_df (omega arith)),
        inr (large, ap (htons e) flags ∙ swap16 e ip4_f_df (omega arith), ident, refl),
      )
]

-- A translated packet: its header passes the check of `handle_ip4` and counts the data, which is as
-- long as it was; the addresses are those given, and the TTL is one less.
abbrev IsMade4 : Endian → Pkt6 → ℕ → ℕ → ℕ → ℕ → Ip4Header → List ℕ → Type 0
IsMade4 e p src dest counter next h bs =
    (ip_checksum e (ip4_bytes e h) ≡ 0)
    × (length bs ≡ length p.payload)
    × (htons e h.length ≡ 20 + length bs)
    × (h.src ≡ src)
    × (h.dest ≡ dest)
    × (h.ttl + 1 ≡ p.ip6.hop_limit)
    × IsIdentified e p.ip6_frag (20 + length bs) h.ident h.flags_offset counter next

-- One drop, if the data cannot be translated, and else one IPv4 packet with the translated data.
pub data IsSent4 (e : Endian) (p : Pkt6) (src dest counter next : ℕ)
    : Translated → List Event → Type 0 where
  drops : {r : Status} → IsSent4 e p src dest counter next (err r) (dropped ∷ [])
  sends :
      {v : Option Vnet} {h : Ip4Header} {bs : List ℕ} {needs : Bool}
      → IsMade4 e p src dest counter next h bs
      → IsSent4 e p src dest counter next (ok (bs, needs)) (written v (packet4 h bs) ∷ [])

ident_next :
    (e : Endian) (o : Option Ip6Frag) (total counter : ℕ)
    → counter < 2 ^ 16
    → (ident_6to4 e o total counter).2 < 2 ^ 16
unfolding ident_6to4 next_ip4_ident
ident_next e (some h) total counter small = small
ident_next e none total counter small = elim (Bool-cases (leb total 1260)) [
  | inl short ↦ rw short (omega arith)
  | inr long ↦ rw long small
]

module _ (e : Endian) (p : Pkt6) (src dest counter : ℕ) where
  pub header_next :
      (n : ℕ) → counter < 2 ^ 16 → (xlate_header_6to4 e p src dest n counter).1 < 2 ^ 16
  unfolding xlate_header_6to4
  header_next n small = ident_next e p.ip6_frag (20 + n) counter small

  pub header_fits :
      p.data_proto < 256
      → counter < 2 ^ 16
      → HasOffset e p.ip6_frag
      → src < 2 ^ 32
      → dest < 2 ^ 32
      → (n : ℕ)
      → let made = (xlate_header_6to4 e p src dest n counter).0 in
        IsIp4 (record made { ttl = decrement made.ttl })
        × IsIdentified e p.ip6_frag
            (20 + n)
            made.ident
            made.flags_offset
            counter
            (xlate_header_6to4 e p src dest n counter).1
  unfolding xlate_header_6to4
  header_fits data_proto small off hs hd n =
      let made = (xlate_header_6to4 e p src dest n counter).0 in
      let ident = ident_6to4_lem e p.ip6_frag (20 + n) counter made off small refl refl in
      (
        record {
          ver_ihl = omega arith;
          tos = omega (arith, bit_and_mask 8 (htonl e p.ip6.ver_tc_fl / 2 ^ 20));
          length = htons-lt e (20 + n);
          ident = ident.0;
          flags_offset = ident.1;
          ttl = omega arith;
          proto = ground (arith, data_proto);
          src = hs;
          dest = hd;
        },
        ident.2,
      )

  write4-IsSent4 :
      (h : Ip4Header) (next : ℕ) (t : Translated)
      → IsIp4 h
      → h.cksum ≡ 0
      → h.src ≡ src
      → h.dest ≡ dest
      → h.ttl + 1 ≡ p.ip6.hop_limit
      → htons e h.length ≡ 20 + length p.payload
      → IsIdentified e p.ip6_frag (20 + length p.payload) h.ident h.flags_offset counter next
      → Keeps p.payload t
      → IsSent4 e p src dest counter next t (write4 e p h t)
  unfolding write4 with_checksum
  write4-IsSent4 h next t fit z s d ttl len ident fails = drops
  write4-IsSent4 h next t fit z s d ttl len ident (keeps {bs} kept bytes) = sends (
    header_checksum-zero e h fit z,
    kept,
    omega (arith, len, kept),
    s,
    d,
    ttl,
    subst (λ (n : ℕ). IsIdentified e p.ip6_frag (20 + n) h.ident h.flags_offset counter next)
        (sym kept) ident,
  )

-- For a packet whose fields fit and which fits the MTU, 65515 at most, `send_6to4` drops it, once, if
-- its data cannot be translated, and else writes exactly one IPv4 packet: the translated data between
-- the mapped addresses with a TTL of one less, the length of the data, a header checksum that is valid and, without a fragment header, the identification and DF of RFC 7915:
-- up to 1260 bytes the next identification and no DF, above it DF and no identification.
pub send_6to4-IsSent4 :
    (c : Config) (p : Pkt6) (src dest counter : ℕ)
    → IsFit6 p counter
    → HasOffset c.endian p.ip6_frag
    → src < 2 ^ 32
    → dest < 2 ^ 32
    → 40 + length p.payload ≤ c.mtus.mtu
    → c.mtus.mtu ≤ 65515
    → let r = send_6to4 c p src dest counter in
      IsSent4 c.endian p src dest counter r.1
        (xlate_payload_6to4 c.endian c.offload false src dest (segment6 c.endian p))
        r.0
unfolding send_6to4
send_6to4-IsSent4 c p src dest counter fit off hs hd room mtu =
    let e = c.endian in
    let n : ℕ = length p.payload in
    let made = (xlate_header_6to4 e p src dest n counter).0 in
    let next : ℕ = (xlate_header_6to4 e p src dest n counter).1 in
    let small : ltb c.mtus.mtu (ip6_size + n) ≡ false = ground arith in
    let good = header_fits e p src dest counter fit.proto fit.counter_small off hs hd n in
    rw small (
      write4-IsSent4 e p src dest counter (record made { ttl = decrement made.ttl }) next
        (xlate_payload_6to4 e c.offload false src dest (segment6 e p)) good.0 refl refl refl
        (omega (arith, fit.live, fit.hop_limit)) (htons-htons e (20 + n) (omega arith)) good.1
        (xlate_payload_6to4-Keeps e c.offload false src dest (segment6 e p) fit.bytes))
