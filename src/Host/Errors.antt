-- ===== src/Host/Errors.antt =====
-- The ICMP errors of src/nat64.c: when one is sent, and how much of the packet in question it quotes.
use Prim.Native.Nat.{min}
use tayga.Base.{
  ℕ, zero, suc, ◌+◌, ◌^◌, ◌≤◌, ◌<◌, ◌≡◌, ◌≢◌, refl, ap, ◌∙◌, ◌⊎◌, inl, inr, arith, ◌&&◌, not,
  if◌then◌else◌, ◌==◌, ltb, Bool-cases, none, List, [], ◌∷◌, length, take, drop, All,
}
use tayga.Word.{Endian, htonl, htons, u32}
use tayga.Word.Laws.{htonl-lt}
use tayga.Addr.{In6Addr}
use tayga.Prefix.Bytes.{IsIn6}
use tayga.Checksum.Bytes.{IsByte}
use tayga.Walk.{byte}
use tayga.Packet.{Ip4Header, Ip6Header, IcmpHeader, read_icmp, packet4, packet6, written, Pkt4}
use tayga.Packet.Sums.{IsIcmp, All-take}
use tayga.Host.{
  quote_max, quote_max6, Pkt6, host_send_icmp4, host_send_icmp4_error, host_send_icmp6,
  host_send_icmp6_error,
}
use tayga.Host.Laws.{IsChecked4, HasIcmp, host_send_icmp4-IsChecked4}
use tayga.Host.Laws6.{IsChecked6, host_send_icmp6-IsChecked6}

length-take : (n : ℕ) (xs : List ℕ) → length (take n xs) ≡ min n (length xs)
length-take zero xs = omega arith
length-take (suc n) [] = omega arith
length-take (suc n) (x ∷ xs) = omega (arith, length-take n xs)

length-drop : (n : ℕ) (xs : List ℕ) → length xs ≤ n + length (drop n xs)
length-drop zero xs = omega arith
length-drop (suc n) [] = omega arith
length-drop (suc n) (x ∷ xs) = omega (arith, length-drop n xs)

-- The header of an error.
abbrev pub error_header : Endian → ℕ → ℕ → ℕ → IcmpHeader
error_header e type code word = record {
  type = type;
  code = code;
  cksum = 0;
  word = htonl e (u32 word);
}

error_header-IsIcmp :
    (e : Endian) (type code word : ℕ)
    → type < 256
    → code < 256
    → IsIcmp (error_header e type code word)
error_header-IsIcmp e type code word t c = record {
  type = t;
  code = c;
  word = htonl-lt e (u32 word) (omega arith);
}

-- An answer to ICMP other than an echo request.
abbrev pub IsUnanswered : ℕ → ℕ → ℕ → ℕ → Type 0
IsUnanswered icmp echo proto type = (proto ≡ icmp) × (type ≢ echo)

pub error_turn4 :
    (e : Endian) (own : ℕ) (type code word : ℕ) (p : Pkt4)
    → host_send_icmp4_error e own type code word p ≡ (
        if p.data_proto == 1 && not (byte 0 p.payload == 8)
        then []
        else host_send_icmp4 e 0 own p.ip4.src (error_header e type code word) (
            take
              (if ltb quote_max (u32 (p.header_len + length p.payload))
                then quote_max
                else u32 (p.header_len + length p.payload))
              p.frame.raw))
unfolding host_send_icmp4_error read_icmp
error_turn4 e own type code word p = refl

-- For an original of fewer than 2 ^ 32 bytes, of which the frame holds all, `host_send_icmp4_error` sends
-- nothing exactly for ICMP that is no echo request; otherwise it sends one packet of at most 576 bytes
-- to the source of the original, which passes the checks of `handle_ip4` on anything but the
-- addresses and quotes the first 548 bytes of the original, or all.
pub host_send_icmp4_error_lem :
    (e : Endian) (own type code word : ℕ) (p : Pkt4)
    → own < 2 ^ 32
    → p.ip4.src < 2 ^ 32
    → type < 256
    → code < 256
    → All IsByte p.frame.raw
    → p.header_len + length p.payload ≤ length p.frame.raw
    → p.header_len + length p.payload < 2 ^ 32
    → (IsUnanswered 1 8 p.data_proto (byte 0 p.payload)
        × (host_send_icmp4_error e own type code word p ≡ []))
      ⊎ (¬ (IsUnanswered 1 8 p.data_proto (byte 0 p.payload))
          × ((h : Ip4Header) × (body : List ℕ) × (host_send_icmp4_error e own type code word p
                ≡ written none (packet4 h body) ∷ [])
              × (h.src ≡ own)
              × (h.dest ≡ p.ip4.src)
              × (htons e h.length ≤ 576)
              × (h.flags_offset ≡ 0)
              × IsChecked4 e h body
              × HasIcmp e
                  (error_header e type code word)
                  (take (min 548 (p.header_len + length p.payload)) p.frame.raw)
                  body))
host_send_icmp4_error_lem e own type code word p o s t c bytes whole small =
    let n : ℕ = p.header_len + length p.payload in
    let cut : (if ltb quote_max (u32 n) then quote_max else u32 n) ≡ min 548 n = ground arith in
    let quoted : List ℕ = take (min 548 n) p.frame.raw in
    let len : length quoted ≡ min 548 n = length-take (min 548 n) p.frame.raw ∙ omega arith in
    let (h, body, sent, src, dest, ttl, whole_packet, checked, icmp) =
      host_send_icmp4-IsChecked4 e 0 own p.ip4.src (error_header e type code word) quoted
        (omega arith) o s (error_header-IsIcmp e type code word t c)
        (All-take (min 548 n) p.frame.raw bytes) (omega (arith, len)) in
    let whole_len : length body ≤ 8 + min 548 n =
      omega (arith, length-drop 8 body, ap length (icmp.3), len) in
    let asked = p.data_proto == 1 && not (byte 0 p.payload == 8) in
    elim (Bool-cases asked) [
      | inl refused ↦
          inl ((ground arith, ground arith), error_turn4 e own type code word p ∙ rw refused)
      | inr answered ↦ inr (
        λ x. ground (arith, x.0, x.1),
        (
          h,
          body,
          error_turn4 e own type code word p
              ∙ rw answered (
                  ap
                    (λ (t : ℕ).
                      host_send_icmp4 e 0 own p.ip4.src (error_header e type code word)
                        (take t p.frame.raw))
                    cut)
              ∙ sent,
          src,
          dest,
          omega (arith, checked, whole_len),
          whole_packet,
          checked,
          icmp,
        ),
      )
    ]

pub error_turn6 :
    (e : Endian) (own : In6Addr) (type code word : ℕ) (p : Pkt6)
    → host_send_icmp6_error e own type code word p ≡ (
        if p.data_proto == 58 && not (byte 0 p.payload == 128)
        then []
        else host_send_icmp6 e 0 own p.ip6.src (error_header e type code word) (
            take
              (if ltb quote_max6 (u32 (40 + p.header_len + length p.payload))
                then quote_max6
                else u32 (40 + p.header_len + length p.payload))
              p.frame.raw))
unfolding host_send_icmp6_error read_icmp
error_turn6 e own type code word p = refl

-- For an original of fewer than 2 ^ 32 bytes, of which the frame holds all, `host_send_icmp6_error` sends
-- nothing exactly for ICMPv6 that is no echo request; otherwise it sends one packet of at most 1280
-- bytes to the source of the original, which passes the checks of `handle_ip6` on anything but the
-- addresses and quotes the first 1232 bytes of the original, or all.
pub host_send_icmp6_error_lem :
    (e : Endian) (own : In6Addr) (type code word : ℕ) (p : Pkt6)
    → IsIn6 own
    → IsIn6 p.ip6.src
    → type < 256
    → code < 256
    → All IsByte p.frame.raw
    → 40 + p.header_len + length p.payload ≤ length p.frame.raw
    → 40 + p.header_len + length p.payload < 2 ^ 32
    → (IsUnanswered 58 128 p.data_proto (byte 0 p.payload)
        × (host_send_icmp6_error e own type code word p ≡ []))
      ⊎ (¬ (IsUnanswered 58 128 p.data_proto (byte 0 p.payload))
          × ((h : Ip6Header) × (body : List ℕ) × (host_send_icmp6_error e own type code word p
                ≡ written none (packet6 h body) ∷ [])
              × (h.src ≡ own)
              × (h.dest ≡ p.ip6.src)
              × (40 + length body ≤ 1280)
              × IsChecked6 e h body
              × HasIcmp e
                  (error_header e type code word)
                  (take (min 1232 (40 + p.header_len + length p.payload)) p.frame.raw)
                  body))
host_send_icmp6_error_lem e own type code word p o s t c bytes whole small =
    let n : ℕ = 40 + p.header_len + length p.payload in
    let cut : (if ltb quote_max6 (u32 n) then quote_max6 else u32 n) ≡ min 1232 n = ground arith in
    let quoted : List ℕ = take (min 1232 n) p.frame.raw in
    let len : length quoted ≡ min 1232 n = length-take (min 1232 n) p.frame.raw ∙ omega arith in
    let (h, body, sent, src, dest, ttl, checked, icmp) =
      host_send_icmp6-IsChecked6 e 0 own p.ip6.src (error_header e type code word) quoted
        (omega arith) o s (error_header-IsIcmp e type code word t c)
        (All-take (min 1232 n) p.frame.raw bytes) (omega (arith, len)) in
    let whole_len : length body ≤ 8 + min 1232 n =
      omega (arith, length-drop 8 body, ap length (icmp.3), len) in
    let asked = p.data_proto == 58 && not (byte 0 p.payload == 128) in
    elim (Bool-cases asked) [
      | inl refused ↦
          inl ((ground arith, ground arith), error_turn6 e own type code word p ∙ rw refused)
      | inr answered ↦ inr (
        λ x. ground (arith, x.0, x.1),
        (
          h,
          body,
          error_turn6 e own type code word p
              ∙ rw answered (
                  ap
                    (λ (t : ℕ).
                      host_send_icmp6 e 0 own p.ip6.src (error_header e type code word)
                        (take t p.frame.raw))
                    cut)
              ∙ sent,
          src,
          dest,
          omega (arith, whole_len),
          checked,
          icmp,
        ),
      )
    ]
