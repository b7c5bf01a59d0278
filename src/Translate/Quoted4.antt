-- ===== src/Translate/Quoted4.antt =====
-- The packet that an ICMP error quotes, in `xlate_4to6_icmp_error` of src/nat64.c: its fields are
-- bytes, its data is cut to the minimal MTU, and the new headers are made of bytes.
use tayga.Base.{
  ℕ, zero, suc, ◌+◌, ◌-◌, ◌*◌, ◌%◌, ◌^◌, ◌≤◌, ◌<◌, ◌≡◌, refl, sym, subst, arith, Bool, true, false,
  not, ◌&&◌, if◌then◌else◌, ◌==◌, ltb, Bool-cases, inl, inr, Option, none, some, List, [], ◌∷◌,
  ◌++◌, All, length, length-append, take, drop, bit_or,
}
use tayga.Word.{Endian, big, little, htons}
use tayga.Addr.{In6Addr}
use tayga.Checksum.Bytes.{IsByte}
use tayga.Fragment.{is_set, ip4_f_mask, ip4_f_mf, ip6_size}
use tayga.Icmp.{mtu_min}
use tayga.Parse.{Ip4, Pkt, icmp_size, behind, parse_ip4}
use tayga.Walk.{byte}
use tayga.Packet.{
  get_u32, Ip6Header, Ip6Frag, in6_memory, ip6_bytes, frag_bytes, read_ip4, read_icmp, Frame, Pkt4,
  pkt4, host_ip4, parse_frame4,
}
use tayga.Packet.Sums.{All-append, All-take, All-drop}
use tayga.Host.Laws.{htons-lt}
use tayga.Translate.{xlate_header_4to6}
use tayga.Translate.Fits.{Gives, nothing, just, choose}
use tayga.Translate.Error4.{
  embedded, quoted4, em_frag_len, cut4, answerable, quoted_packet4, parse_quoted4, embedded4,
  header_em, frag_em, em_bytes,
}
use tayga.Translate.Safety.{byte-lt}
use tayga.Translate.Safety4.{branch}

pub get_u32-lt : (e : Endian) (k : ℕ) (bs : List ℕ) → All IsByte bs → get_u32 e k bs < 2 ^ 32
unfolding get_u32
get_u32-lt e zero [] h = omega arith
get_u32-lt e zero (b0 ∷ []) h = omega arith
get_u32-lt e zero (b0 ∷ b1 ∷ []) h = omega arith
get_u32-lt e zero (b0 ∷ b1 ∷ b2 ∷ []) h = omega arith
get_u32-lt big zero (b0 ∷ b1 ∷ b2 ∷ b3 ∷ bs) h = omega arith
get_u32-lt little zero (b0 ∷ b1 ∷ b2 ∷ b3 ∷ bs) h = omega arith
get_u32-lt e (suc k) [] h = omega arith
get_u32-lt e (suc k) (b0 ∷ []) h = omega arith
get_u32-lt e (suc k) (b0 ∷ b1 ∷ []) h = omega arith
get_u32-lt e (suc k) (b0 ∷ b1 ∷ b2 ∷ []) h = omega arith
get_u32-lt e (suc k) (b0 ∷ b1 ∷ b2 ∷ b3 ∷ bs) h = get_u32-lt e k bs h.1.1.1.1

pub record IsQuoted (q : Pkt4) : Type 0 where
  pub src : q.ip4.src < 2 ^ 32
  pub dest : q.ip4.dest < 2 ^ 32
  pub ttl : q.ip4.ttl < 256
  pub proto : q.data_proto < 256
  pub bytes : All IsByte q.payload

parse_ip4-proto :
    (e : Endian) (em : Bool) (h : Ip4) (n : ℕ)
    → Gives (λ (k : Pkt). k.data_proto ≡ h.proto) (parse_ip4 e em h n)
unfolding parse_ip4 behind
parse_ip4-proto e em h n =
    let found : Gives (λ (k : Pkt). k.data_proto ≡ h.proto) (some (behind h n)) = just refl in
    search (choose, nothing, found)

pkt4-IsQuoted :
    (e : Endian) (f : Frame) (o : Option Pkt)
    → All IsByte f.raw
    → Gives (λ (k : Pkt). k.data_proto ≡ byte 9 f.raw) o
    → Gives IsQuoted (pkt4 e f o)
unfolding read_ip4
pkt4-IsQuoted e f none h nothing = nothing
pkt4-IsQuoted e f (some k) h (just same) = just (record {
  src = get_u32-lt e 3 f.raw h;
  dest = get_u32-lt e 4 f.raw h;
  ttl = byte-lt 8 f.raw h;
  proto = subst (λ (t : ℕ). t < 256) (sym same) (byte-lt 9 f.raw h);
  bytes = All-take _ _ (All-drop _ f.raw h);
})

parse_frame4-IsQuoted :
    (e : Endian) (em : Bool) (f : Frame) → All IsByte f.raw → Gives IsQuoted (parse_frame4 e em f)
unfolding parse_frame4 read_ip4
parse_frame4-IsQuoted e em f h =
    pkt4-IsQuoted e f _ h (parse_ip4-proto e em (host_ip4 e (read_ip4 e f.raw)) (length f.raw))

-- And its data leaves room for the new headers.
pub record IsCut (e : Endian) (q : Pkt4) : Type 0 where
  pub quoted : IsQuoted q
  pub room : 88 + em_frag_len e q + length q.payload ≤ 1280

pub take_bound : (n : ℕ) (xs : List ℕ) → length (take n xs) ≤ n
take_bound zero xs = omega arith
take_bound (suc n) [] = omega arith
take_bound (suc n) (x ∷ xs) = omega (arith, take_bound n xs)

em_frag_len_bound : (e : Endian) (q : Pkt4) → em_frag_len e q ≤ 8
em_frag_len_bound e q = ground arith

cut4-IsCut : (e : Endian) (q : Pkt4) → IsQuoted q → IsCut e (cut4 e q)
unfolding cut4
cut4-IsCut e q h =
    let most = mtu_min - ip6_size * 2 - icmp_size - em_frag_len e q in
    let all = ip6_size * 2 + icmp_size + em_frag_len e q + length q.payload in
    elim (Bool-cases (ltb mtu_min all)) [
      | inl long ↦ rw long (record {
        quoted = record {
          src = h.src;
          dest = h.dest;
          ttl = h.ttl;
          proto = h.proto;
          bytes = All-take most q.payload h.bytes;
        };
        room = omega (arith, take_bound most q.payload, em_frag_len_bound e q);
      })
      | inr fits ↦ rw fits (record { quoted = h; room = ground arith })
    ]

answerable-IsCut : (e : Endian) (q : Pkt4) → IsQuoted q → Gives (IsCut e) (answerable e q)
answerable-IsCut e q h =
    choose (q.data_proto == 1 && not ((read_icmp e q.payload).type == 8)) nothing
      (just (cut4-IsCut e q h))

quoted_packet4-IsCut :
    (e : Endian) (o : Option Pkt4) → Gives IsQuoted o → Gives (IsCut e) (quoted_packet4 e o)
quoted_packet4-IsCut e none nothing = nothing
quoted_packet4-IsCut e (some q) (just h) = answerable-IsCut e q h

quoted4-IsByte : (e : Endian) (p : Pkt4) → All IsByte p.payload → Gives (All IsByte) (quoted4 e p)
unfolding quoted4
quoted4-IsByte e p h =
    let rest : List ℕ = drop icmp_size p.payload in
    let bytes : All IsByte rest = All-drop icmp_size p.payload h in
    let cut : (n : ℕ) → Gives (All IsByte) (some (take n rest)) =
      λ n. just (All-take n rest bytes) in
    let kept : Gives (All IsByte) (some rest) = just bytes in search (choose, nothing, cut, kept)

parse_quoted4-IsCut :
    (e : Endian) (o : Option (List ℕ)) → Gives (All IsByte) o → Gives (IsCut e) (parse_quoted4 e o)
parse_quoted4-IsCut e none nothing = nothing
parse_quoted4-IsCut e (some bs) (just h) =
    quoted_packet4-IsCut e _ (parse_frame4-IsQuoted e true (embedded bs) h)

pub embedded4-IsCut :
    (e : Endian) (p : Pkt4) → All IsByte p.payload → Gives (IsCut e) (embedded4 e p)
unfolding embedded4
embedded4-IsCut e p h = parse_quoted4-IsCut e _ (quoted4-IsByte e p h)

-- Any IPv6 header in memory.
ip6_bytes-IsByte :
    (e : Endian) (h : Ip6Header)
    → h.payload_length < 2 ^ 16
    → h.next_header < 256
    → h.hop_limit < 256
    → All IsByte (ip6_bytes e h) × (length (ip6_bytes e h) ≡ 40)
unfolding ip6_bytes in6_memory
ip6_bytes-IsByte big h len next hop = (omega arith, refl)
ip6_bytes-IsByte little h len next hop = (omega arith, refl)

frag_bytes-IsByte :
    (e : Endian) (h : Ip6Frag)
    → h.next_header < 256
    → h.reserved < 256
    → h.offset_flags < 2 ^ 16
    → All IsByte (frag_bytes e h) × (length (frag_bytes e h) ≡ 8)
unfolding frag_bytes
frag_bytes-IsByte big h next reserved off = (omega arith, refl)
frag_bytes-IsByte little h next reserved off = (omega arith, refl)

proto_bound : (proto : ℕ) → proto < 256 → (if proto == 1 then 58 else proto) < 256
proto_bound proto h = ground arith

header_em-fits :
    (e : Endian) (q : Pkt4) (src dest : In6Addr)
    → IsQuoted q
    → let h = header_em e q src dest in
      (h.payload_length < 2 ^ 16) × (h.next_header < 256) × (h.hop_limit < 256)
unfolding header_em xlate_header_4to6
header_em-fits e q src dest h =
    let len = htons e q.ip4.length - q.header_len + em_frag_len e q in
    let small = htons-lt e (if ltb 0xffff len then 0xffff else len) in
    branch
      (λ (h6 : Ip6Header).
        (h6.payload_length < 2 ^ 16) × (h6.next_header < 256) × (h6.hop_limit < 256))
      (em_frag_len e q == 0) (small, proto_bound q.data_proto h.proto, h.ttl)
      (small, omega arith, h.ttl)

-- A header of 40 bytes, and one of 8 if `b`.
append_quote :
    (xs ys : List ℕ) (b : Bool)
    → All IsByte xs × (length xs ≡ 40)
    → All IsByte ys × (length ys ≡ 8)
    → let n : ℕ = if b then 8 else 0 in
      let zs : List ℕ = xs ++ (if n == 0 then [] else ys) in
      All IsByte zs × (length zs ≡ 40 + n) × (length zs % 2 ≡ 0)
append_quote xs ys true h k = (
  All-append xs ys h.0 k.0,
  omega (arith, length-append xs ys, h.1, k.1),
  omega (arith, length-append xs ys, h.1, k.1),
)
append_quote xs ys false h k = (
  All-append xs [] h.0 tt,
  omega (arith, length-append {A = ℕ} xs [], h.1),
  omega (arith, length-append {A = ℕ} xs [], h.1),
)

-- The headers before the quoted data.
pub em_bytes-IsByte :
    (e : Endian) (q : Pkt4) (src dest : In6Addr)
    → IsQuoted q
    → All IsByte (em_bytes e q src dest)
      × (length (em_bytes e q src dest) ≡ 40 + em_frag_len e q)
      × (length (em_bytes e q src dest) % 2 ≡ 0)
unfolding em_bytes frag_em xlate_header_4to6
em_bytes-IsByte e q src dest h =
    let fits = header_em-fits e q src dest h in
    append_quote (ip6_bytes e (header_em e q src dest))
      (frag_bytes e (frag_em e q (xlate_header_4to6 e q src dest 0).next_header))
      (is_set (htons e q.ip4.flags_offset) (bit_or ip4_f_mask ip4_f_mf))
      (ip6_bytes-IsByte e (header_em e q src dest) fits.0 fits.1 fits.2)
      (frag_bytes-IsByte e (frag_em e q (xlate_header_4to6 e q src dest 0).next_header)
        (proto_bound q.data_proto h.proto) (omega arith) (htons-lt e _))
