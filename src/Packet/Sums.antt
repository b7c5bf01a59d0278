-- ===== src/Packet/Sums.antt =====
-- The one's complement sums of the headers as they lie in memory.
use tayga.Base.{
  ℕ, zero, suc, ◌+◌, ◌-◌, ◌%◌, ◌^◌, ◌≤◌, ◌<◌, ◌≡◌, sym, ap, ◌∙◌, arith, List, [], ◌∷◌, ◌++◌, All,
  take, drop,
}
use tayga.Word.{Endian, big, little}
use tayga.Checksum.{load, halves, ip_checksum, ones_add, ip4_header_checksum}
use tayga.Checksum.Bytes.{ones, sum16, IsByte, ip_checksum_lem}
use tayga.Checksum.Laws.{ones_add_lem, ip4_header_checksum_lem}
use tayga.Packet.{
  Ip4Header, IcmpHeader, half_bytes, word_bytes, get_u32, ip4_bytes, icmp_bytes, header_checksum,
}

-- Fields that fit their widths.
pub record IsIp4 (h : Ip4Header) : Type 0 where
  pub ver_ihl : h.ver_ihl < 256
  pub tos : h.tos < 256
  pub length : h.length < 2 ^ 16
  pub ident : h.ident < 2 ^ 16
  pub flags_offset : h.flags_offset < 2 ^ 16
  pub ttl : h.ttl < 256
  pub proto : h.proto < 256
  pub src : h.src < 2 ^ 32
  pub dest : h.dest < 2 ^ 32

pub record IsIcmp (h : IcmpHeader) : Type 0 where
  pub type : h.type < 256
  pub code : h.code < 256
  pub word : h.word < 2 ^ 32

abbrev pub pair : Endian → ℕ → ℕ → ℕ
pair e b0 b1 = load e (b0 ∷ b1 ∷ [])

pub sum16-half_bytes :
    (e : Endian) (v : ℕ) (bs : List ℕ)
    → v < 2 ^ 16
    → sum16 e (half_bytes e v ++ bs) ≡ v + sum16 e bs
unfolding sum16
sum16-half_bytes big v bs h = omega arith
sum16-half_bytes little v bs h = omega arith

pub sum16-word_bytes :
    (e : Endian) (w : ℕ) (bs : List ℕ)
    → w < 2 ^ 32
    → sum16 e (word_bytes e w ++ bs) ≡ halves w + sum16 e bs
unfolding sum16
sum16-word_bytes big w bs h = omega arith
sum16-word_bytes little w bs h = omega arith

pub half_bytes-IsByte : (e : Endian) (v : ℕ) → v < 2 ^ 16 → All IsByte (half_bytes e v)
half_bytes-IsByte big v h = omega arith
half_bytes-IsByte little v h = omega arith

pub word_bytes-IsByte : (e : Endian) (w : ℕ) → All IsByte (word_bytes e w)
word_bytes-IsByte big w = omega arith
word_bytes-IsByte little w = omega arith

pub All-append : (xs ys : List ℕ) → All IsByte xs → All IsByte ys → All IsByte (xs ++ ys)
All-append [] ys h k = k
All-append (x ∷ xs) ys h k = (h.0, All-append xs ys h.1 k)

pub All-take : (n : ℕ) (xs : List ℕ) → All IsByte xs → All IsByte (take n xs)
All-take zero xs h = tt
All-take (suc n) [] h = tt
All-take (suc n) (x ∷ xs) h = (h.0, All-take n xs h.1)

pub All-drop : (n : ℕ) (xs : List ℕ) → All IsByte xs → All IsByte (drop n xs)
All-drop zero xs h = h
All-drop (suc n) [] h = tt
All-drop (suc n) (x ∷ xs) h = All-drop n xs h.1

-- An ICMP header with any checksum, before the data.
pub sum16-icmp_bytes :
    (e : Endian) (h : IcmpHeader) (c : ℕ) (bs : List ℕ)
    → c < 2 ^ 16
    → h.word < 2 ^ 32
    → sum16 e (icmp_bytes e (record h { cksum = c }) ++ bs)
      ≡ pair e h.type h.code + c + halves h.word + sum16 e bs
unfolding icmp_bytes sum16
sum16-icmp_bytes big h c bs k w = omega arith
sum16-icmp_bytes little h c bs k w = omega arith

pub sum16-icmp_header :
    (e : Endian) (h : IcmpHeader) (c : ℕ)
    → c < 2 ^ 16
    → h.word < 2 ^ 32
    → sum16 e (icmp_bytes e (record h { cksum = c })) ≡ pair e h.type h.code + c + halves h.word
unfolding icmp_bytes sum16
sum16-icmp_header big h c k w = omega arith
sum16-icmp_header little h c k w = omega arith

pub icmp_bytes-IsByte :
    (e : Endian) (h : IcmpHeader) (c : ℕ)
    → IsIcmp h
    → c < 2 ^ 16
    → All IsByte (icmp_bytes e (record h { cksum = c }))
unfolding icmp_bytes
icmp_bytes-IsByte big h c i k = omega arith
icmp_bytes-IsByte little h c i k = omega arith

-- Checksums of zero are those of data that sums to a multiple of 65535.
pub ip_checksum-zero :
    (e : Endian) (bs : List ℕ) → All IsByte bs → sum16 e bs % 65535 ≡ 0 → ip_checksum e bs ≡ 0
ip_checksum-zero e bs h z = ground (arith, ip_checksum_lem e bs h)

-- Two complements add up to the complement of the sum.
pub ones_add-complements :
    (x y : ℕ)
    → let ck = ones_add (65535 - ones x) (65535 - ones y) in
      ((x + y + ck) % 65535 ≡ 0) × (ck < 2 ^ 16)
ones_add-complements x y =
    ground (arith, ones_add_lem (65535 - ones x) (65535 - ones y) (omega arith) (omega arith))

-- Two half words loaded as one word.
load_pairs :
    (e : Endian) (b0 b1 b2 b3 : ℕ)
    → b0 < 256
    → b1 < 256
    → b2 < 256
    → b3 < 256
    → let w = load e (b0 ∷ b1 ∷ b2 ∷ b3 ∷ []) in
      (w < 2 ^ 32) × (w % 65535 ≡ (pair e b0 b1 + pair e b2 b3) % 65535) × (pair e b0 b1 ≤ w)
load_pairs big b0 b1 b2 b3 h0 h1 h2 h3 = (omega arith, omega arith, omega arith)
load_pairs little b0 b1 b2 b3 h0 h1 h2 h3 = (omega arith, omega arith, omega arith)

cancels : (w s : ℕ) → w % 65535 ≡ s % 65535 → (65535 - ones w + s) % 65535 ≡ 0
cancels w s h = ground arith

-- The checksum of five words cancels the sum of their half words.
five_words :
    (e : Endian) (b0 b1 b2 b3 b4 b5 b6 b7 b8 b9 c0 c1 c2 c3 c4 c5 c6 c7 c8 c9 : ℕ)
    → let bs =
        b0 ∷ b1 ∷ b2 ∷ b3 ∷ b4 ∷ b5 ∷ b6 ∷ b7 ∷ b8 ∷ b9 ∷ c0 ∷ c1 ∷ c2 ∷ c3 ∷ c4 ∷ c5 ∷ c6 ∷ c7 ∷ c8
        ∷ c9 ∷ [] in
      All IsByte bs
      → (ip4_header_checksum
              (get_u32 e 0 bs)
              (get_u32 e 1 bs)
              (get_u32 e 2 bs)
              (get_u32 e 3 bs)
              (get_u32 e 4 bs)
            + sum16 e bs)
          % 65535
        ≡ 0
unfolding get_u32 sum16
five_words e b0 b1 b2 b3 b4 b5 b6 b7 b8 b9 c0 c1 c2 c3 c4 c5 c6 c7 c8 c9 h =
    let l0 = load_pairs e b0 b1 b2 b3 (omega arith) (omega arith) (omega arith) (omega arith) in
    let l1 = load_pairs e b4 b5 b6 b7 (omega arith) (omega arith) (omega arith) (omega arith) in
    let l2 = load_pairs e b8 b9 c0 c1 (omega arith) (omega arith) (omega arith) (omega arith) in
    let l3 = load_pairs e c2 c3 c4 c5 (omega arith) (omega arith) (omega arith) (omega arith) in
    let l4 = load_pairs e c6 c7 c8 c9 (omega arith) (omega arith) (omega arith) (omega arith) in
    rw
      (ip4_header_checksum_lem (load e (b0 ∷ b1 ∷ b2 ∷ b3 ∷ [])) (load e (b4 ∷ b5 ∷ b6 ∷ b7 ∷ []))
        (load e (b8 ∷ b9 ∷ c0 ∷ c1 ∷ [])) (load e (c2 ∷ c3 ∷ c4 ∷ c5 ∷ []))
        (load e (c6 ∷ c7 ∷ c8 ∷ c9 ∷ [])) l0.0 l1.0 l2.0 l3.0 l4.0)
      (cancels _ _ (omega (arith, l0.1, l1.1, l2.1, l3.1, l4.1)))

sum16-ip4_bytes :
    (e : Endian) (h : Ip4Header) (c : ℕ)
    → IsIp4 h
    → c < 2 ^ 16
    → sum16 e (ip4_bytes e (record h { cksum = c }))
      ≡ sum16 e (ip4_bytes e (record h { cksum = 0 })) + c
unfolding ip4_bytes sum16
sum16-ip4_bytes big h c i k = omega arith
sum16-ip4_bytes little h c i k = omega arith

pub ip4_bytes-IsByte :
    (e : Endian) (h : Ip4Header) (c : ℕ)
    → IsIp4 h
    → c < 2 ^ 16
    → All IsByte (ip4_bytes e (record h { cksum = c }))
unfolding ip4_bytes
ip4_bytes-IsByte big h c i k = omega arith
ip4_bytes-IsByte little h c i k = omega arith

header_checksum-lt : (e : Endian) (h : Ip4Header) → header_checksum e h < 2 ^ 16
unfolding header_checksum ip4_header_checksum
header_checksum-lt e h = omega arith

header_checksum-cancels :
    (e : Endian) (h : Ip4Header)
    → IsIp4 h
    → h.cksum ≡ 0
    → (header_checksum e h + sum16 e (ip4_bytes e h)) % 65535 ≡ 0
unfolding header_checksum ip4_bytes
header_checksum-cancels e h i z =
    five_words e _ _ _ _ _ _ _ _ _ _ _ _ _ _ _ _ _ _ _ _
      (ip4_bytes-IsByte e h h.cksum i (omega arith))

-- A header whose checksum was computed with a field of zero passes `ip_checksum`.
pub header_checksum-zero :
    (e : Endian) (h : Ip4Header)
    → IsIp4 h
    → h.cksum ≡ 0
    → ip_checksum e (ip4_bytes e (record h { cksum = header_checksum e h })) ≡ 0
header_checksum-zero e h i z =
    let c = header_checksum e h in
    let k = header_checksum-lt e h in
    let same : sum16 e (ip4_bytes e (record h { cksum = 0 })) ≡ sum16 e (ip4_bytes e h) =
      ap (λ (n : ℕ). sum16 e (ip4_bytes e (record h { cksum = n }))) (sym z) in
    ip_checksum-zero e (ip4_bytes e (record h { cksum = c })) (ip4_bytes-IsByte e h c i k) (
      ap (λ (n : ℕ). n % 65535) (sum16-ip4_bytes e h c i k ∙ omega (arith, same))
      ∙ header_checksum-cancels e h i z)
