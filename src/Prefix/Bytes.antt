-- ===== src/Prefix/Bytes.antt =====
-- `append_to_prefix` against the picture of RFC 6052, and `extract_from_prefix` as its inverse, on a
-- host of either byte order.
use tayga.Base.{
  ℕ, ◌+◌, ◌-◌, ◌*◌, ◌/◌, ◌%◌, ◌^◌, ◌<◌, ◌≡◌, refl, ap₂, ◌⊎◌, arith, List, [], ◌∷◌, ◌++◌, take, drop,
  replicate, if◌then◌else◌, ◌==◌,
}
use tayga.Word.{Endian, big, little, htonl, octet}
use tayga.Addr.{In6Addr, memory_byte}

-- The bytes of a word and of an address as they lie in memory.
abbrev pub in_memory : Endian → ℕ → List ℕ
in_memory e w = memory_byte e w 0 ∷ memory_byte e w 1 ∷ memory_byte e w 2 ∷ memory_byte e w 3 ∷ []

abbrev pub in6_bytes : Endian → In6Addr → List ℕ
in6_bytes e a = in_memory e a.w0 ++ (in_memory e a.w1 ++ (in_memory e a.w2 ++ in_memory e a.w3))

-- RFC 6052, section 2.2: the prefix, the address behind it, a zero byte kept at byte 8 (but for
-- /96), and zeros up to byte 16.
abbrev with_u : List ℕ → List ℕ
with_u xs = take 8 xs ++ (0 ∷ drop 8 xs)

abbrev pub embed : List ℕ → List ℕ → ℕ → List ℕ
embed p v len =
    if len == 96 then take 12 p ++ v else take 16 (with_u (take (len / 8) p ++ v) ++ replicate 16 0)

abbrev pub IsIn6 : In6Addr → Type 0
IsIn6 a = (a.w0 < 2 ^ 32) × (a.w1 < 2 ^ 32) × (a.w2 < 2 ^ 32) × (a.w3 < 2 ^ 32)

-- The lengths that RFC 6052 allows.
abbrev pub IsPrefixLen : ℕ → Type 0
IsPrefixLen len = (len ≡ 32) ⊎ (len ≡ 40) ⊎ (len ≡ 48) ⊎ (len ≡ 56) ⊎ (len ≡ 64) ⊎ (len ≡ 96)

-- The second word of the prefix has no bit below the prefix length.
abbrev pub HasClearHostBits : Endian → In6Addr → ℕ → Type 0
HasClearHostBits e p len = htonl e p.w1 % 2 ^ (64 - len) ≡ 0

abbrev pub octets : ℕ → List ℕ
octets h = octet h 3 ∷ octet h 2 ∷ octet h 1 ∷ octet h 0 ∷ []

memory_octet :
    (e : Endian) (w : ℕ)
    → w < 2 ^ 32
    → (memory_byte e w 0 ≡ octet (htonl e w) 3)
      × (memory_byte e w 1 ≡ octet (htonl e w) 2)
      × (memory_byte e w 2 ≡ octet (htonl e w) 1)
      × (memory_byte e w 3 ≡ octet (htonl e w) 0)
unfolding htonl
memory_octet big w h = omega arith
memory_octet little w h = omega arith

list4 :
    {a b c d a' b' c' d' : ℕ}
    → (a ≡ a') × (b ≡ b') × (c ≡ c') × (d ≡ d')
    → a ∷ b ∷ c ∷ d ∷ [] ≡ a' ∷ b' ∷ c' ∷ d' ∷ []
list4 h = cc (h.0, h.1, h.2, h.3)

pub in_memory-octets : (e : Endian) (w : ℕ) → w < 2 ^ 32 → in_memory e w ≡ octets (htonl e w)
in_memory-octets e w h = list4 (memory_octet e w h)

abbrev pub octets16 : ℕ → ℕ → ℕ → ℕ → List ℕ
octets16 a b c d = octets a ++ (octets b ++ (octets c ++ octets d))

pub in6_bytes-octets :
    (e : Endian) (a : In6Addr)
    → IsIn6 a
    → in6_bytes e a ≡ octets16 (htonl e a.w0) (htonl e a.w1) (htonl e a.w2) (htonl e a.w3)
in6_bytes-octets e a h = ap₂ ◌++◌ (in_memory-octets e a.w0 h.0) (
    ap₂ ◌++◌ (in_memory-octets e a.w1 h.1)
      (ap₂ ◌++◌ (in_memory-octets e a.w2 h.2) (in_memory-octets e a.w3 h.3)))

octets16_eq :
    (a b c d : ℕ) (ws xs ys zs : List ℕ)
    → octets a ≡ ws
    → octets b ≡ xs
    → octets c ≡ ys
    → octets d ≡ zs
    → octets16 a b c d ≡ ws ++ (xs ++ (ys ++ zs))
octets16_eq a b c d ws xs ys zs p q r s = ap₂ ◌++◌ p (ap₂ ◌++◌ q (ap₂ ◌++◌ r s))

-- The same picture over the numbers that the words stand for.
abbrev pub Pictured : ℕ → ℕ → ℕ → ℕ → ℕ → ℕ → ℕ → ℕ → ℕ → ℕ → Type 0
Pictured len p0 p1 p2 p3 v q0 q1 q2 q3 =
    octets16 q0 q1 q2 q3 ≡ embed (octets16 p0 p1 p2 p3) (octets v) len

module _ (p0 p1 p2 p3 v q1 q2 : ℕ) (fits : v < 2 ^ 32) where
  pub Pictured40 :
      p1 % 2 ^ 24 ≡ 0
      → q1 ≡ p1 + v / 2 ^ 8
      → q2 ≡ v % 2 ^ 8 * 2 ^ 16
      → Pictured 40 p0 p1 p2 p3 v p0 q1 q2 0
  Pictured40 z e1 e2 =
      octets16_eq p0 q1 q2 0 (octets p0) (octet p1 3 ∷ octet v 3 ∷ octet v 2 ∷ octet v 1 ∷ [])
        (0 ∷ octet v 0 ∷ 0 ∷ 0 ∷ []) (octets 0) refl (list4 (omega arith)) (list4 (omega arith))
        refl

  pub Pictured48 :
      p1 % 2 ^ 16 ≡ 0
      → q1 ≡ p1 + v / 2 ^ 16
      → q2 ≡ v % 2 ^ 16 * 2 ^ 8
      → Pictured 48 p0 p1 p2 p3 v p0 q1 q2 0
  Pictured48 z e1 e2 =
      octets16_eq p0 q1 q2 0 (octets p0) (octet p1 3 ∷ octet p1 2 ∷ octet v 3 ∷ octet v 2 ∷ [])
        (0 ∷ octet v 1 ∷ octet v 0 ∷ 0 ∷ []) (octets 0) refl (list4 (omega arith))
        (list4 (omega arith)) refl

  pub Pictured56 :
      p1 % 2 ^ 8 ≡ 0 → q1 ≡ p1 + v / 2 ^ 24 → q2 ≡ v % 2 ^ 24 → Pictured 56 p0 p1 p2 p3 v p0 q1 q2 0
  Pictured56 z e1 e2 =
      octets16_eq p0 q1 q2 0 (octets p0) (octet p1 3 ∷ octet p1 2 ∷ octet p1 1 ∷ octet v 3 ∷ [])
        (0 ∷ octet v 2 ∷ octet v 1 ∷ octet v 0 ∷ []) (octets 0) refl (list4 (omega arith))
        (list4 (omega arith)) refl

  pub Pictured64 : q1 ≡ v / 2 ^ 8 → q2 ≡ v % 2 ^ 8 * 2 ^ 24 → Pictured 64 p0 p1 p2 p3 v p0 p1 q1 q2
  Pictured64 e1 e2 =
      octets16_eq p0 p1 q1 q2 (octets p0) (octets p1) (0 ∷ octet v 3 ∷ octet v 2 ∷ octet v 1 ∷ [])
        (octet v 0 ∷ 0 ∷ 0 ∷ 0 ∷ []) refl refl (list4 (omega arith)) (list4 (omega arith))
