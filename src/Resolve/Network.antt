-- ===== src/Resolve/Network.antt =====
-- What `append_to_prefix` of src/addrmap.c makes lies in the prefix.
use tayga.Base.{
  ℕ, ◌/◌, ◌^◌, ◌<◌, bit_and, bit_or, ◌≡◌, refl, sym, ap, subst, ◌∙◌, arith, some, bit_or_parts,
  bit_or-zero, bit_or_lt, bit_and_lt, inl, inr,
}
use tayga.Word.{Endian, big, little, htonl, bswap32, shl32, shr}
use tayga.Word.Laws.{htonl-lt, htonl-bit_or}
use tayga.Addr.{In6Addr}
use tayga.Prefix.{append_words}
use tayga.Prefix.Bytes.{IsIn6, IsPrefixLen}
use tayga.Mask.Laws.{SamePrefix6}

-- `|` with what fits below `k` bits keeps the bits above.
kept :
    (e : Endian) (k w x : ℕ) → htonl e x < 2 ^ k → htonl e (bit_or w x) / 2 ^ k ≡ htonl e w / 2 ^ k
kept e k w x h =
    let none_above : htonl e x / 2 ^ k ≡ 0 = grind arith in
    ap (λ (t : ℕ). t / 2 ^ k) (htonl-bit_or e w x)
    ∙ (bit_or_parts k (htonl e w) (htonl e x)).0
    ∙ ap (bit_or (htonl e w / 2 ^ k)) none_above
    ∙ bit_or-zero (htonl e w / 2 ^ k)

far : (e : Endian) (w v : ℕ) → w < 2 ^ 32 → v < 2 ^ 32 → htonl e w / 2 ^ 32 ≡ htonl e v / 2 ^ 32
far e w v h k = omega (arith, htonl-lt e w h, htonl-lt e v k)

abbrev pub Lands : Endian → ℕ → In6Addr → ℕ → Type 0
Lands e a p len =
    (q : In6Addr) × (append_words e a p len ≡ some q) × SamePrefix6 e len q p × IsIn6 q

-- The layout of /40, /48 and /56: the second word is shared, and the rest is behind the prefix.
shared :
    (e : Endian) (k x y z : ℕ) (p : In6Addr)
    → IsIn6 p
    → htonl e x < 2 ^ k
    → x < 2 ^ 32
    → y < 2 ^ 32
    → z < 2 ^ 32
    → ((htonl e p.w0 / 2 ^ 0 ≡ htonl e p.w0 / 2 ^ 0)
        × (htonl e (bit_or p.w1 x) / 2 ^ k ≡ htonl e p.w1 / 2 ^ k)
        × (htonl e y / 2 ^ 32 ≡ htonl e p.w2 / 2 ^ 32)
        × (htonl e z / 2 ^ 32 ≡ htonl e p.w3 / 2 ^ 32))
      × (p.w0 < 2 ^ 32)
      × (bit_or p.w1 x < 2 ^ 32)
      × (y < 2 ^ 32)
      × (z < 2 ^ 32)
shared e k x y z p h l hx hy hz = (
  (refl, kept e k p.w1 x l, far e y p.w2 hy h.2, far e z p.w3 hz h.3),
  h.0,
  bit_or_lt 32 p.w1 x h.1 hx,
  hy,
  hz,
)

lands40 : (e : Endian) (a : ℕ) (p : In6Addr) → a < 2 ^ 32 → IsIn6 p → Lands e a p 40
unfolding append_words htonl bswap32
lands40 big a p ha h =
    let s =
      shared big 24 (shr a 8) (bit_and (shl32 a 16) 0x00ff0000) 0 p h (omega arith) (omega arith)
        (bit_and_lt 32 _ _ (omega arith)) (omega arith) in
    (_, refl, s.0, (s.1, s.2, s.3, s.4))
lands40 little a p ha h =
    let s =
      shared little 24 (shl32 a 8) (bit_and (shr a 16) 0x0000ff00) 0 p h (omega arith) (omega arith)
        (bit_and_lt 32 _ _ (omega arith)) (omega arith) in
    (_, refl, s.0, (s.1, s.2, s.3, s.4))

lands48 : (e : Endian) (a : ℕ) (p : In6Addr) → a < 2 ^ 32 → IsIn6 p → Lands e a p 48
unfolding append_words htonl bswap32
lands48 big a p ha h =
    let s =
      shared big 16 (shr a 16) (bit_and (shl32 a 8) 0x00ffff00) 0 p h (omega arith) (omega arith)
        (bit_and_lt 32 _ _ (omega arith)) (omega arith) in
    (_, refl, s.0, (s.1, s.2, s.3, s.4))
lands48 little a p ha h =
    let s =
      shared little 16 (shl32 a 16) (bit_and (shr a 8) 0x00ffff00) 0 p h (omega arith) (omega arith)
        (bit_and_lt 32 _ _ (omega arith)) (omega arith) in
    (_, refl, s.0, (s.1, s.2, s.3, s.4))

lands56 : (e : Endian) (a : ℕ) (p : In6Addr) → a < 2 ^ 32 → IsIn6 p → Lands e a p 56
unfolding append_words htonl bswap32
lands56 big a p ha h =
    let s =
      shared big 8 (shr a 24) (bit_and a 0x00ffffff) 0 p h (omega arith) (omega arith)
        (bit_and_lt 32 _ _ (omega arith)) (omega arith) in
    (_, refl, s.0, (s.1, s.2, s.3, s.4))
lands56 little a p ha h =
    let s =
      shared little 8 (shl32 a 24) (bit_and a 0xffffff00) 0 p h (omega arith) (omega arith)
        (bit_and_lt 32 _ _ (omega arith)) (omega arith) in
    (_, refl, s.0, (s.1, s.2, s.3, s.4))

lands32 : (e : Endian) (a : ℕ) (p : In6Addr) → a < 2 ^ 32 → IsIn6 p → Lands e a p 32
unfolding append_words
lands32 e a p ha h = (
  _,
  refl,
  (refl, far e a p.w1 ha h.1, far e 0 p.w2 (omega arith) h.2, far e 0 p.w3 (omega arith) h.3),
  (h.0, ha, omega arith, omega arith),
)

lands64 : (e : Endian) (a : ℕ) (p : In6Addr) → a < 2 ^ 32 → IsIn6 p → Lands e a p 64
unfolding append_words
lands64 big a p ha h = (
  _,
  refl,
  (
    refl,
    refl,
    far big (shr a 8) p.w2 (omega arith) h.2,
    far big (shl32 a 24) p.w3 (omega arith) h.3,
  ),
  (h.0, h.1, omega arith, omega arith),
)
lands64 little a p ha h = (
  _,
  refl,
  (
    refl,
    refl,
    far little (shl32 a 8) p.w2 (omega arith) h.2,
    far little (shr a 24) p.w3 (omega arith) h.3,
  ),
  (h.0, h.1, omega arith, omega arith),
)

lands96 : (e : Endian) (a : ℕ) (p : In6Addr) → a < 2 ^ 32 → IsIn6 p → Lands e a p 96
unfolding append_words
lands96 e a p ha h = (_, refl, (refl, refl, refl, far e a p.w3 ha h.3), (h.0, h.1, h.2, ha))

pub lands :
    (e : Endian) (a : ℕ) (p : In6Addr) (len : ℕ)
    → a < 2 ^ 32
    → IsIn6 p
    → IsPrefixLen len
    → Lands e a p len
lands e a p len ha h s = elim s [
  | inl q ↦ subst P (sym q) (lands32 e a p ha h)
  | inr s0 ↦ elim s0 [
    | inl q ↦ subst P (sym q) (lands40 e a p ha h)
    | inr s1 ↦ elim s1 [
      | inl q ↦ subst P (sym q) (lands48 e a p ha h)
      | inr s2 ↦ elim s2 [
        | inl q ↦ subst P (sym q) (lands56 e a p ha h)
        | inr s3 ↦ elim s3 [
          | inl q ↦ subst P (sym q) (lands64 e a p ha h)
          | inr q ↦ subst P (sym q) (lands96 e a p ha h)
        ]
      ]
    ]
  ]
]
  where
    P : ℕ → Type 0
    P l = Lands e a p l
