-- ===== src/Prefix/Words.antt =====
-- The words that `append_to_prefix` and `extract_from_prefix` compute for /40, /48, /56 and /64, as
-- the numbers that they stand for in network order.
use tayga.Base.{
  ℕ, ◌+◌, ◌*◌, ◌/◌, ◌%◌, ◌^◌, ◌<◌, bit_and, bit_or, ◌≡◌, ap, ◌∙◌, arith, bit_and_field, bit_or_add,
  bit_or_add',
}
use tayga.Word.{Endian, big, little, htonl, shl32, shr, bswap32, big_little}

pub join40 :
    (e : Endian) (a w : ℕ)
    → a < 2 ^ 32
    → w < 2 ^ 32
    → htonl e w % 2 ^ 24 ≡ 0
    → htonl e (big_little e (bit_or w (shr a 8)) (bit_or w (shl32 a 8)))
      ≡ htonl e w + htonl e a / 2 ^ 8
unfolding htonl
join40 big a w ha hw z =
    let whole : w ≡ w / 2 ^ 24 * 2 ^ 24 = omega arith in
    ap (λ (t : ℕ). bit_or t (a / 2 ^ 8)) whole
    ∙ bit_or_add 24 (w / 2 ^ 24) (a / 2 ^ 8) (omega arith)
    ∙ omega arith
join40 little a w ha hw z =
    let shifted : shl32 a 8 ≡ a % 2 ^ 24 * 2 ^ 8 = omega arith in
    let sum : bit_or w (shl32 a 8) ≡ a % 2 ^ 24 * 2 ^ 8 + w =
      ap (bit_or w) shifted ∙ bit_or_add' 8 (a % 2 ^ 24) w (omega arith) in
    ap bswap32 sum ∙ omega arith

pub join48 :
    (e : Endian) (a w : ℕ)
    → a < 2 ^ 32
    → w < 2 ^ 32
    → htonl e w % 2 ^ 16 ≡ 0
    → htonl e (big_little e (bit_or w (shr a 16)) (bit_or w (shl32 a 16)))
      ≡ htonl e w + htonl e a / 2 ^ 16
unfolding htonl
join48 big a w ha hw z =
    let whole : w ≡ w / 2 ^ 16 * 2 ^ 16 = omega arith in
    ap (λ (t : ℕ). bit_or t (a / 2 ^ 16)) whole
    ∙ bit_or_add 16 (w / 2 ^ 16) (a / 2 ^ 16) (omega arith)
    ∙ omega arith
join48 little a w ha hw z =
    let shifted : shl32 a 16 ≡ a % 2 ^ 16 * 2 ^ 16 = omega arith in
    let sum : bit_or w (shl32 a 16) ≡ a % 2 ^ 16 * 2 ^ 16 + w =
      ap (bit_or w) shifted ∙ bit_or_add' 16 (a % 2 ^ 16) w (omega arith) in
    ap bswap32 sum ∙ omega arith

pub join56 :
    (e : Endian) (a w : ℕ)
    → a < 2 ^ 32
    → w < 2 ^ 32
    → htonl e w % 2 ^ 8 ≡ 0
    → htonl e (big_little e (bit_or w (shr a 24)) (bit_or w (shl32 a 24)))
      ≡ htonl e w + htonl e a / 2 ^ 24
unfolding htonl
join56 big a w ha hw z =
    let whole : w ≡ w / 2 ^ 8 * 2 ^ 8 = omega arith in
    ap (λ (t : ℕ). bit_or t (a / 2 ^ 24)) whole
    ∙ bit_or_add 8 (w / 2 ^ 8) (a / 2 ^ 24) (omega arith)
    ∙ omega arith
join56 little a w ha hw z =
    let shifted : shl32 a 24 ≡ a % 2 ^ 8 * 2 ^ 24 = omega arith in
    let sum : bit_or w (shl32 a 24) ≡ a % 2 ^ 8 * 2 ^ 24 + w =
      ap (bit_or w) shifted ∙ bit_or_add' 24 (a % 2 ^ 8) w (omega arith) in
    ap bswap32 sum ∙ omega arith

pub tail40 :
    (e : Endian) (a : ℕ)
    → a < 2 ^ 32
    → htonl e (big_little e (bit_and (shl32 a 16) 0x00ff0000) (bit_and (shr a 16) 0x0000ff00))
      ≡ htonl e a % 2 ^ 8 * 2 ^ 16
unfolding htonl
tail40 big a h = bit_and_field 16 8 (shl32 a 16) ∙ omega arith
tail40 little a h = ap bswap32 (bit_and_field 8 8 (shr a 16)) ∙ omega arith

pub tail48 :
    (e : Endian) (a : ℕ)
    → a < 2 ^ 32
    → htonl e (big_little e (bit_and (shl32 a 8) 0x00ffff00) (bit_and (shr a 8) 0x00ffff00))
      ≡ htonl e a % 2 ^ 16 * 2 ^ 8
unfolding htonl
tail48 big a h = bit_and_field 8 16 (shl32 a 8) ∙ omega arith
tail48 little a h = ap bswap32 (bit_and_field 8 16 (shr a 8)) ∙ omega arith

pub tail56 :
    (e : Endian) (a : ℕ)
    → a < 2 ^ 32
    → htonl e (big_little e (bit_and a 0x00ffffff) (bit_and a 0xffffff00))
      ≡ htonl e a % 2 ^ 24 * 2 ^ 0
unfolding htonl
tail56 big a h = bit_and_field 0 24 a ∙ omega arith
tail56 little a h = ap bswap32 (bit_and_field 8 24 a) ∙ omega arith

pub middle64 :
    (e : Endian) (a : ℕ)
    → a < 2 ^ 32
    → htonl e (big_little e (shr a 8) (shl32 a 8)) ≡ htonl e a / 2 ^ 8
unfolding htonl
middle64 big a h = omega arith
middle64 little a h = omega arith

pub tail64 :
    (e : Endian) (a : ℕ)
    → a < 2 ^ 32
    → htonl e (big_little e (shl32 a 24) (shr a 24)) ≡ htonl e a % 2 ^ 8 * 2 ^ 24
unfolding htonl
tail64 big a h = omega arith
tail64 little a h = omega arith
