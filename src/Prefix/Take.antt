-- ===== src/Prefix/Take.antt =====
-- The address that `extract_from_prefix` reads back from the words of a /40, /48, /56 or /64, as the
-- number that it stands for in network order.
use tayga.Base.{
  ℕ, ◌+◌, ◌*◌, ◌/◌, ◌%◌, ◌^◌, ◌<◌, bit_or, ◌≡◌, ap, ◌∙◌, arith, bit_or_add, bit_or_add',
}
use tayga.Word.{Endian, big, little, htonl, shl32, shr, big_little}
use tayga.Addr.{memory_byte}
use tayga.Prefix.{second_half}

pub take40 :
    (e : Endian) (w x : ℕ)
    → w < 2 ^ 32
    → x < 2 ^ 32
    → htonl e x / 2 ^ 24 ≡ 0
    → htonl e x % 2 ^ 16 ≡ 0
    → big_little e (bit_or (shl32 w 8) (memory_byte e x 1)) (bit_or (shr w 8) (shl32 x 16))
      ≡ htonl e (htonl e w % 2 ^ 24 * 2 ^ 8 + htonl e x / 2 ^ 16)
unfolding htonl
take40 big w x hw hx z z' =
    let cut : shl32 w 8 ≡ w % 2 ^ 24 * 2 ^ 8 = omega arith in
    ap (λ (t : ℕ). bit_or t (memory_byte big x 1)) cut
    ∙ bit_or_add 8 (w % 2 ^ 24) (memory_byte big x 1) (omega arith)
    ∙ omega arith
take40 little w x hw hx z z' =
    let cut : shl32 x 16 ≡ x / 2 ^ 8 % 2 ^ 8 * 2 ^ 24 = omega arith in
    ap (bit_or (shr w 8)) cut
    ∙ bit_or_add' 24 (x / 2 ^ 8 % 2 ^ 8) (shr w 8) (omega arith)
    ∙ omega arith

pub take48 :
    (e : Endian) (w x : ℕ)
    → w < 2 ^ 32
    → x < 2 ^ 32
    → htonl e x / 2 ^ 24 ≡ 0
    → htonl e x % 2 ^ 8 ≡ 0
    → big_little e
        (bit_or (shl32 (second_half e w) 16) (shr x 8))
        (bit_or (second_half e w) (shl32 x 8))
      ≡ htonl e (htonl e w % 2 ^ 16 * 2 ^ 16 + htonl e x / 2 ^ 8)
unfolding htonl
take48 big w x hw hx z z' =
    let cut : shl32 (second_half big w) 16 ≡ w % 2 ^ 16 * 2 ^ 16 = omega arith in
    ap (λ (t : ℕ). bit_or t (shr x 8)) cut
    ∙ bit_or_add 16 (w % 2 ^ 16) (shr x 8) (omega arith)
    ∙ omega arith
take48 little w x hw hx z z' =
    let cut : shl32 x 8 ≡ x / 2 ^ 8 % 2 ^ 16 * 2 ^ 16 = omega arith in
    ap (bit_or (second_half little w)) cut
    ∙ bit_or_add' 16 (x / 2 ^ 8 % 2 ^ 16) (second_half little w) (omega arith)
    ∙ omega arith

pub take56 :
    (e : Endian) (w x : ℕ)
    → w < 2 ^ 32
    → x < 2 ^ 32
    → htonl e x / 2 ^ 24 ≡ 0
    → htonl e x % 2 ^ 0 ≡ 0
    → big_little e (bit_or (shl32 (memory_byte e w 3) 24) x) (bit_or (memory_byte e w 3) x)
      ≡ htonl e (htonl e w % 2 ^ 8 * 2 ^ 24 + htonl e x)
unfolding htonl
take56 big w x hw hx z z' =
    let cut : shl32 (memory_byte big w 3) 24 ≡ w % 2 ^ 8 * 2 ^ 24 = omega arith in
    ap (λ (t : ℕ). bit_or t x) cut ∙ bit_or_add 24 (w % 2 ^ 8) x (omega arith) ∙ omega arith
take56 little w x hw hx z z' =
    let cut : x ≡ x / 2 ^ 8 * 2 ^ 8 = omega arith in
    ap (bit_or (memory_byte little w 3)) cut
    ∙ bit_or_add' 8 (x / 2 ^ 8) (memory_byte little w 3) (omega arith)
    ∙ omega arith

pub take64 :
    (e : Endian) (w x : ℕ)
    → w < 2 ^ 32
    → x < 2 ^ 32
    → htonl e w / 2 ^ 24 ≡ 0
    → htonl e x % 2 ^ 24 ≡ 0
    → big_little e (bit_or (shl32 w 8) (memory_byte e x 0)) (bit_or (shr w 8) (shl32 x 24))
      ≡ htonl e (htonl e w * 2 ^ 8 + htonl e x / 2 ^ 24)
unfolding htonl
take64 big w x hw hx z z' =
    let cut : shl32 w 8 ≡ w % 2 ^ 24 * 2 ^ 8 = omega arith in
    ap (λ (t : ℕ). bit_or t (memory_byte big x 0)) cut
    ∙ bit_or_add 8 (w % 2 ^ 24) (memory_byte big x 0) (omega arith)
    ∙ omega arith
take64 little w x hw hx z z' =
    let cut : shl32 x 24 ≡ x % 2 ^ 8 * 2 ^ 24 = omega arith in
    ap (bit_or (shr w 8)) cut ∙ bit_or_add' 24 (x % 2 ^ 8) (shr w 8) (omega arith) ∙ omega arith
