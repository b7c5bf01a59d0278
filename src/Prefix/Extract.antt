-- ===== src/Prefix/Extract.antt =====
-- What `extract_from_prefix` accepts and what it returns, for each prefix length that RFC 6052 allows.
use tayga.Base.{
  ℕ, ◌+◌, ◌*◌, ◌/◌, ◌%◌, ◌^◌, bit_and, ◌≡◌, arith, bit_and_split, bit_and_mask, ◌&&◌, ◌==◌,
  if◌then◌else◌, none, some,
}
use tayga.Word.{Endian, htonl}
use tayga.Word.Laws.{masked_zero, htonl-lt}
use tayga.Addr.{In6Addr}
use tayga.Addr.Laws.{first_byte}
use tayga.Prefix.{extract_words}
use tayga.Prefix.Bytes.{IsIn6}
use tayga.Prefix.Take.{take40, take48, take56, take64}

mask40 : (x : ℕ) → bit_and x 0xff00ffff ≡ x / 2 ^ 24 % 2 ^ 8 * 2 ^ 24 + x % 2 ^ 24 % 2 ^ 16
mask40 x = ground (
  arith,
  bit_and_split 24 x 0xff00ffff,
  bit_and_mask 8 (x / 2 ^ 24),
  bit_and_mask 16 (x % 2 ^ 24),
)

mask48 : (x : ℕ) → bit_and x 0xff0000ff ≡ x / 2 ^ 24 % 2 ^ 8 * 2 ^ 24 + x % 2 ^ 24 % 2 ^ 8
mask48 x =
    ground (
      arith,
      bit_and_split 24 x 0xff0000ff,
      bit_and_mask 8 (x / 2 ^ 24),
      bit_and_mask 8 (x % 2 ^ 24),
    )

pub extract40 :
    (e : Endian) (q : In6Addr)
    → IsIn6 q
    → extract_words e q 40 ≡ (
        if htonl e q.w2 / 2 ^ 24 == 0 && htonl e q.w2 % 2 ^ 16 == 0 && q.w3 == 0
        then some (htonl e (htonl e q.w1 % 2 ^ 24 * 2 ^ 8 + htonl e q.w2 / 2 ^ 16))
        else none)
unfolding extract_words
extract40 e q h = ground (
  arith,
  masked_zero e q.w2 0xff00ffff h.2,
  mask40 (htonl e q.w2),
  htonl-lt e q.w2 h.2,
  take40 e q.w1 q.w2 h.1 h.2,
)

pub extract48 :
    (e : Endian) (q : In6Addr)
    → IsIn6 q
    → extract_words e q 48 ≡ (
        if htonl e q.w2 / 2 ^ 24 == 0 && htonl e q.w2 % 2 ^ 8 == 0 && q.w3 == 0
        then some (htonl e (htonl e q.w1 % 2 ^ 16 * 2 ^ 16 + htonl e q.w2 / 2 ^ 8))
        else none)
unfolding extract_words
extract48 e q h = ground (
  arith,
  masked_zero e q.w2 0xff0000ff h.2,
  mask48 (htonl e q.w2),
  htonl-lt e q.w2 h.2,
  take48 e q.w1 q.w2 h.1 h.2,
)

pub extract56 :
    (e : Endian) (q : In6Addr)
    → IsIn6 q
    → extract_words e q 56 ≡ (
        if htonl e q.w2 / 2 ^ 24 == 0 && q.w3 == 0
        then some (htonl e (htonl e q.w1 % 2 ^ 8 * 2 ^ 24 + htonl e q.w2))
        else none)
unfolding extract_words
extract56 e q h = ground (arith, first_byte e q.w2 h.2, take56 e q.w1 q.w2 h.1 h.2)

pub extract64 :
    (e : Endian) (q : In6Addr)
    → IsIn6 q
    → extract_words e q 64 ≡ (
        if htonl e q.w2 / 2 ^ 24 == 0 && htonl e q.w3 % 2 ^ 24 == 0
        then some (htonl e (htonl e q.w2 * 2 ^ 8 + htonl e q.w3 / 2 ^ 24))
        else none)
unfolding extract_words
extract64 e q h = ground (
  arith,
  first_byte e q.w2 h.2,
  masked_zero e q.w3 0x00ffffff h.3,
  bit_and_mask 24 (htonl e q.w3),
  take64 e q.w2 q.w3 h.2 h.3,
)
