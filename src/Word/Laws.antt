-- ===== src/Word/Laws.antt =====
-- The byte order of the host commutes with `&`, `|` and `~`, so a test of raw words against swapped
-- constants is the test of the numbers that they stand for.
use tayga.Base.{
  ℕ, ◌+◌, ◌*◌, ◌/◌, ◌%◌, ◌^◌, ◌<◌, bit_and, bit_or, ◌≡◌, refl, sym, ap, ◌∙◌, arith, ◌==◌, ==_congr,
  bit_and_lt, bit_and_parts, bit_or_parts, bit_and_split, bit_or_split,
}
use tayga.Word.{Endian, big, little, htonl, bswap32, octet, of_octets, not32}

pub htonl-lt : (e : Endian) (a : ℕ) → a < 2 ^ 32 → htonl e a < 2 ^ 32
unfolding htonl
htonl-lt big a h = h
htonl-lt little a h = omega arith

-- Swapping twice gives the word back.
pub htonl-htonl : (e : Endian) (a : ℕ) → a < 2 ^ 32 → htonl e (htonl e a) ≡ a
unfolding htonl
htonl-htonl big a h = refl
htonl-htonl little a h = omega arith

pub htonl_injective :
    (e : Endian) (a b : ℕ) → a < 2 ^ 32 → b < 2 ^ 32 → htonl e a ≡ htonl e b → a ≡ b
htonl_injective e a b ha hb p = sym (htonl-htonl e a ha) ∙ ap (htonl e) p ∙ htonl-htonl e b hb

octet-bit_and : (i a b : ℕ) → octet (bit_and a b) i ≡ bit_and (octet a i) (octet b i)
octet-bit_and i a b =
    rw ((bit_and_parts (8 * i) a b).0) ((bit_and_parts 8 (a / 2 ^ (8 * i)) (b / 2 ^ (8 * i))).1)

join-bit_and :
    (q r q' r' : ℕ)
    → r < 256
    → r' < 256
    → bit_and (q * 256 + r) (q' * 256 + r') ≡ bit_and q q' * 256 + bit_and r r'
join-bit_and q r q' r' h h' =
    let e1 : (q * 256 + r) / 2 ^ 8 ≡ q = omega arith in
    let e2 : (q' * 256 + r') / 2 ^ 8 ≡ q' = omega arith in
    let e3 : (q * 256 + r) % 2 ^ 8 ≡ r = omega arith in
    let e4 : (q' * 256 + r') % 2 ^ 8 ≡ r' = omega arith in
    ground (arith, bit_and_split 8 (q * 256 + r) (q' * 256 + r'), e1, e2, e3, e4)

of_octets_join : (b3 b2 b1 b0 : ℕ) → of_octets b3 b2 b1 b0 ≡ ((b3 * 256 + b2) * 256 + b1) * 256 + b0
of_octets_join b3 b2 b1 b0 = omega arith

-- `&` and `|` act on each byte by itself.
pub of_octets-bit_and :
    (a3 a2 a1 a0 b3 b2 b1 b0 : ℕ)
    → a2 < 256
    → a1 < 256
    → a0 < 256
    → b2 < 256
    → b1 < 256
    → b0 < 256
    → bit_and (of_octets a3 a2 a1 a0) (of_octets b3 b2 b1 b0)
      ≡ of_octets (bit_and a3 b3) (bit_and a2 b2) (bit_and a1 b1) (bit_and a0 b0)
of_octets-bit_and a3 a2 a1 a0 b3 b2 b1 b0 h2 h1 h0 k2 k1 k0 =
    rw (of_octets_join a3 a2 a1 a0, of_octets_join b3 b2 b1 b0)
      (ground (
        arith,
        join-bit_and ((a3 * 256 + a2) * 256 + a1) a0 ((b3 * 256 + b2) * 256 + b1) b0 h0 k0,
        join-bit_and (a3 * 256 + a2) a1 (b3 * 256 + b2) b1 h1 k1,
        join-bit_and a3 a2 b3 b2 h2 k2,
      ))

bswap32-bit_and : (a b : ℕ) → bswap32 (bit_and a b) ≡ bit_and (bswap32 a) (bswap32 b)
unfolding bswap32
bswap32-bit_and a b =
    rw (octet-bit_and 0 a b, octet-bit_and 1 a b, octet-bit_and 2 a b, octet-bit_and 3 a b)
      (sym (
        of_octets-bit_and (octet a 0) (octet a 1) (octet a 2) (octet a 3) (octet b 0) (octet b 1)
          (octet b 2) (octet b 3) (omega arith) (omega arith) (omega arith) (omega arith)
          (omega arith) (omega arith)))

pub htonl-bit_and : (e : Endian) (a b : ℕ) → htonl e (bit_and a b) ≡ bit_and (htonl e a) (htonl e b)
unfolding htonl
htonl-bit_and big a b = refl
htonl-bit_and little a b = bswap32-bit_and a b

octet-bit_or : (i a b : ℕ) → octet (bit_or a b) i ≡ bit_or (octet a i) (octet b i)
octet-bit_or i a b =
    rw ((bit_or_parts (8 * i) a b).0) ((bit_or_parts 8 (a / 2 ^ (8 * i)) (b / 2 ^ (8 * i))).1)

join-bit_or :
    (q r q' r' : ℕ)
    → r < 256
    → r' < 256
    → bit_or (q * 256 + r) (q' * 256 + r') ≡ bit_or q q' * 256 + bit_or r r'
join-bit_or q r q' r' h h' =
    let e1 : (q * 256 + r) / 2 ^ 8 ≡ q = omega arith in
    let e2 : (q' * 256 + r') / 2 ^ 8 ≡ q' = omega arith in
    let e3 : (q * 256 + r) % 2 ^ 8 ≡ r = omega arith in
    let e4 : (q' * 256 + r') % 2 ^ 8 ≡ r' = omega arith in
    ground (arith, bit_or_split 8 (q * 256 + r) (q' * 256 + r'), e1, e2, e3, e4)

-- `&` and `|` act on each byte by itself.
pub of_octets-bit_or :
    (a3 a2 a1 a0 b3 b2 b1 b0 : ℕ)
    → a2 < 256
    → a1 < 256
    → a0 < 256
    → b2 < 256
    → b1 < 256
    → b0 < 256
    → bit_or (of_octets a3 a2 a1 a0) (of_octets b3 b2 b1 b0)
      ≡ of_octets (bit_or a3 b3) (bit_or a2 b2) (bit_or a1 b1) (bit_or a0 b0)
of_octets-bit_or a3 a2 a1 a0 b3 b2 b1 b0 h2 h1 h0 k2 k1 k0 =
    rw (of_octets_join a3 a2 a1 a0, of_octets_join b3 b2 b1 b0)
      (ground (
        arith,
        join-bit_or ((a3 * 256 + a2) * 256 + a1) a0 ((b3 * 256 + b2) * 256 + b1) b0 h0 k0,
        join-bit_or (a3 * 256 + a2) a1 (b3 * 256 + b2) b1 h1 k1,
        join-bit_or a3 a2 b3 b2 h2 k2,
      ))

bswap32-bit_or : (a b : ℕ) → bswap32 (bit_or a b) ≡ bit_or (bswap32 a) (bswap32 b)
unfolding bswap32
bswap32-bit_or a b =
    rw (octet-bit_or 0 a b, octet-bit_or 1 a b, octet-bit_or 2 a b, octet-bit_or 3 a b)
      (sym (
        of_octets-bit_or (octet a 0) (octet a 1) (octet a 2) (octet a 3) (octet b 0) (octet b 1)
          (octet b 2) (octet b 3) (omega arith) (omega arith) (omega arith) (omega arith)
          (omega arith) (omega arith)))

pub htonl-bit_or : (e : Endian) (a b : ℕ) → htonl e (bit_or a b) ≡ bit_or (htonl e a) (htonl e b)
unfolding htonl
htonl-bit_or big a b = refl
htonl-bit_or little a b = bswap32-bit_or a b

-- A masked test of a raw word against swapped constants.
pub masked_eq :
    (e : Endian) (a m c : ℕ)
    → a < 2 ^ 32
    → m < 2 ^ 32
    → c < 2 ^ 32
    → (bit_and a (htonl e m) == htonl e c) ≡ (bit_and (htonl e a) m == c)
masked_eq e a m c ha hm hc =
    ==_congr _ _ _ _ (λ p. sym swapped ∙ ap (htonl e) p ∙ htonl-htonl e c hc)
      (λ q.
        sym (htonl-htonl e (bit_and a (htonl e m)) (bit_and_lt 32 a (htonl e m) ha))
        ∙ ap (htonl e) (swapped ∙ q))
  where
    swapped : htonl e (bit_and a (htonl e m)) ≡ bit_and (htonl e a) m
    swapped = htonl-bit_and e a (htonl e m) ∙ ap (bit_and (htonl e a)) (htonl-htonl e m hm)

pub htonl-zero : (e : Endian) → htonl e 0 ≡ 0
unfolding htonl
htonl-zero big = refl
htonl-zero little = refl

-- A masked word is zero exactly when the number that it stands for has zeros under the mask.
pub masked_zero :
    (e : Endian) (x m : ℕ)
    → x < 2 ^ 32
    → m < 2 ^ 32
    → (bit_and x (htonl e m) == 0) ≡ (bit_and (htonl e x) m == 0)
masked_zero e x m hx hm =
    ap (λ (t : ℕ). bit_and x (htonl e m) == t) (sym (htonl-zero e))
    ∙ masked_eq e x m 0 hx hm (omega arith)

-- `~` commutes with the byte order too.
pub htonl-not32 : (e : Endian) (x : ℕ) → x < 2 ^ 32 → not32 (htonl e x) ≡ htonl e (not32 x)
unfolding htonl
htonl-not32 big x h = refl
htonl-not32 little x h = omega arith
