-- ===== src/Mask/Laws.antt =====
-- The masks of src/addrmap.c are runs of ones from the top, and membership in a network is agreement
-- on the bits of the prefix, on a host of either byte order.
use tayga.Base.{
  ℕ, ◌-◌, ◌*◌, ◌/◌, ◌%◌, ◌^◌, ◌≤◌, ◌<◌, bit_and, ◌≡◌, refl, sym, ap, ap₂, ◌∙◌, ◌↔◌, arith, Bool,
  true, ◌&&◌, ◌==◌, ==_iff, one-le-pow, some, bit_and_mask, bit_and_comm, pow_add, not, ◌||◌,
}
use Prim.Native.Nat.{min}
use tayga.Base.{every, every_lem}
use native.Mathlib.Nat.{pow-le-pow_right, div-div-eq-div-mul}
use tayga.Addr.Laws.{in_net_lem}
use tayga.Word.{Endian, big, little, htonl, not32, octet, of_octets}
use tayga.Word.Laws.{htonl-lt, htonl-htonl, htonl-not32, masked_zero, of_octets-bit_and}
use tayga.Addr.{In6Addr}
use tayga.Prefix.Bytes.{IsIn6}
use tayga.Mask.{
  pos, mask4_of, word_host_bits, has_host_bits6, calc_ip4_mask, mask_word, mask6_of, calc_ip6_mask,
  in6_is_in_net,
}

-- The number of host bits that a prefix of `len` bits leaves in word `j` of an address.
abbrev pub host_bits : ℕ → ℕ → ℕ
host_bits len j = 32 - min 32 (len - 32 * j)

pub two_pow_le : (k : ℕ) → k ≤ 32 → 2 ^ k ≤ 2 ^ 32
two_pow_le k h = pow-le-pow_right {n = 2} (omega arith) h

abbrev word_ok : Endian → ℕ → ℕ → Bool
word_ok e j len = htonl e (2 ^ 32 - 2 ^ host_bits len j) == mask_word e len (4 * j)

abbrev words_ok : Endian → ℕ → Bool
words_ok e len = word_ok e 0 len && word_ok e 1 len && word_ok e 2 len && word_ok e 3 len

table : (e : Endian) → every (words_ok e) 129 ≡ true
unfolding mask_word htonl
table big = refl
table little = refl

abbrev mask4_ok : ℕ → Bool
mask4_ok len = mask4_of len == 2 ^ 32 - 2 ^ (32 - len)

table4 : every mask4_ok 33 ≡ true
unfolding mask4_of
table4 = refl

mask_word_lem :
    (e : Endian) (len : ℕ)
    → len ≤ 128
    → (mask_word e len 0 ≡ htonl e (2 ^ 32 - 2 ^ host_bits len 0))
      × (mask_word e len 4 ≡ htonl e (2 ^ 32 - 2 ^ host_bits len 1))
      × (mask_word e len 8 ≡ htonl e (2 ^ 32 - 2 ^ host_bits len 2))
      × (mask_word e len 12 ≡ htonl e (2 ^ 32 - 2 ^ host_bits len 3))
mask_word_lem e len h =
    let t = every_lem (words_ok e) len 129 (omega arith) (table e) in
    (ground arith, ground arith, ground arith, ground arith)

pub mask4_of_lem : (len : ℕ) → len ≤ 32 → mask4_of len ≡ 2 ^ 32 - 2 ^ (32 - len)
mask4_of_lem len h = (==_iff _ _).0 (every_lem mask4_ok len 33 (omega arith) table4)

-- `a` and `n` agree on the first `len` bits.
abbrev pub SamePrefix4 : Endian → ℕ → ℕ → ℕ → Type 0
SamePrefix4 e len a n = htonl e a / 2 ^ (32 - len) ≡ htonl e n / 2 ^ (32 - len)

abbrev SameWord : Endian → ℕ → ℕ → ℕ → Type 0
SameWord e k a n = htonl e a / 2 ^ k ≡ htonl e n / 2 ^ k

abbrev pub SamePrefix6 : Endian → ℕ → In6Addr → In6Addr → Type 0
SamePrefix6 e len a n =
    SameWord e (host_bits len 0) a.w0 n.w0
    × SameWord e (host_bits len 1) a.w1 n.w1
    × SameWord e (host_bits len 2) a.w2 n.w2
    × SameWord e (host_bits len 3) a.w3 n.w3

-- `n` has no bit below its prefix.
abbrev pub IsNet4 : Endian → ℕ → ℕ → Type 0
IsNet4 e len n = htonl e n % 2 ^ (32 - len) ≡ 0

abbrev pub IsNet6 : Endian → ℕ → In6Addr → Type 0
IsNet6 e len n =
    (htonl e n.w0 % 2 ^ host_bits len 0 ≡ 0)
    × (htonl e n.w1 % 2 ^ host_bits len 1 ≡ 0)
    × (htonl e n.w2 % 2 ^ host_bits len 2 ≡ 0)
    × (htonl e n.w3 % 2 ^ host_bits len 3 ≡ 0)

word_in_net :
    (e : Endian) (k a n : ℕ)
    → k ≤ 32
    → a < 2 ^ 32
    → n < 2 ^ 32
    → htonl e n % 2 ^ k ≡ 0
    → (bit_and a (htonl e (2 ^ 32 - 2 ^ k)) == n) ≡ (htonl e a / 2 ^ k == htonl e n / 2 ^ k)
word_in_net e k a n hk ha hn z =
    ap (λ (t : ℕ). bit_and a (htonl e (2 ^ 32 - 2 ^ k)) == t) (sym (htonl-htonl e n hn))
    ∙ in_net_lem k (32 - k) e a (htonl e n) (omega arith) ha (htonl-lt e n hn) z

-- The bits under the complement of a mask are the remainder.
word_host_bits_lem :
    (e : Endian) (k a : ℕ)
    → k ≤ 32
    → a < 2 ^ 32
    → (bit_and a (not32 (htonl e (2 ^ 32 - 2 ^ k))) == 0) ≡ (htonl e a % 2 ^ k == 0)
word_host_bits_lem e k a hk ha =
    ap (λ (t : ℕ). bit_and a t == 0)
      (htonl-not32 e (2 ^ 32 - 2 ^ k) (omega (arith, one-le-pow k 2)))
    ∙ masked_zero e a (not32 (2 ^ 32 - 2 ^ k)) ha (omega arith)
    ∙ ap (λ (t : ℕ). t == 0) (ap (bit_and (htonl e a)) ones ∙ bit_and_mask k (htonl e a))
  where
    ones : not32 (2 ^ 32 - 2 ^ k) ≡ 2 ^ k - 1
    ones = omega (arith, one-le-pow k 2, two_pow_le k hk)

flip_eq : (a b : ℕ) → (a == b) ≡ (b == a)
flip_eq a b = ground arith

-- `IN6_IS_IN_NET` with the mask of a prefix says that the prefix bits agree.
pub in6_is_in_net_lem :
    (e : Endian) (len : ℕ) (a n : In6Addr)
    → len ≤ 128
    → IsIn6 a
    → IsIn6 n
    → IsNet6 e len n
    → (in6_is_in_net a n (mask6_of e len) ≡ true) ↔ SamePrefix6 e len a n
unfolding in6_is_in_net mask6_of
in6_is_in_net_lem e len a n h ha hn z =
    let m = mask_word_lem e len h in
    let word : (j x y : ℕ)
        → x < 2 ^ 32
        → y < 2 ^ 32
        → htonl e y % 2 ^ host_bits len j ≡ 0
        → (y == bit_and x (htonl e (2 ^ 32 - 2 ^ host_bits len j)))
          ≡ (htonl e x / 2 ^ host_bits len j == htonl e y / 2 ^ host_bits len j) =
      λ j x y hx hy c. flip_eq y _ ∙ word_in_net e (host_bits len j) x y (omega arith) hx hy c in
    rw (m.0, m.1, m.2, m.3)
      (ground (
        arith,
        word 0 a.w0 n.w0 ha.0 hn.0 z.0,
        word 1 a.w1 n.w1 ha.1 hn.1 z.1,
        word 2 a.w2 n.w2 ha.2 hn.2 z.2,
        word 3 a.w3 n.w3 ha.3 hn.3 z.3,
      ))

-- So does the test of `find_map4` with the mask of `calc_ip4_mask`.
pub ip4_in_net_lem :
    (e : Endian) (len a n : ℕ)
    → len ≤ 32
    → a < 2 ^ 32
    → n < 2 ^ 32
    → IsNet4 e len n
    → ((n == bit_and (htonl e (mask4_of len)) a) ≡ true) ↔ SamePrefix4 e len a n
ip4_in_net_lem e len a n h ha hn z =
    rw (mask4_of_lem len h, bit_and_comm (htonl e (2 ^ 32 - 2 ^ (32 - len))) a, flip_eq n)
      (rw (word_in_net e (32 - len) a n (omega arith) ha hn z) (==_iff _ _))

-- `calc_ip4_mask` accepts an address exactly if it has no host bits.
pub calc_ip4_mask_lem :
    (e : Endian) (len n : ℕ)
    → len ≤ 32
    → n < 2 ^ 32
    → (accepted : Bool) × (calc_ip4_mask e (some n) (pos len)
        ≡ some (htonl e (mask4_of len), accepted))
      × ((accepted ≡ true) ↔ IsNet4 e len n)
unfolding calc_ip4_mask
calc_ip4_mask_lem e len n h hn = (
  not (not (bit_and n (not32 (htonl e (mask4_of len))) == 0)),
  ground arith,
  rw (mask4_of_lem len h) (ground (arith, word_host_bits_lem e (32 - len) n (omega arith) hn)),
)

octets_and_not :
    (a m : ℕ)
    → a < 2 ^ 32
    → m < 2 ^ 32
    → bit_and a (not32 m)
      ≡ of_octets
          (bit_and (octet a 3) (255 - octet m 3))
          (bit_and (octet a 2) (255 - octet m 2))
          (bit_and (octet a 1) (255 - octet m 1))
          (bit_and (octet a 0) (255 - octet m 0))
octets_and_not a m ha hm =
    let whole : a ≡ of_octets (octet a 3) (octet a 2) (octet a 1) (octet a 0) = omega arith in
    let other : not32 m
        ≡ of_octets (255 - octet m 3) (255 - octet m 2) (255 - octet m 1) (255 - octet m 0) =
      omega arith in
    ap₂ bit_and whole other
    ∙ of_octets-bit_and (octet a 3) (octet a 2) (octet a 1) (octet a 0) (255 - octet m 3)
        (255 - octet m 2) (255 - octet m 1) (255 - octet m 0) (omega arith) (omega arith)
        (omega arith) (omega arith) (omega arith) (omega arith)

word_bytes :
    (e : Endian) (a m : ℕ)
    → a < 2 ^ 32
    → m < 2 ^ 32
    → word_host_bits e a m ≡ not (bit_and a (not32 m) == 0)
unfolding word_host_bits
word_bytes big a m ha hm = ground (arith, octets_and_not a m ha hm)
word_bytes little a m ha hm = ground (arith, octets_and_not a m ha hm)

none_set :
    (b0 b1 b2 b3 : Bool) (x0 x1 x2 x3 : ℕ)
    → b0 ≡ not (x0 == 0)
    → b1 ≡ not (x1 == 0)
    → b2 ≡ not (x2 == 0)
    → b3 ≡ not (x3 == 0)
    → (not (b0 || b1 || b2 || b3) ≡ true) ↔ ((x0 ≡ 0) × (x1 ≡ 0) × (x2 ≡ 0) × (x3 ≡ 0))
none_set b0 b1 b2 b3 x0 x1 x2 x3 h0 h1 h2 h3 = ground arith

-- `calc_ip6_mask` accepts an address exactly if it has no host bits.
pub calc_ip6_mask_lem :
    (e : Endian) (len : ℕ) (n : In6Addr)
    → len ≤ 128
    → IsIn6 n
    → (accepted : Bool) × (calc_ip6_mask e (some n) (pos len) ≡ some (mask6_of e len, accepted))
      × ((accepted ≡ true) ↔ IsNet6 e len n)
unfolding calc_ip6_mask
calc_ip6_mask_lem e len n h hn =
    (not (has_host_bits6 e (mask6_of e len) (some n)), ground arith, exact)
  where
    word :
        (j i x : ℕ)
        → mask_word e len i ≡ htonl e (2 ^ 32 - 2 ^ host_bits len j)
        → x < 2 ^ 32
        → word_host_bits e x (mask_word e len i) ≡ not (htonl e x % 2 ^ host_bits len j == 0)
    word j i x m hx = rw m (
        word_bytes e x _ hx (htonl-lt e _ (omega (arith, one-le-pow (host_bits len j) 2)))
        ∙ ap not (word_host_bits_lem e (host_bits len j) x (omega arith) hx))

    exact : (not (has_host_bits6 e (mask6_of e len) (some n)) ≡ true) ↔ IsNet6 e len n
    exact =
        let m = mask_word_lem e len h in
        none_set _ _ _ _ _ _ _ _ (word 0 0 n.w0 m.0 hn.0) (word 1 4 n.w1 m.1 hn.1)
          (word 2 8 n.w2 m.2 hn.2) (word 3 12 n.w3 m.3 hn.3)

coarser : (x y k k' : ℕ) → k ≤ k' → x / 2 ^ k ≡ y / 2 ^ k → x / 2 ^ k' ≡ y / 2 ^ k'
coarser x y k k' h e = step x ∙ ap (λ (t : ℕ). t / 2 ^ (k' - k)) e ∙ sym (step y)
  where
    step : (z : ℕ) → z / 2 ^ k' ≡ z / 2 ^ k / 2 ^ (k' - k)
    step z =
        ap (λ (t : ℕ). z / t) (ap (λ (t : ℕ). 2 ^ t) (omega arith) ∙ pow_add k (k' - k))
        ∙ sym (div-div-eq-div-mul z (2 ^ k) (2 ^ (k' - k)))

-- Addresses that agree on a prefix agree on every shorter one.
pub SamePrefix6-shorter :
    (e : Endian) (len len' : ℕ) (a n : In6Addr)
    → len ≤ len'
    → SamePrefix6 e len' a n
    → SamePrefix6 e len a n
SamePrefix6-shorter e len len' a n h s = (
  coarser _ _ (host_bits len' 0) (host_bits len 0) (omega arith) s.0,
  coarser _ _ (host_bits len' 1) (host_bits len 1) (omega arith) s.1,
  coarser _ _ (host_bits len' 2) (host_bits len 2) (omega arith) s.2,
  coarser _ _ (host_bits len' 3) (host_bits len 3) (omega arith) s.3,
)
