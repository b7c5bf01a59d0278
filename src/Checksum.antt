-- ===== src/Checksum.antt =====
-- src/nat64.c: the Internet checksum, `ip_checksum`, `ones_add`, `ip4_checksum`, `ip6_checksum` and
-- `convert_cksum`, and `ip4_header_checksum` of src/tayga.h. Data is a list of bytes in memory; a load
-- of a word reads its bytes in the host's order. Sums that C keeps in `uint64_t` wrap at 2 ^ 64.
pub mod Bytes
pub mod Laws
use tayga.Base.{
  ℕ, zero, suc, ◌+◌, ◌*◌, ◌/◌, ◌%◌, ◌^◌, if◌then◌else◌, ltb, List, [], ◌∷◌, true, false,
}
use tayga.Word.{Endian, big, little, htonl, htons, u16, u32, u64, not16, not32, big_little}
use tayga.Addr.{In6Addr}

-- The bytes `bs` loaded as one unsigned word of the host.
abbrev pub load_from : Endian → ℕ → List ℕ → ℕ
load_from e acc [] = acc
load_from big acc (b ∷ bs) = load_from big (acc * 256 + b) bs
load_from little acc (b ∷ bs) = b + 256 * load_from little acc bs

abbrev pub load : Endian → List ℕ → ℕ
load e bs = load_from e 0 bs

-- `sum += word; if (sum < word) sum++;` with a sum that wraps.
unfoldable pub add_carry : ℕ → ℕ → ℕ
add_carry sum word = let s = u64 (sum + word) in if ltb s word then u64 (s + 1) else s

-- The loop over 8-byte words: the sum, and the fewer than 8 bytes that are left.
unfoldable pub sum_words : Endian → ℕ → List ℕ → ℕ × List ℕ
unfolding add_carry
sum_words e sum (b0 ∷ b1 ∷ b2 ∷ b3 ∷ b4 ∷ b5 ∷ b6 ∷ b7 ∷ bs) =
    sum_words e (add_carry sum (load e (b0 ∷ b1 ∷ b2 ∷ b3 ∷ b4 ∷ b5 ∷ b6 ∷ b7 ∷ []))) bs
sum_words e sum bs = (sum, bs)

abbrev pub fold32 : ℕ → ℕ
fold32 s = s % 2 ^ 32 + s / 2 ^ 32

abbrev pub fold16 : ℕ → ℕ
fold16 s = s % 2 ^ 16 + s / 2 ^ 16

-- `c >= 4`, then `c >= 2`, then `c`.
unfoldable pub sum_byte : Endian → ℕ → List ℕ → ℕ
sum_byte e sum [] = sum
sum_byte e sum (b ∷ bs) = u64 (sum + b * 2 ^ big_little e 8 0)

unfoldable pub sum_half : Endian → ℕ → List ℕ → ℕ
unfolding sum_byte
sum_half e sum (b0 ∷ b1 ∷ bs) = sum_byte e (u64 (sum + load e (b0 ∷ b1 ∷ []))) bs
sum_half e sum bs = sum_byte e sum bs

unfoldable pub sum_tail : Endian → ℕ → List ℕ → ℕ
unfolding sum_half
sum_tail e sum (b0 ∷ b1 ∷ b2 ∷ b3 ∷ bs) =
    sum_half e (u64 (sum + load e (b0 ∷ b1 ∷ b2 ∷ b3 ∷ []))) bs
sum_tail e sum bs = sum_half e sum bs

-- `while (sum > 0xffff) sum = (sum & 0xffff) + (sum >> 16);` with fuel.
unfoldable pub fold_loop : ℕ → ℕ → ℕ
fold_loop zero s = s
fold_loop (suc n) s = elim (ltb 0xffff s) [ true ↦ fold_loop n (fold16 s) | false ↦ s ]

-- Six rounds are enough for a 64-bit sum.
abbrev pub fold_fuel : ℕ
fold_fuel = 6

-- The four folds of `ip_checksum` and of `ip4_header_checksum` are written out in the source.
unfoldable pub ip_checksum : Endian → List ℕ → ℕ
ip_checksum e bs =
    let (sum, rest) = sum_words e 0xffff bs in
    not16 (fold_loop fold_fuel (sum_tail e (fold32 (fold32 sum)) rest))

unfoldable pub ones_add : ℕ → ℕ → ℕ
ones_add a b = let sum = u32 (not16 a + not16 b) in not16 (u32 (sum % 2 ^ 16 + sum / 2 ^ 16))

-- The two half words of a word in memory.
abbrev pub halves : ℕ → ℕ
halves w = w % 2 ^ 16 + w / 2 ^ 16

-- Source and destination by their `s_addr`.
unfoldable pub ip4_checksum : Endian → ℕ → ℕ → ℕ → ℕ → ℕ
ip4_checksum e src dest data_len proto = not16 (
    fold_loop fold_fuel
      (u32 (halves src + halves dest + halves (htonl e data_len) + htons e proto)))

abbrev pub halves6 : In6Addr → ℕ
halves6 a = halves a.w0 + halves a.w1 + halves a.w2 + halves a.w3

unfoldable pub ip6_checksum : Endian → In6Addr → In6Addr → ℕ → ℕ → ℕ
ip6_checksum e src dest data_len proto = not16 (
    fold_loop fold_fuel
      (u32 (halves6 src + halves6 dest + halves (htonl e data_len) + htons e proto)))

abbrev pub words6 : In6Addr → ℕ
words6 a = a.w0 + a.w1 + a.w2 + a.w3

-- The sum of the IPv6 addresses less that of the IPv4 addresses.
unfoldable pub convert_cksum : In6Addr → In6Addr → ℕ → ℕ → ℕ
convert_cksum src6 dest6 src4 dest4 =
    let s0 = u64 (not32 src4 + not32 dest4 + words6 src6 + words6 dest6) in
    let s1 = if ltb 0xffffffff s0 then fold32 s0 else s0 in
    let s2 = if ltb 0xffff s1 then fold16 s1 else s1 in
    let s3 = if ltb 0xffff s2 then fold16 s2 else s2 in u16 s3

-- The five words of an IPv4 header.
unfoldable pub ip4_header_checksum : ℕ → ℕ → ℕ → ℕ → ℕ → ℕ
ip4_header_checksum w0 w1 w2 w3 w4 =
    let s0 = u64 (w0 + w1 + w2 + w3 + w4) in not16 (fold16 (fold16 (fold32 s0)))
