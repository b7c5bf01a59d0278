-- ===== src/Checksum/Laws.antt =====
-- The pseudo-header and header checksums of src/nat64.c are complements of one's complement sums, and
-- the incremental update keeps a transport checksum valid across the translation.
use tayga.Base.{ℕ, ◌+◌, ◌-◌, ◌*◌, ◌%◌, ◌^◌, ◌<◌, ◌≡◌, ◌↔◌, ap, ◌∙◌, arith, if◌then◌else◌, ltb}
use tayga.Word.{Endian, big, little, htonl, htons, not16, not32}
use tayga.Word.Laws.{htonl-lt}
use tayga.Addr.{In6Addr}
use tayga.Prefix.Bytes.{IsIn6}
use tayga.Checksum.{
  fold16, fold32, fold_loop, ones_add, halves, halves6, words6, ip4_checksum, ip6_checksum,
  convert_cksum, ip4_header_checksum,
}
use tayga.Checksum.Bytes.{ones, fold_loop-ones}

-- `ones_add` adds in one's complement: the complements add up.
pub ones_add_lem :
    (a b : ℕ) → a < 2 ^ 16 → b < 2 ^ 16 → ones_add a b ≡ 65535 - ones (65535 - a + (65535 - b))
unfolding ones_add
ones_add_lem a b ha hb = ground arith

htons-lt : (e : Endian) (p : ℕ) → p < 256 → htons e p < 2 ^ 16
unfolding htons
htons-lt big p h = omega arith
htons-lt little p h = omega arith

halves_complement :
    (a b c p : ℕ)
    → 65535 - ones (halves a + halves b + halves c + p) % 65536 ≡ 65535 - ones (a + b + c + p)
halves_complement a b c p = ground arith

same_complement :
    (a b : ℕ) → a % 65535 ≡ b % 65535 → (a ≡ 0) ↔ (b ≡ 0) → 65535 - ones a % 65536 ≡ 65535 - ones b
same_complement a b h z = ground arith

conv_fold :
    (t : ℕ)
    → t < 10 * 2 ^ 32
    → (let s1 = if ltb 0xffffffff t then fold32 t else t in
        let s2 = if ltb 0xffff s1 then fold16 s1 else s1 in
        (if ltb 0xffff s2 then fold16 s2 else s2) % 2 ^ 16)
      ≡ ones t
conv_fold t h = ground arith

-- The pseudo-header sums are the complement of the one's complement sum of their parts.
pub ip4_checksum_lem :
    (e : Endian) (src dest data_len proto : ℕ)
    → src < 2 ^ 32
    → dest < 2 ^ 32
    → data_len < 2 ^ 32
    → proto < 256
    → ip4_checksum e src dest data_len proto
      ≡ 65535 - ones (src + dest + htonl e data_len + htons e proto)
unfolding ip4_checksum
ip4_checksum_lem e src dest data_len proto hs hd hl hp =
    let len : htonl e data_len < 2 ^ 32 = htonl-lt e data_len hl in
    let p : htons e proto < 2 ^ 16 = htons-lt e proto hp in
    let sum : ℕ = halves src + halves dest + halves (htonl e data_len) + htons e proto in
    let nowrap : sum % 2 ^ 32 ≡ sum = omega arith in
    ap (λ (t : ℕ). 65535 - fold_loop 6 t % 65536) nowrap
    ∙ ap (λ (t : ℕ). 65535 - t % 65536) (fold_loop-ones sum (omega arith))
    ∙ halves_complement src dest (htonl e data_len) (htons e proto)

-- `convert_cksum` is the one's complement value of the change of the address sum.
pub convert_cksum_lem :
    (src6 dest6 : In6Addr) (src4 dest4 : ℕ)
    → IsIn6 src6
    → IsIn6 dest6
    → src4 < 2 ^ 32
    → dest4 < 2 ^ 32
    → convert_cksum src6 dest6 src4 dest4
      ≡ ones (2 ^ 32 - 1 - src4 + (2 ^ 32 - 1 - dest4) + words6 src6 + words6 dest6)
unfolding convert_cksum
convert_cksum_lem src6 dest6 src4 dest4 h6 h6' hs hd =
    let t : ℕ = 2 ^ 32 - 1 - src4 + (2 ^ 32 - 1 - dest4) + words6 src6 + words6 dest6 in
    let sum : (not32 src4 + not32 dest4 + words6 src6 + words6 dest6) % 2 ^ 64 ≡ t = omega arith in
    rw sum (conv_fold t (omega arith))

-- `ip4_header_checksum` is the complement of the one's complement sum of the header.
pub ip4_header_checksum_lem :
    (w0 w1 w2 w3 w4 : ℕ)
    → w0 < 2 ^ 32
    → w1 < 2 ^ 32
    → w2 < 2 ^ 32
    → w3 < 2 ^ 32
    → w4 < 2 ^ 32
    → ip4_header_checksum w0 w1 w2 w3 w4 ≡ 65535 - ones (w0 + w1 + w2 + w3 + w4)
unfolding ip4_header_checksum
ip4_header_checksum_lem w0 w1 w2 w3 w4 h0 h1 h2 h3 h4 = ground arith

-- The incremental update keeps a checksum valid: if `ck` completes the one's complement sum of the
-- IPv4 addresses and the rest of the packet, the new value completes that of the IPv6 addresses.
pub convert_cksum-valid :
    (src6 dest6 : In6Addr) (src4 dest4 rest ck : ℕ)
    → IsIn6 src6
    → IsIn6 dest6
    → src4 < 2 ^ 32
    → dest4 < 2 ^ 32
    → ck < 2 ^ 16
    → (src4 + dest4 + rest + ck) % 65535 ≡ 0
    → (words6 src6
          + words6 dest6
          + rest
          + ones_add ck (not16 (convert_cksum src6 dest6 src4 dest4)))
        % 65535
      ≡ 0
convert_cksum-valid src6 dest6 src4 dest4 rest ck h6 h6' hs hd hc valid = ground (
  arith,
  convert_cksum_lem src6 dest6 src4 dest4 h6 h6' hs hd,
  ones_add_lem ck (65535 - convert_cksum src6 dest6 src4 dest4) hc (omega arith),
)

-- So is the pseudo-header sum for IPv6.
pub ip6_checksum_lem :
    (e : Endian) (src dest : In6Addr) (data_len proto : ℕ)
    → IsIn6 src
    → IsIn6 dest
    → data_len < 2 ^ 32
    → proto < 256
    → ip6_checksum e src dest data_len proto
      ≡ 65535 - ones (words6 src + words6 dest + htonl e data_len + htons e proto)
unfolding ip6_checksum
ip6_checksum_lem e src dest data_len proto hs hd hl hp =
    let len : htonl e data_len < 2 ^ 32 = htonl-lt e data_len hl in
    let p : htons e proto < 2 ^ 16 = htons-lt e proto hp in
    let sum : ℕ = halves6 src + halves6 dest + halves (htonl e data_len) + htons e proto in
    let nowrap : sum % 2 ^ 32 ≡ sum = omega arith in
    ap (λ (t : ℕ). 65535 - fold_loop 6 t % 65536) nowrap
    ∙ ap (λ (t : ℕ). 65535 - t % 65536) (fold_loop-ones sum (omega arith))
    ∙ same_complement sum (words6 src + words6 dest + htonl e data_len + htons e proto)
        (omega arith) (omega arith)
