-- ===== src/Word.antt =====
-- Machine words, and the byte order of the host: `htonl`, `ntohl` and `htons` of the C library and
-- the `BIG_LITTLE` macro of src/tayga.h. A word is a number below 2 ^ 32 as the host reads it, so an
-- `s_addr` or `s6_addr32[i]` that came from the network is `htonl` of the number that it stands for.
pub mod Laws
use tayga.Base.{ℕ, ◌+◌, ◌-◌, ◌*◌, ◌/◌, ◌%◌, ◌^◌}

pub data Endian : Type 0 where
  big little : Endian

-- Casts to the fixed widths, and the wrapping shifts and complement of `uint32_t`.
abbrev pub u8 : ℕ → ℕ
u8 n = n % 2 ^ 8

abbrev pub u16 : ℕ → ℕ
u16 n = n % 2 ^ 16

abbrev pub u32 : ℕ → ℕ
u32 n = n % 2 ^ 32

abbrev pub u64 : ℕ → ℕ
u64 n = n % 2 ^ 64

abbrev pub shl32 : ℕ → ℕ → ℕ
shl32 a k = u32 (a * 2 ^ k)

abbrev pub shr : ℕ → ℕ → ℕ
shr a k = a / 2 ^ k

abbrev pub not16 : ℕ → ℕ
not16 a = 2 ^ 16 - 1 - u16 a

abbrev pub not32 : ℕ → ℕ
not32 a = 2 ^ 32 - 1 - u32 a

-- The four bytes of a word, in the order of significance from the lowest.
abbrev pub octet : ℕ → ℕ → ℕ
octet a i = a / 2 ^ (8 * i) % 256

abbrev pub of_octets : ℕ → ℕ → ℕ → ℕ → ℕ
of_octets b3 b2 b1 b0 = b3 * 2 ^ 24 + b2 * 2 ^ 16 + b1 * 2 ^ 8 + b0

unfoldable pub bswap32 : ℕ → ℕ
bswap32 a = of_octets (octet a 0) (octet a 1) (octet a 2) (octet a 3)

unfoldable pub bswap16 : ℕ → ℕ
bswap16 a = a % 256 * 256 + a / 256 % 256

unfoldable pub htonl : Endian → ℕ → ℕ
unfolding bswap32
htonl big a = a
htonl little a = bswap32 a

abbrev pub ntohl : Endian → ℕ → ℕ
ntohl = htonl

unfoldable pub htons : Endian → ℕ → ℕ
unfolding bswap16
htons big a = a
htons little a = bswap16 a

abbrev pub ntohs : Endian → ℕ → ℕ
ntohs = htons

-- `BIG_LITTLE(x, y)`.
abbrev pub big_little {ℓ} : {A : Type ℓ} → Endian → A → A → A
big_little big x y = x
big_little little x y = y
