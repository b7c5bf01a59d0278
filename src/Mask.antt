-- ===== src/Mask.antt =====
-- src/addrmap.c: `calc_ip4_mask` and `calc_ip6_mask`, and the membership test `IN6_IS_IN_NET` of
-- src/tayga.h.
pub mod Laws
use tayga.Base.{
  ℕ, suc, ◌+◌, ◌-◌, ◌*◌, ◌^◌, bit_and, Bool, true, false, ◌&&◌, ◌||◌, not, if◌then◌else◌, ◌==◌, ltb,
  leb, Option, none, some,
}
use tayga.Word.{Endian, big, little, htonl, shl32, u8, not32, of_octets}
use tayga.Addr.{In6Addr, memory_byte}

-- A C `int`: `negsuc n` is -(n + 1).
pub data ℤ : Type 0 where
  pos : ℕ → ℤ
  negsuc : ℕ → ℤ

-- `none`: the length is out of range, -1 is returned and the mask is left alone. Otherwise the mask,
-- and `false` for the -1 of an address with host bits.
unfoldable pub mask4_of : ℕ → ℕ
mask4_of len = if len == 0 then 0 else shl32 (2 ^ 32 - 1) (32 - len)

has_host_bits4 : ℕ → Option ℕ → Bool
has_host_bits4 mask none = false
has_host_bits4 mask (some a) = not (bit_and a (not32 mask) == 0)

unfoldable pub calc_ip4_mask : Endian → Option ℕ → ℤ → Option (ℕ × Bool)
unfolding mask4_of has_host_bits4
calc_ip4_mask e addr (negsuc n) = none
calc_ip4_mask e addr (pos len) =
    let mask = htonl e (mask4_of len) in
    if ltb 32 len then none else some (mask, not (has_host_bits4 mask addr))

-- Byte `i` of the IPv6 mask, by `bits = len - i * 8`; the byte is 0 where `bits` is not positive.
mask_byte : ℕ → ℕ → ℕ
mask_byte len i =
    if leb (i * 8 + 8) len
    then 0xff
    else if ltb (i * 8) len
    then u8 (0xff * 2 ^ (8 - (len - i * 8)))
    else 0

-- The word of which the bytes in memory are these.
abbrev pub of_memory : Endian → ℕ → ℕ → ℕ → ℕ → ℕ
of_memory big b0 b1 b2 b3 = of_octets b0 b1 b2 b3
of_memory little b0 b1 b2 b3 = of_octets b3 b2 b1 b0

unfoldable pub mask_word : Endian → ℕ → ℕ → ℕ
unfolding mask_byte
mask_word e len i =
    of_memory e (mask_byte len i) (mask_byte len (i + 1)) (mask_byte len (i + 2))
      (mask_byte len (i + 3))

unfoldable pub mask6_of : Endian → ℕ → In6Addr
mask6_of e len = record {
  w0 = mask_word e len 0;
  w1 = mask_word e len 4;
  w2 = mask_word e len 8;
  w3 = mask_word e len 12;
}

-- `addr->s6_addr[i] & (uint8_t)~mask->s6_addr[i]` for one of the four bytes of a word.
abbrev byte_host_bits : Endian → ℕ → ℕ → ℕ → Bool
byte_host_bits e a m i = not (bit_and (memory_byte e a i) (255 - memory_byte e m i) == 0)

word_host_bits : Endian → ℕ → ℕ → Bool
word_host_bits e a m =
    byte_host_bits e a m 0
    || byte_host_bits e a m 1
    || byte_host_bits e a m 2
    || byte_host_bits e a m 3

has_host_bits6 : Endian → In6Addr → Option In6Addr → Bool
unfolding word_host_bits
has_host_bits6 e mask none = false
has_host_bits6 e mask (some a) =
    word_host_bits e a.w0 mask.w0
    || word_host_bits e a.w1 mask.w1
    || word_host_bits e a.w2 mask.w2
    || word_host_bits e a.w3 mask.w3

unfoldable pub calc_ip6_mask : Endian → Option In6Addr → ℤ → Option (In6Addr × Bool)
unfolding mask6_of has_host_bits6
calc_ip6_mask e addr (negsuc n) = none
calc_ip6_mask e addr (pos len) =
    let mask = mask6_of e len in
    if ltb 128 len then none else some (mask, not (has_host_bits6 e mask addr))

-- `IN6_IS_IN_NET(addr, net, mask)`.
unfoldable pub in6_is_in_net : In6Addr → In6Addr → In6Addr → Bool
in6_is_in_net addr net mask =
    net.w0 == bit_and addr.w0 mask.w0
    && net.w1 == bit_and addr.w1 mask.w1
    && net.w2 == bit_and addr.w2 mask.w2
    && net.w3 == bit_and addr.w3 mask.w3
