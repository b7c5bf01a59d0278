-- ===== src/Addr.antt =====
-- src/addrmap.c: which addresses may be translated at all, `validate_ip4_addr`,
-- `validate_ip6_addr` and `is_private_ip4_addr`. Also the packet error codes and `struct in6_addr`.
pub mod Laws
use tayga.Base.{ℕ, ◌-◌, ◌/◌, ◌%◌, ◌^◌, bit_and, Bool, true, false, ◌&&◌, not, if◌then◌else◌, ◌==◌}
use tayga.Word.{Endian, big, little, htonl, htons, octet}

-- The packet error codes of src/tayga.h: 0, -1, -2 and -3.
pub data Status : Type 0 where
  error_none error_reject error_drop error_local : Status

-- `ret < 0`, and the test of a status as a truth value.
abbrev pub is_error : Status → Bool
is_error error_none = false
is_error error_reject = true
is_error error_drop = true
is_error error_local = true

-- An IPv6 address by its four `s6_addr32` words, as the host reads them.
pub record In6Addr : Type 0 where
  pub w0 : ℕ
  pub w1 : ℕ
  pub w2 : ℕ
  pub w3 : ℕ

-- Byte `k` of a word in memory, and its first half word, `s6_addr16[0]`.
abbrev pub memory_byte : Endian → ℕ → ℕ → ℕ
memory_byte big w k = octet w (3 - k)
memory_byte little w k = octet w k

abbrev pub first_half : Endian → ℕ → ℕ
first_half big w = w / 2 ^ 16
first_half little w = w % 2 ^ 16

abbrev pub wkpf : Endian → ℕ
wkpf e = htonl e 0x0064ff9b

-- `(a->s_addr & htonl(mask)) == htonl(net)`.
abbrev pub in_net : Endian → ℕ → ℕ → ℕ → Bool
in_net e a mask net = bit_and a (htonl e mask) == htonl e net

unfoldable pub validate_ip4_addr : Endian → ℕ → Status
validate_ip4_addr e a =
    if in_net e a 0xff000000 0x00000000
    then error_drop
    else if in_net e a 0xff000000 0x7f000000
    then error_drop
    else if in_net e a 0xffff0000 0xa9fe0000
    then error_local
    else if in_net e a 0xf0000000 0xe0000000
    then error_drop
    else if a == 0xffffffff
    then error_drop
    else error_none

unfoldable pub validate_ip6_addr : Endian → In6Addr → Status
validate_ip6_addr e a =
    if a.w0 == wkpf e
    then error_none
    else if memory_byte e a.w0 0 == 0
    then error_drop
    else if memory_byte e a.w0 0 == 0xff
    then error_drop
    else if bit_and (first_half e a.w0) (htons e 0xffc0) == htons e 0xfe80
    then error_drop
    else error_none

unfoldable pub is_private_ip4_addr : Endian → ℕ → Status
is_private_ip4_addr e a =
    if in_net e a 0xff000000 0x0a000000
    then error_reject
    else if in_net e a 0xffc00000 0x64400000
    then error_reject
    else if in_net e a 0xfff00000 0xac100000
    then error_reject
    else if in_net e a 0xffffff00 0xc0000200
    then error_reject
    else if in_net e a 0xffff0000 0xc0a80000
    then error_reject
    else if in_net e a 0xfffe0000 0xc6120000
    then error_reject
    else if in_net e a 0xffffff00 0xc6336400
    then error_reject
    else if in_net e a 0xffffff00 0xcb007100
    then error_reject
    else if in_net e a 0xffffff00 0xc0000000 && not (in_net e a 0xfffffff8 0xc0000000)
    then error_reject
    else if in_net e a 0xf0000000 0xf0000000
    then error_reject
    else error_none
