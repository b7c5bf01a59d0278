-- ===== src/Prefix.antt =====
-- src/addrmap.c: `append_to_prefix` puts an IPv4 address into an IPv6 prefix as RFC 6052 says, and
-- `extract_from_prefix` takes it out again. Both branches of each `BIG_LITTLE` are modelled.
pub mod Words
pub mod Bytes
pub mod Take
pub mod Extract
pub mod Append
pub mod Laws
use tayga.Base.{
  ℕ, ◌*◌, ◌/◌, ◌%◌, ◌^◌, bit_and, bit_or, Bool, ◌&&◌, ◌||◌, not, if◌then◌else◌, ◌==◌, Option, none,
  some,
}
use tayga.Word.{Endian, big, little, htonl, shl32, shr, u32, big_little}
use tayga.Addr.{
  Status, error_none, error_reject, error_drop, is_error, In6Addr, memory_byte, wkpf,
  validate_ip4_addr, is_private_ip4_addr,
}

-- What a function that fills in an address returns: the address, or a negative status.
pub data Result {ℓ} (A : Type ℓ) : Type ℓ where
  ok : A → Result A
  err : Status → Result A

abbrev pub second_half : Endian → ℕ → ℕ
second_half big w = w % 2 ^ 16
second_half little w = w / 2 ^ 16

-- The `switch` of `append_to_prefix`; `none` is its default case.
unfoldable pub append_words : Endian → ℕ → In6Addr → ℕ → Option In6Addr
append_words e a p len =
    if len == 32
    then some (record { w0 = p.w0; w1 = a; w2 = 0; w3 = 0 })
    else if len == 40
    then some (record {
      w0 = p.w0;
      w1 = big_little e (bit_or p.w1 (shr a 8)) (bit_or p.w1 (shl32 a 8));
      w2 = big_little e (bit_and (shl32 a 16) 0x00ff0000) (bit_and (shr a 16) 0x0000ff00);
      w3 = 0;
    })
    else if len == 48
    then some (record {
      w0 = p.w0;
      w1 = big_little e (bit_or p.w1 (shr a 16)) (bit_or p.w1 (shl32 a 16));
      w2 = big_little e (bit_and (shl32 a 8) 0x00ffff00) (bit_and (shr a 8) 0x00ffff00);
      w3 = 0;
    })
    else if len == 56
    then some (record {
      w0 = p.w0;
      w1 = big_little e (bit_or p.w1 (shr a 24)) (bit_or p.w1 (shl32 a 24));
      w2 = big_little e (bit_and a 0x00ffffff) (bit_and a 0xffffff00);
      w3 = 0;
    })
    else if len == 64
    then some (record {
      w0 = p.w0;
      w1 = p.w1;
      w2 = big_little e (shr a 8) (shl32 a 8);
      w3 = big_little e (shl32 a 24) (shr a 24);
    })
    else if len == 96
    then some (record { w0 = p.w0; w1 = p.w1; w2 = p.w2; w3 = a })
    else none

or_drop : Option In6Addr → Result In6Addr
or_drop none = err error_drop
or_drop (some q) = ok q

-- The well-known prefix, in strict mode, carries no private address.
unfoldable pub is_refused : Endian → Bool → ℕ → In6Addr → Bool
is_refused e strict a p =
    p.w0 == wkpf e && p.w1 == 0 && p.w2 == 0 && strict && is_error (is_private_ip4_addr e a)

unfoldable pub append_to_prefix : Endian → Bool → ℕ → In6Addr → ℕ → Result In6Addr
unfolding or_drop
append_to_prefix e strict a p len =
    if is_error (validate_ip4_addr e a)
    then err error_drop
    else if is_refused e strict a p
    then err error_reject
    else or_drop (append_words e a p len)

-- The `switch` of `extract_from_prefix`; `none` is each `return ERROR_DROP` in it.
unfoldable pub extract_words : Endian → In6Addr → ℕ → Option ℕ
extract_words e q len =
    if len == 32
    then (if not (q.w2 == 0) || not (q.w3 == 0) then none else some q.w1)
    else if len == 40
    then (if not (bit_and q.w2 (htonl e 0xff00ffff) == 0) || not (q.w3 == 0)
        then none
        else some (
            big_little e (bit_or (shl32 q.w1 8) (memory_byte e q.w2 1))
              (bit_or (shr q.w1 8) (shl32 q.w2 16))))
    else if len == 48
    then (if not (bit_and q.w2 (htonl e 0xff0000ff) == 0) || not (q.w3 == 0)
        then none
        else some (
            big_little e (bit_or (shl32 (second_half e q.w1) 16) (shr q.w2 8))
              (bit_or (second_half e q.w1) (shl32 q.w2 8))))
    else if len == 56
    then (if not (memory_byte e q.w2 0 == 0) || not (q.w3 == 0)
        then none
        else some (
            big_little e (bit_or (shl32 (memory_byte e q.w1 3) 24) q.w2)
              (bit_or (memory_byte e q.w1 3) q.w2)))
    else if len == 64
    then (if not (memory_byte e q.w2 0 == 0) || not (bit_and q.w3 (htonl e 0x00ffffff) == 0)
        then none
        else some (
            big_little e (bit_or (shl32 q.w2 8) (memory_byte e q.w3 0))
              (bit_or (shr q.w2 8) (shl32 q.w3 24))))
    else if len == 96
    then some q.w3
    else none

-- The address is checked before it is used.
validated : Endian → Option ℕ → Result ℕ
validated e none = err error_drop
validated e (some a) = let s = validate_ip4_addr e a in if is_error s then err s else ok a

unfoldable pub extract_from_prefix : Endian → In6Addr → ℕ → Result ℕ
unfolding validated
extract_from_prefix e q len = validated e (extract_words e q len)
