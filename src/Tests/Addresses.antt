-- ===== src/Tests/Addresses.antt =====
-- Address checks, masks and RFC 6052 prefixes of src/addrmap.c at concrete inputs.
use tayga.Base.{ℕ, ◌≡◌, refl, inl, inr, arith, false}
use tayga.Word.{little, htonl}
use tayga.Addr.{In6Addr, validate_ip4_addr, is_private_ip4_addr}
use tayga.Prefix.{ok, is_refused, append_words, append_to_prefix, extract_from_prefix}
use tayga.Prefix.Bytes.{in_memory, in6_bytes, embed}
use tayga.Prefix.Laws.{append_to_prefix-embed, extract-append}

-- 192.0.2.33 as `s_addr`, and 64:ff9b::/96.
abbrev host : ℕ
host = 0x210200c0

abbrev wkp : In6Addr
wkp = record { w0 = 0x9bff6400; w1 = 0; w2 = 0; w3 = 0 }

abbrev mapped : In6Addr
mapped = record { w0 = 0x9bff6400; w1 = 0; w2 = 0; w3 = 0x210200c0 }

-- 2001:db8:100::/40 with the same address.
abbrev short_prefix : In6Addr
short_prefix = record { w0 = 0xb80d0120; w1 = 0x01; w2 = 0; w3 = 0 }

append_to_prefix-embed_example :
    (q : In6Addr) × (append_to_prefix little false host short_prefix 40 ≡ ok q)
    × (in6_bytes little q ≡ embed (in6_bytes little short_prefix) (in_memory little host) 40)
unfolding validate_ip4_addr htonl is_refused is_private_ip4_addr
append_to_prefix-embed_example =
    append_to_prefix-embed little false host short_prefix 40 (omega arith) (omega arith) refl
      (inr (inl refl)) refl refl

extract-append_example : extract_from_prefix little mapped 96 ≡ ok host
unfolding validate_ip4_addr htonl is_refused is_private_ip4_addr append_to_prefix append_words
extract-append_example =
    extract-append little false host wkp mapped 96 (omega arith) (omega arith) refl refl
