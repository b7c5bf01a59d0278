-- ===== src/Prefix/Laws.antt =====
-- `append_to_prefix` and `extract_from_prefix` of src/addrmap.c as a whole.
use tayga.Base.{ℕ, ◌^◌, ◌<◌, ◌≡◌, sym, ◌⊎◌, inl, inr, arith, subst, false, none, some, Option, Bool}
use tayga.Word.{Endian, htonl}
use tayga.Addr.Laws.{InNet}
use tayga.Addr.{In6Addr, is_error, validate_ip4_addr}
use tayga.Prefix.{
  ok, validated, append_words, extract_words, is_refused, append_to_prefix, extract_from_prefix,
}
use tayga.Prefix.Bytes.{IsIn6, IsPrefixLen, HasClearHostBits, in_memory, in6_bytes, embed}
use tayga.Prefix.Append.{Places, places32, places40, places48, places56, places64, places96}

places :
    (e : Endian) (a : ℕ) (p : In6Addr) (len : ℕ)
    → a < 2 ^ 32
    → IsIn6 p
    → HasClearHostBits e p len
    → IsPrefixLen len
    → Places e a p len
places e a p len ha hp z s = elim s [
  | inl h ↦ subst P (sym h) (λ c. places32 e a p ha hp) z
  | inr s0 ↦ elim s0 [
    | inl h ↦ subst P (sym h) (λ c. places40 e a p ha hp c) z
    | inr s1 ↦ elim s1 [
      | inl h ↦ subst P (sym h) (λ c. places48 e a p ha hp c) z
      | inr s2 ↦ elim s2 [
        | inl h ↦ subst P (sym h) (λ c. places56 e a p ha hp c) z
        | inr s3 ↦ elim s3 [
          | inl h ↦ subst P (sym h) (λ c. places64 e a p ha hp) z
          | inr h ↦ subst P (sym h) (λ c. places96 e a p ha hp) z
        ]
      ]
    ]
  ]
]
  where
    P : ℕ → Type 0
    P l = HasClearHostBits e p l → Places e a p l

-- An address that may be translated is laid out under the prefix as RFC 6052 draws it.
pub append_to_prefix-embed :
    (e : Endian) (strict : Bool) (a : ℕ) (p : In6Addr) (len : ℕ)
    → a < 2 ^ 32
    → IsIn6 p
    → HasClearHostBits e p len
    → IsPrefixLen len
    → is_error (validate_ip4_addr e a) ≡ false
    → is_refused e strict a p ≡ false
    → (q : In6Addr) × (append_to_prefix e strict a p len ≡ ok q)
      × (in6_bytes e q ≡ embed (in6_bytes e p) (in_memory e a) len)
unfolding append_to_prefix
append_to_prefix-embed e strict a p len ha hp z s v r =
    let (q, h, placed) = places e a p len ha hp z s in (q, ground (arith, h), placed.bytes)

pub append_words-IsPrefixLen :
    (e : Endian) (a : ℕ) (p q : In6Addr) (len : ℕ)
    → append_words e a p len ≡ some q
    → IsPrefixLen len
unfolding append_words
append_words-IsPrefixLen e a p q len h = ground arith

pub append_ok :
    (e : Endian) (strict : Bool) (a : ℕ) (p q : In6Addr) (len : ℕ)
    → append_to_prefix e strict a p len ≡ ok q
    → (is_error (validate_ip4_addr e a) ≡ false) × (append_words e a p len ≡ some q)
unfolding append_to_prefix
append_ok e strict a p q len h = ground arith

validated_ok : (e : Endian) (o : Option ℕ) (a : ℕ) → validated e o ≡ ok a → o ≡ some a
unfolding validated
validated_ok e none a h = ground arith
validated_ok e (some b) a h = ground arith

pub extract_ok :
    (e : Endian) (q : In6Addr) (a len : ℕ)
    → extract_from_prefix e q len ≡ ok a
    → extract_words e q len ≡ some a
unfolding extract_from_prefix
extract_ok e q a len h = validated_ok e (extract_words e q len) a h

-- `extract_from_prefix` gives back the address that `append_to_prefix` put in.
pub extract-append :
    (e : Endian) (strict : Bool) (a : ℕ) (p q : In6Addr) (len : ℕ)
    → a < 2 ^ 32
    → IsIn6 p
    → HasClearHostBits e p len
    → append_to_prefix e strict a p len ≡ ok q
    → extract_from_prefix e q len ≡ ok a
unfolding append_to_prefix extract_from_prefix
extract-append e strict a p q len ha hp z h =
    let (bad, built) = append_ok e strict a p q len h in
    let (q', built', placed) =
      places e a p len ha hp z (append_words-IsPrefixLen e a p q len built) in
    let same : q' ≡ q = cc (built', built) in
    rw (← same) (rw (placed.extracts, validated) (ground arith))

-- `h` is in 0/8, 127/8, 224/4 or 169.254/16, or the broadcast address.
abbrev pub IsBanned : ℕ → Type 0
IsBanned h =
    InNet h 0 24
    ⊎ InNet h 0x7f000000 24
    ⊎ InNet h 0xe0000000 28
    ⊎ (h ≡ 0xffffffff)
    ⊎ InNet h 0xa9fe0000 16

-- `h` is in a range that RFC 6052 calls non-global.
abbrev pub IsPrivate : ℕ → Type 0
IsPrivate h =
    InNet h 0x0a000000 24
    ⊎ InNet h 0x64400000 22
    ⊎ InNet h 0xac100000 20
    ⊎ InNet h 0xc0000200 8
    ⊎ InNet h 0xc0a80000 16
    ⊎ InNet h 0xc6120000 17
    ⊎ InNet h 0xc6336400 8
    ⊎ InNet h 0xcb007100 8
    ⊎ (InNet h 0xc0000000 8 × ¬ InNet h 0xc0000000 3)
    ⊎ InNet h 0xf0000000 28

-- The prefix begins with 64:ff9b::/96.
abbrev pub IsWellKnown : Endian → In6Addr → Type 0
IsWellKnown e p = (htonl e p.w0 ≡ 0x0064ff9b) × (p.w1 ≡ 0) × (p.w2 ≡ 0)
