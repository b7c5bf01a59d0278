-- ===== src/Prefix/Append.antt =====
-- What `append_to_prefix` builds, for each prefix length that RFC 6052 allows: the bytes of the picture
-- there, from which `extract_from_prefix` reads the same address.
use tayga.Base.{
  ℕ, ◌+◌, ◌*◌, ◌/◌, ◌%◌, ◌^◌, ◌<◌, bit_and, bit_or, ◌≡◌, refl, sym, ap, ap₂, ◌∙◌, arith, bit_and_lt,
  bit_or_lt, some,
}
use tayga.Word.{Endian, big, little, htonl, shl32, shr, big_little}
use tayga.Word.Laws.{htonl-lt, htonl-htonl, htonl-zero}
use tayga.Addr.{In6Addr}
use tayga.Prefix.{append_words, extract_words}
use tayga.Prefix.Words.{join40, tail40, join48, tail48, join56, tail56, middle64, tail64}
use tayga.Prefix.Extract.{extract40, extract48, extract56, extract64}
use tayga.Prefix.Bytes.{
  IsIn6, HasClearHostBits, in_memory, in6_bytes, in_memory-octets, in6_bytes-octets, embed, octets,
  octets16, Pictured40, Pictured48, Pictured56, Pictured64,
}

-- `q` is the address `a` under the prefix `p`.
pub record IsPlaced (e : Endian) (a : ℕ) (p : In6Addr) (len : ℕ) (q : In6Addr) : Type 0 where
  pub words : IsIn6 q
  pub bytes : in6_bytes e q ≡ embed (in6_bytes e p) (in_memory e a) len
  pub extracts : extract_words e q len ≡ some a

abbrev pub Places : Endian → ℕ → In6Addr → ℕ → Type 0
Places e a p len = (q : In6Addr) × (append_words e a p len ≡ some q) × IsPlaced e a p len q

pictured_bytes :
    (e : Endian) (a : ℕ) (p q : In6Addr) (len : ℕ)
    → a < 2 ^ 32
    → IsIn6 p
    → IsIn6 q
    → octets16 (htonl e q.w0) (htonl e q.w1) (htonl e q.w2) (htonl e q.w3)
      ≡ embed
          (octets16 (htonl e p.w0) (htonl e p.w1) (htonl e p.w2) (htonl e p.w3))
          (octets (htonl e a))
          len
    → in6_bytes e q ≡ embed (in6_bytes e p) (in_memory e a) len
pictured_bytes e a p q len ha hp hq h =
    in6_bytes-octets e q hq
    ∙ h
    ∙ ap₂ (λ s t. embed s t len) (sym (in6_bytes-octets e p hp)) (sym (in_memory-octets e a ha))

big_little_lt : (e : Endian) (n x y : ℕ) → x < n → y < n → big_little e x y < n
big_little_lt big n x y h h' = h
big_little_lt little n x y h h' = h'

module _ (e : Endian) (a : ℕ) (p : In6Addr) (ha : a < 2 ^ 32) (hp : IsIn6 p) where
  pub places32 : Places e a p 32
  unfolding append_words extract_words
  places32 =
      let q : In6Addr = record { w0 = p.w0; w1 = a; w2 = 0; w3 = 0 } in
      let words : IsIn6 q = (hp.0, ha, omega arith, omega arith) in
      (
        q,
        refl,
        record {
          words = words;
          bytes =
              pictured_bytes e a p q 32 ha hp words (
                ap₂ (λ s t. octets16 (htonl e p.w0) (htonl e a) s t) (htonl-zero e) (htonl-zero e));
          extracts = refl;
        },
      )

  pub places96 : Places e a p 96
  unfolding append_words extract_words
  places96 =
      let q : In6Addr = record { w0 = p.w0; w1 = p.w1; w2 = p.w2; w3 = a } in
      let words : IsIn6 q = (hp.0, hp.1, hp.2, ha) in
      (
        q,
        refl,
        record {
          words = words;
          bytes = pictured_bytes e a p q 96 ha hp words refl;
          extracts = refl;
        },
      )

  pub places40 : HasClearHostBits e p 40 → Places e a p 40
  unfolding append_words
  places40 z =
      let w1 = big_little e (bit_or p.w1 (shr a 8)) (bit_or p.w1 (shl32 a 8)) in
      let w2 = big_little e (bit_and (shl32 a 16) 0x00ff0000) (bit_and (shr a 16) 0x0000ff00) in
      let q : In6Addr = record { w0 = p.w0; w1 = w1; w2 = w2; w3 = 0 } in
      let e1 : htonl e w1 ≡ htonl e p.w1 + htonl e a / 2 ^ 8 = join40 e a p.w1 ha hp.1 z in
      let e2 : htonl e w2 ≡ htonl e a % 2 ^ 8 * 2 ^ 16 = tail40 e a ha in
      let words : IsIn6 q = (
        hp.0,
        big_little_lt e (2 ^ 32) _ _ (bit_or_lt 32 p.w1 (shr a 8) hp.1 (omega arith))
            (bit_or_lt 32 p.w1 (shl32 a 8) hp.1 (omega arith)),
        big_little_lt e (2 ^ 32) _ _ (bit_and_lt 32 (shl32 a 16) 0x00ff0000 (omega arith))
            (bit_and_lt 32 (shr a 16) 0x0000ff00 (omega arith)),
        omega arith,
      ) in
      let h : htonl e a < 2 ^ 32 = htonl-lt e a ha in
      (
        q,
        refl,
        record {
          words = words;
          bytes = pictured_bytes e a p q 40 ha hp words (
              ap (octets16 (htonl e p.w0) (htonl e w1) (htonl e w2)) (htonl-zero e)
              ∙ Pictured40 (htonl e p.w0) (htonl e p.w1) (htonl e p.w2) (htonl e p.w3) (htonl e a)
                  (htonl e w1) (htonl e w2) h z e1 (e2 ∙ omega arith));
          extracts = extract40 e q words ∙ ground (arith, e1, e2, htonl-htonl e a ha);
        },
      )

  pub places48 : HasClearHostBits e p 48 → Places e a p 48
  unfolding append_words
  places48 z =
      let w1 = big_little e (bit_or p.w1 (shr a 16)) (bit_or p.w1 (shl32 a 16)) in
      let w2 = big_little e (bit_and (shl32 a 8) 0x00ffff00) (bit_and (shr a 8) 0x00ffff00) in
      let q : In6Addr = record { w0 = p.w0; w1 = w1; w2 = w2; w3 = 0 } in
      let e1 : htonl e w1 ≡ htonl e p.w1 + htonl e a / 2 ^ 16 = join48 e a p.w1 ha hp.1 z in
      let e2 : htonl e w2 ≡ htonl e a % 2 ^ 16 * 2 ^ 8 = tail48 e a ha in
      let words : IsIn6 q = (
        hp.0,
        big_little_lt e (2 ^ 32) _ _ (bit_or_lt 32 p.w1 (shr a 16) hp.1 (omega arith))
            (bit_or_lt 32 p.w1 (shl32 a 16) hp.1 (omega arith)),
        big_little_lt e (2 ^ 32) _ _ (bit_and_lt 32 (shl32 a 8) 0x00ffff00 (omega arith))
            (bit_and_lt 32 (shr a 8) 0x00ffff00 (omega arith)),
        omega arith,
      ) in
      let h : htonl e a < 2 ^ 32 = htonl-lt e a ha in
      (
        q,
        refl,
        record {
          words = words;
          bytes = pictured_bytes e a p q 48 ha hp words (
              ap (octets16 (htonl e p.w0) (htonl e w1) (htonl e w2)) (htonl-zero e)
              ∙ Pictured48 (htonl e p.w0) (htonl e p.w1) (htonl e p.w2) (htonl e p.w3) (htonl e a)
                  (htonl e w1) (htonl e w2) h z e1 (e2 ∙ omega arith));
          extracts = extract48 e q words ∙ ground (arith, e1, e2, htonl-htonl e a ha);
        },
      )

  pub places56 : HasClearHostBits e p 56 → Places e a p 56
  unfolding append_words
  places56 z =
      let w1 = big_little e (bit_or p.w1 (shr a 24)) (bit_or p.w1 (shl32 a 24)) in
      let w2 = big_little e (bit_and a 0x00ffffff) (bit_and a 0xffffff00) in
      let q : In6Addr = record { w0 = p.w0; w1 = w1; w2 = w2; w3 = 0 } in
      let e1 : htonl e w1 ≡ htonl e p.w1 + htonl e a / 2 ^ 24 = join56 e a p.w1 ha hp.1 z in
      let e2 : htonl e w2 ≡ htonl e a % 2 ^ 24 * 2 ^ 0 = tail56 e a ha in
      let words : IsIn6 q = (
        hp.0,
        big_little_lt e (2 ^ 32) _ _ (bit_or_lt 32 p.w1 (shr a 24) hp.1 (omega arith))
            (bit_or_lt 32 p.w1 (shl32 a 24) hp.1 (omega arith)),
        big_little_lt e (2 ^ 32) _ _ (bit_and_lt 32 a 0x00ffffff (omega arith))
            (bit_and_lt 32 a 0xffffff00 (omega arith)),
        omega arith,
      ) in
      let h : htonl e a < 2 ^ 32 = htonl-lt e a ha in
      (
        q,
        refl,
        record {
          words = words;
          bytes = pictured_bytes e a p q 56 ha hp words (
              ap (octets16 (htonl e p.w0) (htonl e w1) (htonl e w2)) (htonl-zero e)
              ∙ Pictured56 (htonl e p.w0) (htonl e p.w1) (htonl e p.w2) (htonl e p.w3) (htonl e a)
                  (htonl e w1) (htonl e w2) h z e1 (e2 ∙ omega arith));
          extracts = extract56 e q words ∙ ground (arith, e1, e2, htonl-htonl e a ha);
        },
      )

  pub places64 : Places e a p 64
  unfolding append_words
  places64 =
      let w2 = big_little e (shr a 8) (shl32 a 8) in
      let w3 = big_little e (shl32 a 24) (shr a 24) in
      let q : In6Addr = record { w0 = p.w0; w1 = p.w1; w2 = w2; w3 = w3 } in
      let e2 : htonl e w2 ≡ htonl e a / 2 ^ 8 = middle64 e a ha in
      let e3 : htonl e w3 ≡ htonl e a % 2 ^ 8 * 2 ^ 24 = tail64 e a ha in
      let words : IsIn6 q = (
        hp.0,
        hp.1,
        big_little_lt e (2 ^ 32) _ _ (omega arith) (omega arith),
        big_little_lt e (2 ^ 32) _ _ (omega arith) (omega arith),
      ) in
      let h : htonl e a < 2 ^ 32 = htonl-lt e a ha in
      (
        q,
        refl,
        record {
          words = words;
          bytes = pictured_bytes e a p q 64 ha hp words (
              Pictured64 (htonl e p.w0) (htonl e p.w1) (htonl e p.w2) (htonl e p.w3) (htonl e a)
                (htonl e w2) (htonl e w3) h e2 e3);
          extracts = extract64 e q words ∙ ground (arith, e2, e3, htonl-htonl e a ha);
        },
      )
