-- ===== src/Resolve/Window.antt =====
-- The 64-bit window in which `map_ip4_to_ip6` places a suffix, and the two words that it writes.
use tayga.Base.{
  ℕ, ◌+◌, ◌-◌, ◌*◌, ◌/◌, ◌%◌, ◌^◌, ◌≤◌, ◌<◌, bit_and, bit_or, ◌≡◌, refl, sym, ap, ap₂, ◌∙◌, arith,
  true, ◌==◌, bit_or_add, bit_and_mask, one-le-pow, pow_add, div-add-mod, every, every_lem, ==_iff,
  quotient_remainder, below_div, ◌≢◌, mul-div_cancel,
}
use tayga.Word.{Endian, htonl, u64}
use tayga.Word.Laws.{htonl-htonl, htonl-bit_or}
use tayga.Addr.{In6Addr}
use native.Mathlib.Nat.{pow-le-pow_right}
use tayga.Resolve.{word_at, or_word}

-- The two words of a 64-bit window: `n` bits above, then the suffix, then `2 ^ k` unused.
ones_table : every (λ b. (2 ^ 64 - 1) / 2 ^ (64 - b) == 2 ^ b - 1) 65 ≡ true
ones_table = refl

pub window :
    (n k bits suffix : ℕ)
    → suffix < 2 ^ bits
    → bits ≤ 64
    → bit_and ((n * 2 ^ (bits + k) + suffix * 2 ^ k) / 2 ^ k) ((2 ^ 64 - 1) / 2 ^ (64 - bits))
      ≡ suffix
window n k bits suffix h b =
    ap₂ bit_and above ones
    ∙ bit_and_mask bits (n * 2 ^ bits + suffix)
    ∙ (quotient_remainder bits n suffix h).1
  where
    split : n * 2 ^ (bits + k) + suffix * 2 ^ k ≡ (n * 2 ^ bits + suffix) * 2 ^ k + 0
    split = rw (pow_add bits k) (grind arith)

    above : (n * 2 ^ (bits + k) + suffix * 2 ^ k) / 2 ^ k ≡ n * 2 ^ bits + suffix
    above =
        ap (λ (t : ℕ). t / 2 ^ k) split
        ∙ (quotient_remainder k (n * 2 ^ bits + suffix) 0 (omega (arith, one-le-pow k 2))).0

    ones : (2 ^ 64 - 1) / 2 ^ (64 - bits) ≡ 2 ^ bits - 1
    ones =
        (==_iff _ _).0 (
          every_lem (λ c. (2 ^ 64 - 1) / 2 ^ (64 - c) == 2 ^ c - 1) bits 65 (omega arith)
            ones_table)

pub word_at-or_word :
    (i x : ℕ) (a : In6Addr) → i ≤ 3 → word_at (or_word i x a) i ≡ bit_or (word_at a i) x
word_at-or_word i x a h = ground arith

pub word_at-or_word_ne :
    (i j x : ℕ) (a : In6Addr) → i ≤ 3 → j ≤ 3 → i ≢ j → word_at (or_word i x a) j ≡ word_at a j
word_at-or_word_ne i j x a h k n = ground arith

-- A word that takes the number `x` in its clear low bits.
pub taken :
    (e : Endian) (k w x : ℕ)
    → w < 2 ^ 32
    → htonl e w % 2 ^ k ≡ 0
    → x < 2 ^ k
    → x < 2 ^ 32
    → htonl e (bit_or w (htonl e x)) ≡ htonl e w + x
taken e k w x hw z hx hx' =
    htonl-bit_or e w (htonl e x)
    ∙ ap₂ bit_or whole (htonl-htonl e x hx')
    ∙ bit_or_add k (htonl e w / 2 ^ k) x hx
    ∙ ap (λ (t : ℕ). t + x) (sym whole)
  where
    whole : htonl e w ≡ htonl e w / 2 ^ k * 2 ^ k
    whole = omega (arith, div-add-mod (htonl e w) (2 ^ k))

pub two_pow_mono : (j k : ℕ) → j ≤ k → 2 ^ j ≤ 2 ^ k
two_pow_mono j k h = pow-le-pow_right {n = 2} (omega arith) h

scaled : (a b c : ℕ) → a < b → 1 ≤ c → a * c < b * c
scaled a b c h k = grind arith

triple : (a b c : ℕ) → a * (b * c) ≡ a * b * c
triple a b c = grind arith

quotient : (n c : ℕ) → 0 < c → n * c / c ≡ n
quotient n c h = mul-div_cancel n h

below_sum : (n c d x t : ℕ) → t ≡ c * d → x < c → n * c < t → n * c + x < t
below_sum n c d x t e h k =
    let room : n * c < c * d = omega (arith, e) in
    let whole : n * c / c ≡ n = quotient n c (omega arith) in
    let less : n < d = omega (arith, below_div c d (n * c) room) in
    let next : (n + 1) * c ≤ d * c = grind arith in grind arith

-- What the two words hold: the suffix at the bits that are wanted.
module _ (off bits suffix : ℕ) (fits : suffix < 2 ^ bits) (o : off < 32) (b : bits ≤ 32) where
  abbrev shifted : ℕ
  shifted = suffix * 2 ^ (64 - off - bits)

  pub shifted-lt : shifted < 2 ^ (64 - off)
  shifted-lt =
      let e : 64 - off ≡ bits + (64 - off - bits) = omega arith in
      rw (ap (λ (t : ℕ). 2 ^ t) e, pow_add bits (64 - off - bits))
        (scaled suffix (2 ^ bits) (2 ^ (64 - off - bits)) fits
          (omega (arith, one-le-pow (64 - off - bits) 2)))

  pub high-lt : shifted / 2 ^ 32 < 2 ^ (32 - off)
  high-lt =
      let e : 64 - off ≡ 32 + (32 - off) = omega arith in
      below_div (2 ^ 32) (2 ^ (32 - off)) shifted (rw (← pow_add 32 (32 - off), ← e) shifted-lt)

  pub low_clear : off + bits ≤ 32 → shifted % 2 ^ 32 ≡ 0
  low_clear h =
      let e : 64 - off - bits ≡ 32 + (32 - off - bits) = omega arith in
      let split : shifted ≡ suffix * 2 ^ (32 - off - bits) * 2 ^ 32 + 0 =
        ap (λ (t : ℕ). suffix * 2 ^ t) e
        ∙ ap (λ (t : ℕ). suffix * t) (pow_add 32 (32 - off - bits))
        ∙ grind arith in
      ap (λ (t : ℕ). t % 2 ^ 32) split
      ∙ (quotient_remainder 32 (suffix * 2 ^ (32 - off - bits)) 0 (omega arith)).1

  -- Read back from the sum of what stood above and the suffix.
  pub read_back :
      (n : ℕ)
      → bit_and
          ((n * 2 ^ (64 - off) + shifted) / 2 ^ (64 - off - bits))
          ((2 ^ 64 - 1) / 2 ^ (64 - bits))
        ≡ suffix
  read_back n =
      let e : 64 - off ≡ bits + (64 - off - bits) = omega arith in
      ap
        (λ (t : ℕ).
          bit_and ((n * 2 ^ t + shifted) / 2 ^ (64 - off - bits)) ((2 ^ 64 - 1) / 2 ^ (64 - bits)))
        e
      ∙ window n (64 - off - bits) bits suffix fits (omega arith)

  -- The word that takes the high part stays a word.
  high_word : (n : ℕ) → n * 2 ^ (32 - off) < 2 ^ 32 → n * 2 ^ (32 - off) + shifted / 2 ^ 32 < 2 ^ 32
  high_word n h =
      let e : 32 ≡ (32 - off) + off = omega arith in
      let total : 2 ^ 32 ≡ 2 ^ (32 - off) * 2 ^ off =
        ap (λ (t : ℕ). 2 ^ t) e ∙ pow_add (32 - off) off in
      below_sum n (2 ^ (32 - off)) (2 ^ off) (shifted / 2 ^ 32) (2 ^ 32) total high-lt h

  -- The two words as one.
  pub joined :
      (n : ℕ)
      → n * 2 ^ (32 - off) < 2 ^ 32
      → bit_or (u64 ((n * 2 ^ (32 - off) + shifted / 2 ^ 32) * 2 ^ 32)) (shifted % 2 ^ 32)
        ≡ n * 2 ^ (64 - off) + shifted
  joined n h =
      let w = high_word n h in
      let top : u64 ((n * 2 ^ (32 - off) + shifted / 2 ^ 32) * 2 ^ 32)
          ≡ (n * 2 ^ (32 - off) + shifted / 2 ^ 32) * 2 ^ 32 =
        omega arith in
      let e : 64 - off ≡ (32 - off) + 32 = omega arith in
      rw top (
        bit_or_add 32 (n * 2 ^ (32 - off) + shifted / 2 ^ 32) (shifted % 2 ^ 32) (omega arith)
        ∙ rw (ap (λ (t : ℕ). 2 ^ t) e, pow_add (32 - off) 32)
            (omega (arith, triple n (2 ^ (32 - off)) (2 ^ 32))))
