-- ===== src/Resolve/Suffix.antt =====
-- A suffix that `map_ip4_to_ip6` writes behind a prefix is the one that `map_ip6_to_ip4` reads.
use tayga.Base.{
  ℕ, ◌+◌, ◌-◌, ◌*◌, ◌/◌, ◌%◌, ◌^◌, ◌≤◌, ◌<◌, bit_and, bit_or, ◌≡◌, sym, ap, ap₂, ◌∙◌, inl, inr,
  arith, true, if◌then◌else◌, ◌==◌, ltb, Bool-cases, div-add-mod,
}
use tayga.Word.{Endian, htonl, u32, u64}
use tayga.Word.Laws.{htonl-lt}
use tayga.Addr.{In6Addr}
use tayga.Mask.Laws.{IsNet6, host_bits}
use tayga.Prefix.Bytes.{IsIn6}
use tayga.Resolve.{word_at, spread, gather}
use tayga.Resolve.Window.{
  word_at-or_word, word_at-or_word_ne, taken, two_pow_mono, shifted-lt, high-lt, low_clear,
  read_back, joined,
}

word_at-lt : (i : ℕ) (a : In6Addr) → IsIn6 a → word_at a i < 2 ^ 32
word_at-lt i a h = ground arith

-- Below the prefix the words are clear.
net_word :
    (e : Endian) (len i : ℕ) (a : In6Addr)
    → i ≤ 3
    → IsNet6 e len a
    → htonl e (word_at a i) % 2 ^ host_bits len i ≡ 0
net_word e len i a h z = elim (Bool-cases (i == 0)) [
  | inl p ↦ at_index 0 a.w0 (ground arith) (ground arith) z.0
  | inr p ↦ elim (Bool-cases (i == 1)) [
    | inl q ↦ at_index 1 a.w1 (ground arith) (ground arith) z.1
    | inr q ↦ elim (Bool-cases (i == 2)) [
      | inl r ↦ at_index 2 a.w2 (ground arith) (ground arith) z.2
      | inr r ↦ at_index 3 a.w3 (ground arith) (ground arith) z.3
    ]
  ]
]
  where
    at_index :
        (j w : ℕ)
        → i ≡ j
        → word_at a i ≡ w
        → htonl e w % 2 ^ host_bits len j ≡ 0
        → htonl e (word_at a i) % 2 ^ host_bits len i ≡ 0
    at_index j w s q c =
        ap (λ (t : ℕ). htonl e t % 2 ^ host_bits len i) q
        ∙ ap (λ (t : ℕ). htonl e w % 2 ^ host_bits len t) s
        ∙ c

first_clear :
    (e : Endian) (pos : ℕ) (a : In6Addr)
    → pos < 128
    → IsNet6 e pos a
    → htonl e (word_at a (pos / 32)) % 2 ^ (32 - pos % 32) ≡ 0
first_clear e pos a p z =
    let here : host_bits pos (pos / 32) ≡ 32 - pos % 32 = ground arith in
    ap (λ (t : ℕ). htonl e (word_at a (pos / 32)) % 2 ^ t) (sym here)
    ∙ net_word e pos (pos / 32) a (omega arith) z

next_clear :
    (e : Endian) (pos : ℕ) (a : In6Addr)
    → pos / 32 + 1 ≤ 3
    → IsIn6 a
    → IsNet6 e pos a
    → htonl e (word_at a (pos / 32 + 1)) ≡ 0
next_clear e pos a p h z =
    let there : host_bits pos (pos / 32 + 1) ≡ 32 = ground arith in
    let clear : htonl e (word_at a (pos / 32 + 1)) % 2 ^ 32 ≡ 0 =
      ap (λ (t : ℕ). htonl e (word_at a (pos / 32 + 1)) % 2 ^ t) (sym there)
      ∙ net_word e pos (pos / 32 + 1) a p z in
    omega (arith, htonl-lt e (word_at a (pos / 32 + 1)) (word_at-lt (pos / 32 + 1) a h))

gather_words :
    (e : Endian) (pos bits x y : ℕ) (q : In6Addr)
    → htonl e (word_at q (pos / 32)) ≡ x
    → (if ltb 32 (pos % 32 + bits) then htonl e (word_at q (pos / 32 + 1)) else 0) ≡ y
    → gather e pos bits q
      ≡ u32 (
          bit_and
            (bit_or (u64 (x * 2 ^ 32)) y / 2 ^ (64 - pos % 32 - bits))
            ((2 ^ 64 - 1) / 2 ^ (64 - bits)))
unfolding gather
gather_words e pos bits x y q hx hy =
    ap₂
      (λ (v w : ℕ). u32 (
        bit_and (bit_or (u64 (v * 2 ^ 32)) w / 2 ^ (64 - pos % 32 - bits))
          ((2 ^ 64 - 1) / 2 ^ (64 - bits))))
      hx hy

-- The words of `spread`, by the window of 64 bits that it writes.
module _ (e : Endian) (pos bits v : ℕ) (a : In6Addr) (p : pos + bits ≤ 128) (b : 1 ≤ bits)
    (c : bits ≤ 32) where
  first_word :
      word_at (spread e pos bits v a) (pos / 32)
      ≡ bit_or
          (word_at a (pos / 32))
          (htonl e (u32 (u64 (v * 2 ^ (64 - pos % 32 - bits)) / 2 ^ 32)))
  unfolding spread
  first_word = elim (Bool-cases (ltb 32 (pos % 32 + bits))) [
    | inl wide ↦ rw wide (
        word_at-or_word_ne (pos / 32 + 1) (pos / 32) _ _ (ground arith) (omega arith)
          (λ q. omega arith)
        ∙ word_at-or_word (pos / 32) _ a (omega arith))
    | inr narrow ↦ rw narrow (word_at-or_word (pos / 32) _ a (omega arith))
  ]

  next_word :
      ltb 32 (pos % 32 + bits) ≡ true
      → word_at (spread e pos bits v a) (pos / 32 + 1)
        ≡ bit_or (word_at a (pos / 32 + 1)) (htonl e (u32 (u64 (v * 2 ^ (64 - pos % 32 - bits)))))
  unfolding spread
  next_word wide = rw wide (
      word_at-or_word (pos / 32 + 1) _ _ (ground arith)
      ∙ ap (λ (t : ℕ). bit_or t (htonl e (u32 (u64 (v * 2 ^ (64 - pos % 32 - bits))))))
          (word_at-or_word_ne (pos / 32) (pos / 32 + 1) _ a (omega arith) (ground arith)
            (λ q. omega arith)))

-- What `map_ip4_to_ip6` spreads over two words is what `map_ip6_to_ip4` gathers.
pub gather-spread :
    (e : Endian) (pos bits suffix : ℕ) (a : In6Addr)
    → IsIn6 a
    → IsNet6 e pos a
    → pos + bits ≤ 128
    → 1 ≤ bits
    → bits ≤ 32
    → suffix < 2 ^ bits
    → gather e pos bits (spread e pos bits suffix a) ≡ suffix
gather-spread e pos bits suffix a ha z p b1 b2 f =
    gather_words e pos bits (n * 2 ^ (32 - pos % 32) + sh / 2 ^ 32) (sh % 2 ^ 32)
      (spread e pos bits suffix a)
      (ap (htonl e) (first_word e pos bits suffix a p b1 b2)
        ∙ ap (λ (t : ℕ). htonl e (bit_or word (htonl e t))) high
        ∙ top)
      low
    ∙ ap
        (λ (t : ℕ). u32 (bit_and (t / 2 ^ (64 - pos % 32 - bits)) ((2 ^ 64 - 1) / 2 ^ (64 - bits))))
        (joined (pos % 32) bits suffix f o b2 n
          (rw (← whole) (htonl-lt e word (word_at-lt (pos / 32) a ha))))
    ∙ ap u32 (read_back (pos % 32) bits suffix f o b2 n)
    ∙ omega (arith, below)
  where
    word : ℕ
    word = word_at a (pos / 32)

    n : ℕ
    n = htonl e word / 2 ^ (32 - pos % 32)

    sh : ℕ
    sh = suffix * 2 ^ (64 - pos % 32 - bits)

    o : pos % 32 < 32
    o = omega arith

    below : suffix < 2 ^ 32
    below = omega (arith, two_pow_mono bits 32 b2)

    clear : htonl e word % 2 ^ (32 - pos % 32) ≡ 0
    clear = first_clear e pos a (omega arith) z

    whole : htonl e word ≡ n * 2 ^ (32 - pos % 32)
    whole = omega (arith, div-add-mod (htonl e word) (2 ^ (32 - pos % 32)), clear)

    room : 2 ^ (64 - pos % 32) ≤ 2 ^ 64
    room = two_pow_mono (64 - pos % 32) 64 (omega arith)

    sh-lt : sh < 2 ^ 64
    sh-lt = omega (arith, shifted-lt (pos % 32) bits suffix f o b2, room)

    high : u32 (u64 sh / 2 ^ 32) ≡ sh / 2 ^ 32
    high = omega (arith, sh-lt)

    top : htonl e (bit_or word (htonl e (sh / 2 ^ 32))) ≡ n * 2 ^ (32 - pos % 32) + sh / 2 ^ 32
    top =
        taken e (32 - pos % 32) word (sh / 2 ^ 32) (word_at-lt (pos / 32) a ha) clear
          (high-lt (pos % 32) bits suffix f o b2) (omega (arith, sh-lt))
        ∙ ap (λ (t : ℕ). t + sh / 2 ^ 32) whole

    low :
        (if ltb 32 (pos % 32 + bits)
          then htonl e (word_at (spread e pos bits suffix a) (pos / 32 + 1))
          else 0)
        ≡ sh % 2 ^ 32
    low = elim (Bool-cases (ltb 32 (pos % 32 + bits))) [
      | inl wide ↦
          let there : pos / 32 + 1 ≤ 3 = ground arith in
          let zero_word = next_clear e pos a there ha z in
          rw wide (
            ap (htonl e) (next_word e pos bits suffix a p b1 b2 wide)
            ∙ ap (λ (t : ℕ). htonl e (bit_or (word_at a (pos / 32 + 1)) (htonl e t)))
                (omega (arith, sh-lt))
            ∙ taken e 32 (word_at a (pos / 32 + 1)) (sh % 2 ^ 32) (word_at-lt (pos / 32 + 1) a ha)
                (omega (arith, zero_word)) (omega arith) (omega arith)
            ∙ omega (arith, zero_word))
      | inr narrow ↦ rw narrow (sym (low_clear (pos % 32) bits suffix f o b2 (ground arith)))
    ]
