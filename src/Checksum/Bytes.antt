-- ===== src/Checksum/Bytes.antt =====
-- `ip_checksum` of src/nat64.c, which adds 8 bytes at a time, against the sum of the 16-bit words.
use tayga.Base.{
  ℕ, ◌+◌, ◌-◌, ◌*◌, ◌%◌, ◌^◌, ◌≤◌, ◌<◌, ◌≡◌, refl, ap, ◌∙◌, arith, if◌then◌else◌, ◌==◌, List, [],
  ◌∷◌, All, length,
}
use tayga.Word.{Endian, big, little}
use tayga.Checksum.{
  load, add_carry, sum_words, sum_byte, sum_half, sum_tail, fold16, fold32, fold_loop, ip_checksum,
}

-- The one's complement value of a sum: its residue modulo 65535, where only 0 itself is 0.
abbrev pub ones : ℕ → ℕ
ones s = if s == 0 then 0 else 1 + (s - 1) % 65535

-- The reference: the sum of the 16-bit words of the data, an odd byte padded with a zero behind it.
unfoldable pub sum16 : Endian → List ℕ → ℕ
sum16 e [] = 0
sum16 e (b ∷ []) = load e (b ∷ 0 ∷ [])
sum16 e (b0 ∷ b1 ∷ bs) = load e (b0 ∷ b1 ∷ []) + sum16 e bs

ones-fold16 : (s : ℕ) → ones (fold16 s) ≡ ones s
ones-fold16 s = ground arith

pub fold_loop-ones : (s : ℕ) → s < 2 ^ 64 → fold_loop 6 s ≡ ones s
unfolding fold_loop
fold_loop-ones s h = ground arith

abbrev pub IsByte : ℕ → Type 0
IsByte b = b < 256

-- An invariant of the accumulating sums: positive, in range, and the same residue.
abbrev Carries : ℕ → ℕ → Type 0
Carries s t = (1 ≤ s) × (s % 65535 ≡ t % 65535)

add_carry_lem :
    (s w : ℕ)
    → 1 ≤ s
    → s < 2 ^ 64
    → w < 2 ^ 64
    → (add_carry s w < 2 ^ 64) × (1 ≤ add_carry s w) × (add_carry s w % 65535 ≡ (s + w) % 65535)
unfolding add_carry
add_carry_lem s w h hs hw = ground arith

load8 :
    (e : Endian) (a b c d f g h i : ℕ)
    → All IsByte (a ∷ b ∷ c ∷ d ∷ f ∷ g ∷ h ∷ i ∷ [])
    → (load e (a ∷ b ∷ c ∷ d ∷ f ∷ g ∷ h ∷ i ∷ []) < 2 ^ 64)
      × (load e (a ∷ b ∷ c ∷ d ∷ f ∷ g ∷ h ∷ i ∷ []) % 65535
          ≡ (load e (a ∷ b ∷ []) + load e (c ∷ d ∷ []) + load e (f ∷ g ∷ []) + load e (h ∷ i ∷ []))
            % 65535)
load8 big a b c d f g h i v = (omega arith, omega arith)
load8 little a b c d f g h i v = (omega arith, omega arith)

-- After the wide loop: a sum in range, fewer than 8 bytes, and the residue of the whole.
record IsSummed (e : Endian) (total : ℕ) (r : ℕ × List ℕ) : Type 0 where
  range : r.0 < 2 ^ 64
  positive : 1 ≤ r.0
  short : length r.1 ≤ 7
  bytes : All IsByte r.1
  residue : (r.0 + sum16 e r.1) % 65535 ≡ total % 65535

IsSummed-done :
    (e : Endian) (s : ℕ) (bs : List ℕ)
    → 1 ≤ s
    → s < 2 ^ 64
    → length bs ≤ 7
    → All IsByte bs
    → IsSummed e (s + sum16 e bs) (s, bs)
IsSummed-done e s bs h hs l v = record {
  range = hs;
  positive = h;
  short = l;
  bytes = v;
  residue = refl;
}

sum_words-IsSummed :
    (e : Endian) (s : ℕ) (bs : List ℕ)
    → 1 ≤ s
    → s < 2 ^ 64
    → All IsByte bs
    → IsSummed e (s + sum16 e bs) (sum_words e s bs)
unfolding sum_words sum16
sum_words-IsSummed e s (a ∷ b ∷ c ∷ d ∷ f ∷ g ∷ h ∷ i ∷ bs) p ps v =
    let w = load e (a ∷ b ∷ c ∷ d ∷ f ∷ g ∷ h ∷ i ∷ []) in
    let (wr, wm) = load8 e a b c d f g h i (omega arith) in
    let (r, q, m) = add_carry_lem s w p ps wr in
    let rest = sum_words-IsSummed e (add_carry s w) bs q r v.1.1.1.1.1.1.1.1 in
    record {
      range = rest.range;
      positive = rest.positive;
      short = rest.short;
      bytes = rest.bytes;
      residue = omega (arith, rest.residue);
    }
sum_words-IsSummed e s bs p ps v = IsSummed-done e s bs p ps (omega arith) v

sum_byte_lem :
    (e : Endian) (s : ℕ) (bs : List ℕ)
    → 1 ≤ s
    → s < 2 ^ 62
    → length bs ≤ 1
    → All IsByte bs
    → sum_byte e s bs ≡ s + sum16 e bs
unfolding sum_byte sum16
sum_byte_lem e s [] p ps l v = omega arith
sum_byte_lem big s (b ∷ []) p ps l v = omega arith
sum_byte_lem little s (b ∷ []) p ps l v = omega arith
sum_byte_lem e s (b ∷ c ∷ bs) p ps l v = absurd (omega arith)

load2 : (e : Endian) (a b : ℕ) → a < 256 → b < 256 → load e (a ∷ b ∷ []) < 2 ^ 16
load2 big a b ha hb = omega arith
load2 little a b ha hb = omega arith

load4 :
    (e : Endian) (a b c d : ℕ)
    → a < 256
    → b < 256
    → c < 256
    → d < 256
    → (load e (a ∷ b ∷ c ∷ d ∷ []) < 2 ^ 32)
      × (load e (a ∷ b ∷ c ∷ d ∷ []) % 65535 ≡ (load e (a ∷ b ∷ []) + load e (c ∷ d ∷ [])) % 65535)
load4 big a b c d ha hb hc hd = (omega arith, omega arith)
load4 little a b c d ha hb hc hd = (omega arith, omega arith)

sum_half_lem :
    (e : Endian) (s : ℕ) (bs : List ℕ)
    → 1 ≤ s
    → s < 2 ^ 60
    → length bs ≤ 3
    → All IsByte bs
    → sum_half e s bs ≡ s + sum16 e bs
unfolding sum_half sum_byte sum16
sum_half_lem e s (a ∷ b ∷ bs) p ps l v =
    let w = load2 e a b v.0 v.1.0 in
    let fits : s + load e (a ∷ b ∷ []) < 2 ^ 62 = omega arith in
    let rest = sum_byte_lem e (s + load e (a ∷ b ∷ [])) bs (omega arith) fits (omega arith) v.1.1 in
    let nowrap : (s + load e (a ∷ b ∷ [])) % 2 ^ 64 ≡ s + load e (a ∷ b ∷ []) = omega arith in
    ap (λ (t : ℕ). sum_byte e t bs) nowrap ∙ rest ∙ omega arith
sum_half_lem e s bs p ps l v = sum_byte_lem e s bs p (omega arith) (omega arith) v

sum16-le : (e : Endian) (bs : List ℕ) → All IsByte bs → sum16 e bs ≤ 65536 * length bs
unfolding sum16
sum16-le e [] v = omega arith
sum16-le e (b ∷ []) v = omega (arith, load2 e b 0 v.0 (omega arith))
sum16-le e (b0 ∷ b1 ∷ bs) v = omega (arith, load2 e b0 b1 v.0 v.1.0, sum16-le e bs v.1.1)

-- `sum_tail` adds the last bytes with no wrap.
sum_tail_lem :
    (e : Endian) (s : ℕ) (bs : List ℕ)
    → 1 ≤ s
    → s < 2 ^ 50
    → length bs ≤ 7
    → All IsByte bs
    → (1 ≤ sum_tail e s bs)
      × (sum_tail e s bs < 2 ^ 64)
      × (sum_tail e s bs % 65535 ≡ (s + sum16 e bs) % 65535)
unfolding sum_tail sum16
sum_tail_lem e s (a ∷ b ∷ c ∷ d ∷ bs) p ps l v =
    let (w, m) = load4 e a b c d v.0 v.1.0 v.1.1.0 v.1.1.1.0 in
    let word = load e (a ∷ b ∷ c ∷ d ∷ []) in
    let nowrap : (s + word) % 2 ^ 64 ≡ s + word = omega arith in
    let below : s + word < 2 ^ 60 = omega arith in
    let rest = sum_half_lem e (s + word) bs (omega arith) below (omega arith) v.1.1.1.1 in
    let sum : sum_half e ((s + word) % 2 ^ 64) bs ≡ s + word + sum16 e bs =
      ap (λ (t : ℕ). sum_half e t bs) nowrap ∙ rest in
    omega (arith, sum16-le e bs v.1.1.1.1)
sum_tail_lem e s bs p ps l v =
    omega (arith, sum_half_lem e s bs p (omega arith) (omega arith) v, sum16-le e bs v)

fold32_twice :
    (s : ℕ)
    → 1 ≤ s
    → s < 2 ^ 64
    → (1 ≤ fold32 (fold32 s))
      × (fold32 (fold32 s) < 2 ^ 50)
      × (fold32 (fold32 s) % 65535 ≡ s % 65535)
fold32_twice s p h = (omega arith, omega arith, omega arith)

pub complement :
    (a b : ℕ) → 1 ≤ a → 1 ≤ b → a % 65535 ≡ b % 65535 → 65535 - ones a % 65536 ≡ 65535 - ones b
complement a b ha hb h = ground arith

-- `ip_checksum`, which adds 8 bytes at a time, is the complement of the one's complement sum of the
-- 16-bit words, for data of any length.
pub ip_checksum_lem :
    (e : Endian) (bs : List ℕ)
    → All IsByte bs
    → ip_checksum e bs ≡ 65535 - ones (0xffff + sum16 e bs)
unfolding ip_checksum
ip_checksum_lem e bs v =
    let sum : ℕ = (sum_words e 0xffff bs).0 in
    let left : List ℕ = (sum_words e 0xffff bs).1 in
    let folded : ℕ = fold32 (fold32 sum) in
    let wide = sum_words-IsSummed e 0xffff bs (omega arith) (omega arith) v in
    let range : sum < 2 ^ 64 = wide.range in
    let positive : 1 ≤ sum = wide.positive in
    let residue : (sum + sum16 e left) % 65535 ≡ (0xffff + sum16 e bs) % 65535 = wide.residue in
    let (f1, f2, f3) = fold32_twice sum positive range in
    let (t1, t2, t3) = sum_tail_lem e folded left f1 f2 wide.short wide.bytes in
    ap (λ (t : ℕ). 65535 - t % 65536) (fold_loop-ones (sum_tail e folded left) t2)
    ∙ complement (sum_tail e folded left) (0xffff + sum16 e bs) t1 (omega arith) (t3 ∙ omega arith)
