-- ===== src/Fragment/Laws.antt =====
-- The fragments of src/nat64.c cover the data, in order and within the MTU.
use tayga.Base.{
  ℕ, zero, suc, ◌+◌, ◌-◌, ◌*◌, ◌/◌, ◌%◌, ◌^◌, ◌≤◌, bit_or, ◌≡◌, refl, ap, ◌∙◌, ◌⊎◌, inl, inr, arith,
  Bool, true, false, ◌||◌, not, if◌then◌else◌, ◌==◌, ltb, List, [], ◌∷◌, Bool-cases, bit_or_add,
}
use tayga.Word.{u16}
use tayga.Fragment.{Frag, frag_at, frag_loop}

-- The fragments carry `len` bytes from `start` on, the first at offset `off`: they are contiguous,
-- none is empty or larger than `room`, all but the last are multiples of 8 and say that more follow,
-- and the last says what the packet itself said.
abbrev pub Covers : ℕ → Bool → ℕ → ℕ → ℕ → List Frag → Type 0
Covers room mf start off len [] = len ≡ 0
Covers room mf start off len (f ∷ fs) =
    (f.start ≡ start)
    × (1 ≤ f.size)
    × (f.size ≤ room)
    × (f.size ≤ len)
    × (f.payload_length ≡ 8 + f.size)
    × (f.offset_flags ≡ off + (if not (len - f.size == 0) || mf then 1 else 0))
    × ((len ≡ f.size) ⊎ (f.size % 8 ≡ 0))
    × Covers room mf (start + f.size) (off + f.size) (len - f.size) fs

set_flag :
    (off : ℕ) (b : Bool)
    → off % 8 ≡ 0
    → (if b then bit_or off 1 else off) ≡ off + (if b then 1 else 0)
set_flag off false h = omega arith
set_flag off true h =
    let rest : off ≡ off / 8 * 2 ^ 3 = omega arith in
    ap (λ (t : ℕ). bit_or t 1) rest ∙ bit_or_add 3 (off / 8) 1 (omega arith) ∙ omega arith

-- One turn of the loop.
Covers-frag_at :
    (mf : Bool) (max start len off size : ℕ) (fs : List Frag)
    → 1 ≤ size
    → size ≤ max
    → size ≤ len
    → max ≤ 65527
    → off % 8 ≡ 0
    → (len ≡ size) ⊎ (size % 8 ≡ 0)
    → Covers max mf (start + size) (off + size) (len - size) fs
    → Covers max mf start off len (frag_at start off size (not (len - size == 0) || mf) ∷ fs)
Covers-frag_at mf max start len off size fs s1 s2 s3 x o s4 rest =
    (refl, s1, s2, s3, omega arith, set_flag off _ o, s4, rest)

-- With enough fuel and no failing write the loop covers the data.
pub frag_loop-Covers :
    (writes : ℕ → Bool) (mf : Bool) (max fuel i start len off room : ℕ)
    → ((j : ℕ) → writes j ≡ true)
    → len ≤ fuel
    → 1 ≤ room
    → room ≤ max
    → max ≤ 65527
    → (len ≡ 0) ⊎ (room % 8 ≡ 0)
    → (len ≡ 0) ⊎ (off % 8 ≡ 0)
    → off + len ≤ 65535
    → Covers max mf start off len (frag_loop writes mf fuel i start len off room)
unfolding frag_loop
frag_loop-Covers writes mf max zero i start len off room w f r m x q o b = omega arith
frag_loop-Covers writes mf max (suc fuel) i start zero off room w f r m x q o b = refl
frag_loop-Covers writes mf max (suc fuel) i start (suc n) off room w f r m x q o b =
    let rest : (size : ℕ)
        → 1 ≤ size
        → size ≤ room
        → size ≤ suc n
        → (suc n ≡ size) ⊎ (size % 8 ≡ 0)
        → Covers max mf (start + size) (off + size) (suc n - size) (
            frag_loop writes mf fuel (suc i) (start + size) (suc n - size) (u16 (off + size))
              size) =
      λ size s1 s2 s3 s4.
        let below : u16 (off + size) ≡ off + size = omega arith in
        rw below (
          frag_loop-Covers writes mf max fuel (suc i) (start + size) (suc n - size) (off + size)
            size w (omega arith) s1 (omega arith) x (omega arith) (omega arith) (omega arith)) in
    let more : (suc n == 0) ≡ false = ground arith in
    rw (w i, frag_loop)
      (elim (Bool-cases (ltb (suc n) room)) [
        | inl h ↦
            let short : suc n ≤ room = ground arith in
            rw (more, h)
              (Covers-frag_at mf max start (suc n) off (suc n) _ (omega arith) (omega arith)
                (omega arith) x (omega arith) (inl refl)
                (rest (suc n) (omega arith) short (omega arith) (inl refl)))
        | inr h ↦
            let long : room ≤ suc n = ground arith in
            rw (more, h)
              (Covers-frag_at mf max start (suc n) off room _ r m long x (omega arith) (omega arith)
                (rest room r (omega arith) long (omega arith)))
      ])
