-- ===== src/Walk/Laws.antt =====
-- The extension headers of an IPv6 packet as `parse_ip6` of src/nat64.c walks over them.
use tayga.Base.{
  ℕ, zero, suc, ap, drop, ◌+◌, ◌*◌, ◌%◌, ◌^◌, ◌≤◌, ◌<◌, ◌≡◌, refl, sym, subst, ◌∙◌, ◌↔◌, ◌⊎◌, inl,
  inr, arith, true, false, none, some,
}
use tayga.Walk.{Walk, byte, is_extension, extension_len, next_header, walk_extensions}

-- At most `n` extension headers stand at `w`, each within the data, and what is no extension header
-- follows at `w'`.
pub data Reaches : ℕ → Walk → Walk → Type 0 where
  stays : {n : ℕ} {w : Walk} → is_extension w ≡ false → Reaches n w w
  skips :
      {n : ℕ} {w w' : Walk}
      → is_extension w ≡ true
      → 2 ≤ w.data_len
      → extension_len w ≤ w.data_len
      → Reaches n (next_header w) w'
      → Reaches (suc n) w w'

walk_turn :
    (fuel count : ℕ) (w : Walk)
    → ((is_extension w ≡ false) × (walk_extensions (suc fuel) count w ≡ some w))
      ⊎ ((is_extension w ≡ true)
          × ((8 ≤ count) ⊎ (w.data_len < 2) ⊎ (w.data_len < extension_len w))
          × (walk_extensions (suc fuel) count w ≡ none))
      ⊎ ((is_extension w ≡ true)
          × (count < 8)
          × (2 ≤ w.data_len)
          × (extension_len w ≤ w.data_len)
          × (walk_extensions (suc fuel) count w ≡ walk_extensions fuel (suc count) (next_header w)))
unfolding walk_extensions
walk_turn fuel count w = ground arith

pub walk-Reaches :
    (n fuel count : ℕ) (w w' : Walk)
    → count + n ≡ 8
    → n ≤ fuel
    → walk_extensions (suc fuel) count w ≡ some w'
    → Reaches n w w'
walk-Reaches zero fuel count w w' c f q = elim (walk_turn fuel count w) [
  | inl (e, r) ↦ let same : w ≡ w' = ground arith in subst (Reaches zero w) same (stays e)
  | inr (inl (e, x, r)) ↦ ground arith
  | inr (inr (e, lt, a, b, r)) ↦ absurd (omega arith)
]
walk-Reaches (suc n) zero count w w' c f q = absurd (omega arith)
walk-Reaches (suc n) (suc fuel) count w w' c f q = elim (walk_turn (suc fuel) count w) [
  | inl (e, r) ↦ let same : w ≡ w' = ground arith in subst (Reaches (suc n) w) same (stays e)
  | inr (inl (e, x, r)) ↦ ground arith
  | inr (inr (e, lt, a, b, r)) ↦
      skips e a b
        (walk-Reaches n fuel (suc count) (next_header w) w' (omega arith) (omega arith) (sym r ∙ q))
]

Reaches-walk :
    (n fuel count : ℕ) (w w' : Walk)
    → count + n ≡ 8
    → n ≤ fuel
    → Reaches n w w'
    → walk_extensions (suc fuel) count w ≡ some w'
Reaches-walk n fuel count w w' c f (stays e) = elim (walk_turn fuel count w) [
  | inl (e', r) ↦ r
  | inr (inl (e', x, r)) ↦ ground arith
  | inr (inr (e', lt, a, b, r)) ↦ ground arith
]
Reaches-walk (suc n) zero count w w' c f (skips e a b r) = absurd (omega arith)
Reaches-walk (suc n) (suc fuel) count w w' c f (skips e a b r) =
    let rest = Reaches-walk n fuel (suc count) (next_header w) w' (omega arith) (omega arith) r in
    elim (walk_turn (suc fuel) count w) [
      | inl (e', q) ↦ ground arith
      | inr (inl (e', x, q)) ↦ absurd (omega arith)
      | inr (inr (e', lt, a', b', q)) ↦ q ∙ rest
    ]

-- Hop-by-hop options, a routing header or destination options.
abbrev pub IsExtension : ℕ → Type 0
IsExtension proto = (proto ≡ 0) ⊎ (proto ≡ 43) ⊎ (proto ≡ 60)

-- One extension header as RFC 8200 draws it: byte 0 is the next header, byte 1 counts the units of 8
-- bytes behind the first. `w'` is past it; the segments left are those of a routing header, and the
-- position of one without segments left goes on.
pub record Passes (w w' : Walk) : Type 0 where
  pub extension : IsExtension w.data_proto
  pub two_bytes : 2 ≤ w.data_len
  pub within : 8 + 8 * byte 1 w.bytes ≤ w.data_len
  pub bytes : w'.bytes ≡ drop (8 + 8 * byte 1 w.bytes) w.bytes
  pub data_len : w'.data_len + (8 + 8 * byte 1 w.bytes) ≡ w.data_len
  pub data_proto : w'.data_proto ≡ byte 0 w.bytes
  pub header_len : w'.header_len ≡ (w.header_len + (8 + 8 * byte 1 w.bytes)) % 2 ^ 32
  pub routing : w.data_proto ≡ 43 → w'.seg_left ≡ byte 3 w.bytes
  pub options : ¬ (w.data_proto ≡ 43) → w'.seg_left ≡ w.seg_left
  pub none_left : w'.seg_left ≡ 0 → w'.seg_ptr ≡ (w.seg_ptr + (8 + 8 * byte 1 w.bytes)) % 2 ^ 32
  pub some_left : ¬ (w'.seg_left ≡ 0) → w'.seg_ptr ≡ w.seg_ptr

-- A chain of at most `n` extension headers from `w`, and `w'` is at the end of it.
pub data Chain : ℕ → Walk → Walk → Type 0 where
  ends : {n : ℕ} {w : Walk} → ¬ IsExtension w.data_proto → Chain n w w
  passes : {n : ℕ} {w v w' : Walk} → Passes w v → Chain n v w' → Chain (suc n) w w'

is_extension_lem : (w : Walk) → (is_extension w ≡ true) ↔ IsExtension w.data_proto
is_extension_lem w = ground arith

is_extension-IsExtension : (w : Walk) → (is_extension w ≡ false) ↔ (¬ IsExtension w.data_proto)
is_extension-IsExtension w = ground arith

next_header-Passes :
    (w : Walk)
    → is_extension w ≡ true
    → 2 ≤ w.data_len
    → extension_len w ≤ w.data_len
    → Passes w (next_header w)
unfolding next_header
next_header-Passes w e two fits = record {
  extension = (is_extension_lem w).0 e;
  two_bytes = two;
  within = omega arith;
  bytes = ap (λ (n : ℕ). drop n w.bytes) (omega arith);
  data_len = omega arith;
  data_proto = refl;
  header_len = omega arith;
  routing = λ h. ground arith;
  options = λ h. ground arith;
  none_left = λ h. ground arith;
  some_left = λ h. ground arith;
}

Passes-next_header : (w v : Walk) → Passes w v → v ≡ next_header w
unfolding next_header
Passes-next_header w v p =
    let n : 8 + 8 * byte 1 w.bytes ≡ extension_len w = omega arith in
    let bytes : v.bytes ≡ (next_header w).bytes = p.bytes ∙ ap (λ (k : ℕ). drop k w.bytes) n in
    let len : v.data_len ≡ (next_header w).data_len = omega (arith, p.data_len) in
    let header : v.header_len ≡ (next_header w).header_len = omega (arith, p.header_len) in
    let left : v.seg_left ≡ (next_header w).seg_left = ground (arith, p.routing, p.options) in
    let ptr : v.seg_ptr ≡ (next_header w).seg_ptr =
      ground (arith, left, p.none_left, p.some_left) in
    λ i. record {
      bytes = bytes i;
      data_len = len i;
      data_proto = p.data_proto i;
      header_len = header i;
      seg_left = left i;
      seg_ptr = ptr i;
    }

Reaches-Chain : (n : ℕ) (w w' : Walk) → Reaches n w w' → Chain n w w'
Reaches-Chain n w w' (stays e) = ends ((is_extension-IsExtension w).0 e)
Reaches-Chain (suc n) w w' (skips e a b r) =
    passes (next_header-Passes w e a b) (Reaches-Chain n (next_header w) w' r)

Chain-Reaches : (n : ℕ) (w w' : Walk) → Chain n w w' → Reaches n w w'
Chain-Reaches n w w' (ends e) = stays ((is_extension-IsExtension w).1 e)
Chain-Reaches (suc n) w w' (passes {v} p r) =
    skips ((is_extension_lem w).1 p.extension) p.two_bytes (omega (arith, p.within))
      (subst (λ (x : Walk). Reaches n x w') (Passes-next_header w v p) (Chain-Reaches n v w' r))

-- With fuel for nine turns or more, the loop accepts exactly the packets with at most eight extension
-- headers, each as RFC 8200 draws it and within the data, and stops at what follows them, with the
-- lengths, the protocol and the position of the segments left that these headers give.
pub walk_extensions_lem :
    (fuel : ℕ) (w w' : Walk) → 8 ≤ fuel → (walk_extensions (suc fuel) 0 w ≡ some w') ↔ Chain 8 w w'
walk_extensions_lem fuel w w' f = (
  λ q. Reaches-Chain 8 w w' (walk-Reaches 8 fuel 0 w w' refl f q),
  λ c. Reaches-walk 8 fuel 0 w w' refl f (Chain-Reaches 8 w w' c),
)

-- Nothing is lost on the way.
Reaches-lengths :
    (n : ℕ) (w w' : Walk)
    → Reaches n w w'
    → w.header_len + w.data_len < 2 ^ 32
    → (w'.header_len + w'.data_len ≡ w.header_len + w.data_len)
      × (w.header_len ≤ w'.header_len)
      × (w'.header_len % 8 ≡ w.header_len % 8)
unfolding next_header
Reaches-lengths n w w' (stays e) h = (refl, omega arith, refl)
Reaches-lengths (suc n) w w' (skips e a b r) h =
    let rest = Reaches-lengths n (next_header w) w' r (omega arith) in
    (omega (arith, rest), omega (arith, rest), omega (arith, rest))

-- What the loop passes over is counted as header, in multiples of 8, and taken off the data.
pub walk_extensions-lengths :
    (w w' : Walk)
    → w.header_len + w.data_len < 2 ^ 32
    → walk_extensions 9 0 w ≡ some w'
    → (w'.header_len + w'.data_len ≡ w.header_len + w.data_len)
      × (w.header_len ≤ w'.header_len)
      × (w'.header_len % 8 ≡ w.header_len % 8)
walk_extensions-lengths w w' h q =
    Reaches-lengths 8 w w' (walk-Reaches 8 8 0 w w' refl (omega arith) q) h
