-- ===== src/Parse6/Passes.antt =====
-- How far the loop of `parse_ip6` in src/nat64.c and its fragment header move on in the data.
use tayga.Base.{
  ℕ, zero, suc, ◌+◌, ◌-◌, ◌*◌, ◌/◌, ◌%◌, ◌^◌, ◌≤◌, ◌<◌, ◌≡◌, refl, sym, ap, subst, ◌∙◌, ◌⊎◌, inl,
  inr, arith, Bool, true, ◌&&◌, not, ◌==◌, ltb, bit_and, Bool-cases, Option, none, some, List, [],
  ◌∷◌, drop, bit_and_mask, bit_and_high,
}
use tayga.Word.{Endian, htons, u32}
use tayga.Fragment.{is_set}
use tayga.Payload6.{ip6_f_mask, ip6_f_mf}
use tayga.Walk.{Walk, extension_len, next_header}
use tayga.Walk.Laws.{Reaches, stays, skips}
use tayga.Packet.{Ip6Frag, read_frag}
use tayga.Parse6.{Behind, skip_frag, take_frag}

drop-nil : (n : ℕ) → drop {A = ℕ} n [] ≡ []
drop-nil zero = refl
drop-nil (suc n) = refl

pub drop_add : (a b : ℕ) (xs : List ℕ) → drop b (drop a xs) ≡ drop (a + b) xs
drop_add zero b xs = ap (λ (t : ℕ). drop t xs) (omega arith)
drop_add (suc a) zero [] = sym (drop-nil (suc a + 0))
drop_add (suc a) (suc b) [] = sym (drop-nil (suc a + suc b))
drop_add (suc a) b (x ∷ xs) =
    let e : suc (a + b) ≡ suc a + b = omega arith in
    drop_add a b xs ∙ ap (λ (t : ℕ). drop t (x ∷ xs)) e

-- From `w` to `w'` `k` bytes are passed over.
abbrev pub Passes : Walk → Walk → Type 0
Passes w w' =
    (k : ℕ) × (w'.header_len ≡ w.header_len + k)
    × (w'.bytes ≡ drop k w.bytes)
    × (w'.data_len + k ≡ w.data_len)

pub Reaches-Passes :
    (n : ℕ) (w w' : Walk) → Reaches n w w' → w.header_len + w.data_len < 2 ^ 32 → Passes w w'
unfolding next_header
Reaches-Passes n w w' (stays e) h = (0, omega arith, refl, omega arith)
Reaches-Passes (suc n) w w' (skips e a b r) h =
    let (k, more, rest, left) = Reaches-Passes n (next_header w) w' r (omega arith) in
    (
      extension_len w + k,
      omega (arith, more),
      rest ∙ drop_add (extension_len w) k w.bytes,
      omega (arith, left),
    )

-- What is asked of a fragment with `n` bytes.
abbrev pub IsFragment : Endian → Bool → Option Ip6Frag → ℕ → Type 0
IsFragment e em none n = Unit
IsFragment e em (some h) n =
    let off = htons e h.offset_flags in
    (off / 8 * 8 + n ≤ 65535) × ((em ≡ true) ⊎ (off % 2 ≡ 0) ⊎ (n % 8 ≡ 0))

abbrev pub Taken : Endian → Bool → Walk → Behind → Type 0
Taken e em w b = Passes w b.walk × IsFragment e em b.ip6_frag b.walk.data_len

Passes-none : (w : Walk) → Passes w w
Passes-none w = (0, omega arith, refl, omega arith)

pub some_injective {ℓ} : {A : Type ℓ} {a b : A} → some a ≡ some b → a ≡ b
some_injective h = cc

pub take_frag-Taken :
    (e : Endian) (em : Bool) (w : Walk) (b : Behind)
    → htons e (read_frag e w.bytes).offset_flags < 2 ^ 16
    → w.header_len + w.data_len < 2 ^ 31
    → take_frag e em w ≡ some b
    → Taken e em w b
unfolding take_frag
take_frag-Taken e em w b lt sum h =
    let off : ℕ = htons e (read_frag e w.bytes).offset_flags in
    let left : ℕ = w.data_len - 8 in
    elim (Bool-cases (w.data_proto == 44)) [
      | inr other ↦
          let same : record { walk = w; ip6_frag = none } ≡ b = some_injective (rw other at h) in
          subst (Taken e em w) same (Passes-none w, tt)
      | inl there ↦ elim (Bool-cases (ltb w.data_len 8)) [
        | inl short ↦ absurd (let x = rw (there, short) at h in cc)
        | inr long ↦ elim (Bool-cases (not em && is_set off ip6_f_mf && is_set left 7)) [
          | inl skew ↦ absurd (let x = rw (there, long, skew) at h in cc)
          | inr even ↦ elim (Bool-cases (ltb 65535 (u32 (bit_and off ip6_f_mask + left)))) [
            | inl huge ↦ absurd (let x = rw (there, long, even, huge) at h in cc)
            | inr fits ↦
                let frag = read_frag e w.bytes in
                let same : record { walk = skip_frag w frag; ip6_frag = some frag } ≡ b =
                  some_injective (rw (there, long, even, fits) at h) in
                let mask : bit_and off ip6_f_mask ≡ off / 8 * 8 = bit_and_high 3 13 off lt in
                let flag = bit_and_mask 1 off in
                let low = bit_and_mask 3 left in
                subst (Taken e em w) same
                  ((8, ground arith, refl, ground arith), ((ground arith), (ground arith)))
          ]
        ]
      ]
    ]
