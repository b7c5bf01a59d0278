-- ===== src/Resolve/Static.antt =====
-- A static mapping of src/addrmap.c carries the host bits of an IPv4 address over and back.
use tayga.Base.{
  ℕ, ◌+◌, ◌-◌, ◌*◌, ◌/◌, ◌%◌, ◌^◌, ◌≤◌, ◌<◌, bit_and, bit_or, ◌≡◌, refl, sym, ap, ◌∙◌, inl, inr,
  arith, true, false, ltb, Bool-cases, bit_and_mask, bit_or-zero, one-le-pow, div-add-mod,
  quotient_remainder, bit_or_lt,
}
use tayga.Word.{Endian, htonl, not32}
use tayga.Word.Laws.{htonl-lt, htonl-htonl, htonl_injective, htonl-zero}
use tayga.Mask.{mask4_of}
use tayga.Mask.Laws.{SamePrefix4, host_bits, mask4_of_lem, two_pow_le}
use tayga.Maps.Laws4.{IsMap4}
use tayga.Maps.Laws6.{IsMap6}
use tayga.Resolve.{
  MapPair, width, is_last, host_suffix, or_word, static_to_ip6, static_suffix, static_to_ip4,
}
use tayga.Resolve.Suffix.{gather-spread}
use tayga.Resolve.Window.{taken}

-- The suffix of an address is what its mask leaves.
host_suffix_lem :
    (e : Endian) (len a : ℕ)
    → len ≤ 32
    → host_suffix e a (htonl e (mask4_of len)) ≡ htonl e a % 2 ^ (32 - len)
host_suffix_lem e len a h =
    ap (λ (t : ℕ). bit_and (htonl e a) (not32 t)) (htonl-htonl e (mask4_of len) small ∙ whole)
    ∙ ap (bit_and (htonl e a)) ones
    ∙ bit_and_mask (32 - len) (htonl e a)
  where
    whole : mask4_of len ≡ 2 ^ 32 - 2 ^ (32 - len)
    whole = mask4_of_lem len h

    small : mask4_of len < 2 ^ 32
    small = omega (arith, whole, one-le-pow (32 - len) 2)

    ones : not32 (2 ^ 32 - 2 ^ (32 - len)) ≡ 2 ^ (32 - len) - 1
    ones = omega (arith, one-le-pow (32 - len) 2, two_pow_le (32 - len) (omega arith))

below_field : (k x h : ℕ) → x % 2 ^ k ≡ 0 → h < 2 ^ k → (x + h) % 2 ^ k ≡ h
below_field k x h z l =
    let whole : x ≡ x / 2 ^ k * 2 ^ k = omega (arith, div-add-mod x (2 ^ k)) in
    ap (λ (t : ℕ). (t + h) % 2 ^ k) whole ∙ (quotient_remainder k (x / 2 ^ k) h l).1

same_field : (k x y : ℕ) → y / 2 ^ k ≡ x / 2 ^ k → x % 2 ^ k ≡ 0 → x + y % 2 ^ k ≡ y
same_field k x y q z =
    omega (arith, div-add-mod x (2 ^ k), div-add-mod y (2 ^ k), ap (λ (t : ℕ). t * 2 ^ k) q)

module _ (e : Endian) (s : MapPair) (a : ℕ) (v4 : IsMap4 e s.map4) (v6 : IsMap6 e s.map6)
    (fits : s.map6.prefix_len + width s ≤ 128) (ha : a < 2 ^ 32) where
  abbrev host : ℕ
  host = htonl e a % 2 ^ width s

  suffix : host_suffix e a s.map4.mask ≡ host
  suffix = rw v4.mask (host_suffix_lem e s.map4.prefix_len a v4.len)

  host-lt : host < 2 ^ width s
  host-lt = omega (arith, one-le-pow (width s) 2)

  host_word : host < 2 ^ 32
  host_word = omega (arith, host-lt, two_pow_le (width s) (omega arith))

  -- In the last word.
  last_word :
      is_last s ≡ true → host_suffix e (or_word 3 (htonl e host) s.map6.addr).w3 s.map4.mask ≡ host
  last_word last =
      rw v4.mask (host_suffix_lem e s.map4.prefix_len _ v4.len)
      ∙ ap (λ (t : ℕ). t % 2 ^ width s)
          (taken e (width s) s.map6.addr.w3 host v6.words.3 clear host-lt
            (omega (arith, host-lt, two_pow_le (width s) (omega arith))))
      ∙ below_field (width s) (htonl e s.map6.addr.w3) host clear host-lt
    where
      clear : htonl e s.map6.addr.w3 % 2 ^ width s ≡ 0
      clear =
          let bits : host_bits s.map6.prefix_len 3 ≡ width s = ground arith in
          ap (λ (t : ℕ). htonl e s.map6.addr.w3 % 2 ^ t) (sym bits) ∙ v6.net.3

  -- The suffix comes back.
  static_suffix_lem : static_suffix e s (static_to_ip6 e s a) ≡ host
  unfolding static_suffix static_to_ip6
  static_suffix_lem = elim (Bool-cases (is_last s)) [
    | inl last ↦ rw (last, suffix) (last_word last)
    | inr before ↦ elim (Bool-cases (ltb 0 (width s))) [
      | inl some_bits ↦
          rw (before, some_bits, suffix)
            (gather-spread e s.map6.prefix_len (width s) host s.map6.addr v6.words v6.net fits
              (ground arith) (omega arith) host-lt)
      | inr no_bits ↦
          rw (before, no_bits)
            (let zero_width : width s ≡ 0 = ground arith in
              sym (ap (λ (t : ℕ). htonl e a % 2 ^ t) zero_width ∙ omega arith))
    ]
  ]

  -- And so does the address.
  pub static_back :
      SamePrefix4 e s.map4.prefix_len a s.map4.addr → static_to_ip4 e s (static_to_ip6 e s a) ≡ a
  unfolding static_to_ip4
  static_back same =
      ap (λ (t : ℕ). bit_or s.map4.addr (htonl e t)) static_suffix_lem
      ∙ htonl_injective e _ a
          (bit_or_lt 32 s.map4.addr (htonl e host) v4.word (htonl-lt e host host_word)) ha
          (taken e (width s) s.map4.addr host v4.word v4.net host-lt host_word
            ∙ same_field (width s) (htonl e s.map4.addr) (htonl e a) same v4.net)

  -- With no host bits the IPv6 side is the network itself.
  pub static_narrow : ltb 0 (width s) ≡ false → static_to_ip6 e s a ≡ s.map6.addr
  unfolding static_to_ip6
  static_narrow no_bits =
      let zero_width : width s ≡ 0 = ground arith in
      let zero_host : host ≡ 0 = ap (λ (t : ℕ). htonl e a % 2 ^ t) zero_width ∙ omega arith in
      elim (Bool-cases (is_last s)) [
        | inl last ↦ rw (last, suffix, zero_host, htonl-zero e, bit_or-zero s.map6.addr.w3) refl
        | inr before ↦ rw (before, no_bits) refl
      ]
