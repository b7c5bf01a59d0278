-- ===== src/Payload6/Laws.antt =====
-- The transport checksum of a packet that `xlate_payload_6to4` lets through is valid over IPv4.
use tayga.Base.{
  ℕ, ◌+◌, ◌-◌, ◌*◌, ◌%◌, ◌^◌, ◌≤◌, ◌<◌, ◌≡◌, ap, ◌∙◌, inl, inr, arith, Bool, true, false, ◌||◌,
  if◌then◌else◌, bit_or, ◌==◌, List, All, length,
}
use tayga.Word.{Endian}
use tayga.Addr.{In6Addr}
use tayga.Prefix.{ok}
use tayga.Prefix.Bytes.{IsIn6}
use tayga.Checksum.{words6, ones_add, convert_cksum}
use tayga.Checksum.Bytes.{sum16, IsByte}
use tayga.Checksum.Laws.{ones_add_lem, convert_cksum_lem}
use tayga.Payload.{Offload, get_u16, put_u16, never_zero}
use tayga.Payload.Laws.{
  get_u16-lt, length-put_u16, sum16-put_u16, ones_add-lt, field-le, sum_swap, sent_lem, and_false,
  trailer, IsValid4, IsValid6, min_length, has_cksum, proto_cases, has_cksum-put_u16, long_enough,
}
use tayga.Payload6.{
  Segment6, ip6_f_mask, ip6_f_mf, is_partial, frag_set, adjusted6, adjust6, xlate_payload_6to4,
}

convert_cksum_lt :
    (src6 dest6 : In6Addr) (src4 dest4 : ℕ)
    → IsIn6 src6
    → IsIn6 dest6
    → src4 < 2 ^ 32
    → dest4 < 2 ^ 32
    → convert_cksum src6 dest6 src4 dest4 < 2 ^ 16
convert_cksum_lt src6 dest6 src4 dest4 h6 h6' hs hd =
    ground (arith, convert_cksum_lem src6 dest6 src4 dest4 h6 h6' hs hd)

-- The update from IPv6 to IPv4 keeps a checksum valid.
convert_back :
    (src6 dest6 : In6Addr) (src4 dest4 rest ck : ℕ)
    → IsIn6 src6
    → IsIn6 dest6
    → src4 < 2 ^ 32
    → dest4 < 2 ^ 32
    → ck < 2 ^ 16
    → (words6 src6 + words6 dest6 + rest + ck) % 65535 ≡ 0
    → (src4 + dest4 + rest + ones_add ck (convert_cksum src6 dest6 src4 dest4)) % 65535 ≡ 0
convert_back src6 dest6 src4 dest4 rest ck h6 h6' hs hd hc valid = ground (
  arith,
  convert_cksum_lem src6 dest6 src4 dest4 h6 h6' hs hd,
  ones_add_lem ck (convert_cksum src6 dest6 src4 dest4) hc
      (convert_cksum_lt src6 dest6 src4 dest4 h6 h6' hs hd),
)

in_place :
    (h t s' s old sent : ℕ)
    → old ≤ s
    → s' + old ≡ s + sent
    → h + (t + s') ≡ h + (t + (s - old)) + sent
in_place h t s' s old sent within e = omega arith

module _ (e : Endian) (c : Offload) (em : Bool) (src4 dest4 : ℕ) (p : Segment6)
    (whole : is_partial p ≡ false) where
  adjusts :
      has_cksum p.data_proto (get_u16 e 3 p.payload) ≡ true
      → min_length p.data_proto ≤ length p.payload
      → frag_set p.ip6_frag ip6_f_mask ≡ false
      → xlate_payload_6to4 e c em src4 dest4 p ≡ adjust6 e src4 dest4 p
  unfolding xlate_payload_6to4
  adjusts k len off =
      let none_set = and_false (frag_set p.ip6_frag (bit_or ip6_f_mask ip6_f_mf)) in
      elim (proto_cases p.data_proto (get_u16 e 3 p.payload) k) [
        | inl tcp ↦
            rw (whole, none_set, off, tcp, long_enough p.data_proto 6 (length p.payload) tcp len)
        | inr others ↦ elim others [
          | inl dccp ↦
              rw (
                whole,
                none_set,
                off,
                dccp,
                long_enough p.data_proto 33 (length p.payload) dccp len,
              )
          | inr (one, there) ↦ elim one [
            | inl udp ↦ rw (
              whole,
              none_set,
              off,
              udp,
              long_enough p.data_proto 17 (length p.payload) udp len,
              there,
            )
            | inr lite ↦ rw (
              whole,
              none_set,
              off,
              lite,
              long_enough p.data_proto 136 (length p.payload) lite len,
              there,
            )
          ]
        ]
      ]

  -- For a first or whole packet of TCP, UDP, UDP-Lite or DCCP without a partial checksum, long enough for
  -- its header, whose checksum is there and valid over its data, the translation succeeds with data of the same length, whose checksum is there and valid over
  -- IPv4: that of UDP and UDP-Lite is not zero.
  pub xlate_payload_6to4-IsValid4 :
      has_cksum p.data_proto (get_u16 e 3 p.payload) ≡ true
      → min_length p.data_proto ≤ length p.payload
      → frag_set p.ip6_frag ip6_f_mask ≡ false
      → All IsByte p.payload
      → IsIn6 p.src
      → IsIn6 p.dest
      → src4 < 2 ^ 32
      → dest4 < 2 ^ 32
      → IsValid6 e p.src p.dest p.data_proto p.payload
      → (bs : List ℕ) × (xlate_payload_6to4 e c em src4 dest4 p ≡ ok (bs, p.needs_csum))
        × (length bs ≡ length p.payload)
        × (has_cksum p.data_proto (get_u16 e 3 bs) ≡ true)
        × IsValid4 e src4 dest4 p.data_proto bs
  unfolding adjust6 adjusted6
  xlate_payload_6to4-IsValid4 k len off bytes hs hd h4 h4' valid =
      let place = if p.data_proto == 6 then 8 else 3 in
      let old = get_u16 e place p.payload in
      let ck = adjusted6 e place src4 dest4 p in
      let sent = if p.data_proto == 17 || p.data_proto == 136 then never_zero ck else ck in
      let room : 2 * place + 2 ≤ length p.payload = ground arith in
      let small : ck < 2 ^ 16 =
        ones_add-lt old _ (get_u16-lt e place p.payload bytes)
          (convert_cksum_lt p.src p.dest src4 dest4 hs hd h4 h4') in
      let chosen = sent_lem (p.data_proto == 17 || p.data_proto == 136) ck small in
      let within : old ≤ sum16 e p.payload = field-le e place p.payload in
      let rest = trailer e p.data_proto p.payload + (sum16 e p.payload - old) in
      let after = sum16-put_u16 e place sent p.payload chosen.0 room in
      let good =
        convert_back p.src p.dest src4 dest4 rest old hs hd h4 h4'
          (get_u16-lt e place p.payload bytes) (ap (λ (s : ℕ). s % 65535) (omega arith) ∙ valid) in
      (
        put_u16 e place sent p.payload,
        adjusts k len off,
        length-put_u16 e place sent p.payload,
        has_cksum-put_u16 e p.data_proto ck p.payload small k len,
        rw (length-put_u16 e place sent p.payload) (
            sum_swap _ _ sent _
              (in_place (src4 + dest4) (trailer e p.data_proto p.payload) _ _ old sent within after)
              chosen.1 good),
      )
