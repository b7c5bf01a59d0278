-- ===== src/Payload6/Keeps.antt =====
-- The translation of the data from IPv6 in src/nat64.c keeps its length, and leaves bytes.
use tayga.Base.{
  ℕ, ◌+◌, ◌-◌, ◌*◌, ◌%◌, ◌^◌, ◌<◌, refl, subst, inl, inr, arith, Bool, ◌||◌, if◌then◌else◌, ◌==◌,
  ◌∷◌, All, length,
}
use tayga.Word.{Endian, htonl, htons, u16, u32, big_little}
use tayga.Checksum.{halves, ip4_checksum}
use tayga.Checksum.Bytes.{IsByte}
use tayga.Payload.{
  Offload, UdpCksumMode, udp_cksum_drop, udp_cksum_fwd, udp_cksum_calc, get_u16, never_zero,
  full_cksum,
}
use tayga.Payload.Keeps.{
  Keeps, fails, keeps, List-cases, choice, put-Keeps, head-Keeps, never_zero-lt, ones_add-bound,
  full_cksum-bound, htons-bound, folded,
}
use tayga.Payload6.{
  Segment6, gso_calc_pseudo4, as_it_is, cut_short, xlate_icmp_6to4, offload_udp6, offload_tcp6,
  adjusted6, adjust6, xlate_unchecked6, xlate_udp_6to4, xlate_tcp_6to4, xlate_other_6to4,
  xlate_payload_6to4,
}

module _ (e : Endian) (c : Offload) (em : Bool) (src4 dest4 : ℕ) (p : Segment6)
    (bytes : All IsByte p.payload) where
  same-Keeps : Keeps p.payload (as_it_is p)
  same-Keeps = keeps refl bytes

  short-Keeps : Keeps p.payload (cut_short em p)
  short-Keeps = choice em same-Keeps fails

  icmp-Keeps : Keeps p.payload (xlate_icmp_6to4 e p)
  unfolding xlate_icmp_6to4
  icmp-Keeps = elim (List-cases p.payload) [
    | inl empty ↦ rw empty (keeps refl tt)
    | inr (x, rest, filled) ↦
        let all : All IsByte (x ∷ rest) = subst (All IsByte) filled bytes in
        rw filled (
          choice (x == 128)
            (head-Keeps e 1 _ 8 x rest (ones_add-bound _ (u16 ((128 - 8) * 2 ^ big_little e 8 0)))
              (omega arith) all)
            (head-Keeps e 1 _ 0 x rest (ones_add-bound _ (u16 ((129 - 0) * 2 ^ big_little e 8 0)))
              (omega arith) all))
  ]

  adjust-Keeps : Keeps p.payload (adjust6 e src4 dest4 p)
  unfolding adjust6 adjusted6
  adjust-Keeps =
      let k = if p.data_proto == 6 then 8 else 3 in
      let ck = adjusted6 e k src4 dest4 p in
      let small : ck < 2 ^ 16 = ones_add-bound (get_u16 e k p.payload) _ in
      put-Keeps e k (if p.data_proto == 17 || p.data_proto == 136 then never_zero ck else ck)
        p.payload (ground (arith, never_zero-lt ck small)) bytes

  seed-bound : (proto len : ℕ) → gso_calc_pseudo4 e src4 dest4 proto len < 2 ^ 16
  unfolding gso_calc_pseudo4
  seed-bound proto len =
      folded (u32 (halves (htonl e src4) + halves (htonl e dest4) + proto + len % 2 ^ 16))
        (omega arith)

  udp_offload-Keeps : Keeps p.payload (offload_udp6 e c src4 dest4 p)
  unfolding offload_udp6
  udp_offload-Keeps =
      let n = length p.payload in
      choice (c.vnet_hdr_sz == 0)
        (put-Keeps e 3 (never_zero (full_cksum e 3 (ip4_checksum e src4 dest4 n 17) p.payload))
          p.payload
          (never_zero-lt _ (full_cksum-bound e 3 (ip4_checksum e src4 dest4 n 17) p.payload)) bytes)
        (put-Keeps e 3 (htons e (gso_calc_pseudo4 e src4 dest4 17 n)) p.payload
          (htons-bound e _ (seed-bound 17 n)) bytes)

  tcp_offload-Keeps : Keeps p.payload (offload_tcp6 e c src4 dest4 p)
  unfolding offload_tcp6
  tcp_offload-Keeps =
      let n = length p.payload in
      choice (c.vnet_hdr_sz == 0)
        (put-Keeps e 8 (full_cksum e 8 (ip4_checksum e src4 dest4 n 6) p.payload) p.payload
          (full_cksum-bound e 8 (ip4_checksum e src4 dest4 n 6) p.payload) bytes)
        (put-Keeps e 8 (htons e (gso_calc_pseudo4 e src4 dest4 6 n)) p.payload
          (htons-bound e _ (seed-bound 6 n)) bytes)

  unchecked-Keeps :
      (mode : UdpCksumMode) → Keeps p.payload (xlate_unchecked6 e mode em src4 dest4 p)
  unfolding xlate_unchecked6
  unchecked-Keeps udp_cksum_drop = fails
  unchecked-Keeps udp_cksum_fwd = same-Keeps
  unchecked-Keeps udp_cksum_calc =
      let pseudo = ip4_checksum e src4 dest4 (length p.payload) p.data_proto in
      choice em same-Keeps (
        put-Keeps e 3 (never_zero (full_cksum e 3 pseudo p.payload)) p.payload
          (never_zero-lt _ (full_cksum-bound e 3 pseudo p.payload)) bytes)

  udp-Keeps : Keeps p.payload (xlate_udp_6to4 e c em src4 dest4 p)
  unfolding xlate_udp_6to4
  udp-Keeps = search (choice, fails, short-Keeps, udp_offload-Keeps, unchecked-Keeps, adjust-Keeps)

  tcp-Keeps : Keeps p.payload (xlate_tcp_6to4 e c em src4 dest4 p)
  unfolding xlate_tcp_6to4
  tcp-Keeps = search (choice, fails, short-Keeps, tcp_offload-Keeps, adjust-Keeps)

  other-Keeps : Keeps p.payload (xlate_other_6to4 e em src4 dest4 p)
  unfolding xlate_other_6to4
  other-Keeps = search (choice, fails, short-Keeps, adjust-Keeps)

  pub xlate_payload_6to4-Keeps : Keeps p.payload (xlate_payload_6to4 e c em src4 dest4 p)
  unfolding xlate_payload_6to4
  xlate_payload_6to4-Keeps =
      search (choice, fails, same-Keeps, icmp-Keeps, udp-Keeps, tcp-Keeps, other-Keeps) depth 10
