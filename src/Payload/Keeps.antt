-- ===== src/Payload/Keeps.antt =====
-- The translation of the data in src/nat64.c keeps its length, and leaves bytes.
use tayga.Base.{
  ℕ, ◌+◌, ◌-◌, ◌*◌, ◌^◌, ◌<◌, ◌≡◌, refl, subst, ◌⊎◌, inl, inr, arith, Bool, true, false, ◌||◌,
  if◌then◌else◌, ◌==◌, List, [], ◌∷◌, All, length,
}
use tayga.Word.{Endian, big, little, htons, u32, not16, big_little}
use tayga.Addr.{In6Addr, Status}
use tayga.Prefix.{ok, err}
use tayga.Checksum.{halves, fold_loop, fold_fuel, ones_add, ip6_checksum}
use tayga.Checksum.Bytes.{IsByte}
use tayga.Payload.Laws.{length-put_u16, put_u16-IsByte}
use tayga.Payload.{
  Segment, Offload, UdpCksumMode, udp_cksum_drop, udp_cksum_fwd, udp_cksum_calc, Translated,
  get_u16, put_u16, net_halves, gso_calc_pseudo6, untouched, too_short, never_zero, full_cksum,
  xlate_icmp_4to6, offload_udp, offload_tcp, adjusted, adjust, xlate_unchecked, xlate_udp_4to6,
  xlate_tcp_4to6, xlate_other_4to6, xlate_payload_4to6,
}

-- Data of the same length, all bytes, or an error.
pub data Keeps (xs : List ℕ) : Translated → Type 0 where
  fails : {r : Status} → Keeps xs (err r)
  keeps : {bs : List ℕ} {k : Bool} → length bs ≡ length xs → All IsByte bs → Keeps xs (ok (bs, k))

pub List-cases : (xs : List ℕ) → (xs ≡ []) ⊎ ((x : ℕ) × (rest : List ℕ) × (xs ≡ x ∷ rest))
List-cases [] = inl refl
List-cases (x ∷ xs) = inr (x, xs, refl)

pub choice :
    {xs : List ℕ} (b : Bool) {x y : Translated}
    → Keeps xs x
    → Keeps xs y
    → Keeps xs (if b then x else y)
choice true h k = h
choice false h k = k

pub put-Keeps :
    (e : Endian) (k v : ℕ) (xs : List ℕ) {needs : Bool}
    → v < 2 ^ 16
    → All IsByte xs
    → Keeps xs (ok (put_u16 e k v xs, needs))
put-Keeps e k v xs h b = keeps (length-put_u16 e k v xs) (put_u16-IsByte e k v xs h b)

pub never_zero-lt : (n : ℕ) → n < 2 ^ 16 → never_zero n < 2 ^ 16
never_zero-lt n h = ground arith

pub ones_add-bound : (a b : ℕ) → ones_add a b < 2 ^ 16
unfolding ones_add
ones_add-bound a b = omega arith

pub full_cksum-bound : (e : Endian) (k p : ℕ) (bs : List ℕ) → full_cksum e k p bs < 2 ^ 16
unfolding full_cksum
full_cksum-bound e k p bs = ones_add-bound _ p

pub htons-bound : (e : Endian) (n : ℕ) → n < 2 ^ 16 → htons e n < 2 ^ 16
unfolding htons
htons-bound big n h = h
htons-bound little n h = omega arith

pub folded : (n : ℕ) → n < 2 ^ 32 → fold_loop fold_fuel n < 2 ^ 16
unfolding fold_loop
folded n h = ground arith

pub head-Keeps :
    (e : Endian) (k v b x : ℕ) (rest : List ℕ) {needs : Bool}
    → v < 2 ^ 16
    → b < 256
    → All IsByte (x ∷ rest)
    → Keeps (x ∷ rest) (ok (put_u16 e k v (b ∷ rest), needs))
head-Keeps e k v b x rest h small all =
    keeps (length-put_u16 e k v (b ∷ rest)) (put_u16-IsByte e k v (b ∷ rest) h (small, all.1))

module _ (e : Endian) (c : Offload) (em : Bool) (src6 dest6 : In6Addr) (p : Segment)
    (bytes : All IsByte p.payload) where
  same-Keeps : Keeps p.payload (untouched p)
  same-Keeps = keeps refl bytes

  short-Keeps : Keeps p.payload (too_short em p)
  short-Keeps = choice em same-Keeps fails

  icmp-Keeps : Keeps p.payload (xlate_icmp_4to6 e src6 dest6 p)
  unfolding xlate_icmp_4to6
  icmp-Keeps = elim (List-cases p.payload) [
    | inl empty ↦ rw empty (keeps refl tt)
    | inr (x, rest, filled) ↦
        let all : All IsByte (x ∷ rest) = subst (All IsByte) filled bytes in
        rw filled (
          choice (x == 8)
            (head-Keeps e 1 _ 128 x rest
              (ones_add-bound _ (not16 ((128 - 8) * 2 ^ big_little e 8 0))) (omega arith) all)
            (head-Keeps e 1 _ 129 x rest
              (ones_add-bound _ (not16 ((129 - 0) * 2 ^ big_little e 8 0))) (omega arith) all))
  ]

  adjust-Keeps : Keeps p.payload (adjust e src6 dest6 p)
  unfolding adjust adjusted
  adjust-Keeps =
      let k = if p.data_proto == 6 then 8 else 3 in
      let ck = adjusted e k src6 dest6 p in
      let small : ck < 2 ^ 16 = ones_add-bound (get_u16 e k p.payload) _ in
      put-Keeps e k (if p.data_proto == 17 || p.data_proto == 136 then never_zero ck else ck)
        p.payload (ground (arith, never_zero-lt ck small)) bytes

  seed-bound : (proto len : ℕ) → gso_calc_pseudo6 e src6 dest6 proto len < 2 ^ 16
  unfolding gso_calc_pseudo6
  seed-bound proto len =
      folded (u32 (net_halves e src6 + net_halves e dest6 + halves len + proto)) (omega arith)

  udp_offload-Keeps : Keeps p.payload (offload_udp e c src6 dest6 p)
  unfolding offload_udp
  udp_offload-Keeps =
      let n = length p.payload in
      choice (c.vnet_hdr_sz == 0)
        (put-Keeps e 3 (never_zero (full_cksum e 3 (ip6_checksum e src6 dest6 n 17) p.payload))
          p.payload
          (never_zero-lt _ (full_cksum-bound e 3 (ip6_checksum e src6 dest6 n 17) p.payload)) bytes)
        (put-Keeps e 3 (htons e (gso_calc_pseudo6 e src6 dest6 17 n)) p.payload
          (htons-bound e _ (seed-bound 17 n)) bytes)

  tcp_offload-Keeps : Keeps p.payload (offload_tcp e c src6 dest6 p)
  unfolding offload_tcp
  tcp_offload-Keeps =
      let n = length p.payload in
      choice (c.vnet_hdr_sz == 0)
        (put-Keeps e 8 (full_cksum e 8 (ip6_checksum e src6 dest6 n 6) p.payload) p.payload
          (full_cksum-bound e 8 (ip6_checksum e src6 dest6 n 6) p.payload) bytes)
        (put-Keeps e 8 (htons e (gso_calc_pseudo6 e src6 dest6 6 n)) p.payload
          (htons-bound e _ (seed-bound 6 n)) bytes)

  unchecked-Keeps : (mode : UdpCksumMode) → Keeps p.payload (xlate_unchecked e mode em src6 dest6 p)
  unfolding xlate_unchecked
  unchecked-Keeps udp_cksum_drop = fails
  unchecked-Keeps udp_cksum_fwd = same-Keeps
  unchecked-Keeps udp_cksum_calc =
      let pseudo = ip6_checksum e src6 dest6 (length p.payload) 17 in
      choice em same-Keeps (
        put-Keeps e 3 (never_zero (full_cksum e 3 pseudo p.payload)) p.payload
          (never_zero-lt _ (full_cksum-bound e 3 pseudo p.payload)) bytes)

  udp-Keeps : Keeps p.payload (xlate_udp_4to6 e c em src6 dest6 p)
  unfolding xlate_udp_4to6
  udp-Keeps = search (choice, fails, short-Keeps, udp_offload-Keeps, unchecked-Keeps, adjust-Keeps)

  tcp-Keeps : Keeps p.payload (xlate_tcp_4to6 e c em src6 dest6 p)
  unfolding xlate_tcp_4to6
  tcp-Keeps = search (choice, fails, short-Keeps, tcp_offload-Keeps, adjust-Keeps)

  other-Keeps : Keeps p.payload (xlate_other_4to6 e em src6 dest6 p)
  unfolding xlate_other_4to6
  other-Keeps = search (choice, fails, short-Keeps, adjust-Keeps)

  pub xlate_payload_4to6-Keeps : Keeps p.payload (xlate_payload_4to6 e c em src6 dest6 p)
  unfolding xlate_payload_4to6
  xlate_payload_4to6-Keeps =
      search (choice, fails, same-Keeps, icmp-Keeps, udp-Keeps, tcp-Keeps, other-Keeps) depth 10
