-- ===== src/Payload/Laws.antt =====
-- The transport checksum of a packet that `xlate_payload_4to6` lets through is valid over IPv6.
use tayga.Base.{
  ℕ, zero, suc, ◌+◌, ◌-◌, ◌*◌, ◌%◌, ◌^◌, ◌≤◌, ◌<◌, ◌≡◌, ◌≢◌, refl, ap, ◌∙◌, subst, ◌⊎◌, inl, inr,
  arith, Bool, true, false, ◌&&◌, ◌||◌, not, if◌then◌else◌, bit_or, ◌==◌, ltb, List, [], ◌∷◌, All,
  length,
}
use tayga.Word.{Endian, big, little, htonl, htons, not16}
use tayga.Addr.{In6Addr}
use tayga.Prefix.{ok}
use tayga.Prefix.Bytes.{IsIn6}
use tayga.Checksum.{words6, ones_add, ip6_checksum, convert_cksum}
use tayga.Checksum.Bytes.{ones, sum16, IsByte, ip_checksum_lem}
use tayga.Checksum.Laws.{ones_add_lem, ip6_checksum_lem, convert_cksum-valid}
use tayga.Fragment.{is_set, ip4_f_mask, ip4_f_mf}
use tayga.Payload.{
  Segment, Offload, get_u16, put_u16, partial, never_zero, full_cksum, adjusted, adjust,
  xlate_payload_4to6,
}

pub get_u16-lt : (e : Endian) (k : ℕ) (bs : List ℕ) → All IsByte bs → get_u16 e k bs < 2 ^ 16
unfolding get_u16
get_u16-lt e zero [] h = omega arith
get_u16-lt e zero (b ∷ []) h = omega arith
get_u16-lt big zero (b0 ∷ b1 ∷ bs) h = omega arith
get_u16-lt little zero (b0 ∷ b1 ∷ bs) h = omega arith
get_u16-lt e (suc k) [] h = omega arith
get_u16-lt e (suc k) (b ∷ []) h = omega arith
get_u16-lt e (suc k) (b0 ∷ b1 ∷ bs) h = get_u16-lt e k bs h.1.1

pub length-put_u16 : (e : Endian) (k v : ℕ) (bs : List ℕ) → length (put_u16 e k v bs) ≡ length bs
unfolding put_u16
length-put_u16 e zero v [] = refl
length-put_u16 e zero v (b ∷ []) = refl
length-put_u16 e zero v (b0 ∷ b1 ∷ bs) = refl
length-put_u16 e (suc k) v [] = refl
length-put_u16 e (suc k) v (b ∷ []) = refl
length-put_u16 e (suc k) v (b0 ∷ b1 ∷ bs) = ap (λ n. suc (suc n)) (length-put_u16 e k v bs)

-- A field that is written takes the place of what it held in the sum.
pub sum16-put_u16 :
    (e : Endian) (k v : ℕ) (bs : List ℕ)
    → v < 2 ^ 16
    → 2 * k + 2 ≤ length bs
    → sum16 e (put_u16 e k v bs) + get_u16 e k bs ≡ sum16 e bs + v
unfolding put_u16 get_u16 sum16
sum16-put_u16 e zero v [] hv h = absurd (omega arith)
sum16-put_u16 e zero v (b ∷ []) hv h = absurd (omega arith)
sum16-put_u16 big zero v (b0 ∷ b1 ∷ bs) hv h = omega arith
sum16-put_u16 little zero v (b0 ∷ b1 ∷ bs) hv h = omega arith
sum16-put_u16 e (suc k) v [] hv h = absurd (omega arith)
sum16-put_u16 e (suc k) v (b ∷ []) hv h = absurd (omega arith)
sum16-put_u16 e (suc k) v (b0 ∷ b1 ∷ bs) hv h = omega (arith, sum16-put_u16 e k v bs hv)

-- What is written is read back.
pub get_u16-put_u16 :
    (e : Endian) (k v : ℕ) (bs : List ℕ)
    → v < 2 ^ 16
    → 2 * k + 2 ≤ length bs
    → get_u16 e k (put_u16 e k v bs) ≡ v
unfolding put_u16 get_u16
get_u16-put_u16 e zero v [] hv h = absurd (omega arith)
get_u16-put_u16 e zero v (b ∷ []) hv h = absurd (omega arith)
get_u16-put_u16 big zero v (b0 ∷ b1 ∷ bs) hv h = omega arith
get_u16-put_u16 little zero v (b0 ∷ b1 ∷ bs) hv h = omega arith
get_u16-put_u16 e (suc k) v [] hv h = absurd (omega arith)
get_u16-put_u16 e (suc k) v (b ∷ []) hv h = absurd (omega arith)
get_u16-put_u16 e (suc k) v (b0 ∷ b1 ∷ bs) hv h = get_u16-put_u16 e k v bs hv (omega arith)

pub put_u16-IsByte :
    (e : Endian) (k v : ℕ) (bs : List ℕ)
    → v < 2 ^ 16
    → All IsByte bs
    → All IsByte (put_u16 e k v bs)
unfolding put_u16
put_u16-IsByte e zero v [] hv h = tt
put_u16-IsByte e zero v (b ∷ []) hv h = h
put_u16-IsByte big zero v (b0 ∷ b1 ∷ bs) hv h = (omega arith, (omega arith, h.1.1))
put_u16-IsByte little zero v (b0 ∷ b1 ∷ bs) hv h = (omega arith, (omega arith, h.1.1))
put_u16-IsByte e (suc k) v [] hv h = tt
put_u16-IsByte e (suc k) v (b ∷ []) hv h = h
put_u16-IsByte e (suc k) v (b0 ∷ b1 ∷ bs) hv h = (h.0, (h.1.0, put_u16-IsByte e k v bs hv h.1.1))

pub ones_add-lt : (a b : ℕ) → a < 2 ^ 16 → b < 2 ^ 16 → ones_add a b < 2 ^ 16
ones_add-lt a b ha hb = ground (arith, ones_add_lem a b ha hb)

-- A complemented sum completes the sum to a multiple of 65535.
completes :
    (x p : ℕ)
    → let ck = never_zero (ones_add (65535 - ones (0xffff + x)) (65535 - ones p)) in
      ((p + x + ck) % 65535 ≡ 0) × (ck < 2 ^ 16)
completes x p =
    ground
      (arith, ones_add_lem (65535 - ones (0xffff + x)) (65535 - ones p) (omega arith) (omega arith))

-- The length and the protocol, as both pseudo headers have them.
abbrev pub trailer : Endian → ℕ → List ℕ → ℕ
trailer e proto bs = htonl e (length bs) + htons e proto

-- The one's complement sum with the pseudo header is zero.
abbrev pub IsValid4 : Endian → ℕ → ℕ → ℕ → List ℕ → Type 0
IsValid4 e src4 dest4 proto bs = (src4 + dest4 + (trailer e proto bs + sum16 e bs)) % 65535 ≡ 0

abbrev pub IsValid6 : Endian → In6Addr → In6Addr → ℕ → List ℕ → Type 0
IsValid6 e src6 dest6 proto bs =
    (words6 src6 + words6 dest6 + (trailer e proto bs + sum16 e bs)) % 65535 ≡ 0

-- For bytes that hold the field, fewer than 2 ^ 32 of them, the computed checksum is valid over IPv6,
-- whatever stood in its place, and it is not zero, which would stand for no checksum.
pub full_cksum-IsValid6 :
    (e : Endian) (k proto : ℕ) (src6 dest6 : In6Addr) (bs : List ℕ)
    → All IsByte bs
    → IsIn6 src6
    → IsIn6 dest6
    → proto < 256
    → length bs < 2 ^ 32
    → 2 * k + 2 ≤ length bs
    → let ck = never_zero (full_cksum e k (ip6_checksum e src6 dest6 (length bs) proto) bs) in
      IsValid6 e src6 dest6 proto (put_u16 e k ck bs) × (get_u16 e k (put_u16 e k ck bs) ≢ 0)
unfolding full_cksum
full_cksum-IsValid6 e k proto src6 dest6 bs h hs hd hp hl room =
    let p = words6 src6 + words6 dest6 + htonl e (length bs) + htons e proto in
    let x = sum16 e (put_u16 e k 0 bs) in
    let cleared = ip_checksum_lem e (put_u16 e k 0 bs) (put_u16-IsByte e k 0 bs (omega arith) h) in
    let pseudo = ip6_checksum_lem e src6 dest6 (length bs) proto hs hd hl hp in
    let ck = never_zero (ones_add (65535 - ones (0xffff + x)) (65535 - ones p)) in
    let (zero_sum, small) = completes x p in
    let before = sum16-put_u16 e k 0 bs (omega arith) room in
    let after = sum16-put_u16 e k ck bs small room in
    let held = get_u16-put_u16 e k ck bs small room in
    let positive : 1 ≤ ck = ground arith in
    rw (cleared, pseudo, length-put_u16 e k ck bs)
      (ap (λ (s : ℕ). s % 65535) (omega arith) ∙ zero_sum, λ z. omega (arith, z, held, positive))

pub field-le : (e : Endian) (k : ℕ) (bs : List ℕ) → get_u16 e k bs ≤ sum16 e bs
unfolding get_u16 sum16
field-le e zero [] = omega arith
field-le e zero (b ∷ []) = omega arith
field-le e zero (b0 ∷ b1 ∷ bs) = omega arith
field-le e (suc k) [] = omega arith
field-le e (suc k) (b ∷ []) = omega arith
field-le e (suc k) (b0 ∷ b1 ∷ bs) = omega (arith, field-le e k bs)

-- A part of a sum may be replaced by one with the same remainder.
pub sum_swap :
    (total rest sent ck : ℕ)
    → total ≡ rest + sent
    → sent % 65535 ≡ ck % 65535
    → (rest + ck) % 65535 ≡ 0
    → total % 65535 ≡ 0
sum_swap total rest sent ck e same h = omega arith

-- The adjusted checksum, with or without its zero replaced.
adjusted_lem :
    (e : Endian) (k proto ck sent : ℕ) (src6 dest6 : In6Addr) (src4 dest4 : ℕ) (bs : List ℕ)
    → All IsByte bs
    → IsIn6 src6
    → IsIn6 dest6
    → src4 < 2 ^ 32
    → dest4 < 2 ^ 32
    → 2 * k + 2 ≤ length bs
    → IsValid4 e src4 dest4 proto bs
    → ck ≡ ones_add (get_u16 e k bs) (not16 (convert_cksum src6 dest6 src4 dest4))
    → sent < 2 ^ 16
    → sent % 65535 ≡ ck % 65535
    → IsValid6 e src6 dest6 proto (put_u16 e k sent bs)
adjusted_lem e k proto ck sent src6 dest6 src4 dest4 bs h hs hd h4 h4' room valid c small same =
    let old = get_u16 e k bs in
    let t = trailer e proto bs in
    let within : old ≤ sum16 e bs = field-le e k bs in
    let rest = t + (sum16 e bs - old) in
    let after = sum16-put_u16 e k sent bs small room in
    let good =
      convert_cksum-valid src6 dest6 src4 dest4 rest old hs hd h4 h4' (get_u16-lt e k bs h)
        (ap (λ (s : ℕ). s % 65535) (omega arith) ∙ valid) in
    rw (length-put_u16 e k sent bs)
      (sum_swap _ _ sent _ (omega arith) (same ∙ ap (λ (x : ℕ). x % 65535) c) good)

abbrev pub min_length : ℕ → ℕ
min_length proto = if proto == 6 then 20 else if proto == 33 then 12 else 8

-- A protocol with a checksum of its own, and for those in which zero means none, one that is there.
abbrev pub has_cksum : ℕ → ℕ → Bool
has_cksum proto ck = proto == 6 || proto == 33 || ((proto == 17 || proto == 136) && not (ck == 0))

pub proto_cases :
    (proto ck : ℕ)
    → has_cksum proto ck ≡ true
    → (proto ≡ 6) ⊎ ((proto ≡ 33) ⊎ (((proto ≡ 17) ⊎ (proto ≡ 136)) × ((ck == 0) ≡ false)))
proto_cases proto ck k = ground arith

pub long_enough :
    (proto n len : ℕ) → proto ≡ n → min_length proto ≤ len → ltb len (min_length n) ≡ false
long_enough proto n len is room = ground (arith, subst (λ (x : ℕ). min_length x ≤ len) is room)

pub not16-lt : (a : ℕ) → not16 a < 2 ^ 16
not16-lt a = omega arith

-- A zero checksum may be sent as its other form.
pub sent_lem :
    (b : Bool) (ck : ℕ)
    → ck < 2 ^ 16
    → let sent = if b then never_zero ck else ck in (sent < 2 ^ 16) × (sent % 65535 ≡ ck % 65535)
sent_lem b ck h = ground arith

-- A protocol in which zero means no checksum gets one that is not zero.
pub has_cksum-put_u16 :
    (e : Endian) (proto ck : ℕ) (bs : List ℕ)
    → ck < 2 ^ 16
    → has_cksum proto (get_u16 e 3 bs) ≡ true
    → min_length proto ≤ length bs
    → let place : ℕ = if proto == 6 then 8 else 3 in
      let sent : ℕ = if proto == 17 || proto == 136 then never_zero ck else ck in
      has_cksum proto (get_u16 e 3 (put_u16 e place sent bs)) ≡ true
has_cksum-put_u16 e proto ck bs small k len = elim (proto_cases proto (get_u16 e 3 bs) k) [
  | inl tcp ↦ rw tcp refl
  | inr (inl dccp) ↦ rw dccp refl
  | inr (inr (one, there)) ↦
      let room : 2 * 3 + 2 ≤ length bs = ground arith in
      let held = get_u16-put_u16 e 3 (never_zero ck) bs (ground arith) room in
      elim one [
        | inl udp ↦ rw (udp, held) (ground arith)
        | inr lite ↦ rw (lite, held) (ground arith)
      ]
]

pub and_false : (b : Bool) → (b && false) ≡ false
and_false true = refl
and_false false = refl

module _ (e : Endian) (c : Offload) (em : Bool) (src6 dest6 : In6Addr) (p : Segment)
    (whole : partial p ≡ false) where
  -- A packet with a checksum of its own has it adjusted, whichever of the four protocols it is of.
  adjusts :
      has_cksum p.data_proto (get_u16 e 3 p.payload) ≡ true
      → min_length p.data_proto ≤ length p.payload
      → is_set p.ip4.flags_offset ip4_f_mask ≡ false
      → xlate_payload_4to6 e c em src6 dest6 p ≡ adjust e src6 dest6 p
  unfolding xlate_payload_4to6
  adjusts k len off =
      let none_set = and_false (is_set p.ip4.flags_offset (bit_or ip4_f_mask ip4_f_mf)) in
      elim (proto_cases p.data_proto (get_u16 e 3 p.payload) k) [
        | inl tcp ↦
            rw (whole, none_set, off, tcp, long_enough p.data_proto 6 (length p.payload) tcp len)
        | inr others ↦ elim others [
          | inl dccp ↦
              rw (
                whole,
                none_set,
                off,
                dccp,
                long_enough p.data_proto 33 (length p.payload) dccp len,
              )
          | inr (one, there) ↦ elim one [
            | inl udp ↦ rw (
              whole,
              none_set,
              off,
              udp,
              long_enough p.data_proto 17 (length p.payload) udp len,
              there,
            )
            | inr lite ↦ rw (
              whole,
              none_set,
              off,
              lite,
              long_enough p.data_proto 136 (length p.payload) lite len,
              there,
            )
          ]
        ]
      ]

  -- For a first or whole packet of TCP, UDP, UDP-Lite or DCCP without a partial checksum, long enough for
  -- its header, whose checksum is there and valid over its data, the translation succeeds with data of the same length, whose checksum is there and valid over IPv6:
  -- that of UDP and UDP-Lite is not zero.
  pub xlate_payload_4to6-IsValid6 :
      has_cksum p.data_proto (get_u16 e 3 p.payload) ≡ true
      → min_length p.data_proto ≤ length p.payload
      → is_set p.ip4.flags_offset ip4_f_mask ≡ false
      → All IsByte p.payload
      → IsIn6 src6
      → IsIn6 dest6
      → p.ip4.src < 2 ^ 32
      → p.ip4.dest < 2 ^ 32
      → IsValid4 e p.ip4.src p.ip4.dest p.data_proto p.payload
      → (bs : List ℕ) × (xlate_payload_4to6 e c em src6 dest6 p ≡ ok (bs, p.needs_csum))
        × (length bs ≡ length p.payload)
        × (has_cksum p.data_proto (get_u16 e 3 bs) ≡ true)
        × IsValid6 e src6 dest6 p.data_proto bs
  unfolding adjust adjusted
  xlate_payload_4to6-IsValid6 k len off bytes hs hd h4 h4' valid =
      let place = if p.data_proto == 6 then 8 else 3 in
      let ck = adjusted e place src6 dest6 p in
      let sent = if p.data_proto == 17 || p.data_proto == 136 then never_zero ck else ck in
      let room : 2 * place + 2 ≤ length p.payload = ground arith in
      let small : ck < 2 ^ 16 =
        ones_add-lt (get_u16 e place p.payload) _ (get_u16-lt e place p.payload bytes)
          (not16-lt _) in
      let chosen = sent_lem (p.data_proto == 17 || p.data_proto == 136) ck small in
      (
        put_u16 e place sent p.payload,
        adjusts k len off,
        length-put_u16 e place sent p.payload,
        has_cksum-put_u16 e p.data_proto ck p.payload small k len,
        adjusted_lem e place p.data_proto ck sent src6 dest6 p.ip4.src p.ip4.dest p.payload bytes hs
            hd h4 h4' room valid refl chosen.0 chosen.1,
      )
