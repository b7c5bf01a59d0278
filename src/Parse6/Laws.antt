-- ===== src/Parse6/Laws.antt =====
-- What `parse_ip6` of src/nat64.c accepts, and where the data that it leaves stands.
use Prim.Native.Nat.{min}
use tayga.Base.{
  ℕ, zero, suc, ◌+◌, ◌-◌, ◌/◌, ◌^◌, ◌≤◌, ◌<◌, ◌≡◌, ◌≢◌, refl, sym, ap, subst, ◌∙◌, ◌⊎◌, inl, inr,
  arith, Bool, true, false, ◌||◌, not, ◌==◌, ltb, bit_or, Bool-cases, Option-cases, some, List, [],
  ◌∷◌, length, take, drop, All,
}
use tayga.Word.{Endian, big, little, htonl, htons}
use tayga.Addr.{In6Addr, is_error, validate_ip6_addr}
use tayga.Payload6.{ip6_f_mask, ip6_f_mf, frag_set}
use tayga.Walk.{Walk, walk_extensions}
use tayga.Walk.Laws.{walk-Reaches}
use tayga.Checksum.Bytes.{IsByte}
use tayga.Payload.{get_u16}
use tayga.Payload.Laws.{get_u16-lt}
use tayga.Packet.Sums.{All-drop}
use tayga.Packet.{read_ip6, read_frag, Frame}
use tayga.Host.{Pkt6}
use tayga.Parse6.{
  is_bad_ip6, start_walk, Behind, offset_of, take_frag, is_bad_icmp6, pkt6, segments_left, finish,
  parse_ip6,
}
use tayga.Parse6.Passes.{
  drop_add, Passes, Reaches-Passes, IsFragment, some_injective, take_frag-Taken,
}

-- What `parse_ip6` has made sure of when it leaves the packet `p` of the frame `f`: the header, where
-- the data stands and how much it is, and the protocol.
pub record IsPkt6 (e : Endian) (em : Bool) (f : Frame) (p : Pkt6) : Type 0 where
  pub frame : p.frame ≡ f
  pub ip6 : p.ip6 ≡ read_ip6 e f.raw
  pub long_enough : 40 ≤ length f.raw
  pub version : htonl e p.ip6.ver_tc_fl / 2 ^ 28 ≡ 6
  pub src : is_error (validate_ip6_addr e p.ip6.src) ≡ false
  pub dest : is_error (validate_ip6_addr e p.ip6.dest) ≡ false
  pub counted :
      p.header_len + length p.payload ≡ min (htons e p.ip6.payload_length) (length f.raw - 40)
  pub placed : p.payload ≡ take (length p.payload) (drop (40 + p.header_len) f.raw)
  pub fragment : IsFragment e em p.ip6_frag (length p.payload)
  pub not_icmp4 : p.data_proto ≢ 1
  pub icmp : p.data_proto ≡ 58 → 8 ≤ length p.payload
  pub whole :
      p.data_proto ≡ 58
      → (em ≡ true) ⊎ (frag_set (offset_of e p.ip6_frag) (bit_or ip6_f_mask ip6_f_mf) ≡ false)

pub or_false : (a b : Bool) → (a || b) ≡ false → (a ≡ false) × (b ≡ false)
or_false true b h = cc
or_false false b h = (refl, h)

not_ltb : (a b : ℕ) → ltb a b ≡ false → b ≤ a
not_ltb a b h = ground arith

not_eq : (a b : ℕ) → not (a == b) ≡ false → a ≡ b
not_eq a b h = ground arith

is_bad_ip6_lem :
    (e : Endian) (f : Frame)
    → is_bad_ip6 e f ≡ false
    → (40 ≤ length f.raw)
      × (htonl e (read_ip6 e f.raw).ver_tc_fl / 2 ^ 28 ≡ 6)
      × (is_error (validate_ip6_addr e (read_ip6 e f.raw).src) ≡ false)
      × (is_error (validate_ip6_addr e (read_ip6 e f.raw).dest) ≡ false)
unfolding is_bad_ip6
is_bad_ip6_lem e f h =
    let (abc, d) = or_false _ _ h in
    let (ab, c) = or_false _ _ abc in
    let (a, b) = or_false _ _ ab in (not_ltb (length f.raw) 40 a, not_eq _ 6 b, c, d)

is_bad_icmp6_lem :
    (e : Endian) (em : Bool) (b : Behind)
    → is_bad_icmp6 e em b ≡ false
    → (b.walk.data_proto ≢ 1)
      × (b.walk.data_proto ≡ 58 → 8 ≤ b.walk.data_len)
      × (b.walk.data_proto ≡ 58
          → (em ≡ true) ⊎ (frag_set (offset_of e b.ip6_frag) (bit_or ip6_f_mask ip6_f_mf) ≡ false))
unfolding is_bad_icmp6
is_bad_icmp6_lem e em b h = (λ x. ground arith, λ x. ground arith, λ x. ground arith)

-- Where the loop starts.
start_lem :
    (e : Endian) (f : Frame)
    → htons e (read_ip6 e f.raw).payload_length < 2 ^ 16
    → let w = start_walk e f in
      (w.header_len ≡ 0)
      × (w.data_len ≡ min (htons e (read_ip6 e f.raw).payload_length) (length f.raw - 40))
      × (w.bytes ≡ drop 40 f.raw)
      × (w.data_len < 2 ^ 16)
unfolding start_walk
start_lem e f h = (refl, ground arith, refl, ground arith)

-- A sum of passages, from the start to what lies behind the fragment header.
Passes-trans : (a b c : Walk) → Passes a b → Passes b c → Passes a c
Passes-trans a b c (k, h, d, l) (k', h', d', l') = (
  k + k',
  omega (arith, h, h'),
  d' ∙ ap (drop k') d ∙ drop_add k k' a.bytes,
  omega (arith, l, l'),
)

length-take : (n : ℕ) (xs : List ℕ) → n ≤ length xs → length (take n xs) ≡ n
length-take zero xs h = refl
length-take (suc n) [] h = absurd (omega arith)
length-take (suc n) (x ∷ xs) h = ap suc (length-take n xs (omega arith))

length-drop : (n : ℕ) (xs : List ℕ) → length (drop n xs) ≡ length xs - n
length-drop zero xs = omega arith
length-drop (suc n) [] = omega arith
length-drop (suc n) (x ∷ xs) = omega (arith, length-drop n xs)

-- What the two tests before the end and the passage say of the packet.
pkt6-IsPkt6 :
    (e : Endian) (em : Bool) (f : Frame) (b : Behind)
    → htons e (read_ip6 e f.raw).payload_length < 2 ^ 16
    → is_bad_ip6 e f ≡ false
    → Passes (start_walk e f) b.walk
    → IsFragment e em b.ip6_frag b.walk.data_len
    → is_bad_icmp6 e em b ≡ false
    → IsPkt6 e em f (pkt6 e f b)
unfolding pkt6
pkt6-IsPkt6 e em f b lt good (k, more, rest, left) frag sound =
    let header = is_bad_ip6_lem e f good in
    let icmp = is_bad_icmp6_lem e em b sound in
    let start = start_lem e f lt in
    let bytes : b.walk.bytes ≡ drop (40 + b.walk.header_len) f.raw =
      rest
      ∙ ap (drop k) (start.2)
      ∙ drop_add 40 k f.raw
      ∙ ap (λ (t : ℕ). drop t f.raw) (omega (arith, more, start.0)) in
    let room : length b.walk.bytes ≡ length f.raw - (40 + b.walk.header_len) =
      ap length bytes ∙ length-drop (40 + b.walk.header_len) f.raw in
    let len : length (take b.walk.data_len b.walk.bytes) ≡ b.walk.data_len =
      length-take b.walk.data_len b.walk.bytes
        (omega (arith, room, start.0, start.1, more, left, header.0)) in
    record {
      frame = refl;
      ip6 = refl;
      long_enough = header.0;
      version = header.1;
      src = header.2;
      dest = header.3;
      counted = omega (arith, len, start.0, start.1, more, left);
      placed =
          ap (take b.walk.data_len) bytes
          ∙ ap (λ (t : ℕ). take t (drop (40 + b.walk.header_len) f.raw)) (sym len);
      fragment = subst (IsFragment e em b.ip6_frag) (sym len) frag;
      not_icmp4 = icmp.0;
      icmp = λ x. rw len (icmp.1 x);
      whole = icmp.2;
    }

htons_bound : (e : Endian) (k : ℕ) (bs : List ℕ) → All IsByte bs → htons e (get_u16 e k bs) < 2 ^ 16
unfolding htons
htons_bound big k bs h = get_u16-lt big k bs h
htons_bound little k bs h = omega (arith, get_u16-lt little k bs h)

offset_bound :
    (e : Endian) (bs : List ℕ) → All IsByte bs → htons e (read_frag e bs).offset_flags < 2 ^ 16
unfolding read_frag
offset_bound e bs h = htons_bound e 1 bs h

pub length_bound :
    (e : Endian) (bs : List ℕ) → All IsByte bs → htons e (read_ip6 e bs).payload_length < 2 ^ 16
unfolding read_ip6
length_bound e bs h = htons_bound e 2 bs h

finish-IsPkt6 :
    (e : Endian) (own : In6Addr) (em : Bool) (f : Frame) (p : Pkt6) (b : Behind)
    → htons e (read_ip6 e f.raw).payload_length < 2 ^ 16
    → is_bad_ip6 e f ≡ false
    → Passes (start_walk e f) b.walk
    → IsFragment e em b.ip6_frag b.walk.data_len
    → (finish e own em f (some b)).1 ≡ some p
    → IsPkt6 e em f p × ((finish e own em f (some b)).0 ≡ [])
unfolding segments_left
finish-IsPkt6 e own em f p b lt good pass frag h = elim (Bool-cases (is_bad_icmp6 e em b)) [
  | inl bad ↦ absurd (let x = rw bad at h in cc)
  | inr sound ↦ elim (Bool-cases (b.walk.seg_left == 0)) [
    | inl none_left ↦
        let same : pkt6 e f b ≡ p = some_injective (rw (sound, none_left) at h) in
        (
          subst (IsPkt6 e em f) same (pkt6-IsPkt6 e em f b lt good pass frag sound),
          rw (sound, none_left),
        )
    | inr left ↦ elim (Bool-cases em) [
      | inl inner ↦ absurd (let x = rw (sound, left, inner) at h in cc)
      | inr outer ↦ absurd (let x = rw (sound, left, outer) at h in cc)
    ]
  ]
]

-- In a frame of bytes, a packet that `parse_ip6` leaves has a header of version 6 between addresses
-- that are not dropped; its data are the bytes behind the headers that were passed over, as many as
-- the payload length and the frame allow; a fragment ends within 65535 bytes, and is a multiple of 8
-- unless it is the last or embedded; the data is no ICMPv4, and ICMPv6 has its header and, unless
-- embedded, is whole. Nothing is sent then.
pub parse_ip6-IsPkt6 :
    (e : Endian) (own : In6Addr) (em : Bool) (f : Frame) (p : Pkt6)
    → All IsByte f.raw
    → (parse_ip6 e own em f).1 ≡ some p
    → IsPkt6 e em f p × ((parse_ip6 e own em f).0 ≡ [])
unfolding parse_ip6
parse_ip6-IsPkt6 e own em f p bytes h =
    let lt = length_bound e f.raw bytes in
    let start = start_lem e f lt in
    elim (Bool-cases (is_bad_ip6 e f)) [
      | inl bad ↦ absurd (let x = rw bad at h in cc)
      | inr good ↦ elim (Option-cases (walk_extensions 9 0 (start_walk e f))) [
        | inl lost ↦ absurd (let x = rw (good, lost) at h in cc)
        | inr (w, found) ↦ elim (Option-cases (take_frag e em w)) [
          | inl lost ↦ absurd (let x = rw (good, found, lost) at h in cc)
          | inr (b, there) ↦
              let reach = walk-Reaches 8 8 0 (start_walk e f) w refl (omega arith) found in
              let pass : Passes (start_walk e f) w =
                Reaches-Passes 8 (start_walk e f) w reach (omega (arith, start.0, start.3)) in
              let inside : All IsByte w.bytes =
                subst (All IsByte) (sym (pass.2 ∙ ap (drop pass.0) (start.2)))
                  (All-drop pass.0 (drop 40 f.raw) (All-drop 40 f.raw bytes)) in
              let taken =
                take_frag-Taken e em w b (offset_bound e w.bytes inside)
                  (omega (arith, start.0, start.3, pass.1, pass.3)) there in
              let (q, sent) =
                finish-IsPkt6 e own em f p b lt good
                  (Passes-trans (start_walk e f) w b.walk pass taken.0) taken.1
                  (rw (good, found, there) at h) in
              (q, rw (good, found, there) sent)
        ]
      ]
    ]
