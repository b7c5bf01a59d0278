-- ===== src/Translate/Safety.antt =====
-- Packets do not loop: what `handle_ip4` and `handle_ip6` of src/nat64.c send, all branches together.
use tayga.Base.{
  ℕ, zero, suc, ◌≤◌, ◌<◌, ◌≡◌, refl, subst, inl, inr, arith, false, ◌==◌, Bool-cases, Option, none,
  some, List, [], ◌∷◌, ◌++◌, All, length, take, drop, ==_iff,
}
use tayga.Checksum.Bytes.{IsByte}
use tayga.Walk.{Walk, byte, walk_extensions}
use tayga.Resolve.{in6_are_addr_equal}
use tayga.Parse.{Pkt, parse_ip4}
use tayga.Packet.{
  Ip6Header, read_ip4, read_ip6, Frame, Event, dropped, Pkt4, pkt4, host_ip4, parse_frame4,
}
use tayga.Host.{Pkt6}
use tayga.Parse6.Laws.{parse_ip6-IsPkt6}
use tayga.Parse6.{
  Behind, is_bad_ip6, start_walk, take_frag, is_bad_icmp6, pkt6, segments_left, finish, from_walk,
  parse_ip6,
}
use tayga.Translate.{AddressMap, Config, World}
use tayga.Translate.Entry.{
  Gso, is_aggregate, is_bad_ip4, parsed4, handle_ip4, is_bad_pkt6, parsed6, handle_ip6,
}
use tayga.Translate.Safety4.{branch, IsAllowed4}
use tayga.Translate.Safety4 as S4
use tayga.Translate.Safety6.{IsAllowed6}
use tayga.Translate.Safety6 as S6

pub byte-lt : (i : ℕ) (bs : List ℕ) → All IsByte bs → byte i bs < 256
byte-lt i [] h = omega arith
byte-lt zero (x ∷ xs) h = h.0
byte-lt (suc i) (x ∷ xs) h = byte-lt i xs h.1

All_snoc :
    (P : Event → Type 0) (xs : List Event) → All P xs → P dropped → All P (xs ++ (dropped ∷ []))
All_snoc P [] h d = (d, tt)
All_snoc P (x ∷ xs) h d = (h.0, All_snoc P xs h.1 d)

positive : (n : ℕ) → (n == 0) ≡ false → 1 ≤ n
positive n h = ground arith

alive4 : (c : Config) (p : Pkt4) → is_bad_ip4 c.endian p ≡ false → 1 ≤ p.ip4.ttl
unfolding is_bad_ip4
alive4 c p h = elim (Bool-cases (p.ip4.ttl == 0)) [
  | inl dead ↦ absurd (let x = rw dead at h in cc)
  | inr live ↦ positive p.ip4.ttl live
]

alive6 : (c : Config) (p : Pkt6) → is_bad_pkt6 c.endian p ≡ false → 1 ≤ p.ip6.hop_limit
unfolding is_bad_pkt6
alive6 c p h = elim (Bool-cases (p.ip6.hop_limit == 0)) [
  | inl dead ↦ absurd (let x = rw dead at h in cc)
  | inr live ↦ positive p.ip6.hop_limit live
]

ttl_bound : (c : Config) (bs : List ℕ) → All IsByte bs → (read_ip4 c.endian bs).ttl < 256
unfolding read_ip4
ttl_bound c bs h = byte-lt 8 bs h

hop_bound : (c : Config) (bs : List ℕ) → All IsByte bs → (read_ip6 c.endian bs).hop_limit < 256
unfolding read_ip6
hop_bound c bs h = byte-lt 7 bs h

module _ (m : AddressMap) (c : Config) (f : Frame) (w : World m.Store) where
  parsed4-All :
      (o : Option Pkt)
      → All IsByte f.raw
      → All (IsAllowed4 c (read_ip4 c.endian f.raw)) (parsed4 m c f w (pkt4 c.endian f o)).0
  parsed4-All none h = (tt, tt)
  parsed4-All (some o) h =
      let hd = read_ip4 c.endian f.raw in
      let p : Pkt4 = record {
        frame = f;
        ip4 = hd;
        header_len = o.header_len;
        data_proto = o.data_proto;
        payload = take o.data_len (drop o.header_len f.raw);
      } in
      elim (Bool-cases (is_bad_ip4 c.endian p)) [
        | inl bad ↦ rw bad (tt, tt)
        | inr good ↦ elim (Bool-cases (hd.dest == c.local_addr4)) [
          | inl own ↦ rw (good, own) (S4.self-All c hd p refl ((==_iff _ _).0 own))
          | inr other ↦
              rw (good, other)
                (S4.forward-All c hd p refl m w (alive4 c p good) (ttl_bound c f.raw h)
                  (λ e. ground (arith, e)))
        ]
      ]

  -- What the parser sends, and its packet.
  segments_ok :
      (b : Behind)
      → All
          (IsAllowed6 c (read_ip6 c.endian f.raw))
          (segments_left c.endian c.local_addr6 false b.walk (pkt6 c.endian f b)).0
  unfolding pkt6
  segments_ok b = S6.segments-All c (read_ip6 c.endian f.raw) (pkt6 c.endian f b) refl false b.walk

  finish-All :
      (o : Option Behind)
      → All (IsAllowed6 c (read_ip6 c.endian f.raw)) (finish c.endian c.local_addr6 false f o).0
  finish-All none = tt
  finish-All (some b) =
      branch (λ (r : List Event × Option Pkt6). All (IsAllowed6 c (read_ip6 c.endian f.raw)) r.0)
        (is_bad_icmp6 c.endian false b) tt (segments_ok b)

  walk-All :
      (o : Option Walk)
      → All (IsAllowed6 c (read_ip6 c.endian f.raw)) (from_walk c.endian c.local_addr6 false f o).0
  walk-All none = tt
  walk-All (some k) = finish-All (take_frag c.endian false k)

  parse-All :
      All (IsAllowed6 c (read_ip6 c.endian f.raw)) (parse_ip6 c.endian c.local_addr6 false f).0
  unfolding parse_ip6
  parse-All =
      branch (λ (r : List Event × Option Pkt6). All (IsAllowed6 c (read_ip6 c.endian f.raw)) r.0)
        (is_bad_ip6 c.endian f) tt (walk-All (walk_extensions 9 0 (start_walk c.endian f)))

  parsed6-All :
      (sent : List Event) (o : Option Pkt6)
      → All IsByte f.raw
      → All (IsAllowed6 c (read_ip6 c.endian f.raw)) sent
      → ((p : Pkt6) → o ≡ some p → p.ip6 ≡ read_ip6 c.endian f.raw)
      → All (IsAllowed6 c (read_ip6 c.endian f.raw)) (parsed6 m c w (sent, o)).0
  parsed6-All sent none h s k = All_snoc _ sent s tt
  parsed6-All sent (some p) h s k =
      let hd = read_ip6 c.endian f.raw in
      let same : p.ip6 ≡ hd = k p refl in
      let live = alive6 c p in
      elim (Bool-cases (is_bad_pkt6 c.endian p)) [
        | inl bad ↦ rw bad (tt, tt)
        | inr good ↦ elim (Bool-cases (in6_are_addr_equal p.ip6.dest c.local_addr6)) [
          | inl own ↦ rw (good, own) (S6.self-All c hd p same own)
          | inr other ↦
              rw (good, other)
                (S6.forward-All c hd p same m w
                  (subst (λ (t : Ip6Header). 1 ≤ t.hop_limit) same (live good))
                  (hop_bound c f.raw h)
                  (subst (λ (t : Ip6Header). in6_are_addr_equal t.dest c.local_addr6 ≡ false) same
                    other))
        ]
      ]

  module _ (gso : Gso m.Store) where
    -- For a packet of bytes that is no offload aggregate, in any configuration, state and mapping:
    -- each IPv6 packet that `handle_ip4` writes has a hop limit one less than the TTL, at least 1, and
    -- only a packet to another host is translated; each IPv4 packet that it writes is ICMP from our own
    -- address to the source.
    pub handle_ip4-IsAllowed4 :
        is_aggregate f ≡ false
        → All IsByte f.raw
        → All (IsAllowed4 c (read_ip4 c.endian f.raw)) (handle_ip4 m c gso f w).0
    unfolding handle_ip4 parse_frame4
    handle_ip4-IsAllowed4 plain h = rw plain (
        parsed4-All
          (parse_ip4 c.endian false (host_ip4 c.endian (read_ip4 c.endian f.raw)) (length f.raw)) h)

    -- For a packet of bytes that is no offload aggregate, in any configuration, state and mapping:
    -- each IPv4 packet that `handle_ip6` writes has a TTL one less than the hop limit, at least 1, and
    -- only a packet to another host is translated; each IPv6 packet that it writes is ICMPv6 from our
    -- own address to the source.
    pub handle_ip6-IsAllowed6 :
        is_aggregate f ≡ false
        → All IsByte f.raw
        → All (IsAllowed6 c (read_ip6 c.endian f.raw)) (handle_ip6 m c gso f w).0
    unfolding handle_ip6
    handle_ip6-IsAllowed6 plain h =
        let r = parse_ip6 c.endian c.local_addr6 false f in
        rw plain (
          parsed6-All r.0 r.1 h parse-All
            (λ p e. (parse_ip6-IsPkt6 c.endian c.local_addr6 false f p h e).0.ip6))
