-- ===== src/Translate/Safety6.antt =====
-- What `handle_ip6` of src/nat64.c may send, whatever the packet and the mapper.
use tayga.Base.{
  ℕ, ◌+◌, ◌-◌, ◌≤◌, ◌<◌, ◌≡◌, refl, ap, inl, inr, arith, Bool, true, false, not, ◌&&◌, ◌||◌, ◌==◌,
  ltb, Bool-cases, Option, none, some, List, All, length, drop,
}
use tayga.Word.{htons}
use tayga.Addr.{In6Addr}
use tayga.Prefix.{ok, err}
use tayga.Fragment.{ip6_size}
use tayga.Icmp.{Icmp}
use tayga.Walk.{Walk, byte}
use tayga.Resolve.{in6_are_addr_equal}
use tayga.Payload.{Translated}
use tayga.Payload6.{xlate_payload_6to4}
use tayga.Packet.{
  Ip4Header, Ip6Header, IcmpHeader, read_icmp, packet4, packet6, Event, written, dropped,
}
use tayga.Host.{
  Pkt6, with_checksum, host_send_icmp6, host_send_icmp6_error, host_handle_icmp6, traffic_class,
}
use tayga.Host.Errors.{error_turn6}
use tayga.Parse6.{segments_left}
use tayga.Translate.{
  Mapped, mapped, rejected, unmapped, AddressMap, Config, World, decrement, xlate_header_6to4,
}
use tayga.Translate.Data6.{segment6, write4, send_6to4, from_source6, from_dest6, xlate_6to4_data}
use tayga.Translate.Error6.{
  embedded6, switch_6to4, write_error4, to_dest4, to_source4, with_payload4, with_header4, em_dest4,
  em_source4, with_switch4, quoting6, xlate_6to4_icmp_error,
}
use tayga.Translate.Entry.{handle_self6, forward6}
use tayga.Translate.Safety4.{branch}

module _ (c : Config) (h : Ip6Header) where
  -- An IPv4 packet has a TTL of one less, and is for another host; an IPv6 packet is ICMPv6 of our own
  -- address to the source.
  abbrev pub IsAllowed6 : Event → Type 0
  IsAllowed6 (written v (packet4 h4 bs)) =
      (1 ≤ h4.ttl) × (h4.ttl + 1 ≡ h.hop_limit) × (in6_are_addr_equal h.dest c.local_addr6 ≡ false)
  IsAllowed6 (written v (packet6 h6 bs)) =
      (h6.next_header ≡ 58)
      × (h6.hop_limit ≡ 64)
      × (in6_are_addr_equal h6.src c.local_addr6 ≡ true)
      × (h6.dest ≡ h.src)
  IsAllowed6 dropped = Unit

  send-All :
      (tc : ℕ) (src dest : In6Addr) (icmp : IcmpHeader) (bs : List ℕ)
      → in6_are_addr_equal src c.local_addr6 ≡ true
      → dest ≡ h.src
      → All IsAllowed6 (host_send_icmp6 c.endian tc src dest icmp bs)
  unfolding host_send_icmp6
  send-All tc src dest icmp bs s d = ((refl, refl, s, d), tt)

  equal_self : (a : In6Addr) → in6_are_addr_equal a a ≡ true
  equal_self a = ground arith

  module _ (p : Pkt6) (same : p.ip6 ≡ h) where
    src_same : p.ip6.src ≡ h.src
    src_same = ap (λ (t : Ip6Header). t.src) same

    pub error-All :
        (type code word : ℕ)
        → All IsAllowed6 (host_send_icmp6_error c.endian c.local_addr6 type code word p)
    error-All type code word = rw (error_turn6 c.endian c.local_addr6 type code word p) (
        branch (All IsAllowed6) (p.data_proto == 58 && not (byte 0 p.payload == 128)) tt
          (send-All 0 c.local_addr6 p.ip6.src _ _ (equal_self c.local_addr6) src_same))

    pub self-All :
        in6_are_addr_equal p.ip6.dest c.local_addr6 ≡ true → All IsAllowed6 (handle_self6 c p)
    unfolding handle_self6 host_handle_icmp6
    self-All own =
        branch (All IsAllowed6) (p.data_proto == 58)
          (branch (All IsAllowed6) ((read_icmp c.endian p.payload).type == 128)
            (send-All (traffic_class c.endian p.ip6) p.ip6.dest p.ip6.src
              (record (read_icmp c.endian p.payload) { type = 129 }) (drop 8 p.payload) own
              src_same)
            tt)
          (error-All 4 1 6)

    -- A routing header with segments left.
    pub segments-All :
        (em : Bool) (k : Walk) → All IsAllowed6 (segments_left c.endian c.local_addr6 em k p).0
    unfolding segments_left
    segments-All em k =
        branch (λ (r : List Event × Option Pkt6). All IsAllowed6 r.0) (k.seg_left == 0) tt
          (branch (λ (r : List Event × Option Pkt6). All IsAllowed6 r.0) em tt (error-All 4 0 _))

    module _ (live : 2 ≤ h.hop_limit) (small : h.hop_limit < 256)
        (other : in6_are_addr_equal h.dest c.local_addr6 ≡ false) where
      next-All :
          (hop : ℕ)
          → hop ≡ decrement p.ip6.hop_limit
          → (1 ≤ hop) × (hop + 1 ≡ h.hop_limit) × (in6_are_addr_equal h.dest c.local_addr6 ≡ false)
      next-All hop n =
          let ttl : p.ip6.hop_limit ≡ h.hop_limit = ap (λ (t : Ip6Header). t.hop_limit) same in
          (omega (arith, n, ttl), omega (arith, n, ttl), other)

      write-All :
          (h4 : Ip4Header) (t : Translated)
          → h4.ttl ≡ decrement p.ip6.hop_limit
          → All IsAllowed6 (write4 c.endian p h4 t)
      unfolding write4 with_checksum
      write-All h4 (err r) n = (tt, tt)
      write-All h4 (ok (bs, k)) n = (next-All h4.ttl n, tt)

      send_6to4-All : (src dest counter : ℕ) → All IsAllowed6 (send_6to4 c p src dest counter).0
      unfolding send_6to4 xlate_header_6to4
      send_6to4-All src dest counter =
          let made = (xlate_header_6to4 c.endian p src dest (length p.payload) counter).0 in
          let moved = record made { ttl = decrement made.ttl } in
          elim (Bool-cases (ltb c.mtus.mtu (ip6_size + length p.payload))) [
            | inl big ↦ rw big (error-All 2 0 c.mtus.mtu)
            | inr fits ↦ rw fits (
                write-All moved
                  (xlate_payload_6to4 c.endian c.offload false src dest (segment6 c.endian p)) refl)
          ]

      source-All :
          (m : AddressMap) (ident dest : ℕ) (r : Mapped ℕ × m.Store)
          → All IsAllowed6 (from_source6 m c p ident dest r).0
      source-All m ident dest (rejected, s) = (tt, error-All 1 5 0)
      source-All m ident dest (unmapped, s) = (tt, tt)
      source-All m ident dest (mapped src, s) = send_6to4-All src dest ident

      dest-All :
          (m : AddressMap) (ident : ℕ) (r : Mapped ℕ × m.Store)
          → All IsAllowed6 (from_dest6 m c p ident r).0
      dest-All m ident (rejected, s) = (tt, error-All 1 0 0)
      dest-All m ident (unmapped, s) = (tt, tt)
      dest-All m ident (mapped dest, s) = source-All m ident dest (m.to_ip4 true p.ip6.src s)

      data-All : (m : AddressMap) (w : World m.Store) → All IsAllowed6 (xlate_6to4_data m c p w).0
      unfolding xlate_6to4_data
      data-All m w = dest-All m w.ident (m.to_ip4 false p.ip6.dest w.store)

      written-All :
          (i : Icmp) (quote bs : List ℕ) (src dest counter : ℕ)
          → All IsAllowed6 (write_error4 c.endian p i quote bs src dest counter).0
      unfolding write_error4 xlate_header_6to4 with_checksum
      written-All i quote bs src dest counter = (next-All (decrement p.ip6.hop_limit) refl, tt)

      outer-All :
          (m : AddressMap) (i : Icmp) (quote bs : List ℕ) (counter src : ℕ) (r : Mapped ℕ × m.Store)
          → All IsAllowed6 (to_dest4 m c.endian p i quote bs counter src r).0
      outer-All m i quote bs counter src (mapped dest, s) = written-All i quote bs src dest counter
      outer-All m i quote bs counter src (rejected, s) = tt
      outer-All m i quote bs counter src (unmapped, s) = tt

      answer-All :
          (m : AddressMap) (i : Icmp) (quote bs : List ℕ) (counter : ℕ) (r : Mapped ℕ × m.Store)
          → All IsAllowed6 (to_source4 m c p i quote bs counter r).0
      answer-All m i quote bs counter (mapped src, s) =
          outer-All m i quote bs counter src (m.to_ip4 false p.ip6.dest s)
      answer-All m i quote bs counter (rejected, s) =
          outer-All m i quote bs counter c.local_addr4 (m.to_ip4 false p.ip6.dest s)
      answer-All m i quote bs counter (unmapped, s) =
          outer-All m i quote bs counter c.local_addr4 (m.to_ip4 false p.ip6.dest s)

      payload-All :
          (m : AddressMap) (i : Icmp) (quote : List ℕ) (t : Translated) (counter : ℕ) (s : m.Store)
          → All IsAllowed6 (with_payload4 m c p i quote t counter s).0
      payload-All m i quote (err r) counter s = tt
      payload-All m i quote (ok (bs, k)) counter s =
          answer-All m i quote bs counter (m.to_ip4 false p.ip6.src s)

      header-All :
          (m : AddressMap) (q : Pkt6) (i : Icmp) (src dest : ℕ) (r : Ip4Header × ℕ) (s : m.Store)
          → All IsAllowed6 (with_header4 m c p q i src dest r s).0
      header-All m q i src dest (h4, counter) s = payload-All m i _ _ counter s

      em_dest-All :
          (m : AddressMap) (q : Pkt6) (i : Icmp) (counter src : ℕ) (r : Mapped ℕ × m.Store)
          → All IsAllowed6 (em_dest4 m c p q i counter src r).0
      em_dest-All m q i counter src (mapped dest, s) =
          header-All m q i src dest
            (xlate_header_6to4 c.endian q src dest
              (htons c.endian q.ip6.payload_length - q.header_len) counter)
            s
      em_dest-All m q i counter src (rejected, s) = tt
      em_dest-All m q i counter src (unmapped, s) = tt

      em_source-All :
          (m : AddressMap) (q : Pkt6) (i : Icmp) (counter : ℕ) (r : Mapped ℕ × m.Store)
          → All IsAllowed6 (em_source4 m c p q i counter r).0
      em_source-All m q i counter (mapped src, s) =
          em_dest-All m q i counter src (m.to_ip4 false q.ip6.dest s)
      em_source-All m q i counter (rejected, s) = tt
      em_source-All m q i counter (unmapped, s) = tt

      switch-All :
          (m : AddressMap) (q : Pkt6) (w : World m.Store) (o : Option Icmp)
          → All IsAllowed6 (with_switch4 m c p q w o).0
      switch-All m q w none = tt
      switch-All m q w (some i) = em_source-All m q i w.ident (m.to_ip4 false q.ip6.src w.store)

      quoting-All :
          (m : AddressMap) (w : World m.Store) (o : Option Pkt6)
          → All IsAllowed6 (quoting6 m c p w o).0
      quoting-All m w none = tt
      quoting-All m w (some q) = switch-All m q w (switch_6to4 c p)

      icmp_error-All :
          (m : AddressMap) (w : World m.Store) → All IsAllowed6 (xlate_6to4_icmp_error m c p w).0
      unfolding xlate_6to4_icmp_error
      icmp_error-All m w = quoting-All m w (embedded6 c p)

    pub forward-All :
        (m : AddressMap) (w : World m.Store)
        → 1 ≤ h.hop_limit
        → h.hop_limit < 256
        → in6_are_addr_equal h.dest c.local_addr6 ≡ false
        → All IsAllowed6 (forward6 m c p w).0
    unfolding forward6
    forward-All m w live small other =
        let ttl : p.ip6.hop_limit ≡ h.hop_limit = ap (λ (t : Ip6Header). t.hop_limit) same in
        let type = (read_icmp c.endian p.payload).type in
        elim (Bool-cases (p.ip6.hop_limit == 1)) [
          | inl last ↦ rw last (error-All 3 0 0)
          | inr more ↦
              let enough : 2 ≤ h.hop_limit = ground arith in
              elim (Bool-cases (not (p.data_proto == 58) || type == 128 || type == 129)) [
                | inl plain ↦ rw (more, plain) (data-All enough small other m w)
                | inr error ↦ rw (more, error) (icmp_error-All enough small other m w)
              ]
        ]
