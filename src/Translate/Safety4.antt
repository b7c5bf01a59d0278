-- ===== src/Translate/Safety4.antt =====
-- What `handle_ip4` of src/nat64.c may send, whatever the packet and the mapper.
use tayga.Base.{
  ℕ, ◌+◌, ◌≤◌, ◌<◌, ◌≡◌, ◌≢◌, refl, ap, inl, inr, arith, Bool, true, false, not, ◌&&◌, ◌||◌,
  if◌then◌else◌, ◌==◌, Bool-cases, Option, none, some, List, [], ◌∷◌, All, drop,
}
use tayga.Addr.{In6Addr}
use tayga.Prefix.{ok, err}
use tayga.Icmp.{Icmp}
use tayga.Walk.{byte}
use tayga.Fragment.{Frag, Sent, too_big, whole, fragments}
use tayga.Payload.{Translated}
use tayga.Packet.{
  Ip4Header, Ip6Header, IcmpHeader, read_icmp, packet4, packet6, Event, written, dropped, Pkt4,
}
use tayga.Host.{with_checksum, host_send_icmp4, host_send_icmp4_error, host_handle_icmp4}
use tayga.Host.Errors.{error_turn4}
use tayga.Translate.{
  Mapped, mapped, rejected, unmapped, AddressMap, Config, World, decrement, xlate_header_4to6,
}
use tayga.Translate.Data4.{
  fragment, fragments_of, write_sent, send_4to6, from_source4, from_dest4, xlate_4to6_data,
}
use tayga.Translate.Error4.{
  embedded4, switch_4to6, write_error6, to_dest6, to_source6, with_payload6, with_switch6, em_dest6,
  em_source6, quoting4, xlate_4to6_icmp_error,
}
use tayga.Translate.Entry.{handle_self4, forward4}

pub branch {ℓ κ} :
    {A : Type ℓ} (P : A → Type κ) (b : Bool) {x y : A} → P x → P y → P (if b then x else y)
branch P true h k = h
branch P false h k = k

module _ (c : Config) (h : Ip4Header) where
  -- An IPv6 packet has a hop limit of one less, and is for another host; an IPv4 packet is ICMP of our
  -- own address to the source.
  abbrev pub IsAllowed4 : Event → Type 0
  IsAllowed4 (written v (packet6 h6 bs)) =
      (1 ≤ h6.hop_limit) × (h6.hop_limit + 1 ≡ h.ttl) × (h.dest ≢ c.local_addr4)
  IsAllowed4 (written v (packet4 h4 bs)) =
      (h4.proto ≡ 1) × (h4.ttl ≡ 64) × (h4.src ≡ c.local_addr4) × (h4.dest ≡ h.src)
  IsAllowed4 dropped = Unit

  send-All :
      (tos src dest : ℕ) (icmp : IcmpHeader) (bs : List ℕ)
      → src ≡ c.local_addr4
      → dest ≡ h.src
      → All IsAllowed4 (host_send_icmp4 c.endian tos src dest icmp bs)
  unfolding host_send_icmp4 with_checksum
  send-All tos src dest icmp bs s d = ((refl, refl, s, d), tt)

  module _ (p : Pkt4) (same : p.ip4 ≡ h) where
    src_same : p.ip4.src ≡ h.src
    src_same = ap (λ (t : Ip4Header). t.src) same

    error-All :
        (type code word : ℕ)
        → All IsAllowed4 (host_send_icmp4_error c.endian c.local_addr4 type code word p)
    error-All type code word = rw (error_turn4 c.endian c.local_addr4 type code word p) (
        branch (All IsAllowed4) (p.data_proto == 1 && not (byte 0 p.payload == 8)) tt
          (send-All 0 c.local_addr4 p.ip4.src _ _ refl src_same))

    pub self-All : p.ip4.dest ≡ c.local_addr4 → All IsAllowed4 (handle_self4 c p)
    unfolding handle_self4 host_handle_icmp4
    self-All own =
        branch (All IsAllowed4) (p.data_proto == 1)
          (branch (All IsAllowed4) ((read_icmp c.endian p.payload).type == 8)
            (send-All p.ip4.tos p.ip4.dest p.ip4.src
              (record (read_icmp c.endian p.payload) { type = 0 }) (drop 8 p.payload) own src_same)
            tt)
          (error-All 3 2 0)

    module _ (live : 2 ≤ h.ttl) (small : h.ttl < 256) (other : h.dest ≢ c.local_addr4) where
      -- A header that may be sent.
      abbrev IsNext : Ip6Header → Type 0
      IsNext h6 = h6.hop_limit ≡ decrement p.ip4.ttl

      next-All :
          (hop : ℕ)
          → hop ≡ decrement p.ip4.ttl
          → (1 ≤ hop) × (hop + 1 ≡ h.ttl) × (h.dest ≢ c.local_addr4)
      next-All hop n =
          let ttl : p.ip4.ttl ≡ h.ttl = ap (λ (t : Ip4Header). t.ttl) same in
          (omega (arith, n, ttl), omega (arith, n, ttl), other)

      fragments-All :
          (h6 : Ip6Header) (ident : ℕ) (bs : List ℕ) (fs : List Frag)
          → IsNext h6
          → All IsAllowed4 (fragments_of c.endian h6 ident bs fs)
      unfolding fragment
      fragments-All h6 ident bs [] n = tt
      fragments-All h6 ident bs (f ∷ fs) n =
          (next-All h6.hop_limit n, fragments-All h6 ident bs fs n)

      sent-All :
          (h6 : Ip6Header) (t : Translated) (s : Sent)
          → IsNext h6
          → All IsAllowed4 (write_sent c p h6 t s)
      sent-All h6 t (too_big mtu) n = error-All 3 4 mtu
      sent-All h6 (ok (bs, k)) whole n = (next-All h6.hop_limit n, tt)
      sent-All h6 (err r) whole n = (tt, tt)
      sent-All h6 (ok (bs, k)) (fragments fs) n = fragments-All h6 p.ip4.ident _ fs n
      sent-All h6 (err r) (fragments fs) n = (tt, tt)

      send_4to6-All : (src dest : In6Addr) → All IsAllowed4 (send_4to6 c p src dest)
      unfolding send_4to6 xlate_header_4to6
      send_4to6-All src dest = sent-All _ _ _ refl

      source-All :
          (m : AddressMap) (ident : ℕ) (dest : In6Addr) (r : Mapped In6Addr × m.Store)
          → All IsAllowed4 (from_source4 m c p ident dest r).0
      source-All m ident dest (rejected, s) = (tt, error-All 3 10 0)
      source-All m ident dest (unmapped, s) = (tt, tt)
      source-All m ident dest (mapped src, s) = send_4to6-All src dest

      dest-All :
          (m : AddressMap) (ident : ℕ) (r : Mapped In6Addr × m.Store)
          → All IsAllowed4 (from_dest4 m c p ident r).0
      dest-All m ident (rejected, s) = (tt, error-All 3 1 0)
      dest-All m ident (unmapped, s) = (tt, tt)
      dest-All m ident (mapped dest, s) = source-All m ident dest (m.to_ip6 p.ip4.src s)

      data-All : (m : AddressMap) (w : World m.Store) → All IsAllowed4 (xlate_4to6_data m c p w).0
      unfolding xlate_4to6_data
      data-All m w = dest-All m w.ident (m.to_ip6 p.ip4.dest w.store)

      written-All :
          (i : Icmp) (quote bs : List ℕ) (src dest : In6Addr)
          → All IsAllowed4 (write_error6 c.endian p i quote bs src dest)
      unfolding write_error6 xlate_header_4to6
      written-All i quote bs src dest = (next-All (decrement p.ip4.ttl) refl, tt)

      outer-All :
          (m : AddressMap) (i : Icmp) (quote bs : List ℕ) (src : In6Addr)
          (r : Mapped In6Addr × m.Store)
          → All IsAllowed4 (to_dest6 m c.endian p i quote bs src r).0
      outer-All m i quote bs src (mapped dest, s) = written-All i quote bs src dest
      outer-All m i quote bs src (rejected, s) = tt
      outer-All m i quote bs src (unmapped, s) = tt

      answer-All :
          (m : AddressMap) (i : Icmp) (quote bs : List ℕ) (r : Mapped In6Addr × m.Store)
          → All IsAllowed4 (to_source6 m c p i quote bs r).0
      answer-All m i quote bs (mapped src, s) = outer-All m i quote bs src (m.to_ip6 p.ip4.dest s)
      answer-All m i quote bs (rejected, s) =
          outer-All m i quote bs c.local_addr6 (m.to_ip6 p.ip4.dest s)
      answer-All m i quote bs (unmapped, s) =
          outer-All m i quote bs c.local_addr6 (m.to_ip6 p.ip4.dest s)

      payload-All :
          (m : AddressMap) (i : Icmp) (quote : List ℕ) (t : Translated) (s : m.Store)
          → All IsAllowed4 (with_payload6 m c p i quote t s).0
      payload-All m i quote (err r) s = tt
      payload-All m i quote (ok (bs, k)) s = answer-All m i quote bs (m.to_ip6 p.ip4.src s)

      switch-All :
          (m : AddressMap) (q : Pkt4) (src dest : In6Addr) (o : Option Icmp) (s : m.Store)
          → All IsAllowed4 (with_switch6 m c p q src dest o s).0
      switch-All m q src dest none s = tt
      switch-All m q src dest (some i) s = payload-All m i _ _ s

      em_dest-All :
          (m : AddressMap) (q : Pkt4) (src : In6Addr) (r : Mapped In6Addr × m.Store)
          → All IsAllowed4 (em_dest6 m c p q src r).0
      em_dest-All m q src (mapped dest, s) = switch-All m q src dest (switch_4to6 c p q) s
      em_dest-All m q src (rejected, s) = tt
      em_dest-All m q src (unmapped, s) = tt

      em_source-All :
          (m : AddressMap) (q : Pkt4) (r : Mapped In6Addr × m.Store)
          → All IsAllowed4 (em_source6 m c p q r).0
      em_source-All m q (mapped src, s) = em_dest-All m q src (m.to_ip6 q.ip4.dest s)
      em_source-All m q (rejected, s) = tt
      em_source-All m q (unmapped, s) = tt

      quoting-All :
          (m : AddressMap) (s : m.Store) (o : Option Pkt4) → All IsAllowed4 (quoting4 m c p s o).0
      quoting-All m s none = tt
      quoting-All m s (some q) = em_source-All m q (m.to_ip6 q.ip4.src s)

      icmp_error-All :
          (m : AddressMap) (s : m.Store) → All IsAllowed4 (xlate_4to6_icmp_error m c p s).0
      unfolding xlate_4to6_icmp_error
      icmp_error-All m s = quoting-All m s (embedded4 c.endian p)

    pub forward-All :
        (m : AddressMap) (w : World m.Store)
        → 1 ≤ h.ttl
        → h.ttl < 256
        → h.dest ≢ c.local_addr4
        → All IsAllowed4 (forward4 m c p w).0
    unfolding forward4
    forward-All m w live small other =
        let ttl : p.ip4.ttl ≡ h.ttl = ap (λ (t : Ip4Header). t.ttl) same in
        let type = (read_icmp c.endian p.payload).type in
        elim (Bool-cases (p.ip4.ttl == 1)) [
          | inl last ↦ rw last (error-All 11 0 0)
          | inr more ↦
              let enough : 2 ≤ h.ttl = ground arith in
              elim (Bool-cases (not (p.data_proto == 1) || type == 8 || type == 0)) [
                | inl plain ↦ rw (more, plain) (data-All enough small other m w)
                | inr error ↦ rw (more, error) (icmp_error-All enough small other m w.store)
              ]
        ]
