-- ===== src/Translate/Errors6.antt =====
-- The ICMPv6 errors of `xlate_4to6_icmp_error` in src/nat64.c, from whatever IPv4 error.
use tayga.Base.{
  ℕ, ◌+◌, ◌%◌, ◌^◌, ◌≤◌, ◌<◌, ◌≡◌, sym, subst, arith, true, none, some, Option, List, All, length,
}
use tayga.Word.{Endian}
use tayga.Addr.{In6Addr}
use tayga.Prefix.{ok, err}
use tayga.Prefix.Bytes.{IsIn6}
use tayga.Checksum.Bytes.{IsByte}
use tayga.Icmp.{Icmp}
use tayga.Payload.{Translated}
use tayga.Payload.Keeps.{Keeps, fails, keeps, xlate_payload_4to6-Keeps}
use tayga.Packet.{Ip6Header, packet6, Event, written, Pkt4, segment4}
use tayga.Packet.Sums.{IsIcmp}
use tayga.Host.Laws6.{IsChecked6}
use tayga.Translate.{Mapped, mapped, rejected, unmapped, AddressMap, Config, decrement}
use tayga.Translate.Error4.{
  embedded4, em_bytes, switch_4to6, fresh_icmp, write_error6, to_dest6, to_source6, with_payload6,
  with_switch6, em_dest6, em_source6, quoting4, xlate_4to6_icmp_error,
}
use tayga.Translate.Fits.{Gives, nothing, just, Fits, switch_4to6-Fits}
use tayga.Translate.Quoted4.{IsCut, embedded4-IsCut, em_bytes-IsByte}
use tayga.Translate.Written6.{write_error6-IsChecked6}

abbrev pub IsMapped : Mapped In6Addr → Type 0
IsMapped (mapped a) = IsIn6 a
IsMapped rejected = Unit
IsMapped unmapped = Unit

-- A mapper that gives addresses of four 32-bit words for 32-bit addresses, in the states that it reaches.
pub record MapsToIn6 (m : AddressMap) : Type 1 where
  pub IsStore : m.Store → Type 0
  pub maps :
      (a : ℕ) (s : m.Store)
      → a < 2 ^ 32
      → IsStore s
      → IsMapped (m.to_ip6 a s).0 × IsStore (m.to_ip6 a s).1

-- A packet of at most 1280 bytes that `handle_ip6` takes for ICMPv6, with a hop limit of one less than
-- the TTL of `p`.
pub data IsError6 (e : Endian) (p : Pkt4) : Event → Type 0 where
  error6 :
      {h : Ip6Header} {body : List ℕ}
      → h.next_header ≡ 58
      → h.hop_limit ≡ decrement p.ip4.ttl
      → 40 + length body ≤ 1280
      → IsChecked6 e h body
      → IsError6 e p (written none (packet6 h body))

module _ (m : AddressMap) (c : Config) (p : Pkt4) (law : MapsToIn6 m) (local6 : IsIn6 c.local_addr6)
    (proto : p.data_proto ≡ 1) (tos : p.ip4.tos < 256) (from : p.ip4.src < 2 ^ 32)
    (to : p.ip4.dest < 2 ^ 32) where
  abbrev AreErrors6 : List Event → Type 0
  AreErrors6 = All (IsError6 c.endian p)

  -- What is written: the fields, the quoted headers and the data.
  record IsReady (i : Icmp) (quote bs : List ℕ) : Type 0 where
    pub icmp : IsIcmp (fresh_icmp c.endian i 0)
    pub quote_bytes : All IsByte quote
    pub even : length quote % 2 ≡ 0
    pub bytes : All IsByte bs
    pub room : 48 + (length quote + length bs) ≤ 1280

  written_lem :
      (i : Icmp) (quote bs : List ℕ) (src dest : In6Addr)
      → IsReady i quote bs
      → IsIn6 src
      → IsIn6 dest
      → AreErrors6 (write_error6 c.endian p i quote bs src dest)
  written_lem i quote bs src dest r hs hd =
      let (h, body, made, s, d, next, hop, len, good) =
        write_error6-IsChecked6 c.endian p i quote bs src dest hs hd r.icmp r.quote_bytes r.even
          r.bytes proto tos (omega (arith, r.room)) in
      subst AreErrors6 (sym made) (error6 next hop (omega (arith, len, r.room)) good, tt)

  dest_lem :
      (i : Icmp) (quote bs : List ℕ) (src : In6Addr) (r : Mapped In6Addr × m.Store)
      → IsReady i quote bs
      → IsIn6 src
      → IsMapped r.0
      → AreErrors6 (to_dest6 m c.endian p i quote bs src r).0
  dest_lem i quote bs src (mapped dest, s) ready hs hd = written_lem i quote bs src dest ready hs hd
  dest_lem i quote bs src (rejected, s) ready hs hd = tt
  dest_lem i quote bs src (unmapped, s) ready hs hd = tt

  source_lem :
      (i : Icmp) (quote bs : List ℕ) (r : Mapped In6Addr × m.Store)
      → IsReady i quote bs
      → IsMapped r.0
      → law.IsStore r.1
      → AreErrors6 (to_source6 m c p i quote bs r).0
  source_lem i quote bs (mapped src, s) ready hs k =
      dest_lem i quote bs src (m.to_ip6 p.ip4.dest s) ready hs (law.maps p.ip4.dest s to k).0
  source_lem i quote bs (rejected, s) ready hs k =
      dest_lem i quote bs c.local_addr6 (m.to_ip6 p.ip4.dest s) ready local6
        (law.maps p.ip4.dest s to k).0
  source_lem i quote bs (unmapped, s) ready hs k =
      dest_lem i quote bs c.local_addr6 (m.to_ip6 p.ip4.dest s) ready local6
        (law.maps p.ip4.dest s to k).0

  payload_lem :
      (q : Pkt4) (i : Icmp) (src dest : In6Addr) (t : Translated) (s : m.Store)
      → IsCut c.endian q
      → IsIcmp (fresh_icmp c.endian i 0)
      → law.IsStore s
      → Keeps q.payload t
      → AreErrors6 (with_payload6 m c p i (em_bytes c.endian q src dest) t s).0
  payload_lem q i src dest (err r) s cut icmp k fails = tt
  payload_lem q i src dest (ok (bs, needs)) s cut icmp k (keeps len bytes) =
      let quote = em_bytes-IsByte c.endian q src dest cut.quoted in
      let next = law.maps p.ip4.src s from k in
      source_lem i (em_bytes c.endian q src dest) bs (m.to_ip6 p.ip4.src s)
        (record {
          icmp = icmp;
          quote_bytes = quote.0;
          even = quote.2;
          bytes = bytes;
          room = omega (arith, quote.1, len, cut.room);
        })
        next.0 next.1

  switch_lem :
      (q : Pkt4) (src dest : In6Addr) (o : Option Icmp) (s : m.Store)
      → IsCut c.endian q
      → Fits c.endian o
      → law.IsStore s
      → AreErrors6 (with_switch6 m c p q src dest o s).0
  switch_lem q src dest none s cut nothing k = tt
  switch_lem q src dest (some i) s cut (just icmp) k = payload_lem q i src dest _ s cut icmp k (
      xlate_payload_4to6-Keeps c.endian c.offload true src dest (segment4 c.endian q)
        cut.quoted.bytes)

  module _ (bytes : All IsByte p.payload) (mtu : c.mtus.mtu < 2 ^ 32) where
    em_dest_lem :
        (q : Pkt4) (src : In6Addr) (r : Mapped In6Addr × m.Store)
        → IsCut c.endian q
        → law.IsStore r.1
        → AreErrors6 (em_dest6 m c p q src r).0
    em_dest_lem q src (mapped dest, s) cut k =
        switch_lem q src dest (switch_4to6 c p q) s cut (switch_4to6-Fits c p q bytes mtu) k
    em_dest_lem q src (rejected, s) cut k = tt
    em_dest_lem q src (unmapped, s) cut k = tt

    em_source_lem :
        (q : Pkt4) (r : Mapped In6Addr × m.Store)
        → IsCut c.endian q
        → law.IsStore r.1
        → AreErrors6 (em_source6 m c p q r).0
    em_source_lem q (mapped src, s) cut k =
        em_dest_lem q src (m.to_ip6 q.ip4.dest s) cut (law.maps q.ip4.dest s cut.quoted.dest k).1
    em_source_lem q (rejected, s) cut k = tt
    em_source_lem q (unmapped, s) cut k = tt

    quoting_lem :
        (s : m.Store) (o : Option Pkt4)
        → Gives (IsCut c.endian) o
        → law.IsStore s
        → AreErrors6 (quoting4 m c p s o).0
    quoting_lem s none nothing k = tt
    quoting_lem s (some q) (just cut) k =
        em_source_lem q (m.to_ip6 q.ip4.src s) cut (law.maps q.ip4.src s cut.quoted.src k).1

-- For an IPv4 packet of ICMP made of bytes, whose TOS and addresses fit their widths, a mapper that keeps
-- to 32-bit words, in a state that it reaches, and an MTU and an own address that fit their widths, `xlate_4to6_icmp_error` writes nothing but ICMPv6 packets of at most
-- 1280 bytes, whose hop limit is one less than the TTL, and that pass the checks of
-- `handle_ip6` on the version, the next header, the payload length and the checksum, which is computed
-- in two runs.
pub xlate_4to6_icmp_error-IsError6 :
    (m : AddressMap) (c : Config) (p : Pkt4) (s : m.Store) (law : MapsToIn6 m)
    → law.IsStore s
    → IsIn6 c.local_addr6
    → c.mtus.mtu < 2 ^ 32
    → p.data_proto ≡ 1
    → p.ip4.tos < 256
    → p.ip4.src < 2 ^ 32
    → p.ip4.dest < 2 ^ 32
    → All IsByte p.payload
    → All (IsError6 c.endian p) (xlate_4to6_icmp_error m c p s).0
unfolding xlate_4to6_icmp_error
xlate_4to6_icmp_error-IsError6 m c p s law k local6 mtu proto tos from to bytes =
    quoting_lem m c p law local6 proto tos from to bytes mtu s (embedded4 c.endian p)
      (embedded4-IsCut c.endian p bytes) k
