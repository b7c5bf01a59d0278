-- ===== src/Translate/Errors4.antt =====
-- The ICMP errors of `xlate_6to4_icmp_error` in src/nat64.c, from whatever IPv6 error.
use tayga.Base.{ℕ, ◌+◌, ◌^◌, ◌≤◌, ◌<◌, ◌≡◌, Bool, none, List, All, length}
use tayga.Word.{Endian}
use tayga.Addr.{In6Addr}
use tayga.Prefix.Bytes.{IsIn6}
use tayga.Checksum.Bytes.{IsByte}
use tayga.Icmp.{Icmp}
use tayga.Payload.Keeps.{Keeps}
use tayga.Packet.{Ip4Header, packet4, Event, written}
use tayga.Packet.Sums.{IsIcmp}
use tayga.Host.{Pkt6}
use tayga.Host.Laws.{IsChecked4}
use tayga.Translate.{Mapped, mapped, rejected, unmapped, AddressMap, Config, decrement}
use tayga.Translate.Error4.{fresh_icmp}
use tayga.Translate.Error6.{quote_bytes}
use tayga.Translate.Fits.{Fits}
use tayga.Translate.Sent4.{HasOffset}

abbrev pub IsMapped4 : Mapped ℕ → Type 0
IsMapped4 (mapped a) = a < 2 ^ 32
IsMapped4 rejected = Unit
IsMapped4 unmapped = Unit

-- A mapper that gives 32-bit addresses for addresses of four 32-bit words, in the states that it
-- reaches.
pub record MapsToIn4 (m : AddressMap) : Type 1 where
  pub IsStore : m.Store → Type 0
  pub maps :
      (dyn_alloc : Bool) (a : In6Addr) (s : m.Store)
      → IsIn6 a
      → IsStore s
      → IsMapped4 (m.to_ip4 dyn_alloc a s).0 × IsStore (m.to_ip4 dyn_alloc a s).1

-- A packet of at most 576 bytes that `handle_ip4` takes for ICMP, with a TTL of one less than the hop
-- limit of `p`.
pub data IsError4 (e : Endian) (p : Pkt6) : Event → Type 0 where
  error4 :
      {h : Ip4Header} {body : List ℕ}
      → h.proto ≡ 1
      → h.ttl ≡ decrement p.ip6.hop_limit
      → 20 + length body ≤ 576
      → IsChecked4 e h body
      → IsError4 e p (written none (packet4 h body))

module _ (m : AddressMap) (c : Config) (p : Pkt6) (law : MapsToIn4 m)
    (local4 : c.local_addr4 < 2 ^ 32) (proto : p.data_proto ≡ 58)
    (offset : HasOffset c.endian p.ip6_frag) (from : IsIn6 p.ip6.src) (to : IsIn6 p.ip6.dest) where
  abbrev AreErrors4 : List Event → Type 0
  AreErrors4 = All (IsError4 c.endian p)

  -- What is written: the fields, the quoted header and the data, and the next identification.
  record IsReady (i : Icmp) (quote bs : List ℕ) (counter : ℕ) : Type 0 where
    pub icmp : IsIcmp (fresh_icmp c.endian i 0)
    pub quote_bytes : All IsByte quote
    pub quote_length : length quote ≡ 20
    pub bytes : All IsByte bs
    pub room : 48 + length bs ≤ 576
    pub counter_small : counter < 2 ^ 16
