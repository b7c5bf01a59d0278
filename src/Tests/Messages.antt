-- ===== src/Tests/Messages.antt =====
-- The messages of src/nat64.c for the translator itself, and its identifications.
use Prim.Native.Nat.{min}
use tayga.Base.{ℕ, ◌+◌, ◌≤◌, ◌≡◌, ◌⊎◌, arith, false, none, List, [], ◌∷◌, length, take}
use tayga.Word.{little, htons}
use tayga.Addr.{In6Addr}
use tayga.Ident.{Reservation, reserve_ip4_ident, Reserved, idle, reserve}
use tayga.Ident.Laws.{AreDistinct, reserve_ip4_ident-AreDistinct}
use tayga.Packet.{Ip4Header, Ip6Header, IcmpHeader, Frame, packet4, packet6, written, Pkt4}
use tayga.Packet.Sums.{IsIcmp}
use tayga.Host.{
  Pkt6, host_send_icmp4, host_send_icmp6, host_send_icmp4_error, host_send_icmp6_error,
}
use tayga.Host.Laws.{IsChecked4, HasIcmp, host_send_icmp4-IsChecked4}
use tayga.Host.Laws6.{IsChecked6, host_send_icmp6-IsChecked6}
use tayga.Host.Errors.{
  IsUnanswered, error_header, host_send_icmp4_error_lem, host_send_icmp6_error_lem,
}

-- Thread 0 takes one identification at the end of the range, and thread 1 the next two.
abbrev one_taken : List Reservation
one_taken = record { worker = 0; first = (reserve_ip4_ident 1 65535).0; count = 1 } ∷ []

abbrev two_taken : List Reservation
two_taken =
    record { worker = 1; first = (reserve_ip4_ident 2 (reserve_ip4_ident 1 65535).1).0; count = 2 }
    ∷ one_taken

two_taken-Reserved : Reserved 65535 two_taken (reserve_ip4_ident 2 (reserve_ip4_ident 1 65535).1).1
two_taken-Reserved = reserve 1 2 (omega arith) (reserve 0 1 (omega arith) idle)

reserve_ip4_ident-AreDistinct_example : AreDistinct two_taken
reserve_ip4_ident-AreDistinct_example =
    reserve_ip4_ident-AreDistinct two_taken-Reserved (omega arith)

abbrev echo : IcmpHeader
echo = record { type = 0; code = 0; cksum = 0; word = 0x01003412 }

echo-IsIcmp : IsIcmp echo
echo-IsIcmp = record { type = omega arith; code = omega arith; word = omega arith }

abbrev ping : List ℕ
ping = 1 ∷ 2 ∷ 3 ∷ []

host_send_icmp4-IsChecked4_example :
    (h : Ip4Header) × (body : List ℕ) × (host_send_icmp4 little 0 0x210200c0 0x0100000a echo ping
      ≡ written none (packet4 h body) ∷ [])
    × (h.src ≡ 0x210200c0)
    × (h.dest ≡ 0x0100000a)
    × (h.ttl ≡ 64)
    × (h.flags_offset ≡ 0)
    × IsChecked4 little h body
    × HasIcmp little echo ping body
host_send_icmp4-IsChecked4_example =
    host_send_icmp4-IsChecked4 little 0 0x210200c0 0x0100000a echo ping (omega arith) (omega arith)
      (omega arith) echo-IsIcmp (omega arith) (omega arith)

abbrev pub router6 : In6Addr
router6 = record { w0 = 0xb80d0120; w1 = 0; w2 = 0; w3 = 0x01000000 }

abbrev pub peer6 : In6Addr
peer6 = record { w0 = 0xb80d0120; w1 = 0; w2 = 0; w3 = 0x02000000 }

host_send_icmp6-IsChecked6_example :
    (h : Ip6Header) × (body : List ℕ) × (host_send_icmp6 little 0 router6 peer6 echo ping
      ≡ written none (packet6 h body) ∷ [])
    × (h.src ≡ router6)
    × (h.dest ≡ peer6)
    × (h.hop_limit ≡ 64)
    × IsChecked6 little h body
    × HasIcmp little echo ping body
host_send_icmp6-IsChecked6_example =
    host_send_icmp6-IsChecked6 little 0 router6 peer6 echo ping (omega arith) (omega arith)
      (omega arith) echo-IsIcmp (omega arith) (omega arith)

-- A UDP packet of two bytes of data from 192.0.2.33 to 192.0.2.5.
abbrev pub raw4 : List ℕ
raw4 =
    0x45 ∷ 0 ∷ 0 ∷ 30 ∷ 0 ∷ 1 ∷ 0 ∷ 0 ∷ 64 ∷ 17 ∷ 246 ∷ 167 ∷ 192 ∷ 0 ∷ 2 ∷ 33 ∷ 192 ∷ 0 ∷ 2 ∷ 5
    ∷ 18 ∷ 52 ∷ 0 ∷ 53 ∷ 0 ∷ 10 ∷ 86 ∷ 80 ∷ 202 ∷ 254 ∷ []

abbrev pub plain : List ℕ → Frame
plain bs = record {
  raw = bs;
  has_vhdr = false;
  vhdr = record { gso_type = 0; needs_csum = false; csum_start = 0; csum_offset = 0 };
}

abbrev pub header4 : Ip4Header
header4 = record {
  ver_ihl = 0x45;
  tos = 0;
  length = 0x1e00;
  ident = 0x0100;
  flags_offset = 0;
  ttl = 64;
  proto = 17;
  cksum = 0xa7f6;
  src = 0x210200c0;
  dest = 0x050200c0;
}

abbrev pub udp4 : Pkt4
udp4 = record {
  frame = plain raw4;
  ip4 = header4;
  header_len = 20;
  data_proto = 17;
  payload = 18 ∷ 52 ∷ 0 ∷ 53 ∷ 0 ∷ 10 ∷ 86 ∷ 80 ∷ 202 ∷ 254 ∷ [];
}

host_send_icmp4_error_lem_example :
    (IsUnanswered 1 8 17 18 × (host_send_icmp4_error little 0x01ff00c0 3 1 0 udp4 ≡ []))
    ⊎ (¬ (IsUnanswered 1 8 17 18)
        × ((h : Ip4Header) × (body : List ℕ) × (host_send_icmp4_error little 0x01ff00c0 3 1 0 udp4
              ≡ written none (packet4 h body) ∷ [])
            × (h.src ≡ 0x01ff00c0)
            × (h.dest ≡ 0x210200c0)
            × (htons little h.length ≤ 576)
            × (h.flags_offset ≡ 0)
            × IsChecked4 little h body
            × HasIcmp little (error_header little 3 1 0) (take (min 548 (20 + 10)) raw4) body))
host_send_icmp4_error_lem_example =
    host_send_icmp4_error_lem little 0x01ff00c0 3 1 0 udp4 (omega arith) (omega arith) (omega arith)
      (omega arith) (omega arith) (omega arith) (omega arith)

-- The same from 2001:db8::2 to 2001:db8::1.
abbrev pub raw6 : List ℕ
raw6 =
    0x60 ∷ 0 ∷ 0 ∷ 0 ∷ 0 ∷ 10 ∷ 17 ∷ 64 ∷ 32 ∷ 1 ∷ 13 ∷ 184 ∷ 0 ∷ 0 ∷ 0 ∷ 0 ∷ 0 ∷ 0 ∷ 0 ∷ 0 ∷ 0 ∷ 0
    ∷ 0 ∷ 2 ∷ 32 ∷ 1 ∷ 13 ∷ 184 ∷ 0 ∷ 0 ∷ 0 ∷ 0 ∷ 0 ∷ 0 ∷ 0 ∷ 0 ∷ 0 ∷ 0 ∷ 0 ∷ 1 ∷ 18 ∷ 52 ∷ 0 ∷ 53
    ∷ 0 ∷ 10 ∷ 86 ∷ 80 ∷ 202 ∷ 254 ∷ []

abbrev pub header6 : Ip6Header
header6 = record {
  ver_tc_fl = 0x60;
  payload_length = 0x0a00;
  next_header = 17;
  hop_limit = 64;
  src = peer6;
  dest = router6;
}

abbrev pub udp6 : Pkt6
udp6 = record {
  frame = plain raw6;
  ip6 = header6;
  ip6_frag = none;
  header_len = 0;
  data_proto = 17;
  payload = 18 ∷ 52 ∷ 0 ∷ 53 ∷ 0 ∷ 10 ∷ 86 ∷ 80 ∷ 202 ∷ 254 ∷ [];
}

host_send_icmp6_error_lem_example :
    (IsUnanswered 58 128 17 18 × (host_send_icmp6_error little router6 1 0 0 udp6 ≡ []))
    ⊎ (¬ (IsUnanswered 58 128 17 18)
        × ((h : Ip6Header) × (body : List ℕ) × (host_send_icmp6_error little router6 1 0 0 udp6
              ≡ written none (packet6 h body) ∷ [])
            × (h.src ≡ router6)
            × (h.dest ≡ peer6)
            × (40 + length body ≤ 1280)
            × IsChecked6 little h body
            × HasIcmp little (error_header little 1 0 0) (take (min 1232 (40 + 0 + 10)) raw6) body))
host_send_icmp6_error_lem_example =
    host_send_icmp6_error_lem little router6 1 0 0 udp6 (omega arith) (omega arith) (omega arith)
      (omega arith) (omega arith) (omega arith) (omega arith)
