-- ===== src/Tests/Headers.antt =====
-- IPv4 headers of src/nat64.c.
use Prim.Native.Nat.{min}
use tayga.Base.{◌≡◌, ◌+◌, ◌*◌, ◌%◌, ℕ, ◌⊎◌, refl, arith, Bool, true, false, some, none}
use tayga.Word.{little, htonl, bswap32}
use tayga.Addr.{validate_ip4_addr}
use tayga.Fragment.{Mtus, sends}
use tayga.Fragment.Sends.{IsSent}
use tayga.Parse.{Ip4, Pkt, is_bad_header, behind, is_bad_payload, parse_ip4}
use tayga.Parse.Laws.{IsHeader, IsPayload, parse_ip4_lem, parse_ip4-IsSent}

-- A UDP packet of 100 bytes from 10.0.0.1 to 192.0.2.33 in a buffer with padding.
abbrev datagram : Ip4
datagram = record {
  ver_ihl = 0x45;
  length = 100;
  flags_offset = 0;
  proto = 17;
  src = 0x0100000a;
  dest = 0x210200c0;
}

abbrev tunnel : Mtus
tunnel = record { mtu = 1500; ipv6_offlink_mtu = 1280 }

abbrev accepts : ℕ → Bool
accepts i = true

abbrev payload : Pkt
payload = record { header_len = 20; data_len = 80; data_proto = 17 }

parsed : parse_ip4 little false datagram 128 ≡ some payload
unfolding parse_ip4 is_bad_header behind is_bad_payload validate_ip4_addr htonl bswap32
parsed = refl

parse_ip4_lem_example :
    ((parse_ip4 little false datagram 128 ≡ none)
      × ¬ (IsHeader little datagram 128 × IsPayload false datagram (behind datagram 128).data_len))
    ⊎ ((parse_ip4 little false datagram 128 ≡ some (behind datagram 128))
        × IsHeader little datagram 128
        × IsPayload false datagram (behind datagram 128).data_len
        × ((behind datagram 128).header_len ≡ 0x45 % 16 * 4)
        × ((behind datagram 128).header_len + (behind datagram 128).data_len ≡ min 128 100)
        × ((behind datagram 128).data_proto ≡ 17))
parse_ip4_lem_example = parse_ip4_lem little false datagram 128 (omega arith)

parse_ip4-IsSent_example : IsSent tunnel 0 80 (sends tunnel accepts 0 80)
parse_ip4-IsSent_example =
    parse_ip4-IsSent little datagram 128 payload tunnel accepts (omega arith) (omega arith)
      (omega arith) (omega arith) (λ i. refl) parsed
