-- ===== src/Translate/Valid6.antt =====
-- A packet that `xlate_4to6_data` of src/nat64.c sends whole has a valid checksum.
use tayga.Base.{length}
use tayga.Addr.{In6Addr}
use tayga.Packet.{Ip6Header, Pkt4}
use tayga.Translate.{Config, decrement, xlate_header_4to6}

-- The header that `send_4to6` writes before the data.
unfoldable sent_header : Config → Pkt4 → In6Addr → In6Addr → Ip6Header
unfolding xlate_header_4to6
sent_header c p src dest =
    let made = xlate_header_4to6 c.endian p src dest (length p.payload) in
    record made { hop_limit = decrement made.hop_limit }
