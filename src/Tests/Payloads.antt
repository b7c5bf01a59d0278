-- ===== src/Tests/Payloads.antt =====
-- `xlate_payload_4to6` and `xlate_payload_6to4` on a UDP datagram of two bytes.
use tayga.Base.{ℕ, ◌≡◌, refl, arith, true, false, ◌≢◌, List, [], ◌∷◌, length, ◌==◌, none}
use tayga.Word.{little, htonl, htons}
use tayga.Addr.{In6Addr}
use tayga.Prefix.{ok}
use tayga.Checksum.{ip6_checksum}
use tayga.Checksum.Bytes.{sum16}
use tayga.Parse.{Ip4}
use tayga.Payload.{
  Segment, Offload, udp_cksum_drop, get_u16, put_u16, never_zero, full_cksum, xlate_payload_4to6,
}
use tayga.Payload6.{Segment6, xlate_payload_6to4}
use tayga.Payload6.Laws.{xlate_payload_6to4-IsValid4}
use tayga.Payload.Laws.{
  IsValid4, IsValid6, has_cksum, full_cksum-IsValid6, xlate_payload_4to6-IsValid6,
}

abbrev datagram : List ℕ
datagram = 18 ∷ 52 ∷ 0 ∷ 53 ∷ 0 ∷ 10 ∷ 86 ∷ 80 ∷ 202 ∷ 254 ∷ []

abbrev unchecked : List ℕ
unchecked = 18 ∷ 52 ∷ 0 ∷ 53 ∷ 0 ∷ 10 ∷ 0 ∷ 0 ∷ 202 ∷ 254 ∷ []

abbrev source6 : In6Addr
source6 = record { w0 = 0x9bff6400; w1 = 0; w2 = 0; w3 = 0x210200c0 }

abbrev target6 : In6Addr
target6 = record { w0 = 0xb80d0120; w1 = 0; w2 = 0; w3 = 0x01000000 }

abbrev header : Ip4
header = record {
  ver_ihl = 0x45;
  length = 30;
  flags_offset = 0;
  proto = 17;
  src = 0x210200c0;
  dest = 0x0100000a;
}

abbrev segment : Segment
segment = record {
  ip4 = header;
  header_len = 20;
  data_proto = 17;
  payload = datagram;
  has_vhdr = false;
  needs_csum = false;
  csum_start = 0;
  csum_offset = 0;
}

abbrev no_offload : Offload
no_offload = record { vnet_hdr_sz = 0; udp_cksum_mode = udp_cksum_drop }

full_cksum-IsValid6_example :
    let bs =
      put_u16 little 3
        (never_zero (full_cksum little 3 (ip6_checksum little source6 target6 10 17) unchecked))
        unchecked in
    IsValid6 little source6 target6 17 bs × (get_u16 little 3 bs ≢ 0)
full_cksum-IsValid6_example =
    full_cksum-IsValid6 little 3 17 source6 target6 unchecked (omega arith) (omega arith)
      (omega arith) (omega arith) (omega arith) (omega arith)

datagram-IsValid4 : IsValid4 little 0x210200c0 0x0100000a 17 datagram
unfolding htonl htons sum16
datagram-IsValid4 = refl

datagram_checked : (get_u16 little 3 datagram == 0) ≡ false
unfolding get_u16
datagram_checked = refl

xlate_payload_4to6-IsValid6_example :
    (bs : List ℕ) × (xlate_payload_4to6 little no_offload false source6 target6 segment
      ≡ ok (bs, false))
    × (length bs ≡ 10)
    × (has_cksum 17 (get_u16 little 3 bs) ≡ true)
    × IsValid6 little source6 target6 17 bs
xlate_payload_4to6-IsValid6_example =
    xlate_payload_4to6-IsValid6 little no_offload false source6 target6 segment refl
      (ground (arith, datagram_checked)) (omega arith) refl (omega arith) (omega arith)
      (omega arith) (omega arith) (omega arith) datagram-IsValid4

abbrev reply : List ℕ
reply = 18 ∷ 52 ∷ 0 ∷ 53 ∷ 0 ∷ 10 ∷ 50 ∷ 151 ∷ 202 ∷ 254 ∷ []

abbrev segment6 : Segment6
segment6 = record {
  src = source6;
  dest = target6;
  payload_length = 10;
  ip6_frag = none;
  header_len = 0;
  data_proto = 17;
  payload = reply;
  has_vhdr = false;
  needs_csum = false;
  csum_start = 0;
  csum_offset = 0;
}

reply-IsValid6 : IsValid6 little source6 target6 17 reply
unfolding htonl htons sum16
reply-IsValid6 = refl

reply_checked : (get_u16 little 3 reply == 0) ≡ false
unfolding get_u16
reply_checked = refl

xlate_payload_6to4-IsValid4_example :
    (bs : List ℕ) × (xlate_payload_6to4 little no_offload false 0x210200c0 0x0100000a segment6
      ≡ ok (bs, false))
    × (length bs ≡ 10)
    × (has_cksum 17 (get_u16 little 3 bs) ≡ true)
    × IsValid4 little 0x210200c0 0x0100000a 17 bs
xlate_payload_6to4-IsValid4_example =
    xlate_payload_6to4-IsValid4 little no_offload false 0x210200c0 0x0100000a segment6 refl
      (ground (arith, reply_checked)) (omega arith) refl (omega arith) (omega arith) (omega arith)
      (omega arith) (omega arith) reply-IsValid6
