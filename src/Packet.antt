-- ===== src/Packet.antt =====
-- The headers of src/tayga.h as they lie in memory, what the tunnel delivers and takes, and how
-- src/nat64.c reads an IPv4 packet. Fields are as the host loads them, so a field of 16 bits holds
-- `htons` of its number; `p->data` and what lies before it are the bytes of `raw`.
pub mod Sums
use tayga.Base.{
  ℕ, zero, suc, ◌+◌, ◌*◌, ◌/◌, ◌%◌, ◌^◌, Bool, true, false, Option, none, some, List, [], ◌∷◌, ◌++◌,
  length, take, drop,
}
use tayga.Word.{Endian, htons, big_little}
use tayga.Addr.{In6Addr, memory_byte}
use tayga.Checksum.{load, ip4_header_checksum}
use tayga.Walk.{byte}
use tayga.Payload.{Segment, get_u16}
use tayga.Parse.{Ip4, Pkt, parse_ip4}

-- `struct ip4`, `struct ip6`, `struct ip6_frag` and `struct icmp`.
pub record Ip4Header : Type 0 where
  pub ver_ihl : ℕ
  pub tos : ℕ
  pub length : ℕ
  pub ident : ℕ
  pub flags_offset : ℕ
  pub ttl : ℕ
  pub proto : ℕ
  pub cksum : ℕ
  pub src : ℕ
  pub dest : ℕ

pub record Ip6Header : Type 0 where
  pub ver_tc_fl : ℕ
  pub payload_length : ℕ
  pub next_header : ℕ
  pub hop_limit : ℕ
  pub src : In6Addr
  pub dest : In6Addr

pub record Ip6Frag : Type 0 where
  pub next_header : ℕ
  pub reserved : ℕ
  pub offset_flags : ℕ
  pub ident : ℕ

pub record IcmpHeader : Type 0 where
  pub type : ℕ
  pub code : ℕ
  pub cksum : ℕ
  pub word : ℕ

-- Words in memory, written and read.
abbrev pub half_bytes : Endian → ℕ → List ℕ
half_bytes e v = big_little e (v / 256) (v % 256) ∷ big_little e (v % 256) (v / 256) ∷ []

abbrev pub word_bytes : Endian → ℕ → List ℕ
word_bytes e w = memory_byte e w 0 ∷ memory_byte e w 1 ∷ memory_byte e w 2 ∷ memory_byte e w 3 ∷ []

unfoldable pub get_u32 : Endian → ℕ → List ℕ → ℕ
get_u32 e zero (b0 ∷ b1 ∷ b2 ∷ b3 ∷ bs) = load e (b0 ∷ b1 ∷ b2 ∷ b3 ∷ [])
get_u32 e (suc k) (b0 ∷ b1 ∷ b2 ∷ b3 ∷ bs) = get_u32 e k bs
get_u32 e k bs = 0

unfoldable pub ip4_bytes : Endian → Ip4Header → List ℕ
ip4_bytes e h =
    h.ver_ihl
    ∷ h.tos
    ∷ (half_bytes e h.length
        ++ (half_bytes e h.ident
            ++ (half_bytes e h.flags_offset
                ++ (h.ttl
                    ∷ h.proto
                    ∷ (half_bytes e h.cksum ++ (word_bytes e h.src ++ word_bytes e h.dest))))))

unfoldable pub in6_memory : Endian → In6Addr → List ℕ
in6_memory e a =
    word_bytes e a.w0 ++ (word_bytes e a.w1 ++ (word_bytes e a.w2 ++ word_bytes e a.w3))

unfoldable pub ip6_bytes : Endian → Ip6Header → List ℕ
unfolding in6_memory
ip6_bytes e h =
    word_bytes e h.ver_tc_fl
    ++ (half_bytes e h.payload_length
        ++ (h.next_header ∷ h.hop_limit ∷ (in6_memory e h.src ++ in6_memory e h.dest)))

unfoldable pub frag_bytes : Endian → Ip6Frag → List ℕ
frag_bytes e h = h.next_header ∷ h.reserved ∷ (half_bytes e h.offset_flags ++ word_bytes e h.ident)

unfoldable pub icmp_bytes : Endian → IcmpHeader → List ℕ
icmp_bytes e h = h.type ∷ h.code ∷ (half_bytes e h.cksum ++ word_bytes e h.word)

unfoldable pub read_ip4 : Endian → List ℕ → Ip4Header
unfolding get_u16 get_u32
read_ip4 e bs = record {
  ver_ihl = byte 0 bs;
  tos = byte 1 bs;
  length = get_u16 e 1 bs;
  ident = get_u16 e 2 bs;
  flags_offset = get_u16 e 3 bs;
  ttl = byte 8 bs;
  proto = byte 9 bs;
  cksum = get_u16 e 5 bs;
  src = get_u32 e 3 bs;
  dest = get_u32 e 4 bs;
}

unfoldable pub read_in6 : Endian → ℕ → List ℕ → In6Addr
unfolding get_u32
read_in6 e k bs = record {
  w0 = get_u32 e k bs;
  w1 = get_u32 e (k + 1) bs;
  w2 = get_u32 e (k + 2) bs;
  w3 = get_u32 e (k + 3) bs;
}

unfoldable pub read_ip6 : Endian → List ℕ → Ip6Header
unfolding get_u16 get_u32 read_in6
read_ip6 e bs = record {
  ver_tc_fl = get_u32 e 0 bs;
  payload_length = get_u16 e 2 bs;
  next_header = byte 6 bs;
  hop_limit = byte 7 bs;
  src = read_in6 e 2 bs;
  dest = read_in6 e 6 bs;
}

unfoldable pub read_frag : Endian → List ℕ → Ip6Frag
unfolding get_u16 get_u32
read_frag e bs = record {
  next_header = byte 0 bs;
  reserved = byte 1 bs;
  offset_flags = get_u16 e 1 bs;
  ident = get_u32 e 1 bs;
}

unfoldable pub read_icmp : Endian → List ℕ → IcmpHeader
unfolding get_u16 get_u32
read_icmp e bs = record {
  type = byte 0 bs;
  code = byte 1 bs;
  cksum = get_u16 e 1 bs;
  word = get_u32 e 1 bs;
}

-- The header's five words go into its checksum.
unfoldable pub header_checksum : Endian → Ip4Header → ℕ
unfolding ip4_bytes get_u32
header_checksum e h =
    let bs = ip4_bytes e h in
    ip4_header_checksum (get_u32 e 0 bs) (get_u32 e 1 bs) (get_u32 e 2 bs) (get_u32 e 3 bs)
      (get_u32 e 4 bs)

-- What of `struct virtio_net_hdr_raw` is read.
pub record Vnet : Type 0 where
  pub gso_type : ℕ
  pub needs_csum : Bool
  pub csum_start : ℕ
  pub csum_offset : ℕ

-- A packet from the tunnel, `p->data` with `p->data_len`, or one that an ICMP error quotes.
pub record Frame : Type 0 where
  pub raw : List ℕ
  pub has_vhdr : Bool
  pub vhdr : Vnet

-- A packet to the tunnel: its header and the bytes behind it. `Some` metadata asks the device to
-- complete a checksum.
pub data Packet : Type 0 where
  packet4 : Ip4Header → List ℕ → Packet
  packet6 : Ip6Header → List ℕ → Packet

-- A call of `tun_writev` or `tun_write_vnet_inplace`, or of `stats_drop`, whose number of bytes is left
-- out.
pub data Event : Type 0 where
  written : Option Vnet → Packet → Event
  dropped : Event

-- `struct pkt` after `parse_ip4`: the header, and the `data_len` bytes from `data` on.
pub record Pkt4 : Type 0 where
  pub frame : Frame
  pub ip4 : Ip4Header
  pub header_len : ℕ
  pub data_proto : ℕ
  pub payload : List ℕ

-- The header with its numbers by `ntohs`.
abbrev pub host_ip4 : Endian → Ip4Header → Ip4
host_ip4 e h = record {
  ver_ihl = h.ver_ihl;
  length = htons e h.length;
  flags_offset = htons e h.flags_offset;
  proto = h.proto;
  src = h.src;
  dest = h.dest;
}

abbrev pub pkt4 : Endian → Frame → Option Pkt → Option Pkt4
pkt4 e f none = none
pkt4 e f (some p) = some (record {
  frame = f;
  ip4 = read_ip4 e f.raw;
  header_len = p.header_len;
  data_proto = p.data_proto;
  payload = take p.data_len (drop p.header_len f.raw);
})

unfoldable pub parse_frame4 : Endian → Bool → Frame → Option Pkt4
unfolding read_ip4
parse_frame4 e em f = pkt4 e f (parse_ip4 e em (host_ip4 e (read_ip4 e f.raw)) (length f.raw))

abbrev pub segment4 : Endian → Pkt4 → Segment
segment4 e p = record {
  ip4 = host_ip4 e p.ip4;
  header_len = p.header_len;
  data_proto = p.data_proto;
  payload = p.payload;
  has_vhdr = p.frame.has_vhdr;
  needs_csum = p.frame.vhdr.needs_csum;
  csum_start = p.frame.vhdr.csum_start;
  csum_offset = p.frame.vhdr.csum_offset;
}
