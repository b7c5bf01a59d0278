-- ===== src/Translate/Quoted6.antt =====
-- The packet that an ICMPv6 error quotes, in `xlate_6to4_icmp_error` of src/nat64.c: its fields fit
-- their widths, and its data is cut to what the error has room for.
use tayga.Base.{
  ℕ, zero, suc, ◌+◌, ◌-◌, ◌*◌, ◌≤◌, ◌<◌, arith, Bool, true, not, ◌&&◌, ◌||◌, ◌==◌, ltb, Bool-cases,
  inl, inr, Option, none, some, List, All, length, take, drop,
}
use tayga.Word.{Endian}
use tayga.Addr.{In6Addr}
use tayga.Checksum.Bytes.{IsByte}
use tayga.Fragment.{ip6_size, ip6_frag_size}
use tayga.Parse.{ip4_size, icmp_size}
use tayga.Payload.{get_u16}
use tayga.Payload.Laws.{get_u16-lt}
use tayga.Walk.{Walk, is_extension, extension_len, next_header, walk_extensions}
use tayga.Prefix.Bytes.{IsIn6}
use tayga.Packet.{read_in6, read_ip6, read_frag, read_icmp, Frame, Event}
use tayga.Packet.Sums.{All-take, All-drop}
use tayga.Host.{Pkt6}
use tayga.Parse6.{
  is_bad_ip6, start_walk, Behind, skip_frag, take_frag, is_bad_icmp6, pkt6, segments_left, finish,
  from_walk, parse_ip6,
}
use tayga.Translate.{Config}
use tayga.Translate.Error4.{embedded}
use tayga.Translate.Error6.{quoted6, cut6, quoted_packet6, parse_quoted6, embedded6}
use tayga.Translate.Fits.{Gives, nothing, just, choose}
use tayga.Translate.Headers.{swap16-lt}
use tayga.Translate.Quoted4.{take_bound, get_u32-lt}
use tayga.Translate.Safety.{byte-lt}
use tayga.Translate.Safety4.{branch}
use tayga.Translate.Sent4.{HasOffset}

record IsWalk (w : Walk) : Type 0 where
  pub proto : w.data_proto < 256
  pub bytes : All IsByte w.bytes

next_header-IsWalk : (w : Walk) → IsWalk w → IsWalk (next_header w)
unfolding next_header
next_header-IsWalk w h = record {
  proto = byte-lt 0 w.bytes h.bytes;
  bytes = All-drop (extension_len w) w.bytes h.bytes;
}

walk_extensions-IsWalk :
    (fuel count : ℕ) (w : Walk) → IsWalk w → Gives IsWalk (walk_extensions fuel count w)
unfolding walk_extensions
walk_extensions-IsWalk zero count w h = nothing
walk_extensions-IsWalk (suc fuel) count w h =
    let rest = walk_extensions-IsWalk fuel (suc count) (next_header w) (next_header-IsWalk w h) in
    choose (is_extension w)
      (choose (ltb 8 (suc count) || ltb w.data_len 2) nothing
        (choose (ltb w.data_len (extension_len w)) nothing rest))
      (just h)

-- Behind the fragment header.
record IsBehind (e : Endian) (b : Behind) : Type 0 where
  pub walk : IsWalk b.walk
  pub offset : HasOffset e b.ip6_frag

take_frag-IsBehind :
    (e : Endian) (em : Bool) (w : Walk) → IsWalk w → Gives (IsBehind e) (take_frag e em w)
unfolding take_frag read_frag
take_frag-IsBehind e em w h =
    let small = swap16-lt e (get_u16 e 1 w.bytes) (get_u16-lt e 1 w.bytes h.bytes) in
    let passed : Gives (IsBehind e) (
        some (record {
          walk = skip_frag w (read_frag e w.bytes);
          ip6_frag = some (read_frag e w.bytes);
        })) =
      just (record {
        walk = record {
          proto = byte-lt 0 w.bytes h.bytes;
          bytes = All-drop ip6_frag_size w.bytes h.bytes;
        };
        offset = small;
      }) in
    let plain : Gives (IsBehind e) (some (record { walk = w; ip6_frag = none })) =
      just (record { walk = h; offset = tt }) in
    search (choose, nothing, passed, plain)

read_in6-IsIn6 : (e : Endian) (k : ℕ) (bs : List ℕ) → All IsByte bs → IsIn6 (read_in6 e k bs)
unfolding read_in6
read_in6-IsIn6 e k bs h = (
  get_u32-lt e k bs h,
  get_u32-lt e (k + 1) bs h,
  get_u32-lt e (k + 2) bs h,
  get_u32-lt e (k + 3) bs h,
)

pub record IsQuoted6 (e : Endian) (q : Pkt6) : Type 0 where
  pub src : IsIn6 q.ip6.src
  pub dest : IsIn6 q.ip6.dest
  pub hop_limit : q.ip6.hop_limit < 256
  pub proto : q.data_proto < 256
  pub offset : HasOffset e q.ip6_frag
  pub bytes : All IsByte q.payload

-- What a parser leaves.
abbrev Leaves : Endian → List Event × Option Pkt6 → Type 0
Leaves e r = Gives (IsQuoted6 e) r.1

finish-Leaves :
    (e : Endian) (own : In6Addr) (em : Bool) (f : Frame) (o : Option Behind)
    → All IsByte f.raw
    → Gives (IsBehind e) o
    → Leaves e (finish e own em f o)
unfolding segments_left pkt6 read_ip6
finish-Leaves e own em f none h nothing = nothing
finish-Leaves e own em f (some b) h (just k) =
    let q : IsQuoted6 e (pkt6 e f b) = record {
      src = read_in6-IsIn6 e 2 f.raw h;
      dest = read_in6-IsIn6 e 6 f.raw h;
      hop_limit = byte-lt 7 f.raw h;
      proto = k.walk.proto;
      offset = k.offset;
      bytes = All-take b.walk.data_len b.walk.bytes k.walk.bytes;
    } in
    branch (Leaves e) (is_bad_icmp6 e em b) nothing
      (branch (Leaves e) (b.walk.seg_left == 0) (just q) (branch (Leaves e) em nothing nothing))

from_walk-Leaves :
    (e : Endian) (own : In6Addr) (em : Bool) (f : Frame) (o : Option Walk)
    → All IsByte f.raw
    → Gives IsWalk o
    → Leaves e (from_walk e own em f o)
from_walk-Leaves e own em f none h nothing = nothing
from_walk-Leaves e own em f (some w) h (just k) =
    finish-Leaves e own em f (take_frag e em w) h (take_frag-IsBehind e em w k)

pub parse_ip6-Leaves :
    (e : Endian) (own : In6Addr) (em : Bool) (f : Frame)
    → All IsByte f.raw
    → Leaves e (parse_ip6 e own em f)
unfolding parse_ip6 start_walk read_ip6
parse_ip6-Leaves e own em f h =
    let start : IsWalk (start_walk e f) = record {
      proto = byte-lt 6 f.raw h;
      bytes = All-drop ip6_size f.raw h;
    } in
    branch (Leaves e) (is_bad_ip6 e f) nothing (
      from_walk-Leaves e own em f (walk_extensions 9 0 (start_walk e f)) h
        (walk_extensions-IsWalk 9 0 (start_walk e f) start))

-- And its data leaves room for the new headers.
pub record IsCut6 (e : Endian) (q : Pkt6) : Type 0 where
  pub quoted : IsQuoted6 e q
  pub room : 48 + length q.payload ≤ 576

cut6-IsCut6 : (e : Endian) (q : Pkt6) → IsQuoted6 e q → IsCut6 e (cut6 q)
unfolding cut6
cut6-IsCut6 e q h =
    let most = 576 - ip4_size * 2 - icmp_size in
    elim (Bool-cases (ltb 576 (ip4_size * 2 + icmp_size + length q.payload))) [
      | inl long ↦ rw long (record {
        quoted = record {
          src = h.src;
          dest = h.dest;
          hop_limit = h.hop_limit;
          proto = h.proto;
          offset = h.offset;
          bytes = All-take most q.payload h.bytes;
        };
        room = omega (arith, take_bound most q.payload);
      })
      | inr fits ↦ rw fits (record { quoted = h; room = ground arith })
    ]

quoted_packet6-IsCut6 :
    (e : Endian) (o : Option Pkt6) → Gives (IsQuoted6 e) o → Gives (IsCut6 e) (quoted_packet6 e o)
quoted_packet6-IsCut6 e none nothing = nothing
quoted_packet6-IsCut6 e (some q) (just h) =
    choose (q.data_proto == 58 && not ((read_icmp e q.payload).type == 128)) nothing
      (just (cut6-IsCut6 e q h))

quoted6-IsByte : (e : Endian) (p : Pkt6) → All IsByte p.payload → Gives (All IsByte) (quoted6 e p)
unfolding quoted6
quoted6-IsByte e p h =
    let rest : List ℕ = drop icmp_size p.payload in
    let bytes : All IsByte rest = All-drop icmp_size p.payload h in
    let cut : (n : ℕ) → Gives (All IsByte) (some (take n rest)) =
      λ n. just (All-take n rest bytes) in
    let kept : Gives (All IsByte) (some rest) = just bytes in search (choose, nothing, cut, kept)

parse_quoted6-IsCut6 :
    (c : Config) (o : Option (List ℕ))
    → Gives (All IsByte) o
    → Gives (IsCut6 c.endian) (parse_quoted6 c o)
parse_quoted6-IsCut6 c none nothing = nothing
parse_quoted6-IsCut6 c (some bs) (just h) =
    quoted_packet6-IsCut6 c.endian _ (parse_ip6-Leaves c.endian c.local_addr6 true (embedded bs) h)

pub embedded6-IsCut6 :
    (c : Config) (p : Pkt6) → All IsByte p.payload → Gives (IsCut6 c.endian) (embedded6 c p)
unfolding embedded6
embedded6-IsCut6 c p h = parse_quoted6-IsCut6 c (quoted6 c.endian p) (quoted6-IsByte c.endian p h)
