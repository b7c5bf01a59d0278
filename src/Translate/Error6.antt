-- ===== src/Translate/Error6.antt =====
-- src/nat64.c: `xlate_6to4_icmp_error`, around its `switch`, which is in Icmp. As in the other
-- direction an error that cannot be translated leaves no event, but it may use up an identification.
use tayga.Base.{
  ℕ, ◌+◌, ◌-◌, ◌*◌, ◌/◌, ◌^◌, bit_and, true, false, ◌&&◌, ◌||◌, not, if◌then◌else◌, ◌==◌, ltb,
  Option, none, some, List, [], ◌∷◌, ◌++◌, length, take, drop,
}
use tayga.Word.{Endian, htonl, htons}
use tayga.Prefix.{ok, err}
use tayga.Checksum.{ip_checksum, ones_add}
use tayga.Icmp.{Icmp, error_6to4}
use tayga.Parse.{ip4_size, icmp_size}
use tayga.Payload.{Translated}
use tayga.Payload6.{xlate_payload_6to4}
use tayga.Packet.{Ip4Header, ip4_bytes, icmp_bytes, read_icmp, packet4, Event, written}
use tayga.Host.{Pkt6, with_checksum}
use tayga.Parse6.{parse_ip6}
use tayga.Translate.{
  Mapped, mapped, rejected, unmapped, AddressMap, Config, World, decrement, xlate_header_6to4,
}
use tayga.Translate.Data6.{segment6}
use tayga.Translate.Error4.{embedded, stated, fresh_icmp}

unfoldable pub quoted6 : Endian → Pkt6 → Option (List ℕ)
unfolding read_icmp
quoted6 e p =
    let icmp = read_icmp e p.payload in
    let rest = drop icmp_size p.payload in
    if icmp.type == 1 || icmp.type == 3
    then stated (bit_and (htonl e icmp.word / 2 ^ 21) 0x7f8) rest
    else some rest

-- The error fits 576 bytes.
unfoldable pub cut6 : Pkt6 → Pkt6
cut6 q =
    if ltb 576 (ip4_size * 2 + icmp_size + length q.payload)
    then record q { payload = take (576 - ip4_size * 2 - icmp_size) q.payload }
    else q

abbrev pub answerable6 : Endian → Pkt6 → Option Pkt6
answerable6 e q =
    if q.data_proto == 58 && not ((read_icmp e q.payload).type == 128) then none else some (cut6 q)

abbrev pub quoted_packet6 : Endian → Option Pkt6 → Option Pkt6
quoted_packet6 e none = none
quoted_packet6 e (some q) = answerable6 e q

-- With `em` the parser sends nothing.
abbrev pub parse_quoted6 : Config → Option (List ℕ) → Option Pkt6
parse_quoted6 c none = none
parse_quoted6 c (some bs) =
    quoted_packet6 c.endian (parse_ip6 c.endian c.local_addr6 true (embedded bs)).1

unfoldable pub embedded6 : Config → Pkt6 → Option Pkt6
unfolding quoted6 parse_ip6 cut6 read_icmp
embedded6 c p = parse_quoted6 c (quoted6 c.endian p)

unfoldable pub switch_6to4 : Config → Pkt6 → Option Icmp
unfolding read_icmp error_6to4
switch_6to4 c p =
    let icmp = read_icmp c.endian p.payload in
    error_6to4 c.mtus.mtu
      (record { kind = icmp.type; code = icmp.code; word = htonl c.endian icmp.word })

-- `ip_checksum` of the quoted header.
unfoldable pub quote_bytes : Endian → Ip4Header → List ℕ
unfolding ip4_bytes
quote_bytes e h = ip4_bytes e (record h { cksum = ip_checksum e (ip4_bytes e h) })

-- The error is written, and the counter of identifications moves on.
unfoldable pub write_error4 : Endian → Pkt6 → Icmp → List ℕ → List ℕ → ℕ → ℕ → ℕ → List Event × ℕ
unfolding xlate_header_6to4 icmp_bytes with_checksum
write_error4 e p i quote bs src dest counter =
    let (made, next) =
      xlate_header_6to4 e p src dest (icmp_size + length quote + length bs) counter in
    let h = record made { ttl = decrement made.ttl } in
    let sum = ip_checksum e (icmp_bytes e (fresh_icmp e i 0) ++ quote) in
    let cksum = ones_add sum (ip_checksum e bs) in
    (
      written none
            (packet4 (with_checksum e h) ((icmp_bytes e (fresh_icmp e i cksum) ++ quote) ++ bs))
          ∷ [],
      next,
    )

module _ (m : AddressMap) where
  abbrev pub kept : m.Store → ℕ → List Event × World m.Store
  kept s counter = ([], record { store = s; ident = counter })

  abbrev pub emitted : m.Store → List Event × ℕ → List Event × World m.Store
  emitted s (events, counter) = (events, record { store = s; ident = counter })

  abbrev pub to_dest4 :
      Endian
      → Pkt6
      → Icmp
      → List ℕ
      → List ℕ
      → ℕ
      → ℕ
      → Mapped ℕ × m.Store
      → List Event × World m.Store
  to_dest4 e p i quote bs counter src (mapped dest, s) =
      emitted s (write_error4 e p i quote bs src dest counter)
  to_dest4 e p i quote bs counter src (rejected, s) = kept s counter
  to_dest4 e p i quote bs counter src (unmapped, s) = kept s counter

  -- A source that is not mapped is replaced by our own address.
  abbrev pub to_source4 :
      Config → Pkt6 → Icmp → List ℕ → List ℕ → ℕ → Mapped ℕ × m.Store → List Event × World m.Store
  to_source4 c p i quote bs counter (mapped src, s) =
      to_dest4 c.endian p i quote bs counter src (m.to_ip4 false p.ip6.dest s)
  to_source4 c p i quote bs counter (rejected, s) =
      to_dest4 c.endian p i quote bs counter c.local_addr4 (m.to_ip4 false p.ip6.dest s)
  to_source4 c p i quote bs counter (unmapped, s) =
      to_dest4 c.endian p i quote bs counter c.local_addr4 (m.to_ip4 false p.ip6.dest s)

  abbrev pub with_payload4 :
      Config → Pkt6 → Icmp → List ℕ → Translated → ℕ → m.Store → List Event × World m.Store
  with_payload4 c p i quote (err r) counter s = kept s counter
  with_payload4 c p i quote (ok (bs, _)) counter s =
      to_source4 c p i quote bs counter (m.to_ip4 false p.ip6.src s)

  -- The quoted header and its data are translated.
  abbrev pub with_header4 :
      Config → Pkt6 → Pkt6 → Icmp → ℕ → ℕ → Ip4Header × ℕ → m.Store → List Event × World m.Store
  with_header4 c p q i src dest (h, counter) s =
      with_payload4 c p i (quote_bytes c.endian h)
        (xlate_payload_6to4 c.endian c.offload true src dest (segment6 c.endian q)) counter s

  abbrev pub em_dest4 :
      Config → Pkt6 → Pkt6 → Icmp → ℕ → ℕ → Mapped ℕ × m.Store → List Event × World m.Store
  em_dest4 c p q i counter src (mapped dest, s) =
      with_header4 c p q i src dest
        (xlate_header_6to4 c.endian q src dest (htons c.endian q.ip6.payload_length - q.header_len)
          counter)
        s
  em_dest4 c p q i counter src (rejected, s) = kept s counter
  em_dest4 c p q i counter src (unmapped, s) = kept s counter

  abbrev pub em_source4 :
      Config → Pkt6 → Pkt6 → Icmp → ℕ → Mapped ℕ × m.Store → List Event × World m.Store
  em_source4 c p q i counter (mapped src, s) =
      em_dest4 c p q i counter src (m.to_ip4 false q.ip6.dest s)
  em_source4 c p q i counter (rejected, s) = kept s counter
  em_source4 c p q i counter (unmapped, s) = kept s counter

  abbrev pub with_switch4 :
      Config → Pkt6 → Pkt6 → World m.Store → Option Icmp → List Event × World m.Store
  with_switch4 c p q w none = kept w.store w.ident
  with_switch4 c p q w (some i) = em_source4 c p q i w.ident (m.to_ip4 false q.ip6.src w.store)

  abbrev pub quoting6 : Config → Pkt6 → World m.Store → Option Pkt6 → List Event × World m.Store
  quoting6 c p w none = kept w.store w.ident
  quoting6 c p w (some q) = with_switch4 c p q w (switch_6to4 c p)

  unfoldable pub xlate_6to4_icmp_error : Config → Pkt6 → World m.Store → List Event × World m.Store
  unfolding embedded6 switch_6to4 xlate_payload_6to4 xlate_header_6to4 quote_bytes write_error4
  xlate_6to4_icmp_error c p w = quoting6 c p w (embedded6 c p)
