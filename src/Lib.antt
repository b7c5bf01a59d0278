-- ===== src/Lib.antt =====
-- TAYGA, a stateless NAT64 translator: the address mapper of src/addrmap.c, the dynamic pool of
-- src/dynamic.c and src/nat64.c, from the packet that a thread reads to the packets that it
-- writes, with the parts of src/tayga.h that they use.
--
-- Word: `uint32_t` and `uint16_t` words as the host reads them, `htonl` and `htons` of the C
-- library, and the `BIG_LITTLE` macro. The byte order of the host is an argument of every
-- definition that depends on it, so the theorems hold for both branches of the macro. A wrap-
-- around is written out as a remainder.
-- Addr: `validate_ip4_addr`, `validate_ip6_addr`, `is_private_ip4_addr`, the packet error codes.
-- Prefix: `append_to_prefix` and `extract_from_prefix`. The configuration switch `wkpf_strict`
-- is an argument; the address that the C functions fill in is part of the result.
-- Mask: `calc_ip4_mask`, `calc_ip6_mask`, `IN6_IS_IN_NET`.
-- Maps: `map4_list` and `map6_list` as lists in the order of their links, with `find_map4`,
-- `find_map6`, `insert_map4` and `insert_map6`. Maps/Scan has the insertion loop that the two
-- share.
-- Checksum: `ip_checksum`, `ones_add`, `ip4_checksum`, `ip6_checksum`, `convert_cksum` and
-- `ip4_header_checksum`, over bytes in memory or the words of the header. The folding loop takes
-- fuel 6, which is enough for every 64-bit sum.
-- Fragment: how `xlate_4to6_data` sends a packet, with `gcfg.mtu` and `gcfg.ipv6_offlink_mtu` as
-- arguments. Whether a write to the tunnel succeeds is an argument too. The fragment loop takes
-- the length of the data as its fuel, since every turn sends a byte at least.
-- Icmp: the switches of `xlate_4to6_icmp_error` and `xlate_6to4_icmp_error`, and `est_mtu`. An
-- error that the source drops is `none`.
-- Payload: `xlate_payload_4to6` on the bytes of the data, with `gso_calc_pseudo6` of src/gso.c.
-- Payload6: `xlate_payload_6to4`, with `gso_calc_pseudo4`.
-- Parse: `parse_ip4`, with the header's fields as numbers.
-- Walk: the loop of `parse_ip6` over the extension headers. It takes fuel 9, one turn more than
-- the eight headers that the source allows.
-- Resolve: what `map_ip4_to_ip6` and `map_ip6_to_ip4` read from the tables, from the search to
-- the end of the `switch`. A result carries `cache_pair`.
-- Cache: the cache as a pool, the active entries and two hash tables of slots; `hash_ip4`,
-- `hash_ip6`, `create_cache`, `cache_insert` and the expiry of entries. Memory is taken to be
-- enough.
-- Handlers: `map_ip4_to_ip6` and `map_ip6_to_ip4` as a whole, the latter without `dyn_alloc`,
-- and `addrmap_maint` with `report_ageout`. A state holds the cache and what it tells dynamic
-- mappings.
-- Pool: src/dynamic.c. Pool/Search has the search for a free address, Pool/Assign
-- `assign_dynamic` and `load_map`, Pool/Maint `dynamic_maint` and `dynamic_get_stats`. The loop
-- within a run takes the end of the run as its fuel, since every turn raises the address; the
-- folding of the hash takes its start. Pool/Config has `config_dynamic_pool` of src/conffile.c,
-- on the prefix that it reads.
-- Packet: the headers as structs and as bytes in memory, `struct pkt`, and what is written to the
-- tunnel: an `Event` is a write, or a call of `stats_drop`, whose byte count is left out.
-- Ident: `global_ip4_ident`, with the calls of all threads as a relation.
-- Host: the ICMP messages that the translator sends for itself: `host_send_icmp4`,
-- `host_send_icmp4_error`, `host_handle_icmp4`, and those for ICMPv6. Those that the code builds
-- from a header and data are one header and its bytes here.
-- Parse6: `parse_ip6`, around the loop of Walk. It returns what it sends, a Parameter Problem,
-- and the packet.
-- Translate: both directions, over an interface `AddressMap` for `map_ip4_to_ip6` and
-- `map_ip6_to_ip4`; Translate/Mapper fills it by Handlers, without a dynamic pool. Translate/Data4
-- and Data6 have `xlate_4to6_data` and `xlate_6to4_data`, Error4 and Error6
-- `xlate_4to6_icmp_error` and `xlate_6to4_icmp_error`, Entry `handle_ip4` and `handle_ip6`. A
-- function that the source leaves by an early return is a chain of functions here, one for each
-- call whose result decides. A handler takes the state of the mapper and the counter of
-- identifications, and gives its events with the new state. The translation of offload
-- aggregates, in src/gso.c, is an argument of the handlers. The lemmas on ICMP errors stand in
-- Fits, Quoted4 and Quoted6, Written6 and Written4, those on the handlers in Safety4 and Safety6, and
-- those on the mapper of Translate/Mapper, which meets what the lemmas on errors ask of a mapper, in
-- Widths and Keeping.
-- Tests: each theorem at a concrete input.
--
-- How the parts interact: the mapper tests an address by the masks of Mask, and looks it up in
-- the tables of Maps; for a translation prefix it then calls Prefix, which asks Addr whether the
-- address may be translated. The translator changes the addresses of a packet, repairs the
-- transport checksum by Checksum, and sends the packet that Parse accepted by Fragment; an ICMP
-- error goes through Icmp. The handlers of Translate call the parsers, then Host for a packet to
-- our own address, and otherwise the mapper, the payloads and Fragment; they send an error by
-- Host where a packet is refused.
--
-- The handlers look a pair up in Cache first, then ask Resolve, and enter what may be cached;
-- the timer calls `addrmap_maint` and `dynamic_maint`, by which entries and leases run out. Pool
-- enters its mappings into the tables of Maps.
--
-- Not modelled: `dyn_alloc`, which assigns an address of the pool, in the handlers of packets; the
-- file of dynamic mappings, locks, the tunnel device, the segmentation offload, the statistics,
-- the rest of the configuration file reader, logging and the helper programs. Pointers into the
-- lists are not modelled; an entry has an `owner` that stands for the struct which it is embedded
-- in. Of the two ways to write a packet, the vector and the buffer with headroom, only the bytes
-- are modelled.
pub mod Base
pub mod Word
pub mod Addr
pub mod Prefix
pub mod Mask
pub mod Maps
pub mod Checksum
pub mod Fragment
pub mod Icmp
pub mod Parse
pub mod Walk
pub mod Resolve
pub mod Cache
pub mod Handlers
pub mod Pool
pub mod Payload
pub mod Payload6
pub mod Packet
pub mod Ident
pub mod Host
pub mod Parse6
pub mod Translate
pub mod Tests
