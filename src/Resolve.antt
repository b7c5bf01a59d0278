-- ===== src/Resolve.antt =====
-- src/addrmap.c: how `map_ip4_to_ip6` and `map_ip6_to_ip4` map an address by the tables, from the
-- search to the end of the `switch`. The cache in front of it and the locks are not here.
pub mod Window
pub mod Suffix
pub mod Network
pub mod Static
pub mod Laws
use tayga.Base.{
  ℕ, ◌+◌, ◌-◌, ◌*◌, ◌/◌, ◌%◌, ◌^◌, bit_and, bit_or, Bool, true, false, ◌&&◌, ◌||◌, not,
  if◌then◌else◌, ◌==◌, ltb, Option, none, some, List,
}
use tayga.Word.{Endian, htonl, ntohl, not32, u32, u64}
use tayga.Addr.{
  Status, error_none, error_reject, error_drop, is_error, In6Addr, wkpf, validate_ip4_addr,
  validate_ip6_addr, is_private_ip4_addr,
}
use tayga.Prefix.{Result, ok, err, append_to_prefix, extract_from_prefix}
use tayga.Maps.{
  MapType, static, rfc6052, dynamic_pool, dynamic_host, Map4, Map6, find_map4, find_map6,
}

-- The two entries of a `struct map_static` or `struct map_dynamic`.
pub record MapPair : Type 0 where
  pub map4 : Map4
  pub map6 : Map6

-- The parts of `gcfg` that are read. `container` is `container_of`, from an entry's `owner`.
pub record Mapping : Type 0 where
  pub endian : Endian
  pub wkpf_strict : Bool
  pub local_addr4 : ℕ
  pub local_addr6 : In6Addr
  pub map4_list : List Map4
  pub map6_list : List Map6
  pub container : ℕ → MapPair

-- `IN6_ARE_ADDR_EQUAL`.
abbrev pub in6_are_addr_equal : In6Addr → In6Addr → Bool
in6_are_addr_equal a b = a.w0 == b.w0 && a.w1 == b.w1 && a.w2 == b.w2 && a.w3 == b.w3

-- `s6_addr32[i]`, and `s6_addr32[i] |= x`.
abbrev pub word_at : In6Addr → ℕ → ℕ
word_at a i = if i == 0 then a.w0 else if i == 1 then a.w1 else if i == 2 then a.w2 else a.w3

abbrev pub or_word : ℕ → ℕ → In6Addr → In6Addr
or_word i x a =
    if i == 0
    then record a { w0 = bit_or a.w0 x }
    else if i == 1
    then record a { w1 = bit_or a.w1 x }
    else if i == 2
    then record a { w2 = bit_or a.w2 x }
    else record a { w3 = bit_or a.w3 x }

-- The suffix that the mapping of a pair carries over, its width, and where it stands.
abbrev pub host_suffix : Endian → ℕ → ℕ → ℕ
host_suffix e word mask = bit_and (ntohl e word) (not32 (ntohl e mask))

abbrev pub width : MapPair → ℕ
width s = 32 - s.map4.prefix_len

abbrev pub is_last : MapPair → Bool
is_last s = s.map6.prefix_len + width s == 128

-- Word `pos / 32` and the next one take the suffix at bit `pos % 32`.
unfoldable pub spread : Endian → ℕ → ℕ → ℕ → In6Addr → In6Addr
spread e pos bits suffix a =
    let off = pos % 32 in
    let shifted = u64 (suffix * 2 ^ (64 - off - bits)) in
    let b = or_word (pos / 32) (htonl e (u32 (shifted / 2 ^ 32))) a in
    if ltb 32 (off + bits) then or_word (pos / 32 + 1) (htonl e (u32 shifted)) b else b

unfoldable pub gather : Endian → ℕ → ℕ → In6Addr → ℕ
gather e pos bits a =
    let off = pos % 32 in
    let low = if ltb 32 (off + bits) then ntohl e (word_at a (pos / 32 + 1)) else 0 in
    let raw = bit_or (u64 (ntohl e (word_at a (pos / 32)) * 2 ^ 32)) low in
    u32 (bit_and (raw / 2 ^ (64 - off - bits)) ((2 ^ 64 - 1) / 2 ^ (64 - bits)))

unfoldable pub static_to_ip6 : Endian → MapPair → ℕ → In6Addr
static_to_ip6 e s a =
    let suffix = host_suffix e a s.map4.mask in
    if is_last s
    then or_word 3 (htonl e suffix) s.map6.addr
    else if ltb 0 (width s)
    then spread e s.map6.prefix_len (width s) suffix s.map6.addr
    else s.map6.addr

unfoldable pub static_suffix : Endian → MapPair → In6Addr → ℕ
static_suffix e s q =
    if is_last s
    then host_suffix e q.w3 s.map4.mask
    else if ltb 0 (width s)
    then gather e s.map6.prefix_len (width s) q
    else 0

unfoldable pub static_to_ip4 : Endian → MapPair → In6Addr → ℕ
static_to_ip4 e s q = bit_or s.map4.addr (htonl e (static_suffix e s q))

-- `find_map6(...) != &s->map6`: the entries are the same if their structs are.
abbrev pub is_own6 : Option Map6 → Map6 → Bool
is_own6 none m = false
is_own6 (some f) m = f.owner == m.owner

abbrev pub is_own4 : Option Map4 → Map4 → Bool
is_own4 none m = false
is_own4 (some f) m = f.owner == m.owner

-- A result and `cache_pair`.
abbrev pub paired {ℓ} : {A : Type ℓ} → Result A → Result (A × Bool)
paired (ok a) = ok (a, true)
paired (err s) = err s

-- The `switch` of `map_ip4_to_ip6`.
unfoldable pub switch4 : Mapping → ℕ → MapType → MapPair → Result (In6Addr × Bool)
switch4 g a static s =
    let q = static_to_ip6 g.endian s a in
    if ltb 0 (width s)
      && (is_error (validate_ip6_addr g.endian q) || in6_are_addr_equal g.local_addr6 q)
    then err error_drop
    else if ltb 0 (width s) && not (is_own6 (find_map6 q g.map6_list) s.map6)
    then err error_drop
    else ok (q, is_last s)
switch4 g a rfc6052 s =
    paired (append_to_prefix g.endian g.wkpf_strict a s.map6.addr s.map6.prefix_len)
switch4 g a dynamic_pool s = err error_reject
switch4 g a dynamic_host s = ok (s.map6.addr, true)

abbrev pub found4 : Mapping → ℕ → Option Map4 → Result (In6Addr × Bool)
found4 g a none = err error_reject
found4 g a (some m) = switch4 g a m.type (g.container m.owner)

unfoldable pub resolve_ip4 : Mapping → ℕ → Result (In6Addr × Bool)
resolve_ip4 g a = found4 g a (find_map4 a g.map4_list)

-- The case of a translation prefix in `map_ip6_to_ip4`.
unfoldable pub checked : Mapping → Map6 → MapPair → Result ℕ → Result (ℕ × Bool)
checked g m s (err r) = err error_drop
checked g m s (ok a) =
    if m.addr.w0 == wkpf g.endian
      && m.addr.w1 == 0
      && m.addr.w2 == 0
      && g.wkpf_strict
      && is_error (is_private_ip4_addr g.endian a)
    then err error_reject
    else if not (is_own4 (find_map4 a g.map4_list) s.map4)
    then err error_drop
    else ok (a, true)

unfoldable pub switch6 : Mapping → In6Addr → MapType → Map6 → MapPair → Result (ℕ × Bool)
unfolding checked
switch6 g q static m s =
    let a = static_to_ip4 g.endian s q in
    if ltb 0 (width s) && (is_error (validate_ip4_addr g.endian a) || g.local_addr4 == a)
    then err error_drop
    else if ltb 0 (width s) && not (is_own4 (find_map4 a g.map4_list) s.map4)
    then err error_drop
    else ok (a, is_last s)
switch6 g q rfc6052 m s = checked g m s (extract_from_prefix g.endian q m.prefix_len)
switch6 g q dynamic_pool m s = err error_drop
switch6 g q dynamic_host m s = ok (s.map4.addr, true)

abbrev pub found6 : Mapping → In6Addr → Option Map6 → Result (ℕ × Bool)
found6 g q none = err error_reject
found6 g q (some m) = switch6 g q m.type m (g.container m.owner)

-- Without an assignment from the dynamic pool.
unfoldable pub resolve_ip6 : Mapping → In6Addr → Result (ℕ × Bool)
resolve_ip6 g q = found6 g q (find_map6 q g.map6_list)
