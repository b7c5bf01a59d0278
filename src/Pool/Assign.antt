-- ===== src/Pool/Assign.antt =====
-- src/dynamic.c: `assign_dynamic` and `load_map`.
use tayga.Base.{
  ℕ, ◌+◌, bit_and, Bool, true, false, ◌||◌, not, leb, if◌then◌else◌, ◌==◌, Option, none, some,
}
use tayga.Word.{Endian, htonl, u32}
use tayga.Addr.{In6Addr, is_error, validate_ip6_addr}
use tayga.Maps.{Map4, Map6, find_map4, find_map6}
use tayga.Maps.Scan.{first}
use tayga.Resolve.{in6_are_addr_equal}
use tayga.Pool.{
  FreeAddr, MapDynamic, DynamicPool, PoolState, alloc_map_dynamic, move_to_mapped, move_to_dormant,
  last_of,
}
use tayga.Pool.Search.{search}

-- What follows the label `activate`.
abbrev pub activate : MapDynamic → PoolState → Option Map6 × PoolState
activate d s = (some d.map6, move_to_mapped d s)

-- The address that the search found, taken out of its run.
abbrev pub assign_free : Endian → ℕ → In6Addr → ℕ × FreeAddr → PoolState → Option Map6 × PoolState
assign_free e id q (a, r) s =
    let (d, p) = alloc_map_dynamic e id q (htonl e a) r.addr s.pool in
    activate d (record s { pool = p; map_write_pending = true })

-- The dormant mapping that was used least recently, for another address.
abbrev pub reassign : In6Addr → Option MapDynamic → PoolState → Option Map6 × PoolState
reassign q none s = (none, s)
reassign q (some d) s =
    activate (record d { map6 = record d.map6 { addr = q } })
      (record s { map_write_pending = true })

unfoldable pub assign_new :
    Endian → ℕ → In6Addr → Option (ℕ × FreeAddr) → PoolState → Option Map6 × PoolState
assign_new e id q (some found) s = assign_free e id q found s
assign_new e id q none s = reassign q (last_of s.pool.dormant_list) s

unfoldable pub assign_or_wake :
    Endian → ℕ → In6Addr → Option MapDynamic → PoolState → Option Map6 × PoolState
unfolding assign_new
assign_or_wake e id q (some d) s = activate d s
assign_or_wake e id q none s = assign_new e id q (search e q s.map4_list s.pool) s

-- With a dynamic pool, and memory enough.
unfoldable pub assign_dynamic : Endian → ℕ → In6Addr → PoolState → Option Map6 × PoolState
unfolding assign_or_wake
assign_dynamic e id q s =
    assign_or_wake e id q (first (λ d. in6_are_addr_equal q d.map6.addr) s.pool.dormant_list) s

abbrev pub is_pool : DynamicPool → Option Map4 → Bool
is_pool p none = false
is_pool p (some m) = m.owner == p.map4.owner

abbrev pub is_some {ℓ} : {A : Type ℓ} → Option A → Bool
is_some none = false
is_some (some x) = true

-- A mapping of the file whose address is still free.
abbrev pub load_into : Endian → ℕ → In6Addr → ℕ → ℕ → Option FreeAddr → PoolState → PoolState
load_into e id q addr4 last_use none s = s
load_into e id q addr4 last_use (some f) s =
    if leb (htonl e addr4) f.addr
    then s
    else (let (d, p) = alloc_map_dynamic e id q addr4 f.addr s.pool in
        move_to_dormant (record d { last_use = last_use }) (record s { pool = p }))

unfoldable pub load_map : Endian → ℕ → In6Addr → ℕ → ℕ → PoolState → PoolState
load_map e id q addr4 last_use s =
    if not (s.pool.map4.addr == bit_and addr4 s.pool.map4.mask)
      || not (is_pool s.pool (find_map4 addr4 s.map4_list))
      || is_error (validate_ip6_addr e q)
      || is_some (find_map6 q s.map6_list)
    then s
    else load_into e id q addr4 last_use
        (first (λ f. leb (htonl e addr4) (u32 (f.addr + f.count))) s.pool.free_list) s
