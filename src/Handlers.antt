-- ===== src/Handlers.antt =====
-- src/addrmap.c: `map_ip4_to_ip6` and `map_ip6_to_ip4` with their cache, and `addrmap_maint` with
-- `report_ageout`. A dynamic mapping is told by the number of its struct; the tables do not change.
pub mod Steady
pub mod Laws
use tayga.Base.{
  ℕ, ◌+◌, bit_and, bit_or, Bool, true, false, ◌&&◌, not, if◌then◌else◌, ◌==◌, ltb, Option, none,
  some, List, [], ◌∷◌,
}
use tayga.Addr.{In6Addr, error_reject}
use tayga.Prefix.{Result, ok, err}
use tayga.Maps.{
  MapType, static, rfc6052, dynamic_pool, dynamic_host, Map4, Map6, find_map4, find_map6,
}
use tayga.Resolve.{Mapping, resolve_ip4, resolve_ip6}
use tayga.Cache.{
  Entry, Hashing, Cache, cache_max_age, hash_ip4, hash_ip6, update, lookup4, lookup6, touch,
  cache_insert, drop_entry,
}

-- The fields of `struct map_dynamic` that the cache touches.
pub record Dynamic : Type 0 where
  pub last_use : ℕ
  pub cache_entry : Option ℕ

pub record Store : Type 0 where
  pub cache : Cache
  pub dynamics : ℕ → Dynamic

abbrev pub cache_f_rep_ageout : ℕ
cache_f_rep_ageout = 8

-- The struct of a dynamic host, `d` in the source.
abbrev pub host_of : MapType → ℕ → Option ℕ
host_of static o = none
host_of rfc6052 o = none
host_of dynamic_pool o = none
host_of dynamic_host o = some o

abbrev pub host4 : Option Map4 → Option ℕ
host4 none = none
host4 (some m) = host_of m.type m.owner

abbrev pub host6 : Option Map6 → Option ℕ
host6 none = none
host6 (some m) = host_of m.type m.owner

-- `d->last_use = now`.
abbrev pub mark_used : ℕ → Option ℕ → Store → Store
mark_used now none s = s
mark_used now (some o) s = record s {
  dynamics = update s.dynamics o (record (s.dynamics o) { last_use = now });
}

-- `c->flags |= CACHE_F_REP_AGEOUT`.
abbrev pub report_later : Option ℕ → Cache → Cache
report_later none s = s
report_later (some c) s = record s {
  entries =
      update s.entries c
        (record (s.entries c) { flags = bit_or (s.entries c).flags cache_f_rep_ageout });
}

abbrev pub attach : Option ℕ → Option ℕ × Cache → Store → Store
attach none (c, cache) s = record s { cache = cache }
attach (some o) (c, cache) s = record s {
  cache = report_later c cache;
  dynamics = update s.dynamics o (record (s.dynamics o) { cache_entry = c });
}

-- What follows the `switch`.
unfoldable pub publish : Hashing → ℕ → ℕ → In6Addr → Bool → Option ℕ → Store → Store
publish k now a q pair d s =
    let used = mark_used now d s in
    if ltb 0 k.cache_size && pair
    then attach d (cache_insert now a q (hash_ip4 k a) (hash_ip6 k q) used.cache) used
    else used

-- With the cache off no bucket is read.
abbrev pub cached4 : Hashing → ℕ → Cache → Option ℕ
cached4 k a s = if ltb 0 k.cache_size then lookup4 k a s else none

abbrev pub cached6 : Hashing → In6Addr → Cache → Option ℕ
cached6 k q s = if ltb 0 k.cache_size then lookup6 k q s else none

unfoldable pub miss4 :
    Hashing → ℕ → ℕ → Option ℕ → Result (In6Addr × Bool) → Store → Result In6Addr × Store
miss4 k now a d (err r) s = (err r, s)
miss4 k now a d (ok (q, pair)) s = (ok q, publish k now a q pair d s)

unfoldable pub miss6 :
    Hashing → ℕ → In6Addr → Option ℕ → Result (ℕ × Bool) → Store → Result ℕ × Store
miss6 k now q d (err r) s = (err r, s)
miss6 k now q d (ok (a, pair)) s = (ok a, publish k now a q pair d s)

unfoldable pub hit4 : Mapping → Hashing → ℕ → ℕ → Store → Option ℕ → Result In6Addr × Store
hit4 g k now a s (some c) = (ok (s.cache.entries c).addr6, record s { cache = touch now c s.cache })
hit4 g k now a s none = miss4 k now a (host4 (find_map4 a g.map4_list)) (resolve_ip4 g a) s

unfoldable pub hit6 : Mapping → Hashing → ℕ → In6Addr → Store → Option ℕ → Result ℕ × Store
hit6 g k now q s (some c) = (ok (s.cache.entries c).addr4, record s { cache = touch now c s.cache })
hit6 g k now q s none = miss6 k now q (host6 (find_map6 q g.map6_list)) (resolve_ip6 g q) s

unfoldable pub map_ip4_to_ip6 : Mapping → Hashing → ℕ → ℕ → Store → Result In6Addr × Store
unfolding hit4
map_ip4_to_ip6 g k now a s = hit4 g k now a s (cached4 k a s.cache)

-- With `dyn_alloc` off.
unfoldable pub map_ip6_to_ip4 : Mapping → Hashing → ℕ → In6Addr → Store → Result ℕ × Store
unfolding hit6
map_ip6_to_ip4 g k now q s = hit6 g k now q s (cached6 k q s.cache)

abbrev pub is_entry : Option ℕ → ℕ → Bool
is_entry none c = false
is_entry (some e) c = e == c

abbrev pub report_to : Option ℕ → ℕ → Store → Store
report_to none c s = s
report_to (some o) c s =
    if is_entry (s.dynamics o).cache_entry c
    then record s {
      dynamics =
          update s.dynamics o
            (record { last_use = (s.cache.entries c).last_use; cache_entry = none });
    }
    else s

unfoldable pub report_ageout : Mapping → ℕ → Store → Store
report_ageout g c s = report_to (host4 (find_map4 (s.cache.entries c).addr4 g.map4_list)) c s

-- A report only if the flag asks for it.
unfoldable pub report : Mapping → ℕ → Store → Store
unfolding report_ageout
report g c s =
    if bit_and (s.cache.entries c).flags cache_f_rep_ageout == 0 then s else report_ageout g c s

-- One turn of the loop.
unfoldable pub age_out : Mapping → ℕ → ℕ → Store → Store
unfolding report
age_out g now c s =
    if ltb ((s.cache.entries c).last_use + cache_max_age) now
    then record (report g c s) { cache = drop_entry c (report g c s).cache }
    else s

unfoldable pub age_out_all : Mapping → ℕ → List ℕ → Store → Store
unfolding age_out
age_out_all g now [] s = s
age_out_all g now (c ∷ cs) s = age_out_all g now cs (age_out g now c s)

unfoldable pub addrmap_maint : Mapping → ℕ → Store → Store
unfolding age_out_all
addrmap_maint g now s = age_out_all g now s.cache.cache_active s
