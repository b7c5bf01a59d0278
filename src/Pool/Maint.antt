-- ===== src/Pool/Maint.antt =====
-- src/dynamic.c: `dynamic_maint` but for the file that it writes, and `dynamic_get_stats`.
use tayga.Base.{
  ℕ, ◌+◌, Bool, true, false, ◌&&◌, ◌||◌, not, if◌then◌else◌, ◌==◌, ltb, leb, Option, none, some,
  List, [], ◌∷◌, ◌++◌, length,
}
use tayga.Addr.{In6Addr}
use tayga.Cache.{Cache}
use tayga.Word.{Endian, htonl}
use tayga.Pool.{FreeAddr, MapDynamic, DynamicPool, PoolState, move_to_dormant}

abbrev pub is_linked : Option ℕ → Bool
is_linked none = false
is_linked (some c) = true

-- The first loop, over the mappings that were in use at its start, and one turn of it.
unfoldable pub retire : ℕ → ℕ → MapDynamic → PoolState → PoolState
retire now min_lease d s =
    if not (is_linked d.cache_entry) && ltb (d.last_use + min_lease) now
    then move_to_dormant d s
    else s

unfoldable pub retire_all : ℕ → ℕ → List MapDynamic → PoolState → PoolState
unfolding retire
retire_all now min_lease [] s = s
retire_all now min_lease (d ∷ ds) s = retire_all now min_lease ds (retire now min_lease d s)

-- The run behind the address `a` goes to the run in front of it.
unfoldable pub merge : ℕ → List FreeAddr → List FreeAddr
merge a [] = []
merge a (f ∷ []) = f ∷ []
merge a (f ∷ r ∷ rs) =
    if r.addr == a
    then record { addr = f.addr; count = f.count + (r.count + 1) } ∷ rs
    else f ∷ merge a (r ∷ rs)

-- The second loop, from the end of the list: it stops at a mapping that was used lately.
unfoldable pub expire_front :
    Endian → ℕ → ℕ → MapDynamic → List MapDynamic × List FreeAddr → List MapDynamic × List FreeAddr
unfolding merge
expire_front e now max_lease d (d' ∷ ds, runs) = (d ∷ d' ∷ ds, runs)
expire_front e now max_lease d ([], runs) =
    if leb now (d.last_use + max_lease)
    then (d ∷ [], runs)
    else ([], merge (htonl e d.map4.addr) runs)

unfoldable pub expire :
    Endian → ℕ → ℕ → List MapDynamic → List FreeAddr → List MapDynamic × List FreeAddr
unfolding expire_front
expire e now max_lease [] runs = ([], runs)
expire e now max_lease (d ∷ ds) runs =
    expire_front e now max_lease d (expire e now max_lease ds runs)

abbrev pub expire_dormant : Endian → ℕ → ℕ → PoolState → PoolState
expire_dormant e now max_lease s =
    let (kept, runs) = expire e now max_lease s.pool.dormant_list s.pool.free_list in
    record s { pool = record s.pool { dormant_list = kept; free_list = runs } }

unfoldable pub maintain : Endian → ℕ → ℕ → ℕ → PoolState → PoolState
unfolding retire_all expire
maintain e now min_lease max_lease s =
    expire_dormant e now max_lease (retire_all now min_lease s.pool.mapped_list s)

-- `write_maps`: `pending` is `map_write_pending`.
abbrev pub write_maps : Bool → Bool → Bool → ℕ → ℕ → ℕ → Bool
write_maps has_dir shutdown pending last_write max_delay now =
    has_dir && (shutdown || pending || ltb (last_write + max_delay) now || ltb now last_write)

-- The rows of the snapshot.
abbrev seen : Cache → MapDynamic → Option ℕ → ℕ
seen cache d none = d.last_use
seen cache d (some c) = (cache.entries c).last_use

unfoldable pub snapshot : Cache → List MapDynamic → List (ℕ × In6Addr × ℕ)
snapshot cache [] = []
snapshot cache (d ∷ ds) = (d.map4.addr, d.map6.addr, seen cache d d.cache_entry) ∷ snapshot cache ds

abbrev pub rows_of : Cache → DynamicPool → List (ℕ × In6Addr × ℕ)
rows_of cache p = snapshot cache (p.mapped_list ++ p.dormant_list)

unfoldable pub free_count : List FreeAddr → ℕ
free_count [] = 0
free_count (r ∷ rs) = r.count + free_count rs

-- The numbers of mappings in use, of dormant ones and of free addresses.
unfoldable pub dynamic_get_stats : DynamicPool → ℕ × ℕ × ℕ
unfolding free_count
dynamic_get_stats p = (length p.mapped_list, length p.dormant_list, free_count p.free_list)
