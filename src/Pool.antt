-- ===== src/Pool.antt =====
-- src/dynamic.c: the pool of addresses for dynamic mappings, but for the file that keeps them. A run of
-- free addresses stands behind an address in use; `owner` tells the struct of a mapping, and `malloc`
-- gives the number of a new one. Addresses of runs are in host order.
pub mod Search
pub mod Assign
pub mod Maint
pub mod Runs
pub mod Skip
pub mod Found
pub mod Fold
pub mod Order
pub mod Laws
pub mod Keeps
pub mod Config
use tayga.Base.{
  ℕ, zero, suc, ◌+◌, ◌-◌, ◌*◌, ◌/◌, ◌^◌, bit_and, bit_or, Bool, true, false, ◌&&◌, ◌||◌, not,
  if◌then◌else◌, ◌==◌, ltb, leb, Option, none, some, List, [], ◌∷◌, ◌++◌, length,
}
use tayga.Word.{Endian, htonl, u32}
use tayga.Addr.{In6Addr, is_error, validate_ip6_addr}
use tayga.Mask.{mask4_of, mask6_of}
use tayga.Maps.{MapType, dynamic_host, Map4, Map6, find_map4, find_map6, insert_map4, insert_map6}
use tayga.Maps.Scan.{Inserted, inserted, conflict, first}
use tayga.Resolve.{in6_are_addr_equal}

pub record FreeAddr : Type 0 where
  pub addr : ℕ
  pub count : ℕ

pub record MapDynamic : Type 0 where
  pub map4 : Map4
  pub map6 : Map6
  pub cache_entry : Option ℕ
  pub last_use : ℕ

-- `base` is `free_head.addr`.
pub record DynamicPool : Type 0 where
  pub map4 : Map4
  pub mapped_list : List MapDynamic
  pub dormant_list : List MapDynamic
  pub free_list : List FreeAddr
  pub base : ℕ

-- The pool and what it shares with the rest of the program.
pub record PoolState : Type 0 where
  pub pool : DynamicPool
  pub map4_list : List Map4
  pub map6_list : List Map6
  pub map_write_pending : Bool

-- The run at `f` is cut in two around the address `a`.
unfoldable pub split : ℕ → ℕ → List FreeAddr → List FreeAddr
split f a [] = []
split f a (r ∷ rs) =
    if r.addr == f
    then record { addr = r.addr; count = a - r.addr - 1 }
      ∷ record { addr = a; count = r.count - (a - r.addr) }
      ∷ rs
    else r ∷ split f a rs

abbrev pub new_map4 : Endian → ℕ → ℕ → Map4
new_map4 e id addr4 = record {
  addr = addr4;
  mask = htonl e (mask4_of 32);
  prefix_len = 32;
  type = dynamic_host;
  owner = id;
}

abbrev pub new_map6 : Endian → ℕ → In6Addr → Map6
new_map6 e id addr6 = record {
  addr = addr6;
  mask = mask6_of e 128;
  prefix_len = 128;
  type = dynamic_host;
  owner = id;
}

abbrev pub new_dynamic : Endian → ℕ → In6Addr → ℕ → MapDynamic
new_dynamic e id addr6 addr4 = record {
  map4 = new_map4 e id addr4;
  map6 = new_map6 e id addr6;
  cache_entry = none;
  last_use = 0;
}

-- With memory enough.
unfoldable pub alloc_map_dynamic :
    Endian → ℕ → In6Addr → ℕ → ℕ → DynamicPool → MapDynamic × DynamicPool
unfolding split
alloc_map_dynamic e id addr6 addr4 f p =
    (new_dynamic e id addr6 addr4, record p { free_list = split f (htonl e addr4) p.free_list })

-- `list_del` of the struct `id` from the list that holds it.
unfoldable pub detach : ℕ → List MapDynamic → List MapDynamic
detach id [] = []
detach id (d ∷ ds) = if d.map4.owner == id then detach id ds else d ∷ detach id ds

-- The table after an insertion, which a conflict leaves alone.
abbrev pub table_after {ℓ} : {A : Type ℓ} → List A → Inserted A → List A
table_after old (inserted new) = new
table_after old (conflict s) = old

unfoldable pub move_to_mapped : MapDynamic → PoolState → PoolState
unfolding detach
move_to_mapped d s = record s {
  map4_list = table_after s.map4_list (insert_map4 d.map4 s.map4_list);
  map6_list = table_after s.map6_list (insert_map6 d.map6 s.map6_list);
  pool = record s.pool {
    mapped_list = d ∷ detach d.map4.owner s.pool.mapped_list;
    dormant_list = detach d.map4.owner s.pool.dormant_list;
  };
}

abbrev pub last_of : List MapDynamic → Option MapDynamic
last_of [] = none
last_of (d ∷ []) = some d
last_of (d ∷ d' ∷ ds) = last_of (d' ∷ ds)

-- In front of the first mapping that was used before `d`.
unfoldable pub place_dormant : MapDynamic → List MapDynamic → List MapDynamic
place_dormant d [] = d ∷ []
place_dormant d (s ∷ ds) = if ltb s.last_use d.last_use then d ∷ s ∷ ds else s ∷ place_dormant d ds

-- The end of the list is tried first.
unfoldable pub insert_dormant : MapDynamic → List MapDynamic → Option MapDynamic → List MapDynamic
unfolding place_dormant
insert_dormant d ds none = ds ++ (d ∷ [])
insert_dormant d ds (some s) =
    if leb d.last_use s.last_use then ds ++ (d ∷ []) else place_dormant d ds

abbrev pub without4 : ℕ → List Map4 → List Map4
without4 id [] = []
without4 id (m ∷ ms) = if m.owner == id then without4 id ms else m ∷ without4 id ms

abbrev pub without6 : ℕ → List Map6 → List Map6
without6 id [] = []
without6 id (m ∷ ms) = if m.owner == id then without6 id ms else m ∷ without6 id ms

unfoldable pub move_to_dormant : MapDynamic → PoolState → PoolState
unfolding detach insert_dormant
move_to_dormant d s = record s {
  map4_list = without4 d.map4.owner s.map4_list;
  map6_list = without6 d.map6.owner s.map6_list;
  pool = record s.pool {
    mapped_list = detach d.map4.owner s.pool.mapped_list;
    dormant_list = insert_dormant d s.pool.dormant_list (last_of s.pool.dormant_list);
  };
}
