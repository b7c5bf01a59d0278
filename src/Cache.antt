-- ===== src/Cache.antt =====
-- src/addrmap.c: the address cache, `hash_ip4`, `hash_ip6`, `add_to_hash_table`, `create_cache`,
-- `cache_insert`, and the part of `addrmap_maint` that acts on it. An entry is a slot of the storage;
-- a list is the slots that it links, in order. `now` is an argument.
pub mod Slots
pub mod Laws
pub mod Lookup
pub mod Active
use tayga.Base.{
  ℕ, zero, suc, ◌+◌, ◌-◌, ◌*◌, ◌/◌, ◌^◌, bit_xor, Bool, true, false, ◌&&◌, not, if◌then◌else◌, ◌==◌,
  ltb, Option, none, some, List, [], ◌∷◌, ◌++◌,
}
use tayga.Word.{u32}
use tayga.Addr.{In6Addr}
use tayga.Maps.Scan.{first}
use tayga.Resolve.{in6_are_addr_equal}

-- `struct cache_entry` but for its links.
pub record Entry : Type 0 where
  pub addr6 : In6Addr
  pub addr4 : ℕ
  pub last_use : ℕ
  pub flags : ℕ
  pub ip4_ident : ℕ

-- `gcfg.rand`, `gcfg.hash_bits` and `gcfg.cache_size`.
pub record Hashing : Type 0 where
  pub rand0 : ℕ
  pub rand1 : ℕ
  pub rand2 : ℕ
  pub rand3 : ℕ
  pub hash_bits : ℕ
  pub cache_size : ℕ

pub record Cache : Type 0 where
  pub entries : ℕ → Entry
  pub cache_pool : List ℕ
  pub cache_active : List ℕ
  pub hash_table4 : ℕ → List ℕ
  pub hash_table6 : ℕ → List ℕ

abbrev pub cache_max_age : ℕ
cache_max_age = 120

unfoldable pub hash_ip4 : Hashing → ℕ → ℕ
hash_ip4 k a = u32 (a * k.rand0) / 2 ^ (32 - k.hash_bits)

unfoldable pub hash_ip6 : Hashing → In6Addr → ℕ
hash_ip6 k a =
    let h0 = u32 (a.w0 + k.rand0) in
    let h1 = bit_xor h0 (u32 (a.w1 + k.rand1)) in
    let h2 = bit_xor h1 (u32 (a.w2 + k.rand2)) in
    let h3 = bit_xor h2 (u32 (a.w3 + k.rand3)) in h3 / 2 ^ (32 - k.hash_bits)

-- A write to one slot or one bucket.
abbrev pub update {ℓ} : {A : Type ℓ} → (ℕ → A) → ℕ → A → ℕ → A
update f i v j = if i == j then v else f j

-- `list_del`: an entry is linked once at most.
unfoldable pub unlink : ℕ → List ℕ → List ℕ
unlink c [] = []
unlink c (x ∷ xs) = if x == c then unlink c xs else x ∷ unlink c xs

abbrev pub push_bucket : (ℕ → List ℕ) → ℕ → ℕ → ℕ → List ℕ
push_bucket table h c = update table h (c ∷ table h)

unfoldable pub add_to_hash_table : ℕ → ℕ → ℕ → Cache → Cache
add_to_hash_table c hash4 hash6 s = record s {
  hash_table4 = push_bucket s.hash_table4 hash4 c;
  hash_table6 = push_bucket s.hash_table6 hash6 c;
}

-- The loops over a bucket in `map_ip4_to_ip6`, `map_ip6_to_ip4` and `cache_insert`.
unfoldable pub lookup4 : Hashing → ℕ → Cache → Option ℕ
lookup4 k a s = first (λ c. a == (s.entries c).addr4) (s.hash_table4 (hash_ip4 k a))

unfoldable pub lookup6 : Hashing → In6Addr → Cache → Option ℕ
lookup6 k q s = first (λ c. in6_are_addr_equal q (s.entries c).addr6) (s.hash_table6 (hash_ip6 k q))

unfoldable pub lookup_pair : ℕ → In6Addr → ℕ → Cache → Option ℕ
lookup_pair a q hash4 s =
    first (λ c. (s.entries c).addr4 == a && in6_are_addr_equal (s.entries c).addr6 q)
      (s.hash_table4 hash4)

-- `c->last_use = now`.
unfoldable pub touch : ℕ → ℕ → Cache → Cache
touch now c s = record s { entries = update s.entries c (record (s.entries c) { last_use = now }) }

-- A fresh entry from the pool.
unfoldable pub take_slot : ℕ → ℕ → In6Addr → ℕ → ℕ → Cache → List ℕ → Option ℕ × Cache
unfolding add_to_hash_table
take_slot now a q hash4 hash6 s [] = (none, s)
take_slot now a q hash4 hash6 s (c ∷ rest) = (
  some c,
  add_to_hash_table c hash4 hash6 (record s {
    entries =
        update s.entries c
          (record { addr6 = q; addr4 = a; last_use = now; flags = 0; ip4_ident = 1 });
    cache_pool = rest;
    cache_active = c ∷ s.cache_active;
  }),
)

unfoldable pub cache_found : ℕ → ℕ → In6Addr → ℕ → ℕ → Cache → Option ℕ → Option ℕ × Cache
unfolding take_slot touch
cache_found now a q hash4 hash6 s (some c) = (some c, touch now c s)
cache_found now a q hash4 hash6 s none = take_slot now a q hash4 hash6 s s.cache_pool

unfoldable pub cache_insert : ℕ → ℕ → In6Addr → ℕ → ℕ → Cache → Option ℕ × Cache
unfolding cache_found lookup_pair
cache_insert now a q hash4 hash6 s = cache_found now a q hash4 hash6 s (lookup_pair a q hash4 s)

-- The slots of the storage in order, and the loops of `create_cache`.
unfoldable pub slots_from : ℕ → ℕ → List ℕ
slots_from i zero = []
slots_from i (suc n) = i ∷ slots_from (suc i) n

abbrev pub no_buckets : ℕ → List ℕ
no_buckets h = []

unfoldable pub hash_all : Hashing → List ℕ → Cache → Cache
unfolding add_to_hash_table
hash_all k [] s = s
hash_all k (c ∷ cs) s =
    hash_all k cs
      (add_to_hash_table c (hash_ip4 k (s.entries c).addr4) (hash_ip6 k (s.entries c).addr6) s)

abbrev pub is_empty : List ℕ → Bool
is_empty [] = true
is_empty (x ∷ xs) = false

-- With memory enough. The storage is given, since `calloc` makes it.
unfoldable pub create_cache : Hashing → (ℕ → Entry) → Cache → Cache
unfolding slots_from hash_all
create_cache k storage s =
    if is_empty s.cache_pool && is_empty s.cache_active
    then record {
      entries = storage;
      cache_pool = s.cache_pool ++ slots_from 0 k.cache_size;
      cache_active = s.cache_active;
      hash_table4 = no_buckets;
      hash_table6 = no_buckets;
    }
    else hash_all k s.cache_active (record s { hash_table4 = no_buckets; hash_table6 = no_buckets })

-- One turn of the loop in `addrmap_maint`, but for `report_ageout`.
unfoldable pub drop_entry : ℕ → Cache → Cache
unfolding unlink
drop_entry c s = record s {
  cache_pool = c ∷ s.cache_pool;
  cache_active = unlink c s.cache_active;
  hash_table4 = λ h. unlink c (s.hash_table4 h);
  hash_table6 = λ h. unlink c (s.hash_table6 h);
}

unfoldable pub age_entry : ℕ → ℕ → Cache → Cache
unfolding drop_entry
age_entry now c s = if ltb ((s.entries c).last_use + cache_max_age) now then drop_entry c s else s

unfoldable pub age_all : ℕ → List ℕ → Cache → Cache
unfolding age_entry
age_all now [] s = s
age_all now (c ∷ cs) s = age_all now cs (age_entry now c s)

-- `list_for_each_safe` visits the entries that were active at the start.
unfoldable pub age_cache : ℕ → Cache → Cache
unfolding age_all
age_cache now s = age_all now s.cache_active s
