-- ===== src/Handlers/Laws.antt =====
-- `map_ip6_to_ip4` with its cache against the tables alone, after any sequence of calls.
use tayga.Base.{
  ℕ, ◌+◌, ◌^◌, ◌<◌, ◌≡◌, refl, sym, ap, ◌∙◌, inl, inr, arith, Bool, true, false, if◌then◌else◌,
  ◌==◌, ltb, bit_and, Option, none, some, List, [], ◌∷◌, Option-cases, subst,
}
use tayga.Addr.{In6Addr, is_error, validate_ip4_addr}
use tayga.Prefix.{Result, ok, err}
use tayga.Maps.{find_map4, find_map6}
use tayga.Resolve.{Mapping, in6_are_addr_equal, resolve_ip4, resolve_ip6}
use tayga.Resolve.Laws.{IsMapping, resolve_ip6-resolve_ip4}
use tayga.Cache.{
  Entry, Hashing, Cache, cache_max_age, lookup6, no_buckets, create_cache, age_entry, age_all,
  age_cache, drop_entry,
}
use tayga.Cache.Laws.{age_cache-IsCache, has-age_cache}
use tayga.Cache.Lookup.{IsFound, in6_equal, lookup6-IsFound, create_cache-IsCache}
use tayga.Handlers.{
  Store, Dynamic, host4, host6, cached4, cached6, miss4, miss6, hit4, hit6, map_ip4_to_ip6,
  map_ip6_to_ip4, report_to, report_ageout, report, age_out, age_out_all, addrmap_maint,
  cache_f_rep_ageout,
}
use tayga.Handlers.Steady.{IsSteady, publish-IsSteady, touch-IsSteady}

-- The address alone.
abbrev pub address {ℓ} : {A : Type ℓ} → Result (A × Bool) → Result A
address (ok (x, c)) = ok x
address (err r) = err r

cache-report_to : (o : Option ℕ) (c : ℕ) (s : Store) → (report_to o c s).cache ≡ s.cache
cache-report_to none c s = refl
cache-report_to (some o) c s = ground arith

cache-report : (g : Mapping) (c : ℕ) (s : Store) → (report g c s).cache ≡ s.cache
unfolding report report_ageout
cache-report g c s =
    elim (bit_and (s.cache.entries c).flags cache_f_rep_ageout == 0)
      as (λ b. (if b then s else report_ageout g c s).cache ≡ s.cache) [
        | true ↦ refl
        | false ↦ cache-report_to (host4 (find_map4 (s.cache.entries c).addr4 g.map4_list)) c s
      ]

cache-age_out :
    (g : Mapping) (now c : ℕ) (s : Store) → (age_out g now c s).cache ≡ age_entry now c s.cache
unfolding age_out age_entry
cache-age_out g now c s =
    elim (ltb ((s.cache.entries c).last_use + cache_max_age) now)
      as (λ b.
        (if b then record (report g c s) { cache = drop_entry c (report g c s).cache } else s).cache
        ≡ (if b then drop_entry c s.cache else s.cache)) [
          | true ↦ ap (drop_entry c) (cache-report g c s)
          | false ↦ refl
        ]

cache-age_out_all :
    (g : Mapping) (now : ℕ) (cs : List ℕ) (s : Store)
    → (age_out_all g now cs s).cache ≡ age_all now cs s.cache
unfolding age_out_all age_all
cache-age_out_all g now [] s = refl
cache-age_out_all g now (c ∷ cs) s =
    cache-age_out_all g now cs (age_out g now c s) ∙ ap (age_all now cs) (cache-age_out g now c s)

entries-age_entry : (now c : ℕ) (s : Cache) → (age_entry now c s).entries ≡ s.entries
unfolding age_entry drop_entry
entries-age_entry now c s =
    elim (ltb ((s.entries c).last_use + cache_max_age) now)
      as (λ b. (if b then drop_entry c s else s).entries ≡ s.entries) [ true ↦ refl | false ↦ refl ]

entries-age_all : (now : ℕ) (cs : List ℕ) (s : Cache) → (age_all now cs s).entries ≡ s.entries
unfolding age_all age_entry drop_entry
entries-age_all now [] s = refl
entries-age_all now (c ∷ cs) s =
    entries-age_all now cs (age_entry now c s) ∙ entries-age_entry now c s

-- The reports do not touch the cache.
cache-addrmap_maint :
    (g : Mapping) (now : ℕ) (s : Store) → (addrmap_maint g now s).cache ≡ age_cache now s.cache
unfolding addrmap_maint age_cache
cache-addrmap_maint g now s = cache-age_out_all g now s.cache.cache_active s

abbrev pub empty_cache : Cache
empty_cache = record {
  entries = λ c. record {
    addr6 = record { w0 = 0; w1 = 0; w2 = 0; w3 = 0 };
    addr4 = 0;
    last_use = 0;
    flags = 0;
    ip4_ident = 0;
  };
  cache_pool = [];
  cache_active = [];
  hash_table4 = no_buckets;
  hash_table6 = no_buckets;
}

-- What the tables say of a pair that may be cached.
abbrev pub Returns : Mapping → ℕ → In6Addr → Type 0
Returns g a q = resolve_ip6 g q ≡ ok (a, true)

module _ (g : Mapping) (k : Hashing) where
  miss6-IsSteady :
      (now : ℕ) (q : In6Addr) (d : Option ℕ) (r : Result (ℕ × Bool)) (s : Store)
      → resolve_ip6 g q ≡ r
      → IsSteady (Returns g) k s.cache
      → IsSteady (Returns g) k (miss6 k now q d r s).1.cache
  unfolding miss6
  miss6-IsSteady now q d (err r) s e i = i
  miss6-IsSteady now q d (ok (a, pair)) s e i =
      publish-IsSteady (Returns g) k now a q pair d s (λ t. e ∙ ap (λ b. ok (a, b)) t) i

  from6-IsSteady :
      (now : ℕ) (q : In6Addr) (s : Store)
      → IsSteady (Returns g) k s.cache
      → IsSteady (Returns g) k (map_ip6_to_ip4 g k now q s).1.cache
  unfolding map_ip6_to_ip4 hit6
  from6-IsSteady now q s i =
      elim (cached6 k q s.cache) as (λ o. IsSteady (Returns g) k (hit6 g k now q s o).1.cache) [
        | some c ↦ touch-IsSteady (Returns g) k now c s.cache i
        | none ↦ miss6-IsSteady now q (host6 (find_map6 q g.map6_list)) (resolve_ip6 g q) s refl i
      ]

  module _ (v : IsMapping g) (a : ℕ) (word : a < 2 ^ 32)
      (good : is_error (validate_ip4_addr g.endian a) ≡ false)
      (foreign : (g.local_addr4 == a) ≡ false) where
    miss4-IsSteady :
        (now : ℕ) (d : Option ℕ) (r : Result (In6Addr × Bool)) (s : Store)
        → resolve_ip4 g a ≡ r
        → IsSteady (Returns g) k s.cache
        → IsSteady (Returns g) k (miss4 k now a d r s).1.cache
    unfolding miss4
    miss4-IsSteady now d (err r) s e i = i
    miss4-IsSteady now d (ok (q, pair)) s e i =
        publish-IsSteady (Returns g) k now a q pair d s
          (λ t. resolve_ip6-resolve_ip4 g v a q true word good foreign (e ∙ ap (λ b. ok (q, b)) t))
          i

    from4-IsSteady :
        (now : ℕ) (s : Store)
        → IsSteady (Returns g) k s.cache
        → IsSteady (Returns g) k (map_ip4_to_ip6 g k now a s).1.cache
    unfolding map_ip4_to_ip6 hit4
    from4-IsSteady now s i =
        elim (cached4 k a s.cache) as (λ o. IsSteady (Returns g) k (hit4 g k now a s o).1.cache) [
          | some c ↦ touch-IsSteady (Returns g) k now c s.cache i
          | none ↦ miss4-IsSteady now (host4 (find_map4 a g.map4_list)) (resolve_ip4 g a) s refl i
        ]

  aged-IsSteady :
      (now : ℕ) (s : Store)
      → IsSteady (Returns g) k s.cache
      → IsSteady (Returns g) k (addrmap_maint g now s).cache
  unfolding age_cache
  aged-IsSteady now s i = rw (cache-addrmap_maint g now s) (record {
    cache = age_cache-IsCache k now s.cache i.cache;
    active = λ c m.
        rw (entries-age_all now s.cache.cache_active s.cache)
          (i.active c (grind (arith, m, has-age_cache now c s.cache)));
  })

-- The states that calls of the handlers lead to, after `create_cache` on empty lists. The addresses of
-- IPv4 packets may be translated and are not our own.
pub data Reached (g : Mapping) (k : Hashing) : Store → Type 0 where
  created :
      (storage : ℕ → Entry) (dynamics : ℕ → Dynamic)
      → Reached g k (record { cache = create_cache k storage empty_cache; dynamics = dynamics })
  from4 :
      (now a : ℕ) (s : Store)
      → a < 2 ^ 32
      → is_error (validate_ip4_addr g.endian a) ≡ false
      → (g.local_addr4 == a) ≡ false
      → Reached g k s
      → Reached g k (map_ip4_to_ip6 g k now a s).1
  from6 :
      (now : ℕ) (q : In6Addr) (s : Store)
      → Reached g k s
      → Reached g k (map_ip6_to_ip4 g k now q s).1
  aged : (now : ℕ) (s : Store) → Reached g k s → Reached g k (addrmap_maint g now s)

pub Reached-IsSteady :
    (g : Mapping) (k : Hashing) (s : Store)
    → IsMapping g
    → Reached g k s
    → IsSteady (Returns g) k s.cache
unfolding create_cache
Reached-IsSteady g k _ v (created storage dynamics) = record {
  cache =
      (create_cache-IsCache k (record k { cache_size = 0 }) storage empty_cache
        (record {
          pool_once = tt;
          active_once = tt;
          apart = λ c. refl;
          spread = λ c. ground arith;
          chain4 = λ h c. refl;
          chain6 = λ h c. refl;
        })
        (inl (refl, refl))).0;
  active = λ c m. ground arith;
}
Reached-IsSteady g k _ v (from4 now a s word good foreign r) =
    from4-IsSteady g k v a word good foreign now s (Reached-IsSteady g k s v r)
Reached-IsSteady g k _ v (from6 now q s r) = from6-IsSteady g k now q s (Reached-IsSteady g k s v r)
Reached-IsSteady g k _ v (aged now s r) = aged-IsSteady g k now s (Reached-IsSteady g k s v r)

miss6-address :
    (k : Hashing) (now : ℕ) (q : In6Addr) (d : Option ℕ) (r : Result (ℕ × Bool)) (s : Store)
    → (miss6 k now q d r s).0 ≡ address r
unfolding miss6
miss6-address k now q d (err r) s = refl
miss6-address k now q d (ok (a, pair)) s = refl

-- A bucket is read only when the cache is on.
cached6-lookup6 :
    (k : Hashing) (q : In6Addr) (s : Cache) (c : ℕ)
    → cached6 k q s ≡ some c
    → lookup6 k q s ≡ some c
cached6-lookup6 k q s c e = ground arith

hit6-address :
    (g : Mapping) (k : Hashing) (now : ℕ) (q : In6Addr) (s : Store) (c : ℕ)
    → IsSteady (Returns g) k s.cache
    → lookup6 k q s.cache ≡ some c
    → ok (s.cache.entries c).addr4 ≡ address (resolve_ip6 g q)
hit6-address g k now q s c i e =
    let (here, same) =
      subst (IsFound (λ x. in6_are_addr_equal q (s.cache.entries x).addr6) s.cache.cache_active) e
        (lookup6-IsFound k q s.cache i.cache) in
    sym (
      ap (λ x. address (resolve_ip6 g x)) (in6_equal q (s.cache.entries c).addr6 same)
      ∙ ap address (i.active c here))

-- With well-formed and linked tables, in every state that calls of the handlers lead to,
-- `map_ip6_to_ip4` gives what the tables give.
pub map_ip6_to_ip4-resolve_ip6 :
    (g : Mapping) (k : Hashing) (now : ℕ) (q : In6Addr) (s : Store)
    → IsMapping g
    → Reached g k s
    → (map_ip6_to_ip4 g k now q s).0 ≡ address (resolve_ip6 g q)
unfolding map_ip6_to_ip4 hit6
map_ip6_to_ip4-resolve_ip6 g k now q s v r = elim (Option-cases (cached6 k q s.cache)) [
  | inl miss ↦
      ap (λ o. (hit6 g k now q s o).0) miss
      ∙ miss6-address k now q (host6 (find_map6 q g.map6_list)) (resolve_ip6 g q) s
  | inr (c, hit) ↦
      ap (λ o. (hit6 g k now q s o).0) hit
      ∙ hit6-address g k now q s c (Reached-IsSteady g k s v r) (cached6-lookup6 k q s.cache c hit)
]
