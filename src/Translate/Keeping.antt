-- ===== src/Translate/Keeping.antt =====
-- The mapper that src/nat64.c calls, `map_ip4_to_ip6` and `map_ip6_to_ip4` with their cache, satisfies
-- what the ICMP errors ask of a mapper.
use tayga.Base.{ℕ, ◌^◌, ◌<◌, ◌≡◌, refl, arith, ◌==◌, Bool, Option, none, some, subst}
use tayga.Addr.{error_none, error_reject, error_drop, error_local, In6Addr}
use tayga.Prefix.{Result, ok, err}
use tayga.Prefix.Bytes.{IsIn6}
use tayga.Maps.{find_map4, find_map6}
use tayga.Resolve.{Mapping, in6_are_addr_equal, resolve_ip4, resolve_ip6}
use tayga.Cache.{Hashing, lookup4, lookup6}
use tayga.Cache.Lookup.{IsFound, lookup4-IsFound, lookup6-IsFound}
use tayga.Handlers.{
  Store, host4, host6, cached4, cached6, miss4, miss6, hit4, hit6, map_ip4_to_ip6, map_ip6_to_ip4,
}
use tayga.Handlers.Steady.{IsSteady, publish-IsSteady, touch-IsSteady}
use tayga.Translate.Mapper.{mapped_of, address_map}
use tayga.Translate.Widths.{
  IfOk, fails, gives, Gives4, Gives6, IsWide, resolve_ip4-Gives6, resolve_ip6-Gives4,
}
use tayga.Translate.Errors4.{IsMapped4, MapsToIn4}
use tayga.Translate.Errors6.{IsMapped, MapsToIn6}

-- A pair as wide as its types.
abbrev pub IsWidePair : ℕ → In6Addr → Type 0
IsWidePair a q = (a < 2 ^ 32) × IsIn6 q

mapped_of-IsMapped : (r : Result In6Addr) → IfOk IsIn6 r → IsMapped (mapped_of r)
unfolding mapped_of
mapped_of-IsMapped (ok q) (gives h) = h
mapped_of-IsMapped (err error_none) h = tt
mapped_of-IsMapped (err error_reject) h = tt
mapped_of-IsMapped (err error_drop) h = tt
mapped_of-IsMapped (err error_local) h = tt

mapped_of-IsMapped4 : (r : Result ℕ) → IfOk (λ a. a < 2 ^ 32) r → IsMapped4 (mapped_of r)
unfolding mapped_of
mapped_of-IsMapped4 (ok a) (gives h) = h
mapped_of-IsMapped4 (err error_none) h = tt
mapped_of-IsMapped4 (err error_reject) h = tt
mapped_of-IsMapped4 (err error_drop) h = tt
mapped_of-IsMapped4 (err error_local) h = tt

module _ (g : Mapping) (k : Hashing) (now : ℕ) (w : IsWide g) where
  -- The cache is well formed, and its pairs are as wide as their types.
  abbrev pub IsWideStore : Store → Type 0
  IsWideStore s = IsSteady IsWidePair k s.cache

  miss4_lem :
      (a : ℕ) (d : Option ℕ) (r : Result (In6Addr × Bool)) (s : Store)
      → a < 2 ^ 32
      → Gives6 r
      → IsWideStore s
      → IfOk IsIn6 (miss4 k now a d r s).0 × IsWideStore (miss4 k now a d r s).1
  unfolding miss4
  miss4_lem a d (err r) s ha h i = (fails, i)
  miss4_lem a d (ok (q, pair)) s ha (gives h) i =
      (gives h, publish-IsSteady IsWidePair k now a q pair d s (λ t. (ha, h)) i)

  miss6_lem :
      (q : In6Addr) (d : Option ℕ) (r : Result (ℕ × Bool)) (s : Store)
      → IsIn6 q
      → Gives4 r
      → IsWideStore s
      → IfOk (λ a. a < 2 ^ 32) (miss6 k now q d r s).0 × IsWideStore (miss6 k now q d r s).1
  unfolding miss6
  miss6_lem q d (err r) s hq h i = (fails, i)
  miss6_lem q d (ok (a, pair)) s hq (gives h) i =
      (gives h, publish-IsSteady IsWidePair k now a q pair d s (λ t. (h, hq)) i)

  cached4-lookup4 :
      (a : ℕ) (s : Store) (c : ℕ) → cached4 k a s.cache ≡ some c → lookup4 k a s.cache ≡ some c
  cached4-lookup4 a s c h = ground arith

  cached6-lookup6 :
      (q : In6Addr) (s : Store) (c : ℕ)
      → cached6 k q s.cache ≡ some c
      → lookup6 k q s.cache ≡ some c
  cached6-lookup6 q s c h = ground arith

  hit4_lem :
      (a : ℕ) (s : Store) (o : Option ℕ)
      → cached4 k a s.cache ≡ o
      → a < 2 ^ 32
      → IsWideStore s
      → IfOk IsIn6 (hit4 g k now a s o).0 × IsWideStore (hit4 g k now a s o).1
  unfolding hit4
  hit4_lem a s none e ha i =
      miss4_lem a (host4 (find_map4 a g.map4_list)) (resolve_ip4 g a) s ha
        (resolve_ip4-Gives6 g w a ha) i
  hit4_lem a s (some c) e ha i =
      let (here, same) =
        subst (IsFound (λ x. a == (s.cache.entries x).addr4) s.cache.cache_active)
          (cached4-lookup4 a s c e) (lookup4-IsFound k a s.cache i.cache) in
      (gives (i.active c here).1, touch-IsSteady IsWidePair k now c s.cache i)

  hit6_lem :
      (q : In6Addr) (s : Store) (o : Option ℕ)
      → cached6 k q s.cache ≡ o
      → IsIn6 q
      → IsWideStore s
      → IfOk (λ a. a < 2 ^ 32) (hit6 g k now q s o).0 × IsWideStore (hit6 g k now q s o).1
  unfolding hit6
  hit6_lem q s none e hq i =
      miss6_lem q (host6 (find_map6 q g.map6_list)) (resolve_ip6 g q) s hq
        (resolve_ip6-Gives4 g w q hq) i
  hit6_lem q s (some c) e hq i =
      let (here, same) =
        subst (IsFound (λ x. in6_are_addr_equal q (s.cache.entries x).addr6) s.cache.cache_active)
          (cached6-lookup6 q s c e) (lookup6-IsFound k q s.cache i.cache) in
      (gives (i.active c here).0, touch-IsSteady IsWidePair k now c s.cache i)

  -- What the mapper gives is as wide as its type, and it keeps the cache so.
  pub map4_lem :
      (a : ℕ) (s : Store)
      → a < 2 ^ 32
      → IsWideStore s
      → IsMapped (mapped_of (map_ip4_to_ip6 g k now a s).0)
        × IsWideStore (map_ip4_to_ip6 g k now a s).1
  unfolding map_ip4_to_ip6
  map4_lem a s ha i =
      let r = hit4_lem a s (cached4 k a s.cache) refl ha i in (mapped_of-IsMapped _ r.0, r.1)

  pub map6_lem :
      (q : In6Addr) (s : Store)
      → IsIn6 q
      → IsWideStore s
      → IsMapped4 (mapped_of (map_ip6_to_ip4 g k now q s).0)
        × IsWideStore (map_ip6_to_ip4 g k now q s).1
  unfolding map_ip6_to_ip4
  map6_lem q s hq i =
      let r = hit6_lem q s (cached6 k q s.cache) refl hq i in (mapped_of-IsMapped4 _ r.0, r.1)

  abbrev pub maps_to_in6 : MapsToIn6 (address_map g k now)
  maps_to_in6 = record { IsStore = IsWideStore; maps = λ a s ha i. map4_lem a s ha i }

  abbrev pub maps_to_in4 : MapsToIn4 (address_map g k now)
  maps_to_in4 = record { IsStore = IsWideStore; maps = λ dyn q s hq i. map6_lem q s hq i }
