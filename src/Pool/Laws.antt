-- ===== src/Pool/Laws.antt =====
-- What `assign_dynamic` and `dynamic_maint` promise of the pool.
use tayga.Base.{
  ℕ, ◌+◌, ◌≡◌, refl, sym, subst, ◌⊎◌, inl, inr, arith, Bool, true, false, ◌&&◌, not, ◌==◌,
  Bool-cases, Option, none, some, List, [], ◌∷◌,
}
use tayga.Word.{Endian}
use tayga.Word.Laws.{htonl-htonl}
use tayga.Addr.{In6Addr}
use tayga.Maps.{Map6}
use tayga.Maps.Scan.{first}
use tayga.Resolve.{in6_are_addr_equal}
use tayga.Cache.Lookup.{in6_equal}
use tayga.Pool.{FreeAddr, MapDynamic, PoolState, alloc_map_dynamic, move_to_mapped, last_of}
use tayga.Pool.Search.{search, pool_max}
use tayga.Pool.Assign.{assign_dynamic, assign_or_wake, assign_new, reassign}
use tayga.Pool.Runs.{IsTiled, is_free, FreeAt, split-IsTiled, is_free-split}
use tayga.Pool.Skip.{gives_pool}
use tayga.Pool.Found.{IsPool, IsAnswer, search-IsAnswer, free_in_pool}
use tayga.Pool.Order.{no_last}

-- How an assignment for `q` ends: with a mapping for `q`, while at most one free address is taken, one
-- that was the pool's to give; or with nothing, when no mapping is dormant and every free address is
-- hidden by another entry.
abbrev pub Taken : Endian → PoolState → List FreeAddr → Type 0
Taken e s new =
    (new ≡ s.pool.free_list)
    ⊎ ((a : ℕ) × (is_free a s.pool.free_list ≡ true)
        × (gives_pool e s.pool.map4 s.map4_list a ≡ true)
        × ((b : ℕ) → is_free b new ≡ (is_free b s.pool.free_list && not (a == b)))
        × IsTiled s.pool.base (s.pool.base + pool_max s.pool + 1) new)

abbrev pub IsAssigned : Endian → In6Addr → PoolState → Option Map6 × PoolState → Type 0
IsAssigned e q s (some m, s') = (m.addr ≡ q) × Taken e s s'.pool.free_list
IsAssigned e q s (none, s') =
    (s' ≡ s)
    × (s.pool.dormant_list ≡ [])
    × ((y : ℕ) → (is_free y s.pool.free_list && gives_pool e s.pool.map4 s.map4_list y) ≡ false)

FreeAt-is_free : (f a : ℕ) (rs : List FreeAddr) → FreeAt f a rs → is_free a rs ≡ true
FreeAt-is_free f a [] h = absurd h
FreeAt-is_free f a (r ∷ rs) (inl h) = ground arith
FreeAt-is_free f a (r ∷ rs) (inr h) = ground (arith, FreeAt-is_free f a rs h)

first_passes :
    (test : MapDynamic → Bool) (ds : List MapDynamic) (d : MapDynamic)
    → first test ds ≡ some d
    → test d ≡ true
unfolding first
first_passes test [] d h = cc
first_passes test (x ∷ ds) d h = elim (Bool-cases (test x)) [
  | inl t ↦ let same : x ≡ d = ground arith in subst (λ y. test y ≡ true) same t
  | inr t ↦ first_passes test ds d (ground arith)
]

module _ (e : Endian) (id : ℕ) (q : In6Addr) (s : PoolState) (v : IsPool e s.map4_list s.pool) where
  new_IsAssigned :
      (o : Option (ℕ × FreeAddr))
      → IsAnswer e s.map4_list s.pool o
      → IsAssigned e q s (assign_new e id q o s)
  unfolding assign_new alloc_map_dynamic move_to_mapped
  new_IsAssigned (some (a, r)) (free, gives) =
      let inside = FreeAt-is_free r.addr a s.pool.free_list free in
      let end = s.pool.base + pool_max s.pool + 1 in
      let word = (free_in_pool e q s.map4_list s.pool v a inside).1 in
      (
        refl,
        rw (htonl-htonl e a word) (
            inr (
              a,
              inside,
              gives,
              (λ b. is_free-split r.addr a b s.pool.base end s.pool.free_list v.tiled free),
              split-IsTiled r.addr a s.pool.base end s.pool.free_list v.tiled free,
            )),
      )
  new_IsAssigned none h = exhausted (last_of s.pool.dormant_list) refl
    where
      exhausted :
          (o : Option MapDynamic)
          → last_of s.pool.dormant_list ≡ o
          → IsAssigned e q s (reassign q o s)
      exhausted (some d) p = (refl, inl refl)
      exhausted none p = (refl, no_last s.pool.dormant_list p, λ y. ground (arith, h y))

  woken_IsAssigned :
      (o : Option MapDynamic)
      → first (λ d. in6_are_addr_equal q d.map6.addr) s.pool.dormant_list ≡ o
      → IsAssigned e q s (assign_or_wake e id q o s)
  unfolding assign_or_wake move_to_mapped
  woken_IsAssigned (some d) p = (
    sym (
        in6_equal q d.map6.addr
          (first_passes (λ d. in6_are_addr_equal q d.map6.addr) s.pool.dormant_list d p)),
    inl refl,
  )
  woken_IsAssigned none p =
      new_IsAssigned (search e q s.map4_list s.pool) (search-IsAnswer e q s.map4_list s.pool v)

  -- On a pool that its runs tile and whose entry is in a well-formed table, `assign_dynamic` ends with a
  -- mapping for its address, or with none where no mapping is dormant and no free address is to be had.
  pub assign_dynamic-IsAssigned : IsAssigned e q s (assign_dynamic e id q s)
  unfolding assign_dynamic
  assign_dynamic-IsAssigned = woken_IsAssigned _ refl
