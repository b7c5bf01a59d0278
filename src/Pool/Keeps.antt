-- ===== src/Pool/Keeps.antt =====
-- What `dynamic_maint` and `load_map` keep: the runs tile the pool, and the dormant mappings stand in
-- order of use.
use tayga.Base.{
  ℕ, ◌+◌, ◌^◌, ◌≤◌, ◌<◌, ◌≡◌, refl, sym, subst, inl, inr, arith, true, false, ◌&&◌, ◌||◌, not,
  bit_and, if◌then◌else◌, ◌==◌, ltb, leb, Bool-cases, Option, none, some, List, [], ◌∷◌, All,
}
use tayga.Word.{Endian, htonl, u32}
use tayga.Addr.{In6Addr, is_error, validate_ip6_addr}
use tayga.Maps.{find_map4, find_map6}
use tayga.Maps.Scan.{first}
use tayga.Maps.Order.{IsFalling}
use tayga.Pool.{FreeAddr, MapDynamic, DynamicPool, PoolState, alloc_map_dynamic, move_to_dormant}
use tayga.Pool.Assign.{load_map, load_into, is_pool, is_some}
use tayga.Pool.Maint.{is_linked, retire, retire_all, maintain, merge}
use tayga.Pool.Runs.{IsTiled, IsTiled-le, FreeAt, split-IsTiled, merge-split}
use tayga.Pool.Order.{use_of, recent, expire-recent, expire-IsTiled, insert_dormant-IsFalling}

-- The runs tile `from` to `end`, and the mapping that was used least recently stands last.
pub record IsOrdered (from end : ℕ) (p : DynamicPool) : Type 0 where
  pub tiled : IsTiled from end p.free_list
  pub falling : IsFalling use_of p.dormant_list

recent-All :
    (P : MapDynamic → Type 0) (now lease : ℕ) (ds : List MapDynamic)
    → All P ds
    → All P (recent now lease ds)
recent-All P now lease [] h = tt
recent-All P now lease (d ∷ ds) h =
    elim (leb now (d.last_use + lease))
      as (λ b. All P (if b then d ∷ recent now lease ds else recent now lease ds)) [
        | true ↦ (h.0, recent-All P now lease ds h.1)
        | false ↦ recent-All P now lease ds h.1
      ]

recent-IsFalling :
    (now lease : ℕ) (ds : List MapDynamic)
    → IsFalling use_of ds
    → IsFalling use_of (recent now lease ds)
recent-IsFalling now lease [] h = tt
recent-IsFalling now lease (d ∷ ds) h =
    elim (leb now (d.last_use + lease))
      as (λ b. IsFalling use_of (if b then d ∷ recent now lease ds else recent now lease ds)) [
        | true ↦ (
          recent-All (λ s. s.last_use ≤ d.last_use) now lease ds h.0,
          recent-IsFalling now lease ds h.1,
        )
        | false ↦ recent-IsFalling now lease ds h.1
      ]

recent_lem :
    (now lease : ℕ) (ds : List MapDynamic)
    → All (λ d. now ≤ d.last_use + lease) (recent now lease ds)
recent_lem now lease [] = tt
recent_lem now lease (d ∷ ds) = elim (Bool-cases (leb now (d.last_use + lease))) [
  | inl new ↦ rw new (ground arith, recent_lem now lease ds)
  | inr old ↦ rw old (recent_lem now lease ds)
]

first-FreeAt :
    (a from end : ℕ) (rs : List FreeAddr) (f : FreeAddr)
    → end ≤ 2 ^ 32
    → IsTiled from end rs
    → first (λ r. leb a (u32 (r.addr + r.count))) rs ≡ some f
    → f.addr < a
    → FreeAt f.addr a rs
unfolding first
first-FreeAt a from end [] f small t h lo = cc
first-FreeAt a from end (r ∷ rs) f small t h lo =
    let below = IsTiled-le (r.addr + r.count + 1) end rs t.1 in
    elim (Bool-cases (leb a (u32 (r.addr + r.count)))) [
      | inl here ↦
          let same : r ≡ f = ground arith in
          let lo' : r.addr < a = subst (λ (g : FreeAddr). g.addr < a) (sym same) lo in
          subst (λ (g : FreeAddr). FreeAt g.addr a (r ∷ rs)) same (inl (refl, lo', ground arith))
      | inr later ↦ inr (first-FreeAt a (r.addr + r.count + 1) end rs f small t.1 (ground arith) lo)
    ]

module _ (from end : ℕ) where
  move-IsOrdered :
      (d : MapDynamic) (s : PoolState)
      → IsOrdered from end s.pool
      → IsOrdered from end (move_to_dormant d s).pool
  unfolding move_to_dormant
  move-IsOrdered d s v = record {
    tiled = v.tiled;
    falling = insert_dormant-IsFalling d s.pool.dormant_list v.falling;
  }

  retire-IsOrdered :
      (now lease : ℕ) (ds : List MapDynamic) (s : PoolState)
      → IsOrdered from end s.pool
      → IsOrdered from end (retire_all now lease ds s).pool
  unfolding retire_all retire
  retire-IsOrdered now lease [] s v = v
  retire-IsOrdered now lease (d ∷ ds) s v =
      retire-IsOrdered now lease ds (retire now lease d s)
        (elim (not (is_linked d.cache_entry) && ltb (d.last_use + lease) now)
          as (λ b. IsOrdered from end (if b then move_to_dormant d s else s).pool) [
            | true ↦ move-IsOrdered d s v
            | false ↦ v
          ])

  -- The loops of `dynamic_maint` keep the order of the pool and leave no mapping dormant beyond the
  -- longest lease.
  pub maintain-IsOrdered :
      (e : Endian) (now min_lease max_lease : ℕ) (s : PoolState)
      → IsOrdered from end s.pool
      → IsOrdered from end (maintain e now min_lease max_lease s).pool
        × All
            (λ d. now ≤ d.last_use + max_lease)
            (maintain e now min_lease max_lease s).pool.dormant_list
  unfolding maintain
  maintain-IsOrdered e now min_lease max_lease s v =
      let retired = retire_all now min_lease s.pool.mapped_list s in
      let kept : IsOrdered from end retired.pool =
        retire-IsOrdered now min_lease s.pool.mapped_list s v in
      let same =
        expire-recent e now max_lease retired.pool.dormant_list retired.pool.free_list
          kept.falling in
      (
        record {
          tiled =
              expire-IsTiled e now max_lease from end retired.pool.dormant_list
                retired.pool.free_list kept.tiled;
          falling = rw same (recent-IsFalling now max_lease retired.pool.dormant_list kept.falling);
        },
        rw same (recent_lem now max_lease retired.pool.dormant_list),
      )

  load_into-IsOrdered :
      (e : Endian) (id : ℕ) (q : In6Addr) (addr4 last_use : ℕ) (o : Option FreeAddr) (s : PoolState)
      → end ≤ 2 ^ 32
      → first (λ f. leb (htonl e addr4) (u32 (f.addr + f.count))) s.pool.free_list ≡ o
      → IsOrdered from end s.pool
      → IsOrdered from end (load_into e id q addr4 last_use o s).pool
  unfolding alloc_map_dynamic
  load_into-IsOrdered e id q addr4 last_use none s small h v = v
  load_into-IsOrdered e id q addr4 last_use (some f) s small h v =
      let (d, p) = alloc_map_dynamic e id q addr4 f.addr s.pool in
      elim (Bool-cases (leb (htonl e addr4) f.addr)) [
        | inl taken ↦ rw taken v
        | inr free ↦ rw free (
            move-IsOrdered (record d { last_use = last_use }) (record s { pool = p })
              (record {
                tiled = split-IsTiled f.addr (htonl e addr4) from end s.pool.free_list v.tiled (
                    first-FreeAt (htonl e addr4) from end s.pool.free_list f small v.tiled h
                      (ground arith));
                falling = v.falling;
              }))
      ]

  -- On a range within 32 bits `load_map` keeps the order of the pool, whatever line it is given.
  pub load_map-IsOrdered :
      (e : Endian) (id : ℕ) (q : In6Addr) (addr4 last_use : ℕ) (s : PoolState)
      → end ≤ 2 ^ 32
      → IsOrdered from end s.pool
      → IsOrdered from end (load_map e id q addr4 last_use s).pool
  unfolding load_map
  load_map-IsOrdered e id q addr4 last_use s small v =
      let bad =
        not (s.pool.map4.addr == bit_and addr4 s.pool.map4.mask)
        || not (is_pool s.pool (find_map4 addr4 s.map4_list))
        || is_error (validate_ip6_addr e q)
        || is_some (find_map6 q s.map6_list) in
      let place = first (λ f. leb (htonl e addr4) (u32 (f.addr + f.count))) s.pool.free_list in
      elim bad
        as (λ b.
          IsOrdered from end (if b then s else load_into e id q addr4 last_use place s).pool) [
            | true ↦ v
            | false ↦ load_into-IsOrdered e id q addr4 last_use place s small refl v
          ]

-- In runs that tile a range, giving back an address that `alloc_map_dynamic` took out of the run it was
-- free in restores the list of runs.
pub merge-alloc_map_dynamic :
    (e : Endian) (id : ℕ) (q : In6Addr) (addr4 f from end : ℕ) (p : DynamicPool)
    → IsTiled from end p.free_list
    → FreeAt f (htonl e addr4) p.free_list
    → merge (htonl e addr4) (alloc_map_dynamic e id q addr4 f p).1.free_list ≡ p.free_list
unfolding alloc_map_dynamic
merge-alloc_map_dynamic e id q addr4 f from end p t h =
    merge-split f (htonl e addr4) from end p.free_list t h
