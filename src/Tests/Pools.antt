-- ===== src/Tests/Pools.antt =====
-- The dynamic pool of src/dynamic.c: 192.0.2.0/24, of which 192.0.2.1 is configured for a host.
use tayga.Base.{ℕ, ◌<◌, ◌-◌, ◌^◌, some, ◌+◌, ◌≤◌, ◌≡◌, refl, inl, inr, arith, false, [], ◌∷◌, All}
use tayga.Word.{u32, little, htonl}
use tayga.Addr.{validate_ip4_addr, In6Addr}
use tayga.Mask.{calc_ip4_mask, mask4_of}
use tayga.Maps.Scan.{scan, scan_insert}
use tayga.Maps.{insert_map4, Map4, static, dynamic_pool}
use tayga.Maps.Laws4.{IsMap4, IsTable4}
use tayga.Pool.{MapDynamic, DynamicPool, PoolState, new_dynamic, alloc_map_dynamic}
use tayga.Pool.Assign.{assign_dynamic, load_map}
use tayga.Pool.Maint.{maintain, merge}
use tayga.Pool.Config.{config_dynamic_pool}
use tayga.Pool.Config.Laws.{IsConfigured, config_dynamic_pool-IsPool}
use tayga.Pool.Search.{base_of, pool_max}
use tayga.Pool.Fold.{IsFolded, base_of-lt}
use tayga.Pool.Found.{IsPool}
use tayga.Pool.Laws.{IsAssigned, assign_dynamic-IsAssigned}
use tayga.Pool.Keeps.{IsOrdered, maintain-IsOrdered, load_map-IsOrdered, merge-alloc_map_dynamic}

abbrev host4 : Map4
host4 = record {
  addr = 0x010200c0;
  mask = htonl little (mask4_of 32);
  prefix_len = 32;
  type = static;
  owner = 3;
}

abbrev range4 : Map4
range4 = record {
  addr = 0x000200c0;
  mask = htonl little (mask4_of 24);
  prefix_len = 24;
  type = dynamic_pool;
  owner = 2;
}

host4-IsMap4 : IsMap4 little host4
unfolding htonl
host4-IsMap4 = record { word = omega arith; len = omega arith; mask = refl; net = refl }

range4-IsMap4 : IsMap4 little range4
unfolding htonl
range4-IsMap4 = record { word = omega arith; len = omega arith; mask = refl; net = refl }

abbrev client : In6Addr
client = record { w0 = 0xb80d0120; w1 = 0; w2 = 0; w3 = 0x05000000 }

-- One address is leased, to a client that was last seen at time 100.
abbrev leased : MapDynamic
leased = record (new_dynamic little 4 client 0x050200c0) { last_use = 100 }

abbrev whole : DynamicPool
whole = record {
  map4 = range4;
  mapped_list = [];
  dormant_list = [];
  free_list = record { addr = 0xc0000200; count = 255 } ∷ [];
  base = 0xc0000200;
}

abbrev partial : DynamicPool
partial = record whole {
  dormant_list = leased ∷ [];
  free_list =
      record { addr = 0xc0000200; count = 4 } ∷ record { addr = 0xc0000205; count = 250 } ∷ [];
}

abbrev started : PoolState
started = record {
  pool = whole;
  map4_list = host4 ∷ range4 ∷ [];
  map6_list = [];
  map_write_pending = false;
}

started-IsPool : IsPool little (host4 ∷ range4 ∷ []) whole
unfolding htonl
started-IsPool = record {
  entry = record {
    table4 = record {
      entries = (host4-IsMap4, (range4-IsMap4, tt));
      falling = ((omega arith, tt), (tt, tt));
      distinct = (((λ h. omega (arith, h.0)), tt), (tt, tt));
    };
    listed = inr (inl refl);
    only = ((λ h. absurd (omega arith)), ((λ h. refl), tt));
  };
  short = omega arith;
  base = refl;
  tiled = (refl, refl);
}

assign_dynamic-IsAssigned_example :
    IsAssigned little client started (assign_dynamic little 5 client started)
assign_dynamic-IsAssigned_example = assign_dynamic-IsAssigned little 5 client started started-IsPool

abbrev later : PoolState
later = record started { pool = partial }

later-IsOrdered : IsOrdered 0xc0000200 0xc0000300 partial
later-IsOrdered = record { tiled = (refl, (refl, refl)); falling = (tt, tt) }

-- The lease of 1000 is over at time 2000.
maintain-IsOrdered_example :
    IsOrdered 0xc0000200 0xc0000300 (maintain little 2000 500 1000 later).pool
    × All (λ d. 2000 ≤ d.last_use + 1000) (maintain little 2000 500 1000 later).pool.dormant_list
maintain-IsOrdered_example =
    maintain-IsOrdered 0xc0000200 0xc0000300 little 2000 500 1000 later later-IsOrdered

load_map-IsOrdered_example :
    IsOrdered 0xc0000200 0xc0000300 (load_map little 6 client 0x070200c0 90 later).pool
load_map-IsOrdered_example =
    load_map-IsOrdered 0xc0000200 0xc0000300 little 6 client 0x070200c0 90 later (omega arith)
      later-IsOrdered

merge-alloc_map_dynamic_example :
    merge
      (htonl little 0x070200c0)
      (alloc_map_dynamic little 6 client 0x070200c0 0xc0000205 partial).1.free_list
    ≡ partial.free_list
unfolding htonl
merge-alloc_map_dynamic_example =
    merge-alloc_map_dynamic little 6 client 0x070200c0 0xc0000205 0xc0000200 0xc0000300 partial
      (refl, (refl, refl)) (inr (inl (refl, omega arith, omega arith)))

made_pool :
    config_dynamic_pool little 2 false (some (0x000200c0, 24)) (host4 ∷ [])
    ≡ some (whole, host4 ∷ range4 ∷ [])
unfolding config_dynamic_pool htonl calc_ip4_mask validate_ip4_addr insert_map4 scan_insert scan
made_pool = refl

one_host : IsTable4 little (host4 ∷ [])
one_host = record { entries = (host4-IsMap4, tt); falling = (tt, tt); distinct = (tt, tt) }

config_dynamic_pool-IsPool_example :
    IsConfigured little 2 0x000200c0 24
      (host4 ∷ [])
      (omega arith)
      (omega arith)
      one_host
      ((λ h. omega arith), tt)
      (host4 ∷ range4 ∷ [])
      whole
config_dynamic_pool-IsPool_example =
    config_dynamic_pool-IsPool little 2 0x000200c0 24 (host4 ∷ []) (omega arith) (omega arith)
      one_host ((λ h. omega arith), tt) whole (host4 ∷ range4 ∷ []) made_pool

base_of-lt_example :
    let hash = base_of (pool_max whole) 24 client in
    (b0 : ℕ) × (b1 : ℕ) × (b2 : ℕ) × IsFolded 24 (u32 (0 + client.w0)) b0
    × IsFolded 24 (u32 (b0 + client.w1)) b1
    × IsFolded 24 (u32 (b1 + client.w2)) b2
    × IsFolded 24 (u32 (b2 + client.w3)) hash
    × (hash < 2 ^ (32 - 24))
base_of-lt_example = base_of-lt whole client (omega arith)
