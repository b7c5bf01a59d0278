-- ===== src/Pool/Search.antt =====
-- The search of `assign_dynamic` in src/dynamic.c for a free address that no static mapping takes.
use tayga.Base.{
  ℕ, zero, suc, ◌+◌, ◌-◌, ◌/◌, ◌^◌, bit_and, bit_or, if◌then◌else◌, ◌==◌, ltb, Option, none, some,
  List, [], ◌∷◌,
}
use tayga.Word.{Endian, htonl, u32}
use tayga.Addr.{In6Addr}
use tayga.Maps.{Map4, find_map4}
use tayga.Pool.{FreeAddr, DynamicPool}

-- `UINT32_MAX >> pool->map4.prefix_len`.
abbrev pub pool_max : DynamicPool → ℕ
pool_max p = (2 ^ 32 - 1) / 2 ^ p.map4.prefix_len

-- The inner loop on the hash, on fuel.
unfoldable pub fold : ℕ → ℕ → ℕ → ℕ → ℕ
fold max len zero base = base
fold max len (suc n) base =
    let rest = fold max len n (bit_and base max + base / 2 ^ (32 - len)) in
    if bit_and base (2 ^ 32 - 1 - max) == 0 then base else rest

-- Each word is added and the sum folded; a word has 32 bits, and `fold` makes it smaller.
unfoldable pub fold_in : ℕ → ℕ → ℕ → ℕ → ℕ
unfolding fold
fold_in max len base word = fold max len (u32 (base + word)) (u32 (base + word))

unfoldable pub base_of : ℕ → ℕ → In6Addr → ℕ
unfolding fold_in
base_of max len q =
    fold_in max len (fold_in max len (fold_in max len (fold_in max len 0 q.w0) q.w1) q.w2) q.w3

-- The last address that an entry covers.
abbrev pub last_addr : Endian → Map4 → ℕ
last_addr e m = bit_or (htonl e m.addr) (2 ^ 32 - 1 - htonl e m.mask)

-- One turn of the loop within a run; `next` is the rest of the loop.
unfoldable pub search_found : Map4 → Endian → ℕ → (ℕ → Option ℕ) → Option Map4 → Option ℕ
search_found pool e addr next none = none
search_found pool e addr next (some m) =
    if m.owner == pool.owner then some addr else next (last_addr e m + 1)

-- The loop within a run, on fuel.
unfoldable pub search_run : Endian → Map4 → List Map4 → ℕ → ℕ → ℕ → Option ℕ
unfolding search_found
search_run e pool table zero end addr = none
search_run e pool table (suc n) end addr =
    if ltb addr end
    then search_found pool e addr (λ next. search_run e pool table n end next)
        (find_map4 (htonl e addr) table)
    else none

abbrev pub larger : ℕ → ℕ → ℕ
larger a b = if ltb a b then b else a

abbrev pub smaller : ℕ → ℕ → ℕ
smaller a b = if ltb b a then b else a

-- The address and the run that it is free in.
abbrev pub or_else {ℓ} : {A : Type ℓ} → Option A → Option A → Option A
or_else (some x) o = some x
or_else none o = o

abbrev pub in_run : FreeAddr → Option ℕ → Option (ℕ × FreeAddr)
in_run r none = none
in_run r (some a) = some (a, r)

-- One pass over the runs, within two bounds; an address is raised with each turn within a run.
unfoldable pub search_pass :
    Endian → Map4 → List Map4 → ℕ → ℕ → List FreeAddr → Option (ℕ × FreeAddr)
unfolding search_run
search_pass e pool table low high [] = none
search_pass e pool table low high (r ∷ rs) =
    let end = smaller (r.addr + r.count + 1) high in
    or_else (in_run r (search_run e pool table end end (larger (r.addr + 1) low)))
      (search_pass e pool table low high rs)

-- Both halves of the circular range, from the address that the hash gives.
unfoldable pub search : Endian → In6Addr → List Map4 → DynamicPool → Option (ℕ × FreeAddr)
unfolding search_pass base_of
search e q table p =
    let from = bit_or p.base (bit_and (base_of (pool_max p) p.map4.prefix_len q) (pool_max p)) in
    or_else (search_pass e p.map4 table from (p.base + pool_max p + 1) p.free_list)
      (search_pass e p.map4 table p.base from p.free_list)
