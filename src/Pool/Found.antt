-- ===== src/Pool/Found.antt =====
-- The search of `assign_dynamic` finds an address exactly if the pool has one left.
use tayga.Base.{
  ℕ, zero, suc, ◌+◌, ◌-◌, ◌/◌, ◌^◌, ◌≤◌, ◌<◌, ◌≡◌, refl, sym, ap, ◌∙◌, subst, inl, inr, arith, Bool,
  true, false, ◌&&◌, ◌==◌, ltb, leb, ==_iff, Bool-cases, Option-cases, Option, none, some, List, [],
  ◌∷◌, bit_or, bit_and, every_lem, bit_or_lt, All-Member,
}
use mathlib.Core.Bool.{false≢true}
use tayga.Word.{Endian, htonl}
use tayga.Word.Laws.{htonl-lt}
use tayga.Addr.{In6Addr}
use tayga.Maps.{Map4, find_map4}
use tayga.Maps.Laws4.{IsMap4}
use tayga.Pool.{FreeAddr, DynamicPool}
use tayga.Pool.Search.{
  last_addr, search_found, search_run, larger, smaller, or_else, in_run, search_pass, search,
  pool_max, base_of,
}
use tayga.Pool.Runs.{IsTiled, is_free, FreeAt, is_free-from, is_free-below}
use tayga.Pool.Skip.{
  Covers, Covers-within, last_addr_lem, Covers-last_addr, IsEntry, gives_pool, found_within, hidden,
}

no_some {ℓ} : {A : Type ℓ} {x : A} → some x ≡ none → ⊥
no_some h = cc

some_same {ℓ} : {A : Type ℓ} {x y : A} → some x ≡ some y → x ≡ y
some_same h = cc

module _ (e : Endian) (table : List Map4) (pool : Map4) (v : IsEntry e table pool) where
  -- Every address of the range is the pool's, unless another entry hides it.
  abbrev pub InPool : ℕ → ℕ → Type 0
  InPool low high = (z : ℕ) → low ≤ z → z < high → Covers e pool z × (z < 2 ^ 32)

  run_stop : (n addr end : ℕ) → ltb addr end ≡ false → search_run e pool table n end addr ≡ none
  unfolding search_run
  run_stop zero addr end stop = refl
  run_stop (suc n) addr end stop = rw stop

  run_own :
      (n addr end : ℕ) (m : Map4)
      → ltb addr end ≡ true
      → find_map4 (htonl e addr) table ≡ some m
      → (m.owner == pool.owner) ≡ true
      → search_run e pool table (suc n) end addr ≡ some addr
  unfolding search_run search_found
  run_own n addr end m more p own = rw (more, p, own)

  run_other :
      (n addr end : ℕ) (m : Map4)
      → ltb addr end ≡ true
      → find_map4 (htonl e addr) table ≡ some m
      → (m.owner == pool.owner) ≡ false
      → search_run e pool table (suc n) end addr ≡ search_run e pool table n end (last_addr e m + 1)
  unfolding search_run search_found
  run_other n addr end m more p other = rw (more, p, other)

  run_none :
      (n addr end y : ℕ)
      → end ≤ addr + n
      → InPool addr end
      → search_run e pool table n end addr ≡ none
      → addr ≤ y
      → y < end
      → gives_pool e pool table y ≡ false
  unfolding search_run
  run_none zero addr end y fuel c h lo hi = absurd (omega arith)
  run_none (suc n) addr end y fuel c h lo hi =
      let here = c addr (omega arith) (omega arith) in
      let there = c y lo hi in
      let (m, p, cm, vm, im) = found_within e table pool v addr here.1 here.0 in
      let more : ltb addr end ≡ true = ground arith in
      let last = Covers-last_addr e m addr vm cm in
      elim (Bool-cases (m.owner == pool.owner)) [
        | inl own ↦ absurd (no_some (sym (run_own n addr end m more p own) ∙ h))
        | inr other ↦ elim (Bool-cases (leb y (last_addr e m))) [
          | inl within ↦
              hidden e table pool v addr y m here.1 there.1 here.0 p cm im other
                (Covers-within e m addr y vm cm lo (ground arith))
          | inr beyond ↦
              run_none n (last_addr e m + 1) end y (omega arith) (λ z l k. c z (omega arith) k)
                (sym (run_other n addr end m more p other) ∙ h) (ground arith) hi
        ]
      ]

  run_some :
      (n addr end x : ℕ)
      → InPool addr end
      → search_run e pool table n end addr ≡ some x
      → (addr ≤ x) × (x < end) × (gives_pool e pool table x ≡ true)
  unfolding search_run
  run_some zero addr end x c h = cc
  run_some (suc n) addr end x c h = elim (Bool-cases (ltb addr end)) [
    | inr stop ↦ absurd (no_some (sym h ∙ run_stop (suc n) addr end stop))
    | inl more ↦
        let here = c addr (omega arith) (ground arith) in
        let (m, p, cm, vm, im) = found_within e table pool v addr here.1 here.0 in
        let last = Covers-last_addr e m addr vm cm in
        elim (Bool-cases (m.owner == pool.owner)) [
          | inl own ↦
              let same : addr ≡ x = some_same (sym (run_own n addr end m more p own) ∙ h) in
              (
                omega arith,
                ground arith,
                subst (λ z. gives_pool e pool table z ≡ true) same (rw (p, own)),
              )
          | inr other ↦
              let (lo, hi, gives) =
                run_some n (last_addr e m + 1) end x (λ z l k. c z (omega arith) k)
                  (sym (run_other n addr end m more p other) ∙ h) in
              (omega arith, hi, gives)
        ]
  ]

  abbrev pub AllInPool : List FreeAddr → Type 0
  AllInPool rs = (z : ℕ) → is_free z rs ≡ true → Covers e pool z × (z < 2 ^ 32)

  within :
      (r : FreeAddr) (rs : List FreeAddr) (low high : ℕ)
      → AllInPool (r ∷ rs)
      → InPool (larger (r.addr + 1) low) (smaller (r.addr + r.count + 1) high)
  within r rs low high c = λ z l k. c z (ground arith)

  pass_none :
      (low high y : ℕ) (rs : List FreeAddr)
      → AllInPool rs
      → search_pass e pool table low high rs ≡ none
      → is_free y rs ≡ true
      → low ≤ y
      → y < high
      → gives_pool e pool table y ≡ false
  unfolding search_pass
  pass_none low high y [] c h free lo hi = absurd (false≢true free)
  pass_none low high y (r ∷ rs) c h free lo hi =
      let from = larger (r.addr + 1) low in
      let end = smaller (r.addr + r.count + 1) high in
      elim (Option-cases (search_run e pool table end end from)) [
        | inr (x, p) ↦ absurd (
            no_some
              (sym (ap (λ o. or_else (in_run r o) (search_pass e pool table low high rs)) p) ∙ h))
        | inl n ↦ elim (Bool-cases (ltb r.addr y && leb y (r.addr + r.count))) [
          | inl here ↦
              run_none end from end y (omega arith) (within r rs low high c) n (ground arith)
                (ground arith)
          | inr later ↦
              pass_none low high y rs (λ z f. c z (ground arith))
                (sym (ap (λ o. or_else (in_run r o) (search_pass e pool table low high rs)) n) ∙ h)
                (ground arith) lo hi
        ]
      ]

  pass_some :
      (low high x : ℕ) (r : FreeAddr) (rs : List FreeAddr)
      → AllInPool rs
      → search_pass e pool table low high rs ≡ some (x, r)
      → FreeAt r.addr x rs × (gives_pool e pool table x ≡ true)
  unfolding search_pass
  pass_some low high x r [] c h = cc
  pass_some low high x r (s ∷ rs) c h =
      let from = larger (s.addr + 1) low in
      let end = smaller (s.addr + s.count + 1) high in
      elim (Option-cases (search_run e pool table end end from)) [
        | inl n ↦
            let (free, gives) =
              pass_some low high x r rs (λ z f. c z (ground arith))
                (sym (ap (λ o. or_else (in_run s o) (search_pass e pool table low high rs)) n)
                  ∙ h) in
            (inr free, gives)
        | inr (z, p) ↦
            let (lo, hi, gives) = run_some end from end z (within s rs low high c) p in
            let same : (z, s) ≡ (x, r) =
              some_same (
                sym (ap (λ o. or_else (in_run s o) (search_pass e pool table low high rs)) p)
                ∙ h) in
            subst
              (λ (w : ℕ × FreeAddr).
                FreeAt w.1.addr w.0 (s ∷ rs) × (gives_pool e pool table w.0 ≡ true))
              same (inl (refl, ground arith, ground arith), gives)
      ]

-- The pool as `config_dynamic_pool` makes it: the runs tile it behind the address of its prefix.
pub record IsPool (e : Endian) (table : List Map4) (p : DynamicPool) : Type 0 where
  pub entry : IsEntry e table p.map4
  pub short : p.map4.prefix_len ≤ 31
  pub base : p.base ≡ htonl e p.map4.addr
  pub tiled : IsTiled p.base (p.base + pool_max p + 1) p.free_list

-- An address that is free and that no other mapping takes.
abbrev pub IsAnswer : Endian → List Map4 → DynamicPool → Option (ℕ × FreeAddr) → Type 0
IsAnswer e table p none =
    (y : ℕ) → is_free y p.free_list ≡ true → gives_pool e p.map4 table y ≡ false
IsAnswer e table p (some (a, r)) =
    FreeAt r.addr a p.free_list × (gives_pool e p.map4 table a ≡ true)

abbrev size_ok : ℕ → Bool
size_ok len = (2 ^ 32 - 1) / 2 ^ len + 1 == 2 ^ (32 - len)

pub pool_max_lem :
    (p : DynamicPool) → p.map4.prefix_len ≤ 31 → pool_max p + 1 ≡ 2 ^ (32 - p.map4.prefix_len)
pool_max_lem p h = (==_iff _ _).0 (every_lem size_ok p.map4.prefix_len 33 (omega arith) refl)

last_addr-lt : (e : Endian) (m : Map4) → IsMap4 e m → last_addr e m < 2 ^ 32
last_addr-lt e m v = bit_or_lt 32 (htonl e m.addr) _ (htonl-lt e m.addr v.word) (omega arith)

module _ (e : Endian) (q : In6Addr) (table : List Map4) (p : DynamicPool)
    (v : IsPool e table p) where
  free_bounds :
      (y : ℕ) → is_free y p.free_list ≡ true → (p.base < y) × (y < p.base + pool_max p + 1)
  free_bounds y f = (
    is_free-from y p.base (p.base + pool_max p + 1) p.free_list v.tiled f,
    is_free-below y p.base (p.base + pool_max p + 1) p.free_list v.tiled f,
  )

  pub free_in_pool : AllInPool e table p.map4 v.entry p.free_list
  free_in_pool = λ y f.
      let v4 : IsMap4 e p.map4 =
        All-Member (IsMap4 e) p.map4 table v.entry.table4.entries v.entry.listed in
      let bounds = free_bounds y f in
      let last = last_addr_lem e p.map4 v4 in
      let size = pool_max_lem p v.short in
      let word : last_addr e p.map4 < 2 ^ 32 = last_addr-lt e p.map4 v4 in
      (
        Covers-within e p.map4 (htonl e p.map4.addr) y v4 refl (omega (arith, v.base))
            (omega (arith, v.base)),
        omega (arith, v.base),
      )

  pub search-IsAnswer : IsAnswer e table p (search e q table p)
  unfolding search
  search-IsAnswer =
      let from = bit_or p.base (bit_and (base_of (pool_max p) p.map4.prefix_len q) (pool_max p)) in
      let end = p.base + pool_max p + 1 in
      let pass1 = search_pass e p.map4 table from end p.free_list in
      let pass2 = search_pass e p.map4 table p.base from p.free_list in
      elim (Option-cases pass1) [
        | inr ((x, r), h) ↦
            rw h (pass_some e table p.map4 v.entry from end x r p.free_list free_in_pool h)
        | inl n1 ↦ elim (Option-cases pass2) [
          | inr ((x, r), h) ↦
              rw (n1, h)
                (pass_some e table p.map4 v.entry p.base from x r p.free_list free_in_pool h)
          | inl n2 ↦
              rw (n1, n2)
                (λ y f. elim (Bool-cases (ltb y from)) [
                  | inl before ↦
                      pass_none e table p.map4 v.entry p.base from y p.free_list free_in_pool n2 f
                        (omega (arith, free_bounds y f)) (ground arith)
                  | inr after ↦
                      pass_none e table p.map4 v.entry from end y p.free_list free_in_pool n1 f
                        (ground arith) (free_bounds y f).1
                ])
        ]
      ]
