-- ===== src/Handlers/Steady.antt =====
-- The handlers' writes to the cache keep it well formed, and a property of its pairs.
use tayga.Base.{
  ℕ, ◌≡◌, refl, inl, inr, arith, Bool, true, ◌&&◌, ◌==◌, ltb, bit_or, Option, none, some,
  Bool-cases,
}
use tayga.Addr.{In6Addr}
use tayga.Cache.{Entry, Hashing, Cache, hash_ip4, hash_ip6, touch, cache_insert}
use tayga.Cache.Laws.{at_same, update-kept, IsCache, touch-IsCache, cache_insert-IsCache}
use tayga.Cache.Active.{AllActive, Holds, touch-AllActive, cache_insert-AllActive}
use tayga.Handlers.{Store, mark_used, report_later, attach, publish, cache_f_rep_ageout}

report_later-IsCache :
    (k : Hashing) (o : Option ℕ) (s : Cache) → IsCache k s → IsCache k (report_later o s)
report_later-IsCache k none s i = i
report_later-IsCache k (some c) s i =
    let v : Entry = record (s.entries c) {
      flags = bit_or (s.entries c).flags cache_f_rep_ageout;
    } in
    record {
      pool_once = i.pool_once;
      active_once = i.active_once;
      apart = i.apart;
      spread = i.spread;
      chain4 = λ h d. rw (update-kept (λ x. hash_ip4 k x.addr4) s.entries c d v refl, i.chain4 h d);
      chain6 = λ h d. rw (update-kept (λ x. hash_ip6 k x.addr6) s.entries c d v refl, i.chain6 h d);
    }

report_later-AllActive :
    (P : ℕ → In6Addr → Type 0) (o : Option ℕ) (s : Cache)
    → AllActive P s
    → AllActive P (report_later o s)
report_later-AllActive P none s h = h
report_later-AllActive P (some c) s h = λ d m. elim (Bool-cases (c == d)) [
  | inl same ↦ rw same (at_same d c (ground arith) (λ x. Holds P (s.entries x)) (h d m))
  | inr other ↦ rw other (h d m)
]

-- What the cache promises: it is well formed, and its pairs have the property.
pub record IsSteady (P : ℕ → In6Addr → Type 0) (k : Hashing) (s : Cache) : Type 0 where
  pub cache : IsCache k s
  pub active : AllActive P s

module _ (P : ℕ → In6Addr → Type 0) (k : Hashing) where
  insert-IsSteady :
      (now a : ℕ) (q : In6Addr) (s : Cache)
      → P a q
      → IsSteady P k s
      → IsSteady P k (cache_insert now a q (hash_ip4 k a) (hash_ip6 k q) s).1
  insert-IsSteady now a q s p i = record {
    cache = cache_insert-IsCache k now a q s i.cache;
    active = cache_insert-AllActive P now a q (hash_ip4 k a) (hash_ip6 k q) s p i.active;
  }

  attach-IsSteady :
      (d : Option ℕ) (r : Option ℕ × Cache) (s : Store)
      → IsSteady P k r.1
      → IsSteady P k (attach d r s).cache
  attach-IsSteady none r s i = i
  attach-IsSteady (some o) r s i = record {
    cache = report_later-IsCache k r.0 r.1 i.cache;
    active = report_later-AllActive P r.0 r.1 i.active;
  }

  cache-mark_used : (now : ℕ) (d : Option ℕ) (s : Store) → (mark_used now d s).cache ≡ s.cache
  cache-mark_used now none s = refl
  cache-mark_used now (some o) s = refl

  pub publish-IsSteady :
      (now a : ℕ) (q : In6Addr) (pair : Bool) (d : Option ℕ) (s : Store)
      → (pair ≡ true → P a q)
      → IsSteady P k s.cache
      → IsSteady P k (publish k now a q pair d s).cache
  unfolding publish
  publish-IsSteady now a q pair d s p i =
      let kept : IsSteady P k (mark_used now d s).cache = rw (cache-mark_used now d s) i in
      elim (Bool-cases (ltb 0 k.cache_size && pair)) [
        | inl both ↦ rw both (
            attach-IsSteady d
              (cache_insert now a q (hash_ip4 k a) (hash_ip6 k q) (mark_used now d s).cache)
              (mark_used now d s)
              (insert-IsSteady now a q (mark_used now d s).cache (p (ground arith)) kept))
        | inr skip ↦ rw skip kept
      ]

  pub touch-IsSteady : (now c : ℕ) (s : Cache) → IsSteady P k s → IsSteady P k (touch now c s)
  touch-IsSteady now c s i = record {
    cache = touch-IsCache k now c s i.cache;
    active = touch-AllActive P now c s i.active;
  }
