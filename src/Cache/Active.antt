-- ===== src/Cache/Active.antt =====
-- A property of the pairs in the active entries, through the operations on the cache.
use tayga.Base.{ℕ, ◌≡◌, inl, inr, arith, true, false, ◌==◌, none, some, List, [], ◌∷◌, Bool-cases}
use tayga.Addr.{In6Addr}
use tayga.Cache.{
  Entry, Cache, update, lookup_pair, touch, take_slot, cache_found, cache_insert, add_to_hash_table,
}
use tayga.Cache.Slots.{has}
use tayga.Cache.Laws.{at_same}

module _ (P : ℕ → In6Addr → Type 0) where
  abbrev pub Holds : Entry → Type 0
  Holds v = P v.addr4 v.addr6

  abbrev pub AllActive : Cache → Type 0
  AllActive s = (c : ℕ) → has c s.cache_active ≡ true → Holds (s.entries c)

  -- A write of an entry that has the property.
  pub Holds-update :
      (f : ℕ → Entry) (c d : ℕ) (v : Entry)
      → Holds v
      → ((c == d) ≡ false → Holds (f d))
      → Holds (update f c v d)
  Holds-update f c d v h k = elim (Bool-cases (c == d)) [
    | inl same ↦ rw same h
    | inr other ↦ rw other (k other)
  ]

  pub touch-AllActive : (now c : ℕ) (s : Cache) → AllActive s → AllActive (touch now c s)
  unfolding touch
  touch-AllActive now c s h = λ d m. elim (Bool-cases (c == d)) [
    | inl same ↦ rw same (at_same d c (ground arith) (λ x. Holds (s.entries x)) (h d m))
    | inr other ↦ rw other (h d m)
  ]

  take_slot-AllActive :
      (now a : ℕ) (q : In6Addr) (h4 h6 : ℕ) (s : Cache) (pool : List ℕ)
      → P a q
      → AllActive s
      → AllActive (take_slot now a q h4 h6 s pool).1
  unfolding take_slot add_to_hash_table
  take_slot-AllActive now a q h4 h6 s [] p h = h
  take_slot-AllActive now a q h4 h6 s (c ∷ rest) p h = λ d m. elim (Bool-cases (c == d)) [
    | inl same ↦ rw same p
    | inr other ↦ rw other (h d (grind (arith, m, other)))
  ]

  pub cache_insert-AllActive :
      (now a : ℕ) (q : In6Addr) (h4 h6 : ℕ) (s : Cache)
      → P a q
      → AllActive s
      → AllActive (cache_insert now a q h4 h6 s).1
  unfolding cache_insert cache_found
  cache_insert-AllActive now a q h4 h6 s p h =
      elim (lookup_pair a q h4 s) as (λ o. AllActive (cache_found now a q h4 h6 s o).1) [
        | some c ↦ touch-AllActive now c s h
        | none ↦ take_slot-AllActive now a q h4 h6 s s.cache_pool p h
      ]
