-- ===== src/Cache/Lookup.antt =====
-- What a search of a bucket finds, and the buckets that `create_cache` makes.
use tayga.Base.{
  ℕ, ◌≡◌, refl, sym, ap, ◌∙◌, ◌⊎◌, ltb, inl, inr, arith, Bool, true, false, ◌&&◌, ◌||◌, ◌==◌,
  Option, none, some, List, [], ◌∷◌, ◌++◌, Bool-cases, ==_refl, ==_iff,
}
use tayga.Addr.{In6Addr}
use tayga.Maps.Scan.{first}
use tayga.Resolve.{in6_are_addr_equal}
use tayga.Cache.{
  Entry, Hashing, Cache, hash_ip4, hash_ip6, push_bucket, add_to_hash_table, lookup4, lookup6,
  slots_from, no_buckets, hash_all, is_empty, create_cache,
}
use tayga.Cache.Slots.{has, slots_from-has, slots_from-IsNodup, first-has, first-no_slot}
use tayga.Cache.Laws.{at_same, IsChained, IsCache}

-- The entry that a search gives passes the test and is active; without one, no active entry passes.
abbrev pub IsFound : (ℕ → Bool) → List ℕ → Option ℕ → Type 0
IsFound test active (some c) = (has c active ≡ true) × (test c ≡ true)
IsFound test active none = (c : ℕ) → has c active ≡ true → test c ≡ false

pub in6_equal : (a b : In6Addr) → in6_are_addr_equal a b ≡ true → a ≡ b
in6_equal a b e = λ i. record {
  w0 = ((==_iff a.w0 b.w0).0 (ground arith)) i;
  w1 = ((==_iff a.w1 b.w1).0 (ground arith)) i;
  w2 = ((==_iff a.w2 b.w2).0 (ground arith)) i;
  w3 = ((==_iff a.w3 b.w3).0 (ground arith)) i;
}

first-IsFound :
    (key : ℕ → ℕ) (table : ℕ → List ℕ) (active : List ℕ) (test : ℕ → Bool) (h : ℕ) (o : Option ℕ)
    → IsChained key table active
    → ((c : ℕ) → test c ≡ true → key c ≡ h)
    → first test (table h) ≡ o
    → IsFound test active o
first-IsFound key table active test h (some c) chain keyed e =
    let found : (has c (table h) ≡ true) × (test c ≡ true) = first-has test (table h) c e in
    (grind (arith, chain h c, found.0), found.1)
first-IsFound key table active test h none chain keyed e = λ c m. elim (Bool-cases (test c)) [
  | inr fail ↦ fail
  | inl pass ↦
      grind (arith, first-no_slot test (table h) c e, chain h c, keyed c pass, ==_refl h, pass, m)
]

pub lookup4-IsFound :
    (k : Hashing) (a : ℕ) (s : Cache)
    → IsCache k s
    → IsFound (λ c. a == (s.entries c).addr4) s.cache_active (lookup4 k a s)
unfolding lookup4
lookup4-IsFound k a s i =
    first-IsFound (λ c. hash_ip4 k (s.entries c).addr4) s.hash_table4 s.cache_active
      (λ c. a == (s.entries c).addr4) (hash_ip4 k a) (lookup4 k a s) i.chain4
      (λ c e. ap (hash_ip4 k) (sym ((==_iff a (s.entries c).addr4).0 e))) refl

pub lookup6-IsFound :
    (k : Hashing) (q : In6Addr) (s : Cache)
    → IsCache k s
    → IsFound (λ c. in6_are_addr_equal q (s.entries c).addr6) s.cache_active (lookup6 k q s)
unfolding lookup6
lookup6-IsFound k q s i =
    first-IsFound (λ c. hash_ip6 k (s.entries c).addr6) s.hash_table6 s.cache_active
      (λ c. in6_are_addr_equal q (s.entries c).addr6) (hash_ip6 k q) (lookup6 k q s) i.chain6
      (λ c e. ap (hash_ip6 k) (sym (in6_equal q (s.entries c).addr6 e))) refl

-- Each slot of a list pushed onto the bucket of its key.
push_all : (ℕ → ℕ) → List ℕ → (ℕ → List ℕ) → ℕ → List ℕ
push_all key [] table = table
push_all key (c ∷ cs) table = push_all key cs (push_bucket table (key c) c)

has-push :
    (table : ℕ → List ℕ) (key : ℕ → ℕ) (d c h : ℕ)
    → has c (push_bucket table (key d) d h) ≡ (((d == c) && (key c == h)) || has c (table h))
has-push table key d c h = elim (Bool-cases (d == c)) [
  | inl e ↦
      at_same d c e
        (λ x.
          has x (push_bucket table (key d) d h) ≡ (((d == x) && (key x == h)) || has x (table h)))
        (grind (arith, ==_refl d))
  | inr e ↦ grind (arith, e)
]

has-push_all :
    (key : ℕ → ℕ) (c h : ℕ) (cs : List ℕ) (table : ℕ → List ℕ)
    → has c (push_all key cs table h) ≡ (has c (table h) || (has c cs && (key c == h)))
unfolding push_all
has-push_all key c h [] table = ground arith
has-push_all key c h (d ∷ cs) table =
    grind (arith, has-push_all key c h cs (push_bucket table (key d) d), has-push table key d c h)

-- The loop of `create_cache` over the active entries.
hash_all_lem :
    (k : Hashing) (cs : List ℕ) (s : Cache)
    → hash_all k cs s ≡ record s {
      hash_table4 = push_all (λ c. hash_ip4 k (s.entries c).addr4) cs s.hash_table4;
      hash_table6 = push_all (λ c. hash_ip6 k (s.entries c).addr6) cs s.hash_table6;
    }
unfolding hash_all add_to_hash_table push_all
hash_all_lem k [] s = refl
hash_all_lem k (d ∷ cs) s =
    hash_all_lem k cs
      (add_to_hash_table d (hash_ip4 k (s.entries d).addr4) (hash_ip6 k (s.entries d).addr6) s)

push_all-IsChained :
    (key : ℕ → ℕ) (active : List ℕ) → IsChained key (push_all key active no_buckets) active
push_all-IsChained key active h c = grind (arith, has-push_all key c h active no_buckets)

is_empty_lem : (xs : List ℕ) → is_empty xs ≡ true → xs ≡ []
is_empty_lem [] e = refl
is_empty_lem (x ∷ xs) e = ground arith

fresh-IsCache :
    (k : Hashing) (storage : ℕ → Entry) (pool active : List ℕ)
    → (is_empty pool && is_empty active) ≡ true
    → IsCache k (record {
      entries = storage;
      cache_pool = pool ++ slots_from 0 k.cache_size;
      cache_active = active;
      hash_table4 = no_buckets;
      hash_table6 = no_buckets;
    })
fresh-IsCache k storage [] [] e = record {
  pool_once = slots_from-IsNodup 0 k.cache_size;
  active_once = tt;
  apart = λ c. ground arith;
  spread = λ c. ground (arith, slots_from-has c 0 k.cache_size);
  chain4 = λ h c. refl;
  chain6 = λ h c. refl;
}
fresh-IsCache k storage (x ∷ pool) active e = absurd (ground arith)
fresh-IsCache k storage [] (x ∷ active) e = absurd (ground arith)

none_active : (xs : List ℕ) (c : ℕ) → is_empty xs ≡ true → has c xs ≡ true → ⊥
none_active [] c e m = ground arith
none_active (x ∷ xs) c e m = ground arith

same_size :
    (k old : Hashing) (s : Cache)
    → (is_empty s.cache_pool && is_empty s.cache_active) ≡ false
    → ((s.cache_pool ≡ []) × (s.cache_active ≡ [])) ⊎ (k.cache_size ≡ old.cache_size)
    → k.cache_size ≡ old.cache_size
same_size k old s kept (inl (p, a)) = absurd (ground (arith, ap is_empty p, ap is_empty a))
same_size k old s kept (inr same) = same

-- Of a well-formed cache, whatever it was hashed by, `create_cache` makes one that is well-formed under
-- the hashing that it is given: each slot below the size is either free or active, so that an empty
-- cache is given all of them as free. The active entries stay the same, in the same order. The size
-- may change only if the cache is empty, without free and active slots.
pub create_cache-IsCache :
    (k old : Hashing) (storage : ℕ → Entry) (s : Cache)
    → IsCache old s
    → ((s.cache_pool ≡ []) × (s.cache_active ≡ [])) ⊎ (k.cache_size ≡ old.cache_size)
    → IsCache k (create_cache k storage s)
      × ((create_cache k storage s).cache_active ≡ s.cache_active)
      × ((c : ℕ) → has c s.cache_active ≡ true → (create_cache k storage s).entries c ≡ s.entries c)
unfolding create_cache
create_cache-IsCache k old storage s i size =
    elim (Bool-cases (is_empty s.cache_pool && is_empty s.cache_active)) [
      | inl fresh ↦ rw fresh (
        fresh-IsCache k storage s.cache_pool s.cache_active fresh,
        refl,
        λ c m. absurd (none_active s.cache_active c (ground arith) m),
      )
      | inr kept ↦
          let same : k.cache_size ≡ old.cache_size = same_size k old s kept size in
          rw
            (
              kept,
              hash_all_lem k s.cache_active
                  (record s { hash_table4 = no_buckets; hash_table6 = no_buckets }),
            )
            (
              record {
                pool_once = i.pool_once;
                active_once = i.active_once;
                apart = i.apart;
                spread = λ c. i.spread c ∙ ap (ltb c) (sym same);
                chain4 = push_all-IsChained (λ c. hash_ip4 k (s.entries c).addr4) s.cache_active;
                chain6 = push_all-IsChained (λ c. hash_ip6 k (s.entries c).addr6) s.cache_active;
              },
              refl,
              λ c m. refl,
            )
    ]
