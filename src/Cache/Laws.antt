-- ===== src/Cache/Laws.antt =====
-- The invariant of the cache: each slot is either free or active, and the buckets hold the active
-- entries.
use tayga.Base.{
  ℕ, ◌+◌, ◌≡◌, refl, sym, ◌∙◌, inl, inr, arith, Bool, true, false, ◌&&◌, ◌||◌, not, if◌then◌else◌,
  ◌==◌, ltb, none, some, List, [], ◌∷◌, Bool-cases, ==_refl, ==_iff, subst,
}
use tayga.Addr.{In6Addr}
use tayga.Cache.{
  Entry, Hashing, Cache, hash_ip4, hash_ip6, update, unlink, push_bucket, add_to_hash_table,
  lookup_pair, touch, take_slot, cache_insert, cache_found, drop_entry, age_entry, age_all,
  age_cache, cache_max_age,
}
use tayga.Cache.Slots.{has, IsNodup, has-unlink, unlink-IsNodup}

pub at_same : (a b : ℕ) → (a == b) ≡ true → (P : ℕ → Type 0) → P a → P b
at_same a b e P = subst P ((==_iff a b).0 e)

-- A field of the entries after a write.
pub update-other :
    (g : Entry → ℕ) (f : ℕ → Entry) (c d : ℕ) (v : Entry)
    → (c == d) ≡ false
    → g (update f c v d) ≡ g (f d)
update-other g f c d v e = rw e

pub update-same : (g : Entry → ℕ) (f : ℕ → Entry) (c : ℕ) (v : Entry) → g (update f c v c) ≡ g v
update-same g f c v = rw (==_refl c)

pub update-kept :
    (g : Entry → ℕ) (f : ℕ → Entry) (c d : ℕ) (v : Entry)
    → g v ≡ g (f c)
    → g (update f c v d) ≡ g (f d)
update-kept g f c d v e = elim (Bool-cases (c == d)) [
  | inl same ↦ at_same c d same (λ x. g (update f c v x) ≡ g (f x)) (update-same g f c v ∙ e)
  | inr other ↦ update-other g f c d v other
]

-- Bucket `h` of a chain holds the active slots whose key has the hash `h`.
abbrev pub IsChained : (ℕ → ℕ) → (ℕ → List ℕ) → List ℕ → Type 0
IsChained key table active = (h c : ℕ) → has c (table h) ≡ (has c active && (key c == h))

pub record IsCache (k : Hashing) (s : Cache) : Type 0 where
  pub pool_once : IsNodup s.cache_pool
  pub active_once : IsNodup s.cache_active
  pub apart : (c : ℕ) → (has c s.cache_pool && has c s.cache_active) ≡ false
  pub spread : (c : ℕ) → (has c s.cache_pool || has c s.cache_active) ≡ ltb c k.cache_size
  pub chain4 : IsChained (λ c. hash_ip4 k (s.entries c).addr4) s.hash_table4 s.cache_active
  pub chain6 : IsChained (λ c. hash_ip6 k (s.entries c).addr6) s.hash_table6 s.cache_active

unlink-IsChained :
    (key : ℕ → ℕ) (table : ℕ → List ℕ) (active : List ℕ) (d : ℕ)
    → IsChained key table active
    → IsChained key (λ h. unlink d (table h)) (unlink d active)
unlink-IsChained key table active d i h c =
    grind (arith, i h c, has-unlink d c (table h), has-unlink d c active)

-- A slot that was free enters the chain of its key.
push-IsChained :
    (old new : ℕ → ℕ) (table : ℕ → List ℕ) (active : List ℕ) (d : ℕ)
    → ((c : ℕ) → (d == c) ≡ false → new c ≡ old c)
    → IsChained old table active
    → has d active ≡ false
    → IsChained new (push_bucket table (new d) d) (d ∷ active)
push-IsChained old new table active d same i free h c = elim (Bool-cases (d == c)) [
  | inl e ↦
      at_same d c e
        (λ x. has x (push_bucket table (new d) d h) ≡ (has x (d ∷ active) && (new x == h)))
        (grind (arith, i h d, ==_refl d))
  | inr e ↦ grind (arith, i h c, same c e, e)
]

drop_entry-IsCache :
    (k : Hashing) (c : ℕ) (s : Cache)
    → IsCache k s
    → has c s.cache_active ≡ true
    → IsCache k (drop_entry c s)
unfolding drop_entry
drop_entry-IsCache k c s i m = record {
  pool_once = (grind (arith, i.apart c, m), i.pool_once);
  active_once = unlink-IsNodup c s.cache_active i.active_once;
  apart = λ d. grind (arith, i.apart d, has-unlink c d s.cache_active);
  spread = λ d. elim (Bool-cases (c == d)) [
    | inl e ↦
        at_same c d e
          (λ x. (has x (c ∷ s.cache_pool) || has x (unlink c s.cache_active)) ≡ ltb x k.cache_size)
          (grind (arith, i.spread c, m, ==_refl c))
    | inr e ↦ grind (arith, i.spread d, has-unlink c d s.cache_active, e)
  ];
  chain4 =
      unlink-IsChained (λ d. hash_ip4 k (s.entries d).addr4) s.hash_table4 s.cache_active c
        i.chain4;
  chain6 =
      unlink-IsChained (λ d. hash_ip6 k (s.entries d).addr6) s.hash_table6 s.cache_active c
        i.chain6;
}

abbrev pub is_old : ℕ → ℕ → Cache → Bool
is_old now c s = ltb ((s.entries c).last_use + cache_max_age) now

age_entry-IsCache :
    (k : Hashing) (now c : ℕ) (s : Cache)
    → IsCache k s
    → has c s.cache_active ≡ true
    → IsCache k (age_entry now c s)
unfolding age_entry
age_entry-IsCache k now c s i m =
    elim (is_old now c s) as (λ b. IsCache k (if b then drop_entry c s else s)) [
      | true ↦ drop_entry-IsCache k c s i m
      | false ↦ i
    ]

is_old-age_entry : (now c d : ℕ) (s : Cache) → is_old now d (age_entry now c s) ≡ is_old now d s
unfolding age_entry drop_entry
is_old-age_entry now c d s =
    elim (is_old now c s)
      as (λ b. is_old now d (if b then drop_entry c s else s) ≡ is_old now d s) [
        | true ↦ refl
        | false ↦ refl
      ]

-- A slot is unlinked on its own turn only.
pub has-age_entry :
    (now c d : ℕ) (s : Cache)
    → has d (age_entry now c s).cache_active
      ≡ (has d s.cache_active && not ((c == d) && is_old now d s))
unfolding age_entry drop_entry
has-age_entry now c d s = elim (Bool-cases (c == d)) [
  | inl e ↦
      at_same c d e
        (λ x.
          has x (age_entry now c s).cache_active
          ≡ (has x s.cache_active && not ((c == x) && is_old now x s)))
        (grind (arith, has-unlink c c s.cache_active, ==_refl c))
  | inr e ↦ grind (arith, has-unlink c d s.cache_active, e)
]

age_all-IsCache :
    (k : Hashing) (now : ℕ) (cs : List ℕ) (s : Cache)
    → IsCache k s
    → IsNodup cs
    → ((d : ℕ) → has d cs ≡ true → has d s.cache_active ≡ true)
    → IsCache k (age_all now cs s)
unfolding age_all
age_all-IsCache k now [] s i once all = i
age_all-IsCache k now (c ∷ cs) s i once all =
    age_all-IsCache k now cs (age_entry now c s)
      (age_entry-IsCache k now c s i (all c (grind (arith, ==_refl c)))) once.1
      (λ d m. grind (arith, has-age_entry now c d s, all d, once.0, at_same c d))

has-age_all :
    (now d : ℕ) (cs : List ℕ) (s : Cache)
    → has d (age_all now cs s).cache_active
      ≡ (has d s.cache_active && not (has d cs && is_old now d s))
unfolding age_all
has-age_all now d [] s = ground arith
has-age_all now d (c ∷ cs) s = grind (
  arith,
  has-age_all now d cs (age_entry now c s),
  has-age_entry now c d s,
  is_old-age_entry now c d s,
)

-- After the turn, the active entries are those that were active and are not old.
pub has-age_cache :
    (now d : ℕ) (s : Cache)
    → has d (age_cache now s).cache_active ≡ (has d s.cache_active && not (is_old now d s))
unfolding age_cache
has-age_cache now d s = grind (arith, has-age_all now d s.cache_active s)

pub age_cache-IsCache :
    (k : Hashing) (now : ℕ) (s : Cache) → IsCache k s → IsCache k (age_cache now s)
unfolding age_cache
age_cache-IsCache k now s i = age_all-IsCache k now s.cache_active s i i.active_once (λ d m. m)

pub touch-IsCache : (k : Hashing) (now c : ℕ) (s : Cache) → IsCache k s → IsCache k (touch now c s)
unfolding touch
touch-IsCache k now c s i = record {
  pool_once = i.pool_once;
  active_once = i.active_once;
  apart = i.apart;
  spread = i.spread;
  chain4 = λ h d. rw (
    update-kept (λ x. hash_ip4 k x.addr4) s.entries c d (record (s.entries c) { last_use = now })
        refl,
    i.chain4 h d,
  );
  chain6 = λ h d. rw (
    update-kept (λ x. hash_ip6 k x.addr6) s.entries c d (record (s.entries c) { last_use = now })
        refl,
    i.chain6 h d,
  );
}

take_slot-IsCache :
    (k : Hashing) (now a : ℕ) (q : In6Addr) (s : Cache) (pool : List ℕ)
    → pool ≡ s.cache_pool
    → IsCache k s
    → IsCache k (take_slot now a q (hash_ip4 k a) (hash_ip6 k q) s pool).1
unfolding take_slot add_to_hash_table
take_slot-IsCache k now a q s [] e i = i
take_slot-IsCache k now a q s (c ∷ rest) e i =
    let fresh : Entry = record { addr6 = q; addr4 = a; last_use = now; flags = 0; ip4_ident = 1 } in
    let once : IsNodup (c ∷ rest) = subst IsNodup (sym e) i.pool_once in
    let apart : (d : ℕ) → (has d (c ∷ rest) && has d s.cache_active) ≡ false =
      subst (λ p. (d : ℕ) → (has d p && has d s.cache_active) ≡ false) (sym e) i.apart in
    let free : has c s.cache_active ≡ false = grind (arith, apart c, ==_refl c) in
    record {
      pool_once = once.1;
      active_once = (free, i.active_once);
      apart = λ d. elim (Bool-cases (c == d)) [
        | inl e ↦ grind (arith, at_same c d e (λ x. has x rest ≡ false) once.0)
        | inr e ↦ grind (arith, apart d)
      ];
      spread = λ d.
          let all : (has d (c ∷ rest) || has d s.cache_active) ≡ ltb d k.cache_size =
            subst (λ p. (has d p || has d s.cache_active) ≡ ltb d k.cache_size) (sym e)
              (i.spread d) in
          grind (arith, all);
      chain4 =
          let key : ℕ → ℕ = λ d. hash_ip4 k (update s.entries c fresh d).addr4 in
          subst (λ x. IsChained key (push_bucket s.hash_table4 x c) (c ∷ s.cache_active))
            (update-same (λ x. hash_ip4 k x.addr4) s.entries c fresh)
            (push-IsChained (λ d. hash_ip4 k (s.entries d).addr4) key s.hash_table4 s.cache_active c
              (λ d. update-other (λ x. hash_ip4 k x.addr4) s.entries c d fresh) i.chain4 free);
      chain6 =
          let key : ℕ → ℕ = λ d. hash_ip6 k (update s.entries c fresh d).addr6 in
          subst (λ x. IsChained key (push_bucket s.hash_table6 x c) (c ∷ s.cache_active))
            (update-same (λ x. hash_ip6 k x.addr6) s.entries c fresh)
            (push-IsChained (λ d. hash_ip6 k (s.entries d).addr6) key s.hash_table6 s.cache_active c
              (λ d. update-other (λ x. hash_ip6 k x.addr6) s.entries c d fresh) i.chain6 free);
    }

pub cache_insert-IsCache :
    (k : Hashing) (now a : ℕ) (q : In6Addr) (s : Cache)
    → IsCache k s
    → IsCache k (cache_insert now a q (hash_ip4 k a) (hash_ip6 k q) s).1
unfolding cache_insert
cache_insert-IsCache k now a q s i =
    elim (lookup_pair a q (hash_ip4 k a) s)
      as (λ o. IsCache k (cache_found now a q (hash_ip4 k a) (hash_ip6 k q) s o).1) [
        | some c ↦ touch-IsCache k now c s i
        | none ↦ take_slot-IsCache k now a q s s.cache_pool refl i
      ]
