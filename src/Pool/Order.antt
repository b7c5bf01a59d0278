-- ===== src/Pool/Order.antt =====
-- The dormant mappings are kept in order of use, so that the oldest ones stand at the end.
use tayga.Base.{
  ℕ, ◌+◌, ◌≤◌, ◌<◌, ◌≡◌, refl, ap, ◌∙◌, subst, inl, inr, arith, true, false, if◌then◌else◌, leb,
  Bool-cases, Option, none, some, List, [], ◌∷◌, ◌++◌, All, All-map,
}
use tayga.Word.{Endian, htonl}
use tayga.Maps.Scan.{place}
use tayga.Maps.Order.{IsFalling, lower_than, place-IsFalling}
use tayga.Pool.{FreeAddr, MapDynamic, place_dormant, insert_dormant, last_of}
use tayga.Pool.Maint.{expire, expire_front, merge}
use tayga.Pool.Runs.{IsTiled, merge-IsTiled}

abbrev pub use_of : MapDynamic → ℕ
use_of d = d.last_use

place_dormant_lem :
    (d : MapDynamic) (ds : List MapDynamic) → place_dormant d ds ≡ place (lower_than use_of d) d ds
unfolding place_dormant place
place_dormant_lem d [] = refl
place_dormant_lem d (s ∷ ds) = ground (arith, place_dormant_lem d ds)

some_same : {x y : MapDynamic} → some x ≡ some y → x ≡ y
some_same h = cc

last-least :
    (s : MapDynamic) (ds : List MapDynamic)
    → last_of ds ≡ some s
    → IsFalling use_of ds
    → All (λ x. s.last_use ≤ x.last_use) ds
last-least s [] e h = tt
last-least s (x ∷ []) e h =
    (subst (λ (y : MapDynamic). y.last_use ≤ x.last_use) (some_same e) (omega arith), tt)
last-least s (x ∷ y ∷ ds) e h =
    let rest = last-least s (y ∷ ds) e h.1 in (omega (arith, rest.0, h.0.0), rest)

append-place :
    (d : MapDynamic) (ds : List MapDynamic)
    → All (λ x. d.last_use ≤ x.last_use) ds
    → ds ++ (d ∷ []) ≡ place_dormant d ds
unfolding place_dormant
append-place d [] h = refl
append-place d (x ∷ ds) h = ground (arith, append-place d ds h.1)

has_last : (y : MapDynamic) (ds : List MapDynamic) → last_of (y ∷ ds) ≡ none → ⊥
has_last y [] e = cc
has_last y (z ∷ ds) e = has_last z ds e

pub no_last : (ds : List MapDynamic) → last_of ds ≡ none → ds ≡ []
no_last [] e = refl
no_last (x ∷ ds) e = absurd (has_last x ds e)

-- The end of the list as a shortcut gives what the walk gives.
pub insert_dormant_lem :
    (d : MapDynamic) (ds : List MapDynamic)
    → IsFalling use_of ds
    → insert_dormant d ds (last_of ds) ≡ place_dormant d ds
unfolding insert_dormant place_dormant
insert_dormant_lem d ds h = go (last_of ds) refl
  where
    go : (o : Option MapDynamic) → last_of ds ≡ o → insert_dormant d ds o ≡ place_dormant d ds
    go none e = rw (no_last ds e)
    go (some s) e = elim (Bool-cases (leb d.last_use s.last_use)) [
      | inl le ↦ rw le (
          append-place d ds
            (All-map (λ x (k : s.last_use ≤ x.last_use). ground arith) ds (last-least s ds e h)))
      | inr more ↦ rw more
    ]

pub insert_dormant-IsFalling :
    (d : MapDynamic) (ds : List MapDynamic)
    → IsFalling use_of ds
    → IsFalling use_of (insert_dormant d ds (last_of ds))
insert_dormant-IsFalling d ds h =
    rw (insert_dormant_lem d ds h, place_dormant_lem d ds) (place-IsFalling use_of d ds h)

-- Those that were used within the lease.
abbrev pub recent : ℕ → ℕ → List MapDynamic → List MapDynamic
recent now lease [] = []
recent now lease (d ∷ ds) =
    if leb now (d.last_use + lease) then d ∷ recent now lease ds else recent now lease ds

recent-none :
    (now lease bound : ℕ) (ds : List MapDynamic)
    → All (λ s. s.last_use ≤ bound) ds
    → bound + lease < now
    → recent now lease ds ≡ []
recent-none now lease bound [] h old = refl
recent-none now lease bound (d ∷ ds) h old =
    let below = h.0 in ground (arith, recent-none now lease bound ds h.1 old)

abbrev kept_front : ℕ → ℕ → MapDynamic → List MapDynamic → List MapDynamic
kept_front now lease d [] = if leb now (d.last_use + lease) then d ∷ [] else []
kept_front now lease d (x ∷ xs) = d ∷ x ∷ xs

front_lem :
    (e : Endian) (now lease : ℕ) (d : MapDynamic) (r : List MapDynamic × List FreeAddr)
    → (expire_front e now lease d r).0 ≡ kept_front now lease d r.0
unfolding expire_front
front_lem e now lease d ([], rs) = ground arith
front_lem e now lease d (x ∷ xs, rs) = refl

kept_recent :
    (now lease : ℕ) (d : MapDynamic) (xs : List MapDynamic)
    → leb now (d.last_use + lease) ≡ true
    → kept_front now lease d xs ≡ d ∷ xs
kept_recent now lease d [] h = rw h
kept_recent now lease d (x ∷ xs) h = refl

-- Stopping at the first recent one from the end leaves all the recent ones and no other.
pub expire-recent :
    (e : Endian) (now lease : ℕ) (ds : List MapDynamic) (runs : List FreeAddr)
    → IsFalling use_of ds
    → (expire e now lease ds runs).0 ≡ recent now lease ds
unfolding expire
expire-recent e now lease [] runs h = refl
expire-recent e now lease (d ∷ ds) runs h =
    front_lem e now lease d (expire e now lease ds runs)
    ∙ ap (kept_front now lease d) (expire-recent e now lease ds runs h.1)
    ∙ elim (Bool-cases (leb now (d.last_use + lease))) [
      | inl fresh ↦ rw fresh (kept_recent now lease d (recent now lease ds) fresh)
      | inr old ↦ rw (old, recent-none now lease d.last_use ds h.0 (ground arith), old)
    ]

pub expire-IsTiled :
    (e : Endian) (now lease from end : ℕ) (ds : List MapDynamic) (runs : List FreeAddr)
    → IsTiled from end runs
    → IsTiled from end (expire e now lease ds runs).1
unfolding expire expire_front
expire-IsTiled e now lease from end [] runs t = t
expire-IsTiled e now lease from end (d ∷ ds) runs t =
    front (expire e now lease ds runs) (expire-IsTiled e now lease from end ds runs t)
  where
    front :
        (r : List MapDynamic × List FreeAddr)
        → IsTiled from end r.1
        → IsTiled from end (expire_front e now lease d r).1
    front (x ∷ xs, rs) t = t
    front ([], rs) t =
        elim (leb now (d.last_use + lease))
          as (λ b.
            IsTiled from end
              (if◌then◌else◌ {A = List MapDynamic × List FreeAddr} b (d ∷ [], rs)
                ([], merge (htonl e d.map4.addr) rs)).1) [
                  | true ↦ t
                  | false ↦ merge-IsTiled (htonl e d.map4.addr) from end rs t
                ]
