-- ===== src/Pool/Runs.antt =====
-- The runs of free addresses tile the pool, before and after an address is taken out or given back.
use tayga.Base.{
  ℕ, ◌+◌, ◌-◌, ◌≤◌, ◌<◌, ◌≡◌, refl, ap, ◌∙◌, subst, ◌⊎◌, inl, inr, arith, Bool, true, false, ◌&&◌,
  ◌||◌, not, ◌==◌, ltb, leb, ==_iff, ==_ne, ==_refl, Bool-cases, List, [], ◌∷◌, length,
}
use mathlib.Core.Bool.{false≢true}
use tayga.Pool.{FreeAddr, split}
use tayga.Pool.Maint.{merge, free_count}

-- Each run ends where the next address in use begins.
abbrev pub IsTiled : ℕ → ℕ → List FreeAddr → Type 0
IsTiled from end [] = from ≡ end
IsTiled from end (r ∷ rs) = (r.addr ≡ from) × IsTiled (r.addr + r.count + 1) end rs

-- The address is in one of the runs.
abbrev pub is_free : ℕ → List FreeAddr → Bool
is_free a [] = false
is_free a (r ∷ rs) = (ltb r.addr a && leb a (r.addr + r.count)) || is_free a rs

-- `a` is free in the run that begins at `f`.
abbrev pub FreeAt : ℕ → ℕ → List FreeAddr → Type 0
FreeAt f a [] = ⊥
FreeAt f a (r ∷ rs) = ((r.addr ≡ f) × (f < a) × (a ≤ f + r.count)) ⊎ FreeAt f a rs

FreeAt-from :
    (f a from end : ℕ) (rs : List FreeAddr)
    → IsTiled from end rs
    → FreeAt f a rs
    → (from ≤ f) × (f < a)
FreeAt-from f a from end [] t h = absurd h
FreeAt-from f a from end (r ∷ rs) t (inl h) = omega arith
FreeAt-from f a from end (r ∷ rs) t (inr h) =
    omega (arith, FreeAt-from f a (r.addr + r.count + 1) end rs t.1 h)

split_here :
    (f a : ℕ) (r : FreeAddr) (rs : List FreeAddr)
    → r.addr ≡ f
    → split f a (r ∷ rs)
      ≡ record { addr = r.addr; count = a - r.addr - 1 }
        ∷ record { addr = a; count = r.count - (a - r.addr) }
        ∷ rs
unfolding split
split_here f a r rs e = rw ((==_iff r.addr f).1 e)

split_there :
    (f a end : ℕ) (r : FreeAddr) (rs : List FreeAddr)
    → IsTiled (r.addr + r.count + 1) end rs
    → FreeAt f a rs
    → split f a (r ∷ rs) ≡ r ∷ split f a rs
unfolding split
split_there f a end r rs t h =
    rw (==_ne r.addr f (λ e. omega (arith, FreeAt-from f a (r.addr + r.count + 1) end rs t h)))

pub split-IsTiled :
    (f a from end : ℕ) (rs : List FreeAddr)
    → IsTiled from end rs
    → FreeAt f a rs
    → IsTiled from end (split f a rs)
split-IsTiled f a from end [] t h = absurd h
split-IsTiled f a from end (r ∷ rs) t (inl h) =
    rw (split_here f a r rs h.0)
      (t.0, (omega arith, subst (λ x. IsTiled x end rs) (omega arith) t.1))
split-IsTiled f a from end (r ∷ rs) t (inr h) =
    rw (split_there f a end r rs t.1 h) (t.0, split-IsTiled f a (r.addr + r.count + 1) end rs t.1 h)

pub merge-IsTiled :
    (a from end : ℕ) (rs : List FreeAddr) → IsTiled from end rs → IsTiled from end (merge a rs)
unfolding merge
merge-IsTiled a from end [] t = t
merge-IsTiled a from end (f ∷ []) t = t
merge-IsTiled a from end (f ∷ r ∷ rs) t = elim (Bool-cases (r.addr == a)) [
  | inl e ↦ rw e (t.0, subst (λ x. IsTiled x end rs) (omega arith) t.1.1)
  | inr e ↦ rw e (t.0, merge-IsTiled a (f.addr + f.count + 1) end (r ∷ rs) t.1)
]

merge_skip :
    (a from end : ℕ) (r : FreeAddr) (rs : List FreeAddr)
    → IsTiled from end rs
    → from < a
    → merge a (r ∷ rs) ≡ r ∷ merge a rs
unfolding merge
merge_skip a from end r [] t h = refl
merge_skip a from end r (r2 ∷ rs) t h = rw (==_ne r2.addr a (λ e. omega arith))

-- The run comes back as it was.
pub merge-split :
    (f a from end : ℕ) (rs : List FreeAddr)
    → IsTiled from end rs
    → FreeAt f a rs
    → merge a (split f a rs) ≡ rs
unfolding merge
merge-split f a from end [] t h = absurd h
merge-split f a from end (r ∷ rs) t (inl h) =
    let whole : a - r.addr - 1 + (r.count - (a - r.addr) + 1) ≡ r.count = omega arith in
    rw (split_here f a r rs h.0, ==_refl a) (λ i. record { addr = r.addr; count = whole i } ∷ rs)
merge-split f a from end (r ∷ rs) t (inr h) =
    let low = FreeAt-from f a (r.addr + r.count + 1) end rs t.1 h in
    rw (split_there f a end r rs t.1 h) (
      merge_skip a (r.addr + r.count + 1) end r (split f a rs)
        (split-IsTiled f a (r.addr + r.count + 1) end rs t.1 h) (omega arith)
      ∙ ap (λ x. r ∷ x) (merge-split f a (r.addr + r.count + 1) end rs t.1 h))

pub is_free-from :
    (b from end : ℕ) (rs : List FreeAddr) → IsTiled from end rs → is_free b rs ≡ true → from < b
is_free-from b from end [] t h = absurd (false≢true h)
is_free-from b from end (r ∷ rs) t h =
    ground (arith, is_free-from b (r.addr + r.count + 1) end rs t.1)

-- Taking an address makes that one busy and no other.
pub is_free-split :
    (f a b from end : ℕ) (rs : List FreeAddr)
    → IsTiled from end rs
    → FreeAt f a rs
    → is_free b (split f a rs) ≡ (is_free b rs && not (a == b))
is_free-split f a b from end [] t h = absurd h
is_free-split f a b from end (r ∷ rs) t (inl h) =
    rw (split_here f a r rs h.0) (ground (arith, is_free-from b (r.addr + r.count + 1) end rs t.1))
is_free-split f a b from end (r ∷ rs) t (inr h) = rw (split_there f a end r rs t.1 h) (
    ground (
      arith,
      is_free-split f a b (r.addr + r.count + 1) end rs t.1 h,
      FreeAt-from f a (r.addr + r.count + 1) end rs t.1 h,
    ))

-- All addresses of the pool are in use or free.
pub free_count-IsTiled :
    (from end : ℕ) (rs : List FreeAddr)
    → IsTiled from end rs
    → from + (free_count rs + length rs) ≡ end
unfolding free_count
free_count-IsTiled from end [] t = omega arith
free_count-IsTiled from end (r ∷ rs) t =
    omega (arith, free_count-IsTiled (r.addr + r.count + 1) end rs t.1)

pub IsTiled-le : (from end : ℕ) (rs : List FreeAddr) → IsTiled from end rs → from ≤ end
IsTiled-le from end [] t = omega arith
IsTiled-le from end (r ∷ rs) t = omega (arith, IsTiled-le (r.addr + r.count + 1) end rs t.1)

pub is_free-below :
    (b from end : ℕ) (rs : List FreeAddr) → IsTiled from end rs → is_free b rs ≡ true → b < end
is_free-below b from end [] t h = absurd (false≢true h)
is_free-below b from end (r ∷ rs) t h = ground (
  arith,
  IsTiled-le (r.addr + r.count + 1) end rs t.1,
  is_free-below b (r.addr + r.count + 1) end rs t.1,
)
