-- ===== src/Maps/Order.antt =====
-- Tables in falling order of prefix length: the first entry that passes a test is a longest one.
use tayga.Base.{
  ℕ, ◌≤◌, ◌≡◌, refl, subst, ◌⊎◌, inl, inr, arith, Bool, true, false, if◌then◌else◌, ltb, Option,
  none, some, List, [], ◌∷◌, All, All-map, Member, Bool-cases, Option-cases,
}
use tayga.Maps.Scan.{first, place}

module _ {ℓ} {A : Type ℓ} where
  pub All-place {κ} :
      (P : A → Type κ) (lower : A → Bool) (m : A) (xs : List A)
      → P m
      → All P xs
      → All P (place lower m xs)
  unfolding place
  All-place P lower m [] pm h = (pm, tt)
  All-place P lower m (x ∷ xs) pm h = elim (Bool-cases (lower x)) [
    | inl e ↦ rw e (pm, h)
    | inr e ↦ rw e (h.0, All-place P lower m xs pm h.1)
  ]

  pub first-some {κ} :
      (P : A → Type κ) (test : A → Bool) (xs : List A) (m : A)
      → All P xs
      → first test xs ≡ some m
      → P m × (test m ≡ true)
  unfolding first
  first-some P test [] m h e = cc
  first-some P test (x ∷ xs) m h e = elim (Bool-cases (test x)) [
    | inl t ↦
        let same : x ≡ m = ground arith in (subst P same h.0, subst (λ y. test y ≡ true) same t)
    | inr t ↦ first-some P test xs m h.1 (ground arith)
  ]

  pub first-none :
      (test : A → Bool) (xs : List A) → first test xs ≡ none → All (λ s. test s ≡ false) xs
  unfolding first
  first-none test [] e = tt
  first-none test (x ∷ xs) e = (ground arith, first-none test xs (ground arith))

pub first-Member :
    {A : Type 0} (test : A → Bool) (xs : List A) (m : A) → first test xs ≡ some m → Member m xs
unfolding first
first-Member test [] m e = cc
first-Member test (x ∷ xs) m e = elim (Bool-cases (test x)) [
  | inl t ↦ let same : m ≡ x = ground arith in inl same
  | inr t ↦ inr (first-Member test xs m (ground arith))
]

module _ {ℓ} {A : Type ℓ} (len : A → ℕ) where
  -- Longer prefixes first.
  abbrev pub IsFalling : List A → Type 0
  IsFalling [] = Unit
  IsFalling (x ∷ xs) = All (λ s. len s ≤ len x) xs × IsFalling xs

  abbrev pub lower_than : A → A → Bool
  lower_than m s = ltb (len s) (len m)

  pub place-IsFalling : (m : A) (xs : List A) → IsFalling xs → IsFalling (place (lower_than m) m xs)
  unfolding place
  place-IsFalling m [] h = (tt, tt)
  place-IsFalling m (x ∷ xs) h = elim (Bool-cases (lower_than m x)) [
    | inl e ↦
        let less : len x ≤ len m = ground arith in
        rw e ((less, All-map (λ s (q : len s ≤ len x). omega arith) xs h.0), h)
    | inr e ↦ rw e (
      All-place (λ s. len s ≤ len x) (lower_than m) m xs (ground arith) h.0,
      place-IsFalling m xs h.1,
    )
  ]

  -- Of two candidates the one with the longer prefix, the older one if they are equal.
  abbrev pub prefer : A → Option A → A
  prefer m none = m
  prefer m (some s) = if lower_than m s then m else s

  pub first-place :
      (test : A → Bool) (m : A) (xs : List A)
      → IsFalling xs
      → first test (place (lower_than m) m xs)
        ≡ (if test m then some (prefer m (first test xs)) else first test xs)
  unfolding first place
  first-place test m [] h = refl
  first-place test m (x ∷ xs) h = elim (Bool-cases (lower_than m x)) [
    | inl e ↦ elim (Option-cases (first test xs)) [
      | inl n ↦ ground arith
      | inr (s, q) ↦
          let shorter : len s ≤ len x = (first-some (λ y. len y ≤ len x) test xs s h.0 q).0 in
          ground arith
    ]
    | inr e ↦ ground (arith, first-place test m xs h.1)
  ]

  -- What is found has a prefix at least as long as any other entry that passes.
  pub first_longest :
      (test : A → Bool) (xs : List A) (m : A)
      → IsFalling xs
      → first test xs ≡ some m
      → All (λ s. (test s ≡ false) ⊎ (len s ≤ len m)) xs
  unfolding first
  first_longest test [] m h e = tt
  first_longest test (x ∷ xs) m h e = elim (Bool-cases (test x)) [
    | inl t ↦
        let same : x ≡ m = ground arith in
        subst (λ y. All (λ s. (test s ≡ false) ⊎ (len s ≤ len y)) (x ∷ xs)) same
          (inr (omega arith), All-map (λ s (q : len s ≤ len x). inr q) xs h.0)
    | inr t ↦ (inl t, first_longest test xs m h.1 (ground arith))
  ]
