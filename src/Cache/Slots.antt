-- ===== src/Cache/Slots.antt =====
-- Membership in the slot lists of the cache.
use tayga.Base.{
  ℕ, zero, suc, ◌≤◌, ◌≡◌, refl, arith, Bool, true, false, ◌&&◌, ◌||◌, not, ◌==◌, ◌+◌, leb, ltb,
  none, some, List, [], ◌∷◌,
}
use tayga.Maps.Scan.{first}
use tayga.Cache.{unlink, slots_from}

abbrev pub has : ℕ → List ℕ → Bool
has c [] = false
has c (x ∷ xs) = x == c || has c xs

-- No slot stands twice.
abbrev pub IsNodup : List ℕ → Type 0
IsNodup [] = Unit
IsNodup (x ∷ xs) = (has x xs ≡ false) × IsNodup xs

pub has-unlink : (c d : ℕ) (xs : List ℕ) → has d (unlink c xs) ≡ (has d xs && not (c == d))
unfolding unlink
has-unlink c d [] = refl
has-unlink c d (x ∷ xs) = ground (arith, has-unlink c d xs)

pub unlink-IsNodup : (c : ℕ) (xs : List ℕ) → IsNodup xs → IsNodup (unlink c xs)
unfolding unlink
unlink-IsNodup c [] h = tt
unlink-IsNodup c (x ∷ xs) h = ground (arith, unlink-IsNodup c xs h.1, has-unlink c x xs)

pub has-slots_from : (c i n : ℕ) → has c (slots_from i n) ≡ true → i ≤ c
unfolding slots_from
has-slots_from c i zero h = ground arith
has-slots_from c i (suc n) h = ground (arith, has-slots_from c (suc i) n)

pub slots_from-has : (c i n : ℕ) → has c (slots_from i n) ≡ (leb i c && ltb c (i + n))
unfolding slots_from
slots_from-has c i zero = ground arith
slots_from-has c i (suc n) = ground (arith, slots_from-has c (suc i) n)

pub slots_from-IsNodup : (i n : ℕ) → IsNodup (slots_from i n)
unfolding slots_from
slots_from-IsNodup i zero = tt
slots_from-IsNodup i (suc n) =
    (ground (arith, has-slots_from i (suc i) n), slots_from-IsNodup (suc i) n)

-- A search finds a slot of the list that passes, and fails only if none does.
pub first-has :
    (test : ℕ → Bool) (xs : List ℕ) (c : ℕ)
    → first test xs ≡ some c
    → (has c xs ≡ true) × (test c ≡ true)
unfolding first
first-has test [] c h = ground arith
first-has test (x ∷ xs) c h = ground (arith, first-has test xs c)

pub first-no_slot :
    (test : ℕ → Bool) (xs : List ℕ) (c : ℕ)
    → first test xs ≡ none
    → has c xs ≡ true
    → test c ≡ false
unfolding first
first-no_slot test [] c h k = ground arith
first-no_slot test (x ∷ xs) c h k = ground (arith, first-no_slot test xs c)
