-- ===== src/Maps/Scan.antt =====
-- The loops over a mapping table in src/addrmap.c: the search for the first entry that passes a test,
-- and the insertion loop that `insert_map4` and `insert_map6` share, which looks for a conflict in the
-- whole table while it notes the first entry with a shorter prefix.
use mathlib.Core.Option
use tayga.Base.{
  ℕ, zero, suc, ◌+◌, ◌≡◌, refl, ap, ◌∙◌, arith, Bool, true, false, if◌then◌else◌, Option, none,
  some, List, [], ◌∷◌, ◌++◌,
}

pub data Inserted {ℓ} (A : Type ℓ) : Type ℓ where
  inserted : List A → Inserted A
  conflict : A → Inserted A

-- How the loop ends: at a conflict, or with the place that it noted, if any.
pub data Scan {ℓ} (A : Type ℓ) : Type ℓ where
  stop : A → Scan A
  place_at : Option ℕ → Scan A

-- `insert_pos` keeps the first place that was noted.
abbrev note : Option ℕ → Bool → ℕ → Option ℕ
note (some p) b i = some p
note none true i = some i
note none false i = none

shift : ℕ → Option ℕ → Option ℕ
shift i none = none
shift i (some n) = some (i + n)

shift-zero : (o : Option ℕ) → shift 0 o ≡ o
unfolding shift
shift-zero none = refl
shift-zero (some n) = ap some (omega arith)

module _ {ℓ} {A : Type ℓ} where
  -- The first entry that passes the test.
  unfoldable pub first : (A → Bool) → List A → Option A
  first test [] = none
  first test (x ∷ xs) = if test x then some x else first test xs

  -- The loop at entry `i` with `insert_pos` as `pos`.
  unfoldable pub scan : (A → Bool) → (A → Bool) → List A → ℕ → Option ℕ → Scan A
  scan conflicts lower [] i pos = place_at pos
  scan conflicts lower (s ∷ xs) i pos =
      if conflicts s then stop s else scan conflicts lower xs (suc i) (note pos (lower s) i)

  -- `list_add_tail(&m->list, pos)`: in front of entry `i`, or at the end.
  unfoldable pub insert_before : ℕ → A → List A → List A
  insert_before i m [] = m ∷ []
  insert_before zero m (x ∷ xs) = m ∷ x ∷ xs
  insert_before (suc i) m (x ∷ xs) = x ∷ insert_before i m xs

  abbrev finish : A → List A → Scan A → Inserted A
  finish m xs (stop s) = conflict s
  finish m xs (place_at none) = inserted (xs ++ (m ∷ []))
  finish m xs (place_at (some i)) = inserted (insert_before i m xs)

  unfoldable pub scan_insert : (A → Bool) → (A → Bool) → A → List A → Inserted A
  scan_insert conflicts lower m xs = finish m xs (scan conflicts lower xs 0 none)

  -- What it comes to: `m` goes in front of the first lower entry, unless some entry conflicts.
  unfoldable pub place : (A → Bool) → A → List A → List A
  place lower m [] = m ∷ []
  place lower m (x ∷ xs) = if lower x then m ∷ x ∷ xs else x ∷ place lower m xs

  abbrev pub outcome : Option A → List A → Inserted A
  outcome none xs = inserted xs
  outcome (some s) xs = conflict s

  abbrev ended : Option A → Option ℕ → Scan A
  ended none pos = place_at pos
  ended (some s) pos = stop s

  scan_noted :
      (conflicts lower : A → Bool) (xs : List A) (i p : ℕ)
      → scan conflicts lower xs i (some p) ≡ ended (first conflicts xs) (some p)
  unfolding scan first
  scan_noted conflicts lower [] i p = refl
  scan_noted conflicts lower (x ∷ xs) i p = ground (arith, scan_noted conflicts lower xs (suc i) p)

  lowest : (A → Bool) → List A → Option ℕ
  lowest lower [] = none
  lowest lower (x ∷ xs) = if lower x then some 0 else Option.map suc (lowest lower xs)

  scan_fresh :
      (conflicts lower : A → Bool) (xs : List A) (i : ℕ)
      → scan conflicts lower xs i none ≡ ended (first conflicts xs) (shift i (lowest lower xs))
  unfolding scan first lowest shift
  scan_fresh conflicts lower [] i = refl
  scan_fresh conflicts lower (x ∷ xs) i =
      ground (arith, scan_fresh conflicts lower xs (suc i), scan_noted conflicts lower xs (suc i) i)

  abbrev put : Option ℕ → A → List A → List A
  put none m xs = xs ++ (m ∷ [])
  put (some i) m xs = insert_before i m xs

  put-suc :
      (o : Option ℕ) (m x : A) (xs : List A) → put (Option.map suc o) m (x ∷ xs) ≡ x ∷ put o m xs
  unfolding insert_before
  put-suc none m x xs = refl
  put-suc (some i) m x xs = refl

  put-lowest :
      (lower : A → Bool) (m : A) (xs : List A) → put (lowest lower xs) m xs ≡ place lower m xs
  unfolding lowest insert_before place
  put-lowest lower m [] = refl
  put-lowest lower m (x ∷ xs) =
      ground (arith, put-suc (lowest lower xs) m x xs, put-lowest lower m xs)

  finish-ended :
      (m : A) (xs : List A) (c : Option A) (o : Option ℕ)
      → finish m xs (ended c o) ≡ outcome c (put o m xs)
  finish-ended m xs none none = refl
  finish-ended m xs none (some i) = refl
  finish-ended m xs (some s) o = refl

  pub scan_insert_lem :
      (conflicts lower : A → Bool) (m : A) (xs : List A)
      → scan_insert conflicts lower m xs ≡ outcome (first conflicts xs) (place lower m xs)
  unfolding scan_insert
  scan_insert_lem conflicts lower m xs =
      rw (scan_fresh conflicts lower xs 0, shift-zero)
        (finish-ended m xs (first conflicts xs) (lowest lower xs)
          ∙ ap (outcome (first conflicts xs)) (put-lowest lower m xs))

  pub inserted_place :
      (conflicts lower : A → Bool) (m : A) (xs new : List A)
      → scan_insert conflicts lower m xs ≡ inserted new
      → place lower m xs ≡ new
  inserted_place conflicts lower m xs new h = ground (arith, scan_insert_lem conflicts lower m xs)
