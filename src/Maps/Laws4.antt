-- ===== src/Maps/Laws4.antt =====
-- The IPv4 mapping table: `insert_map4` keeps it ordered and free of duplicates, and `find_map4` gives
-- the longest prefix that an address lies in.
use tayga.Base.{
  ℕ, ◌^◌, ◌≤◌, ◌<◌, ◌≡◌, refl, sym, ◌∙◌, ◌⊎◌, ◌↔◌, inl, inr, arith, Bool, true, false,
  if◌then◌else◌, Option, none, some, List, [], ◌∷◌, All, All-map, All-zip, Member, Bool-cases,
  Option-cases,
}
use mathlib.Core.Bool.{false≢true}
use tayga.Word.{Endian, htonl}
use tayga.Mask.{mask4_of}
use tayga.Mask.Laws.{SamePrefix4, IsNet4, ip4_in_net_lem}
use tayga.Maps.{Map4, matches4, conflicts4, find_map4, insert_map4}
use tayga.Maps.Scan.{inserted, conflict, first, place, scan_insert_lem, inserted_place}
use tayga.Maps.Order.{
  IsFalling, lower_than, All-place, first-some, first-Member, first-none, place-IsFalling, prefer,
  first-place, first_longest,
}

-- An entry as `calc_ip4_mask` accepts it.
pub record IsMap4 (e : Endian) (m : Map4) : Type 0 where
  pub word : m.addr < 2 ^ 32
  pub len : m.prefix_len ≤ 32
  pub mask : m.mask ≡ htonl e (mask4_of m.prefix_len)
  pub net : IsNet4 e m.prefix_len m.addr

abbrev pub IsSame4 : Map4 → Map4 → Type 0
IsSame4 m s = (m.prefix_len ≡ s.prefix_len) × (m.addr ≡ s.addr)

conflicts4-IsSame4 : (m s : Map4) → conflicts4 m s ≡ true → IsSame4 m s
conflicts4-IsSame4 m s h = (ground arith, ground arith)

conflicts4-free : (m s : Map4) → conflicts4 m s ≡ false → ¬ IsSame4 m s
conflicts4-free m s h k = ground (arith, k.0, k.1)

-- No two entries have the same address and length.
abbrev pub IsDistinct4 : List Map4 → Type 0
IsDistinct4 [] = Unit
IsDistinct4 (m ∷ table) = All (λ s. ¬ IsSame4 m s) table × IsDistinct4 table

abbrev pub len4 : Map4 → ℕ
len4 m = m.prefix_len

pub record IsTable4 (e : Endian) (table : List Map4) : Type 0 where
  pub entries : All (IsMap4 e) table
  pub falling : IsFalling len4 table
  pub distinct : IsDistinct4 table

place-IsDistinct4 :
    (lower : Map4 → Bool) (m : Map4) (xs : List Map4)
    → All (λ s. ¬ IsSame4 m s) xs
    → IsDistinct4 xs
    → IsDistinct4 (place lower m xs)
unfolding place
place-IsDistinct4 lower m [] h d = (tt, tt)
place-IsDistinct4 lower m (x ∷ xs) h d = elim (Bool-cases (lower x)) [
  | inl e ↦ rw e (h, d)
  | inr e ↦ rw e (
    All-place (λ s. ¬ IsSame4 x s) lower m xs (λ k. h.0 (sym k.0, sym k.1)) d.0,
    place-IsDistinct4 lower m xs h.1 d.1,
  )
]

-- `insert_map4` either reports an entry with the same address and length, and changes nothing, or
-- there is none, and the table that comes of it is again ordered and free of duplicates.
pub insert_map4-IsTable4 :
    (e : Endian) (m : Map4) (table : List Map4)
    → IsTable4 e table
    → IsMap4 e m
    → ((s : Map4) × (insert_map4 m table ≡ conflict s) × Member s table × IsSame4 m s)
      ⊎ ((new : List Map4) × (insert_map4 m table ≡ inserted new)
          × IsTable4 e new
          × All (λ s. ¬ IsSame4 m s) table)
unfolding insert_map4
insert_map4-IsTable4 e m table t v = elim (Option-cases (first (conflicts4 m) table)) [
  | inl n ↦
      let free = All-map (λ s. conflicts4-free m s) table (first-none (conflicts4 m) table n) in
      inr (
        place lower m table,
        scan_insert_lem (conflicts4 m) lower m table ∙ rw n,
        record {
          entries = All-place (IsMap4 e) lower m table v t.entries;
          falling = place-IsFalling len4 m table t.falling;
          distinct = place-IsDistinct4 lower m table free t.distinct;
        },
        free,
      )
  | inr (s, q) ↦ inl (
    s,
    scan_insert_lem (conflicts4 m) lower m table ∙ rw q,
    first-Member (conflicts4 m) table s q,
    conflicts4-IsSame4 m s (first-some (IsMap4 e) (conflicts4 m) table s t.entries q).1,
  )
]
  where
    lower : Map4 → Bool
    lower = lower_than len4 m

-- The answer of a longest-prefix search.
abbrev pub IsLongest4 : Endian → ℕ → List Map4 → Option Map4 → Type 0
IsLongest4 e a table none = All (λ s. ¬ SamePrefix4 e s.prefix_len a s.addr) table
IsLongest4 e a table (some m) =
    SamePrefix4 e m.prefix_len a m.addr
    × All (λ s. (¬ SamePrefix4 e s.prefix_len a s.addr) ⊎ (s.prefix_len ≤ m.prefix_len)) table

matches4_lem :
    (e : Endian) (a : ℕ) (m : Map4)
    → a < 2 ^ 32
    → IsMap4 e m
    → (matches4 a m ≡ true) ↔ SamePrefix4 e m.prefix_len a m.addr
matches4_lem e a m ha v = rw v.mask (ip4_in_net_lem e m.prefix_len a m.addr v.len ha v.word v.net)

matches4-false :
    (e : Endian) (a : ℕ) (m : Map4)
    → a < 2 ^ 32
    → IsMap4 e m
    → matches4 a m ≡ false
    → ¬ SamePrefix4 e m.prefix_len a m.addr
matches4-false e a m ha v n s = false≢true (sym n ∙ (matches4_lem e a m ha v).1 s)

-- `find_map4` finds an entry of which the address shares the prefix and no entry with a longer prefix
-- does; if it finds none, the address lies in no entry.
pub find_map4-IsLongest4 :
    (e : Endian) (a : ℕ) (table : List Map4)
    → IsTable4 e table
    → a < 2 ^ 32
    → IsLongest4 e a table (find_map4 a table)
unfolding find_map4
find_map4-IsLongest4 e a table t ha = go (first (matches4 a) table) refl
  where
    go : (o : Option Map4) → first (matches4 a) table ≡ o → IsLongest4 e a table o
    go none q =
        All-zip (λ s v n. matches4-false e a s ha v n) table t.entries
          (first-none (matches4 a) table q)
    go (some m) q =
        let found = first-some (IsMap4 e) (matches4 a) table m t.entries q in
        (
          (matches4_lem e a m ha found.0).0 found.1,
          All-zip
              (λ s v n. elim n [
                | inl no_match ↦ inl (matches4-false e a s ha v no_match)
                | inr le ↦ inr le
              ])
              table t.entries (first_longest len4 (matches4 a) table m t.falling q),
        )

-- After an insertion a search finds the new entry exactly where it is the longer prefix, and what it
-- found before elsewhere.
pub find-insert4 :
    (e : Endian) (a : ℕ) (m : Map4) (table new : List Map4)
    → IsTable4 e table
    → insert_map4 m table ≡ inserted new
    → find_map4 a new
      ≡ (if matches4 a m then some (prefer len4 m (find_map4 a table)) else find_map4 a table)
unfolding find_map4 insert_map4
find-insert4 e a m table new t h =
    let same : place (lower_than len4 m) m table ≡ new =
      inserted_place (conflicts4 m) (lower_than len4 m) m table new h in
    rw (← same) (first-place len4 (matches4 a) m table t.falling)
