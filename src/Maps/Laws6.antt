-- ===== src/Maps/Laws6.antt =====
-- The IPv6 mapping table: `insert_map6` keeps its entries apart from one another, so that `find_map6`
-- has at most one entry to find.
use tayga.Base.{
  ℕ, ◌≤◌, ◌≡◌, refl, sym, ◌∙◌, ◌⊎◌, ◌↔◌, inl, inr, arith, Bool, true, false, ltb, Option, none,
  some, List, [], ◌∷◌, All, All-map, All-zip, Bool-cases, Option-cases,
}
use mathlib.Core.Bool.{false≢true}
use tayga.Word.{Endian}
use tayga.Addr.{In6Addr}
use tayga.Mask.{mask6_of}
use tayga.Mask.Laws.{SamePrefix6, SamePrefix6-shorter, IsNet6, in6_is_in_net_lem}
use tayga.Prefix.Bytes.{IsIn6}
use tayga.Maps.{Map6, matches6, conflicts6, find_map6, insert_map6}
use tayga.Maps.Scan.{inserted, conflict, first, place, scan_insert_lem}
use tayga.Maps.Order.{IsFalling, lower_than, All-place, first-some, first-none, place-IsFalling}

-- An entry as `calc_ip6_mask` accepts it.
pub record IsMap6 (e : Endian) (m : Map6) : Type 0 where
  pub words : IsIn6 m.addr
  pub len : m.prefix_len ≤ 128
  pub mask : m.mask ≡ mask6_of e m.prefix_len
  pub net : IsNet6 e m.prefix_len m.addr

abbrev pub Shares : Endian → In6Addr → Map6 → Type 0
Shares e a m = SamePrefix6 e m.prefix_len a m.addr

-- No address lies in both.
abbrev pub Overlap : Endian → Map6 → Map6 → Type 0
Overlap e m s = (a : In6Addr) × Shares e a m × Shares e a s

abbrev pub IsApart : Endian → List Map6 → Type 0
IsApart e [] = Unit
IsApart e (m ∷ table) = All (λ s. ¬ Overlap e m s) table × IsApart e table

abbrev pub len6 : Map6 → ℕ
len6 m = m.prefix_len

pub record IsTable6 (e : Endian) (table : List Map6) : Type 0 where
  pub entries : All (IsMap6 e) table
  pub falling : IsFalling len6 table
  pub apart : IsApart e table

matches6_lem :
    (e : Endian) (a : In6Addr) (m : Map6)
    → IsIn6 a
    → IsMap6 e m
    → (matches6 a m ≡ true) ↔ Shares e a m
matches6_lem e a m ha v =
    rw v.mask (in6_is_in_net_lem e m.prefix_len a m.addr v.len ha v.words v.net)

matches6-false :
    (e : Endian) (a : In6Addr) (m : Map6)
    → IsIn6 a
    → IsMap6 e m
    → matches6 a m ≡ false
    → ¬ Shares e a m
matches6-false e a m ha v n s = false≢true (sym n ∙ (matches6_lem e a m ha v).1 s)

-- Two addresses that share a prefix with a third share it with one another.
join6 :
    (e : Endian) (len : ℕ) (a x y : In6Addr)
    → SamePrefix6 e len a x
    → SamePrefix6 e len a y
    → SamePrefix6 e len x y
join6 e len a x y p q = (sym p.0 ∙ q.0, sym p.1 ∙ q.1, sym p.2 ∙ q.2, sym p.3 ∙ q.3)

-- The test of the insertion loop is overlap.
conflicts6-Overlap :
    (e : Endian) (m s : Map6) → IsMap6 e m → IsMap6 e s → (conflicts6 m s ≡ true) ↔ Overlap e m s
conflicts6-Overlap e m s vm vs = elim (Bool-cases (ltb s.prefix_len m.prefix_len)) [
  | inl lt ↦
      let test = matches6_lem e m.addr s vm.words vs in
      rw lt (
        λ c. (m.addr, (refl, refl, refl, refl), test.0 c),
        λ (a, inm, ins). test.1 (
            join6 e s.prefix_len a m.addr s.addr
              (SamePrefix6-shorter e s.prefix_len m.prefix_len a m.addr (ground arith) inm) ins),
      )
  | inr ge ↦
      let test = matches6_lem e s.addr m vs.words vm in
      rw ge (
        λ c. (s.addr, test.0 c, (refl, refl, refl, refl)),
        λ (a, inm, ins). test.1 (
            join6 e m.prefix_len a s.addr m.addr
              (SamePrefix6-shorter e m.prefix_len s.prefix_len a s.addr (ground arith) ins) inm),
      )
]

Overlap-sym : (e : Endian) (m s : Map6) → Overlap e m s → Overlap e s m
Overlap-sym e m s (a, p, q) = (a, q, p)

place-IsApart :
    (e : Endian) (lower : Map6 → Bool) (m : Map6) (xs : List Map6)
    → All (λ s. ¬ Overlap e m s) xs
    → IsApart e xs
    → IsApart e (place lower m xs)
unfolding place
place-IsApart e lower m [] h d = (tt, tt)
place-IsApart e lower m (x ∷ xs) h d = elim (Bool-cases (lower x)) [
  | inl l ↦ rw l (h, d)
  | inr l ↦ rw l (
    All-place (λ s. ¬ Overlap e x s) lower m xs (λ o. h.0 (Overlap-sym e x m o)) d.0,
    place-IsApart e lower m xs h.1 d.1,
  )
]

-- `insert_map6` either reports an entry that overlaps the new one, and changes nothing, or there is
-- none, and the table that comes of it is again ordered and without overlaps.
pub insert_map6-IsTable6 :
    (e : Endian) (m : Map6) (table : List Map6)
    → IsTable6 e table
    → IsMap6 e m
    → ((s : Map6) × (insert_map6 m table ≡ conflict s) × Overlap e m s)
      ⊎ ((new : List Map6) × (insert_map6 m table ≡ inserted new)
          × IsTable6 e new
          × All (λ s. ¬ Overlap e m s) table)
unfolding insert_map6
insert_map6-IsTable6 e m table t v = elim (Option-cases (first (conflicts6 m) table)) [
  | inl n ↦
      let free : All (λ s. ¬ Overlap e m s) table =
        All-zip (λ s vs c o. false≢true (sym c ∙ (conflicts6-Overlap e m s v vs).1 o)) table
          t.entries (first-none (conflicts6 m) table n) in
      inr (
        place lower m table,
        scan_insert_lem (conflicts6 m) lower m table ∙ rw n,
        record {
          entries = All-place (IsMap6 e) lower m table v t.entries;
          falling = place-IsFalling len6 m table t.falling;
          apart = place-IsApart e lower m table free t.apart;
        },
        free,
      )
  | inr (s, q) ↦
      let found = first-some (IsMap6 e) (conflicts6 m) table s t.entries q in
      inl (
        s,
        scan_insert_lem (conflicts6 m) lower m table ∙ rw q,
        (conflicts6-Overlap e m s v found.0).0 found.1,
      )
]
  where
    lower : Map6 → Bool
    lower = lower_than len6 m

-- The answer of a search where at most one entry can match.
abbrev pub IsOnly6 : Endian → In6Addr → List Map6 → Option Map6 → Type 0
IsOnly6 e a table none = All (λ s. ¬ Shares e a s) table
IsOnly6 e a table (some m) = Shares e a m × All (λ s. (¬ Shares e a s) ⊎ (s ≡ m)) table

IsOnly6-cons :
    (e : Endian) (a : In6Addr) (x : Map6) (xs : List Map6) (o : Option Map6)
    → ¬ Shares e a x
    → IsOnly6 e a xs o
    → IsOnly6 e a (x ∷ xs) o
IsOnly6-cons e a x xs none n h = (n, h)
IsOnly6-cons e a x xs (some m) n h = (h.0, (inl n, h.1))

first-IsOnly6 :
    (e : Endian) (a : In6Addr) (xs : List Map6)
    → IsIn6 a
    → All (IsMap6 e) xs
    → IsApart e xs
    → IsOnly6 e a xs (first (matches6 a) xs)
unfolding first
first-IsOnly6 e a [] ha v d = tt
first-IsOnly6 e a (x ∷ xs) ha v d = elim (Bool-cases (matches6 a x)) [
  | inl t ↦
      let here = (matches6_lem e a x ha v.0).0 t in
      rw t (here, (inr refl, All-map (λ s (p : ¬ Overlap e x s). inl (λ q. p (a, here, q))) xs d.0))
  | inr t ↦ rw t (
      IsOnly6-cons e a x xs (first (matches6 a) xs) (matches6-false e a x ha v.0 t)
        (first-IsOnly6 e a xs ha v.1 d.1))
]

-- `find_map6` finds the one entry that an address lies in, or the address lies in none.
pub find_map6-IsOnly6 :
    (e : Endian) (a : In6Addr) (table : List Map6)
    → IsTable6 e table
    → IsIn6 a
    → IsOnly6 e a table (find_map6 a table)
unfolding find_map6
find_map6-IsOnly6 e a table t ha = first-IsOnly6 e a table ha t.entries t.apart
