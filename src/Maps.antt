-- ===== src/Maps.antt =====
-- src/addrmap.c: the two mapping tables, `find_map4`, `find_map6`, `insert_map4` and `insert_map6`,
-- over `struct map4` and `struct map6` of src/tayga.h. A table is the list that `map4_list` links, in
-- its order; `owner` stands for the address of the struct that an entry is embedded in.
pub mod Scan
pub mod Order
pub mod Laws4
pub mod Laws6
use tayga.Base.{
  ℕ, suc, ◌+◌, bit_and, Bool, true, false, ◌&&◌, if◌then◌else◌, ◌==◌, ltb, Option, none, some, List,
  [], ◌∷◌,
}
use tayga.Addr.{In6Addr}
use tayga.Mask.{in6_is_in_net}
use Scan.{Inserted, scan_insert, first}

pub data MapType : Type 0 where
  static rfc6052 dynamic_pool dynamic_host : MapType

pub record Map4 : Type 0 where
  pub addr : ℕ
  pub mask : ℕ
  pub prefix_len : ℕ
  pub type : MapType
  pub owner : ℕ

pub record Map6 : Type 0 where
  pub addr : In6Addr
  pub mask : In6Addr
  pub prefix_len : ℕ
  pub type : MapType
  pub owner : ℕ

abbrev pub matches4 : ℕ → Map4 → Bool
matches4 a m = m.addr == bit_and m.mask a

abbrev pub matches6 : In6Addr → Map6 → Bool
matches6 a m = in6_is_in_net a m.addr m.mask

unfoldable pub find_map4 : ℕ → List Map4 → Option Map4
find_map4 a table = first (matches4 a) table

unfoldable pub find_map6 : In6Addr → List Map6 → Option Map6
find_map6 a table = first (matches6 a) table

-- The tests of the two loops: `goto conflict`, and a shorter prefix.
abbrev pub conflicts4 : Map4 → Map4 → Bool
conflicts4 m s = s.prefix_len == m.prefix_len && s.addr == m.addr

abbrev pub conflicts6 : Map6 → Map6 → Bool
conflicts6 m s =
    if ltb s.prefix_len m.prefix_len
    then in6_is_in_net m.addr s.addr s.mask
    else in6_is_in_net s.addr m.addr m.mask

unfoldable pub insert_map4 : Map4 → List Map4 → Inserted Map4
insert_map4 m table = scan_insert (conflicts4 m) (λ s. ltb s.prefix_len m.prefix_len) m table

unfoldable pub insert_map6 : Map6 → List Map6 → Inserted Map6
insert_map6 m table = scan_insert (conflicts6 m) (λ s. ltb s.prefix_len m.prefix_len) m table
