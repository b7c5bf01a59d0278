-- ===== src/Pool/Config.antt =====
-- src/conffile.c: `config_dynamic_pool`, on the prefix that `parse_prefix` reads from its argument, if
-- any. `malloc` gives the number of the pool.
pub mod Laws
use tayga.Base.{
  ℕ, ◌+◌, ◌-◌, ◌/◌, ◌^◌, Bool, true, false, ◌||◌, not, if◌then◌else◌, ltb, Option, none, some, List,
  [], ◌∷◌,
}
use tayga.Word.{Endian, htonl}
use tayga.Addr.{Status, error_none, error_reject, error_drop, error_local, validate_ip4_addr}
use tayga.Mask.{pos, calc_ip4_mask}
use tayga.Maps.{Map4, dynamic_pool, insert_map4}
use tayga.Maps.Scan.{Inserted, inserted, conflict}
use tayga.Pool.{DynamicPool}

-- A link-local address is let through with a warning.
abbrev pub is_reserved : Status → Bool
is_reserved error_none = false
is_reserved error_local = false
is_reserved error_reject = true
is_reserved error_drop = true

abbrev pub pool_entry : ℕ → ℕ → ℕ → ℕ → Map4
pool_entry id addr mask len = record {
  addr = addr;
  mask = mask;
  prefix_len = len;
  type = dynamic_pool;
  owner = id;
}

abbrev pub new_pool : Endian → Map4 → DynamicPool
new_pool e m = record {
  map4 = m;
  mapped_list = [];
  dormant_list = [];
  free_list = record { addr = htonl e m.addr; count = (2 ^ 32 - 1) / 2 ^ m.prefix_len } ∷ [];
  base = htonl e m.addr;
}

unfoldable pub admit : Endian → Map4 → Inserted Map4 → Option (DynamicPool × List Map4)
admit e m (conflict s) = none
admit e m (inserted table) = some (new_pool e m, table)

unfoldable pub with_mask :
    Endian → ℕ → ℕ → ℕ → List Map4 → Option (ℕ × Bool) → Option (DynamicPool × List Map4)
unfolding admit
with_mask e id addr len table none = none
with_mask e id addr len table (some (mask, accepted)) =
    let m = pool_entry id addr mask len in
    if not accepted || is_reserved (validate_ip4_addr e addr) || ltb 31 len
    then none
    else admit e m (insert_map4 m table)

-- The pool and the table that has its entry; none where the directive is refused.
unfoldable pub config_dynamic_pool :
    Endian → ℕ → Bool → Option (ℕ × ℕ) → List Map4 → Option (DynamicPool × List Map4)
unfolding with_mask
config_dynamic_pool e id true prefix table = none
config_dynamic_pool e id false none table = none
config_dynamic_pool e id false (some (addr, len)) table =
    with_mask e id addr len table (calc_ip4_mask e (some addr) (pos len))
