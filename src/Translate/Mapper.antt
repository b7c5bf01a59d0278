-- ===== src/Translate/Mapper.antt =====
-- The handlers of src/addrmap.c as the mapper that src/nat64.c calls, where no dynamic pool is
-- configured, so that `dyn_alloc` makes no difference.
use tayga.Base.{ℕ}
use tayga.Addr.{error_none, error_reject, error_drop, error_local}
use tayga.Prefix.{Result, ok, err}
use tayga.Cache.{Hashing}
use tayga.Resolve.{Mapping}
use tayga.Handlers.{Store, map_ip4_to_ip6, map_ip6_to_ip4}
use tayga.Translate.{Mapped, mapped, rejected, unmapped, AddressMap}

-- The callers ask for `ERROR_REJECT` and `ERROR_DROP` only; another error counts as a drop here.
unfoldable pub mapped_of : {A : Type 0} → Result A → Mapped A
mapped_of (ok a) = mapped a
mapped_of (err error_reject) = rejected
mapped_of (err error_drop) = unmapped
mapped_of (err error_none) = unmapped
mapped_of (err error_local) = unmapped

abbrev pub mapping_of : {A : Type 0} → Result A × Store → Mapped A × Store
mapping_of (r, s) = (mapped_of r, s)

abbrev pub address_map : Mapping → Hashing → ℕ → AddressMap
address_map g k now = record {
  Store = Store;
  to_ip6 = λ a s. mapping_of (map_ip4_to_ip6 g k now a s);
  to_ip4 = λ dyn q s. mapping_of (map_ip6_to_ip4 g k now q s);
}
