-- ===== src/Tests/Mappings.antt =====
-- The mapping handlers of src/addrmap.c for 192.0.2.0/24 as 2001:db8::/120, little endian.
use tayga.Base.{ℕ, ◌≡◌, refl, inl, inr, arith, true, false, none, [], ◌∷◌}
use tayga.Word.{little, htonl, htons}
use tayga.Addr.{In6Addr, is_error, validate_ip4_addr, validate_ip6_addr}
use tayga.Prefix.{ok}
use tayga.Mask.{mask4_of, mask6_of, in6_is_in_net, mask_word}
use tayga.Maps.{Map4, Map6, static, find_map4, find_map6}
use tayga.Maps.Scan.{scan, first}
use tayga.Maps.Laws4.{IsMap4}
use tayga.Maps.Laws6.{IsMap6}
use tayga.Resolve.{Mapping, resolve_ip4, resolve_ip6, switch4, static_to_ip6, spread}
use tayga.Resolve.Laws.{IsMapping, resolve_ip6-resolve_ip4}
use tayga.Cache.{Hashing, create_cache}
use tayga.Handlers.{Store, map_ip4_to_ip6, map_ip6_to_ip4}
use tayga.Cache.Laws.{IsCache}
use tayga.Cache.Slots.{has}
use tayga.Cache.Lookup.{create_cache-IsCache}
use tayga.Handlers.Laws.{
  Reached-IsSteady, address, Reached, created, from4, empty_cache, map_ip6_to_ip4-resolve_ip6,
}

abbrev documentation4 : Map4
documentation4 = record {
  addr = 0x000200c0;
  mask = htonl little (mask4_of 24);
  prefix_len = 24;
  type = static;
  owner = 1;
}

abbrev documentation6 : Map6
documentation6 = record {
  addr = record { w0 = 0xb80d0120; w1 = 0; w2 = 0; w3 = 0 };
  mask = mask6_of little 120;
  prefix_len = 120;
  type = static;
  owner = 1;
}

abbrev pub configured : Mapping
configured = record {
  endian = little;
  wkpf_strict = true;
  local_addr4 = 0x01ff00c0;
  local_addr6 = record { w0 = 0xb80d0120; w1 = 0; w2 = 0; w3 = 1 };
  map4_list = documentation4 ∷ [];
  map6_list = documentation6 ∷ [];
  container = λ o. record { map4 = documentation4; map6 = documentation6 };
}

documentation4-IsMap4 : IsMap4 little documentation4
unfolding htonl
documentation4-IsMap4 = record { word = omega arith; len = omega arith; mask = refl; net = refl }

documentation6-IsMap6 : IsMap6 little documentation6
unfolding htonl
documentation6-IsMap6 = record {
  words = omega arith;
  len = omega arith;
  mask = refl;
  net = omega arith;
}

configured-IsMapping : IsMapping configured
configured-IsMapping = record {
  table4 = record {
    entries = (documentation4-IsMap4, tt);
    falling = (tt, tt);
    distinct = (tt, tt);
  };
  table6 = record { entries = (documentation6-IsMap6, tt); falling = (tt, tt); apart = (tt, tt) };
  links4 = (
    inr (
      refl,
      record {
        owner4 = refl;
        owner6 = refl;
        type6 = refl;
        listed6 = inl refl;
        promise = omega arith;
      },
    ),
    tt,
  );
  links6 = (refl, tt);
}

abbrev peer : ℕ
peer = 0x210200c0

abbrev image : In6Addr
image = record { w0 = 0xb80d0120; w1 = 0; w2 = 0; w3 = 0x21000000 }

peer-image : resolve_ip4 configured peer ≡ ok (image, true)
unfolding resolve_ip4 switch4 find_map4 find_map6 scan htonl mask4_of mask6_of validate_ip6_addr
    static_to_ip6 spread first htons in6_is_in_net mask_word
peer-image = refl

peer_good : is_error (validate_ip4_addr little peer) ≡ false
unfolding validate_ip4_addr htonl
peer_good = refl

resolve_ip6-resolve_ip4_example : resolve_ip6 configured image ≡ ok (peer, true)
resolve_ip6-resolve_ip4_example =
    resolve_ip6-resolve_ip4 configured configured-IsMapping peer image true (omega arith) peer_good
      refl peer-image

abbrev pub hashing : Hashing
hashing = record { rand0 = 1; rand1 = 2; rand2 = 3; rand3 = 4; hash_bits = 7; cache_size = 4 }

abbrev pub fresh : Store
fresh = record {
  cache = create_cache hashing empty_cache.entries empty_cache;
  dynamics = λ d. record { last_use = 0; cache_entry = none };
}

-- The reply to the peer finds the entry that its own packet left.
abbrev used : Store
used = (map_ip4_to_ip6 configured hashing 10 peer fresh).1

used-Reached : Reached configured hashing used
used-Reached =
    from4 10 peer fresh (omega arith) peer_good refl
      (created empty_cache.entries (λ d. record { last_use = 0; cache_entry = none }))

map_ip6_to_ip4-resolve_ip6_example :
    (map_ip6_to_ip4 configured hashing 11 image used).0 ≡ address (resolve_ip6 configured image)
map_ip6_to_ip4-resolve_ip6_example =
    map_ip6_to_ip4-resolve_ip6 configured hashing 11 image used configured-IsMapping used-Reached

pub fresh-IsCache : IsCache hashing fresh.cache
fresh-IsCache =
    (Reached-IsSteady configured hashing fresh configured-IsMapping
      (created empty_cache.entries (λ d. record { last_use = 0; cache_entry = none }))).cache

abbrev rehashing : Hashing
rehashing = record hashing { hash_bits = 8 }

create_cache-IsCache_example :
    let s = used.cache in
    let new = create_cache rehashing empty_cache.entries s in
    IsCache rehashing new
    × (new.cache_active ≡ s.cache_active)
    × ((c : ℕ) → has c s.cache_active ≡ true → new.entries c ≡ s.entries c)
create_cache-IsCache_example =
    create_cache-IsCache rehashing hashing empty_cache.entries used.cache
      (Reached-IsSteady configured hashing used configured-IsMapping used-Reached).cache (inr refl)
