-- ===== src/Tests/Tables.antt =====
-- The mapping tables of src/addrmap.c at concrete entries.
use tayga.Base.{ℕ, ◌≡◌, refl, ◌⊎◌, arith, if◌then◌else◌, some, List, [], ◌∷◌, All, Member}
use tayga.Word.{little, htonl}
use tayga.Addr.{In6Addr}
use tayga.Mask.{mask4_of, mask6_of}
use tayga.Maps.{
  Map4, Map6, static, rfc6052, matches4, find_map4, find_map6, insert_map4, insert_map6,
}
use tayga.Maps.Scan.{inserted, conflict, scan_insert, scan, insert_before}
use tayga.Maps.Order.{prefer}
use tayga.Maps.Laws4.{
  IsSame4, IsMap4, IsTable4, IsLongest4, len4, insert_map4-IsTable4, find_map4-IsLongest4,
  find-insert4,
}
use tayga.Maps.Laws6.{IsMap6, IsTable6, IsOnly6, Overlap, insert_map6-IsTable6, find_map6-IsOnly6}

-- 0.0.0.0/0 for the well-known prefix, and a static 192.0.2.0/24.
abbrev default4 : Map4
default4 = record {
  addr = 0;
  mask = htonl little (mask4_of 0);
  prefix_len = 0;
  type = rfc6052;
  owner = 0;
}

abbrev static4 : Map4
static4 = record {
  addr = 0x000200c0;
  mask = htonl little (mask4_of 24);
  prefix_len = 24;
  type = static;
  owner = 1;
}

abbrev host : ℕ
host = 0x210200c0

default4-IsMap4 : IsMap4 little default4
unfolding htonl
default4-IsMap4 = record { word = omega arith; len = omega arith; mask = refl; net = refl }

static4-IsMap4 : IsMap4 little static4
unfolding htonl
static4-IsMap4 = record { word = omega arith; len = omega arith; mask = refl; net = refl }

one4 : IsTable4 little (default4 ∷ [])
one4 = record { entries = (default4-IsMap4, tt); falling = (tt, tt); distinct = (tt, tt) }

insert_map4-IsTable4_example :
    ((s : Map4) × (insert_map4 static4 (default4 ∷ []) ≡ conflict s)
      × Member s (default4 ∷ [])
      × IsSame4 static4 s)
    ⊎ ((new : List Map4) × (insert_map4 static4 (default4 ∷ []) ≡ inserted new)
        × IsTable4 little new
        × All (λ s. ¬ IsSame4 static4 s) (default4 ∷ []))
insert_map4-IsTable4_example =
    insert_map4-IsTable4 little static4 (default4 ∷ []) one4 static4-IsMap4

find_map4-IsLongest4_example :
    IsLongest4 little host (default4 ∷ []) (find_map4 host (default4 ∷ []))
find_map4-IsLongest4_example = find_map4-IsLongest4 little host (default4 ∷ []) one4 (omega arith)

find-insert4_example : find_map4 host (static4 ∷ default4 ∷ []) ≡ (
    if matches4 host static4
    then some (prefer len4 static4 (find_map4 host (default4 ∷ [])))
    else find_map4 host (default4 ∷ []))
unfolding insert_map4 scan_insert scan insert_before htonl mask4_of
find-insert4_example =
    find-insert4 little host static4 (default4 ∷ []) (static4 ∷ default4 ∷ []) one4 refl

abbrev wkp : Map6
wkp = record {
  addr = record { w0 = 0x9bff6400; w1 = 0; w2 = 0; w3 = 0 };
  mask = mask6_of little 96;
  prefix_len = 96;
  type = rfc6052;
  owner = 0;
}

abbrev host6 : In6Addr
host6 = record { w0 = 0xb80d0120; w1 = 0; w2 = 0; w3 = 0x01000000 }

abbrev static6 : Map6
static6 = record {
  addr = host6;
  mask = mask6_of little 128;
  prefix_len = 128;
  type = static;
  owner = 1;
}

wkp-IsMap6 : IsMap6 little wkp
unfolding htonl
wkp-IsMap6 = record { words = omega arith; len = omega arith; mask = refl; net = omega arith }

static6-IsMap6 : IsMap6 little static6
unfolding htonl
static6-IsMap6 = record { words = omega arith; len = omega arith; mask = refl; net = omega arith }

one6 : IsTable6 little (wkp ∷ [])
one6 = record { entries = (wkp-IsMap6, tt); falling = (tt, tt); apart = (tt, tt) }

insert_map6-IsTable6_example :
    ((s : Map6) × (insert_map6 static6 (wkp ∷ []) ≡ conflict s) × Overlap little static6 s)
    ⊎ ((new : List Map6) × (insert_map6 static6 (wkp ∷ []) ≡ inserted new)
        × IsTable6 little new
        × All (λ s. ¬ Overlap little static6 s) (wkp ∷ []))
insert_map6-IsTable6_example = insert_map6-IsTable6 little static6 (wkp ∷ []) one6 static6-IsMap6

find_map6-IsOnly6_example : IsOnly6 little host6 (wkp ∷ []) (find_map6 host6 (wkp ∷ []))
find_map6-IsOnly6_example = find_map6-IsOnly6 little host6 (wkp ∷ []) one6 (omega arith)
