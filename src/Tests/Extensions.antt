-- ===== src/Tests/Extensions.antt =====
-- Chains of extension headers for src/nat64.c.
use tayga.Base.{ℕ, ◌≡◌, ◌↔◌, refl, arith, List, [], ◌∷◌, some}
use tayga.Walk.{Walk, next_header, walk_extensions}
use tayga.Walk.Laws.{Chain, walk_extensions_lem}

abbrev at_start : ℕ → List ℕ → ℕ → Walk
at_start proto bytes len = record {
  bytes = bytes;
  data_len = len;
  data_proto = proto;
  header_len = 0;
  seg_left = 0;
  seg_ptr = 40;
}

-- A routing header with one segment left, then one with none, then UDP.
abbrev two_routing : List ℕ
two_routing = 43 ∷ 0 ∷ 0 ∷ 1 ∷ 0 ∷ 0 ∷ 0 ∷ 0 ∷ 17 ∷ 0 ∷ 0 ∷ 0 ∷ 0 ∷ 0 ∷ 0 ∷ 0 ∷ 9 ∷ 9 ∷ []

abbrev udp : Walk
udp = record {
  bytes = 9 ∷ 9 ∷ [];
  data_len = 2;
  data_proto = 17;
  header_len = 16;
  seg_left = 0;
  seg_ptr = 48;
}

-- The second header clears `seg_left`, so that nothing is left of the first one's segment.
cleared : walk_extensions 9 0 (at_start 43 two_routing 18) ≡ some udp
unfolding walk_extensions next_header
cleared = refl

walk_extensions_lem_example :
    (walk_extensions 9 0 (at_start 43 two_routing 18) ≡ some udp)
    ↔ Chain 8 (at_start 43 two_routing 18) udp
walk_extensions_lem_example = walk_extensions_lem 8 (at_start 43 two_routing 18) udp (omega arith)
