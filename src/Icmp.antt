-- ===== src/Icmp.antt =====
-- src/nat64.c: the switch of `xlate_4to6_icmp_error` and that of `xlate_6to4_icmp_error`, which
-- translate the type, code and second word of an ICMP error, with `est_mtu`. The word is the number
-- that the source reads by `ntohl` and writes by `htonl`.
pub mod Laws
use tayga.Base.{
  ℕ, zero, suc, ◌+◌, ◌-◌, ◌*◌, ◌/◌, ◌%◌, ◌^◌, Bool, true, false, not, ◌&&◌, ◌||◌, if◌then◌else◌,
  ◌==◌, ltb, Option, none, some, List, [], ◌∷◌,
}
use tayga.Word.{u32}
use tayga.Fragment.{mtu_adj}

pub record Icmp : Type 0 where
  pub kind : ℕ
  pub code : ℕ
  pub word : ℕ

abbrev pub mtu_min : ℕ
mtu_min = 1280

abbrev pub is_one_of : ℕ → List ℕ → Bool
is_one_of n [] = false
is_one_of n (m ∷ ms) = n == m || is_one_of n ms

-- The first entry of the table that is smaller; 0 ends the table.
abbrev pub first_below : ℕ → List ℕ → ℕ
first_below too_big [] = 68
first_below too_big (m ∷ ms) = if ltb m too_big then m else first_below too_big ms

abbrev pub plateaus : List ℕ
plateaus = 65535 ∷ 32000 ∷ 17914 ∷ 8166 ∷ 4352 ∷ 2002 ∷ 1492 ∷ 1006 ∷ 508 ∷ 296 ∷ []

unfoldable pub est_mtu : ℕ → ℕ
est_mtu too_big = first_below too_big plateaus

-- The MTU of a Packet Too Big for a reported `mtu`, where the packet in question had length `em_length`.
unfoldable pub mtu_4to6 : ℕ → ℕ → ℕ → ℕ
mtu_4to6 own em_length reported =
    let known = if ltb reported 68 then est_mtu em_length else reported in
    let raised = known + mtu_adj in
    let capped = if ltb own raised then own else raised in
    if ltb capped mtu_min then mtu_min else capped

-- An entry of a `new_ptr_tbl`, where a negative one is `none`.
abbrev pub entry : List (Option ℕ) → ℕ → Option ℕ
entry [] i = none
entry (p ∷ ps) zero = p
entry (p ∷ ps) (suc i) = entry ps i

abbrev pub pointers_4to6 : List (Option ℕ)
pointers_4to6 =
    some 0
    ∷ some 1
    ∷ some 4
    ∷ some 4
    ∷ none
    ∷ none
    ∷ none
    ∷ none
    ∷ some 7
    ∷ some 6
    ∷ none
    ∷ none
    ∷ some 8
    ∷ some 8
    ∷ some 8
    ∷ some 8
    ∷ some 24
    ∷ some 24
    ∷ some 24
    ∷ some 24
    ∷ []

abbrev pub pointers_6to4 : List (Option ℕ)
pointers_6to4 = some 0 ∷ some 1 ∷ none ∷ none ∷ some 2 ∷ some 2 ∷ some 9 ∷ some 8 ∷ []

unfoldable pub pointer_4to6 : ℕ → Option ℕ
pointer_4to6 old_ptr = if ltb 19 old_ptr then none else entry pointers_4to6 old_ptr

unfoldable pub pointer_6to4 : ℕ → Option ℕ
pointer_6to4 old_ptr =
    if ltb 39 old_ptr
    then none
    else if ltb 23 old_ptr
    then some 16
    else if ltb 7 old_ptr
    then some 12
    else entry pointers_6to4 old_ptr

abbrev pub icmp : ℕ → ℕ → ℕ → Option Icmp
icmp kind code word = some (record { kind = kind; code = code; word = word })

abbrev pub with_pointer : ℕ → (ℕ → ℕ) → Option ℕ → Option Icmp
with_pointer kind place none = none
with_pointer kind place (some p) = icmp kind 0 (place p)

-- The case of Destination Unreachable in `xlate_4to6_icmp_error`; `own` is `gcfg.mtu`.
unfoldable pub unreachable_4to6 : ℕ → ℕ → Icmp → Option Icmp
unreachable_4to6 own em_length p =
    if is_one_of p.code (0 ∷ 1 ∷ 5 ∷ 6 ∷ 7 ∷ 8 ∷ 11 ∷ 12 ∷ [])
    then icmp 1 0 0
    else if p.code == 2
    then icmp 4 1 6
    else if p.code == 3
    then icmp 1 4 0
    else if p.code == 4
    then icmp 2 0 (mtu_4to6 own em_length (p.word % 2 ^ 16))
    else if is_one_of p.code (9 ∷ 10 ∷ 13 ∷ 15 ∷ [])
    then icmp 1 1 0
    else none

unfoldable pub error_4to6 : ℕ → ℕ → Icmp → Option Icmp
error_4to6 own em_length p =
    if p.kind == 3
    then unreachable_4to6 own em_length p
    else if p.kind == 11
    then icmp 3 p.code 0
    else if p.kind == 12
    then (if not (p.code == 0) && not (p.code == 2)
        then none
        else with_pointer 4 (λ t. t) (pointer_4to6 (p.word / 2 ^ 24)))
    else none

unfoldable pub unreachable_6to4 : Icmp → Option Icmp
unreachable_6to4 p =
    if is_one_of p.code (0 ∷ 2 ∷ 3 ∷ [])
    then icmp 3 1 0
    else if is_one_of p.code (1 ∷ 5 ∷ 6 ∷ [])
    then icmp 3 10 0
    else if p.code == 4
    then icmp 3 3 0
    else none

unfoldable pub error_6to4 : ℕ → Icmp → Option Icmp
error_6to4 own p =
    if p.kind == 1
    then unreachable_6to4 p
    else if p.kind == 2
    then (if ltb p.word (68 + mtu_adj)
        then none
        else icmp 3 4 (u32 ((if ltb own p.word then own else p.word) + 2 ^ 32 - mtu_adj)))
    else if p.kind == 3
    then icmp 11 p.code 0
    else if p.kind == 4
    then (if p.code == 0
        then with_pointer 12 (λ t. u32 (t * 2 ^ 24)) (pointer_6to4 p.word)
        else if p.code == 1
        then icmp 3 2 0
        else none)
    else none
