-- ===== src/Addr/Laws.antt =====
-- The address checks of src/addrmap.c against the ranges that their comments name, on a host of
-- either byte order.
use tayga.Base.{
  ℕ, ◌+◌, ◌-◌, ◌*◌, ◌/◌, ◌%◌, ◌^◌, ◌<◌, bit_and, ◌≡◌, refl, ap, ◌∙◌, ◌⊎◌, ◌↔◌, arith, sym, ◌==◌,
  ==_congr, bit_and_high, bit_and_ones, bit_and_split, ◌≢◌, mul-div_cancel, div-add-mod, subst,
  one-le-pow,
}
use tayga.Word.{Endian, big, little, htonl, htons}
use tayga.Word.Laws.{masked_eq, htonl-lt}
use tayga.Addr.{
  error_none, error_reject, error_drop, error_local, In6Addr, in_net, memory_byte, first_half,
  validate_ip4_addr, validate_ip6_addr, is_private_ip4_addr,
}

-- Host-order address `h` lies in the network `net`, of which the low `k` bits are the host part.
abbrev pub InNet : ℕ → ℕ → ℕ → Type 0
InNet h net k = h / 2 ^ k ≡ net / 2 ^ k

-- The test that the code writes is membership: the low `k` bits are masked out.
net_mask : (k m a : ℕ) → k + m ≡ 32 → a < 2 ^ 32 → bit_and a (2 ^ 32 - 2 ^ k) ≡ a / 2 ^ k * 2 ^ k
net_mask k m a s =
    subst (λ t. a < 2 ^ t → bit_and a (2 ^ t - 2 ^ k) ≡ a / 2 ^ k * 2 ^ k) s (bit_and_high k m a)

scaled_eq : (p x n : ℕ) → 0 < p → n % p ≡ 0 → (x * p == n) ≡ (x == n / p)
scaled_eq p x n h z =
    ==_congr _ _ _ _ (λ q. rw (← q) (sym (mul-div_cancel x h)))
      (λ q. grind (arith, div-add-mod n p))

pub in_net_lem :
    (k m : ℕ) (e : Endian) (a net : ℕ)
    → k + m ≡ 32
    → a < 2 ^ 32
    → net < 2 ^ 32
    → net % 2 ^ k ≡ 0
    → in_net e a (2 ^ 32 - 2 ^ k) net ≡ (htonl e a / 2 ^ k == net / 2 ^ k)
in_net_lem k m e a net s ha hn z =
    masked_eq e a (2 ^ 32 - 2 ^ k) net ha (omega (arith, one-le-pow k 2)) hn
    ∙ ap (λ (t : ℕ). t == net) (net_mask k m (htonl e a) s (htonl-lt e a ha))
    ∙ scaled_eq (2 ^ k) (htonl e a / 2 ^ k) net (one-le-pow k 2 (omega arith)) z

broadcast_eq : (e : Endian) (a : ℕ) → a < 2 ^ 32 → (a == 0xffffffff) ≡ (htonl e a == 0xffffffff)
unfolding htonl
broadcast_eq big a h = refl
broadcast_eq little a h = ==_congr _ _ _ _ (λ q. omega arith) (λ q. omega arith)

pub prefix_eq :
    (e : Endian) (w : ℕ) → w < 2 ^ 32 → (w == htonl e 0x0064ff9b) ≡ (htonl e w == 0x0064ff9b)
unfolding htonl
prefix_eq big w h = refl
prefix_eq little w h = ==_congr _ _ _ _ (λ q. omega arith) (λ q. omega arith)

pub first_byte : (e : Endian) (w : ℕ) → w < 2 ^ 32 → memory_byte e w 0 ≡ htonl e w / 2 ^ 24
unfolding htonl
first_byte big w h = omega arith
first_byte little w h = omega arith

-- `validate_ip4_addr` drops 0/8, 127/8, 224/4 and the broadcast address, and no others; it reports
-- 169.254/16 as local.
pub validate_ip4_addr_lem :
    (e : Endian) (a : ℕ)
    → a < 2 ^ 32
    → let h = htonl e a in
      ((validate_ip4_addr e a ≡ error_drop)
        ↔ (InNet h 0 24 ⊎ InNet h 0x7f000000 24 ⊎ InNet h 0xe0000000 28 ⊎ (h ≡ 0xffffffff)))
      × ((validate_ip4_addr e a ≡ error_local) ↔ InNet h 0xa9fe0000 16)
unfolding validate_ip4_addr
validate_ip4_addr_lem e a ha = ground (
  arith,
  in_net_lem 24 8 e a 0 refl ha,
  in_net_lem 24 8 e a 0x7f000000 refl ha,
  in_net_lem 16 16 e a 0xa9fe0000 refl ha,
  in_net_lem 28 4 e a 0xe0000000 refl ha,
  broadcast_eq e a ha,
)

link_local_eq :
    (e : Endian) (w : ℕ)
    → w < 2 ^ 32
    → (bit_and (first_half e w) (htons e 0xffc0) == htons e 0xfe80)
      ≡ (htonl e w / 2 ^ 22 == 0xfe80 / 2 ^ 6)
unfolding htonl htons
link_local_eq big w h =
    ==_congr _ _ _ _ (λ q. omega (arith, bit_and_high 6 10 (w / 2 ^ 16) (omega arith)))
      (λ q. omega (arith, bit_and_high 6 10 (w / 2 ^ 16) (omega arith)))
link_local_eq little w h =
    let low = bit_and_ones 8 (w % 2 ^ 8) (omega arith) in
    let high = bit_and_high 6 2 (w / 2 ^ 8 % 2 ^ 8) (omega arith) in
    let e1 : w % 2 ^ 16 / 2 ^ 8 ≡ w / 2 ^ 8 % 2 ^ 8 = omega arith in
    let e2 : w % 2 ^ 16 % 2 ^ 8 ≡ w % 2 ^ 8 = omega arith in
    let split : bit_and (w % 2 ^ 16) 0xc0ff
        ≡ w / 2 ^ 8 % 2 ^ 8 / 2 ^ 6 * 2 ^ 6 * 2 ^ 8 + w % 2 ^ 8 =
      ground (arith, bit_and_split 8 (w % 2 ^ 16) 0xc0ff, e1, e2, low, high) in
    ==_congr _ _ _ _ (λ q. omega arith) (λ q. omega arith)

-- `validate_ip6_addr` accepts 64:ff9b::/32 first, then drops ::/8, ff00::/8 and fe80::/10, and
-- accepts every other address.
pub validate_ip6_addr_lem :
    (e : Endian) (a : In6Addr)
    → a.w0 < 2 ^ 32
    → let p = htonl e a.w0 in
      ((validate_ip6_addr e a ≡ error_drop)
        ↔ ((p ≢ 0x0064ff9b) × (InNet p 0 24 ⊎ InNet p 0xff000000 24 ⊎ InNet p 0xfe800000 22)))
      × ((validate_ip6_addr e a ≡ error_none) ⊎ (validate_ip6_addr e a ≡ error_drop))
unfolding validate_ip6_addr
validate_ip6_addr_lem e a h =
    ground (arith, prefix_eq e a.w0 h, first_byte e a.w0 h, link_local_eq e a.w0 h)

-- `is_private_ip4_addr` rejects the private, shared, documentation, benchmark and reserved ranges
-- that its comments list, where 192.0.0.0/29 is let through, and no others.
pub is_private_ip4_addr_lem :
    (e : Endian) (a : ℕ)
    → a < 2 ^ 32
    → let h = htonl e a in
      ((is_private_ip4_addr e a ≡ error_reject) ↔ (
        InNet h 0x0a000000 24
        ⊎ InNet h 0x64400000 22
        ⊎ InNet h 0xac100000 20
        ⊎ InNet h 0xc0000200 8
        ⊎ InNet h 0xc0a80000 16
        ⊎ InNet h 0xc6120000 17
        ⊎ InNet h 0xc6336400 8
        ⊎ InNet h 0xcb007100 8
        ⊎ (InNet h 0xc0000000 8 × ¬ InNet h 0xc0000000 3)
        ⊎ InNet h 0xf0000000 28))
      × ((is_private_ip4_addr e a ≡ error_none) ⊎ (is_private_ip4_addr e a ≡ error_reject))
unfolding is_private_ip4_addr
is_private_ip4_addr_lem e a ha = ground (
  arith,
  in_net_lem 24 8 e a 0x0a000000 refl ha,
  in_net_lem 22 10 e a 0x64400000 refl ha,
  in_net_lem 20 12 e a 0xac100000 refl ha,
  in_net_lem 8 24 e a 0xc0000200 refl ha,
  in_net_lem 16 16 e a 0xc0a80000 refl ha,
  in_net_lem 17 15 e a 0xc6120000 refl ha,
  in_net_lem 8 24 e a 0xc6336400 refl ha,
  in_net_lem 8 24 e a 0xcb007100 refl ha,
  in_net_lem 8 24 e a 0xc0000000 refl ha,
  in_net_lem 3 29 e a 0xc0000000 refl ha,
  in_net_lem 28 4 e a 0xf0000000 refl ha,
)
