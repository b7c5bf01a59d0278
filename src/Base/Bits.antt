-- ===== src/Base/Bits.antt =====
-- `&`, `|` and `^` on numbers, cut into fields of bits.
use Prim.Native.Nat.{
  ℕ, zero, suc, ◌+◌, ◌-◌, ◌*◌, ◌/◌, ◌%◌, ◌^◌, ◌≤◌, ◌<◌, min, max, digits, bitwise, bit_and, bit_or,
  bit_and-bitwise, bit_or-bitwise,
}
use mathlib.Core.Path.{◌≡◌, refl, sym, ap, ap₂, ◌∙◌}
use native.Mathlib.Nat.{le_refl, pow-suc, one-le-pow, add-zero, div-add-mod}
use native.Mathlib.Omega.{arith}

-- `digits` walks down the binary digits of its first number, one digit for each unit of fuel, and a
-- number has fewer digits than its value: fuel beyond the value is never used.
module _ (tail : ℕ → ℕ) (digit : ℕ → ℕ → ℕ) where
  abbrev walk : ℕ → ℕ → ℕ → ℕ
  walk fuel x y = digits tail digit fuel x y

  spare : (fuel x y : ℕ) → x ≤ fuel → walk (suc fuel) x y ≡ walk fuel x y
  spare zero zero y h = refl
  spare zero (suc x) y h = absurd (omega arith)
  spare (suc fuel) zero y h = refl
  spare (suc fuel) (suc x) y h =
      ap (λ (t : ℕ). t * 2 + digit (suc x % 2) (y % 2))
        (spare fuel (suc x / 2) (y / 2) (omega arith))

  spares : (d fuel x y : ℕ) → x ≤ fuel → walk (fuel + d) x y ≡ walk fuel x y
  spares zero fuel x y h = ap (λ (t : ℕ). walk t x y) (add-zero fuel)
  spares (suc d) fuel x y h =
      let more : fuel + suc d ≡ suc (fuel + d) = omega arith in
      ap (λ (t : ℕ). walk t x y) more ∙ spare (fuel + d) x y (omega arith) ∙ spares d fuel x y h

  lowest_digit :
      (x y : ℕ)
      → bitwise tail digit (suc x) y
        ≡ bitwise tail digit (suc x / 2) (y / 2) * 2 + digit (suc x % 2) (y % 2)
  lowest_digit x y =
      let split : suc x / 2 + (x - suc x / 2) ≡ x = omega arith in
      ap (λ (t : ℕ). t * 2 + digit (suc x % 2) (y % 2))
        (ap (λ (t : ℕ). walk t (suc x / 2) (y / 2)) (sym split)
          ∙ spares (x - suc x / 2) (suc x / 2) (suc x / 2) (y / 2) (le_refl _))

bit_or_step : (x y : ℕ) → bit_or x y ≡ bit_or (x / 2) (y / 2) * 2 + max (x % 2) (y % 2)
bit_or_step zero y = omega (arith, bit_or-bitwise 0 y, bit_or-bitwise 0 (y / 2))
bit_or_step (suc x) y =
    bit_or-bitwise (suc x) y
    ∙ lowest_digit (λ y. y) max x y
    ∙ ap (λ (t : ℕ). t * 2 + max (suc x % 2) (y % 2)) (sym (bit_or-bitwise (suc x / 2) (y / 2)))

bit_and_step : (x y : ℕ) → bit_and x y ≡ bit_and (x / 2) (y / 2) * 2 + min (x % 2) (y % 2)
bit_and_step zero y = omega (arith, bit_and-bitwise 0 y, bit_and-bitwise 0 (y / 2))
bit_and_step (suc x) y =
    bit_and-bitwise (suc x) y
    ∙ lowest_digit (λ y. 0) min x y
    ∙ ap (λ (t : ℕ). t * 2 + min (suc x % 2) (y % 2)) (sym (bit_and-bitwise (suc x / 2) (y / 2)))

pub zero-bit_and : (b : ℕ) → bit_and 0 b ≡ 0
zero-bit_and b = bit_and-bitwise 0 b

pub zero-bit_or : (b : ℕ) → bit_or 0 b ≡ b
zero-bit_or b = bit_or-bitwise 0 b

mul_two_pow_suc : (q k : ℕ) → q * 2 ^ suc k ≡ 2 * (q * 2 ^ k)
mul_two_pow_suc q k = omega (arith, ap (λ (t : ℕ). q * t) (pow-suc 2 k))

-- Fields of `k` low bits and the bits above them do not interfere.
bit_and_fields :
    (k q r q' r' : ℕ)
    → r < 2 ^ k
    → r' < 2 ^ k
    → bit_and (q * 2 ^ k + r) (q' * 2 ^ k + r') ≡ bit_and q q' * 2 ^ k + bit_and r r'
bit_and_fields zero q r q' r' h h' = ground (arith, zero-bit_and 0)
bit_and_fields (suc k) q r q' r' h h' = ground (
  arith,
  bit_and_step (q * 2 ^ suc k + r) (q' * 2 ^ suc k + r'),
  bit_and_step r r',
  mul_two_pow_suc q k,
  mul_two_pow_suc q' k,
  mul_two_pow_suc (bit_and q q') k,
  pow-suc 2 k,
  bit_and_fields k q (r / 2) q' (r' / 2) (omega (arith, pow-suc 2 k)) (omega (arith, pow-suc 2 k)),
)

bit_or_fields :
    (k q r q' r' : ℕ)
    → r < 2 ^ k
    → r' < 2 ^ k
    → bit_or (q * 2 ^ k + r) (q' * 2 ^ k + r') ≡ bit_or q q' * 2 ^ k + bit_or r r'
bit_or_fields zero q r q' r' h h' = ground (arith, zero-bit_or 0)
bit_or_fields (suc k) q r q' r' h h' = ground (
  arith,
  bit_or_step (q * 2 ^ suc k + r) (q' * 2 ^ suc k + r'),
  bit_or_step r r',
  mul_two_pow_suc q k,
  mul_two_pow_suc q' k,
  mul_two_pow_suc (bit_or q q') k,
  pow-suc 2 k,
  bit_or_fields k q (r / 2) q' (r' / 2) (omega (arith, pow-suc 2 k)) (omega (arith, pow-suc 2 k)),
)

pub bit_and_split :
    (k a b : ℕ)
    → bit_and a b ≡ bit_and (a / 2 ^ k) (b / 2 ^ k) * 2 ^ k + bit_and (a % 2 ^ k) (b % 2 ^ k)
bit_and_split k a b =
    ground (arith, one-le-pow k 2, bit_and_fields k (a / 2 ^ k) (a % 2 ^ k) (b / 2 ^ k) (b % 2 ^ k))

pub bit_or_split :
    (k a b : ℕ)
    → bit_or a b ≡ bit_or (a / 2 ^ k) (b / 2 ^ k) * 2 ^ k + bit_or (a % 2 ^ k) (b % 2 ^ k)
bit_or_split k a b =
    ground (arith, one-le-pow k 2, bit_or_fields k (a / 2 ^ k) (a % 2 ^ k) (b / 2 ^ k) (b % 2 ^ k))

below_two_pow : (x : ℕ) → x < 2 ^ x
below_two_pow zero = omega arith
below_two_pow (suc x) = omega (arith, below_two_pow x, pow-suc 2 x)

no_bits : (k x : ℕ) → x < 2 ^ k → (bit_and x 0 ≡ 0) × (bit_or x 0 ≡ x)
no_bits zero x h = ground (arith, zero-bit_and 0, zero-bit_or 0)
no_bits (suc k) x h =
    let half = no_bits k (x / 2) (omega (arith, pow-suc 2 k)) in
    (omega (arith, bit_and_step x 0, half), omega (arith, bit_or_step x 0, half))

pub bit_and-zero : (x : ℕ) → bit_and x 0 ≡ 0
bit_and-zero x = (no_bits x x (below_two_pow x)).0

pub bit_or-zero : (x : ℕ) → bit_or x 0 ≡ x
bit_or-zero x = (no_bits x x (below_two_pow x)).1

-- A mask of `k` ones is the remainder by `2 ^ k`.
pub bit_and_ones : (k a : ℕ) → a < 2 ^ k → bit_and a (2 ^ k - 1) ≡ a
bit_and_ones zero a h = ground (arith, zero-bit_and 0)
bit_and_ones (suc k) a h = ground (
  arith,
  bit_and_step a (2 ^ suc k - 1),
  pow-suc 2 k,
  one-le-pow k 2,
  bit_and_ones k (a / 2) (omega (arith, pow-suc 2 k)),
)

-- `|` of a field above `k` bits and one that fits them is their sum.
pub bit_or_add : (k q r : ℕ) → r < 2 ^ k → bit_or (q * 2 ^ k) r ≡ q * 2 ^ k + r
bit_or_add k q r h = ground (
  arith,
  one-le-pow k 2,
  bit_or_fields k q 0 0 r (omega (arith, one-le-pow k 2)) h,
  bit_or-zero q,
  zero-bit_or r,
)

pub bit_and_lt : (k a b : ℕ) → a < 2 ^ k → bit_and a b < 2 ^ k
bit_and_lt zero a b h = ground (arith, zero-bit_and b)
bit_and_lt (suc k) a b h = ground (
  arith,
  bit_and_step a b,
  pow-suc 2 k,
  bit_and_lt k (a / 2) (b / 2) (omega (arith, pow-suc 2 k)),
)

pub bit_or_lt : (k a b : ℕ) → a < 2 ^ k → b < 2 ^ k → bit_or a b < 2 ^ k
bit_or_lt zero a b h h' = ground (arith, zero-bit_or b)
bit_or_lt (suc k) a b h h' = ground (
  arith,
  bit_or_step a b,
  pow-suc 2 k,
  bit_or_lt k (a / 2) (b / 2) (omega (arith, pow-suc 2 k)) (omega (arith, pow-suc 2 k)),
)

pub quotient_remainder :
    (k q r : ℕ) → r < 2 ^ k → ((q * 2 ^ k + r) / 2 ^ k ≡ q) × ((q * 2 ^ k + r) % 2 ^ k ≡ r)
quotient_remainder k q r h = (grind arith, grind arith)

-- Both operations act on the bits above `k` and on those below each by themselves.
pub bit_and_parts :
    (k a b : ℕ)
    → (bit_and a b / 2 ^ k ≡ bit_and (a / 2 ^ k) (b / 2 ^ k))
      × (bit_and a b % 2 ^ k ≡ bit_and (a % 2 ^ k) (b % 2 ^ k))
bit_and_parts k a b =
    rw (bit_and_split k a b)
      (quotient_remainder k _ _ (bit_and_lt k _ _ (omega (arith, one-le-pow k 2))))

pub bit_or_parts :
    (k a b : ℕ)
    → (bit_or a b / 2 ^ k ≡ bit_or (a / 2 ^ k) (b / 2 ^ k))
      × (bit_or a b % 2 ^ k ≡ bit_or (a % 2 ^ k) (b % 2 ^ k))
bit_or_parts k a b = rw (bit_or_split k a b) (
    quotient_remainder k _ _
      (bit_or_lt k _ _ (omega (arith, one-le-pow k 2)) (omega (arith, one-le-pow k 2))))

div_small : (a b : ℕ) → a < b → (a / b ≡ 0) × (a % b ≡ a)
div_small a b h = (grind arith, grind arith)

pub pow_add : (k m : ℕ) → 2 ^ (k + m) ≡ 2 ^ k * 2 ^ m
pow_add k zero = omega (arith, ap (λ (t : ℕ). 2 ^ t) (add-zero k))
pow_add k (suc m) =
    ap (λ (t : ℕ). 2 ^ t) (omega arith)
    ∙ pow-suc 2 (k + m)
    ∙ omega (arith, ap (λ (t : ℕ). 2 * t) (pow_add k m), ap (λ (t : ℕ). 2 ^ k * t) (pow-suc 2 m))

pub below_div : (p q a : ℕ) → a < p * q → a / p < q
below_div p q a h = grind arith

less_one : (p q : ℕ) → 1 ≤ q → p * q - p ≡ (q - 1) * p + 0
less_one p zero h = absurd (omega arith)
less_one p (suc n) h = let e : suc n - 1 ≡ n = omega arith in omega (arith, ap (λ (t : ℕ). t * p) e)

-- A mask of `m` ones above `k` zeros clears the low `k` bits of a word of `k + m` bits.
pub bit_and_high :
    (k m a : ℕ) → a < 2 ^ (k + m) → bit_and a (2 ^ (k + m) - 2 ^ k) ≡ a / 2 ^ k * 2 ^ k
bit_and_high k m a h =
    ap₂ bit_and whole mask
    ∙ bit_and_fields k (a / 2 ^ k) (a % 2 ^ k) (2 ^ m - 1) 0 (omega (arith, one-le-pow k 2))
        (omega (arith, one-le-pow k 2))
    ∙ omega (
      arith,
      bit_and-zero (a % 2 ^ k),
      ap (λ (t : ℕ). t * 2 ^ k)
          (bit_and_ones m (a / 2 ^ k) (below_div (2 ^ k) (2 ^ m) a (omega (arith, pow_add k m)))),
    )
  where
    whole : a ≡ a / 2 ^ k * 2 ^ k + a % 2 ^ k
    whole = omega (arith, div-add-mod a (2 ^ k))

    mask : 2 ^ (k + m) - 2 ^ k ≡ (2 ^ m - 1) * 2 ^ k + 0
    mask =
        ap (λ (t : ℕ). t - 2 ^ k) (pow_add k m)
        ∙ less_one (2 ^ k) (2 ^ m) (one-le-pow m 2 (omega arith))

-- A mask of `k` ones is the remainder by `2 ^ k`.
pub bit_and_mask : (k a : ℕ) → bit_and a (2 ^ k - 1) ≡ a % 2 ^ k
bit_and_mask k a =
    bit_and_split k a (2 ^ k - 1)
    ∙ ground (
      arith,
      one-le-pow k 2,
      div_small (2 ^ k - 1) (2 ^ k),
      bit_and-zero (a / 2 ^ k),
      bit_and_ones k (a % 2 ^ k),
    )

-- `|` in the other order: the low field first.
pub bit_or_add' : (k q r : ℕ) → r < 2 ^ k → bit_or r (q * 2 ^ k) ≡ q * 2 ^ k + r
bit_or_add' k q r h = ground (
  arith,
  one-le-pow k 2,
  bit_or_fields k 0 r q 0 h (omega (arith, one-le-pow k 2)),
  bit_or-zero r,
  zero-bit_or q,
)

-- A mask of `m` ones above `k` zeros.
pub bit_and_field : (k m a : ℕ) → bit_and a ((2 ^ m - 1) * 2 ^ k) ≡ a / 2 ^ k % 2 ^ m * 2 ^ k
bit_and_field k m a =
    ap (λ (t : ℕ). bit_and t ((2 ^ m - 1) * 2 ^ k)) whole
    ∙ ap (λ (t : ℕ). bit_and (a / 2 ^ k * 2 ^ k + a % 2 ^ k) t) mask
    ∙ bit_and_fields k (a / 2 ^ k) (a % 2 ^ k) (2 ^ m - 1) 0 (omega (arith, one-le-pow k 2))
        (omega (arith, one-le-pow k 2))
    ∙ omega
        (arith, bit_and-zero (a % 2 ^ k), ap (λ (t : ℕ). t * 2 ^ k) (bit_and_mask m (a / 2 ^ k)))
  where
    whole : a ≡ a / 2 ^ k * 2 ^ k + a % 2 ^ k
    whole = omega (arith, div-add-mod a (2 ^ k))

    mask : (2 ^ m - 1) * 2 ^ k ≡ (2 ^ m - 1) * 2 ^ k + 0
    mask = omega arith

bit_and_comm_fuel : (n a b : ℕ) → a ≤ n → bit_and a b ≡ bit_and b a
bit_and_comm_fuel n zero b h = zero-bit_and b ∙ sym (bit_and-zero b)
bit_and_comm_fuel zero (suc a) b h = absurd (omega arith)
bit_and_comm_fuel (suc n) (suc a) b h = omega (
  arith,
  bit_and_step (suc a) b,
  bit_and_step b (suc a),
  bit_and_comm_fuel n (suc a / 2) (b / 2) (omega arith),
)

pub bit_and_comm : (a b : ℕ) → bit_and a b ≡ bit_and b a
bit_and_comm a b = bit_and_comm_fuel a a b (omega arith)
