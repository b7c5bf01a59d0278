-- ===== src/Pool/Fold.antt =====
-- The folding of the hash in `assign_dynamic` ends within its fuel.
use tayga.Base.{
  ℕ, zero, suc, refl, ◌+◌, ◌-◌, ◌*◌, ◌/◌, ◌%◌, ◌^◌, bit_and, ◌≤◌, ◌<◌, ◌≡◌, subst, sym, ap, ◌∙◌,
  inl, inr, arith, false, ◌==◌, ==_iff, Bool-cases, ltb, ltb→lt, bit_and_high, bit_and_mask,
}
use mathlib.Core.Bool.{false≢true}
use native.Mathlib.Nat.{div-add-mod, pow-le-pow_right, add-mul-mod_self_right}
use tayga.Word.{u32}
use tayga.Addr.{In6Addr}
use tayga.Pool.{DynamicPool}
use tayga.Pool.Search.{fold, fold_in, base_of, pool_max}
use tayga.Pool.Found.{pool_max_lem}

-- A number that is not below `d` shrinks when its upper part is added to its lower part.
shrinks : (d b : ℕ) → 2 ≤ d → d ≤ b → b % d + b / d < b
shrinks d b two big = grind arith

mul_pred : (q d : ℕ) → 1 ≤ d → q * (d - 1) + q ≡ d * q
mul_pred q zero h = absurd (omega arith)
mul_pred q (suc d) h = grind arith

stays : (d b : ℕ) → 1 ≤ d → 1 ≤ b → 1 ≤ b % d + b / d
stays d b one h = grind arith

clear_upper : (d b : ℕ) → 1 ≤ d → b / d * d ≡ 0 → b < d
clear_upper d b one h =
    let parts : b ≡ b / d * d + b % d = grind arith in
    let small : b % d < d = grind arith in omega arith

below_upper : (d b : ℕ) → b < d → b / d * d ≡ 0
below_upper d b h = let none_of : b / d ≡ 0 = grind arith in rw none_of (omega arith)

-- The number below the size of the prefix that a word folds to.
pub record IsFolded (len b r : ℕ) : Type 0 where
  pub below : r < 2 ^ (32 - len)
  pub rest : r % (2 ^ (32 - len) - 1) ≡ b % (2 ^ (32 - len) - 1)
  pub positive : 1 ≤ b → 1 ≤ r

module _ (len : ℕ) (short : len ≤ 31) where
  abbrev d : ℕ
  d = 2 ^ (32 - len)

  bounds : (2 ≤ d) × (d ≤ 2 ^ 32)
  bounds =
      let low : 1 ≤ 32 - len = omega arith in
      let high : 32 - len ≤ 32 = omega arith in
      (pow-le-pow_right {n = 2} (omega arith) low, pow-le-pow_right {n = 2} (omega arith) high)

  whole : 32 - len + len ≡ 32
  whole = omega arith

  upper : (b : ℕ) → b < 2 ^ 32 → bit_and b (2 ^ 32 - 1 - (d - 1)) ≡ b / d * d
  upper b h =
      ap (λ (x : ℕ). bit_and b x) (omega (arith, bounds))
      ∙ subst (λ (w : ℕ). b < 2 ^ w → bit_and b (2 ^ w - d) ≡ b / d * d) whole
          (bit_and_high (32 - len) len b) h

  no_upper : (b : ℕ) → b < 2 ^ 32 → bit_and b (2 ^ 32 - 1 - (d - 1)) ≡ 0 → b < d
  no_upper b h e = clear_upper d b (omega (arith, bounds)) (sym (upper b h) ∙ e)

  less : (b : ℕ) → b < 2 ^ 32 → (bit_and b (2 ^ 32 - 1 - (d - 1)) == 0) ≡ false → b % d + b / d < b
  less b h more = elim (Bool-cases (ltb b d)) [
    | inl low ↦
        absurd
          (false≢true (sym more ∙ (==_iff _ _).1 (upper b h ∙ below_upper d b (ltb→lt b d low))))
    | inr high ↦ shrinks d b bounds.0 (ground arith)
  ]

  -- Adding the upper part to the lower part takes off a multiple of `d - 1`.
  same_rest : (b : ℕ) → (b % d + b / d) % (d - 1) ≡ b % (d - 1)
  same_rest b =
      let parts : b ≡ b % d + b / d + b / d * (d - 1) =
        omega (arith, div-add-mod b d, mul_pred (b / d) d (omega (arith, bounds))) in
      sym
        (ap (λ (x : ℕ). x % (d - 1)) parts ∙ add-mul-mod_self_right (b % d + b / d) (b / d) (d - 1))

  -- The fold of a word ends, with fuel for as many turns as its value, at a number below `d`.
  fold_enough : (n b : ℕ) → b < 2 ^ 32 → b ≤ n → IsFolded len b (fold (d - 1) len n b)
  unfolding fold
  fold_enough zero b h enough = record {
    below = omega (arith, bounds);
    rest = refl;
    positive = λ p. p;
  }
  fold_enough (suc n) b h enough = elim (Bool-cases (bit_and b (2 ^ 32 - 1 - (d - 1)) == 0)) [
    | inl done ↦
        rw done
          (record { below = no_upper b h ((==_iff _ _).0 done); rest = refl; positive = λ p. p })
    | inr more ↦
        let next =
          fold_enough n (b % d + b / d) (omega (arith, less b h more))
            (omega (arith, less b h more)) in
        rw (more, bit_and_mask (32 - len) b)
          (record {
            below = next.below;
            rest = next.rest ∙ same_rest b;
            positive = λ p. next.positive (stays d b (omega (arith, bounds)) p);
          })
  ]

  fold_in-IsFolded :
      (base word : ℕ) → IsFolded len (u32 (base + word)) (fold_in (d - 1) len base word)
  unfolding fold_in
  fold_in-IsFolded base word =
      fold_enough (u32 (base + word)) (u32 (base + word)) (omega arith) (omega arith)

-- With a prefix of at most 31 bits, each of the four loops on the hash ends within its fuel: the sum of
-- what the loop before it left and the next word, modulo 2^32, is folded to a number below the size `d`
-- of the prefix, with the same rest modulo `d - 1`, and to zero only if the sum is zero. So the hash, what
-- the last loop leaves, is an offset into the pool.
pub base_of-lt :
    (p : DynamicPool) (q : In6Addr)
    → p.map4.prefix_len ≤ 31
    → let hash = base_of (pool_max p) p.map4.prefix_len q in
      (b0 : ℕ) × (b1 : ℕ) × (b2 : ℕ) × IsFolded p.map4.prefix_len (u32 (0 + q.w0)) b0
      × IsFolded p.map4.prefix_len (u32 (b0 + q.w1)) b1
      × IsFolded p.map4.prefix_len (u32 (b1 + q.w2)) b2
      × IsFolded p.map4.prefix_len (u32 (b2 + q.w3)) hash
      × (hash < 2 ^ (32 - p.map4.prefix_len))
unfolding base_of
base_of-lt p q short =
    let len = p.map4.prefix_len in
    let max_is : pool_max p ≡ 2 ^ (32 - len) - 1 = omega (arith, pool_max_lem p short) in
    let turn = fold_in-IsFolded len short in
    rw max_is (_, _, _, turn 0 q.w0, turn _ q.w1, turn _ q.w2, turn _ q.w3, (turn _ q.w3).below)
