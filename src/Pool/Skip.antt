-- ===== src/Pool/Skip.antt =====
-- What the search of `assign_dynamic` may pass over: the range of an entry that hides the pool.
use tayga.Base.{
  ℕ, ◌+◌, ◌-◌, ◌*◌, ◌/◌, ◌%◌, ◌^◌, ◌≤◌, ◌<◌, ◌≡◌, sym, ap, ◌∙◌, subst, ◌⊎◌, inl, inr, arith, bit_or,
  Bool, false, ◌==◌, ==_iff, Bool-cases, Option-cases, Option, none, some, List, [], ◌∷◌, All,
  Member, All-Member, bit_or_add, one-le-pow,
}
use mathlib.Core.Bool.{false≢true}
use tayga.Word.{Endian, htonl}
use tayga.Word.Laws.{htonl-htonl, htonl-lt, htonl_injective}
use tayga.Mask.{mask4_of}
use tayga.Mask.Laws.{SamePrefix4, mask4_of_lem, two_pow_le}
use tayga.Maps.{Map4, find_map4}
use tayga.Maps.Scan.{first}
use tayga.Maps.Laws4.{IsMap4, IsTable4, IsSame4, IsDistinct4, IsLongest4, find_map4-IsLongest4}
use tayga.Pool.Search.{last_addr}

-- The address, in host order, lies in the entry.
abbrev pub Covers : Endian → Map4 → ℕ → Type 0
Covers e m a = a / 2 ^ (32 - m.prefix_len) ≡ htonl e m.addr / 2 ^ (32 - m.prefix_len)

module _ (d n : ℕ) (positive : 1 ≤ d) (net : n % d ≡ 0) where
  pub block_whole : n ≡ n / d * d
  block_whole = grind arith

  block_bounds : (a : ℕ) → a / d ≡ n / d → (n ≤ a) × (a ≤ n + (d - 1))
  block_bounds a h =
      let split : a ≡ n / d * d + a % d = grind arith in
      let small : a % d < d = grind arith in omega (arith, block_whole)

  pub block_inside : (y : ℕ) → n ≤ y → y ≤ n + (d - 1) → y / d ≡ n / d
  block_inside y lo hi = grind arith

pub last_addr_lem :
    (e : Endian) (m : Map4)
    → IsMap4 e m
    → last_addr e m ≡ htonl e m.addr + (2 ^ (32 - m.prefix_len) - 1)
last_addr_lem e m v =
    let k = 32 - m.prefix_len in
    let n = htonl e m.addr in
    let low : 1 ≤ 2 ^ k = one-le-pow k 2 (omega arith) in
    let small : 2 ^ k ≤ 2 ^ 32 = two_pow_le k (omega arith) in
    let whole : n ≡ n / 2 ^ k * 2 ^ k = block_whole (2 ^ k) n low v.net in
    let mask : 2 ^ 32 - 1 - htonl e m.mask ≡ 2 ^ k - 1 =
      rw
        (
          v.mask,
          htonl-htonl e (mask4_of m.prefix_len) (omega (arith, mask4_of_lem m.prefix_len v.len)),
          mask4_of_lem m.prefix_len v.len,
        )
        (omega arith) in
    rw mask (
      ap (λ x. bit_or x (2 ^ k - 1)) whole
      ∙ bit_or_add k (n / 2 ^ k) (2 ^ k - 1) (omega arith)
      ∙ ap (λ x. x + (2 ^ k - 1)) (sym whole))

-- All addresses from one in the entry to the last one are in it.
pub Covers-within :
    (e : Endian) (m : Map4) (a y : ℕ)
    → IsMap4 e m
    → Covers e m a
    → a ≤ y
    → y ≤ last_addr e m
    → Covers e m y
Covers-within e m a y v c lo hi =
    let d = 2 ^ (32 - m.prefix_len) in
    let low : 1 ≤ d = one-le-pow (32 - m.prefix_len) 2 (omega arith) in
    block_inside d (htonl e m.addr) low v.net y
      (omega (arith, block_bounds d (htonl e m.addr) low v.net a c))
      (omega (arith, last_addr_lem e m v))

pub Covers-last_addr :
    (e : Endian) (m : Map4) (a : ℕ) → IsMap4 e m → Covers e m a → a ≤ last_addr e m
Covers-last_addr e m a v c =
    let d = 2 ^ (32 - m.prefix_len) in
    let low : 1 ≤ d = one-le-pow (32 - m.prefix_len) 2 (omega arith) in
    omega (arith, last_addr_lem e m v, block_bounds d (htonl e m.addr) low v.net a c)

first-Member :
    {A : Type 0} (test : A → Bool) (xs : List A) (m : A) → first test xs ≡ some m → Member m xs
unfolding first
first-Member test [] m e = cc
first-Member test (x ∷ xs) m e = elim (Bool-cases (test x)) [
  | inl t ↦ inl (ground arith)
  | inr t ↦ inr (first-Member test xs m (ground arith))
]

distinct_lem :
    (table : List Map4) (m p : Map4)
    → IsDistinct4 table
    → Member m table
    → Member p table
    → m.prefix_len ≡ p.prefix_len
    → m.addr ≡ p.addr
    → m ≡ p
distinct_lem [] m p d im ip len at = absurd im
distinct_lem (x ∷ xs) m p d (inl em) (inl ep) len at = em ∙ sym ep
distinct_lem (x ∷ xs) m p d (inl em) (inr ip) len at = absurd (
    All-Member (λ s. ¬ IsSame4 x s) p xs d.0 ip
      (ap (λ (s : Map4). s.prefix_len) (sym em) ∙ len, ap (λ (s : Map4). s.addr) (sym em) ∙ at))
distinct_lem (x ∷ xs) m p d (inr im) (inl ep) len at = absurd (
    All-Member (λ s. ¬ IsSame4 x s) m xs d.0 im
      (
        ap (λ (s : Map4). s.prefix_len) (sym ep) ∙ sym len,
        ap (λ (s : Map4). s.addr) (sym ep) ∙ sym at,
      ))
distinct_lem (x ∷ xs) m p d (inr im) (inr ip) len at = distinct_lem xs m p d.1 im ip len at

-- The pool's entry stands in the table, alone with its owner.
pub record IsEntry (e : Endian) (table : List Map4) (pool : Map4) : Type 0 where
  pub table4 : IsTable4 e table
  pub listed : Member pool table
  pub only : All (λ s. s.owner ≡ pool.owner → s ≡ pool) table

-- A packet to the address would be for the pool.
abbrev owned_by : Map4 → Option Map4 → Bool
owned_by pool none = false
owned_by pool (some m) = m.owner == pool.owner

abbrev pub gives_pool : Endian → Map4 → List Map4 → ℕ → Bool
gives_pool e pool table a = owned_by pool (find_map4 (htonl e a) table)

module _ (e : Endian) (table : List Map4) (pool : Map4) (v : IsEntry e table pool) where
  longest :
      (a : ℕ) (o : Option Map4)
      → a < 2 ^ 32
      → find_map4 (htonl e a) table ≡ o
      → IsLongest4 e (htonl e a) table o
  longest a o ha p =
      subst (IsLongest4 e (htonl e a) table) p
        (find_map4-IsLongest4 e (htonl e a) table v.table4 (htonl-lt e a ha))

  reached_prefix :
      (a : ℕ) (m : Map4) → a < 2 ^ 32 → Covers e m a → SamePrefix4 e m.prefix_len (htonl e a) m.addr
  reached_prefix a m ha c = rw (htonl-htonl e a ha) c

  prefix_reached :
      (a : ℕ) (m : Map4) → a < 2 ^ 32 → SamePrefix4 e m.prefix_len (htonl e a) m.addr → Covers e m a
  prefix_reached a m ha c =
      subst (λ x. x / 2 ^ (32 - m.prefix_len) ≡ htonl e m.addr / 2 ^ (32 - m.prefix_len))
        (htonl-htonl e a ha) c

  found_Member : (a : ℕ) (m : Map4) → find_map4 (htonl e a) table ≡ some m → Member m table
  unfolding find_map4
  found_Member a m p = first-Member _ table m p

  -- Two entries of one length that cover an address are one entry.
  one_entry :
      (a : ℕ) (m p : Map4)
      → Member m table
      → Member p table
      → m.prefix_len ≡ p.prefix_len
      → Covers e m a
      → Covers e p a
      → m ≡ p
  one_entry a m p im ip len cm cp =
      let vm : IsMap4 e m = All-Member (IsMap4 e) m table v.table4.entries im in
      let vp : IsMap4 e p = All-Member (IsMap4 e) p table v.table4.entries ip in
      let d = 2 ^ (32 - m.prefix_len) in
      let low : 1 ≤ d = one-le-pow (32 - m.prefix_len) 2 (omega arith) in
      let cp' : a / d ≡ htonl e p.addr / d =
        subst (λ (n : ℕ). a / 2 ^ (32 - n) ≡ htonl e p.addr / 2 ^ (32 - n)) (sym len) cp in
      let net : htonl e p.addr % d ≡ 0 =
        subst (λ (n : ℕ). htonl e p.addr % 2 ^ (32 - n) ≡ 0) (sym len) vp.net in
      let at : htonl e m.addr ≡ htonl e p.addr =
        block_whole d (htonl e m.addr) low vm.net
        ∙ ap (λ (x : ℕ). x * d) (sym cm ∙ cp')
        ∙ sym (block_whole d (htonl e p.addr) low net) in
      distinct_lem table m p v.table4.distinct im ip len
        (htonl_injective e m.addr p.addr vm.word vp.word at)

  -- No other entry that covers an address is longer than what is found.
  no_longer :
      (a : ℕ) (m s : Map4)
      → a < 2 ^ 32
      → find_map4 (htonl e a) table ≡ some m
      → Member s table
      → Covers e s a
      → s.prefix_len ≤ m.prefix_len
  no_longer a m s ha p i c =
      elim (All-Member
        (λ t. (¬ SamePrefix4 e t.prefix_len (htonl e a) t.addr) ⊎ (t.prefix_len ≤ m.prefix_len)) s
        table (longest a (some m) ha p).1 i) [
          | inl apart ↦ absurd (apart (reached_prefix a s ha c))
          | inr le ↦ le
        ]

  -- Within the pool something is found, and it covers the address.
  pub found_within :
      (a : ℕ)
      → a < 2 ^ 32
      → Covers e pool a
      → (m : Map4) × (find_map4 (htonl e a) table ≡ some m)
        × Covers e m a
        × IsMap4 e m
        × Member m table
  found_within a ha c = elim (Option-cases (find_map4 (htonl e a) table)) [
    | inl n ↦ absurd (
        All-Member (λ s. ¬ SamePrefix4 e s.prefix_len (htonl e a) s.addr) pool table
          (longest a none ha n) v.listed (reached_prefix a pool ha c))
    | inr (m, p) ↦
        let here : Member m table = found_Member a m p in
        (
          m,
          p,
          prefix_reached a m ha (longest a (some m) ha p).0,
          All-Member (IsMap4 e) m table v.table4.entries here,
          here,
        )
  ]

  -- An entry that is found in place of the pool hides the pool wherever it covers.
  pub hidden :
      (a y : ℕ) (m : Map4)
      → a < 2 ^ 32
      → y < 2 ^ 32
      → Covers e pool a
      → find_map4 (htonl e a) table ≡ some m
      → Covers e m a
      → Member m table
      → (m.owner == pool.owner) ≡ false
      → Covers e m y
      → gives_pool e pool table y ≡ false
  hidden a y m ha hy c p cm im other cy = elim (Option-cases (find_map4 (htonl e y) table)) [
    | inl n ↦ rw n
    | inr (m', p') ↦ elim (Bool-cases (m'.owner == pool.owner)) [
      | inr fail ↦ rw (p', fail)
      | inl pass ↦
          let same : m' ≡ pool =
            All-Member (λ s. s.owner ≡ pool.owner → s ≡ pool) m' table v.only (found_Member y m' p')
              ((==_iff m'.owner pool.owner).0 pass) in
          let above : m.prefix_len ≤ pool.prefix_len =
            subst (λ (s : Map4). m.prefix_len ≤ s.prefix_len) same (no_longer y m' m hy p' im cy) in
          let below : pool.prefix_len ≤ m.prefix_len = no_longer a m pool ha p v.listed c in
          let one : m ≡ pool = one_entry a m pool im v.listed (omega arith) cm c in
          absurd (
            false≢true (sym other ∙ (==_iff m.owner pool.owner).1 (ap (λ (s : Map4). s.owner) one)))
    ]
  ]
