-- ===== src/Ident/Laws.antt =====
-- The identifications that the threads reserve do not collide within a window of 65536.
use tayga.Base.{ℕ, ◌+◌, ◌%◌, ◌^◌, ◌≤◌, ◌<◌, ◌≡◌, ◌≢◌, arith, List, [], ◌∷◌, All, All-map}
use tayga.Ident.{Reservation, reserve_ip4_ident, Reserved, idle, reserve}

-- The identifications of the reservations, newest first, in all.
abbrev pub total : List Reservation → ℕ
total [] = 0
total (r ∷ rs) = r.count + total rs

-- Identification `i` of a reservation.
abbrev pub ident_of : Reservation → ℕ → ℕ
ident_of r i = (r.first + i) % 2 ^ 16

-- No identification of `r` is one of `r'`.
abbrev pub IsApart : Reservation → Reservation → Type 0
IsApart r r' = (i j : ℕ) → i < r.count → j < r'.count → ident_of r i ≢ ident_of r' j

-- Each identification of a reservation once, and none that an earlier reservation has.
abbrev pub AreDistinct : List Reservation → Type 0
AreDistinct [] = Unit
AreDistinct (r ∷ rs) =
    ((i j : ℕ) → i < r.count → j < r.count → ident_of r i ≡ ident_of r j → i ≡ j)
    × All (IsApart r) rs
    × AreDistinct rs

-- Where the reservations lie below the counter: `r` begins at most `n` steps before it.
abbrev Within : ℕ → ℕ → Reservation → Type 0
Within counter n r =
    (back : ℕ) × (r.count ≤ back) × (back ≤ n) × ((r.first + back) % 2 ^ 16 ≡ counter % 2 ^ 16)

Reserved-Within :
    {start counter : ℕ} {taken : List Reservation}
    → Reserved start taken counter
    → All (Within counter (total taken)) taken
unfolding reserve_ip4_ident
Reserved-Within idle = tt
Reserved-Within (reserve {start} {counter} {taken} worker count small r) = (
  (count, omega arith, omega arith, omega arith),
  All-map (λ r' w. (w.0 + count, omega (arith, w.1), omega (arith, w.2), omega (arith, w.3))) taken
      (Reserved-Within r),
)

-- In any interleaving of the threads' calls, the identifications of a series of reservations that
-- make at most 65536 in all are distinct, within a reservation and across threads.
pub reserve_ip4_ident-AreDistinct :
    {start counter : ℕ} {taken : List Reservation}
    → Reserved start taken counter
    → total taken ≤ 2 ^ 16
    → AreDistinct taken
unfolding reserve_ip4_ident
reserve_ip4_ident-AreDistinct idle h = tt
reserve_ip4_ident-AreDistinct (reserve {start} {counter} {taken} worker count small r) h = (
  λ i j hi hj same. omega arith,
  All-map (λ r' w i j hi hj same. absurd (omega (arith, w.1, w.2, w.3))) taken (Reserved-Within r),
  reserve_ip4_ident-AreDistinct r (omega arith),
)
