-- ===== src/Icmp/Laws.antt =====
-- What the translation of ICMP errors in src/nat64.c keeps.
use tayga.Base.{
  Bool, Bool-cases, [], arith, false, if◌then◌else◌, inl, inr, leb, ltb, none, not, refl, some,
  true, ℕ, ◌%◌, ◌*◌, ◌+◌, ◌-◌, ◌/◌, ◌<◌, ◌==◌, ◌^◌, ◌||◌, ◌∙◌, ◌∷◌, ◌≡◌, ◌≤◌, ◌⊎◌,
}
use tayga.Base.{All, every, every_lem, leb, ◌&&◌, Option-cases}
use tayga.Word.{u32}
use tayga.Icmp.{
  unreachable_4to6, unreachable_6to4, is_one_of, Icmp, est_mtu, plateaus, mtu_4to6, pointer_4to6,
  pointer_6to4, error_4to6, error_6to4,
}

-- `est_mtu` gives the largest plateau below the length, or 68 if there is none.
pub est_mtu_lem :
    (n : ℕ)
    → ((est_mtu n ≡ 68) × (n ≤ 296))
      ⊎ ((est_mtu n < n)
          × (is_one_of (est_mtu n) plateaus ≡ true)
          × All (λ (m : ℕ). (m ≤ est_mtu n) ⊎ (n ≤ m)) plateaus)
unfolding est_mtu
est_mtu_lem n = ground arith

-- The MTU of a Packet Too Big lies between 1280 and our own, and does not exceed the reported one by
-- more than 20 unless it is 1280.
pub mtu_4to6_lem :
    (own em_length reported : ℕ)
    → 1280 ≤ own
    → (1280 ≤ mtu_4to6 own em_length reported)
      × (mtu_4to6 own em_length reported ≤ own)
      × ((reported < 68)
          ⊎ (mtu_4to6 own em_length reported ≡ 1280)
          ⊎ (mtu_4to6 own em_length reported ≤ reported + 20))
unfolding mtu_4to6
mtu_4to6_lem own em_length reported h = ground arith

-- The start of the field of an IPv4 header that an octet lies in.
abbrev pub field4 : ℕ → ℕ
field4 i =
    if leb i 1 || i == 8 || i == 9
    then i
    else if leb i 11
    then i / 2 * 2
    else if leb i 15
    then 12
    else 16

abbrev pointer_ok : ℕ → Bool
pointer_ok old = elim (pointer_4to6 old) [
  | none ↦ true
  | some n ↦ elim (pointer_6to4 n) [ none ↦ false | some m ↦ m == field4 old ]
]

pointers_ok : every pointer_ok 20 ≡ true
unfolding pointer_4to6 pointer_6to4
pointers_ok = refl

pointer_far : (old : ℕ) → 19 < old → pointer_4to6 old ≡ none
unfolding pointer_4to6
pointer_far old h = ground arith

-- A pointer that is translated to IPv6 comes back as the start of the field that it points into.
pointer_back :
    (old : ℕ)
    → (pointer_4to6 old ≡ none)
      ⊎ ((n m : ℕ) × (pointer_4to6 old ≡ some n)
          × (pointer_6to4 n ≡ some m)
          × (m ≡ field4 old)
          × (m < 20))
pointer_back old = elim (Bool-cases (ltb 19 old)) [
  | inl far ↦ inl (pointer_far old (ground arith))
  | inr near ↦
      let ok : pointer_ok old ≡ true = every_lem pointer_ok old 20 (ground arith) pointers_ok in
      elim (Option-cases (pointer_4to6 old)) [
        | inl p ↦ inl p
        | inr (n, p) ↦ elim (Option-cases (pointer_6to4 n)) [
          | inl q ↦ ground arith
          | inr (m, q) ↦ inr (n, m, p, q, ground arith, ground arith)
        ]
      ]
]

-- What comes back of an IPv4 error: its kind, and its code where IPv6 has one for it alone, and of a
-- pointer the start of its field.
abbrev pub ComesBack : ℕ → Icmp → Icmp → Type 0
ComesBack own p r =
    ((p.kind ≡ 3)
      × (r.kind ≡ 3)
      × (r.word ≡ 0)
      × (((r.code ≡ 1) × (is_one_of p.code (0 ∷ 1 ∷ 5 ∷ 6 ∷ 7 ∷ 8 ∷ 11 ∷ 12 ∷ []) ≡ true))
          ⊎ ((r.code ≡ 10) × (is_one_of p.code (9 ∷ 10 ∷ 13 ∷ 15 ∷ []) ≡ true))
          ⊎ ((r.code ≡ p.code) × (is_one_of p.code (2 ∷ 3 ∷ []) ≡ true))))
    ⊎ ((p.kind ≡ 3)
        × (p.code ≡ 4)
        × (r.kind ≡ 3)
        × (r.code ≡ 4)
        × (1260 ≤ r.word)
        × (r.word + 20 ≤ own)
        × ((p.word % 2 ^ 16 < 68) ⊎ (r.word ≡ 1260) ⊎ (r.word ≤ p.word % 2 ^ 16)))
    ⊎ ((p.kind ≡ 11) × (r.kind ≡ 11) × (r.code ≡ p.code) × (r.word ≡ 0))
    ⊎ ((p.kind ≡ 12) × (r.kind ≡ 12) × (r.code ≡ 0) × (r.word / 2 ^ 24 ≡ field4 (p.word / 2 ^ 24)))

abbrev Back : ℕ → ℕ → Icmp → Type 0
Back own em_length p =
    (error_4to6 own em_length p ≡ none)
    ⊎ ((q r : Icmp) × (error_4to6 own em_length p ≡ some q)
        × (error_6to4 own q ≡ some r)
        × ComesBack own p r)

unreachable-Back :
    (own em_length : ℕ) (p : Icmp) → 1280 ≤ own → own ≤ 65535 → p.kind ≡ 3 → Back own em_length p
unfolding error_4to6 error_6to4 unreachable_4to6 unreachable_6to4
unreachable-Back own em_length p a b k =
    let m = mtu_4to6_lem own em_length (p.word % 2 ^ 16) a in
    rw k (elim (Bool-cases (is_one_of p.code (0 ∷ 1 ∷ 5 ∷ 6 ∷ 7 ∷ 8 ∷ 11 ∷ 12 ∷ []))) [
      | inl h ↦ rw h (inr (_, _, refl, refl, inl (refl, refl, refl, inl (refl, refl))))
      | inr h ↦ elim (Bool-cases (p.code == 2)) [
        | inl h2 ↦
            rw (h, h2)
              (inr
                (_, _, refl, refl, inl (refl, refl, refl, inr (inr (ground arith, ground arith)))))
        | inr h2 ↦ elim (Bool-cases (p.code == 3)) [
          | inl h3 ↦
              rw (h, h2, h3)
                (inr (
                  _,
                  _,
                  refl,
                  refl,
                  inl (refl, refl, refl, inr (inr (ground arith, ground arith))),
                ))
          | inr h3 ↦ elim (Bool-cases (p.code == 4)) [
            | inl h4 ↦
                let new = mtu_4to6 own em_length (p.word % 2 ^ 16) in
                let low : ltb new 88 ≡ false = ground arith in
                let high : ltb own new ≡ false = ground arith in
                let less : u32 (new + 2 ^ 32 - 20) ≡ new - 20 = omega arith in
                inr (
                  record { kind = 2; code = 0; word = new },
                  record { kind = 3; code = 4; word = u32 (new + 2 ^ 32 - 20) },
                  rw (h, h2, h3, h4) refl,
                  rw (low, high) refl,
                  inr (inl (refl, ground arith, refl, refl, omega arith, omega arith, omega arith)),
                )
            | inr h4 ↦ elim (Bool-cases (is_one_of p.code (9 ∷ 10 ∷ 13 ∷ 15 ∷ []))) [
              | inl h5 ↦
                  rw (h, h2, h3, h4, h5)
                    (inr (_, _, refl, refl, inl (refl, refl, refl, inr (inl (refl, refl)))))
              | inr h5 ↦ rw (h, h2, h3, h4, h5) (inl refl)
            ]
          ]
        ]
      ]
    ])

pointer_error-Back :
    (own em_length : ℕ) (p : Icmp) → p.word < 2 ^ 32 → p.kind ≡ 12 → Back own em_length p
unfolding error_4to6 error_6to4
pointer_error-Back own em_length p w k =
    rw k (elim (Bool-cases (not (p.code == 0) && not (p.code == 2))) [
      | inl h ↦ rw h (inl refl)
      | inr h ↦ elim (pointer_back (p.word / 2 ^ 24)) [
        | inl o ↦ rw (h, o) (inl refl)
        | inr (n, m, o, i, l, l') ↦
            rw (h, o)
              (inr (
                _,
                record { kind = 12; code = 0; word = u32 (m * 2 ^ 24) },
                refl,
                rw i refl,
                inr (inr (inr (refl, refl, refl, omega (arith, l') ∙ l))),
              ))
      ]
    ])

-- With an own MTU from 1280 to 65535, an ICMPv4 error with a 32-bit word that `error_4to6` translates is
-- translated back by `error_6to4` to an error of the same type: with a code of the same class, with the
-- same code for time exceeded, with an MTU of at least 1260 that the tunnel's MTU covers and that does not
-- exceed the reported one unless it is 1260 or none was reported, and with a pointer to the start of the
-- field of the IPv4 header that it pointed into.
pub error_6to4-error_4to6 :
    (own em_length : ℕ) (p : Icmp)
    → 1280 ≤ own
    → own ≤ 65535
    → p.word < 2 ^ 32
    → (error_4to6 own em_length p ≡ none)
      ⊎ ((q r : Icmp) × (error_4to6 own em_length p ≡ some q)
          × (error_6to4 own q ≡ some r)
          × ComesBack own p r)
unfolding error_4to6 error_6to4
error_6to4-error_4to6 own em_length p a b w = elim (Bool-cases (p.kind == 3)) [
  | inl h ↦ unreachable-Back own em_length p a b (ground arith)
  | inr h ↦ elim (Bool-cases (p.kind == 11)) [
    | inl h2 ↦ rw (h, h2) (inr (_, _, refl, refl, inr (inr (inl (ground arith, refl, refl, refl)))))
    | inr h2 ↦ elim (Bool-cases (p.kind == 12)) [
      | inl h3 ↦ pointer_error-Back own em_length p w (ground arith)
      | inr h3 ↦ rw (h, h2, h3) (inl refl)
    ]
  ]
]
