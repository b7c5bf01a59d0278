-- ===== src/Pool/Config/Laws.antt =====
-- The pool that `config_dynamic_pool` makes is one that `assign_dynamic` may search.
use tayga.Base.{
  ℕ, ◌-◌, ◌/◌, ◌^◌, ◌≤◌, ◌<◌, ◌≡◌, refl, sym, ap, ◌∙◌, subst, inl, inr, arith, Bool, true, false,
  ◌||◌, not, ltb, Bool-cases, none, some, List, [], ◌∷◌, All, All-map, Member,
}
use tayga.Word.{Endian, htonl}
use tayga.Addr.{validate_ip4_addr}
use tayga.Mask.{mask4_of}
use tayga.Mask.Laws.{calc_ip4_mask_lem}
use tayga.Maps.{Map4, insert_map4}
use tayga.Maps.Scan.{Inserted, inserted, conflict, place, inserted_place}
use tayga.Maps.Order.{All-place}
use tayga.Maps.Laws4.{IsMap4, IsTable4, insert_map4-IsTable4}
use tayga.Pool.{DynamicPool}
use tayga.Pool.Skip.{IsEntry}
use tayga.Pool.Found.{IsPool, pool_max_lem}
use tayga.Pool.Config.{is_reserved, pool_entry, new_pool, admit, with_mask, config_dynamic_pool}

Member-place : (lower : Map4 → Bool) (m : Map4) (xs : List Map4) → Member m (place lower m xs)
unfolding place
Member-place lower m [] = inl refl
Member-place lower m (x ∷ xs) = elim (Bool-cases (lower x)) [
  | inl e ↦ rw e (inl refl)
  | inr e ↦ rw e (inr (Member-place lower m xs))
]

some_same {ℓ} : {A : Type ℓ} {x y : A} → some x ≡ some y → x ≡ y
some_same h = cc

no_pool {ℓ} : {A : Type ℓ} {x : A} → none ≡ some x → ⊥
no_pool h = cc

no_conflict : {s : Map4} {new : List Map4} → conflict s ≡ inserted new → ⊥
no_conflict h = cc

inserted_same : {xs ys : List Map4} → inserted xs ≡ inserted ys → xs ≡ ys
inserted_same h = cc

-- The entry is in the table that it was inserted into, alone with its owner.
entry_of :
    (e : Endian) (m : Map4) (table new : List Map4)
    → IsTable4 e table
    → IsMap4 e m
    → All (λ s. ¬ (s.owner ≡ m.owner)) table
    → insert_map4 m table ≡ inserted new
    → IsEntry e new m
unfolding insert_map4
entry_of e m table new t v fresh h =
    let placed = inserted_place _ _ m table new h in
    record {
      table4 = elim (insert_map4-IsTable4 e m table t v) [
        | inl (s, q, listed, same) ↦ absurd (no_conflict (sym q ∙ h))
        | inr (made, q, good, free) ↦ subst (IsTable4 e) (inserted_same (sym q ∙ h)) good
      ];
      listed = subst (Member m) placed (Member-place _ m table);
      only = subst (All (λ s. s.owner ≡ m.owner → s ≡ m)) placed (
          All-place (λ s. s.owner ≡ m.owner → s ≡ m) _ m table (λ k. refl)
            (All-map (λ s no k. absurd (no k)) table fresh));
    }

module _ (e : Endian) (id addr len : ℕ) (table : List Map4) (word : addr < 2 ^ 32) (room : len ≤ 32)
    (t : IsTable4 e table) (fresh : All (λ s. ¬ (s.owner ≡ id)) table) where
  admitted :
      (m : Map4) (o : Inserted Map4) (p : DynamicPool) (new : List Map4)
      → admit e m o ≡ some (p, new)
      → (o ≡ inserted new) × (new_pool e m ≡ p)
  unfolding admit
  admitted m (conflict s) p new h = absurd (no_pool h)
  admitted m (inserted made) p new h = (
    ap (λ (r : DynamicPool × List Map4). inserted r.1) (some_same h),
    ap (λ (r : DynamicPool × List Map4). r.0) (some_same h),
  )

  passed :
      (mask : ℕ) (accepted : Bool) (r : DynamicPool × List Map4)
      → with_mask e id addr len table (some (mask, accepted)) ≡ some r
      → (accepted ≡ true)
        × (len ≤ 31)
        × (admit e (pool_entry id addr mask len) (insert_map4 (pool_entry id addr mask len) table)
            ≡ some r)
  unfolding with_mask
  passed mask accepted r h =
      elim (Bool-cases (not accepted || is_reserved (validate_ip4_addr e addr) || ltb 31 len)) [
        | inl bad ↦ absurd (no_pool (sym (rw bad refl) ∙ h))
        | inr good ↦ (ground arith, ground arith, sym (rw good refl) ∙ h)
      ]

  -- The pool is of the prefix of the directive, all of which but its first address is free, in one run.
  pub record IsConfigured (new : List Map4) (p : DynamicPool) : Type 0 where
    pub ready : IsPool e new p
    pub net : p.map4.addr ≡ addr
    pub prefix_len : p.map4.prefix_len ≡ len
    pub owner : p.map4.owner ≡ id
    pub free : p.free_list ≡ record { addr = htonl e addr; count = 2 ^ (32 - len) - 1 } ∷ []
    pub mapped : p.mapped_list ≡ []
    pub dormant : p.dormant_list ≡ []

  -- With a well-formed table that has no entry of the new struct, a pool that the directive makes has
  -- the directive's prefix and the number of the struct, one run of free addresses that starts at the
  -- prefix and ends with its last address, and no mapping; with the table that has its entry, it is ready
  -- for a search.
  pub config_dynamic_pool-IsPool :
      (p : DynamicPool) (new : List Map4)
      → config_dynamic_pool e id false (some (addr, len)) table ≡ some (p, new)
      → IsConfigured new p
  unfolding config_dynamic_pool
  config_dynamic_pool-IsPool p new h =
      let (accepted, made, ok_if) = calc_ip4_mask_lem e len addr room word in
      let mask = htonl e (mask4_of len) in
      let (yes_mask, short, entered) =
        passed mask accepted (p, new) (sym (ap (with_mask e id addr len table) made) ∙ h) in
      let m = pool_entry id addr mask len in
      let (placed, same) = admitted m (insert_map4 m table) p new entered in
      let v : IsMap4 e m = record {
        word = word;
        len = room;
        mask = refl;
        net = ok_if.0 yes_mask;
      } in
      let max : (2 ^ 32 - 1) / 2 ^ len ≡ 2 ^ (32 - len) - 1 =
        omega (arith, pool_max_lem (new_pool e m) short) in
      subst (IsConfigured new) same (record {
        ready = record {
          entry = entry_of e m table new t v fresh placed;
          short = short;
          base = refl;
          tiled = (refl, refl);
        };
        net = refl;
        prefix_len = refl;
        owner = refl;
        free = ap (λ (n : ℕ). record { addr = htonl e addr; count = n } ∷ []) max;
        mapped = refl;
        dormant = refl;
      })
