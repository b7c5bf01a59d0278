-- ===== src/Resolve/Laws.antt =====
-- An IPv4 address that `map_ip4_to_ip6` maps by the tables is what `map_ip6_to_ip4` maps back.
use tayga.Base.{
  ℕ, ◌+◌, ◌^◌, ◌≤◌, ◌<◌, ◌≡◌, refl, sym, ap, subst, ◌∙◌, ◌⊎◌, inl, inr, arith, Bool, true, false,
  ◌==◌, ==_refl, ltb, Option-cases, Option, none, some, List, All, Member, All-Member,
}
use mathlib.Core.Bool.{false≢true}
use tayga.Word.{Endian}
use tayga.Word.Laws.{htonl_injective}
use tayga.Addr.{Status, In6Addr, is_error, validate_ip4_addr}
use tayga.Prefix.{ok, err, append_to_prefix, extract_from_prefix, is_refused}
use tayga.Prefix.Bytes.{IsIn6, HasClearHostBits}
use tayga.Prefix.Laws.{extract-append, append_ok, append_words-IsPrefixLen}
use tayga.Mask.Laws.{SamePrefix4}
use tayga.Maps.{
  MapType, static, rfc6052, dynamic_pool, dynamic_host, Map4, Map6, find_map4, find_map6,
}
use tayga.Maps.Order.{first-some}
use tayga.Maps.Laws4.{IsMap4, IsTable4, IsLongest4, find_map4-IsLongest4}
use tayga.Maps.Laws6.{IsMap6, IsTable6, IsOnly6, Shares, find_map6-IsOnly6}
use tayga.Resolve.{
  MapPair, Mapping, width, is_last, static_to_ip6, static_to_ip4, checked, is_own6, is_own4,
  switch4, switch6, resolve_ip4, resolve_ip6, found4, found6,
}
use tayga.Resolve.Static.{static_back, static_narrow}
use tayga.Resolve.Network.{lands}

-- What the types of mapping promise of their two entries.
abbrev pub Promises : Endian → MapType → MapPair → Type 0
Promises e static s = s.map6.prefix_len + width s ≤ 128
Promises e rfc6052 s = HasClearHostBits e s.map6.addr s.map6.prefix_len
Promises e dynamic_pool s = ⊥
Promises e dynamic_host s = (s.map4.prefix_len ≡ 32) × (s.map6.prefix_len ≡ 128)

-- The struct at `o` has its entries in both tables, with one type.
pub record IsLinked (g : Mapping) (o : ℕ) : Type 0 where
  pub owner4 : (g.container o).map4.owner ≡ o
  pub owner6 : (g.container o).map6.owner ≡ o
  pub type6 : (g.container o).map6.type ≡ (g.container o).map4.type
  pub listed6 : Member (g.container o).map6 g.map6_list
  pub promise : Promises g.endian (g.container o).map4.type (g.container o)

-- The tables are in order, and each entry belongs to a struct of which the other entry is in the other
-- table; only the dynamic pool has an IPv4 entry alone.
pub record IsMapping (g : Mapping) : Type 0 where
  pub table4 : IsTable4 g.endian g.map4_list
  pub table6 : IsTable6 g.endian g.map6_list
  pub links4 :
      All
        (λ m. (m.type ≡ dynamic_pool) ⊎ (((g.container m.owner).map4 ≡ m) × IsLinked g m.owner))
        g.map4_list
  pub links6 : All (λ m. (g.container m.owner).map6 ≡ m) g.map6_list

-- The one entry that shares its prefix with an address is what the search finds.
sole_entry :
    (e : Endian) (q : In6Addr) (m : Map6) (table : List Map6) (o : Option Map6)
    → IsOnly6 e q table o
    → Member m table
    → Shares e q m
    → o ≡ some m
sole_entry e q m table none h i s = absurd (All-Member (λ t. ¬ Shares e q t) m table h i s)
sole_entry e q m table (some f) h i s =
    elim (All-Member (λ t. (¬ Shares e q t) ⊎ (t ≡ f)) m table h.1 i) [
      | inl no_share ↦ absurd (no_share s)
      | inr same ↦ ap some (sym same)
    ]

no_ok {ℓ} : {A : Type ℓ} {r : Status} {x : A} → err r ≡ ok x → ⊥
no_ok h = cc

own6_owner :
    (o : Option Map6) (m : Map6)
    → is_own6 o m ≡ true
    → (f : Map6) × (o ≡ some f) × (f.owner ≡ m.owner)
own6_owner none m t = absurd (false≢true t)
own6_owner (some f) m t = (f, refl, ground arith)

module _ (g : Mapping) (v : IsMapping g) where
  finds6 :
      (q : In6Addr) (m : Map6)
      → IsIn6 q
      → Member m g.map6_list
      → Shares g.endian q m
      → find_map6 q g.map6_list ≡ some m
  finds6 q m hq i s =
      sole_entry g.endian q m g.map6_list _ (find_map6-IsOnly6 g.endian q g.map6_list v.table6 hq) i
        s

  found_link :
      (q : In6Addr) (f : Map6) → find_map6 q g.map6_list ≡ some f → (g.container f.owner).map6 ≡ f
  unfolding find_map6
  found_link q f p = (first-some (λ m. (g.container m.owner).map6 ≡ m) _ g.map6_list f v.links6 p).0

  -- The test for a hairpin passes only for the entry itself.
  own6 :
      (q : In6Addr) (o : ℕ)
      → IsLinked g o
      → is_own6 (find_map6 q g.map6_list) (g.container o).map6 ≡ true
      → find_map6 q g.map6_list ≡ some (g.container o).map6
  own6 q o l t =
      let (f, p, same) = own6_owner (find_map6 q g.map6_list) (g.container o).map6 t in
      p ∙ ap some (sym (found_link q f p) ∙ ap (λ (k : ℕ). (g.container k).map6) (same ∙ l.owner6))

  -- What is found on the way back is the other entry of the same struct.
  resolves6 :
      (q : In6Addr) (o : ℕ) (t : MapType)
      → IsLinked g o
      → (g.container o).map4.type ≡ t
      → find_map6 q g.map6_list ≡ some (g.container o).map6
      → resolve_ip6 g q ≡ switch6 g q t (g.container o).map6 (g.container o)
  unfolding resolve_ip6
  resolves6 q o t l k p =
      ap (found6 g q) p
      ∙ ap
          (λ (x : MapType).
            switch6 g q x (g.container o).map6 (g.container ((g.container o).map6.owner)))
          (l.type6 ∙ k)
      ∙ ap (λ (x : ℕ). switch6 g q t (g.container o).map6 (g.container x)) l.owner6

  module _ (a o : ℕ) (ha : a < 2 ^ 32) (l : IsLinked g o)
      (good : is_error (validate_ip4_addr g.endian a) ≡ false)
      (foreign : (g.local_addr4 == a) ≡ false)
      (first4 : find_map4 a g.map4_list ≡ some (g.container o).map4)
      (shares4 : SamePrefix4 g.endian (g.container o).map4.prefix_len a (g.container o).map4.addr)
      (v4 : IsMap4 g.endian (g.container o).map4) (v6 : IsMap6 g.endian (g.container o).map6) where
    abbrev s : MapPair
    s = g.container o

    owned4 : is_own4 (find_map4 a g.map4_list) s.map4 ≡ true
    owned4 = rw first4 (==_refl s.map4.owner)

    -- A static mapping, back.
    static_return :
        (q : In6Addr)
        → static_to_ip4 g.endian s q ≡ a
        → switch6 g q static s.map6 s ≡ ok (a, is_last s)
    unfolding switch6
    static_return q p = rw (p, good, foreign, owned4) (ground arith)

    static_forward :
        (q : In6Addr) (c : Bool)
        → switch4 g a static s ≡ ok (q, c)
        → (q ≡ static_to_ip6 g.endian s a)
          × (c ≡ is_last s)
          × ((ltb 0 (width s) ≡ false)
              ⊎ (is_own6 (find_map6 (static_to_ip6 g.endian s a) g.map6_list) s.map6 ≡ true))
    unfolding switch4
    static_forward q c h = ground arith

    at_network : find_map6 s.map6.addr g.map6_list ≡ some s.map6
    at_network = finds6 s.map6.addr s.map6 v6.words l.listed6 (refl, refl, refl, refl)

    back_static :
        (q : In6Addr) (c : Bool)
        → s.map4.type ≡ static
        → switch4 g a static s ≡ ok (q, c)
        → resolve_ip6 g q ≡ ok (a, c)
    back_static q c k h =
        let fits : s.map6.prefix_len + width s ≤ 128 =
          subst (λ t. Promises g.endian t s) k l.promise in
        let (p, last, way) = static_forward q c h in
        let found : find_map6 (static_to_ip6 g.endian s a) g.map6_list ≡ some s.map6 = elim way [
          | inl narrow ↦ rw (static_narrow g.endian s a v4 v6 fits ha narrow) at_network
          | inr wide ↦ own6 (static_to_ip6 g.endian s a) o l wide
        ] in
        rw (p, last)
          (resolves6 (static_to_ip6 g.endian s a) o static l k found
            ∙ static_return (static_to_ip6 g.endian s a)
                (static_back g.endian s a v4 v6 fits ha shares4))

    back_dynamic :
        (q : In6Addr) (c : Bool)
        → s.map4.type ≡ dynamic_host
        → switch4 g a dynamic_host s ≡ ok (q, c)
        → resolve_ip6 g q ≡ ok (a, c)
    unfolding switch4 switch6
    back_dynamic q c k h =
        let lens : (s.map4.prefix_len ≡ 32) × (s.map6.prefix_len ≡ 128) =
          subst (λ t. Promises g.endian t s) k l.promise in
        let here : s.map4.addr ≡ a = htonl_injective g.endian s.map4.addr a v4.word ha (
          let whole : SamePrefix4 g.endian 32 a s.map4.addr =
            subst (λ (n : ℕ). SamePrefix4 g.endian n a s.map4.addr) lens.0 shares4 in
          omega arith) in
        let p : q ≡ s.map6.addr = ground arith in
        let d : c ≡ true = ground arith in
        rw (p, d) (resolves6 s.map6.addr o dynamic_host l k at_network ∙ rw here refl)

    prefix_forward :
        (q : In6Addr) (c : Bool)
        → switch4 g a rfc6052 s ≡ ok (q, c)
        → (append_to_prefix g.endian g.wkpf_strict a s.map6.addr s.map6.prefix_len ≡ ok q)
          × (c ≡ true)
    unfolding switch4
    prefix_forward q c h = ground arith

    not_refused :
        (q : In6Addr)
        → append_to_prefix g.endian g.wkpf_strict a s.map6.addr s.map6.prefix_len ≡ ok q
        → is_refused g.endian g.wkpf_strict a s.map6.addr ≡ false
    unfolding append_to_prefix
    not_refused q h = ground arith

    prefix_return :
        (q : In6Addr)
        → append_to_prefix g.endian g.wkpf_strict a s.map6.addr s.map6.prefix_len ≡ ok q
        → extract_from_prefix g.endian q s.map6.prefix_len ≡ ok a
        → switch6 g q rfc6052 s.map6 s ≡ ok (a, true)
    unfolding switch6 checked is_refused
    prefix_return q made taken_out =
        ap (checked g s.map6 s) taken_out ∙ rw (not_refused q made, owned4) refl

    back_rfc6052 :
        (q : In6Addr) (c : Bool)
        → s.map4.type ≡ rfc6052
        → switch4 g a rfc6052 s ≡ ok (q, c)
        → resolve_ip6 g q ≡ ok (a, c)
    back_rfc6052 q c k h =
        let clear : HasClearHostBits g.endian s.map6.addr s.map6.prefix_len =
          subst (λ t. Promises g.endian t s) k l.promise in
        let (made, d) = prefix_forward q c h in
        let (bad, built) =
          append_ok g.endian g.wkpf_strict a s.map6.addr q s.map6.prefix_len made in
        let (q', built', shares, words) =
          lands g.endian a s.map6.addr s.map6.prefix_len ha v6.words
            (append_words-IsPrefixLen g.endian a s.map6.addr q s.map6.prefix_len built) in
        let same : q' ≡ q = cc (built', built) in
        let found : find_map6 q g.map6_list ≡ some s.map6 =
          subst (λ x. find_map6 x g.map6_list ≡ some s.map6) same
            (finds6 q' s.map6 words l.listed6 shares) in
        resolves6 q o rfc6052 l k found
        ∙ prefix_return q made (
            extract-append g.endian g.wkpf_strict a s.map6.addr q s.map6.prefix_len ha v6.words
              clear made)
        ∙ rw d refl

  found4_link :
      (a : ℕ) (m : Map4)
      → find_map4 a g.map4_list ≡ some m
      → ((m.type ≡ dynamic_pool) ⊎ (((g.container m.owner).map4 ≡ m) × IsLinked g m.owner))
        × IsMap4 g.endian m
  unfolding find_map4
  found4_link a m p = (
    (first-some
        (λ m. (m.type ≡ dynamic_pool) ⊎ (((g.container m.owner).map4 ≡ m) × IsLinked g m.owner)) _
        g.map4_list m v.links4 p).0,
    (first-some (IsMap4 g.endian) _ g.map4_list m v.table4.entries p).0,
  )

  found4_shares :
      (a : ℕ) (m : Map4)
      → a < 2 ^ 32
      → find_map4 a g.map4_list ≡ some m
      → SamePrefix4 g.endian m.prefix_len a m.addr
  found4_shares a m ha p =
      (subst (IsLongest4 g.endian a g.map4_list) p
        (find_map4-IsLongest4 g.endian a g.map4_list v.table4 ha)).0

  -- By the type of the entry.
  returns :
      (t : MapType) (a : ℕ) (m : Map4) (q : In6Addr) (c : Bool)
      → a < 2 ^ 32
      → is_error (validate_ip4_addr g.endian a) ≡ false
      → (g.local_addr4 == a) ≡ false
      → find_map4 a g.map4_list ≡ some m
      → m.type ≡ t
      → (g.container m.owner).map4 ≡ m
      → IsLinked g m.owner
      → SamePrefix4 g.endian (g.container m.owner).map4.prefix_len a (g.container m.owner).map4.addr
      → IsMap4 g.endian (g.container m.owner).map4
      → IsMap6 g.endian (g.container m.owner).map6
      → switch4 g a t (g.container m.owner) ≡ ok (q, c)
      → resolve_ip6 g q ≡ ok (a, c)
  unfolding switch4
  returns static a m q c ha good foreign p k e l sh v4 v6 h =
      back_static a m.owner ha l good foreign (p ∙ ap some (sym e)) sh v4 v6 q c
        (ap (λ (x : Map4). x.type) e ∙ k) h
  returns rfc6052 a m q c ha good foreign p k e l sh v4 v6 h =
      back_rfc6052 a m.owner ha l good foreign (p ∙ ap some (sym e)) sh v4 v6 q c
        (ap (λ (x : Map4). x.type) e ∙ k) h
  returns dynamic_pool a m q c ha good foreign p k e l sh v4 v6 h = ground arith
  returns dynamic_host a m q c ha good foreign p k e l sh v4 v6 h =
      back_dynamic a m.owner ha l good foreign (p ∙ ap some (sym e)) sh v4 v6 q c
        (ap (λ (x : Map4). x.type) e ∙ k) h

  -- An address that may be translated and is not our own, and that the tables map, comes back from its
  -- image, and both directions agree on whether the pair may be cached.
  pub resolve_ip6-resolve_ip4 :
      (a : ℕ) (q : In6Addr) (c : Bool)
      → a < 2 ^ 32
      → is_error (validate_ip4_addr g.endian a) ≡ false
      → (g.local_addr4 == a) ≡ false
      → resolve_ip4 g a ≡ ok (q, c)
      → resolve_ip6 g q ≡ ok (a, c)
  unfolding resolve_ip4 switch4
  resolve_ip6-resolve_ip4 a q c ha good foreign h = elim (Option-cases (find_map4 a g.map4_list)) [
    | inl n ↦ absurd (no_ok (sym (ap (found4 g a) n) ∙ h))
    | inr (m, p) ↦
        let h' = sym (ap (found4 g a) p) ∙ h in
        let (link, v4) = found4_link a m p in
        elim link [
          | inl pool ↦
              absurd
                (no_ok (ap (λ (t : MapType). switch4 g a t (g.container m.owner)) (sym pool) ∙ h'))
          | inr (e, l) ↦
              returns m.type a m q c ha good foreign p refl e l
                (subst (λ (x : Map4). SamePrefix4 g.endian x.prefix_len a x.addr) (sym e)
                  (found4_shares a m ha p))
                (subst (IsMap4 g.endian) (sym e) v4)
                (All-Member (IsMap6 g.endian) (g.container m.owner).map6 g.map6_list
                  v.table6.entries l.listed6)
                h'
        ]
  ]
