-- ===== src/Translate/Widths.antt =====
-- The mapping of src/addrmap.c keeps to its widths: the mapper that src/nat64.c calls gives 32-bit
-- addresses and addresses of four 32-bit words.
use tayga.Base.{
  ℕ, ◌+◌, ◌-◌, ◌*◌, ◌/◌, ◌%◌, ◌^◌, ◌<◌, ◌≡◌, refl, subst, arith, Bool, true, false, ltb, ◌==◌,
  if◌then◌else◌, none, some, Option, bit_or_lt, bit_and_lt,
}
use tayga.Word.{Endian, big, little, htonl, ntohl, not32, u32, u64}
use tayga.Word.Laws.{htonl-lt}
use tayga.Addr.{Status, In6Addr}
use tayga.Prefix.{
  Result, ok, err, append_words, append_to_prefix, extract_words, extract_from_prefix,
}
use tayga.Prefix.Bytes.{IsIn6}
use tayga.Prefix.Laws.{append_ok, extract_ok}
use tayga.Maps.{
  MapType, static, rfc6052, dynamic_pool, dynamic_host, Map4, Map6, find_map4, find_map6,
}
use tayga.Resolve.{
  MapPair, Mapping, width, is_last, host_suffix, or_word, spread, gather, static_to_ip6,
  static_suffix, static_to_ip4, paired, found4, found6, switch4, switch6, checked, resolve_ip4,
  resolve_ip6,
}
use tayga.Translate.Fits.{Gives, nothing, just, choose}
use tayga.Translate.Safety4.{branch}

-- A predicate of a result, where there is one.
pub data IfOk {A : Type 0} (P : A → Type 0) : Result A → Type 0 where
  fails : {r : Status} → IfOk P (err r)
  gives : {x : A} → P x → IfOk P (ok x)

-- And of an address that it gives with the flag for the cache.
abbrev pub Gives6 : Result (In6Addr × Bool) → Type 0
Gives6 r = IfOk (λ x. IsIn6 x.0) r

abbrev pub Gives4 : Result (ℕ × Bool) → Type 0
Gives4 r = IfOk (λ x. x.0 < 2 ^ 32) r

-- The addresses of every struct are as wide as their types.
pub record IsWide (g : Mapping) : Type 0 where
  pub addr4 : (o : ℕ) → (g.container o).map4.addr < 2 ^ 32
  pub addr6 : (o : ℕ) → IsIn6 (g.container o).map6.addr

or_word-IsIn6 : (i x : ℕ) (a : In6Addr) → x < 2 ^ 32 → IsIn6 a → IsIn6 (or_word i x a)
or_word-IsIn6 i x a hx ha =
    branch IsIn6 (i == 0) (bit_or_lt 32 a.w0 x ha.0 hx, ha.1, ha.2, ha.3)
      (branch IsIn6 (i == 1) (ha.0, bit_or_lt 32 a.w1 x ha.1 hx, ha.2, ha.3)
        (branch IsIn6 (i == 2) (ha.0, ha.1, bit_or_lt 32 a.w2 x ha.2 hx, ha.3)
          (ha.0, ha.1, ha.2, bit_or_lt 32 a.w3 x ha.3 hx)))

host_suffix-lt : (e : Endian) (word mask : ℕ) → word < 2 ^ 32 → host_suffix e word mask < 2 ^ 32
host_suffix-lt e word mask h =
    bit_and_lt 32 (ntohl e word) (not32 (ntohl e mask)) (htonl-lt e word h)

spread-IsIn6 :
    (e : Endian) (pos bits suffix : ℕ) (a : In6Addr) → IsIn6 a → IsIn6 (spread e pos bits suffix a)
unfolding spread
spread-IsIn6 e pos bits suffix a h =
    let first =
      or_word-IsIn6 (pos / 32) (htonl e (u32 (u64 (suffix * 2 ^ (64 - pos % 32 - bits)) / 2 ^ 32)))
        a (htonl-lt e _ (omega arith)) h in
    branch IsIn6 (ltb 32 (pos % 32 + bits))
      (or_word-IsIn6 (pos / 32 + 1) _ _ (htonl-lt e _ (omega arith)) first) first

static_to_ip6-IsIn6 :
    (e : Endian) (s : MapPair) (a : ℕ)
    → a < 2 ^ 32
    → IsIn6 s.map6.addr
    → IsIn6 (static_to_ip6 e s a)
unfolding static_to_ip6
static_to_ip6-IsIn6 e s a ha h =
    branch IsIn6 (is_last s)
      (or_word-IsIn6 3 _ s.map6.addr (htonl-lt e _ (host_suffix-lt e a s.map4.mask ha)) h)
      (branch IsIn6 (ltb 0 (width s))
        (spread-IsIn6 e s.map6.prefix_len (width s) (host_suffix e a s.map4.mask) s.map6.addr h) h)

abbrev Small : ℕ → Type 0
Small a = a < 2 ^ 32

static_to_ip4-lt :
    (e : Endian) (s : MapPair) (q : In6Addr)
    → s.map4.addr < 2 ^ 32
    → IsIn6 q
    → static_to_ip4 e s q < 2 ^ 32
unfolding static_to_ip4 static_suffix gather
static_to_ip4-lt e s q h hq = bit_or_lt 32 s.map4.addr _ h (
    htonl-lt e _ (
      branch Small (is_last s) (host_suffix-lt e q.w3 s.map4.mask hq.3)
        (branch Small (ltb 0 (width s)) (omega arith) (omega arith))))

is_given : {A : Type 0} {P : A → Type 0} {x : A} → Gives P (some x) → P x
is_given (just h) = h

pick :
    {A : Type 0} {P : A → Type 0} (b : Bool) {x y : Result A}
    → IfOk P x
    → IfOk P y
    → IfOk P (if b then x else y)
pick true h k = h
pick false h k = k

if_ok : {A : Type 0} (P : A → Type 0) (r : Result A) → ((x : A) → r ≡ ok x → P x) → IfOk P r
if_ok P (ok x) h = gives (h x refl)
if_ok P (err s) h = fails

-- `append_to_prefix` and `extract_from_prefix`, for any length.
append_words-IsIn6 :
    (e : Endian) (a : ℕ) (p : In6Addr) (len : ℕ)
    → a < 2 ^ 32
    → IsIn6 p
    → Gives IsIn6 (append_words e a p len)
unfolding append_words
append_words-IsIn6 big a p len ha h = choose (len == 32) (just (omega arith)) (
    choose (len == 40)
      (just
        (h.0, bit_or_lt 32 p.w1 _ h.1 (omega arith), bit_and_lt 32 _ _ (omega arith), omega arith))
      (choose (len == 48)
        (just (
          h.0,
          bit_or_lt 32 p.w1 _ h.1 (omega arith),
          bit_and_lt 32 _ _ (omega arith),
          omega arith,
        ))
        (choose (len == 56)
          (just (h.0, bit_or_lt 32 p.w1 _ h.1 (omega arith), bit_and_lt 32 a _ ha, omega arith))
          (choose (len == 64) (just (omega arith))
            (choose (len == 96) (just (omega arith)) nothing)))))
append_words-IsIn6 little a p len ha h = choose (len == 32) (just (omega arith)) (
    choose (len == 40)
      (just
        (h.0, bit_or_lt 32 p.w1 _ h.1 (omega arith), bit_and_lt 32 _ _ (omega arith), omega arith))
      (choose (len == 48)
        (just (
          h.0,
          bit_or_lt 32 p.w1 _ h.1 (omega arith),
          bit_and_lt 32 _ _ (omega arith),
          omega arith,
        ))
        (choose (len == 56)
          (just (h.0, bit_or_lt 32 p.w1 _ h.1 (omega arith), bit_and_lt 32 a _ ha, omega arith))
          (choose (len == 64) (just (omega arith))
            (choose (len == 96) (just (omega arith)) nothing)))))

append_to_prefix-IsIn6 :
    (e : Endian) (strict : Bool) (a : ℕ) (p : In6Addr) (len : ℕ)
    → a < 2 ^ 32
    → IsIn6 p
    → IfOk IsIn6 (append_to_prefix e strict a p len)
append_to_prefix-IsIn6 e strict a p len ha h = if_ok IsIn6 _ (λ q r.
    is_given
      (subst (Gives IsIn6) (append_ok e strict a p q len r).1 (append_words-IsIn6 e a p len ha h)))

extract_words-lt :
    (e : Endian) (q : In6Addr) (len : ℕ) → IsIn6 q → Gives Small (extract_words e q len)
unfolding extract_words
extract_words-lt big q len h = choose (len == 32) (choose _ nothing (just h.1)) (
    choose (len == 40) (choose _ nothing (just (bit_or_lt 32 _ _ (omega arith) (omega arith)))) (
      choose (len == 48) (choose _ nothing (just (bit_or_lt 32 _ _ (omega arith) (omega arith)))) (
        choose (len == 56) (choose _ nothing (just (bit_or_lt 32 _ _ (omega arith) (omega arith))))
          (choose (len == 64)
            (choose _ nothing (just (bit_or_lt 32 _ _ (omega arith) (omega arith))))
            (choose (len == 96) (just h.3) nothing)))))
extract_words-lt little q len h = choose (len == 32) (choose _ nothing (just h.1)) (
    choose (len == 40) (choose _ nothing (just (bit_or_lt 32 _ _ (omega arith) (omega arith)))) (
      choose (len == 48) (choose _ nothing (just (bit_or_lt 32 _ _ (omega arith) (omega arith)))) (
        choose (len == 56) (choose _ nothing (just (bit_or_lt 32 _ _ (omega arith) (omega arith))))
          (choose (len == 64)
            (choose _ nothing (just (bit_or_lt 32 _ _ (omega arith) (omega arith))))
            (choose (len == 96) (just h.3) nothing)))))

extract_from_prefix-lt :
    (e : Endian) (q : In6Addr) (len : ℕ) → IsIn6 q → IfOk Small (extract_from_prefix e q len)
extract_from_prefix-lt e q len h =
    if_ok Small _
      (λ a r. is_given (subst (Gives Small) (extract_ok e q a len r) (extract_words-lt e q len h)))

paired-Gives6 : (r : Result In6Addr) → IfOk IsIn6 r → Gives6 (paired r)
paired-Gives6 (ok q) (gives h) = gives h
paired-Gives6 (err s) fails = fails

module _ (g : Mapping) (w : IsWide g) where
  switch4-Gives6 : (a o : ℕ) (t : MapType) → a < 2 ^ 32 → Gives6 (switch4 g a t (g.container o))
  unfolding switch4
  switch4-Gives6 a o static h =
      let q = static_to_ip6 g.endian (g.container o) a in
      let found : Gives6 (ok (q, is_last (g.container o))) =
        gives (static_to_ip6-IsIn6 g.endian (g.container o) a h (w.addr6 o)) in
      search (pick, fails, found)
  switch4-Gives6 a o rfc6052 h =
      paired-Gives6 _ (append_to_prefix-IsIn6 g.endian g.wkpf_strict a _ _ h (w.addr6 o))
  switch4-Gives6 a o dynamic_pool h = fails
  switch4-Gives6 a o dynamic_host h = gives (w.addr6 o)

  found4-Gives6 : (a : ℕ) (o : Option Map4) → a < 2 ^ 32 → Gives6 (found4 g a o)
  found4-Gives6 a none h = fails
  found4-Gives6 a (some m) h = switch4-Gives6 a m.owner m.type h

  pub resolve_ip4-Gives6 : (a : ℕ) → a < 2 ^ 32 → Gives6 (resolve_ip4 g a)
  unfolding resolve_ip4
  resolve_ip4-Gives6 a h = found4-Gives6 a (find_map4 a g.map4_list) h

  checked-Gives4 : (m : Map6) (s : MapPair) (r : Result ℕ) → IfOk Small r → Gives4 (checked g m s r)
  unfolding checked
  checked-Gives4 m s (err r) fails = fails
  checked-Gives4 m s (ok a) (gives h) =
      let found : Gives4 (ok (a, true)) = gives h in search (pick, fails, found)

  switch6-Gives4 :
      (q : In6Addr) (o : ℕ) (m : Map6) (t : MapType)
      → IsIn6 q
      → Gives4 (switch6 g q t m (g.container o))
  unfolding switch6
  switch6-Gives4 q o m static h =
      let a = static_to_ip4 g.endian (g.container o) q in
      let found : Gives4 (ok (a, is_last (g.container o))) =
        gives (static_to_ip4-lt g.endian (g.container o) q (w.addr4 o) h) in
      search (pick, fails, found)
  switch6-Gives4 q o m rfc6052 h =
      checked-Gives4 m (g.container o) _ (extract_from_prefix-lt g.endian q m.prefix_len h)
  switch6-Gives4 q o m dynamic_pool h = fails
  switch6-Gives4 q o m dynamic_host h = gives (w.addr4 o)

  found6-Gives4 : (q : In6Addr) (o : Option Map6) → IsIn6 q → Gives4 (found6 g q o)
  found6-Gives4 q none h = fails
  found6-Gives4 q (some m) h = switch6-Gives4 q m.owner m m.type h

  pub resolve_ip6-Gives4 : (q : In6Addr) → IsIn6 q → Gives4 (resolve_ip6 g q)
  unfolding resolve_ip6
  resolve_ip6-Gives4 q h = found6-Gives4 q (find_map6 q g.map6_list) h
