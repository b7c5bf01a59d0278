-- ===== src/Translate/Fits.antt =====
-- The type, code and word of the errors that src/nat64.c translates fit their fields.
use tayga.Base.{
  ℕ, zero, suc, ◌+◌, ◌-◌, ◌*◌, ◌/◌, ◌%◌, ◌^◌, ◌≤◌, ◌<◌, ◌≡◌, refl, arith, Bool, true, false, not,
  ◌&&◌, if◌then◌else◌, ◌==◌, ltb, leb, Option, none, some, List, [], ◌∷◌, All,
}
use tayga.Word.{Endian, htonl, htons, u32}
use tayga.Word.Laws.{htonl-lt}
use tayga.Checksum.Bytes.{IsByte}
use tayga.Icmp.{
  Icmp, icmp, entry, with_pointer, pointers_4to6, mtu_4to6, pointer_4to6, pointer_6to4,
  unreachable_4to6, error_4to6, unreachable_6to4, error_6to4,
}
use tayga.Fragment.{mtu_adj}
use tayga.Packet.{read_icmp, Pkt4}
use tayga.Packet.Sums.{IsIcmp}
use tayga.Host.{Pkt6}
use tayga.Translate.{Config}
use tayga.Translate.Error4.{switch_4to6, fresh_icmp}
use tayga.Translate.Error6.{switch_6to4}
use tayga.Translate.Safety.{byte-lt}

-- A predicate of a result, where there is one.
pub data Gives {ℓ κ} {A : Type ℓ} (P : A → Type κ) : Option A → Type (ℓ ⊔ κ) where
  nothing : Gives P none
  just : {x : A} → P x → Gives P (some x)

pub choose {ℓ κ} :
    {A : Type ℓ} {P : A → Type κ} (b : Bool) {x y : Option A}
    → Gives P x
    → Gives P y
    → Gives P (if b then x else y)
choose true h k = h
choose false h k = k

-- The fields of the new error.
abbrev pub Fits : Endian → Option Icmp → Type 0
Fits e o = Gives (λ (i : Icmp). IsIcmp (fresh_icmp e i 0)) o

fits :
    (e : Endian) (kind code word : ℕ)
    → kind < 256
    → code < 256
    → word < 2 ^ 32
    → Fits e (icmp kind code word)
fits e kind code word k c w = just (record { type = k; code = c; word = htonl-lt e word w })

abbrev are_small : List (Option ℕ) → Bool
are_small [] = true
are_small (none ∷ ts) = are_small ts
are_small (some t ∷ ts) = leb t 24 && are_small ts

entry-bound :
    (ts : List (Option ℕ)) (i : ℕ) → are_small ts ≡ true → Gives (λ (t : ℕ). t ≤ 24) (entry ts i)
entry-bound [] i h = nothing
entry-bound (none ∷ ts) zero h = nothing
entry-bound (some t ∷ ts) zero h = just (ground arith)
entry-bound (none ∷ ts) (suc i) h = entry-bound ts i h
entry-bound (some t ∷ ts) (suc i) h = entry-bound ts i (ground arith)

pointed :
    (e : Endian) (o : Option ℕ) → Gives (λ (t : ℕ). t ≤ 24) o → Fits e (with_pointer 4 (λ t. t) o)
pointed e none nothing = nothing
pointed e (some t) (just h) = fits e 4 0 t (omega arith) (omega arith) (omega (arith, h))

pointer_4to6-bound : (n : ℕ) → Gives (λ (t : ℕ). t ≤ 24) (pointer_4to6 n)
unfolding pointer_4to6
pointer_4to6-bound n = choose (ltb 19 n) nothing (entry-bound pointers_4to6 n refl)

mtu_4to6-bound : (own em_length mtu : ℕ) → own < 2 ^ 32 → mtu_4to6 own em_length mtu < 2 ^ 32
unfolding mtu_4to6
mtu_4to6-bound own em_length mtu m = ground arith

unreachable_4to6-Fits :
    (e : Endian) (own em_length : ℕ) (i : Icmp)
    → own < 2 ^ 32
    → Fits e (unreachable_4to6 own em_length i)
unfolding unreachable_4to6
unreachable_4to6-Fits e own em_length i m =
    let big =
      fits e 2 0 _ (omega arith) (omega arith) (mtu_4to6-bound own em_length (i.word % 2 ^ 16) m) in
    choose _ (fits e 1 0 0 (omega arith) (omega arith) (omega arith)) (
      choose _ (fits e 4 1 6 (omega arith) (omega arith) (omega arith)) (
        choose _ (fits e 1 4 0 (omega arith) (omega arith) (omega arith)) (
          choose _ big
            (choose _ (fits e 1 1 0 (omega arith) (omega arith) (omega arith)) nothing))))

error_4to6-Fits :
    (e : Endian) (own em_length : ℕ) (i : Icmp)
    → own < 2 ^ 32
    → i.code < 256
    → Fits e (error_4to6 own em_length i)
unfolding error_4to6
error_4to6-Fits e own em_length i m code =
    choose (i.kind == 3) (unreachable_4to6-Fits e own em_length i m) (
      choose (i.kind == 11) (fits e 3 i.code 0 (omega arith) code (omega arith)) (
        choose (i.kind == 12)
          (choose (not (i.code == 0) && not (i.code == 2)) nothing
            (pointed e _ (pointer_4to6-bound (i.word / 2 ^ 24))))
          nothing))

pub switch_4to6-Fits :
    (c : Config) (p q : Pkt4)
    → All IsByte p.payload
    → c.mtus.mtu < 2 ^ 32
    → Fits c.endian (switch_4to6 c p q)
unfolding switch_4to6 read_icmp
switch_4to6-Fits c p q h m =
    let icmp = read_icmp c.endian p.payload in
    error_4to6-Fits c.endian c.mtus.mtu (htons c.endian q.ip4.length)
      (record { kind = icmp.type; code = icmp.code; word = htonl c.endian icmp.word }) m
      (byte-lt 1 p.payload h)

unreachable_6to4-Fits : (e : Endian) (i : Icmp) → Fits e (unreachable_6to4 i)
unfolding unreachable_6to4
unreachable_6to4-Fits e i = choose _ (fits e 3 1 0 (omega arith) (omega arith) (omega arith)) (
    choose _ (fits e 3 10 0 (omega arith) (omega arith) (omega arith))
      (choose _ (fits e 3 3 0 (omega arith) (omega arith) (omega arith)) nothing))

placed_pointer : (e : Endian) (o : Option ℕ) → Fits e (with_pointer 12 (λ t. u32 (t * 2 ^ 24)) o)
placed_pointer e none = nothing
placed_pointer e (some t) = fits e 12 0 (u32 (t * 2 ^ 24)) (omega arith) (omega arith) (omega arith)

error_6to4-Fits : (e : Endian) (own : ℕ) (i : Icmp) → i.code < 256 → Fits e (error_6to4 own i)
unfolding error_6to4
error_6to4-Fits e own i code =
    let word = u32 ((if ltb own i.word then own else i.word) + 2 ^ 32 - mtu_adj) in
    choose (i.kind == 1) (unreachable_6to4-Fits e i) (
      choose (i.kind == 2)
        (choose (ltb i.word (68 + mtu_adj)) nothing
          (fits e 3 4 word (omega arith) (omega arith) (omega arith)))
        (choose (i.kind == 3) (fits e 11 i.code 0 (omega arith) code (omega arith)) (
          choose (i.kind == 4)
            (choose (i.code == 0) (placed_pointer e (pointer_6to4 i.word)) (
              choose (i.code == 1) (fits e 3 2 0 (omega arith) (omega arith) (omega arith))
                nothing))
            nothing)))

pub switch_6to4-Fits :
    (c : Config) (p : Pkt6) → All IsByte p.payload → Fits c.endian (switch_6to4 c p)
unfolding switch_6to4 read_icmp
switch_6to4-Fits c p h =
    let icmp = read_icmp c.endian p.payload in
    error_6to4-Fits c.endian c.mtus.mtu
      (record { kind = icmp.type; code = icmp.code; word = htonl c.endian icmp.word })
      (byte-lt 1 p.payload h)
