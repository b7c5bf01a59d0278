-- ===== src/Walk.antt =====
-- src/nat64.c: the loop of `parse_ip6` over the extension headers. `bytes` is the bytes from
-- `p->data` on, of which `data_len` belong to the packet.
pub mod Laws
use tayga.Base.{
  ℕ, zero, suc, ◌+◌, ◌-◌, ◌*◌, ◌^◌, Bool, true, false, ◌||◌, if◌then◌else◌, ◌==◌, ltb, Option, none,
  some, List, [], ◌∷◌, drop,
}
use tayga.Word.{u32}
use tayga.Icmp.{is_one_of}

-- The variables that the loop changes; `seg_left` and `seg_ptr` are local.
pub record Walk : Type 0 where
  pub bytes : List ℕ
  pub data_len : ℕ
  pub data_proto : ℕ
  pub header_len : ℕ
  pub seg_left : ℕ
  pub seg_ptr : ℕ

abbrev pub byte : ℕ → List ℕ → ℕ
byte i [] = 0
byte zero (x ∷ xs) = x
byte (suc i) (x ∷ xs) = byte i xs

-- The condition of the loop: hop-by-hop, routing or destination options.
abbrev pub is_extension : Walk → Bool
is_extension w = is_one_of w.data_proto (0 ∷ 43 ∷ 60 ∷ [])

abbrev pub extension_len : Walk → ℕ
extension_len w = (byte 1 w.bytes + 1) * 8

-- The rest of the body, past the two checks.
unfoldable pub next_header : Walk → Walk
next_header w =
    let seg_left = if w.data_proto == 43 then byte 3 w.bytes else w.seg_left in
    record {
      bytes = drop (extension_len w) w.bytes;
      data_len = w.data_len - extension_len w;
      data_proto = byte 0 w.bytes;
      header_len = u32 (w.header_len + extension_len w);
      seg_left = seg_left;
      seg_ptr = if seg_left == 0 then u32 (w.seg_ptr + extension_len w) else w.seg_ptr;
    }

-- The loop with `count` as `ext_count`; `none` is `ERROR_DROP`.
unfoldable pub walk_extensions : ℕ → ℕ → Walk → Option Walk
walk_extensions zero count w = none
walk_extensions (suc fuel) count w =
    let rest = walk_extensions fuel (suc count) (next_header w) in
    if is_extension w
    then (if ltb 8 (suc count) || ltb w.data_len 2
        then none
        else if ltb w.data_len (extension_len w)
        then none
        else rest)
    else some w
