-- ===== src/Tests/Sums.antt =====
-- The checksums of src/nat64.c at concrete inputs.
use tayga.Base.{ℕ, ◌+◌, ◌-◌, ◌≡◌, arith, List, [], ◌∷◌}
use tayga.Word.{little}
use tayga.Addr.{In6Addr}
use tayga.Checksum.{ip_checksum}
use tayga.Checksum.Bytes.{ones, sum16, ip_checksum_lem}

abbrev payload : List ℕ
payload = 1 ∷ 2 ∷ 3 ∷ 4 ∷ 5 ∷ 6 ∷ 7 ∷ 8 ∷ 9 ∷ 10 ∷ 11 ∷ []

abbrev src6 : In6Addr
src6 = record { w0 = 0x9bff6400; w1 = 0; w2 = 0; w3 = 0x210200c0 }

abbrev dest6 : In6Addr
dest6 = record { w0 = 0xb80d0120; w1 = 0; w2 = 0; w3 = 0x01000000 }

ip_checksum_lem_example : ip_checksum little payload ≡ 65535 - ones (0xffff + sum16 little payload)
ip_checksum_lem_example = ip_checksum_lem little payload (omega arith)
