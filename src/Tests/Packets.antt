-- ===== src/Tests/Packets.antt =====
-- Packets of src/nat64.c.
use tayga.Icmp.{Icmp, error_4to6, error_6to4}
use tayga.Icmp.Laws.{ComesBack, error_6to4-error_4to6}
use tayga.Base.{◌≡◌, some, none, ◌⊎◌, ℕ, refl, arith, Bool, true}
use tayga.Fragment.{Mtus, sends}
use tayga.Fragment.Sends.{IsSent, sends-IsSent}

abbrev tunnel : Mtus
tunnel = record { mtu = 1500; ipv6_offlink_mtu = 1280 }

abbrev accepts : ℕ → Bool
accepts i = true

-- A later fragment that has more after it.
sends-IsSent_example : IsSent tunnel 0x20b9 2000 (sends tunnel accepts 0x20b9 2000)
sends-IsSent_example =
    sends-IsSent tunnel accepts 0x20b9 2000 (omega arith) (omega arith) (omega arith) (omega arith)
      (λ i. refl)

abbrev too_large : Icmp
too_large = record { kind = 3; code = 4; word = 1400 }

error_6to4-error_4to6_example :
    (error_4to6 1500 1500 too_large ≡ none)
    ⊎ ((q r : Icmp) × (error_4to6 1500 1500 too_large ≡ some q)
        × (error_6to4 1500 q ≡ some r)
        × ComesBack 1500 too_large r)
error_6to4-error_4to6_example =
    error_6to4-error_4to6 1500 1500 too_large (omega arith) (omega arith) (omega arith)
