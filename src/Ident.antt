-- ===== src/Ident.antt =====
-- src/nat64.c: the generator of IPv4 identifications, `global_ip4_ident`, which the worker threads
-- advance by atomic additions.
pub mod Laws
use tayga.Base.{ℕ, ◌+◌, ◌%◌, ◌^◌, ◌<◌, List, [], ◌∷◌}
use tayga.Word.{u16}

-- `atomic_store_explicit(&global_ip4_ident, val, ...)`.
unfoldable pub set_ip4_ident_counter : ℕ → ℕ → ℕ
set_ip4_ident_counter val counter = u16 val

-- The identification, and the counter after the atomic addition.
unfoldable pub reserve_ip4_ident : ℕ → ℕ → ℕ × ℕ
reserve_ip4_ident count counter = (counter, u16 (counter + count))

unfoldable pub next_ip4_ident : ℕ → ℕ × ℕ
unfolding reserve_ip4_ident
next_ip4_ident counter = reserve_ip4_ident 1 counter

-- One reservation: thread `worker` takes the `count` identifications from `first` on.
pub record Reservation : Type 0 where
  pub worker : ℕ
  pub first : ℕ
  pub count : ℕ

-- The threads' calls of `reserve_ip4_ident` in the order in which the additions take effect: each
-- thread may call with any count of 16 bits at any time.
pub data Reserved : ℕ → List Reservation → ℕ → Type 0 where
  idle : {counter : ℕ} → Reserved counter [] counter
  reserve :
      {start counter : ℕ} {taken : List Reservation} (worker count : ℕ)
      → count < 2 ^ 16
      → Reserved start taken counter
      → Reserved start
          (record { worker = worker; first = (reserve_ip4_ident count counter).0; count = count }
            ∷ taken)
          (reserve_ip4_ident count counter).1
