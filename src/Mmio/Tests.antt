-- ===== src/Mmio/Tests.antt =====
-- The theorem on registers at a concrete table (kernel/src/driver/mmio.rs).
use pickle_os.Base.{ℕ, ◌+◌, ◌<◌, true, ◌≡◌, ◌↔◌, ◌⊎◌, Option, some, [], ◌∷◌, is_some}
use pickle_os.Capability.Flags.{all_rights, read_right, write_right}
use pickle_os.Capability.{mmio, Tables}
use pickle_os.Mmio.Guard.{HoldsMmio, access_mmio_iff}
use pickle_os.Mmio.{read, write}

-- Task 3 holds the registers of one controller.
abbrev controller : Tables
controller = (3, some (record { object = mmio 4096 4096; rights = all_rights }) ∷ []) ∷ []

abbrev identity_map : ℕ → ℕ → Option ℕ
identity_map phys size = some phys

abbrev next_byte : ℕ → ℕ
next_byte virt = virt + 1

access_mmio_example :
    ((is_some (read 4 identity_map next_byte 0 controller 3 4352) ≡ true) ↔ (
      (is_some (identity_map 4352 4) ≡ true)
      × ((0 < 0) ⊎ HoldsMmio controller 3 4352 4 read_right)))
    × ((is_some (write 4 identity_map 0 controller 3 4352 9) ≡ true) ↔ (
        (is_some (identity_map 4352 4) ≡ true)
        × ((0 < 0) ⊎ HoldsMmio controller 3 4352 4 write_right)))
access_mmio_example = access_mmio_iff 4 identity_map next_byte 0 controller 3 4352 9
