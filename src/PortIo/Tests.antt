-- ===== src/PortIo/Tests.antt =====
-- The theorem on ports at a concrete table (kernel/src/driver/portio.rs).
use pickle_os.Base.{◌+◌, true, ◌≡◌, ◌↔◌, some, [], ◌∷◌, is_some}
use pickle_os.Capability.Flags.{all_rights}
use pickle_os.Capability.{port, Tables}
use pickle_os.PortIo.Guard.{HoldsPort, access_iff}
use pickle_os.PortIo.{inb, outb}

-- Task 4 drives the two ports of the keyboard controller and those between.
abbrev keyboard : Tables
keyboard = (4, some (record { object = port 96 5; rights = all_rights }) ∷ []) ∷ []

access_example :
    ((is_some (inb (λ p. p + 1) keyboard 4 96) ≡ true) ↔ HoldsPort keyboard 4 96)
    × ((is_some (outb keyboard 4 96 7) ≡ true) ↔ HoldsPort keyboard 4 96)
access_example = access_iff (λ p. p + 1) keyboard 4 96 7
