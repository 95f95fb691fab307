-- ===== src/PortIo.antt =====
-- kernel/src/driver/portio.rs: port accesses behind a capability. The ports themselves are hardware:
-- what a read returns is the parameter `device`, and a write is the pair that reaches the port.
pub mod Guard
mod Tests
use pickle_os.Base.{
  ℕ, ◌+◌, Bool, true, false, ◌&&◌, Option, none, some, List, leb, if◌then◌else◌, is_some,
}
use pickle_os.Capability.Flags.{union, read_right, write_right}
use pickle_os.Capability.{Object, endpoint, memory, irq, port, mmio, role, Tables, find_object}

-- The object is a range of ports that covers `[p, p + width)`.
unfoldable pub covers : ℕ → ℕ → Object → Bool
covers p width (port base count) = leb base p && leb (p + width) (base + count)
covers p width (endpoint id) = false
covers p width (memory base len) = false
covers p width (irq line) = false
covers p width (mmio base len) = false
covers p width (role r) = false

unfoldable pub task_owns_port : Tables → ℕ → ℕ → ℕ → Bool
task_owns_port t task p width =
    is_some (find_object t task (union read_right write_right) (covers p width))

-- `none` is the missing capability.
unfoldable pub inb : (ℕ → ℕ) → Tables → ℕ → ℕ → Option ℕ
inb device t task p = if task_owns_port t task p 1 then some (device p) else none

unfoldable pub outb : Tables → ℕ → ℕ → ℕ → Option (ℕ × ℕ)
outb t task p value = if task_owns_port t task p 1 then some (p, value) else none
