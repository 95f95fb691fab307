-- ===== src/Mmio.antt =====
-- kernel/src/driver/mmio.rs: accesses to mapped registers behind a capability. The page table and the
-- registers are parameters: `mapped` gives the virtual address of a range that can be mapped, and
-- `device` what a read returns.
pub mod Guard
mod Tests
use pickle_os.Base.{
  ℕ, suc, ◌+◌, ◌-◌, ◌%◌, ◌^◌, Bool, true, false, ◌&&◌, Option, none, some, leb, ltb, if◌then◌else◌,
  is_some, ◌>>=◌,
}
use pickle_os.Capability.Flags.{Rights, read_right, write_right}
use pickle_os.Capability.{Object, endpoint, memory, irq, port, mmio, role, Tables, find_object}

-- `KernelIoGuard::enter`, and its `drop`, on the depth of the scopes.
abbrev pub enter : ℕ → ℕ
enter depth = depth + 1

abbrev pub leave : ℕ → ℕ
leave depth = depth - 1

abbrev pub in_kernel_io : ℕ → Bool
in_kernel_io depth = ltb 0 depth

-- The object is a range of registers that covers `[phys, phys + size)`. The first sum is checked; the
-- range's end wraps, as sums do in a release build.
unfoldable pub covers : ℕ → ℕ → Object → Bool
covers phys size (mmio base len) =
    leb base phys && ltb (phys + size) (2 ^ 64) && leb (phys + size) ((base + len) % 2 ^ 64)
covers phys size (endpoint id) = false
covers phys size (memory base len) = false
covers phys size (irq line) = false
covers phys size (port base count) = false
covers phys size (role r) = false

unfoldable pub check_mmio_cap : ℕ → Tables → ℕ → ℕ → ℕ → Rights → Bool
check_mmio_cap depth t task phys size needed =
    if in_kernel_io depth then true else is_some (find_object t task needed (covers phys size))

-- `read_u8` to `read_u64`, by the number of bytes. `none` is an error.
unfoldable pub read : ℕ → (ℕ → ℕ → Option ℕ) → (ℕ → ℕ) → ℕ → Tables → ℕ → ℕ → Option ℕ
unfolding check_mmio_cap
read size mapped device depth t task phys =
    if check_mmio_cap depth t task phys size read_right
    then (mapped phys size >>= λ virt. some (device virt))
    else none

-- `write_u8` to `write_u64`: the address and the value that reach the device.
unfoldable pub write : ℕ → (ℕ → ℕ → Option ℕ) → ℕ → Tables → ℕ → ℕ → ℕ → Option (ℕ × ℕ)
unfolding check_mmio_cap
write size mapped depth t task phys value =
    if check_mmio_cap depth t task phys size write_right
    then (mapped phys size >>= λ virt. some (virt, value))
    else none
