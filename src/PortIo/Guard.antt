-- ===== src/PortIo/Guard.antt =====
-- Who reaches a port (kernel/src/driver/portio.rs).
use pickle_os.Base.{ℕ, ◌+◌, ◌≤◌, ◌<◌, true, ◌≡◌, ◌↔◌, some, arith, is_some}
use pickle_os.Capability.Flags.{contains, read_right, write_right, union}
use pickle_os.Capability.Sets.{contains-union}
use pickle_os.Capability.Find.{find_object_iff}
use pickle_os.Capability.{Object, port, Capability, Tables, lookup}
use pickle_os.PortIo.{covers, task_owns_port, inb, outb}

-- One of the task's slots holds a range of ports with this one in it, to read and to write.
abbrev pub HoldsPort : Tables → ℕ → ℕ → Type 0
HoldsPort t task p =
    (slot : ℕ) × (cap : Capability) × (base : ℕ) × (count : ℕ) × (lookup t task slot ≡ some cap)
    × (cap.object ≡ port base count)
    × (base ≤ p)
    × (p < base + count)
    × (contains cap.rights read_right ≡ true)
    × (contains cap.rights write_right ≡ true)

covers-port :
    (p : ℕ) (o : Object)
    → covers p 1 o ≡ true
    → (base : ℕ) × (count : ℕ) × (o ≡ port base count) × (base ≤ p) × (p < base + count)
unfolding covers
covers-port p (port base count) h = (base, count, ground arith, ground arith, ground arith)
covers-port p (Object.endpoint id) h = absurd (ground arith)
covers-port p (Object.memory base len) h = absurd (ground arith)
covers-port p (Object.irq line) h = absurd (ground arith)
covers-port p (Object.mmio base len) h = absurd (ground arith)
covers-port p (Object.role r) h = absurd (ground arith)

port-covers : (p base count : ℕ) → base ≤ p → p < base + count → covers p 1 (port base count) ≡ true
unfolding covers
port-covers p base count lo hi = ground arith

owns_iff : (t : Tables) (task p : ℕ) → (task_owns_port t task p 1 ≡ true) ↔ HoldsPort t task p
unfolding task_owns_port
owns_iff t task p = (
  (λ h.
      let (slot, cap, at, rights, cover) =
        (find_object_iff t task (union read_right write_right) (covers p 1)).0 h in
      let (base, count, is, lo, hi) = covers-port p cap.object cover in
      let both = (contains-union cap.rights read_right write_right).0 rights in
      (slot, cap, base, count, at, is, lo, hi, both.0, both.1)),
  (λ (slot, cap, base, count, at, is, lo, hi, r, w).
      (find_object_iff t task (union read_right write_right) (covers p 1)).1 (
        slot,
        cap,
        at,
        (contains-union cap.rights read_right write_right).1 (r, w),
        rw is (port-covers p base count lo hi),
      )),
)

-- A byte is read from a port, or written to it, exactly if one of the calling task's slots holds a
-- range of ports with that port in it and with both the read and the write right.
pub access_iff :
    (device : ℕ → ℕ) (t : Tables) (task p value : ℕ)
    → ((is_some (inb device t task p) ≡ true) ↔ HoldsPort t task p)
      × ((is_some (outb t task p value) ≡ true) ↔ HoldsPort t task p)
unfolding inb outb
access_iff device t task p value = (
  (
    (λ h. (owns_iff t task p).0 (ground arith)),
    (λ c. let o = (owns_iff t task p).1 c in ground arith),
  ),
  (
    (λ h. (owns_iff t task p).0 (ground arith)),
    (λ c. let o = (owns_iff t task p).1 c in ground arith),
  ),
)
