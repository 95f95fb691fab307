-- ===== src/Mmio/Guard.antt =====
-- Who reaches a device's registers (kernel/src/driver/mmio.rs).
use pickle_os.Base.{
  refl, ℕ, ◌+◌, ◌%◌, ◌^◌, ◌≤◌, ◌<◌, true, ◌≡◌, ◌↔◌, ◌⊎◌, inl, inr, Option, some, arith, is_some,
  ltb, Bool-cases,
}
use pickle_os.Capability.Flags.{Rights, contains, read_right, write_right}
use pickle_os.Capability.Find.{find_object_iff}
use pickle_os.Capability.{Object, mmio, Capability, Tables, lookup, find_object}
use pickle_os.Mmio.{covers, check_mmio_cap, read, write}

-- One of the task's slots holds a range of registers around these, with the right `needed`. The end
-- of the range is a sum of 64-bit words.
abbrev pub HoldsMmio : Tables → ℕ → ℕ → ℕ → Rights → Type 0
HoldsMmio t task phys size needed =
    (slot : ℕ) × (cap : Capability) × (base : ℕ) × (len : ℕ) × (lookup t task slot ≡ some cap)
    × (cap.object ≡ mmio base len)
    × (base ≤ phys)
    × (phys + size ≤ (base + len) % 2 ^ 64)
    × (contains cap.rights needed ≡ true)

covers-mmio :
    (phys size : ℕ) (o : Object)
    → covers phys size o ≡ true
    → (base : ℕ) × (len : ℕ) × (o ≡ mmio base len)
      × (base ≤ phys)
      × (phys + size ≤ (base + len) % 2 ^ 64)
unfolding covers
covers-mmio phys size (mmio base len) h = (base, len, ground arith, ground arith, ground arith)
covers-mmio phys size (Object.endpoint id) h = absurd (ground arith)
covers-mmio phys size (Object.memory base len) h = absurd (ground arith)
covers-mmio phys size (Object.irq line) h = absurd (ground arith)
covers-mmio phys size (Object.port base count) h = absurd (ground arith)
covers-mmio phys size (Object.role r) h = absurd (ground arith)

mmio-covers :
    (phys size base len : ℕ)
    → base ≤ phys
    → phys + size ≤ (base + len) % 2 ^ 64
    → covers phys size (mmio base len) ≡ true
unfolding covers
mmio-covers phys size base len lo hi = ground arith

check_mmio_cap_iff :
    (depth : ℕ) (t : Tables) (task phys size : ℕ) (needed : Rights)
    → (check_mmio_cap depth t task phys size needed ≡ true)
      ↔ ((0 < depth) ⊎ HoldsMmio t task phys size needed)
unfolding check_mmio_cap
check_mmio_cap_iff depth t task phys size needed = (to, from)
  where
    found :
        is_some (find_object t task needed (covers phys size)) ≡ true
        → HoldsMmio t task phys size needed
    found h =
        let (slot, cap, at, rights, cover) =
          (find_object_iff t task needed (covers phys size)).0 h in
        let (base, len, is, lo, hi) = covers-mmio phys size cap.object cover in
        (slot, cap, base, len, at, is, lo, hi, rights)

    held :
        HoldsMmio t task phys size needed
        → is_some (find_object t task needed (covers phys size)) ≡ true
    held (slot, cap, base, len, at, is, lo, hi, rights) =
        (find_object_iff t task needed (covers phys size)).1
          (slot, cap, at, rights, rw is (mmio-covers phys size base len lo hi))

    to :
        check_mmio_cap depth t task phys size needed ≡ true
        → (0 < depth) ⊎ HoldsMmio t task phys size needed
    to h = elim (Bool-cases (ltb 0 depth)) [
      | inl open_scope ↦ inl (ground (arith, open_scope))
      | inr closed ↦ inr (found (ground (arith, h, closed)))
    ]

    from :
        (0 < depth) ⊎ HoldsMmio t task phys size needed
        → check_mmio_cap depth t task phys size needed ≡ true
    from (inl open_scope) = let o : ltb 0 depth ≡ true = ground (arith, open_scope) in rw o refl
    from (inr holds) = elim (Bool-cases (ltb 0 depth)) [
      | inl open_scope ↦ rw open_scope refl
      | inr closed ↦ rw closed (held holds)
    ]

-- A read or a write of a device's registers by a task goes through exactly if they can be mapped, and
-- either some part of the kernel is inside a scope of kernel-mediated access, whichever task runs, or
-- one of the task's slots holds a range of registers around them with the read or the write right, where the end of the range
-- is its 64-bit sum, wrap-around included.
pub access_mmio_iff :
    (size : ℕ) (mapped : ℕ → ℕ → Option ℕ) (device : ℕ → ℕ) (depth : ℕ) (t : Tables)
    (task phys value : ℕ)
    → ((is_some (read size mapped device depth t task phys) ≡ true) ↔ (
        (is_some (mapped phys size) ≡ true)
        × ((0 < depth) ⊎ HoldsMmio t task phys size read_right)))
      × ((is_some (write size mapped depth t task phys value) ≡ true) ↔ (
          (is_some (mapped phys size) ≡ true)
          × ((0 < depth) ⊎ HoldsMmio t task phys size write_right)))
unfolding read write
access_mmio_iff size mapped device depth t task phys value = (
  (
    (λ h. (
      ground (arith, h),
      (check_mmio_cap_iff depth t task phys size read_right).0 (ground (arith, h)),
    )),
    (λ (m, c).
        let o = (check_mmio_cap_iff depth t task phys size read_right).1 c in ground (arith, o, m)),
  ),
  (
    (λ h. (
      ground (arith, h),
      (check_mmio_cap_iff depth t task phys size write_right).0 (ground (arith, h)),
    )),
    (λ (m, c).
        let o = (check_mmio_cap_iff depth t task phys size write_right).1 c in
        ground (arith, o, m)),
  ),
)
