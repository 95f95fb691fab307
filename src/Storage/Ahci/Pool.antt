-- ===== src/Storage/Ahci/Pool.antt =====
-- A transfer leaks no memory (kernel/src/driver/ahci.rs, `read_sectors` and `write_sectors`).
use pickle_os.Base.{
  ℕ, ◌≡◌, ◌≤◌, ◌<◌, refl, ◌*◌, ◌^◌, some, List, [], arith, true, ◌==◌, ltb, Bool-cases, inl, inr,
  Option-cases, length, take, replicate,
}
use pickle_os.Storage.Dma.{DmaAllocator, alloc_dma, mark, reset_to}
use pickle_os.Storage.Dma.Pool.{IsPool, alloc_dma_lem}
use pickle_os.Storage.Ahci.{
  Port, Result, ok, err, Direction, to_host, to_device, no_data, ata_cmd_read_dma_ext,
  ata_cmd_write_dma_ext, ata_cmd_flush_cache_ext, build_command, wait_not_busy, submit_command,
  issue_command, read_marked, read_sectors, write_marked, write_sectors, sector_size,
}

pub data ResultCases {E A : Type 0} (r : Result E A) : Type 0 where
  is_ok : (x : A) → r ≡ ok x → ResultCases r
  is_err : (e : E) → r ≡ err e → ResultCases r

pub Result-cases : {E A : Type 0} (r : Result E A) → ResultCases r
Result-cases (ok x) = is_ok x refl
Result-cases (err e) = is_err e refl

-- `b` is the allocator `a` after further allocations.
abbrev Grown : DmaAllocator → DmaAllocator → Type 0
Grown a b = (a.next_offset ≤ b.next_offset) × IsPool b

Grown-trans : (a b c : DmaAllocator) → Grown a b → Grown b c → Grown a c
Grown-trans a b c (up, _) (up', v) = (omega (arith, up, up'), v)

alloc_dma-grows :
    (size : ℕ) (a b : DmaAllocator) (offset rounded : ℕ)
    → IsPool a
    → size ≤ 2 ^ 63
    → alloc_dma size a ≡ some (b, offset, rounded)
    → Grown a b
alloc_dma-grows size a b offset rounded v word e =
    let r = alloc_dma_lem size a b offset rounded v word e in
    let small = v.1 in
    (omega (arith, r.3, r.4), (omega (arith, r.5, r.6), omega (arith, r.6, small)))

module _ {D : Type 0} (port : Port D) (index : ℕ) where
  submit_command-grows :
      (command lba sector_count data_phys byte_count : ℕ) (dir : Direction) (buffer : List ℕ)
      (a : DmaAllocator) (d : D)
      → IsPool a
      → Grown a
          (submit_command port index command lba sector_count data_phys byte_count dir buffer a d).0
  unfolding submit_command
  submit_command-grows command lba sector_count data_phys byte_count dir buffer a d v =
      elim (Option-cases (alloc_dma 256 a)) [
        | inl e ↦ rw (e, submit_command) (omega arith, v)
        | inr ((b, table, rounded), e) ↦
            let grown = alloc_dma-grows 256 a b table rounded v (omega arith) e in
            elim (Option-cases (
              port.issue index
                (build_command command lba sector_count table data_phys byte_count dir) buffer d)) [
                  | inl f ↦ rw (e, f, submit_command) grown
                  | inr (d', f) ↦ rw (e, f, submit_command) grown
                ]
      ]

  issue_command-grows :
      (command lba sector_count data_phys byte_count : ℕ) (dir : Direction) (buffer : List ℕ)
      (a : DmaAllocator) (d : D)
      → IsPool a
      → Grown a
          (issue_command port index command lba sector_count data_phys byte_count dir buffer a d).0
  unfolding issue_command
  issue_command-grows command lba sector_count data_phys byte_count dir buffer a d v =
      let waited = wait_not_busy port 1000 index d in
      elim (Bool-cases waited.1) [
        | inr busy ↦ rw (busy, issue_command) (omega arith, v)
        | inl free ↦
            rw (free, issue_command)
              (submit_command-grows command lba sector_count data_phys byte_count dir buffer a
                waited.0 v)
      ]

  read_marked-grows :
      (lba count : ℕ) (a : DmaAllocator) (d : D)
      → IsPool a
      → count < 2 ^ 16
      → Grown a (read_marked port index lba count a d).0
  unfolding read_marked
  read_marked-grows lba count a d v small =
      elim (Option-cases (alloc_dma (count * sector_size) a)) [
        | inl e ↦ rw (e, read_marked) (omega arith, v)
        | inr ((b, data_phys, r), e) ↦
            let one =
              alloc_dma-grows (count * sector_size) a b data_phys r v (omega (arith, small)) e in
            let issued =
              issue_command port index ata_cmd_read_dma_ext lba count data_phys
                (count * sector_size) to_host (replicate (count * sector_size) 0) b d in
            let both : Grown a issued.0 = Grown-trans a b issued.0 one (
              issue_command-grows ata_cmd_read_dma_ext lba count data_phys (count * sector_size)
                to_host (replicate (count * sector_size) 0) b d one.1) in
            elim (Result-cases issued.2) [
              | is_err x f ↦ rw (e, f, read_marked) both
              | is_ok x f ↦ rw (e, f, read_marked) both
            ]
      ]

  write_marked-grows :
      (lba count : ℕ) (bytes : List ℕ) (a : DmaAllocator) (d : D)
      → IsPool a
      → count < 2 ^ 16
      → Grown a (write_marked port index lba count bytes a d).0
  unfolding write_marked
  write_marked-grows lba count bytes a d v small =
      elim (Option-cases (alloc_dma (count * sector_size) a)) [
        | inl e ↦ rw (e, write_marked) (omega arith, v)
        | inr ((b, data_phys, r), e) ↦
            let one =
              alloc_dma-grows (count * sector_size) a b data_phys r v (omega (arith, small)) e in
            let issued =
              issue_command port index ata_cmd_write_dma_ext lba count data_phys
                (count * sector_size) to_device bytes b d in
            let both : Grown a issued.0 = Grown-trans a b issued.0 one (
              issue_command-grows ata_cmd_write_dma_ext lba count data_phys (count * sector_size)
                to_device bytes b d one.1) in
            let flushed =
              issue_command port index ata_cmd_flush_cache_ext 0 0 0 0 no_data [] issued.0
                issued.1 in
            elim (Result-cases issued.2) [
              | is_err x f ↦ rw (e, f, write_marked) both
              | is_ok x f ↦
                  rw (e, f, write_marked)
                    (Grown-trans a issued.0 flushed.0 both (
                      issue_command-grows ata_cmd_flush_cache_ext 0 0 0 0 no_data [] issued.0
                        issued.1 both.1))
            ]
      ]

reset_lem :
    (a b : DmaAllocator)
    → a.next_offset ≤ b.next_offset
    → (reset_to a.next_offset b).next_offset ≡ a.next_offset
unfolding reset_to
reset_lem a b h = ground (arith, h)

-- In a pool of at most 8 MiB whose next offset is inside it: whatever a read or a write of less than
-- 2^16 sectors ends in, errors of the device and a full pool included, as much of the pool is free
-- after it as before.
pub sectors_leak_nothing :
    {D : Type 0} (port : Port D) (index lba count len : ℕ) (buf : List ℕ) (a : DmaAllocator) (d : D)
    → IsPool a
    → count < 2 ^ 16
    → ((read_sectors port index lba count len a d).0.next_offset ≡ a.next_offset)
      × ((write_sectors port index lba count buf a d).0.next_offset ≡ a.next_offset)
unfolding read_sectors write_sectors mark
sectors_leak_nothing port index lba count len buf a d v small = (reads, writes)
  where
    marked : DmaAllocator
    marked = record a { in_mark = true }

    reads : (read_sectors port index lba count len a d).0.next_offset ≡ a.next_offset
    reads = elim (Bool-cases (count == 0)) [
      | inl e ↦ rw (e, read_sectors) refl
      | inr e ↦ elim (Bool-cases (ltb len (count * sector_size))) [
        | inl f ↦ rw (e, f, read_sectors) refl
        | inr f ↦ elim (Bool-cases (port.known index d)) [
          | inl g ↦
              rw (e, f, g, read_sectors)
                (reset_lem a (read_marked port index lba count marked d).0
                  (read_marked-grows port index lba count marked d v small).0)
          | inr g ↦ rw (e, f, g, read_sectors) refl
        ]
      ]
    ]

    writes : (write_sectors port index lba count buf a d).0.next_offset ≡ a.next_offset
    writes = elim (Bool-cases (count == 0)) [
      | inl e ↦ rw (e, write_sectors) refl
      | inr e ↦ elim (Bool-cases (ltb (length buf) (count * sector_size))) [
        | inl f ↦ rw (e, f, write_sectors) refl
        | inr f ↦ elim (Bool-cases (port.known index d)) [
          | inl g ↦
              rw (e, f, g, write_sectors)
                (reset_lem a
                  (write_marked port index lba count (take (count * sector_size) buf) marked d).0
                  (write_marked-grows port index lba count (take (count * sector_size) buf) marked d
                    v small).0)
          | inr g ↦ rw (e, f, g, write_sectors) refl
        ]
      ]
    ]
