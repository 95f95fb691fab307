-- ===== src/Storage/Block/Limits.antt =====
-- Transfers that the pool cannot hold (kernel/src/driver/block.rs over ahci.rs and dma.rs): a chunk
-- has up to 65535 sectors, and the pool 8 MiB.
use pickle_os.Base.{
  ℕ, suc, zero, ◌^◌, ◌≡◌, ◌≤◌, ◌<◌, refl, ◌+◌, ◌*◌, true, false, Option, none, some, List, arith,
  ltb, ◌==◌, Bool-cases, inl, inr, length, take, drop, Option-cases,
}
use pickle_os.Storage.Dma.{DmaAllocator, alloc_dma, mark, dma_pool_size}
use pickle_os.Storage.Dma.Pool.{IsPool, alloc_dma_lem}
use pickle_os.Storage.Ahci.{
  AhciError, Result, err, no_dma, unknown_port, buffer_too_small, Port, sector_size, read_sectors,
  write_sectors, read_marked, write_marked,
}
use pickle_os.Storage.Block.{
  AhciBlockDevice, BlockError, bad_buffer, device_error, validate, chunk_size, State, read_rounds,
  read_blocks, write_rounds, write_blocks,
}
use pickle_os.Storage.Ahci.Pool.{is_ok, is_err, Result-cases}

abbrev pub Fails : {A : Type 0} → Option (Result BlockError A) → Type 0
Fails {A} o = (e : BlockError) × (o ≡ some (err e))

alloc_dma_too_large :
    (size : ℕ) (a : DmaAllocator)
    → IsPool a
    → size ≤ 2 ^ 63
    → a.size < size
    → alloc_dma size a ≡ none
alloc_dma_too_large size a v word h = elim (Option-cases (alloc_dma size a)) [
  | inl e ↦ e
  | inr ((b, offset, rounded), e) ↦
      let r = alloc_dma_lem size a b offset rounded v word e in
      absurd (omega (arith, r.2, r.4, r.5, h))
]

module _ {D : Type 0} (port : Port D) where
  read_sectors_too_large :
      (index lba count len : ℕ) (a : DmaAllocator) (d : D)
      → 0 < count
      → count < 2 ^ 16
      → IsPool a
      → a.size < count * sector_size
      → (e : AhciError) × ((read_sectors port index lba count len a d).2 ≡ err e)
  unfolding read_sectors read_marked mark
  read_sectors_too_large index lba count len a d h narrow v big =
      let some_sectors : (count == 0) ≡ false = ground (arith, h) in
      let full =
        alloc_dma_too_large (count * sector_size) (record a { in_mark = true }) v
          (omega (arith, narrow)) big in
      elim (Bool-cases (ltb len (count * sector_size))) [
        | inl f ↦ (buffer_too_small, rw (some_sectors, f, read_sectors) refl)
        | inr f ↦ elim (Bool-cases (port.known index d)) [
          | inl g ↦
              (no_dma, rw (some_sectors, f, g, read_sectors, mark) (rw (full, read_marked) refl))
          | inr g ↦ (unknown_port, rw (some_sectors, f, g, read_sectors) refl)
        ]
      ]

  write_sectors_too_large :
      (index lba count : ℕ) (buf : List ℕ) (a : DmaAllocator) (d : D)
      → 0 < count
      → count < 2 ^ 16
      → IsPool a
      → a.size < count * sector_size
      → (e : AhciError) × ((write_sectors port index lba count buf a d).2 ≡ err e)
  unfolding write_sectors write_marked mark
  write_sectors_too_large index lba count buf a d h narrow v big =
      let some_sectors : (count == 0) ≡ false = ground (arith, h) in
      let full =
        alloc_dma_too_large (count * sector_size) (record a { in_mark = true }) v
          (omega (arith, narrow)) big in
      elim (Bool-cases (ltb (length buf) (count * sector_size))) [
        | inl f ↦ (buffer_too_small, rw (some_sectors, f, write_sectors) refl)
        | inr f ↦ elim (Bool-cases (port.known index d)) [
          | inl g ↦
              (no_dma, rw (some_sectors, f, g, write_sectors, mark) (rw (full, write_marked) refl))
          | inr g ↦ (unknown_port, rw (some_sectors, f, g, write_sectors) refl)
        ]
      ]

  read_rounds_too_large :
      (n : ℕ) (dev : AhciBlockDevice) (lba count : ℕ) (buf : List ℕ) (s : State port)
      → 16384 < count
      → s.0.size ≡ dma_pool_size
      → s.0.next_offset ≤ dma_pool_size
      → count ≤ n
      → Fails (read_rounds port n dev lba count 0 buf s).1
  unfolding read_rounds
  read_rounds_too_large zero dev lba count buf s big pool inside h = absurd (omega arith)
  read_rounds_too_large (suc n) dev lba count buf s big pool inside h =
      let more : ltb 0 count ≡ true = ground (arith, big) in
      let chunk : ℕ = chunk_size count 0 in
      let enough : 16384 < chunk = omega (arith, big) in
      let r : (e : AhciError) × ((read_sectors port dev.port (lba + 0) chunk
              (chunk * dev.block_size) s.0 s.1).2
            ≡ err e) =
        read_sectors_too_large dev.port (lba + 0) chunk (chunk * dev.block_size) s.0 s.1
          (omega (arith, enough)) (omega arith) (omega (arith, pool, inside), omega (arith, pool))
          (omega (arith, enough, pool)) in
      elim (Bool-cases (ltb (length buf) (0 * dev.block_size + chunk * dev.block_size))) [
        | inl short ↦ (bad_buffer, rw (more, short) refl)
        | inr fits ↦ (device_error r.0, rw (more, fits, r.1) refl)
      ]

  write_rounds_too_large :
      (n : ℕ) (dev : AhciBlockDevice) (lba count : ℕ) (buf : List ℕ) (s : State port)
      → 16384 < count
      → s.0.size ≡ dma_pool_size
      → s.0.next_offset ≤ dma_pool_size
      → count ≤ n
      → Fails (write_rounds port n dev lba count 0 buf s).1
  unfolding write_rounds
  write_rounds_too_large zero dev lba count buf s big pool inside h = absurd (omega arith)
  write_rounds_too_large (suc n) dev lba count buf s big pool inside h =
      let more : ltb 0 count ≡ true = ground (arith, big) in
      let chunk : ℕ = chunk_size count 0 in
      let enough : 16384 < chunk = omega (arith, big) in
      let part : List ℕ = take (chunk * dev.block_size) (drop (0 * dev.block_size) buf) in
      let r : (e : AhciError) × ((write_sectors port dev.port (lba + 0) chunk part s.0 s.1).2
            ≡ err e) =
        write_sectors_too_large dev.port (lba + 0) chunk part s.0 s.1 (omega (arith, enough))
          (omega arith) (omega (arith, pool, inside), omega (arith, pool))
          (omega (arith, enough, pool)) in
      elim (Bool-cases (ltb (length buf) (0 * dev.block_size + chunk * dev.block_size))) [
        | inl short ↦ (bad_buffer, rw (more, short) refl)
        | inr fits ↦ (device_error r.0, rw (more, fits, r.1) refl)
      ]

  -- With the pool of 8 MiB, and its next offset inside it, a read or a write of more than 16384 blocks
  -- fails on every device.
  pub blocks_too_large :
      (dev : AhciBlockDevice) (lba count : ℕ) (buf : List ℕ) (s : State port)
      → 16384 < count
      → s.0.size ≡ dma_pool_size
      → s.0.next_offset ≤ dma_pool_size
      → Fails (read_blocks port dev lba count buf s).1
        × Fails (write_blocks port dev lba count buf s).1
  unfolding read_blocks write_blocks
  blocks_too_large dev lba count buf s big pool inside =
      elim (Result-cases (validate dev lba count (length buf))) [
        | is_err e q ↦ ((e, rw (q, read_blocks) refl), (e, rw (q, write_blocks) refl))
        | is_ok u q ↦ (
          rw (q, read_blocks)
              (read_rounds_too_large count dev lba count buf s big pool inside (omega arith)),
          rw (q, write_blocks)
              (write_rounds_too_large count dev lba count buf s big pool inside (omega arith)),
        )
      ]
