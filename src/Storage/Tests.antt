-- ===== src/Storage/Tests.antt =====
-- The theorems on disk transfers at a concrete disk (kernel/src/driver).
use pickle_os.Base.{
  ℕ, ◌≡◌, ◌≤◌, ◌+◌, ◌-◌, ◌*◌, ◌%◌, refl, true, false, ◌&&◌, ◌==◌, some, List, [], arith, leb, ltb,
  if◌then◌else◌, is_some, replicate,
}
use pickle_os.Storage.Dma.{DmaAllocator, alloc_dma, allocate, dma_pool_size}
use pickle_os.Storage.Dma.Pool.{IsPool, alloc_dma_lem}
use pickle_os.Storage.Ahci.{
  Command, Port, sector_size, to_host, build_command, ata_cmd_read_dma_ext, ata_cmd_write_dma_ext,
  read_sectors, write_sectors,
}
use pickle_os.Storage.Ahci.Commands.{lba_of, count_of, buffer_size, build_command_lem}
use pickle_os.Storage.Ahci.Pool.{sectors_leak_nothing}
use pickle_os.Storage.Ahci.Contents.{sectors, slice}
use pickle_os.Storage.Block.{AhciBlockDevice, read_blocks, write_blocks}
use pickle_os.Storage.Block.Rounds.{blocks_end}
use pickle_os.Storage.Block.Limits.{Fails, blocks_too_large}

-- One disk, as a function from sectors to bytes, with what the last command transferred. It is always
-- idle, and commands retire at once.
abbrev Memory : Type 0
Memory = (ℕ → List ℕ) × List ℕ

abbrev execute : Command → List ℕ → Memory → Memory
execute c buffer (d, t) =
    if c.command == ata_cmd_read_dma_ext
    then (d, sectors d (lba_of c) (count_of c))
    else if c.command == ata_cmd_write_dma_ext
    then (
      (λ i.
          if leb (lba_of c) i && ltb i (lba_of c + count_of c)
          then slice (i - lba_of c) buffer
          else d i),
      t,
    )
    else (d, t)

abbrev memory_port : Port Memory
memory_port = record {
  known = λ index d. true;
  read_tfd = λ index d. some (d, 64);
  read_ci = λ index d. some (d, 0);
  issue = λ index c buffer d. some (execute c buffer d);
  transferred = λ index d. d.1;
}

abbrev contents : Memory → ℕ → List ℕ
contents d = d.0

abbrev disk : AhciBlockDevice
disk = record { name = []; port = 0; block_size = 512; block_count = 100000 }

abbrev pool : DmaAllocator
pool = record { next_offset = 8192; size = dma_pool_size; in_mark = false }

abbrev blank : Memory
blank = ((λ i. replicate 512 0), [])

pool-IsPool : IsPool pool
pool-IsPool = (omega arith, omega arith)

build_command_lem_example :
    let c =
      build_command ata_cmd_read_dma_ext 123456789 8192 4096 8192 (8192 * sector_size) to_host in
    (c.command ≡ ata_cmd_read_dma_ext)
    × (lba_of c ≡ 123456789)
    × (count_of c ≡ 8192)
    × (buffer_size c ≡ 8192 * sector_size)
build_command_lem_example =
    build_command_lem ata_cmd_read_dma_ext 123456789 8192 4096 8192 to_host (omega arith)
      (omega arith) (omega arith)

alloc_dma_lem_example :
    (8192 % 4096 ≡ 0)
    × (4096 % 4096 ≡ 0)
    × (1024 ≤ 4096)
    × (8192 ≤ 8192)
    × (12288 ≡ 8192 + 4096)
    × (12288 ≤ dma_pool_size)
    × (dma_pool_size ≡ dma_pool_size)
unfolding alloc_dma allocate
alloc_dma_lem_example =
    alloc_dma_lem 1024 pool (record pool { next_offset = 12288 }) 8192 4096 pool-IsPool
      (omega arith) refl

sectors_leak_nothing_example :
    ((read_sectors memory_port 0 7 2 1024 pool blank).0.next_offset ≡ 8192)
    × ((write_sectors memory_port 0 7 2 (replicate 1024 1) pool blank).0.next_offset ≡ 8192)
sectors_leak_nothing_example =
    sectors_leak_nothing memory_port 0 7 2 1024 (replicate 1024 1) pool blank pool-IsPool
      (omega arith)

blocks_end_example :
    (is_some (read_blocks memory_port disk 9 1 (replicate 512 0) (pool, blank)).1 ≡ true)
    × (is_some (write_blocks memory_port disk 9 1 (replicate 512 0) (pool, blank)).1 ≡ true)
blocks_end_example = blocks_end memory_port disk 9 1 (replicate 512 0) (pool, blank)

blocks_too_large_example :
    Fails (read_blocks memory_port disk 0 20000 (replicate 10240000 0) (pool, blank)).1
    × Fails (write_blocks memory_port disk 0 20000 (replicate 10240000 0) (pool, blank)).1
blocks_too_large_example =
    blocks_too_large memory_port disk 0 20000 (replicate 10240000 0) (pool, blank) (omega arith)
      refl (omega arith)
