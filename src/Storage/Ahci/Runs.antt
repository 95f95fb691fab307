-- ===== src/Storage/Ahci/Runs.antt =====
-- Commands and transfers that go through (kernel/src/driver/ahci.rs).
use pickle_os.Base.{
  ℕ, ◌≡◌, ◌≤◌, ◌<◌, refl, ◌∙◌, ap, ◌*◌, true, false, some, List, [], arith, ltb, ◌==◌, length, take,
  replicate,
}
use pickle_os.Storage.Dma.{DmaAllocator, alloc_dma, mark, reset_to}
use pickle_os.Storage.Ahci.{
  Direction, no_data, to_host, to_device, AhciError, Result, ok, err, Port, sector_size, received,
  ata_cmd_read_dma_ext, ata_cmd_write_dma_ext, ata_cmd_flush_cache_ext, build_command,
  wait_not_busy, finish, submit_command, issue_command, read_sectors, write_sectors, read_marked,
  write_marked,
}

module _ {D : Type 0} (port : Port D) (index : ℕ) where
  submit_runs :
      (command lba count data_phys size : ℕ) (dir : Direction) (buffer : List ℕ)
      (a b : DmaAllocator) (d e d' : D) (table rounded : ℕ)
      → alloc_dma 256 a ≡ some (b, table, rounded)
      → port.issue index (build_command command lba count table data_phys size dir) buffer d
        ≡ some e
      → finish port index e ≡ (d', ok tt)
      → submit_command port index command lba count data_phys size dir buffer a d ≡ (b, d', ok tt)
  unfolding submit_command
  submit_runs command lba count data_phys size dir buffer a b d e d' table rounded room issued
        ended =
      rw (room, issued, submit_command) (rw ended refl)

  pub issue_runs :
      (command lba count data_phys size : ℕ) (dir : Direction) (buffer : List ℕ)
      (a b : DmaAllocator) (d e0 e d' : D) (table rounded : ℕ)
      → wait_not_busy port 1000 index d ≡ (e0, true)
      → alloc_dma 256 a ≡ some (b, table, rounded)
      → port.issue index (build_command command lba count table data_phys size dir) buffer e0
        ≡ some e
      → finish port index e ≡ (d', ok tt)
      → issue_command port index command lba count data_phys size dir buffer a d ≡ (b, d', ok tt)
  unfolding issue_command
  issue_runs command lba count data_phys size dir buffer a b d e0 e d' table rounded free room
        issued ended =
      rw (free, issue_command)
        (submit_runs command lba count data_phys size dir buffer a b e0 e d' table rounded room
          issued ended)

  pub read_runs :
      (lba count len : ℕ) (a b c : DmaAllocator) (d d' : D) (data_phys rounded : ℕ)
      → 0 < count
      → count * sector_size ≤ len
      → port.known index d ≡ true
      → alloc_dma (count * sector_size) (record a { in_mark = true }) ≡ some (b, data_phys, rounded)
      → issue_command port index ata_cmd_read_dma_ext lba count data_phys
          (count * sector_size)
          to_host
          (replicate (count * sector_size) 0)
          b
          d
        ≡ (c, d', ok tt)
      → read_sectors port index lba count len a d ≡ (
        reset_to a.next_offset c,
        d',
        ok (received (count * sector_size) (port.transferred index d')),
      )
  unfolding read_sectors read_marked mark
  read_runs lba count len a b c d d' data_phys rounded some_sectors enough known room issued =
      let n : (count == 0) ≡ false = ground (arith, some_sectors) in
      let l : ltb len (count * sector_size) ≡ false = ground (arith, enough) in
      rw (n, l, known, read_sectors, mark) (rw (room, read_marked) (ap reset issued))
    where
      copied :
          DmaAllocator × D × Result AhciError Unit → DmaAllocator × D × Result AhciError (List ℕ)
      copied r = elim r.2 [
        | err e ↦ (r.0, r.1, err e)
        | ok _ ↦ (r.0, r.1, ok (received (count * sector_size) (port.transferred index r.1)))
      ]

      reset :
          DmaAllocator × D × Result AhciError Unit → DmaAllocator × D × Result AhciError (List ℕ)
      reset r = (reset_to a.next_offset (copied r).0, (copied r).1, (copied r).2)

  pub write_runs :
      (lba count : ℕ) (buf : List ℕ) (a b c u : DmaAllocator) (d d' d'' : D) (data_phys rounded : ℕ)
      → 0 < count
      → count * sector_size ≤ length buf
      → port.known index d ≡ true
      → alloc_dma (count * sector_size) (record a { in_mark = true }) ≡ some (b, data_phys, rounded)
      → issue_command port index ata_cmd_write_dma_ext lba count data_phys
          (count * sector_size)
          to_device
          (take (count * sector_size) buf)
          b
          d
        ≡ (c, d', ok tt)
      → issue_command port index ata_cmd_flush_cache_ext 0 0 0 0 no_data [] c d' ≡ (u, d'', ok tt)
      → write_sectors port index lba count buf a d ≡ (reset_to a.next_offset u, d'', ok tt)
  unfolding write_sectors write_marked mark
  write_runs lba count buf a b c u d d' d'' data_phys rounded some_sectors enough known room issued
        flushed =
      let n : (count == 0) ≡ false = ground (arith, some_sectors) in
      let l : ltb (length buf) (count * sector_size) ≡ false = ground (arith, enough) in
      rw (n, l, known, write_sectors, mark)
        (rw (room, write_marked) (ap (λ r. reset (stored r)) issued ∙ ap reset flushed))
    where
      stored : DmaAllocator × D × Result AhciError Unit → DmaAllocator × D × Result AhciError Unit
      stored r = elim r.2 [
        | err e ↦ (r.0, r.1, err e)
        | ok _ ↦ issue_command port index ata_cmd_flush_cache_ext 0 0 0 0 no_data [] r.0 r.1
      ]

      reset : DmaAllocator × D × Result AhciError Unit → DmaAllocator × D × Result AhciError Unit
      reset r = (reset_to a.next_offset r.0, r.1, r.2)
