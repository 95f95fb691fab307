-- ===== src/Storage/Ahci.antt =====
-- kernel/src/driver/ahci.rs: commands to a disk, and the transfer of sectors through a buffer in the
-- pool. The controller's registers and the disk are hardware, the parameter `Port`. One transfer runs
-- at a time: the tasks that get the processor while a command is polled do not use the disk.
pub mod Pool
pub mod Commands
pub mod Runs
pub mod Contents
use pickle_os.Base.{
  ℕ, suc, zero, ◌+◌, ◌-◌, ◌*◌, ◌/◌, ◌%◌, ◌^◌, Bool, true, false, not, Option, none, some, List, [],
  ◌++◌, ◌==◌, ltb, if◌then◌else◌, length, take, replicate,
}
use pickle_os.Storage.Dma.{DmaAllocator, alloc_dma, mark, reset_to}

pub data AhciError : Type 0 where
  buffer_too_small unknown_port no_dma : AhciError
  port_busy register_failed command_timeout command_failed : AhciError

pub data Result (E A : Type 0) : Type 0 where
  ok : A → Result E A
  err : E → Result E A

-- What the controller finds in memory: the command header, the frame with the command, and the one
-- entry that describes the data buffer.
pub record Command : Type 0 where
  pub flags : ℕ
  pub prdtl : ℕ
  pub table : ℕ
  pub command : ℕ
  pub lba_lo : ℕ
  pub lba_mid : ℕ
  pub lba_hi : ℕ
  pub lba_lo_exp : ℕ
  pub lba_mid_exp : ℕ
  pub lba_hi_exp : ℕ
  pub device : ℕ
  pub count_lo : ℕ
  pub count_hi : ℕ
  pub data_address : ℕ
  pub data_count : ℕ

-- The state of the controllers and disks is `D`. `known` says which ports there are. A register is
-- read with a new state, since time passes; an access that is refused has no result. `issue` rings the
-- doorbell with a command and the bytes in its buffer, and `transferred` is what the last command
-- has put at the start of its buffer.
pub record Port (D : Type 0) : Type 0 where
  pub known : ℕ → D → Bool
  pub read_tfd : ℕ → D → Option (D × ℕ)
  pub read_ci : ℕ → D → Option (D × ℕ)
  pub issue : ℕ → Command → List ℕ → D → Option D
  pub transferred : ℕ → D → List ℕ

abbrev pub sector_size : ℕ
sector_size = 512

abbrev pub ata_cmd_identify : ℕ
ata_cmd_identify = 0xec

abbrev pub ata_cmd_read_dma_ext : ℕ
ata_cmd_read_dma_ext = 0x25

abbrev pub ata_cmd_write_dma_ext : ℕ
ata_cmd_write_dma_ext = 0x35

abbrev pub ata_cmd_flush_cache_ext : ℕ
ata_cmd_flush_cache_ext = 0xea

pub data Direction : Type 0 where
  no_data to_host to_device : Direction

abbrev pub bit : ℕ → ℕ → Bool
bit n word = word / 2 ^ n % 2 == 1

-- `TFD_BSY` is bit 7, `TFD_DRQ` bit 3 and `TFD_ERR` bit 0.
abbrev pub is_idle : ℕ → Bool
is_idle tfd = if bit 7 tfd then false else not (bit 3 tfd)

abbrev pub has_error : ℕ → Bool
has_error tfd = bit 0 tfd

-- 5 words of frame, and the bit for a write.
abbrev pub header_flags : Direction → ℕ
header_flags no_data = 5
header_flags to_host = 5
header_flags to_device = 5 + 2 ^ 6

-- `(byte_count - 1) | 1`
abbrev pub last_byte : ℕ → ℕ
last_byte byte_count = (byte_count - 1) / 2 * 2 + 1

-- Steps 3 to 5 of `issue_command`.
unfoldable pub build_command : ℕ → ℕ → ℕ → ℕ → ℕ → ℕ → Direction → Command
build_command command lba sector_count table data_phys byte_count dir = record {
  flags = header_flags dir;
  prdtl = if byte_count == 0 then 0 else 1;
  table = table;
  command = command;
  lba_lo = lba % 2 ^ 8;
  lba_mid = lba / 2 ^ 8 % 2 ^ 8;
  lba_hi = lba / 2 ^ 16 % 2 ^ 8;
  lba_lo_exp = lba / 2 ^ 24 % 2 ^ 8;
  lba_mid_exp = lba / 2 ^ 32 % 2 ^ 8;
  lba_hi_exp = lba / 2 ^ 40 % 2 ^ 8;
  device = if command == ata_cmd_identify then 0 else 2 ^ 6;
  count_lo = sector_count % 2 ^ 8;
  count_hi = sector_count / 2 ^ 8 % 2 ^ 8;
  data_address = if byte_count == 0 then 0 else data_phys;
  data_count = if byte_count == 0 then 0 else last_byte byte_count;
}

-- A buffer of zeros with the bytes of a transfer at its start.
abbrev pub received : ℕ → List ℕ → List ℕ
received size bytes = take size (bytes ++ replicate (size - length bytes) 0)

module _ {D : Type 0} (port : Port D) where
  unfoldable pub wait_not_busy : ℕ → ℕ → D → D × Bool
  wait_not_busy zero index d = (d, false)
  wait_not_busy (suc tries) index d = elim (port.read_tfd index d) [
    | none ↦ (d, false)
    | some (d', tfd) ↦ elim (is_idle tfd) [
      | true ↦ (d', true)
      | false ↦ wait_not_busy tries index d'
    ]
  ]

  -- The poll for completion. `none` is a refused access; else, whether the command retired.
  unfoldable pub poll_completion : ℕ → ℕ → D → D × Option Bool
  poll_completion zero index d = (d, some false)
  poll_completion (suc tries) index d = elim (port.read_ci index d) [
    | none ↦ (d, none)
    | some (d', ci) ↦ elim (bit 0 ci) [
      | false ↦ (d', some true)
      | true ↦ elim (port.read_tfd index d') [
        | none ↦ (d', none)
        | some (d'', tfd) ↦ elim (has_error tfd) [
          | true ↦ (d'', some false)
          | false ↦ poll_completion tries index d''
        ]
      ]
    ]
  ]

  -- Steps 7 and 8: the poll and the last look at the error bit.
  unfoldable pub finish : ℕ → D → D × Result AhciError Unit
  unfolding poll_completion
  finish index d =
      let polled : D × Option Bool = poll_completion 2000 index d in
      elim polled.1 [
        | none ↦ (polled.0, err register_failed)
        | some completed ↦
            if not completed
            then (polled.0, err command_timeout)
            else elim (port.read_tfd index polled.0) [
              | none ↦ (polled.0, err register_failed)
              | some (d', tfd) ↦ if has_error tfd then (d', err command_failed) else (d', ok tt)
            ]
      ]

  -- Steps 2 to 8, on a port that is not busy. `buffer` is what the caller has put at `data_phys`.
  unfoldable pub submit_command :
      ℕ
      → ℕ
      → ℕ
      → ℕ
      → ℕ
      → ℕ
      → Direction
      → List ℕ
      → DmaAllocator
      → D
      → DmaAllocator × D × Result AhciError Unit
  unfolding build_command finish
  submit_command index command lba sector_count data_phys byte_count dir buffer a d =
      elim (alloc_dma 256 a) [
        | none ↦ (a, d, err no_dma)
        | some (b, table, _) ↦
            elim (port.issue index
              (build_command command lba sector_count table data_phys byte_count dir) buffer d) [
                | none ↦ (b, d, err register_failed)
                | some d' ↦
                    let ended : D × Result AhciError Unit = finish index d' in (b, ended.0, ended.1)
              ]
      ]

  unfoldable pub issue_command :
      ℕ
      → ℕ
      → ℕ
      → ℕ
      → ℕ
      → ℕ
      → Direction
      → List ℕ
      → DmaAllocator
      → D
      → DmaAllocator × D × Result AhciError Unit
  unfolding wait_not_busy submit_command
  issue_command index command lba sector_count data_phys byte_count dir buffer a d =
      let waited : D × Bool = wait_not_busy 1000 index d in
      if not waited.1
      then (a, waited.0, err port_busy)
      else submit_command index command lba sector_count data_phys byte_count dir buffer a waited.0

  -- The part of `read_sectors` between the mark and the reset.
  unfoldable pub read_marked :
      ℕ → ℕ → ℕ → DmaAllocator → D → DmaAllocator × D × Result AhciError (List ℕ)
  unfolding issue_command
  read_marked index lba count a d =
      let size = count * sector_size in
      elim (alloc_dma size a) [
        | none ↦ (a, d, err no_dma)
        | some (b, data_phys, _) ↦
            let r : DmaAllocator × D × Result AhciError Unit =
              issue_command index ata_cmd_read_dma_ext lba count data_phys size to_host
                (replicate size 0) b d in
            elim r.2 [
              | err e ↦ (r.0, r.1, err e)
              | ok _ ↦ (r.0, r.1, ok (received size (port.transferred index r.1)))
            ]
      ]

  -- `len` is the buffer's length.
  unfoldable pub read_sectors :
      ℕ → ℕ → ℕ → ℕ → DmaAllocator → D → DmaAllocator × D × Result AhciError (List ℕ)
  unfolding read_marked
  read_sectors index lba count len a d =
      if count == 0
      then (a, d, ok [])
      else if ltb len (count * sector_size)
      then (a, d, err buffer_too_small)
      else if not (port.known index d)
      then (a, d, err unknown_port)
      else (let (b, start) = mark a in
          let r : DmaAllocator × D × Result AhciError (List ℕ) = read_marked index lba count b d in
          (reset_to start r.0, r.1, r.2))

  unfoldable pub write_marked :
      ℕ → ℕ → ℕ → List ℕ → DmaAllocator → D → DmaAllocator × D × Result AhciError Unit
  unfolding issue_command
  write_marked index lba count bytes a d =
      let size = count * sector_size in
      elim (alloc_dma size a) [
        | none ↦ (a, d, err no_dma)
        | some (b, data_phys, _) ↦
            let r : DmaAllocator × D × Result AhciError Unit =
              issue_command index ata_cmd_write_dma_ext lba count data_phys size to_device bytes b
                d in
            elim r.2 [
              | err e ↦ (r.0, r.1, err e)
              | ok _ ↦ issue_command index ata_cmd_flush_cache_ext 0 0 0 0 no_data [] r.0 r.1
            ]
      ]

  unfoldable pub write_sectors :
      ℕ → ℕ → ℕ → List ℕ → DmaAllocator → D → DmaAllocator × D × Result AhciError Unit
  unfolding write_marked
  write_sectors index lba count buf a d =
      if count == 0
      then (a, d, ok tt)
      else if ltb (length buf) (count * sector_size)
      then (a, d, err buffer_too_small)
      else if not (port.known index d)
      then (a, d, err unknown_port)
      else (let (b, start) = mark a in
          let r : DmaAllocator × D × Result AhciError Unit =
            write_marked index lba count (take (count * sector_size) buf) b d in
          (reset_to start r.0, r.1, r.2))
