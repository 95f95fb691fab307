-- ===== src/Storage/Ahci/Commands.antt =====
-- What a command says to the controller (kernel/src/driver/ahci.rs, `issue_command`).
use pickle_os.Base.{ℕ, ◌+◌, ◌*◌, ◌/◌, ◌%◌, ◌^◌, ◌≤◌, ◌<◌, ◌≡◌, refl, arith, ◌==◌, false}
use pickle_os.Storage.Ahci.{Command, Direction, build_command, sector_size}

-- As the disk reads a command: the first sector, the number of sectors, and the size of the buffer,
-- which is a field of 22 bits that holds the last byte's number.
abbrev pub lba_of : Command → ℕ
lba_of c =
    c.lba_lo
    + 2 ^ 8 * c.lba_mid
    + 2 ^ 16 * c.lba_hi
    + 2 ^ 24 * c.lba_lo_exp
    + 2 ^ 32 * c.lba_mid_exp
    + 2 ^ 40 * c.lba_hi_exp

abbrev pub count_of : Command → ℕ
count_of c = c.count_lo + 2 ^ 8 * c.count_hi

abbrev pub buffer_size : Command → ℕ
buffer_size c = c.data_count % 2 ^ 22 + 1

lba_bytes :
    (lba : ℕ)
    → lba < 2 ^ 48
    → lba % 2 ^ 8
        + 2 ^ 8 * (lba / 2 ^ 8 % 2 ^ 8)
        + 2 ^ 16 * (lba / 2 ^ 16 % 2 ^ 8)
        + 2 ^ 24 * (lba / 2 ^ 24 % 2 ^ 8)
        + 2 ^ 32 * (lba / 2 ^ 32 % 2 ^ 8)
        + 2 ^ 40 * (lba / 2 ^ 40 % 2 ^ 8)
      ≡ lba
lba_bytes lba h = omega arith

-- The command for 1 to 8192 sectors, all numbered below 2^48 from the first one on, has the code that
-- was given; read as the disk reads it, it names the first sector and the number of sectors, and a
-- buffer of exactly their size.
pub build_command_lem :
    (command lba count table data_phys : ℕ) (dir : Direction)
    → 0 < count
    → count ≤ 8192
    → lba < 2 ^ 48
    → let c = build_command command lba count table data_phys (count * sector_size) dir in
      (c.command ≡ command)
      × (lba_of c ≡ lba)
      × (count_of c ≡ count)
      × (buffer_size c ≡ count * sector_size)
unfolding build_command
build_command_lem command lba count table data_phys dir some_sectors fits wide =
    let full : (count * sector_size == 0) ≡ false = ground (arith, some_sectors) in
    (refl, lba_bytes lba wide, omega (arith, fits), rw full (omega (arith, some_sectors, fits)))
