-- ===== src/Storage/Block.antt =====
-- kernel/src/driver/block.rs: disks as arrays of blocks. The state is the pool's and the disks'. The
-- loops over chunks have a number of rounds as fuel: with none left there is no result.
pub mod Rounds
pub mod Limits
pub mod Contents
use pickle_os.Base.{
  ℕ, suc, zero, ◌+◌, ◌-◌, ◌*◌, ◌/◌, ◌%◌, ◌^◌, Bool, true, false, not, ◌||◌, Option, none, some,
  List, [], ◌∷◌, ◌++◌, ◌==◌, ltb, leb, if◌then◌else◌, length, take, drop, replicate, get_elem?, min,
  ◌>>=◌,
}
use pickle_os.Base.Maps.{Key, bytes_key}
use pickle_os.Storage.Dma.{DmaAllocator}
use pickle_os.Storage.Ahci.{AhciError, Result, ok, err, Port, read_sectors, write_sectors}

pub data BlockError : Type 0 where
  out_of_range bad_buffer unsupported : BlockError
  device_error : AhciError → BlockError

pub record AhciBlockDevice : Type 0 where
  pub name : List ℕ
  pub port : ℕ
  pub block_size : ℕ
  pub block_count : ℕ

-- `lba.checked_add(count)` has no result beyond 64 bits.
unfoldable pub validate : AhciBlockDevice → ℕ → ℕ → ℕ → Result BlockError Unit
validate dev lba count buf_len =
    if count == 0
    then err bad_buffer
    else if not (buf_len == count * dev.block_size)
    then err bad_buffer
    else if leb (2 ^ 64) (lba + count)
    then err out_of_range
    else if ltb dev.block_count (lba + count)
    then err out_of_range
    else ok tt

abbrev pub chunk_size : ℕ → ℕ → ℕ
chunk_size count done = min (count - done) 65535

-- `buf[off..]` overwritten by `bytes`.
abbrev pub splice : ℕ → List ℕ → List ℕ → List ℕ
splice off bytes buf = take off buf ++ bytes ++ drop (off + length bytes) buf

module _ {D : Type 0} (port : Port D) where
  abbrev pub State : Type 0
  State = DmaAllocator × D

  unfoldable pub read_rounds :
      ℕ → AhciBlockDevice → ℕ → ℕ → ℕ → List ℕ → State → State × Option (Result BlockError (List ℕ))
  read_rounds zero dev lba count done buf s = (s, if ltb done count then none else some (ok buf))
  read_rounds (suc n) dev lba count done buf s =
      let chunk = chunk_size count done in
      let off = done * dev.block_size in
      let len = chunk * dev.block_size in
      if not (ltb done count)
      then (s, some (ok buf))
      else if ltb (length buf) (off + len)
      then (s, some (err bad_buffer))
      else (let r : DmaAllocator × D × Result AhciError (List ℕ) =
            read_sectors port dev.port (lba + done) chunk len s.0 s.1 in
          elim r.2 [
            | err e ↦ ((r.0, r.1), some (err (device_error e)))
            | ok bytes ↦
                read_rounds n dev lba count (done + chunk) (splice off bytes buf) (r.0, r.1)
          ])

  -- One round per block is more than there are chunks.
  unfoldable pub read_blocks :
      AhciBlockDevice → ℕ → ℕ → List ℕ → State → State × Option (Result BlockError (List ℕ))
  unfolding read_rounds
  read_blocks dev lba count buf s = elim (validate dev lba count (length buf)) [
    | err e ↦ (s, some (err e))
    | ok _ ↦ read_rounds count dev lba count 0 buf s
  ]

  unfoldable pub write_rounds :
      ℕ → AhciBlockDevice → ℕ → ℕ → ℕ → List ℕ → State → State × Option (Result BlockError Unit)
  write_rounds zero dev lba count done buf s = (s, if ltb done count then none else some (ok tt))
  write_rounds (suc n) dev lba count done buf s =
      let chunk = chunk_size count done in
      let off = done * dev.block_size in
      let len = chunk * dev.block_size in
      if not (ltb done count)
      then (s, some (ok tt))
      else if ltb (length buf) (off + len)
      then (s, some (err bad_buffer))
      else (let r : DmaAllocator × D × Result AhciError Unit =
            write_sectors port dev.port (lba + done) chunk (take len (drop off buf)) s.0 s.1 in
          elim r.2 [
            | err e ↦ ((r.0, r.1), some (err (device_error e)))
            | ok _ ↦ write_rounds n dev lba count (done + chunk) buf (r.0, r.1)
          ])

  unfoldable pub write_blocks :
      AhciBlockDevice → ℕ → ℕ → List ℕ → State → State × Option (Result BlockError Unit)
  unfolding write_rounds
  write_blocks dev lba count buf s = elim (validate dev lba count (length buf)) [
    | err e ↦ (s, some (err e))
    | ok _ ↦ write_rounds count dev lba count 0 buf s
  ]

  -- The registry's calls, by index.
  unfoldable pub read :
      List AhciBlockDevice → ℕ → ℕ → ℕ → State → State × Option (Result BlockError (List ℕ))
  unfolding read_blocks
  read devices idx lba count s = elim (get_elem? devices idx) [
    | none ↦ (s, some (err out_of_range))
    | some dev ↦ read_blocks dev lba count (replicate (count * dev.block_size) 0) s
  ]

  -- `(buf.len() / bs) as u32`
  unfoldable pub write :
      List AhciBlockDevice → ℕ → ℕ → List ℕ → State → State × Option (Result BlockError Unit)
  unfolding write_blocks
  write devices idx lba buf s = elim (get_elem? devices idx) [
    | none ↦ (s, some (err out_of_range))
    | some dev ↦
        if length buf == 0 || not (length buf % dev.block_size == 0)
        then (s, some (err bad_buffer))
        else write_blocks dev lba (length buf / dev.block_size % 2 ^ 32) buf s
  ]

unfoldable pub register : AhciBlockDevice → List AhciBlockDevice → List AhciBlockDevice × ℕ
register dev devices = (devices ++ dev ∷ [], length devices)

abbrev pub device_count : List AhciBlockDevice → ℕ
device_count devices = length devices

unfoldable pub find_by_name : List ℕ → List AhciBlockDevice → Option ℕ
find_by_name name [] = none
find_by_name name (dev ∷ devices) =
    let later = find_by_name name devices >>= λ i. some (suc i) in
    if bytes_key.beq dev.name name then some 0 else later
