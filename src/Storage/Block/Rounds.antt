-- ===== src/Storage/Block/Rounds.antt =====
-- The loops over chunks end (kernel/src/driver/block.rs, `read_blocks` and `write_blocks`).
use pickle_os.Base.{
  ℕ, suc, zero, ◌≡◌, ◌≤◌, ◌<◌, refl, ◌+◌, ◌-◌, ◌*◌, true, false, List, arith, ltb, Bool-cases, inl,
  inr, length, take, drop, is_some, min,
}
use pickle_os.Storage.Dma.{DmaAllocator}
use pickle_os.Storage.Ahci.{AhciError, Result, Port, read_sectors, write_sectors}
use pickle_os.Storage.Ahci.Pool.{is_ok, is_err, Result-cases}
use pickle_os.Storage.Block.{
  AhciBlockDevice, validate, chunk_size, splice, State, read_rounds, read_blocks, write_rounds,
  write_blocks,
}

min_pos : (a b : ℕ) → 0 < a → 0 < b → 0 < min a b
min_pos a b h k = omega arith

module _ {D : Type 0} (port : Port D) where
  read_rounds_end :
      (n : ℕ) (dev : AhciBlockDevice) (lba count done : ℕ) (buf : List ℕ) (s : State port)
      → count ≤ done + n
      → is_some (read_rounds port n dev lba count done buf s).1 ≡ true
  unfolding read_rounds
  read_rounds_end zero dev lba count done buf s h =
      let over : ltb done count ≡ false = ground (arith, h) in rw over refl
  read_rounds_end (suc n) dev lba count done buf s h =
      let chunk : ℕ = chunk_size count done in
      let r : DmaAllocator × D × Result AhciError (List ℕ) =
        read_sectors port dev.port (lba + done) chunk (chunk * dev.block_size) s.0 s.1 in
      elim (Bool-cases (ltb done count)) [
        | inr over ↦ rw over refl
        | inl more ↦
            elim (Bool-cases (ltb (length buf) (done * dev.block_size + chunk * dev.block_size))) [
              | inl short ↦ rw (more, short) refl
              | inr fits ↦ elim (Result-cases r.2) [
                | is_err e q ↦ rw (more, fits, q) refl
                | is_ok bytes q ↦
                    rw (more, fits, q)
                      (read_rounds_end n dev lba count (done + chunk)
                        (splice (done * dev.block_size) bytes buf) (r.0, r.1)
                        (omega (
                          arith,
                          h,
                          min_pos (count - done) 65535 (ground (arith, more)) (omega arith),
                        )))
              ]
            ]
      ]

  write_rounds_end :
      (n : ℕ) (dev : AhciBlockDevice) (lba count done : ℕ) (buf : List ℕ) (s : State port)
      → count ≤ done + n
      → is_some (write_rounds port n dev lba count done buf s).1 ≡ true
  unfolding write_rounds
  write_rounds_end zero dev lba count done buf s h =
      let over : ltb done count ≡ false = ground (arith, h) in rw over refl
  write_rounds_end (suc n) dev lba count done buf s h =
      let chunk : ℕ = chunk_size count done in
      let r : DmaAllocator × D × Result AhciError Unit =
        write_sectors port dev.port (lba + done) chunk
          (take (chunk * dev.block_size) (drop (done * dev.block_size) buf)) s.0 s.1 in
      elim (Bool-cases (ltb done count)) [
        | inr over ↦ rw over refl
        | inl more ↦
            elim (Bool-cases (ltb (length buf) (done * dev.block_size + chunk * dev.block_size))) [
              | inl short ↦ rw (more, short) refl
              | inr fits ↦ elim (Result-cases r.2) [
                | is_err e q ↦ rw (more, fits, q) refl
                | is_ok u q ↦
                    rw (more, fits, q)
                      (write_rounds_end n dev lba count (done + chunk) buf (r.0, r.1)
                        (omega (
                          arith,
                          h,
                          min_pos (count - done) 65535 (ground (arith, more)) (omega arith),
                        )))
              ]
            ]
      ]

  -- Reads and writes of blocks end with a result or an error, on every device and in every state.
  pub blocks_end :
      (dev : AhciBlockDevice) (lba count : ℕ) (buf : List ℕ) (s : State port)
      → (is_some (read_blocks port dev lba count buf s).1 ≡ true)
        × (is_some (write_blocks port dev lba count buf s).1 ≡ true)
  unfolding read_blocks write_blocks
  blocks_end dev lba count buf s = elim (Result-cases (validate dev lba count (length buf))) [
    | is_err e q ↦ (rw (q, is_some, read_blocks) refl, rw (q, is_some, write_blocks) refl)
    | is_ok u q ↦ (
      rw (q, is_some, read_blocks) (read_rounds_end count dev lba count 0 buf s (omega arith)),
      rw (q, is_some, write_blocks) (write_rounds_end count dev lba count 0 buf s (omega arith)),
    )
  ]
