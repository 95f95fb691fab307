-- ===== src/Storage/Ahci/Contents.antt =====
-- Sectors on a disk without faults (kernel/src/driver/ahci.rs).
use mathlib.Core.List.{append-nil}
use pickle_os.Base.{
  ℕ, ◌^◌, replicate, suc, zero, ◌≡◌, ◌≤◌, ◌<◌, refl, sym, ◌∙◌, ap, ◌+◌, ◌-◌, ◌*◌, true, false, ◌&&◌,
  some, List, [], ◌∷◌, ◌++◌, arith, ltb, leb, if◌then◌else◌, length, take, drop, drop-drop,
  length-drop, take-append-drop,
}
use pickle_os.Storage.Dma.{
  DmaAllocator, dma_pool_size, u64, alloc_dma, reset_to, align_up, page_size,
}
use pickle_os.Storage.Dma.Pool.{end_of, alloc_dma-fits, in_pages}
use pickle_os.Storage.Ahci.{
  Command, Direction, no_data, to_host, to_device, ok, Port, sector_size, received,
  ata_cmd_read_dma_ext, ata_cmd_write_dma_ext, ata_cmd_flush_cache_ext, build_command,
  wait_not_busy, finish, issue_command, read_sectors, write_sectors,
}
use pickle_os.Storage.Ahci.Commands.{lba_of, count_of, buffer_size, build_command_lem}
use pickle_os.Storage.Ahci.Pool.{sectors_leak_nothing}
use pickle_os.Storage.Ahci.Runs.{issue_runs, read_runs, write_runs}

-- The bytes of `n` sectors from `lba`.
abbrev pub sectors : (ℕ → List ℕ) → ℕ → ℕ → List ℕ
sectors f lba zero = []
sectors f lba (suc n) = f lba ++ sectors f (lba + 1) n

-- The part of `bytes` for sector `i`.
abbrev pub slice : ℕ → List ℕ → List ℕ
slice i bytes = take sector_size (drop (i * sector_size) bytes)

module _ {D : Type 0} (port : Port D) (index : ℕ) (peek : D → ℕ → List ℕ) where
  -- The command `c` runs from `d` to `d'`: it is issued, retires before the poll gives up, and leaves
  -- no error.
  abbrev pub Runs : Command → List ℕ → D → D → Type 0
  Runs c buffer d d' =
      (e : D) × (port.issue index c buffer d ≡ some e) × (finish port index e ≡ (d', ok tt))

  -- A disk without faults. `peek` is what its sectors hold. It gets ready before the wait gives up, a
  -- command retires before the poll does, and a command whose sectors fit its buffer has its effect:
  -- a read transfers the sectors that it names, a write replaces these and no others, and a flush keeps
  -- all.
  pub record IsFaultless : Type 0 where
    pub known : (d : D) → port.known index d ≡ true
    pub ready :
        (d : D)
        → (d' : D) × (wait_not_busy port 1000 index d ≡ (d', true))
          × ((i : ℕ) → peek d' i ≡ peek d i)
    pub reads :
        (c : Command) (buffer : List ℕ) (d : D)
        → c.command ≡ ata_cmd_read_dma_ext
        → count_of c * sector_size ≤ buffer_size c
        → (d' : D) × Runs c buffer d d'
          × (port.transferred index d' ≡ sectors (peek d) (lba_of c) (count_of c))
          × ((i : ℕ) → peek d' i ≡ peek d i)
    pub writes :
        (c : Command) (buffer : List ℕ) (d : D)
        → c.command ≡ ata_cmd_write_dma_ext
        → count_of c * sector_size ≤ buffer_size c
        → (d' : D) × Runs c buffer d d'
          × ((i : ℕ)
              → peek d' i ≡ (
                  if leb (lba_of c) i && ltb i (lba_of c + count_of c)
                  then slice (i - lba_of c) buffer
                  else peek d i))
    pub flushes :
        (c : Command) (d : D)
        → c.command ≡ ata_cmd_flush_cache_ext
        → (d' : D) × Runs c [] d d' × ((i : ℕ) → peek d' i ≡ peek d i)

pub sectors-cong :
    (f g : ℕ → List ℕ) (lba n : ℕ) → ((i : ℕ) → f i ≡ g i) → sectors f lba n ≡ sectors g lba n
sectors-cong f g lba zero same = refl
sectors-cong f g lba (suc n) same = rw (same lba, sectors-cong f g (lba + 1) n same) refl

-- Consecutive slices are the whole.
pub sectors-slices :
    (f : ℕ → List ℕ) (lba n : ℕ) (bytes : List ℕ)
    → length bytes ≡ n * sector_size
    → ((i : ℕ) → i < n → f (lba + i) ≡ slice i bytes)
    → sectors f lba n ≡ bytes
sectors-slices f lba zero [] h same = refl
sectors-slices f lba zero (b ∷ bytes) h same = absurd (ground (arith, h))
sectors-slices f lba (suc n) bytes h same =
    let first : f lba ≡ take sector_size bytes = ap f (omega arith) ∙ same 0 (omega arith) in
    let more : sectors f (lba + 1) n ≡ drop sector_size bytes =
      sectors-slices f (lba + 1) n (drop sector_size bytes)
        (omega (arith, h, length-drop sector_size bytes))
        (λ i k.
          ap f (omega arith) ∙ same (suc i) (omega (arith, k)) ∙ ap (take sector_size) (shift i)) in
    rw (first, more) (take-append-drop sector_size bytes)
  where
    shift :
        (i : ℕ) → drop (suc i * sector_size) bytes ≡ drop (i * sector_size) (drop sector_size bytes)
    shift i =
        ap (λ (k : ℕ). drop k bytes) (omega arith)
        ∙ sym (drop-drop (i * sector_size) sector_size bytes)

pub take_all : (n : ℕ) (l : List ℕ) → length l ≤ n → take n l ≡ l
take_all zero [] h = refl
take_all zero (x ∷ l) h = absurd (omega arith)
take_all (suc n) [] h = refl
take_all (suc n) (x ∷ l) h = ap (λ m. x ∷ m) (take_all n l (omega arith))

end_below :
    (size next limit : ℕ)
    → next + size + 8192 ≤ limit
    → limit ≤ dma_pool_size
    → (u64 (align_up next page_size + in_pages size) ≤ limit)
      × (u64 (align_up next page_size + in_pages size) ≤ next + size + 8192)
end_below size next limit h small = (omega arith, omega arith)

alloc_dma-room :
    (size : ℕ) (a : DmaAllocator)
    → a.next_offset + size + 8192 ≤ a.size
    → a.size ≤ dma_pool_size
    → (b : DmaAllocator) × (offset : ℕ) × (rounded : ℕ) × (alloc_dma size a
        ≡ some (b, offset, rounded))
      × (b.next_offset ≤ a.next_offset + size + 8192)
      × (b.size ≡ a.size)
alloc_dma-room size a h small = (
  record a { next_offset = end_of size a },
  align_up a.next_offset page_size,
  in_pages size,
  alloc_dma-fits size a (fit (end_of size a) (below.0)),
  below.1,
  refl,
)
  where
    below : (end_of size a ≤ a.size) × (end_of size a ≤ a.next_offset + size + 8192)
    below = end_below size a.next_offset a.size h small

    fit : (n : ℕ) → n ≤ a.size → ltb a.size n ≡ false
    fit n k = ground (arith, k)

-- Free space for a transfer's buffer and its command tables, in a pool that is no larger than the
-- kernel's.
abbrev pub HasRoom : ℕ → DmaAllocator → Type 0
HasRoom count a = (a.next_offset + count * sector_size + 25088 ≤ a.size) × (a.size ≤ dma_pool_size)

take-append_nil : (n : ℕ) (l : List ℕ) → length l ≡ n → received n l ≡ l
take-append_nil n l h =
    let none_left : n - length l ≡ 0 = omega (arith, h) in
    rw (none_left, append-nil l) (take_all n l (omega (arith, h)))

reset_size : (start : ℕ) (a : DmaAllocator) → (reset_to start a).size ≡ a.size
unfolding reset_to
reset_size start a = refl

same_range :
    (buf : List ℕ) (i from lba n count : ℕ) (before after : List ℕ)
    → from ≡ lba
    → n ≡ count
    → before ≡ after
    → (if leb from i && ltb i (from + n) then slice (i - from) buf else before)
      ≡ (if leb lba i && ltb i (lba + count) then slice (i - lba) buf else after)
same_range buf i from lba n count before after at many same = rw (at, many, same) refl

module _ {D : Type 0} (port : Port D) (index : ℕ) (peek : D → ℕ → List ℕ)
    (disk : IsFaultless port index peek) where
  -- A command in a pool with room for its table.
  issue_ok :
      (command lba count data_phys size : ℕ) (dir : Direction) (buffer : List ℕ) (a : DmaAllocator)
      (d : D)
      → a.next_offset + 8448 ≤ a.size
      → a.size ≤ dma_pool_size
      → (b : DmaAllocator) × (table : ℕ) × (e : D) × ((i : ℕ) → peek e i ≡ peek d i)
        × (b.next_offset ≤ a.next_offset + 8448)
        × (b.size ≡ a.size)
        × ((d' : D)
            → Runs port index peek
                (build_command command lba count table data_phys size dir)
                buffer
                e
                d'
            → issue_command port index command lba count data_phys size dir buffer a d
              ≡ (b, d', ok tt))
  issue_ok command lba count data_phys size dir buffer a d room small =
      let r = alloc_dma-room 256 a (omega (arith, room)) small in
      let w = disk.ready d in
      (
        r.0,
        r.1,
        w.0,
        w.2,
        omega (arith, r.4),
        r.5,
        λ d' runs.
            issue_runs port index command lba count data_phys size dir buffer a r.0 d w.0 runs.0 d'
              r.1 r.2 w.1 r.3 runs.1 runs.2,
      )

  pub read_sectors_ok :
      (lba count len : ℕ) (a : DmaAllocator) (d : D)
      → 0 < count
      → count ≤ 8192
      → lba < 2 ^ 48
      → count * sector_size ≤ len
      → length (sectors (peek d) lba count) ≡ count * sector_size
      → HasRoom count a
      → (b : DmaAllocator) × (d' : D) × (read_sectors port index lba count len a d
          ≡ (b, d', ok (sectors (peek d) lba count)))
        × ((i : ℕ) → peek d' i ≡ peek d i)
  read_sectors_ok lba count len a d some_sectors narrow wide enough full (room, small) =
      let size : ℕ = count * sector_size in
      let r = alloc_dma-room size (record a { in_mark = true }) (omega (arith, room)) small in
      let zeros : List ℕ = replicate size 0 in
      let t =
        issue_ok ata_cmd_read_dma_ext lba count r.1 size to_host zeros r.0 d
          (omega (arith, room, r.4, r.5)) (omega (arith, small, r.5)) in
      let cmd : Command = build_command ata_cmd_read_dma_ext lba count t.1 r.1 size to_host in
      let says =
        build_command_lem ata_cmd_read_dma_ext lba count t.1 r.1 to_host some_sectors narrow wide in
      let run = disk.reads cmd zeros t.2 says.0 (omega (arith, says.2, says.3)) in
      let same : sectors (peek t.2) (lba_of cmd) (count_of cmd) ≡ sectors (peek d) lba count =
        rw (says.1, says.2) (sectors-cong (peek t.2) (peek d) lba count t.3) in
      let got : received size (port.transferred index run.0) ≡ sectors (peek d) lba count =
        rw (run.2, same) (take-append_nil size (sectors (peek d) lba count) full) in
      let issued = t.6 run.0 run.1 in
      (
        reset_to a.next_offset t.0,
        run.0,
        read_runs port index lba count len a r.0 t.0 d run.0 r.1 r.2 some_sectors enough
              (disk.known d) r.3 issued
            ∙ ap (λ x. (reset_to a.next_offset t.0, run.0, ok x)) got,
        λ i. run.3 i ∙ t.3 i,
      )

  pub write_sectors_ok :
      (lba count : ℕ) (buf : List ℕ) (a : DmaAllocator) (d : D)
      → 0 < count
      → count ≤ 8192
      → lba < 2 ^ 48
      → length buf ≡ count * sector_size
      → HasRoom count a
      → (b : DmaAllocator) × (d' : D) × (write_sectors port index lba count buf a d
          ≡ (b, d', ok tt))
        × (b.next_offset ≡ a.next_offset)
        × (b.size ≡ a.size)
        × ((i : ℕ)
            → peek d' i
              ≡ (if leb lba i && ltb i (lba + count) then slice (i - lba) buf else peek d i))
  unfolding build_command
  write_sectors_ok lba count buf a d some_sectors narrow wide whole (room, small) =
      let size : ℕ = count * sector_size in
      let all : take size buf ≡ buf = take_all size buf (omega (arith, whole)) in
      let r = alloc_dma-room size (record a { in_mark = true }) (omega (arith, room)) small in
      let t =
        issue_ok ata_cmd_write_dma_ext lba count r.1 size to_device buf r.0 d
          (omega (arith, room, r.4, r.5)) (omega (arith, small, r.5)) in
      let cmd : Command = build_command ata_cmd_write_dma_ext lba count t.1 r.1 size to_device in
      let says =
        build_command_lem ata_cmd_write_dma_ext lba count t.1 r.1 to_device some_sectors narrow
          wide in
      let run = disk.writes cmd buf t.2 says.0 (omega (arith, says.2, says.3)) in
      let u =
        issue_ok ata_cmd_flush_cache_ext 0 0 0 0 no_data [] t.0 run.0
          (omega (arith, room, r.4, r.5, t.4, t.5)) (omega (arith, small, r.5, t.5)) in
      let flush =
        disk.flushes (build_command ata_cmd_flush_cache_ext 0 0 u.1 0 0 no_data) u.2 refl in
      let first = t.6 run.0 run.1 in
      let second = u.6 flush.0 flush.1 in
      let run_all : write_sectors port index lba count buf a d
          ≡ (reset_to a.next_offset u.0, flush.0, ok tt) =
        write_runs port index lba count buf a r.0 t.0 u.0 d run.0 flush.0 r.1 r.2 some_sectors
          (omega (arith, whole)) (disk.known d) r.3 (rw all first) second in
      (
        reset_to a.next_offset u.0,
        flush.0,
        run_all,
        ap (λ x. x.0.next_offset) (sym run_all)
            ∙ (sectors_leak_nothing port index lba count 0 buf a d (omega (arith, room), small)
                (omega (arith, narrow))).1,
        reset_size a.next_offset u.0 ∙ u.5 ∙ t.5 ∙ r.5,
        λ i.
            flush.2 i
            ∙ u.3 i
            ∙ run.2 i
            ∙ same_range buf i (lba_of cmd) lba (count_of cmd) count (peek t.2 i) (peek d i) says.1
                says.2 (t.3 i),
      )
