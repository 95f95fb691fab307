-- ===== src/Storage/Dma.antt =====
-- kernel/src/driver/dma.rs: the pool of memory for transfers. Addresses are offsets into the pool,
-- which lies at a fixed physical and a fixed virtual base. The allocator stands where the source has
-- its global one after `init`.
pub mod Pool
use pickle_os.Base.{
  ℕ, ◌+◌, ◌-◌, ◌*◌, ◌/◌, ◌%◌, ◌^◌, Bool, true, false, Option, none, some, ltb, leb, if◌then◌else◌,
  ◌>>=◌,
}

abbrev pub dma_pool_size : ℕ
dma_pool_size = 8 * 1024 * 1024

pub record DmaAllocator : Type 0 where
  pub next_offset : ℕ
  pub size : ℕ
  pub in_mark : Bool

unfoldable pub new : ℕ → DmaAllocator
new size = record { next_offset = 0; size = size; in_mark = false }

-- Sums of words wrap, as they do in a release build.
abbrev pub u64 : ℕ → ℕ
u64 n = n % 2 ^ 64

-- `(next_offset + align - 1) & !(align - 1)`, for an alignment that is a power of two.
abbrev pub align_up : ℕ → ℕ → ℕ
align_up offset align = u64 (offset + align - 1) / align * align

unfoldable pub allocate : ℕ → ℕ → DmaAllocator → Option (DmaAllocator × ℕ)
allocate size align a =
    let offset = align_up a.next_offset align in
    let end = u64 (offset + size) in
    if ltb a.size end then none else some (record a { next_offset = end }, offset)

abbrev pub page_size : ℕ
page_size = 4096

-- The allocation's offset and its size in whole pages.
unfoldable pub alloc_dma : ℕ → DmaAllocator → Option (DmaAllocator × ℕ × ℕ)
unfolding allocate
alloc_dma size a =
    let rounded = u64 (size + page_size - 1) / page_size * page_size in
    allocate rounded page_size a >>= λ (a', offset). some (a', offset, rounded)

unfoldable pub mark : DmaAllocator → DmaAllocator × ℕ
mark a = (record a { in_mark = true }, a.next_offset)

unfoldable pub reset_to : ℕ → DmaAllocator → DmaAllocator
reset_to mark a = record a {
  in_mark = false;
  next_offset = if leb mark a.next_offset then mark else a.next_offset;
}

abbrev pub stats : DmaAllocator → ℕ × ℕ
stats a = (a.next_offset, a.size)
