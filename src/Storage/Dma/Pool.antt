-- ===== src/Storage/Dma/Pool.antt =====
-- Allocations lie in the pool, on pages, one after the other (kernel/src/driver/dma.rs).
use pickle_os.Base.{
  ℕ, ◌≡◌, ◌≤◌, refl, sym, ap, subst, ◌∙◌, ◌^◌, ◌+◌, ◌-◌, ◌*◌, ◌/◌, ◌%◌, none, some, arith, true,
  false, ltb, Bool-cases, inl, inr,
}
use pickle_os.Storage.Dma.{
  DmaAllocator, dma_pool_size, u64, alloc_dma, allocate, align_up, page_size, mark, reset_to,
}

abbrev pub in_pages : ℕ → ℕ
in_pages size = u64 (size + page_size - 1) / page_size * page_size

-- Where an allocation would end.
abbrev pub end_of : ℕ → DmaAllocator → ℕ
end_of size a = u64 (align_up a.next_offset page_size + in_pages size)

-- The allocator of a pool that is no larger than the kernel's, with the next offset inside it.
abbrev pub IsPool : DmaAllocator → Type 0
IsPool a = (a.next_offset ≤ a.size) × (a.size ≤ dma_pool_size)

pub alloc_dma-fits :
    (size : ℕ) (a : DmaAllocator)
    → ltb a.size (end_of size a) ≡ false
    → alloc_dma size a
      ≡ some (
        record a { next_offset = end_of size a },
        align_up a.next_offset page_size,
        in_pages size,
      )
unfolding alloc_dma allocate
alloc_dma-fits size a h = rw (h, alloc_dma, allocate) refl

alloc_dma-full :
    (size : ℕ) (a : DmaAllocator) → ltb a.size (end_of size a) ≡ true → alloc_dma size a ≡ none
unfolding alloc_dma allocate
alloc_dma-full size a h = rw (h, alloc_dma, allocate) refl

pages_lem :
    (size next limit : ℕ)
    → next ≤ limit
    → limit ≤ dma_pool_size
    → size ≤ 2 ^ 63
    → let offset = align_up next page_size in
      let rounded = in_pages size in
      (offset % page_size ≡ 0)
      × (rounded % page_size ≡ 0)
      × (size ≤ rounded)
      × (next ≤ offset)
      × (u64 (offset + rounded) ≡ offset + rounded)
pages_lem size next limit inside small word =
    (omega arith, omega arith, omega arith, omega arith, omega arith)

-- In a pool of at most 8 MiB whose next offset is inside it, an allocation of at most 2^63 bytes is a
-- whole number of pages on a page boundary, holds what was asked for, starts after all earlier ones and
-- ends in the pool, where the next one may start.
pub alloc_dma_lem :
    (size : ℕ) (a b : DmaAllocator) (offset rounded : ℕ)
    → IsPool a
    → size ≤ 2 ^ 63
    → alloc_dma size a ≡ some (b, offset, rounded)
    → (offset % page_size ≡ 0)
      × (rounded % page_size ≡ 0)
      × (size ≤ rounded)
      × (a.next_offset ≤ offset)
      × (b.next_offset ≡ offset + rounded)
      × (b.next_offset ≤ a.size)
      × (b.size ≡ a.size)
alloc_dma_lem size a b offset rounded (inside, small) word e =
    elim (Bool-cases (ltb a.size (end_of size a))) [
      | inl full ↦ absurd (ground (arith, e, alloc_dma-full size a full))
      | inr fits ↦
          let f = alloc_dma-fits size a fits in
          let p = pages_lem size a.next_offset a.size inside small word in
          let o : align_up a.next_offset page_size ≡ offset = ground (arith, e, f) in
          let r : in_pages size ≡ rounded = ground (arith, e, f) in
          let n : end_of size a ≡ b.next_offset = ground (arith, e, f) in
          let s : a.size ≡ b.size = ground (arith, e, f) in
          let below : end_of size a ≤ a.size = ground (arith, fits) in
          (
            ap (λ x. x % page_size) (sym o) ∙ p.0,
            ap (λ x. x % page_size) (sym r) ∙ p.1,
            subst (λ x. size ≤ x) r p.2,
            subst (λ x. a.next_offset ≤ x) o p.3,
            sym n ∙ p.4 ∙ ap (λ x. x + in_pages size) o ∙ ap (λ x. offset + x) r,
            subst (λ x. x ≤ a.size) n below,
            sym s,
          )
    ]

-- A transfer gives back what it allocated after its mark.
pub reset_to-mark :
    (a b : DmaAllocator)
    → a.next_offset ≤ b.next_offset
    → (reset_to (mark a).1 b).next_offset ≡ a.next_offset
unfolding mark reset_to
reset_to-mark a b h = ground (arith, h)
