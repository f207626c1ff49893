-- ===== src/Heap/Kernel/Place.antt =====
-- `kmalloc_int` of kernel/heap.c before the kernel has a heap.
use exscape_os.Prelude.{
  ℕ, ◌+◌, ◌%◌, ◌^◌, ◌<◌, ◌≤◌, ◌≡◌, inl, inr, ◌⊎◌, refl, Bool, true, false, ◌||◌, not, none, some,
  arith, ◌==◌, Bool-cases,
}
use exscape_os.Heap.{u32, page_aligned}
use exscape_os.Heap.Kernel.{kmalloc_int, placed_at}

-- what the alignment does to an address that is not near the end of memory
placed_at_lem :
    (align : Bool) (a : ℕ)
    → a + 4096 < 2 ^ 32
    → (a ≤ placed_at align a)
      × (placed_at align a < a + 4096)
      × (placed_at align a % 4 ≡ 0)
      × ((align ≡ false) ⊎ (placed_at align a % 4096 ≡ 0))
unfolding placed_at
placed_at_lem true a lt = elim (Bool-cases (page_aligned a)) [
  | inl t ↦
      let four : (a % 4 == 0) ≡ true = ground arith in
      rw (t, four) (omega arith, omega arith, ground arith, inr (ground arith))
  | inr f ↦ rw f (ground arith, ground arith, ground arith, inr (ground arith))
]
placed_at_lem false a lt = elim (Bool-cases (a % 4 == 0)) [
  | inl t ↦ rw t (omega arith, omega arith, ground arith, inl refl)
  | inr f ↦ rw f (ground arith, ground arith, ground arith, inl refl)
]

early_steps :
    (fuel size : ℕ) (align : Bool) (a : ℕ)
    → (placed_at align a % 4 == 0) ≡ true
    → (not align || page_aligned (placed_at align a)) ≡ true
    → kmalloc_int fuel size align (record { kheap = none; placement_address = a })
      ≡ some (
        placed_at align a,
        record { kheap = none; placement_address = u32 (placed_at align a + size) },
      )
unfolding kmalloc_int
early_steps fuel size align a four page = rw (four, page) refl

-- Without a heap, an allocation that does not run over the end of memory is at the placement address
-- or less than a page behind it, aligned to 4 bytes or, if that is asked for, to a page, and the
-- next one begins behind it.
pub kmalloc_int-early :
    (fuel size : ℕ) (align : Bool) (a : ℕ)
    → a + 4096 + size < 2 ^ 32
    → (p : ℕ) × (kmalloc_int fuel size align (record { kheap = none; placement_address = a })
        ≡ some (p, record { kheap = none; placement_address = p + size }))
      × (a ≤ p)
      × (p < a + 4096)
      × (p % 4 ≡ 0)
      × ((align ≡ false) ⊎ (p % 4096 ≡ 0))
kmalloc_int-early fuel size align a lt =
    let (ge, near, four, page) = placed_at_lem align a (omega arith) in
    let p = placed_at align a in
    let sum : u32 (p + size) ≡ p + size = omega arith in
    (
      p,
      rw sum at (early_steps fuel size align a (ground (arith, four)) (aligned page)),
      ge,
      near,
      four,
      page,
    )
  where
    aligned :
        ((align ≡ false) ⊎ (placed_at align a % 4096 ≡ 0))
        → (not align || page_aligned (placed_at align a)) ≡ true
    aligned (inl e) = rw e refl
    aligned (inr e) = ground (arith, e)
