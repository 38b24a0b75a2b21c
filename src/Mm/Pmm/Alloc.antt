-- ===== src/Mm/Pmm/Alloc.antt =====
-- kernel/src/mm/pmm/bitmap.rs: `alloc`.
use slipper_kernel.Prelude.{
  ℕ, zero, suc, ◌+◌, ◌*◌, ◌<◌, ◌≡◌, refl, subst, arith, true, false, ◌&&◌, ltb, leb, ◌==◌,
  if◌then◌else◌, Bool-cases, inl, inr,
}
use slipper_kernel.Core.Errno.{KResult, ok, err, no_mem}
use slipper_kernel.Mm.Pmm.{
  Pmm, page_used, page_size, bm_get, bm_set, idx_to_pa, zero_page, alloc, alloc_from,
}
use slipper_kernel.Mm.Pmm.Bitmap.{IsPmm, page_used-bm_set, bm_set-IsPmm}

-- page `i`, with address `pa`, was the first free page of `p` and is the one page newly used in `p'`
unfoldable pub IsTaken : ℕ → ℕ → Pmm → Pmm → Type 0
IsTaken i pa p p' =
    (i < p.total_pages)
    × (pa ≡ p.base + i * page_size)
    × (page_used p.bitmap i ≡ false)
    × ((j : ℕ) → j < i → page_used p.bitmap j ≡ true)
    × ((j : ℕ) → page_used p'.bitmap j ≡ (if i == j then true else page_used p.bitmap j))
    × (p.free_pages ≡ suc p'.free_pages)
    × (p'.base ≡ p.base)
    × (p'.total_pages ≡ p.total_pages)

-- The page is all zero, and no byte outside of it changed.
unfoldable pub IsZeroed : ℕ → Pmm → Pmm → Type 0
IsZeroed pa p p' =
    (a : ℕ) → p'.memory a ≡ (if leb pa a && ltb a (pa + page_size) then 0 else p.memory a)

-- the outcomes that `alloc` may have
unfoldable pub AllocOutcome : Pmm → KResult ℕ × Pmm → Type 0
AllocOutcome p (ok pa, p') = ((i : ℕ) × IsTaken i pa p p') × IsZeroed pa p p' × IsPmm p'
AllocOutcome p (err e, p') =
    (e ≡ no_mem) × (p' ≡ p) × ((j : ℕ) → j < p.total_pages → page_used p.bitmap j ≡ true)

alloc_from_lem :
    (left i : ℕ) (p : Pmm)
    → IsPmm p
    → left + i ≡ p.total_pages
    → ((j : ℕ) → j < i → page_used p.bitmap j ≡ true)
    → AllocOutcome p (alloc_from left i p)
unfolding alloc_from AllocOutcome bm_get IsPmm IsTaken IsZeroed zero_page bm_set idx_to_pa
alloc_from_lem zero i p h e below = (refl, refl, λ j hj. below j (omega arith))
alloc_from_lem (suc left) i p h e below =
    let (size, count, top) = h in
    elim (Bool-cases (page_used p.bitmap i)) [
      | inl taken ↦
          rw taken
            (alloc_from_lem left (i + 1) p h (omega arith) (λ j hj. extend i j p below taken hj))
      | inr clear ↦
          let inside : i < p.total_pages = omega arith in
          let (ok_after, fewer) = bm_set-IsPmm i p h inside clear in
          rw clear (
            (
              i,
              (
                inside,
                omega arith,
                clear,
                below,
                (λ j. page_used-bm_set i j p (omega arith)),
                fewer,
                refl,
                refl,
              ),
            ),
            (λ a. refl),
            ok_after,
          )
    ]
  where
    extend :
        (i j : ℕ) (p : Pmm)
        → ((j : ℕ) → j < i → page_used p.bitmap j ≡ true)
        → page_used p.bitmap i ≡ true
        → j < i + 1
        → page_used p.bitmap j ≡ true
    extend i j p below taken hj = elim (Bool-cases (i == j)) [
      | inl e ↦
          let same : i ≡ j = ground arith in subst (λ m. page_used p.bitmap m ≡ true) same taken
      | inr e ↦ below j (ground arith)
    ]

-- In a well-formed allocator, `alloc` takes the first free page, marks that page and no other,
-- clears its memory and no other, counts one free page fewer and returns its address, and the
-- allocator stays well formed; it fails, with `NoMem` and no change, only when no page is free.
pub alloc_lem : (p : Pmm) → IsPmm p → AllocOutcome p (alloc p)
unfolding alloc
alloc_lem p h = alloc_from_lem p.total_pages 0 p h (omega arith) (λ j hj. absurd (omega arith))
