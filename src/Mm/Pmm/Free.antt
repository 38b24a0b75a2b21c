-- ===== src/Mm/Pmm/Free.antt =====
-- kernel/src/mm/pmm/bitmap.rs: `free`.
use slipper_kernel.Prelude.{
  ℕ, ◌+◌, ◌*◌, ◌/◌, ◌^◌, ◌<◌, ◌≡◌, refl, ap, subst, sym, ◌∙◌, arith, length, true, false, ltb, ◌==◌,
  if◌then◌else◌, Bool-cases, inl, inr,
}
use slipper_kernel.Core.Errno.{ok}
use slipper_kernel.Mm.Pmm.{Pmm, page_used, page_size, bm_get, bm_clr, pa_to_idx, alloc, free}
use slipper_kernel.Mm.Pmm.Bitmap.{IsPmm, page_used-bm_clr, bm_clr-IsPmm}
use slipper_kernel.Mm.Pmm.Alloc.{AllocOutcome, IsTaken, alloc_lem}

-- Giving back an address keeps the allocator well formed, whatever the address.
pub free-IsPmm : (pa : ℕ) (p : Pmm) → IsPmm p → IsPmm (free pa p)
unfolding free bm_get
free-IsPmm pa p h = elim (Bool-cases (ltb (pa_to_idx pa p) p.total_pages)) [
  | inl inside ↦ elim (Bool-cases (page_used p.bitmap (pa_to_idx pa p))) [
    | inl taken ↦
        let hi : pa_to_idx pa p < p.total_pages = ground arith in
        let (fine, more) = bm_clr-IsPmm (pa_to_idx pa p) p h hi taken in rw (inside, taken) fine
    | inr clear ↦ rw (inside, clear) h
  ]
  | inr outside ↦ rw outside h
]

free_taken :
    (pa : ℕ) (p : Pmm)
    → pa_to_idx pa p < p.total_pages
    → page_used p.bitmap (pa_to_idx pa p) ≡ true
    → free pa p ≡ bm_clr (pa_to_idx pa p) p
unfolding free bm_get
free_taken pa p hi taken =
    let inside : ltb (pa_to_idx pa p) p.total_pages ≡ true = ground arith in rw (inside, taken)

free_clear : (pa : ℕ) (p : Pmm) → page_used p.bitmap (pa_to_idx pa p) ≡ false → free pa p ≡ p
unfolding free bm_get
free_clear pa p clear = elim (Bool-cases (ltb (pa_to_idx pa p) p.total_pages)) [
  | inl inside ↦ rw (inside, clear)
  | inr outside ↦ rw outside
]

-- A second `free` of the same address changes nothing.
pub free-free : (pa : ℕ) (p : Pmm) → IsPmm p → free pa (free pa p) ≡ free pa p
unfolding free bm_get IsPmm
free-free pa p (size, count, top) = elim (Bool-cases (ltb (pa_to_idx pa p) p.total_pages)) [
  | inl inside ↦ elim (Bool-cases (page_used p.bitmap (pa_to_idx pa p))) [
    | inl taken ↦
        let idx = pa_to_idx pa p in
        let hi : idx < p.total_pages = ground arith in
        let here : idx / 8 < length p.bitmap = omega arith in
        let same : (idx == idx) ≡ true = ground arith in
        let now : page_used (bm_clr idx p).bitmap idx ≡ false =
          page_used-bm_clr idx idx p here ∙ rw same refl in
        let step = free_taken pa p hi taken in
        ap (free pa) step ∙ free_clear pa (bm_clr idx p) now ∙ sym step
    | inr clear ↦ rw (inside, clear, inside, clear)
  ]
  | inr outside ↦ rw (outside, outside)
]

pub pa_to_idx-idx_to_pa :
    (i : ℕ) (p : Pmm) → p.base + i * page_size < 2 ^ 64 → pa_to_idx (p.base + i * page_size) p ≡ i
unfolding pa_to_idx
pa_to_idx-idx_to_pa i p top = omega arith

free_restores :
    (p p' : Pmm) (pa i : ℕ)
    → IsPmm p
    → IsTaken i pa p p'
    → IsPmm p'
    → ((j : ℕ) → page_used (free pa p').bitmap j ≡ page_used p.bitmap j)
      × ((free pa p').free_pages ≡ p.free_pages)
unfolding IsTaken IsPmm
free_restores p p' pa i (size, count, top)
      (hi, address, clear, below, others, fewer, base_same, total_same) h' =
    let (size', count', top') = h' in
    let back : pa_to_idx pa p' ≡ i =
      ap (λ a. pa_to_idx a p') (address ∙ ap (λ b. b + i * page_size) (sym base_same))
      ∙ pa_to_idx-idx_to_pa i p' (omega arith) in
    let same : (i == i) ≡ true = ground arith in
    let taken : page_used p'.bitmap i ≡ true = others i ∙ rw same refl in
    let step : free pa p' ≡ bm_clr i p' =
      free_taken pa p' (omega arith) (ap (page_used p'.bitmap) back ∙ taken)
      ∙ ap (λ idx. bm_clr idx p') back in
    let (fine, more) = bm_clr-IsPmm i p' h' (omega arith) taken in
    let here : i / 8 < length p'.bitmap = omega arith in
    (
      (λ j.
          ap (λ (q : Pmm). page_used q.bitmap j) step
          ∙ page_used-bm_clr i j p' here
          ∙ unset i j p p' clear (others j)),
      ap (λ (q : Pmm). q.free_pages) step ∙ more ∙ sym fewer,
    )
  where
    unset :
        (i j : ℕ) (p p' : Pmm)
        → page_used p.bitmap i ≡ false
        → page_used p'.bitmap j ≡ (if i == j then true else page_used p.bitmap j)
        → (if i == j then false else page_used p'.bitmap j) ≡ page_used p.bitmap j
    unset i j p p' clear other = elim (Bool-cases (i == j)) [
      | inl e ↦
          let eq_ij : i ≡ j = ground arith in
          rw e (sym (subst (λ m. page_used p.bitmap m ≡ false) eq_ij clear))
      | inr e ↦ rw e (other ∙ rw e refl)
    ]

-- Giving back the page that `alloc` took, in the state that it left, restores the set of pages in
-- use and the count of the free ones.
pub free-alloc :
    (p p' : Pmm) (pa : ℕ)
    → IsPmm p
    → alloc p ≡ (ok pa, p')
    → ((j : ℕ) → page_used (free pa p').bitmap j ≡ page_used p.bitmap j)
      × ((free pa p').free_pages ≡ p.free_pages)
unfolding AllocOutcome
free-alloc p p' pa h e =
    let ((i, taken), zeroed, h') = subst (AllocOutcome p) e (alloc_lem p h) in
    free_restores p p' pa i h taken h'

-- Freeing a page leaves the memory as it is.
pub free-memory : (pa : ℕ) (p : Pmm) → (free pa p).memory ≡ p.memory
unfolding free bm_clr
free-memory pa p = elim (Bool-cases (ltb (pa_to_idx pa p) p.total_pages)) [
  | inl within ↦ elim (Bool-cases (bm_get (pa_to_idx pa p) p)) [
    | inl used ↦ rw (within, used) refl
    | inr unused ↦ rw (within, unused) refl
  ]
  | inr outside ↦ rw outside refl
]
