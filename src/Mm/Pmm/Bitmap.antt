-- ===== src/Mm/Pmm/Bitmap.antt =====
-- kernel/src/mm/pmm/bitmap.rs: the bitmap as a set of pages, and the count of the free ones.
use slipper_kernel.Prelude.{
  ℕ, zero, suc, ◌+◌, ◌*◌, ◌/◌, ◌%◌, ◌^◌, ◌≤◌, ◌<◌, ◌≡◌, refl, ap, subst, sym, ltb, ◌∙◌, arith, List,
  [], ◌∷◌, length, get_or, set, length-set, Bool, true, false, ◌==◌, if◌then◌else◌, Bool-cases, inl,
  inr, set_bit, clear_bit, test_bit, test_bit-set_bit, test_bit-clear_bit,
}
use slipper_kernel.Mm.Pmm.{Pmm, page_used, page_size, bm_set, bm_clr}

-- the number of pages below `n` whose bit is clear
unfoldable pub count_free : ℕ → List ℕ → ℕ
unfolding page_used
count_free zero bitmap = 0
count_free (suc n) bitmap = (if page_used bitmap n then 0 else 1) + count_free n bitmap

-- The invariant: the bitmap has a bit for every page, the counter is the number of clear bits, and
-- the pages lie below 2 ^ 64.
unfoldable pub IsPmm : Pmm → Type 0
IsPmm p =
    (p.total_pages ≤ 8 * length p.bitmap)
    × (p.free_pages ≡ count_free p.total_pages p.bitmap)
    × (p.base + p.total_pages * page_size < 2 ^ 64)

get_or-set :
    (xs : List ℕ) (i j v d : ℕ)
    → i < length xs
    → get_or (set xs i v) j d ≡ (if i == j then v else get_or xs j d)
get_or-set [] i j v d h = absurd (omega arith)
get_or-set (x ∷ xs) zero zero v d h = refl
get_or-set (x ∷ xs) zero (suc j) v d h =
    let other : (0 == suc j) ≡ false = ground arith in rw other refl
get_or-set (x ∷ xs) (suc i) zero v d h =
    let other : (suc i == 0) ≡ false = ground arith in rw other refl
get_or-set (x ∷ xs) (suc i) (suc j) v d h =
    let same : (suc i == suc j) ≡ (i == j) = ground arith in
    rw same (get_or-set xs i j v d (omega arith))

-- A byte `w'` that stands for byte `i / 8`, and has `b` at bit `i % 8` and else the same bits.
page_used-set :
    (i j w' : ℕ) (b : Bool) (bitmap : List ℕ)
    → i / 8 < length bitmap
    → ((k : ℕ)
        → k < 8
        → test_bit w' k ≡ (if (i % 8) == k then b else test_bit (get_or bitmap (i / 8) 0) k))
    → page_used (set bitmap (i / 8) w') j ≡ (if i == j then b else page_used bitmap j)
unfolding page_used
page_used-set i j w' b bitmap h bits = elim (Bool-cases ((i / 8) == (j / 8))) [
  | inl same_byte ↦
      let e : i / 8 ≡ j / 8 = ground arith in
      let same : (i == j) ≡ ((i % 8) == (j % 8)) = ground arith in
      ap (λ w. test_bit w (j % 8)) (get_or-set bitmap (i / 8) (j / 8) w' 0 h)
      ∙ rw (same_byte, same) (bits (j % 8) (omega arith) ∙ rw e refl)
  | inr other_byte ↦
      let other : (i == j) ≡ false = ground arith in
      ap (λ w. test_bit w (j % 8)) (get_or-set bitmap (i / 8) (j / 8) w' 0 h)
      ∙ rw (other_byte, other) refl
]

pub page_used-bm_set :
    (i j : ℕ) (p : Pmm)
    → i / 8 < length p.bitmap
    → page_used (bm_set i p).bitmap j ≡ (if i == j then true else page_used p.bitmap j)
unfolding bm_set
page_used-bm_set i j p h =
    let w = get_or p.bitmap (i / 8) 0 in
    page_used-set i j (set_bit w (i % 8)) true p.bitmap h (λ k hk. test_bit-set_bit w (i % 8) k)

pub page_used-bm_clr :
    (i j : ℕ) (p : Pmm)
    → i / 8 < length p.bitmap
    → page_used (bm_clr i p).bitmap j ≡ (if i == j then false else page_used p.bitmap j)
unfolding bm_clr
page_used-bm_clr i j p h =
    let w = get_or p.bitmap (i / 8) 0 in
    page_used-set i j (clear_bit 8 w (i % 8)) false p.bitmap h
      (λ k hk. test_bit-clear_bit 8 w (i % 8) k (omega arith) hk)

-- Two bitmaps that agree below `n`, but for one more page used in the second.
count_free_less :
    (n i : ℕ) (before after : List ℕ)
    → ((j : ℕ) → page_used after j ≡ (if i == j then true else page_used before j))
    → page_used before i ≡ false
    → count_free n before ≡ count_free n after + (if ltb i n then 1 else 0)
unfolding count_free
count_free_less zero i before after same clear =
    let never : ltb i 0 ≡ false = ground arith in rw never refl
count_free_less (suc n) i before after same clear =
    let ih = count_free_less n i before after same clear in
    let now = same n in
    elim (Bool-cases (i == n)) [
      | inl e ↦
          let here : i ≡ n = ground arith in
          let was : page_used before n ≡ false =
            subst (λ m. page_used before m ≡ false) here clear in
          let is : page_used after n ≡ true = now ∙ rw e refl in rw (was, is) (ground arith)
      | inr e ↦
          let is : page_used after n ≡ page_used before n = now ∙ rw e refl in rw is (ground arith)
    ]

count_free_le : (n : ℕ) (bitmap : List ℕ) → count_free n bitmap ≤ n
unfolding count_free
count_free_le zero bitmap = omega arith
count_free_le (suc n) bitmap =
    let ih = count_free_le n bitmap in
    elim (Bool-cases (page_used bitmap n)) [
      | inl e ↦ rw e (omega arith)
      | inr e ↦ rw e (omega arith)
    ]

pub bm_set-IsPmm :
    (i : ℕ) (p : Pmm)
    → IsPmm p
    → i < p.total_pages
    → page_used p.bitmap i ≡ false
    → IsPmm (bm_set i p) × (p.free_pages ≡ suc (bm_set i p).free_pages)
unfolding bm_set IsPmm
bm_set-IsPmm i p (size, count, top) hi clear =
    let p' = bm_set i p in
    let here : i / 8 < length p.bitmap = omega arith in
    let less =
      count_free_less p.total_pages i p.bitmap p'.bitmap (λ j. page_used-bm_set i j p here) clear in
    let inside : ltb i p.total_pages ≡ true = ground arith in
    let most = count_free_le p.total_pages p.bitmap in
    let fewer : count_free p.total_pages p.bitmap ≡ suc (count_free p.total_pages p'.bitmap) =
      less ∙ rw inside (omega arith) in
    (
      (
        omega (arith, length-set p.bitmap (i / 8) (set_bit (get_or p.bitmap (i / 8) 0) (i % 8))),
        omega arith,
        top,
      ),
      omega arith,
    )

set_again :
    (i j : ℕ) (p : Pmm)
    → i / 8 < length p.bitmap
    → page_used p.bitmap i ≡ true
    → page_used p.bitmap j ≡ (if i == j then true else page_used (bm_clr i p).bitmap j)
set_again i j p here taken = elim (Bool-cases (i == j)) [
  | inl e ↦
      let same : i ≡ j = ground arith in rw e (subst (λ m. page_used p.bitmap m ≡ true) same taken)
  | inr e ↦ rw e (sym (page_used-bm_clr i j p here ∙ rw e refl))
]

pub bm_clr-IsPmm :
    (i : ℕ) (p : Pmm)
    → IsPmm p
    → i < p.total_pages
    → page_used p.bitmap i ≡ true
    → IsPmm (bm_clr i p) × ((bm_clr i p).free_pages ≡ suc p.free_pages)
unfolding bm_clr IsPmm
bm_clr-IsPmm i p (size, count, top) hi taken =
    let p' = bm_clr i p in
    let here : i / 8 < length p.bitmap = omega arith in
    let now : page_used p'.bitmap i ≡ false =
      let same : (i == i) ≡ true = ground arith in page_used-bm_clr i i p here ∙ rw same refl in
    let less =
      count_free_less p.total_pages i p'.bitmap p.bitmap (λ j. set_again i j p here taken) now in
    let inside : ltb i p.total_pages ≡ true = ground arith in
    let most = count_free_le p.total_pages p'.bitmap in
    let more : count_free p.total_pages p'.bitmap ≡ suc (count_free p.total_pages p.bitmap) =
      less ∙ rw inside (omega arith) in
    (
      (
        omega
            (arith, length-set p.bitmap (i / 8) (clear_bit 8 (get_or p.bitmap (i / 8) 0) (i % 8))),
        omega arith,
        top,
      ),
      omega arith,
    )
