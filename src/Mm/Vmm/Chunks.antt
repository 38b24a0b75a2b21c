-- ===== src/Mm/Vmm/Chunks.antt =====
-- kernel/src/mm/vmm/map.rs: the sizes of the pages that map takes, and that its loop ends.
use slipper_kernel.Prelude.{
  ℕ, zero, suc, ◌+◌, ◌-◌, ◌*◌, ◌%◌, ◌^◌, ◌≤◌, ◌<◌, leb, Option, some, Bool, Bool-cases, inl, inr,
  true, false, ◌==◌, ◌&&◌, ◌≡◌, ◌⊎◌, refl, arith, min, bit_or, if◌then◌else◌,
}
use slipper_kernel.Core.Errno.{KResult, ok, err}
use slipper_kernel.Mm.Pmm.{Pmm}
use slipper_kernel.Mm.Vmm.{pte_a, pte_d, map_one, best_level, chunk_of, map_next, map_loop}

-- A page of a level fits: it is no longer than what remains, and both addresses are aligned to it.
unfoldable pub FitsPage : ℕ → ℕ → ℕ → ℕ → Type 0
FitsPage level va pa remaining =
    (2 ^ (12 + 9 * level) ≤ remaining)
    × (va % 2 ^ (12 + 9 * level) ≡ 0)
    × (pa % 2 ^ (12 + 9 * level) ≡ 0)

-- the highest level whose page fits, or level 0
unfoldable pub IsBestLevel : ℕ → ℕ → ℕ → ℕ → Type 0
IsBestLevel level va pa remaining =
    ((level ≡ 2) × FitsPage 2 va pa remaining)
    ⊎ ((level ≡ 1) × FitsPage 1 va pa remaining × ¬ (FitsPage 2 va pa remaining))
    ⊎ ((level ≡ 0) × ¬ (FitsPage 1 va pa remaining) × ¬ (FitsPage 2 va pa remaining))

-- a page of the level, or the rest where that is shorter than a page of level 0
unfoldable pub IsPart : ℕ → ℕ → ℕ → Type 0
IsPart level remaining chunk =
    ((2 ^ (12 + 9 * level) ≤ remaining) × (chunk ≡ 2 ^ (12 + 9 * level)))
    ⊎ ((level ≡ 0) × (remaining < 2 ^ 12) × (chunk ≡ remaining))

-- best_level takes the highest level, 2 or 1, whose page is no longer than what remains and has
-- both addresses aligned to it, and level 0 when there is none; the part that map takes of what
-- remains is exactly one page of that level, or, at level 0, all that remains when that is shorter
-- than a page.
pub best_level_lem :
    (va pa remaining : ℕ)
    → IsBestLevel (best_level va pa remaining) va pa remaining
      × IsPart (best_level va pa remaining) remaining (chunk_of va pa remaining)
unfolding best_level FitsPage IsBestLevel IsPart chunk_of
best_level_lem va pa remaining =
    elim (Bool-cases (leb (2 ^ 30) remaining && (va % 2 ^ 30 == 0) && (pa % 2 ^ 30 == 0))) [
      | inl giant ↦
          rw giant (
            inl (refl, (ground arith, ground arith, ground arith)),
            inl (ground arith, ground arith),
          )
      | inr smaller ↦
          elim (Bool-cases (leb (2 ^ 21) remaining && (va % 2 ^ 21 == 0) && (pa % 2 ^ 21 == 0))) [
            | inl mega ↦
                rw (smaller, mega)
                  (
                    inr (inl (refl, (ground arith, ground arith, ground arith), λ h. ground arith)),
                    inl (ground arith, ground arith),
                  )
            | inr page ↦
                rw (smaller, page)
                  (inr (inr (refl, (λ h. ground arith), λ h. ground arith)), part remaining)
          ]
    ]
  where
    part :
        (remaining : ℕ)
        → ((2 ^ 12 ≤ remaining) × (min (2 ^ 12) remaining ≡ 2 ^ 12))
          ⊎ ((◌≡◌ {A = ℕ} 0 0) × (remaining < 2 ^ 12) × (min (2 ^ 12) remaining ≡ remaining))
    part remaining = elim (Bool-cases (leb (2 ^ 12) remaining)) [
      | inl whole ↦ inl (ground arith, ground arith)
      | inr short ↦ inr (refl, ground arith, ground arith)
    ]

chunk_bounds :
    (va pa remaining : ℕ)
    → 0 < remaining
    → (0 < chunk_of va pa remaining) × (chunk_of va pa remaining ≤ remaining)
unfolding best_level chunk_of
chunk_bounds va pa remaining h = (ground arith, ground arith)

map_next-some :
    (rest : Pmm → Option (KResult ℕ × Pmm)) (m : KResult ℕ × Pmm)
    → ((q : Pmm) → (r : KResult ℕ × Pmm) × (rest q ≡ some r))
    → (r : KResult ℕ × Pmm) × (map_next rest m ≡ some r)
unfolding map_next
map_next-some rest (ok slot, p) h = h p
map_next-some rest (err e, p) h = ((err e, p), refl)

then_case {ℓ} : {A : Type ℓ} (x y : A) (b : Bool) → b ≡ true → (if b then x else y) ≡ x
then_case x y true h = refl
then_case x y false h = absurd cc

else_case {ℓ} : {A : Type ℓ} (x y z : A) (b : Bool) → b ≡ false → y ≡ z → (if b then x else y) ≡ z
else_case x y z true h e = absurd cc
else_case x y z false h e = e

-- The loop of map ends: with more rounds than bytes remain it gives a result.
pub map_loop-ends :
    (fuel root va pa remaining flags : ℕ) (p : Pmm)
    → remaining < fuel
    → (r : KResult ℕ × Pmm) × (map_loop fuel root va pa remaining flags p ≡ some r)
unfolding map_loop
map_loop-ends zero root va pa remaining flags p h = absurd (omega arith)
map_loop-ends (suc fuel) root va pa remaining flags p h = elim (Bool-cases (remaining == 0)) [
  | inl done ↦ ((ok 0, p), then_case _ _ (remaining == 0) done)
  | inr more ↦
      let left : 0 < remaining = ground arith in
      let (some_taken, bounded) = chunk_bounds va pa remaining left in
      let chunk : ℕ = chunk_of va pa remaining in
      let (r, run) =
        map_next-some
          (λ q.
            map_loop fuel root ((va + chunk) % 2 ^ 64) ((pa + chunk) % 2 ^ 64) (remaining - chunk)
              flags q)
          (map_one root va pa (bit_or (bit_or flags pte_a) pte_d) (best_level va pa remaining) p)
          (λ q.
            map_loop-ends fuel root ((va + chunk) % 2 ^ 64) ((pa + chunk) % 2 ^ 64)
              (remaining - chunk) flags q (omega arith)) in
      (r, else_case _ _ _ (remaining == 0) more run)
]
