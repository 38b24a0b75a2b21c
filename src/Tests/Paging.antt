-- ===== src/Tests/Paging.antt =====
-- kernel/src/mm/vmm on a concrete page table.
use slipper_kernel.Prelude.{
  ℕ, ◌+◌, ◌*◌, ◌/◌, ◌%◌, ◌^◌, ◌≡◌, refl, arith, [], some, inl, inr, bit_and, bit-pow, ◌==◌,
  if◌then◌else◌,
}
use slipper_kernel.Core.Errno.{KResult, ok}
use slipper_kernel.Mm.Pmm.{Pmm}
use slipper_kernel.Mm.Vmm.{
  pte_u, pte_pa, make_pte, entry_addr, write_word, map_one, translate, translate_user, best_level,
  chunk_of, map_loop, unmap_page, free_user_page,
}
use slipper_kernel.Mm.Vmm.Trail.{Trail, translate-map_one}
use slipper_kernel.Mm.Vmm.Unmap.{translate-unmap_page}
use slipper_kernel.Mm.Vmm.Chunks.{IsBestLevel, IsPart, best_level_lem, map_loop-ends}

-- The root table is at 0x1000; its first entry is the table at 0x2000.
abbrev tables : Pmm
unfolding make_pte
tables = record {
  base = 0x100000;
  total_pages = 0;
  free_pages = 0;
  bitmap = [];
  memory = λ a. if a == 0x1000 then make_pte 0 0x2000 else 0;
}

tables-Trail : Trail tables.memory 0x1234 1 0x2000 2 0x1000
unfolding Trail make_pte entry_addr pte_pa
tables-Trail = inr (omega arith, refl, refl, (λ e. omega arith), inl (refl, refl))

translate-map_one_example :
    (map_one 0x1000 0x1234 0x200000 2 1 tables
      ≡ (ok 0x2000, write_word 0x2000 (make_pte 2 0x200000) tables))
    × (translate 0x1000 0x1234 (write_word 0x2000 (make_pte 2 0x200000) tables)
        ≡ (0x200000 / 2 ^ 12 * 2 ^ 12 + 0x1234 % 2 ^ (12 + 9 * 1)) % 2 ^ 64)
    × (translate_user 0x1000 0x1234 (write_word 0x2000 (make_pte 2 0x200000) tables) ≡ (
        if bit_and (make_pte 2 0x200000) pte_u == 0
        then 0
        else (0x200000 / 2 ^ 12 * 2 ^ 12 + 0x1234 % 2 ^ (12 + 9 * 1)) % 2 ^ 64))
translate-map_one_example =
    translate-map_one 0x1000 0x1234 0x200000 2 1 0x2000 tables (omega arith) (omega arith)
      (bit-pow 1 1) (omega arith) tables-Trail

best_level_lem_example :
    IsBestLevel (best_level 0x200000 0x400000 0x200001) 0x200000 0x400000 0x200001
    × IsPart (best_level 0x200000 0x400000 0x200001) 0x200001 (chunk_of 0x200000 0x400000 0x200001)
best_level_lem_example = best_level_lem 0x200000 0x400000 0x200001

map_loop-ends_example : (r : KResult ℕ × Pmm) × (map_loop 3 0x1000 0 0x200000 2 2 tables ≡ some r)
map_loop-ends_example = map_loop-ends 3 0x1000 0 0x200000 2 2 tables (omega arith)

-- The first entry of the table at 0x2000 is the table at 0x3000.
abbrev deeper : Pmm
unfolding make_pte
deeper = record tables {
  memory =
      λ a. if a == 0x1000 then make_pte 0 0x2000 else if a == 0x2000 then make_pte 0 0x3000 else 0;
}

deeper-Trail : Trail deeper.memory 0x1234 0 0x3008 2 0x1000
unfolding Trail make_pte entry_addr pte_pa
deeper-Trail = inr (
  omega arith,
  refl,
  refl,
  (λ e. omega arith),
  inr (omega arith, refl, refl, (λ e. omega arith), (refl, refl)),
)

translate-unmap_page_example :
    (unmap_page 0x1000 0x1234 deeper
      ≡ (ok 0x3008, write_word 0x3008 0 (free_user_page (deeper.memory 0x3008) deeper)))
    × (translate 0x1000 0x1234 (write_word 0x3008 0 (free_user_page (deeper.memory 0x3008) deeper))
        ≡ 0)
    × (translate_user 0x1000 0x1234
          (write_word 0x3008 0 (free_user_page (deeper.memory 0x3008) deeper))
        ≡ 0)
translate-unmap_page_example = translate-unmap_page 0x1000 0x1234 0x3008 deeper deeper-Trail
