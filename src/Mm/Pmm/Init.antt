-- ===== src/Mm/Pmm/Init.antt =====
-- kernel/src/mm/pmm/mod.rs: `init` sets up a well-formed allocator.
use slipper_kernel.Prelude.{
  ℕ, zero, suc, ◌+◌, ◌-◌, ◌*◌, ◌/◌, ◌%◌, ◌^◌, ◌≤◌, ◌<◌, ◌≡◌, refl, ap, sym, ◌∙◌, arith, max, List,
  replicate, get_or, length, test_bit, bit_and-le, length-replicate, false,
}
use slipper_kernel.Mm.Pmm.{Pmm, page_size, kernel_heap_reserve, page_used, set_run, init}
use slipper_kernel.Mm.Pmm.Bitmap.{IsPmm, count_free}
use slipper_kernel.Mm.Pmm.Run.{IsRunTaken, IsFreeRun, set_run_lem}

abbrev zeros : ℕ → List ℕ
zeros n = replicate n 0

get_or-replicate : (n i : ℕ) → get_or (zeros n) i 0 ≡ 0
get_or-replicate zero i = refl
get_or-replicate (suc n) zero = refl
get_or-replicate (suc n) (suc i) = get_or-replicate n i

page_used-replicate : (n j : ℕ) → page_used (zeros n) j ≡ false
unfolding page_used
page_used-replicate n j =
    let none_set : test_bit 0 (j % 8) ≡ false = ground (arith, bit_and-le 0 (2 ^ (j % 8))) in
    ap (λ w. test_bit w (j % 8)) (get_or-replicate n (j / 8)) ∙ none_set

count_free-replicate : (n bytes : ℕ) → count_free n (zeros bytes) ≡ n
unfolding count_free
count_free-replicate zero bytes = refl
count_free-replicate (suc n) bytes =
    rw (page_used-replicate bytes n) (omega (arith, count_free-replicate n bytes))

length-zeros : (n : ℕ) → length (zeros n) ≡ n
length-zeros n = length-replicate n 0

fresh-taken :
    (base bitmap_pages bytes total : ℕ) (memory : ℕ → ℕ)
    → bitmap_pages ≤ total
    → total ≤ 8 * bytes
    → base + total * page_size < 2 ^ 64
    → IsPmm (
        set_run bitmap_pages 0 (record {
          base = base;
          total_pages = total;
          free_pages = total;
          bitmap = replicate bytes 0;
          memory = memory;
        }))
unfolding IsPmm IsFreeRun IsRunTaken
fresh-taken base bitmap_pages bytes total memory few wide top =
    let p : Pmm = record {
      base = base;
      total_pages = total;
      free_pages = total;
      bitmap = replicate bytes 0;
      memory = memory;
    } in
    let whole : IsPmm p =
      (omega (arith, length-zeros bytes), sym (count_free-replicate total bytes), top) in
    (set_run_lem bitmap_pages 0 p whole (omega arith) (λ j low high. page_used-replicate bytes j)).2

-- When at least three pages of memory lie above the kernel and its heap, below 2 ^ 63, `init` sets up
-- a well-formed allocator: its counter is the number of clear bits, and its bitmap covers its pages.
pub init-IsPmm :
    (kernel_end dram_base dram_size : ℕ) (memory : ℕ → ℕ)
    → dram_base + dram_size < 2 ^ 63
    → max (kernel_end + kernel_heap_reserve) dram_base + 3 * page_size ≤ dram_base + dram_size
    → IsPmm (init kernel_end dram_base dram_size memory)
unfolding init
init-IsPmm kernel_end dram_base dram_size memory below room =
    let managed_base =
      (max (kernel_end + kernel_heap_reserve) dram_base + page_size - 1) / page_size * page_size in
    let pages = (dram_base + dram_size - managed_base) / page_size in
    let bytes = (pages + 8 - 1) / 8 in
    let bitmap_pages = (bytes + page_size - 1) / page_size in
    fresh-taken (managed_base + bitmap_pages * page_size) bitmap_pages bytes (pages - bitmap_pages)
      memory (omega arith) (omega arith) (omega arith)
