-- ===== src/Mm/Pmm.antt =====
-- kernel/src/mm/pmm/mod.rs and bitmap.rs: the allocator of physical pages.
-- `G_PMM` is a record, passed in and returned; `memory` is the contents of the physical memory, which
-- `alloc` clears a page of. An address is a 64-bit number.
pub mod Bitmap
pub mod Alloc
pub mod Run
pub mod Init
pub mod Free
use slipper_kernel.Prelude.{
  ℕ, zero, suc, ◌+◌, ◌-◌, ◌*◌, ◌/◌, ◌%◌, ◌^◌, max, List, Bool, true, false, not, ◌&&◌, leb, ltb,
  ◌==◌, if◌then◌else◌, get_or, set, replicate, test_bit, set_bit, clear_bit,
}
use slipper_kernel.Core.Errno.{KResult, ok, err, no_mem, inval}

abbrev pub page_size : ℕ
page_size = 4096

abbrev pub kernel_heap_reserve : ℕ
kernel_heap_reserve = 4 * 1024 * 1024

pub record Pmm : Type 0 where
  pub base : ℕ
  pub total_pages : ℕ
  pub free_pages : ℕ
  pub bitmap : List ℕ
  pub memory : ℕ → ℕ

-- the bit of a page in the bitmap
unfoldable pub page_used : List ℕ → ℕ → Bool
page_used bitmap bit = test_bit (get_or bitmap (bit / 8) 0) (bit % 8)

unfoldable pub bm_get : ℕ → Pmm → Bool
unfolding page_used
bm_get bit p = page_used p.bitmap bit

unfoldable pub bm_set : ℕ → Pmm → Pmm
bm_set bit p = record p {
  bitmap = set p.bitmap (bit / 8) (set_bit (get_or p.bitmap (bit / 8) 0) (bit % 8));
  free_pages = (p.free_pages + 2 ^ 64 - 1) % 2 ^ 64;
}

pub bm_clr : ℕ → Pmm → Pmm
bm_clr bit p = record p {
  bitmap = set p.bitmap (bit / 8) (clear_bit 8 (get_or p.bitmap (bit / 8) 0) (bit % 8));
  free_pages = (p.free_pages + 1) % 2 ^ 64;
}

pub pa_to_idx : ℕ → Pmm → ℕ
pa_to_idx pa p = (pa + 2 ^ 64 - p.base) % 2 ^ 64 / page_size

unfoldable pub idx_to_pa : ℕ → Pmm → ℕ
idx_to_pa idx p = (p.base + idx * page_size) % 2 ^ 64

-- `ptr::write_bytes(pa as *mut u8, 0, PAGE_SIZE)`
unfoldable pub zero_page : ℕ → Pmm → Pmm
zero_page pa p = record p {
  memory = λ a. if leb pa a && ltb a (pa + page_size) then 0 else p.memory a;
}

-- The loop of `alloc`: `left` pages from `i` on.
unfoldable pub alloc_from : ℕ → ℕ → Pmm → KResult ℕ × Pmm
unfolding bm_get bm_set idx_to_pa zero_page
alloc_from zero i p = (err no_mem, p)
alloc_from (suc left) i p =
    let rest = alloc_from left (i + 1) p in
    if not (bm_get i p) then (ok (idx_to_pa i p), zero_page (idx_to_pa i p) (bm_set i p)) else rest

unfoldable pub alloc : Pmm → KResult ℕ × Pmm
unfolding alloc_from
alloc p = alloc_from p.total_pages 0 p

-- `for k in start..start + n { bm_set(k) }`
pub set_run : ℕ → ℕ → Pmm → Pmm
unfolding bm_set
set_run zero start p = p
set_run (suc n) start p = set_run n (start + 1) (bm_set start p)

-- `run` and `start` after page `i`
pub run_after : Bool → ℕ → ℕ → ℕ → ℕ × ℕ
run_after true i run start = (0, start)
run_after false i run start = (run + 1, if run == 0 then i else start)

-- The loop of `alloc_n`: `left` pages from `i` on.
pub alloc_n_from : ℕ → ℕ → ℕ → ℕ × ℕ → Pmm → KResult ℕ × Pmm
unfolding bm_get set_run idx_to_pa run_after
alloc_n_from n zero i (run, start) p = (err no_mem, p)
alloc_n_from n (suc left) i (run, start) p =
    let (run', start') = run_after (bm_get i p) i run start in
    let rest = alloc_n_from n left (i + 1) (run', start') p in
    if not (bm_get i p) && (run' == n) then (ok (idx_to_pa start' p), set_run n start' p) else rest

pub alloc_n : ℕ → Pmm → KResult ℕ × Pmm
unfolding alloc_n_from
alloc_n n p = if n == 0 then (err inval, p) else alloc_n_from n p.total_pages 0 (0, 0) p

pub free : ℕ → Pmm → Pmm
unfolding pa_to_idx bm_get bm_clr
free pa p =
    let idx = pa_to_idx pa p in
    if ltb idx p.total_pages then (if bm_get idx p then bm_clr idx p else p) else p

-- `n.div_ceil(d)`
abbrev div_ceil : ℕ → ℕ → ℕ
div_ceil n d = (n + d - 1) / d

-- `init`, given the address of the end of the kernel's image, of addresses below 2 ^ 63.
pub init : ℕ → ℕ → ℕ → (ℕ → ℕ) → Pmm
unfolding set_run
init kernel_end dram_base dram_size memory =
    let managed_base =
      (max (kernel_end + kernel_heap_reserve) dram_base + page_size - 1) / page_size * page_size in
    let pages = (dram_base + dram_size - managed_base) / page_size in
    let bitmap_bytes = div_ceil pages 8 in
    let bitmap_pages = div_ceil bitmap_bytes page_size in
    set_run bitmap_pages 0 (record {
      base = managed_base + bitmap_pages * page_size;
      total_pages = pages - bitmap_pages;
      free_pages = pages - bitmap_pages;
      bitmap = replicate bitmap_bytes 0;
      memory = memory;
    })
