-- ===== src/Mm/Vmm.antt =====
-- kernel/src/mm/vmm: walk.rs, map.rs, and the translations of mod.rs; the page-table constants of
-- kernel/src/arch/regs.rs. The state is that of the page allocator: `memory` gives, at an address
-- that is a multiple of 8, the 64-bit word there.
pub mod Words
pub mod Trail
pub mod Chunks
pub mod Unmap
use slipper_kernel.Prelude.{
  ℕ, zero, suc, ◌+◌, ◌-◌, ◌*◌, ◌/◌, ◌%◌, ◌^◌, min, Bool, true, false, not, ◌&&◌, ◌||◌, leb, ltb,
  ◌==◌, if◌then◌else◌, bit_and, bit_or, Option, none, some,
}
use slipper_kernel.Core.Errno.{KResult, ok, err, inval, no_ent}
use slipper_kernel.Mm.Pmm.{Pmm, alloc, free}

abbrev pub pte_v : ℕ
pte_v = 1

abbrev pub pte_u : ℕ
pte_u = 16

-- PTE_A and PTE_D
abbrev pub pte_a : ℕ
pte_a = 64

abbrev pub pte_d : ℕ
pte_d = 128

-- PTE_R | PTE_X
abbrev pub pte_leaf : ℕ
pte_leaf = 10

abbrev pub pte_ppn_mask : ℕ
pte_ppn_mask = (2 ^ 44 - 1) * 2 ^ 10

-- sv39_l0_idx, sv39_l1_idx and sv39_l2_idx
unfoldable pub sv39_idx : ℕ → ℕ → ℕ
sv39_idx level va = bit_and (va / 2 ^ (12 + 9 * level)) 0x1FF

-- `table_pa + idx * 8`
unfoldable pub entry_addr : ℕ → ℕ → ℕ → ℕ
unfolding sv39_idx
entry_addr table level va = (table + sv39_idx level va * 8) % 2 ^ 64

-- `(pte & PTE_PPN_MASK) >> PTE_PPN_SHIFT << 12`
unfoldable pub pte_pa : ℕ → ℕ
pte_pa pte = bit_and pte pte_ppn_mask / 2 ^ 10 * 2 ^ 12 % 2 ^ 64

-- `PTE_V | flags | ((pa >> 12) << PTE_PPN_SHIFT)`
unfoldable pub make_pte : ℕ → ℕ → ℕ
make_pte flags pa = bit_or (bit_or pte_v flags) (pa / 2 ^ 12 * 2 ^ 10 % 2 ^ 64)

unfoldable pub write_word : ℕ → ℕ → Pmm → Pmm
write_word addr word p = record p { memory = λ a. if a == addr then word else p.memory a }

-- `?` on a result with its state
unfoldable pub then_with {ℓ κ} :
    {A : Type ℓ} {B : Type κ} → KResult A × Pmm → (A → Pmm → KResult B × Pmm) → KResult B × Pmm
then_with (ok a, p) f = f a p
then_with (err e, p) f = (err e, p)

-- `for i in i..i + left` of split_leaf
unfoldable pub fill_table : ℕ → ℕ → ℕ → ℕ → ℕ → ℕ → Pmm → Pmm
unfolding make_pte write_word
fill_table table first step flags i zero p = p
fill_table table first step flags i (suc left) p =
    fill_table table first step flags (i + 1) left
      (write_word ((table + i * 8) % 2 ^ 64) (make_pte flags ((first + i * step) % 2 ^ 64)) p)

unfoldable pub split_leaf : ℕ → ℕ → ℕ → Pmm → KResult ℕ × Pmm
unfolding pte_pa fill_table write_word make_pte then_with
split_leaf pte_addr pte level p = then_with (alloc p) (λ table q.
    if (level == 1) || (level == 2)
    then (
      ok table,
      write_word pte_addr (make_pte 0 table)
          (fill_table table (pte_pa pte) (2 ^ (12 + 9 * (level - 1))) (bit_and pte 0x3FF) 0 512 q),
    )
    else (err inval, q))

-- the table below the entry at `pte_addr`, one round of the loop of walk
unfoldable pub next_table : Bool → ℕ → ℕ → Pmm → KResult ℕ × Pmm
unfolding split_leaf then_with write_word make_pte pte_pa
next_table create level pte_addr p =
    let pte = p.memory pte_addr in
    if bit_and pte pte_v == 0
    then if not create
      then (err no_ent, p)
      else then_with (alloc p) (λ table q. (ok table, write_word pte_addr (make_pte 0 table) q))
    else if not (bit_and pte pte_leaf == 0)
    then if not create
      then (err inval, p)
      else then_with (split_leaf pte_addr pte level p)
          (λ table q. (ok (pte_pa (q.memory pte_addr)), q))
    else (ok (pte_pa pte), p)

-- The loop of walk from `level` down to `leaf_level`, and the address of the entry there.
unfoldable pub walk_from : Bool → ℕ → ℕ → ℕ → ℕ → Pmm → KResult ℕ × Pmm
unfolding next_table then_with entry_addr
walk_from create leaf_level vaddr zero table p = (ok (entry_addr table 0 vaddr), p)
walk_from create leaf_level vaddr (suc level) table p =
    if suc level == leaf_level
    then (ok (entry_addr table leaf_level vaddr), p)
    else then_with (next_table create (suc level) (entry_addr table (suc level) vaddr) p)
        (λ below q. walk_from create leaf_level vaddr level below q)

unfoldable pub walk : ℕ → ℕ → ℕ → Bool → Pmm → KResult ℕ × Pmm
unfolding walk_from
walk root_pa vaddr leaf_level create p =
    if leb leaf_level 2 then walk_from create leaf_level vaddr 2 root_pa p else (err inval, p)

-- The result is the address of the entry that was written.
unfoldable pub map_one : ℕ → ℕ → ℕ → ℕ → ℕ → Pmm → KResult ℕ × Pmm
unfolding walk then_with make_pte write_word
map_one root_pa vaddr paddr flags level p =
    then_with (walk root_pa vaddr level true p)
      (λ slot q. (ok slot, write_word slot (make_pte flags paddr) q))

unfoldable pub best_level : ℕ → ℕ → ℕ → ℕ
best_level va pa remaining =
    if leb (2 ^ 30) remaining && (va % 2 ^ 30 == 0) && (pa % 2 ^ 30 == 0)
    then 2
    else if leb (2 ^ 21) remaining && (va % 2 ^ 21 == 0) && (pa % 2 ^ 21 == 0)
    then 1
    else 0

-- `chunk` of map
unfoldable pub chunk_of : ℕ → ℕ → ℕ → ℕ
unfolding best_level
chunk_of va pa remaining = min (2 ^ (12 + 9 * best_level va pa remaining)) remaining

-- what follows the `?` behind map_one
unfoldable pub map_next :
    (Pmm → Option (KResult ℕ × Pmm)) → KResult ℕ × Pmm → Option (KResult ℕ × Pmm)
map_next rest (ok slot, p) = rest p
map_next rest (err e, p) = some (err e, p)

-- `while remaining > 0`, at most `fuel` rounds; none when the fuel does not do
unfoldable pub map_loop : ℕ → ℕ → ℕ → ℕ → ℕ → ℕ → Pmm → Option (KResult ℕ × Pmm)
unfolding chunk_of best_level map_one map_next
map_loop zero root_pa va pa remaining flags p = none
map_loop (suc fuel) root_pa va pa remaining flags p =
    if remaining == 0
    then some (ok 0, p)
    else map_next
        (λ q.
          let chunk = chunk_of va pa remaining in
          map_loop fuel root_pa ((va + chunk) % 2 ^ 64) ((pa + chunk) % 2 ^ 64) (remaining - chunk)
            flags q)
        (map_one root_pa va pa (bit_or (bit_or flags pte_a) pte_d) (best_level va pa remaining) p)

-- one round of map_anon
unfoldable pub map_anon_page : ℕ → ℕ → ℕ → Pmm → KResult ℕ × Pmm
unfolding then_with map_one
map_anon_page root_pa va flags p =
    then_with (alloc p) (λ page q. map_one root_pa va page (bit_or (bit_or flags pte_a) pte_d) 0 q)

-- `while remaining > 0` of map_anon, at most `fuel` rounds; `remaining -= 4096` wraps on u64
unfoldable pub map_anon_loop : ℕ → ℕ → ℕ → ℕ → ℕ → Pmm → Option (KResult ℕ × Pmm)
unfolding map_anon_page map_next
map_anon_loop zero root_pa va remaining flags p = none
map_anon_loop (suc fuel) root_pa va remaining flags p =
    if remaining == 0
    then some (ok 0, p)
    else map_next
        (λ q.
          map_anon_loop fuel root_pa ((va + 2 ^ 12) % 2 ^ 64)
            ((remaining + (2 ^ 64 - 2 ^ 12)) % 2 ^ 64) flags q)
        (map_anon_page root_pa va flags p)

-- the page of a user's entry given back
unfoldable pub free_user_page : ℕ → Pmm → Pmm
unfolding pte_pa
free_user_page pte p =
    if not (bit_and pte pte_v == 0) && not (bit_and pte pte_u == 0) then free (pte_pa pte) p else p

-- one round of unmap
unfoldable pub unmap_page : ℕ → ℕ → Pmm → KResult ℕ × Pmm
unfolding then_with walk free_user_page write_word
unmap_page root_pa va p =
    then_with (walk root_pa va 0 false p)
      (λ slot q. (ok slot, write_word slot 0 (free_user_page (q.memory slot) q)))

-- `while remaining > 0` of unmap
unfoldable pub unmap_loop : ℕ → ℕ → ℕ → ℕ → Pmm → Option (KResult ℕ × Pmm)
unfolding unmap_page map_next
unmap_loop zero root_pa va remaining p = none
unmap_loop (suc fuel) root_pa va remaining p =
    if remaining == 0
    then some (ok 0, p)
    else map_next
        (λ q.
          unmap_loop fuel root_pa ((va + 2 ^ 12) % 2 ^ 64)
            ((remaining + (2 ^ 64 - 2 ^ 12)) % 2 ^ 64) q)
        (unmap_page root_pa va p)

-- The offset within a page of `level`, and where it lies: translate, or translate_user.
unfoldable pub leaf_addr : Bool → ℕ → ℕ → ℕ → ℕ
unfolding pte_pa
leaf_addr user level vaddr pte =
    if user && (bit_and pte pte_u == 0)
    then 0
    else (pte_pa pte + vaddr % 2 ^ (12 + 9 * level)) % 2 ^ 64

unfoldable pub translate_from : Bool → ℕ → ℕ → ℕ → (ℕ → ℕ) → ℕ
unfolding leaf_addr entry_addr pte_pa
translate_from user vaddr zero table memory =
    let pte = memory (entry_addr table 0 vaddr) in
    if bit_and pte pte_v == 0
    then 0
    else if not (bit_and pte pte_leaf == 0)
    then leaf_addr user 0 vaddr pte
    else 0
translate_from user vaddr (suc level) table memory =
    let pte = memory (entry_addr table (suc level) vaddr) in
    let below = translate_from user vaddr level (pte_pa pte) memory in
    if bit_and pte pte_v == 0
    then 0
    else if not (bit_and pte pte_leaf == 0)
    then leaf_addr user (suc level) vaddr pte
    else below

unfoldable pub translate : ℕ → ℕ → Pmm → ℕ
unfolding translate_from
translate root_pa vaddr p = translate_from false vaddr 2 root_pa p.memory

unfoldable pub translate_user : ℕ → ℕ → Pmm → ℕ
unfolding translate_from
translate_user root_pa vaddr p = translate_from true vaddr 2 root_pa p.memory
