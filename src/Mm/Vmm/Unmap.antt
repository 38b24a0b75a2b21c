-- ===== src/Mm/Vmm/Unmap.antt =====
-- kernel/src/mm/vmm/unmap.rs: what is unmapped is not translated any more.
use slipper_kernel.Prelude.{
  ℕ, zero, suc, ◌≡◌, inl, inr, refl, sym, ap, ◌∙◌, Bool, true, false, not, ◌==◌, ◌&&◌, Bool-cases,
  bit_and, subst,
}
use slipper_kernel.Core.Errno.{ok}
use slipper_kernel.Mm.Pmm.{Pmm}
use slipper_kernel.Mm.Pmm.Free.{free-memory}
use slipper_kernel.Mm.Vmm.{
  pte_v, pte_u, pte_pa, entry_addr, write_word, then_with, walk, free_user_page, unmap_page,
  translate_from, translate, translate_user,
}
use slipper_kernel.Mm.Vmm.Trail.{Trail, walk_from-Trail, write_word-same, write_word-ne}

free_user_page-memory : (pte : ℕ) (p : Pmm) → (free_user_page pte p).memory ≡ p.memory
unfolding free_user_page
free_user_page-memory pte p =
    elim (Bool-cases (not (bit_and pte pte_v == 0) && not (bit_and pte pte_u == 0))) [
      | inl owned ↦ rw owned (free-memory (pte_pa pte) p)
      | inr other ↦ rw other refl
    ]

-- With 0 written at the end of the trail there is no translation.
translate_from-cleared :
    (user : Bool) (vaddr leaf slot level table : ℕ) (p : Pmm)
    → Trail p.memory vaddr leaf slot level table
    → translate_from user vaddr level table ((write_word slot 0 p).memory) ≡ 0
unfolding translate_from Trail
translate_from-cleared user vaddr leaf slot zero table p (at, e) =
    let here : (write_word slot 0 p).memory (entry_addr table 0 vaddr) ≡ 0 =
      ap (λ (a : ℕ). (write_word slot 0 p).memory a) (sym e) ∙ write_word-same slot 0 p in
    rw here refl
translate_from-cleared user vaddr leaf slot (suc level) table p (inl (at, e)) =
    let here : (write_word slot 0 p).memory (entry_addr table (suc level) vaddr) ≡ 0 =
      ap (λ (a : ℕ). (write_word slot 0 p).memory a) (sym e) ∙ write_word-same slot 0 p in
    rw here refl
translate_from-cleared user vaddr leaf slot (suc level) table p
      (inr (above, present, pointer, apart, trail)) =
    rw (write_word-ne slot 0 (entry_addr table (suc level) vaddr) p apart, present, pointer)
      (translate_from-cleared user vaddr leaf slot level
        (pte_pa (p.memory (entry_addr table (suc level) vaddr))) p trail)

-- Where the tables down to the 4 KiB entry of an address are in place, one round of unmap succeeds,
-- and afterwards neither translate nor translate_user finds the address.
pub translate-unmap_page :
    (root vaddr slot : ℕ) (p : Pmm)
    → Trail p.memory vaddr 0 slot 2 root
    → (unmap_page root vaddr p ≡ (ok slot, write_word slot 0 (free_user_page (p.memory slot) p)))
      × (translate root vaddr (write_word slot 0 (free_user_page (p.memory slot) p)) ≡ 0)
      × (translate_user root vaddr (write_word slot 0 (free_user_page (p.memory slot) p)) ≡ 0)
unfolding unmap_page walk translate translate_user then_with
translate-unmap_page root vaddr slot p trail =
    (rw (walk_from-Trail false vaddr 0 slot 2 root p trail) refl, cleared false, cleared true)
  where
    freed : Pmm
    freed = free_user_page (p.memory slot) p

    cleared :
        (user : Bool) → translate_from user vaddr 2 root ((write_word slot 0 freed).memory) ≡ 0
    cleared user = translate_from-cleared user vaddr 0 slot 2 root freed (
        subst (λ (memory : ℕ → ℕ). Trail memory vaddr 0 slot 2 root)
          (sym (free_user_page-memory (p.memory slot) p)) trail)
