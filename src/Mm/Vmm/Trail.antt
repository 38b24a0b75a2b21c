-- ===== src/Mm/Vmm/Trail.antt =====
-- kernel/src/mm/vmm: a mapping that map_one makes is what the translations find.
use slipper_kernel.Prelude.{
  ℕ, zero, suc, ◌+◌, ◌*◌, ◌/◌, ◌%◌, ◌^◌, ◌≤◌, ◌<◌, leb, Bool, true, false, ◌==◌, ◌≡◌, ◌≢◌, ◌⊎◌, inl,
  inr, refl, sym, ap, ◌∙◌, arith, bit, bit_and, if◌then◌else◌, ◌&&◌,
}
use slipper_kernel.Core.Errno.{ok}
use slipper_kernel.Mm.Pmm.{Pmm}
use slipper_kernel.Mm.Vmm.{
  pte_v, pte_u, pte_leaf, pte_pa, make_pte, entry_addr, write_word, then_with, next_table,
  walk_from, walk, map_one, leaf_addr, translate_from, translate, translate_user,
}
use slipper_kernel.Mm.Vmm.Words.{pte_pa-make_pte, make_pte-valid, make_pte-leaf}

-- The tables for `vaddr` are in place down to `leaf`, whose entry is at `slot`; no entry above it is
-- at that address.
unfoldable pub Trail : (ℕ → ℕ) → ℕ → ℕ → ℕ → ℕ → ℕ → Type 0
Trail memory vaddr leaf slot zero table = (leaf ≡ 0) × (slot ≡ entry_addr table 0 vaddr)
Trail memory vaddr leaf slot (suc level) table =
    ((suc level ≡ leaf) × (slot ≡ entry_addr table (suc level) vaddr))
    ⊎ ((leaf ≤ level)
        × ((bit_and (memory (entry_addr table (suc level) vaddr)) pte_v == 0) ≡ false)
        × ((bit_and (memory (entry_addr table (suc level) vaddr)) pte_leaf == 0) ≡ true)
        × (entry_addr table (suc level) vaddr ≢ slot)
        × Trail memory vaddr leaf slot level (pte_pa (memory (entry_addr table (suc level) vaddr))))

next_table-present :
    (create : Bool) (level addr : ℕ) (p : Pmm)
    → (bit_and (p.memory addr) pte_v == 0) ≡ false
    → (bit_and (p.memory addr) pte_leaf == 0) ≡ true
    → next_table create level addr p ≡ (ok (pte_pa (p.memory addr)), p)
unfolding next_table
next_table-present create level addr p valid table = rw (valid, table) refl

pub walk_from-Trail :
    (create : Bool) (vaddr leaf slot level table : ℕ) (p : Pmm)
    → Trail p.memory vaddr leaf slot level table
    → walk_from create leaf vaddr level table p ≡ (ok slot, p)
unfolding walk_from Trail
walk_from-Trail create vaddr leaf slot zero table p (at, e) = ap (λ (a : ℕ). (ok a, p)) (sym e)
walk_from-Trail create vaddr leaf slot (suc level) table p (inl (at, e)) =
    let stops : (suc level == leaf) ≡ true = ground arith in
    rw stops (ap (λ (a : ℕ). (ok a, p)) (ap (λ (l : ℕ). entry_addr table l vaddr) (sym at) ∙ sym e))
walk_from-Trail create vaddr leaf slot (suc level) table p
      (inr (above, valid, pointer, apart, trail)) =
    let goes_on : (suc level == leaf) ≡ false = ground arith in
    rw
      (
        goes_on,
        next_table-present create (suc level) (entry_addr table (suc level) vaddr) p valid pointer,
      )
      (unfold then_with in
        walk_from-Trail create vaddr leaf slot level
          (pte_pa (p.memory (entry_addr table (suc level) vaddr))) p trail)

pub write_word-same : (addr word : ℕ) (p : Pmm) → (write_word addr word p).memory addr ≡ word
unfolding write_word
write_word-same addr word p = let e : (addr == addr) ≡ true = ground arith in rw e refl

pub write_word-ne :
    (addr word a : ℕ) (p : Pmm) → a ≢ addr → (write_word addr word p).memory a ≡ p.memory a
unfolding write_word
write_word-ne addr word a p h = let e : (a == addr) ≡ false = ground arith in rw e refl

-- With a leaf written at the end of the trail, the translation is the leaf's.
translate_from-Trail :
    (user : Bool) (vaddr leaf slot word level table : ℕ) (p : Pmm)
    → (bit_and word pte_v == 0) ≡ false
    → (bit_and word pte_leaf == 0) ≡ false
    → Trail p.memory vaddr leaf slot level table
    → translate_from user vaddr level table ((write_word slot word p).memory)
      ≡ leaf_addr user leaf vaddr word
unfolding translate_from Trail
translate_from-Trail user vaddr leaf slot word zero table p valid is_leaf (at, e) =
    let here : (write_word slot word p).memory (entry_addr table 0 vaddr) ≡ word =
      ap (λ (a : ℕ). (write_word slot word p).memory a) (sym e) ∙ write_word-same slot word p in
    rw (here, valid, is_leaf) (ap (λ (l : ℕ). leaf_addr user l vaddr word) (sym at))
translate_from-Trail user vaddr leaf slot word (suc level) table p valid is_leaf (inl (at, e)) =
    let here : (write_word slot word p).memory (entry_addr table (suc level) vaddr) ≡ word =
      ap (λ (a : ℕ). (write_word slot word p).memory a) (sym e) ∙ write_word-same slot word p in
    rw (here, valid, is_leaf) (ap (λ (l : ℕ). leaf_addr user l vaddr word) at)
translate_from-Trail user vaddr leaf slot word (suc level) table p valid is_leaf
      (inr (above, present, pointer, apart, trail)) =
    rw (write_word-ne slot word (entry_addr table (suc level) vaddr) p apart, present, pointer)
      (translate_from-Trail user vaddr leaf slot word level
        (pte_pa (p.memory (entry_addr table (suc level) vaddr))) p valid is_leaf trail)

-- Where the tables down to `leaf` are in place, map_one of a readable page succeeds and changes
-- only the entry of that level; afterwards translate gives the physical page with the offset of
-- the virtual address in it, and translate_user gives the same when the mapping is the user's and 0
-- when it is not.
pub translate-map_one :
    (root vaddr pa flags leaf slot : ℕ) (p : Pmm)
    → leaf ≤ 2
    → flags < 2 ^ 10
    → bit flags 1 ≡ 1
    → pa < 2 ^ 56
    → Trail p.memory vaddr leaf slot 2 root
    → (map_one root vaddr pa flags leaf p ≡ (ok slot, write_word slot (make_pte flags pa) p))
      × (translate root vaddr (write_word slot (make_pte flags pa) p)
          ≡ (pa / 2 ^ 12 * 2 ^ 12 + vaddr % 2 ^ (12 + 9 * leaf)) % 2 ^ 64)
      × (translate_user root vaddr (write_word slot (make_pte flags pa) p) ≡ (
          if bit_and (make_pte flags pa) pte_u == 0
          then 0
          else (pa / 2 ^ 12 * 2 ^ 12 + vaddr % 2 ^ (12 + 9 * leaf)) % 2 ^ 64))
unfolding map_one walk translate translate_user then_with
translate-map_one root vaddr pa flags leaf slot p small flag_bits readable low trail =
    let level : leb leaf 2 ≡ true = ground arith in
    (
      rw (level, walk_from-Trail true vaddr leaf slot 2 root p trail) refl,
      found false ∙ leaf_of false,
      found true ∙ leaf_of true,
    )
  where
    pte : ℕ
    pte = make_pte flags pa

    found :
        (user : Bool)
        → translate_from user vaddr 2 root ((write_word slot pte p).memory)
          ≡ leaf_addr user leaf vaddr pte
    found user =
        translate_from-Trail user vaddr leaf slot pte 2 root p (make_pte-valid flags pa)
          (make_pte-leaf flags pa readable) trail

    leaf_of :
        (user : Bool)
        → leaf_addr user leaf vaddr pte ≡ (
            if user && (bit_and pte pte_u == 0)
            then 0
            else (pa / 2 ^ 12 * 2 ^ 12 + vaddr % 2 ^ (12 + 9 * leaf)) % 2 ^ 64)
    leaf_of user = unfold leaf_addr in rw (pte_pa-make_pte flags pa flag_bits low) refl
