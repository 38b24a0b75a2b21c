-- ===== src/Mm/Vmm/Words.antt =====
-- kernel/src/mm/vmm and kernel/src/arch/regs.rs: the fields of a page-table entry.
use slipper_kernel.Prelude.{
  ℕ, ◌+◌, ◌-◌, ◌*◌, ◌/◌, ◌%◌, ◌^◌, ◌<◌, false, ◌==◌, ◌≡◌, refl, ap, ◌∙◌, arith, bit, bit_and,
  bit_or, bit-lt, bit-bit_and, bit-bit_or, bit-nonzero, bit-pow, bit_or-lt, bit_or-shift,
  bit_or_comm, bit_and-ones, bit_and-shift,
}
use slipper_kernel.Mm.Vmm.{pte_v, pte_leaf, pte_ppn_mask, pte_pa, make_pte}

-- The entry as a sum: the page number from bit 10 on, the flags below.
make_pte_sum :
    (flags pa : ℕ)
    → flags < 2 ^ 10
    → pa < 2 ^ 56
    → make_pte flags pa ≡ pa / 2 ^ 12 * 2 ^ 10 + bit_or pte_v flags
unfolding make_pte
make_pte_sum flags pa small low =
    let whole : pa / 2 ^ 12 * 2 ^ 10 % 2 ^ 64 ≡ pa / 2 ^ 12 * 2 ^ 10 = omega arith in
    ap (λ (x : ℕ). bit_or (bit_or pte_v flags) x) whole
    ∙ bit_or_comm (bit_or pte_v flags) (pa / 2 ^ 12 * 2 ^ 10)
    ∙ bit_or-shift 10 (pa / 2 ^ 12) (bit_or pte_v flags)
        (bit_or-lt 10 pte_v flags (omega arith) small)

-- An entry made for an address gives its page.
pub pte_pa-make_pte :
    (flags pa : ℕ)
    → flags < 2 ^ 10
    → pa < 2 ^ 56
    → pte_pa (make_pte flags pa) ≡ pa / 2 ^ 12 * 2 ^ 12
unfolding pte_pa
pte_pa-make_pte flags pa small low =
    let flag_bits : bit_or pte_v flags < 2 ^ 10 = bit_or-lt 10 pte_v flags (omega arith) small in
    let page : bit_and (make_pte flags pa) pte_ppn_mask ≡ pa / 2 ^ 12 * 2 ^ 10 =
      ap (λ (x : ℕ). bit_and x pte_ppn_mask) (make_pte_sum flags pa small low)
      ∙ bit_and-shift 10 (pa / 2 ^ 12) (bit_or pte_v flags) (2 ^ 44 - 1) flag_bits
      ∙ ap (λ (x : ℕ). x * 2 ^ 10) (bit_and-ones 44 (pa / 2 ^ 12) (omega arith)) in
    rw page (omega arith)

bit-make_pte : (flags pa k : ℕ) → k < 10 → bit flags k ≡ 1 → bit (make_pte flags pa) k ≡ 1
unfolding make_pte
bit-make_pte flags pa k h set = omega (
  arith,
  bit-bit_or (bit_or pte_v flags) (pa / 2 ^ 12 * 2 ^ 10 % 2 ^ 64) k,
  bit-bit_or pte_v flags k,
  bit-lt (pa / 2 ^ 12 * 2 ^ 10 % 2 ^ 64) k,
  bit-lt pte_v k,
)

pub make_pte-valid : (flags pa : ℕ) → (bit_and (make_pte flags pa) pte_v == 0) ≡ false
unfolding make_pte
make_pte-valid flags pa = bit-nonzero (bit_and (make_pte flags pa) pte_v) 0 (
    omega (
      arith,
      bit-bit_and (make_pte flags pa) pte_v 0,
      bit-bit_or (bit_or pte_v flags) (pa / 2 ^ 12 * 2 ^ 10 % 2 ^ 64) 0,
      bit-bit_or pte_v flags 0,
      bit-pow 0 0,
      bit-lt (pa / 2 ^ 12 * 2 ^ 10 % 2 ^ 64) 0,
      bit-lt flags 0,
    ))

-- A readable entry is a leaf.
pub make_pte-leaf :
    (flags pa : ℕ) → bit flags 1 ≡ 1 → (bit_and (make_pte flags pa) pte_leaf == 0) ≡ false
make_pte-leaf flags pa readable = bit-nonzero (bit_and (make_pte flags pa) pte_leaf) 1 (
    omega (
      arith,
      bit-bit_and (make_pte flags pa) pte_leaf 1,
      bit-make_pte flags pa 1 (omega arith) readable,
      ten,
    ))
  where
    ten : bit pte_leaf 1 ≡ 1
    ten = bit-bit_or (2 ^ 1) (2 ^ 3) 1 ∙ rw (bit-pow 1 1, bit-pow 3 1) refl
