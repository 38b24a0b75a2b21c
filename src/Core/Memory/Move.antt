-- ===== src/Core/Memory/Move.antt =====
-- core/src/string.rs: memmove copies right however the two ranges overlap.
use slipper_kernel.Prelude.{
  ℕ, zero, suc, ◌+◌, ◌-◌, ◌≤◌, ◌<◌, ltb, leb, ◌&&◌, ◌==◌, ◌≡◌, ◌≢◌, ◌⊎◌, inl, inr, refl, sym, ap,
  ◌∙◌, arith, Bool-cases, true, false, if◌then◌else◌,
}
use slipper_kernel.Core.Memory.{store, memcpy_from, memcpy, move_back, memmove}

store-same : (p byte : ℕ) (memory : ℕ → ℕ) → store p byte memory p ≡ byte
unfolding store
store-same p byte memory = let e : (p == p) ≡ true = ground arith in rw e refl

store-ne : (p byte : ℕ) (memory : ℕ → ℕ) (a : ℕ) → a ≢ p → store p byte memory a ≡ memory a
unfolding store
store-ne p byte memory a h = let e : (a == p) ≡ false = ground arith in rw e refl

memcpy_from-outside :
    (left dst src i : ℕ) (memory : ℕ → ℕ) (a : ℕ)
    → (a < dst + i) ⊎ (dst + i + left ≤ a)
    → memcpy_from dst src i left memory a ≡ memory a
unfolding memcpy_from
memcpy_from-outside zero dst src i memory a h = refl
memcpy_from-outside (suc left) dst src i memory a (inl h) =
    memcpy_from-outside left dst src (i + 1) (store (dst + i) (memory (src + i)) memory) a
      (inl (omega arith))
    ∙ store-ne (dst + i) (memory (src + i)) memory a (λ e. omega arith)
memcpy_from-outside (suc left) dst src i memory a (inr h) =
    memcpy_from-outside left dst src (i + 1) (store (dst + i) (memory (src + i)) memory) a
      (inr (omega arith))
    ∙ store-ne (dst + i) (memory (src + i)) memory a (λ e. omega arith)

-- Forwards, with the destination below the source.
memcpy_from-inside :
    (left dst src i k : ℕ) (memory : ℕ → ℕ)
    → dst < src
    → i ≤ k
    → k < i + left
    → memcpy_from dst src i left memory (dst + k) ≡ memory (src + k)
unfolding memcpy_from
memcpy_from-inside zero dst src i k memory below low high = absurd (omega arith)
memcpy_from-inside (suc left) dst src i k memory below low high = elim (Bool-cases (i == k)) [
  | inl at ↦
      let e : k ≡ i = ground arith in
      memcpy_from-outside left dst src (i + 1) (store (dst + i) (memory (src + i)) memory) (dst + k)
        (inl (omega arith))
      ∙ ap (λ (j : ℕ). store (dst + i) (memory (src + i)) memory (dst + j)) e
      ∙ store-same (dst + i) (memory (src + i)) memory
      ∙ ap (λ (j : ℕ). memory (src + j)) (sym e)
  | inr later ↦
      memcpy_from-inside left dst src (i + 1) k (store (dst + i) (memory (src + i)) memory) below
        (ground arith) (omega arith)
      ∙ store-ne (dst + i) (memory (src + i)) memory (src + k) (λ e. omega arith)
]

move_back-outside :
    (n dst src : ℕ) (memory : ℕ → ℕ) (a : ℕ)
    → (a < dst) ⊎ (dst + n ≤ a)
    → move_back dst src n memory a ≡ memory a
unfolding move_back
move_back-outside zero dst src memory a h = refl
move_back-outside (suc n) dst src memory a (inl h) =
    move_back-outside n dst src (store (dst + n) (memory (src + n)) memory) a (inl h)
    ∙ store-ne (dst + n) (memory (src + n)) memory a (λ e. omega arith)
move_back-outside (suc n) dst src memory a (inr h) =
    move_back-outside n dst src (store (dst + n) (memory (src + n)) memory) a (inr (omega arith))
    ∙ store-ne (dst + n) (memory (src + n)) memory a (λ e. omega arith)

-- Backwards, with the destination above the source.
move_back-inside :
    (n dst src k : ℕ) (memory : ℕ → ℕ)
    → src < dst
    → k < n
    → move_back dst src n memory (dst + k) ≡ memory (src + k)
unfolding move_back
move_back-inside zero dst src k memory above high = absurd (omega arith)
move_back-inside (suc n) dst src k memory above high = elim (Bool-cases (n == k)) [
  | inl at ↦
      let e : k ≡ n = ground arith in
      move_back-outside n dst src (store (dst + n) (memory (src + n)) memory) (dst + k)
        (inr (omega arith))
      ∙ ap (λ (j : ℕ). store (dst + n) (memory (src + n)) memory (dst + j)) e
      ∙ store-same (dst + n) (memory (src + n)) memory
      ∙ ap (λ (j : ℕ). memory (src + j)) (sym e)
  | inr earlier ↦
      move_back-inside n dst src k (store (dst + n) (memory (src + n)) memory) above (ground arith)
      ∙ store-ne (dst + n) (memory (src + n)) memory (src + k) (λ e. omega arith)
]

memmove-inside_outside :
    (dst src n : ℕ) (memory : ℕ → ℕ)
    → ((k : ℕ) → k < n → memmove dst src n memory (dst + k) ≡ memory (src + k))
      × ((a : ℕ) → (a < dst) ⊎ (dst + n ≤ a) → memmove dst src n memory a ≡ memory a)
unfolding memmove memcpy
memmove-inside_outside dst src n memory = elim (Bool-cases (ltb dst src)) [
  | inl below ↦
      let less : dst < src = ground arith in
      rw below (
        (λ k h. memcpy_from-inside n dst src 0 k memory less (omega arith) (omega arith)),
        (λ a h. memcpy_from-outside n dst src 0 memory a (from_0 a h)),
      )
  | inr not_below ↦ elim (Bool-cases (ltb src dst)) [
    | inl above ↦
        let more : src < dst = ground arith in
        rw (not_below, above)
          (
            (λ k h. move_back-inside n dst src k memory more h),
            (λ a h. move_back-outside n dst src memory a h),
          )
    | inr not_above ↦
        let same : dst ≡ src = ground arith in
        rw (not_below, not_above) ((λ k h. ap (λ (d : ℕ). memory (d + k)) same), (λ a h. refl))
  ]
]
  where
    from_0 : (a : ℕ) → (a < dst) ⊎ (dst + n ≤ a) → (a < dst + 0) ⊎ (dst + 0 + n ≤ a)
    from_0 a (inl h) = inl (omega arith)
    from_0 a (inr h) = inr (omega arith)

-- After memmove every byte of the destination is what the byte of the source at its index was
-- before, however the two ranges overlap, and no byte outside the destination has changed.
pub memmove_lem :
    (dst src n : ℕ) (memory : ℕ → ℕ) (a : ℕ)
    → memmove dst src n memory a
      ≡ (if leb dst a && ltb a (dst + n) then memory (src + (a - dst)) else memory a)
memmove_lem dst src n memory a = elim (Bool-cases (leb dst a)) [
  | inl from ↦ elim (Bool-cases (ltb a (dst + n))) [
    | inl before ↦
        let e : dst + (a - dst) ≡ a = ground arith in
        rw (from, before)
          (ap (memmove dst src n memory) (sym e)
            ∙ (memmove-inside_outside dst src n memory).0 (a - dst) (ground arith))
    | inr past ↦
        let after : dst + n ≤ a = ground arith in
        rw (from, past) ((memmove-inside_outside dst src n memory).1 a (inr after))
  ]
  | inr short ↦
      let less : a < dst = ground arith in
      rw short ((memmove-inside_outside dst src n memory).1 a (inl less))
]
