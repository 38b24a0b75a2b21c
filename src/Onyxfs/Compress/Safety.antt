-- ===== src/Onyxfs/Compress/Safety.antt =====
-- Both directions, on any input: they end, and write inside the destination.
use slipper_kernel.Prelude.{
  ℕ, zero, suc, ◌+◌, ◌-◌, ◌≤◌, ◌<◌, List, [], ◌∷◌, ◌++◌, Bool, not, true, false, refl, ◌≡◌,
  if◌then◌else◌, ltb, leb, ◌==◌, ◌||◌, length, take, drop, replicate, bit_and, bit_or, arith,
  length-drop, length-append, length-replicate, length-take,
}
use slipper_kernel.Onyxfs.Compress.{
  count_equal, literal_length, at_least_one, compress_loop, rle_compress, decompress_loop,
  rle_decompress, Outcome, done, full, no_fuel,
}
use slipper_kernel.Onyxfs.Compress.Steps.{count_equal-Counted}

-- The code returned, and what it wrote fits `cap`.
abbrev pub Within : ℕ → Outcome → Type 0
Within cap (done out) = length out ≤ cap
Within cap full = Unit
Within cap no_fuel = ⊥

Within-if :
    (cap : ℕ) (b : Bool) (x y : Outcome)
    → (b ≡ true → Within cap x)
    → (b ≡ false → Within cap y)
    → Within cap (if b then x else y)
Within-if cap true x y f g = f refl
Within-if cap false x y f g = g refl

-- The next round of either loop has the fuel and the room, by its tests.
decompress_loop-Within :
    (fuel cap : ℕ) (src out : List ℕ)
    → length src ≤ fuel
    → length out ≤ cap
    → Within cap (decompress_loop fuel cap src out)
unfolding decompress_loop
decompress_loop-Within fuel cap [] out h fits = fits
decompress_loop-Within zero cap (tag ∷ rest) out h fits = absurd (omega arith)
decompress_loop-Within (suc fuel) cap (tag ∷ []) out h fits =
    Within-if cap (ltb (length out) cap) full (done out) (λ _. tt) (λ _. fits)
decompress_loop-Within (suc fuel) cap (tag ∷ val ∷ rest) out h fits =
    let run = bit_and tag 0x7f + 1 in
    let lit = tag + 1 in
    let grown = length-append out (replicate run val) in
    let count = length-replicate run val in
    let copied = length-append out (take lit (val ∷ rest)) in
    let taken = length-take lit (val ∷ rest) in
    let left = length-drop lit (val ∷ rest) in
    Within-if cap (ltb (length out) cap) _ (done out)
      (λ _.
        Within-if cap (not (bit_and tag 0x80 == 0)) _ _
          (λ _.
            Within-if cap (ltb cap (length out + run)) full _ (λ _. tt)
              λ room.
                decompress_loop-Within fuel cap rest (out ++ replicate run val) (omega arith)
                  (ground arith))
          (λ _.
            Within-if cap (ltb (length (val ∷ rest)) lit || ltb cap (length out + lit)) full _
              (λ _. tt)
              λ room.
                decompress_loop-Within fuel cap (drop lit (val ∷ rest))
                  (out ++ take lit (val ∷ rest)) (omega arith) (ground arith)))
      (λ _. fits)

compress_loop-Within :
    (fuel cap : ℕ) (src out : List ℕ)
    → length src ≤ fuel
    → length out ≤ cap
    → Within cap (compress_loop fuel cap src out)
unfolding compress_loop
compress_loop-Within fuel cap [] out h fits = fits
compress_loop-Within zero cap (cur ∷ rest) out h fits = absurd (omega arith)
compress_loop-Within (suc fuel) cap (cur ∷ rest) out h fits =
    let run = count_equal 128 cur rest 1 in
    let lit = at_least_one (literal_length (cur ∷ rest) 0) in
    let c = count_equal-Counted 128 cur rest 1 (omega arith) in
    let pos : 0 < run = omega (arith, c.sum) in
    let lit_pos : 0 < lit = ground arith in
    let grown = length-append out (bit_or 0x80 (run - 1) ∷ cur ∷ []) in
    let copied = length-append out ((lit - 1) ∷ take lit (cur ∷ rest)) in
    let taken = length-take lit (cur ∷ rest) in
    let left = length-drop lit (cur ∷ rest) in
    let after = length-drop run (cur ∷ rest) in
    Within-if cap (leb 3 run) _ _
      (λ _.
        Within-if cap (ltb cap (length out + 2)) full _ (λ _. tt)
          λ room.
            compress_loop-Within fuel cap (drop run (cur ∷ rest))
              (out ++ bit_or 0x80 (run - 1) ∷ cur ∷ []) (omega arith) (ground arith))
      (λ _.
        Within-if cap (ltb cap (length out + 1 + lit)) full _ (λ _. tt)
          λ room.
            compress_loop-Within fuel cap (drop lit (cur ∷ rest))
              (out ++ (lit - 1) ∷ take lit (cur ∷ rest)) (omega arith) (ground arith))

-- On any input, well formed or not, the decompressor ends and writes inside its buffer.
pub rle_decompress-Within : (src : List ℕ) (cap : ℕ) → Within cap (rle_decompress src cap)
unfolding rle_decompress
rle_decompress-Within src cap =
    decompress_loop-Within (length src) cap src [] (omega arith) (omega arith)

-- On any input and for any capacity, the compressor ends and writes inside its buffer.
pub rle_compress-Within : (src : List ℕ) (cap : ℕ) → Within cap (rle_compress src cap)
unfolding rle_compress
rle_compress-Within src cap =
    compress_loop-Within (length src) cap src [] (omega arith) (omega arith)
