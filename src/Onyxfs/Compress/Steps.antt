-- ===== src/Onyxfs/Compress/Steps.antt =====
-- What the counting loops of the compressor find, and one packet of the decompressor.
use slipper_kernel.Prelude.{
  ℕ, zero, suc, ◌+◌, ◌-◌, ◌≤◌, ◌<◌, List, [], ◌∷◌, ◌++◌, Bool, true, false, ltb, ◌==◌, not, ◌&&◌,
  length, take, replicate, bit_and, bit_or, ◌≡◌, refl, inl, inr, arith, Bool-cases, ==_iff,
  length-append, take-append, drop-append,
}
use slipper_kernel.Onyxfs.Compress.{count_equal, literal_length, decompress_loop}

-- `count_equal` counts equal bytes at the front, to the limit at most.
pub record Counted (limit cur : ℕ) (rest : List ℕ) (run total : ℕ) : Type 0 where
  pub more : ℕ
  pub sum : total ≡ run + more
  pub bound : more ≤ length rest
  pub within : total ≤ limit
  pub equal : take more rest ≡ replicate more cur

pub count_equal-Counted :
    (limit cur : ℕ) (rest : List ℕ) (run : ℕ)
    → run ≤ limit
    → Counted limit cur rest run (count_equal limit cur rest run)
unfolding count_equal
count_equal-Counted limit cur [] run h = record {
  more = 0;
  sum = omega arith;
  bound = omega arith;
  within = h;
  equal = refl;
}
count_equal-Counted limit cur (b ∷ rest) run h = elim (Bool-cases ((b == cur) && ltb run limit)) [
  | inl go ↦
      let r = count_equal-Counted limit cur rest (run + 1) (ground arith) in
      rw go (record {
        more = suc r.more;
        sum = omega (arith, r.sum);
        bound = omega (arith, r.bound);
        within = r.within;
        equal = ground (arith, r.equal);
      })
  | inr stop ↦
      rw stop
        (record { more = 0; sum = omega arith; bound = omega arith; within = h; equal = refl })
]

pub literal_length_bounds :
    (rest : List ℕ) (lit_len : ℕ)
    → lit_len ≤ 128
    → (lit_len ≤ literal_length rest lit_len)
      × (literal_length rest lit_len ≤ 128)
      × (literal_length rest lit_len ≤ lit_len + length rest)
unfolding literal_length
literal_length_bounds [] lit_len h = omega arith
literal_length_bounds (b ∷ rest) lit_len h =
    ground (arith, literal_length_bounds rest (lit_len + 1))

-- Tag bytes, checked for every count.
all_below : ℕ → (ℕ → Bool) → Bool
all_below zero p = true
all_below (suc n) p = p n && all_below n p

all_below-lt : (n : ℕ) (p : ℕ → Bool) (x : ℕ) → all_below n p ≡ true → x < n → p x ≡ true
unfolding all_below
all_below-lt zero p x h lt = absurd (omega arith)
all_below-lt (suc n) p x h lt = ground (arith, all_below-lt n p x)

run_tags : all_below 128 (λ r. not (bit_and (bit_or 0x80 r) 0x80 == 0)) ≡ true
unfolding all_below
run_tags = refl

run_counts : all_below 128 (λ r. bit_and (bit_or 0x80 r) 0x7f == r) ≡ true
unfolding all_below
run_counts = refl

literal_tags : all_below 128 (λ r. bit_and r 0x80 == 0) ≡ true
unfolding all_below
literal_tags = refl

pub run_tag : (r : ℕ) → r < 128 → (bit_and (bit_or 0x80 r) 0x80 == 0) ≡ false
run_tag r h =
    ground (arith, all_below-lt 128 (λ r. not (bit_and (bit_or 0x80 r) 0x80 == 0)) r run_tags h)

pub run_count : (r : ℕ) → r < 128 → bit_and (bit_or 0x80 r) 0x7f ≡ r
run_count r h = (==_iff _ r).0 (all_below-lt 128 _ r run_counts h)

pub literal_tag : (r : ℕ) → r < 128 → bit_and r 0x80 ≡ 0
literal_tag r h = (==_iff _ 0).0 (all_below-lt 128 _ r literal_tags h)

-- A run packet is read back as the run.
pub decompress-run :
    (fuel cap run val : ℕ) (enc out : List ℕ)
    → 0 < run
    → run ≤ 128
    → length out + run ≤ cap
    → decompress_loop (suc fuel) cap (bit_or 0x80 (run - 1) ∷ val ∷ enc) out
      ≡ decompress_loop fuel cap enc (out ++ replicate run val)
unfolding decompress_loop
decompress-run fuel cap run val enc out pos small fits =
    let e : run - 1 + 1 ≡ run = omega arith in
    rw (run_count (run - 1) (omega arith), run_tag (run - 1) (omega arith), e) (ground arith)

-- A literal packet is read back as its bytes.
pub decompress-literal :
    (fuel cap lit : ℕ) (bytes enc out : List ℕ)
    → lit ≡ length bytes
    → 0 < lit
    → lit ≤ 128
    → length out + lit ≤ cap
    → decompress_loop (suc fuel) cap ((lit - 1) ∷ bytes ++ enc) out
      ≡ decompress_loop fuel cap enc (out ++ bytes)
decompress-literal fuel cap lit [] enc out e pos small fits = absurd (omega arith)
decompress-literal fuel cap lit (b ∷ bytes) enc out e pos small fits =
    let e' : lit - 1 + 1 ≡ suc (length bytes) = omega arith in
    unfold decompress_loop in
    rw
      (
        literal_tag (lit - 1) (omega arith),
        e',
        take-append bytes enc (length bytes) refl,
        drop-append bytes enc (length bytes) refl,
      )
      (ground (arith, length-append bytes enc))
