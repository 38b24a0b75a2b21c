-- ===== src/Onyxfs/Compress/RoundTrip.antt =====
-- Decompressing what the compressor wrote gives the input back.
use slipper_kernel.Prelude.{
  ℕ, zero, suc, ◌+◌, ◌-◌, ◌≤◌, ◌<◌, List, [], ◌∷◌, ◌++◌, leb, length, take, drop, replicate, bit_or,
  ◌≡◌, ap, sym, ◌∙◌, inl, inr, arith, take-append-drop, Bool-cases, length-take, length-append,
  append-nil, append_assoc, length-replicate,
}
use slipper_kernel.Onyxfs.Compress.{
  count_equal, literal_length, at_least_one, compress_loop, rle_compress, decompress_loop,
  rle_decompress, done,
}
use slipper_kernel.Onyxfs.Compress.Steps.{
  count_equal-Counted, literal_length_bounds, decompress-run, decompress-literal,
}

-- `enc` decodes to `rest`, behind any output and under any sufficient capacity.
abbrev Decodes : List ℕ → List ℕ → Type 0
Decodes enc rest =
    (fuel cap : ℕ) (out : List ℕ)
    → length enc ≤ fuel
    → length out + length rest ≤ cap
    → decompress_loop fuel cap enc out ≡ done (out ++ rest)

Decodes-nil : Decodes [] []
unfolding decompress_loop
Decodes-nil zero cap out h fits = rw append-nil
Decodes-nil (suc fuel) cap out h fits = rw append-nil

Decodes-run :
    (run val : ℕ) (enc rest : List ℕ)
    → 0 < run
    → run ≤ 128
    → Decodes enc rest
    → Decodes (bit_or 0x80 (run - 1) ∷ val ∷ enc) (replicate run val ++ rest)
Decodes-run run val enc rest pos small d zero cap out h fits = absurd (omega arith)
Decodes-run run val enc rest pos small d (suc fuel) cap out h fits =
    let sizes = length-append (replicate run val) rest in
    let count = length-replicate run val in
    let grown = length-append out (replicate run val) in
    decompress-run fuel cap run val enc out pos small (omega arith)
    ∙ d fuel cap (out ++ replicate run val) (omega arith) (omega arith)
    ∙ ap done (append_assoc out (replicate run val) rest)

Decodes-literal :
    (lit : ℕ) (bytes enc rest : List ℕ)
    → lit ≡ length bytes
    → 0 < lit
    → lit ≤ 128
    → Decodes enc rest
    → Decodes ((lit - 1) ∷ bytes ++ enc) (bytes ++ rest)
Decodes-literal lit bytes enc rest e pos small d zero cap out h fits = absurd (omega arith)
Decodes-literal lit bytes enc rest e pos small d (suc fuel) cap out h fits =
    let sizes = length-append bytes rest in
    let written = length-append bytes enc in
    let grown = length-append out bytes in
    decompress-literal fuel cap lit bytes enc out e pos small (omega arith)
    ∙ d fuel cap (out ++ bytes) (omega arith) (omega arith)
    ∙ ap done (append_assoc out bytes rest)

-- The compressor appended an encoding of `rest`.
record Encoded (rest out result : List ℕ) : Type 0 where
  enc : List ℕ
  written : result ≡ out ++ enc
  decodes : Decodes enc rest

Encoded-run :
    (run cur : ℕ) (rest tail out result : List ℕ)
    → 0 < run
    → run ≤ 128
    → rest ≡ replicate run cur ++ tail
    → Encoded tail (out ++ bit_or 0x80 (run - 1) ∷ cur ∷ []) result
    → Encoded rest out result
Encoded-run run cur rest tail out result pos small e r = record {
  enc = bit_or 0x80 (run - 1) ∷ cur ∷ r.enc;
  written = r.written ∙ append_assoc out _ r.enc;
  decodes = rw e (Decodes-run run cur r.enc tail pos small r.decodes);
}

Encoded-literal :
    (lit : ℕ) (rest bytes tail out result : List ℕ)
    → lit ≡ length bytes
    → 0 < lit
    → lit ≤ 128
    → rest ≡ bytes ++ tail
    → Encoded tail (out ++ (lit - 1) ∷ bytes) result
    → Encoded rest out result
Encoded-literal lit rest bytes tail out result n pos small e r = record {
  enc = (lit - 1) ∷ bytes ++ r.enc;
  written = r.written ∙ append_assoc out _ r.enc;
  decodes = rw e (Decodes-literal lit bytes r.enc tail n pos small r.decodes);
}

abbrev run_at : ℕ → List ℕ → ℕ
run_at cur rest = count_equal 128 cur rest 1

abbrev literal_at : ℕ → List ℕ → ℕ
literal_at cur rest = at_least_one (literal_length (cur ∷ rest) 0)

run_equal :
    (cur : ℕ) (rest : List ℕ)
    → take (run_at cur rest) (cur ∷ rest) ≡ replicate (run_at cur rest) cur
run_equal cur rest =
    let c = count_equal-Counted 128 cur rest 1 (omega arith) in
    let e : run_at cur rest ≡ suc c.more = omega (arith, c.sum) in rw e (ap (λ t. cur ∷ t) c.equal)

run_bounds : (cur : ℕ) (rest : List ℕ) → (0 < run_at cur rest) × (run_at cur rest ≤ 128)
run_bounds cur rest =
    let c = count_equal-Counted 128 cur rest 1 (omega arith) in (omega (arith, c.sum), c.within)

literal_bounds :
    (cur : ℕ) (rest : List ℕ)
    → (0 < literal_at cur rest)
      × (literal_at cur rest ≤ 128)
      × (literal_at cur rest ≤ length (cur ∷ rest))
literal_bounds cur rest = ground (arith, literal_length_bounds (cur ∷ rest) 0)

compress_loop-Encoded :
    (fuel cap : ℕ) (rest out result : List ℕ)
    → compress_loop fuel cap rest out ≡ done result
    → Encoded rest out result
unfolding compress_loop
compress_loop-Encoded fuel cap [] out result h = record {
  enc = [];
  written = let e : result ≡ out = cc in e ∙ sym (append-nil out);
  decodes = Decodes-nil;
}
compress_loop-Encoded zero cap (cur ∷ rest) out result h = cc
compress_loop-Encoded (suc fuel) cap (cur ∷ rest) out result h =
    elim (Bool-cases (leb 3 (run_at cur rest))) [
      | inl long ↦
          let run = run_at cur rest in
          Encoded-run run cur (cur ∷ rest) (drop run (cur ∷ rest)) out result
            (run_bounds cur rest).0 (run_bounds cur rest).1
            (sym (take-append-drop run (cur ∷ rest))
              ∙ ap (λ t. t ++ drop run (cur ∷ rest)) (run_equal cur rest))
            (compress_loop-Encoded fuel cap (drop run (cur ∷ rest)) _ result (ground arith))
      | inr short ↦
          let lit = literal_at cur rest in
          Encoded-literal lit (cur ∷ rest) (take lit (cur ∷ rest)) (drop lit (cur ∷ rest)) out
            result (omega (arith, length-take lit (cur ∷ rest), literal_bounds cur rest))
            (literal_bounds cur rest).0 (literal_bounds cur rest).1
            (sym (take-append-drop lit (cur ∷ rest)))
            (compress_loop-Encoded fuel cap (drop lit (cur ∷ rest)) _ result (ground arith))
    ]

-- Whatever the compressor writes, the decompressor gives the input back, into any buffer at least
-- as long as the input.
pub rle_decompress-rle_compress :
    (src enc : List ℕ) (cap cap' : ℕ)
    → rle_compress src cap ≡ done enc
    → length src ≤ cap'
    → rle_decompress enc cap' ≡ done src
unfolding rle_compress rle_decompress
rle_decompress-rle_compress src enc cap cap' h fits =
    let r = compress_loop-Encoded (length src) cap src [] enc h in
    rw r.written (r.decodes (length r.enc) cap' [] (omega arith) (omega arith))
