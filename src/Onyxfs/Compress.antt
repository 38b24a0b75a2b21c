-- ===== src/Onyxfs/Compress.antt =====
-- kernel/src/fs/onyxfs/compress.rs: the run-length coding of snapshot blocks.
-- A slice index `i` into `src` is the rest of the list, `src[i..]`. The destination is the list of
-- the bytes written so far, `dst[..out]`, with the capacity `dst.len()`.
pub mod Steps
pub mod RoundTrip
pub mod Capacity
pub mod Safety
use slipper_kernel.Prelude.{
  ℕ, zero, suc, ◌+◌, ◌-◌, List, [], ◌∷◌, ◌++◌, Bool, not, ◌&&◌, ◌||◌, ltb, leb, ◌==◌, if◌then◌else◌,
  length, take, drop, replicate, bit_and, bit_or,
}

-- `full` is the code's `return 0` when `dst` is too small or the input is cut short;
-- `no_fuel` is not an outcome of the code.
pub data Outcome : Type 0 where
  done : List ℕ → Outcome
  full no_fuel : Outcome

-- `while … && src[i + run] == cur && run < limit { run += 1 }`; the list is `src[i + run..]`.
pub count_equal : ℕ → ℕ → List ℕ → ℕ → ℕ
count_equal limit cur [] run = run
count_equal limit cur (b ∷ rest) run =
    let more = count_equal limit cur rest (run + 1) in
    if (b == cur) && ltb run limit then more else run

-- Literal bytes are collected up to 128, or to where three equal bytes begin.
pub literal_length : List ℕ → ℕ → ℕ
unfolding count_equal
literal_length [] lit_len = lit_len
literal_length (b ∷ rest) lit_len =
    let more = literal_length rest (lit_len + 1) in
    if ltb lit_len 128
    then (if leb 3 (count_equal 3 b (b ∷ rest) 0) then lit_len else more)
    else lit_len

-- `if lit_len == 0 { lit_len = 1 }`
abbrev pub at_least_one : ℕ → ℕ
at_least_one n = if n == 0 then 1 else n

-- One round of the loop for each packet.
pub compress_loop : ℕ → ℕ → List ℕ → List ℕ → Outcome
unfolding count_equal literal_length
compress_loop fuel cap [] out = done out
compress_loop zero cap (cur ∷ rest) out = no_fuel
compress_loop (suc fuel) cap (cur ∷ rest) out =
    let run = count_equal 128 cur rest 1 in
    let lit_len = at_least_one (literal_length (cur ∷ rest) 0) in
    let after_run =
      compress_loop fuel cap (drop run (cur ∷ rest)) (out ++ bit_or 0x80 (run - 1) ∷ cur ∷ []) in
    let after_literal =
      compress_loop fuel cap (drop lit_len (cur ∷ rest))
        (out ++ (lit_len - 1) ∷ take lit_len (cur ∷ rest)) in
    if leb 3 run
    then (if ltb cap (length out + 2) then full else after_run)
    else (if ltb cap (length out + 1 + lit_len) then full else after_literal)

-- Every round takes at least one byte of `src`, so its length is fuel enough.
unfoldable pub rle_compress : List ℕ → ℕ → Outcome
unfolding compress_loop
rle_compress src cap = compress_loop (length src) cap src []

pub decompress_loop : ℕ → ℕ → List ℕ → List ℕ → Outcome
decompress_loop fuel cap [] out = done out
decompress_loop zero cap (tag ∷ rest) out = no_fuel
decompress_loop (suc fuel) cap (tag ∷ []) out = if ltb (length out) cap then full else done out
decompress_loop (suc fuel) cap (tag ∷ val ∷ rest) out =
    let run = bit_and tag 0x7f + 1 in
    let lit = tag + 1 in
    let after_run = decompress_loop fuel cap rest (out ++ replicate run val) in
    let after_literal =
      decompress_loop fuel cap (drop lit (val ∷ rest)) (out ++ take lit (val ∷ rest)) in
    if ltb (length out) cap
    then (if not (bit_and tag 0x80 == 0)
        then (if ltb cap (length out + run) then full else after_run)
        else (if ltb (length (val ∷ rest)) lit || ltb cap (length out + lit)
            then full
            else after_literal))
    else done out

unfoldable pub rle_decompress : List ℕ → ℕ → Outcome
unfolding decompress_loop
rle_decompress src cap = decompress_loop (length src) cap src []

-- The `usize` that both functions return: the bytes written, or 0.
unfoldable pub returned : Outcome → ℕ
returned (done out) = length out
returned full = 0
returned no_fuel = 0
