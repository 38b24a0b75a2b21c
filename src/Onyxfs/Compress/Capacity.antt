-- ===== src/Onyxfs/Compress/Capacity.antt =====
-- How much room the compressor needs.
use slipper_kernel.Prelude.{
  ℕ, zero, suc, ◌+◌, ◌-◌, ◌/◌, ◌≤◌, ◌<◌, List, [], ◌∷◌, ◌++◌, Bool, true, false, leb, length, take,
  drop, bit_or, ◌≡◌, refl, ◌∙◌, ◌⊎◌, inl, inr, arith, if◌then◌else◌, Bool-cases, length-take,
  length-drop, length-append,
}
use slipper_kernel.Onyxfs.Compress.{
  count_equal, literal_length, at_least_one, compress_loop, rle_compress, done,
}
use slipper_kernel.Onyxfs.Compress.Steps.{count_equal-Counted, literal_length_bounds}

-- Three equal bytes begin here, as the literal loop tests it.
abbrev starts_run : ℕ → List ℕ → Bool
starts_run b rest = leb 3 (count_equal 3 b (b ∷ rest) 0)

counted_to_three : (b : ℕ) (rest : List ℕ) → count_equal 3 b rest 3 ≡ 3
counted_to_three b rest =
    let c = count_equal-Counted 3 b rest 3 (omega arith) in omega (arith, c.sum, c.within)

counted_past_three : (b : ℕ) (rest : List ℕ) → 3 ≤ count_equal 128 b rest 3
counted_past_three b rest =
    let c = count_equal-Counted 128 b rest 3 (omega arith) in omega (arith, c.sum)

-- Both loops agree on where a run begins.
starts_run_iff : (b : ℕ) (rest : List ℕ) → starts_run b rest ≡ leb 3 (count_equal 128 b rest 1)
unfolding count_equal
starts_run_iff b [] = ground arith
starts_run_iff b (x ∷ []) = ground arith
starts_run_iff b (x ∷ y ∷ rest) = ground (arith, counted_to_three b rest, counted_past_three b rest)

-- The room for the rest of the input.
room : List ℕ → ℕ
room [] = 0
room (b ∷ rest) =
    length (b ∷ rest) + (length (b ∷ rest) + 127) / 128 - (if starts_run b rest then 1 else 0)

room-le : (xs : List ℕ) → room xs ≤ length xs + (length xs + 127) / 128
unfolding room
room-le [] = omega arith
room-le (b ∷ rest) = ground arith

-- A literal packet stops at 128 bytes, or where the rest needs less than its own room.
literal_stop :
    (xs : List ℕ) (lit j : ℕ)
    → lit ≤ 128
    → literal_length xs lit ≡ lit + j
    → (literal_length xs lit ≡ 128)
      ⊎ (room (drop j xs) ≤ length (drop j xs) + (length (drop j xs) + 127) / 128 - 1)
unfolding literal_length room
literal_stop [] lit zero h e = inr (omega arith)
literal_stop [] lit (suc j) h e = absurd (omega arith)
literal_stop (b ∷ rest) lit zero h e = ground (arith, literal_length_bounds rest (lit + 1))
literal_stop (b ∷ rest) lit (suc j) h e = ground (arith, literal_stop rest (lit + 1) j)

record Fits (fuel cap : ℕ) (rest out : List ℕ) : Type 0 where
  pub result : List ℕ
  pub returns : compress_loop fuel cap rest out ≡ done result
  pub short : length result ≤ length out + room rest

room_at_run :
    (b : ℕ) (rest : List ℕ)
    → starts_run b rest ≡ true
    → room (b ∷ rest) ≡ length (b ∷ rest) + (length (b ∷ rest) + 127) / 128 - 1
unfolding room
room_at_run b rest h = rw h (omega arith)

room_elsewhere :
    (b : ℕ) (rest : List ℕ)
    → starts_run b rest ≡ false
    → room (b ∷ rest) ≡ length (b ∷ rest) + (length (b ∷ rest) + 127) / 128
unfolding room
room_elsewhere b rest h = rw h (omega arith)

literal_pos : (b : ℕ) (rest : List ℕ) → starts_run b rest ≡ false → 0 < literal_length (b ∷ rest) 0
unfolding literal_length
literal_pos b rest h = rw h (omega (arith, literal_length_bounds rest 1))

module _ (cur : ℕ) (rest : List ℕ) where
  abbrev input : List ℕ
  input = cur ∷ rest

  abbrev run : ℕ
  run = count_equal 128 cur rest 1

  abbrev lit : ℕ
  lit = at_least_one (literal_length input 0)

  run_le : run ≤ length input
  run_le = let c = count_equal-Counted 128 cur rest 1 (omega arith) in omega (arith, c.sum, c.bound)

  run-room : leb 3 run ≡ true → 2 + room (drop run input) ≤ room input
  run-room h =
      let long : 3 ≤ run = ground arith in
      omega (
        arith,
        run_le,
        room-le (drop run input),
        length-drop run input,
        room_at_run cur rest (starts_run_iff cur rest ∙ h),
      )

  lit_eq : leb 3 run ≡ false → lit ≡ literal_length input 0
  lit_eq h = ground (arith, literal_pos cur rest (starts_run_iff cur rest ∙ h))

  literal_room : leb 3 run ≡ false → 1 + lit + room (drop lit input) ≤ room input
  literal_room h = rw (lit_eq h) (
      omega (
        arith,
        room_elsewhere cur rest (starts_run_iff cur rest ∙ h),
        literal_stop input 0 (literal_length input 0) (omega arith) (omega arith),
        room-le (drop (literal_length input 0) input),
        length-drop (literal_length input 0) input,
        literal_length_bounds input 0 (omega arith),
      ))

  lit-length : leb 3 run ≡ false → length (take lit input) ≡ lit
  lit-length h =
      omega (arith, lit_eq h, length-take lit input, literal_length_bounds input 0 (omega arith))

  lit_pos : 0 < lit
  lit_pos = ground arith

  run_pos : 0 < run
  run_pos = let c = count_equal-Counted 128 cur rest 1 (omega arith) in omega (arith, c.sum)

Fits-run :
    (fuel cap cur : ℕ) (rest out : List ℕ)
    → leb 3 (run cur rest) ≡ true
    → length out + room (cur ∷ rest) ≤ cap
    → Fits fuel cap
        (drop (run cur rest) (cur ∷ rest))
        (out ++ bit_or 0x80 (run cur rest - 1) ∷ cur ∷ [])
    → Fits (suc fuel) cap (cur ∷ rest) out
unfolding compress_loop
Fits-run fuel cap cur rest out h fits r =
    let grown = length-append out (bit_or 0x80 (run cur rest - 1) ∷ cur ∷ []) in
    let shrunk = run-room cur rest h in
    record {
      result = r.result;
      returns = ground (arith, r.returns);
      short = omega (arith, r.short);
    }

Fits-literal :
    (fuel cap cur : ℕ) (rest out : List ℕ)
    → leb 3 (run cur rest) ≡ false
    → length out + room (cur ∷ rest) ≤ cap
    → Fits fuel cap
        (drop (lit cur rest) (cur ∷ rest))
        (out ++ (lit cur rest - 1) ∷ take (lit cur rest) (cur ∷ rest))
    → Fits (suc fuel) cap (cur ∷ rest) out
unfolding compress_loop
Fits-literal fuel cap cur rest out h fits r =
    let grown = length-append out ((lit cur rest - 1) ∷ take (lit cur rest) (cur ∷ rest)) in
    let shrunk = literal_room cur rest h in
    let size = lit-length cur rest h in
    record {
      result = r.result;
      returns = ground (arith, r.returns);
      short = omega (arith, r.short);
    }

compress_loop-Fits :
    (fuel cap : ℕ) (rest out : List ℕ)
    → length rest ≤ fuel
    → length out + room rest ≤ cap
    → Fits fuel cap rest out
compress_loop-Fits fuel cap [] out h fits = record {
  result = out;
  returns = unfold compress_loop in refl;
  short = omega arith;
}
compress_loop-Fits zero cap (cur ∷ rest) out h fits = absurd (omega arith)
compress_loop-Fits (suc fuel) cap (cur ∷ rest) out h fits =
    elim (Bool-cases (leb 3 (run cur rest))) [
      | inl long ↦ Fits-run fuel cap cur rest out long fits (
          compress_loop-Fits fuel cap (drop (run cur rest) (cur ∷ rest)) _
            (omega (arith, length-drop (run cur rest) (cur ∷ rest), run_pos cur rest))
            (omega (
              arith,
              length-append out (bit_or 0x80 (run cur rest - 1) ∷ cur ∷ []),
              run-room cur rest long,
            )))
      | inr short ↦ Fits-literal fuel cap cur rest out short fits (
          compress_loop-Fits fuel cap (drop (lit cur rest) (cur ∷ rest)) _
            (omega (arith, length-drop (lit cur rest) (cur ∷ rest), lit_pos cur rest))
            (omega (
              arith,
              length-append out ((lit cur rest - 1) ∷ take (lit cur rest) (cur ∷ rest)),
              literal_room cur rest short,
              lit-length cur rest short,
            )))
    ]

-- With the room that the comment on `rle_compress` asks for, and so with every larger one, the
-- compressor succeeds, and writes at most n + ceil(n / 128) bytes for an input of n bytes.
pub rle_compress-fits :
    (src : List ℕ) (cap : ℕ)
    → length src + length src / 128 + 2 ≤ cap
    → (enc : List ℕ) × (rle_compress src cap ≡ done enc)
      × (length enc ≤ length src + (length src + 127) / 128)
unfolding rle_compress
rle_compress-fits src cap h =
    let bound = room-le src in
    let r = compress_loop-Fits (length src) cap src [] (omega arith) (omega arith) in
    (r.result, r.returns, omega (arith, r.short))
