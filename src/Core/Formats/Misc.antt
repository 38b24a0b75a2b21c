-- ===== src/Core/Formats/Misc.antt =====
-- core/src/formats/misc.rs: the FAT32 parameter block and the 8.3 names.
use slipper_kernel.Prelude.{
  ℕ, zero, suc, ◌+◌, ◌-◌, ◌*◌, ◌^◌, ◌≤◌, ◌≡◌, refl, ap, sym, ◌∙◌, arith, List, [], ◌∷◌, ◌++◌, map,
  length, take, drop, replicate, Option, none, some, Bool, true, false, not, ◌&&◌, ◌||◌, ltb, leb,
  ◌==◌, if◌then◌else◌, bit_and, length-append, length-map, length-take, length-drop,
}
use slipper_kernel.Core.Parser.{byte_at, slice, le32, copy_at}

pub record Fat32Bpb : Type 0 where
  pub bytes_per_sector : ℕ
  pub sectors_per_cluster : ℕ
  pub reserved_sectors : ℕ
  pub num_fats : ℕ
  pub fat_size : ℕ
  pub root_cluster : ℕ

-- `u16::from_le_bytes([buf[i], buf[i + 1]])`
abbrev pub le16_at : List ℕ → ℕ → ℕ
le16_at buf i = byte_at buf i + 2 ^ 8 * byte_at buf (i + 1)

-- A buffer of 90 to 511 bytes, on which the code panics, reads 0 at the signature and is refused.
pub bpb_from_bytes : List ℕ → Option Fat32Bpb
bpb_from_bytes buf =
    let spc = byte_at buf 13 in
    let fat16_sz = le16_at buf 22 in
    if ltb (length buf) 90
    then none
    else if not (byte_at buf 510 == 0x55) || not (byte_at buf 511 == 0xAA)
    then none
    else if not (le16_at buf 11 == 512)
    then none
    else if (spc == 0) || not (bit_and spc (spc - 1) == 0)
    then none
    else some (record {
      bytes_per_sector = le16_at buf 11;
      sectors_per_cluster = spc;
      reserved_sectors = le16_at buf 14;
      num_fats = byte_at buf 16;
      fat_size = if fat16_sz == 0 then le32 (slice buf 36 40) else fat16_sz;
      root_cluster = le32 (slice buf 44 48);
    })

-- `u8::to_ascii_uppercase`
unfoldable pub to_ascii_uppercase : ℕ → ℕ
to_ascii_uppercase b = if leb 97 b && leb b 122 then b - 32 else b

-- `name.iter().position(|&b| b == b'.')`
unfoldable pub position_dot : List ℕ → Option ℕ
position_dot [] = none
position_dot (b ∷ rest) =
    let next = position_dot rest in
    if b == 46 then some 0 else elim next [ none ↦ none | some i ↦ some (suc i) ]

-- `out`, eleven spaces, with the two parts in upper case
unfoldable pub fill_83 : List ℕ → List ℕ → List ℕ
unfolding to_ascii_uppercase
fill_83 name_part ext =
    copy_at 8 (map to_ascii_uppercase ext)
      (copy_at 0 (map to_ascii_uppercase name_part) (replicate 11 32))

unfoldable pub name_to_83 : List ℕ → Option (List ℕ)
unfolding position_dot fill_83
name_to_83 name = elim (position_dot name) [
  | none ↦ if ltb 8 (length name) then none else some (fill_83 name [])
  | some i ↦
      if ltb 8 (length (take i name)) || ltb 3 (length (drop (i + 1) name))
      then none
      else some (fill_83 (take i name) (drop (i + 1) name))
]

-- the loop of `matches_83`: `left` bytes from index `i` on
pub equal_ignoring_case : ℕ → ℕ → List ℕ → List ℕ → Bool
unfolding to_ascii_uppercase
equal_ignoring_case zero i a b = true
equal_ignoring_case (suc left) i a b =
    (to_ascii_uppercase (byte_at a i) == to_ascii_uppercase (byte_at b i))
    && equal_ignoring_case left (i + 1) a b

pub matches_83 : List ℕ → List ℕ → Bool
unfolding name_to_83 equal_ignoring_case
matches_83 dirent11 name = elim (name_to_83 name) [
  | none ↦ false
  | some expected ↦ equal_ignoring_case 11 0 dirent11 expected
]

equal_self : (left i : ℕ) (a : List ℕ) → equal_ignoring_case left i a a ≡ true
unfolding equal_ignoring_case
equal_self zero i a = refl
equal_self (suc left) i a =
    let same : (to_ascii_uppercase (byte_at a i) == to_ascii_uppercase (byte_at a i)) ≡ true =
      ground arith in
    rw same (equal_self left (i + 1) a)

length-copy_at :
    (off : ℕ) (bytes b : List ℕ)
    → off + length bytes ≤ length b
    → length (copy_at off bytes b) ≡ length b
length-copy_at off bytes b h =
    let rest = drop (off + length bytes) b in
    omega (
      arith,
      length-append (take off b) (bytes ++ rest),
      length-append bytes rest,
      length-take off b,
      length-drop (off + length bytes) b,
    )

length-fill_83 :
    (name_part ext : List ℕ)
    → length name_part ≤ 8
    → length ext ≤ 3
    → length (fill_83 name_part ext) ≡ 11
unfolding fill_83
length-fill_83 name_part ext hn he =
    let upper = λ (xs : List ℕ). map to_ascii_uppercase xs in
    let size_n = length-map name_part to_ascii_uppercase in
    let size_e = length-map ext to_ascii_uppercase in
    let named = length-copy_at 0 (upper name_part) (replicate 11 32) (omega (arith, size_n)) in
    length-copy_at 8 (upper ext) (copy_at 0 (upper name_part) (replicate 11 32))
      (omega (arith, size_e, named))
    ∙ named

-- the two outcomes of the last test of `name_to_83`
guarded :
    (b : Bool) (out expected : List ℕ)
    → (if b then none else some out) ≡ some expected
    → (b ≡ false) × (out ≡ expected)
guarded true out expected h = absurd cc
guarded false out expected h = (refl, cc)

length-made :
    (name expected : List ℕ) (dot : Option ℕ)
    → (elim dot [
      | none ↦ if ltb 8 (length name) then none else some (fill_83 name [])
      | some i ↦
          if ltb 8 (length (take i name)) || ltb 3 (length (drop (i + 1) name))
          then none
          else some (fill_83 (take i name) (drop (i + 1) name))
    ])
      ≡ some expected
    → length expected ≡ 11
length-made name expected none h =
    let (short, made) = guarded (ltb 8 (length name)) (fill_83 name []) expected h in
    ap (λ (xs : List ℕ). length xs) (sym made) ∙ length-fill_83 name [] (ground arith) (omega arith)
length-made name expected (some i) h =
    let (short, made) =
      guarded (ltb 8 (length (take i name)) || ltb 3 (length (drop (i + 1) name)))
        (fill_83 (take i name) (drop (i + 1) name)) expected h in
    ap (λ (xs : List ℕ). length xs) (sym made)
    ∙ length-fill_83 (take i name) (drop (i + 1) name) (ground arith) (ground arith)

-- An 8.3 name is eleven bytes long, and an entry that holds it matches the name that it was made of.
pub name_to_83_lem :
    (name expected : List ℕ)
    → name_to_83 name ≡ some expected
    → (length expected ≡ 11) × (matches_83 expected name ≡ true)
unfolding matches_83 name_to_83
name_to_83_lem name expected h = (
  length-made name expected (position_dot name) h,
  ap
        (λ (o : Option (List ℕ)). elim o [
          | none ↦ false
          | some e ↦ equal_ignoring_case 11 0 expected e
        ])
        h
      ∙ equal_self 11 0 expected,
)
