-- ===== src/Core/Formats/Header.antt =====
-- core/src/formats/header.rs: the OnyxExec header with its segment table.
pub mod Table
pub mod RoundTrip
use slipper_kernel.Prelude.{
  ℕ, zero, suc, ◌+◌, ◌*◌, List, [], ◌∷◌, Option, none, some, not, ltb, ◌==◌, if◌then◌else◌, length,
  take, replicate, ◌>>=◌,
}
use slipper_kernel.Core.Parser.{slice, copy_at, le32, le64, to_le32, to_le64}
use slipper_kernel.Core.Formats.Segment.{
  OnxSegment, onx_max_segs, segment_size_v1, segment_size_v2, segment_from_bytes_v1,
  segment_from_bytes_v2, segment_to_bytes_v1, segment_to_bytes_v2,
}

-- 'ONX1', little endian
abbrev pub onx_magic : ℕ
onx_magic = 0x31584E4F

pub record OnxHeader : Type 0 where
  pub magic : ℕ
  pub version : ℕ
  pub entry : ℕ
  pub nsegs : ℕ
  pub flags : ℕ
  pub segs : List OnxSegment

abbrev pub v1_header_size : ℕ
v1_header_size = 344

abbrev pub v2_header_size : ℕ
v2_header_size = 32

-- The loop of both arms: `left` entries of `size` bytes, the table at `base`, from index `i` on.
pub read_segs : (List ℕ → Option OnxSegment) → ℕ → ℕ → List ℕ → ℕ → ℕ → Option (List OnxSegment)
read_segs from base size buf i zero = some []
read_segs from base size buf i (suc left) = do
  let off = base + i * size
  s ← from (slice buf off (off + size))
  rest ← read_segs from base size buf (i + 1) left
  some (s ∷ rest)

-- the arm `1 =>`
pub read_v1 : List ℕ → ℕ → ℕ → ℕ → ℕ → ℕ → Option OnxHeader
unfolding read_segs
read_v1 buf magic version entry nsegs flags =
    if ltb (length buf) v1_header_size then none else if ltb 8 nsegs then none else do
      segs ← read_segs segment_from_bytes_v1 24 segment_size_v1 buf 0 nsegs
      some (record {
        magic = magic;
        version = version;
        entry = entry;
        nsegs = nsegs;
        flags = flags;
        segs = segs;
      })

-- the arm `2 =>`
pub read_v2 : List ℕ → ℕ → ℕ → ℕ → ℕ → ℕ → Option OnxHeader
unfolding read_segs
read_v2 buf magic version entry nsegs flags =
    if ltb (length buf) v2_header_size
    then none
    else if ltb onx_max_segs nsegs
    then none
    else if ltb (length buf) (v2_header_size + nsegs * segment_size_v2)
    then none
    else do
      segs ← read_segs segment_from_bytes_v2 v2_header_size segment_size_v2 buf 0 nsegs
      some (record {
        magic = magic;
        version = version;
        entry = entry;
        nsegs = nsegs;
        flags = flags;
        segs = segs;
      })

unfoldable pub header_from_bytes : List ℕ → Option OnxHeader
header_from_bytes buf =
    let magic = le32 (slice buf 0 4) in
    let version = le32 (slice buf 4 8) in
    let entry = le64 (slice buf 8 16) in
    let nsegs = le32 (slice buf 16 20) in
    let flags = le32 (slice buf 20 24) in
    if ltb (length buf) 24
    then none
    else if not (magic == onx_magic)
    then none
    else if version == 1
    then read_v1 buf magic version entry nsegs flags
    else if version == 2
    then read_v2 buf magic version entry nsegs flags
    else none

-- `for (i, s) in segs.iter().enumerate()`, from index `i` on
pub write_segs : (OnxSegment → List ℕ) → ℕ → ℕ → List OnxSegment → ℕ → List ℕ → List ℕ
write_segs to base size [] i b = b
write_segs to base size (s ∷ rest) i b =
    write_segs to base size rest (i + 1) (copy_at (base + i * size) (to s) b)

unfoldable pub header_to_bytes_v1 : OnxHeader → List ℕ
unfolding write_segs
header_to_bytes_v1 h =
    let b = replicate v1_header_size 0 in
    let b = copy_at 0 (to_le32 h.magic) b in
    let b = copy_at 4 (to_le32 1) b in
    let b = copy_at 8 (to_le64 h.entry) b in
    let b = copy_at 16 (to_le32 h.nsegs) b in
    let b = copy_at 20 (to_le32 h.flags) b in
    write_segs segment_to_bytes_v1 24 segment_size_v1 (take 8 h.segs) 0 b

-- The code panics where `segs` is longer than `nsegs` says.
unfoldable pub header_to_bytes_v2 : OnxHeader → List ℕ
unfolding write_segs
header_to_bytes_v2 h =
    let b = replicate (v2_header_size + h.nsegs * segment_size_v2) 0 in
    let b = copy_at 0 (to_le32 h.magic) b in
    let b = copy_at 4 (to_le32 2) b in
    let b = copy_at 8 (to_le64 h.entry) b in
    let b = copy_at 16 (to_le32 h.nsegs) b in
    let b = copy_at 20 (to_le32 h.flags) b in
    write_segs segment_to_bytes_v2 v2_header_size segment_size_v2 h.segs 0 b
