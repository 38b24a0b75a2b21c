-- ===== src/Core/Formats/Segment.antt =====
-- core/src/formats/segment.rs: the segment table entry of an OnyxExec binary, in both versions.
use slipper_kernel.Prelude.{
  ℕ, ◌<◌, ◌^◌, List, Option, none, some, ◌≡◌, ltb, if◌then◌else◌, length, replicate, refl,
}
use slipper_kernel.Core.Parser.{
  slice, copy_at, le32, le64, to_le32, to_le64, le32-to_le32, le64-to_le64,
}

-- v2: up to 256 segments
abbrev pub onx_max_segs : ℕ
onx_max_segs = 256

pub record OnxSegment : Type 0 where
  pub vaddr : ℕ
  pub filesz : ℕ
  pub memsz : ℕ
  pub offset : ℕ
  pub flags : ℕ
  pub align : ℕ
  pub reserved : ℕ
  pub compressed_size : ℕ

abbrev pub segment_size_v1 : ℕ
segment_size_v1 = 40

abbrev pub segment_size_v2 : ℕ
segment_size_v2 = 48

unfoldable pub segment_from_bytes_v1 : List ℕ → Option OnxSegment
segment_from_bytes_v1 buf =
    if ltb (length buf) segment_size_v1
    then none
    else some (record {
      vaddr = le64 (slice buf 0 8);
      filesz = le64 (slice buf 8 16);
      memsz = le64 (slice buf 16 24);
      offset = le32 (slice buf 24 28);
      flags = le32 (slice buf 28 32);
      align = le32 (slice buf 32 36);
      reserved = le32 (slice buf 36 40);
      compressed_size = 0;
    })

unfoldable pub segment_from_bytes_v2 : List ℕ → Option OnxSegment
segment_from_bytes_v2 buf =
    if ltb (length buf) segment_size_v2
    then none
    else some (record {
      vaddr = le64 (slice buf 0 8);
      filesz = le64 (slice buf 8 16);
      memsz = le64 (slice buf 16 24);
      offset = le32 (slice buf 24 28);
      flags = le32 (slice buf 28 32);
      align = le32 (slice buf 32 36);
      reserved = le32 (slice buf 36 40);
      compressed_size = le32 (slice buf 40 44);
    })

unfoldable pub segment_to_bytes_v1 : OnxSegment → List ℕ
segment_to_bytes_v1 s =
    let b = replicate segment_size_v1 0 in
    let b = copy_at 0 (to_le64 s.vaddr) b in
    let b = copy_at 8 (to_le64 s.filesz) b in
    let b = copy_at 16 (to_le64 s.memsz) b in
    let b = copy_at 24 (to_le32 s.offset) b in
    let b = copy_at 28 (to_le32 s.flags) b in
    let b = copy_at 32 (to_le32 s.align) b in let b = copy_at 36 (to_le32 s.reserved) b in b

unfoldable pub segment_to_bytes_v2 : OnxSegment → List ℕ
segment_to_bytes_v2 s =
    let b = replicate segment_size_v2 0 in
    let b = copy_at 0 (to_le64 s.vaddr) b in
    let b = copy_at 8 (to_le64 s.filesz) b in
    let b = copy_at 16 (to_le64 s.memsz) b in
    let b = copy_at 24 (to_le32 s.offset) b in
    let b = copy_at 28 (to_le32 s.flags) b in
    let b = copy_at 32 (to_le32 s.align) b in
    let b = copy_at 36 (to_le32 s.reserved) b in
    let b = copy_at 40 (to_le32 s.compressed_size) b in b

-- The fields fit their machine types.
pub record IsSegment (s : OnxSegment) : Type 0 where
  pub vaddr : s.vaddr < 2 ^ 64
  pub filesz : s.filesz < 2 ^ 64
  pub memsz : s.memsz < 2 ^ 64
  pub offset : s.offset < 2 ^ 32
  pub flags : s.flags < 2 ^ 32
  pub align : s.align < 2 ^ 32
  pub reserved : s.reserved < 2 ^ 32
  pub compressed_size : s.compressed_size < 2 ^ 32

-- A version 1 segment whose fields fit their types reads back as it was written, but for the compressed
-- size, which version 1 does not hold and which reads as 0.
pub segment_from_bytes_v1-segment_to_bytes_v1 :
    (s : OnxSegment)
    → IsSegment s
    → segment_from_bytes_v1 (segment_to_bytes_v1 s) ≡ some (record s { compressed_size = 0 })
unfolding segment_from_bytes_v1 segment_to_bytes_v1 to_le32 to_le64
segment_from_bytes_v1-segment_to_bytes_v1 s h = rw (
  le64-to_le64 s.vaddr h.vaddr,
  le64-to_le64 s.filesz h.filesz,
  le64-to_le64 s.memsz h.memsz,
  le32-to_le32 s.offset h.offset,
  le32-to_le32 s.flags h.flags,
  le32-to_le32 s.align h.align,
  le32-to_le32 s.reserved h.reserved,
)

pub length-segment_to_bytes_v1 : (s : OnxSegment) → length (segment_to_bytes_v1 s) ≡ segment_size_v1
unfolding segment_to_bytes_v1 to_le32 to_le64
length-segment_to_bytes_v1 s = refl

-- A version 2 segment whose fields fit their types reads back as it was written.
pub segment_from_bytes_v2-segment_to_bytes_v2 :
    (s : OnxSegment) → IsSegment s → segment_from_bytes_v2 (segment_to_bytes_v2 s) ≡ some s
unfolding segment_from_bytes_v2 segment_to_bytes_v2 to_le32 to_le64
segment_from_bytes_v2-segment_to_bytes_v2 s h = rw (
  le64-to_le64 s.vaddr h.vaddr,
  le64-to_le64 s.filesz h.filesz,
  le64-to_le64 s.memsz h.memsz,
  le32-to_le32 s.offset h.offset,
  le32-to_le32 s.flags h.flags,
  le32-to_le32 s.align h.align,
  le32-to_le32 s.reserved h.reserved,
  le32-to_le32 s.compressed_size h.compressed_size,
)

pub length-segment_to_bytes_v2 : (s : OnxSegment) → length (segment_to_bytes_v2 s) ≡ segment_size_v2
unfolding segment_to_bytes_v2 to_le32 to_le64
length-segment_to_bytes_v2 s = refl
