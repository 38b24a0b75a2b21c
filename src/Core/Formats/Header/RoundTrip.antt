-- ===== src/Core/Formats/Header/RoundTrip.antt =====
-- Headers read back as they were written.
use slipper_kernel.Prelude.{
  ℕ, ◌+◌, ◌*◌, ◌≤◌, ◌<◌, ◌^◌, List, [], ◌++◌, some, false, ◌≡◌, refl, sym, ap, ◌∙◌, arith, All,
  length, map, drop, replicate, replicate-add, length-replicate, length-append, drop_all, take_all,
  map_self, length-drop, ltb,
}
use slipper_kernel.Core.Parser.{
  le32, le64, to_le32, to_le64, le32-to_le32, le64-to_le64, slice, copy_at,
}
use slipper_kernel.Core.Formats.Segment.{
  OnxSegment, IsSegment, onx_max_segs, segment_size_v1, segment_size_v2, segment_from_bytes_v1,
  segment_from_bytes_v2, segment_to_bytes_v1, segment_to_bytes_v2,
  segment_from_bytes_v1-segment_to_bytes_v1, segment_from_bytes_v2-segment_to_bytes_v2,
  length-segment_to_bytes_v1, length-segment_to_bytes_v2,
}
use slipper_kernel.Core.Formats.Header.{
  OnxHeader, onx_magic, v2_header_size, header_from_bytes, header_to_bytes_v1, header_to_bytes_v2,
  read_v1, read_v2, read_segs, write_segs,
}
use slipper_kernel.Core.Formats.Header.Table.{
  entries, length-entries, write_segs-append, read_segs-append,
}

-- A header with the right magic number, as many segments as it says, and fields that fit.
pub record IsHeader (max : ℕ) (h : OnxHeader) : Type 0 where
  pub magic : h.magic ≡ onx_magic
  pub entry : h.entry < 2 ^ 64
  pub flags : h.flags < 2 ^ 32
  pub counted : h.nsegs ≡ length h.segs
  pub few : h.nsegs ≤ max
  pub segs : All IsSegment h.segs

-- what version 1 keeps of a segment
abbrev pub uncompressed : OnxSegment → OnxSegment
uncompressed s = record s { compressed_size = 0 }

not_below : (a b : ℕ) → b ≤ a → ltb a b ≡ false
not_below a b h = ground arith

abbrev fields : ℕ → OnxHeader → List ℕ
fields version h =
    to_le32 h.magic
    ++ (to_le32 version ++ (to_le64 h.entry ++ (to_le32 h.nsegs ++ to_le32 h.flags)))

-- the five copies at the head of `to_bytes_v1` and `to_bytes_v2`
abbrev head : ℕ → OnxHeader → List ℕ → List ℕ
head version h b =
    let b = copy_at 0 (to_le32 h.magic) b in
    let b = copy_at 4 (to_le32 version) b in
    let b = copy_at 8 (to_le64 h.entry) b in
    let b = copy_at 16 (to_le32 h.nsegs) b in copy_at 20 (to_le32 h.flags) b

abbrev table_v1 : OnxHeader → List ℕ
table_v1 h = entries segment_to_bytes_v1 segment_size_v1 length-segment_to_bytes_v1 h.segs

abbrev table_v2 : OnxHeader → List ℕ
table_v2 h = entries segment_to_bytes_v2 segment_size_v2 length-segment_to_bytes_v2 h.segs

header_to_bytes_v2_layout :
    (h : OnxHeader)
    → h.nsegs ≡ length h.segs
    → header_to_bytes_v2 h ≡ (fields 2 h ++ replicate 8 0) ++ (table_v2 h ++ [])
unfolding header_to_bytes_v2 to_le32 to_le64
header_to_bytes_v2_layout h counted =
    let k = h.nsegs * segment_size_v2 in
    let write = write_segs segment_to_bytes_v2 v2_header_size segment_size_v2 h.segs 0 in
    let empty : drop (length h.segs * segment_size_v2) (replicate k 0) ≡ [] =
      drop_all (replicate k 0) _ (omega (arith, length-replicate {A = ℕ} k 0)) in
    ap (λ b. write (head 2 h b)) (replicate-add v2_header_size k 0)
    ∙ write_segs-append segment_to_bytes_v2 segment_size_v2 length-segment_to_bytes_v2
        v2_header_size 0 h.segs (fields 2 h ++ replicate 8 0) (replicate k 0) refl
    ∙ ap (λ t. (fields 2 h ++ replicate 8 0) ++ (table_v2 h ++ t)) empty

header_to_bytes_v1_layout :
    (h : OnxHeader)
    → length h.segs ≤ 8
    → header_to_bytes_v1 h
      ≡ fields 1 h ++ (table_v1 h ++ drop (length h.segs * segment_size_v1) (replicate 320 0))
unfolding header_to_bytes_v1 to_le32 to_le64
header_to_bytes_v1_layout h few = rw (take_all 8 h.segs few) (
    write_segs-append segment_to_bytes_v1 segment_size_v1 length-segment_to_bytes_v1 24 0 h.segs
      (fields 1 h) (replicate 320 0) refl)

read_v2_table :
    (h : OnxHeader) (magic version entry flags : ℕ) (pre : List ℕ)
    → 32 ≡ length pre
    → IsHeader onx_max_segs h
    → read_v2 (pre ++ (table_v2 h ++ [])) magic version entry h.nsegs flags
      ≡ some (record {
        magic = magic;
        version = version;
        entry = entry;
        nsegs = h.nsegs;
        flags = flags;
        segs = h.segs;
      })
unfolding read_v2
read_v2_table h magic version entry flags pre wide w =
    let buf = pre ++ (table_v2 h ++ []) in
    let size = length-append pre (table_v2 h ++ []) in
    let size' = length-append (table_v2 h) [] in
    let table =
      length-entries segment_to_bytes_v2 segment_size_v2 length-segment_to_bytes_v2 h.segs in
    let counted = w.counted in
    rw (
      not_below (length buf) 32 (omega arith),
      not_below onx_max_segs h.nsegs w.few,
      not_below (length buf) (32 + h.nsegs * 48) (omega arith),
      ap (read_segs segment_from_bytes_v2 v2_header_size segment_size_v2 buf 0) w.counted
          ∙ read_segs-append segment_to_bytes_v2 segment_size_v2 length-segment_to_bytes_v2
              segment_from_bytes_v2 (λ s. s) IsSegment segment_from_bytes_v2-segment_to_bytes_v2
              v2_header_size 0 h.segs pre [] wide w.segs,
      map_self h.segs,
    )

read_v1_table :
    (h : OnxHeader) (magic version entry flags : ℕ) (pre rest : List ℕ)
    → 24 ≡ length pre
    → 344 ≤ length (pre ++ (table_v1 h ++ rest))
    → IsHeader 8 h
    → read_v1 (pre ++ (table_v1 h ++ rest)) magic version entry h.nsegs flags
      ≡ some (record {
        magic = magic;
        version = version;
        entry = entry;
        nsegs = h.nsegs;
        flags = flags;
        segs = map uncompressed h.segs;
      })
unfolding read_v1
read_v1_table h magic version entry flags pre rest wide room w =
    let buf = pre ++ (table_v1 h ++ rest) in
    rw (
      not_below (length buf) 344 room,
      not_below 8 h.nsegs w.few,
      ap (read_segs segment_from_bytes_v1 24 segment_size_v1 buf 0) w.counted
          ∙ read_segs-append segment_to_bytes_v1 segment_size_v1 length-segment_to_bytes_v1
              segment_from_bytes_v1 uncompressed IsSegment segment_from_bytes_v1-segment_to_bytes_v1
              24 0 h.segs pre rest wide w.segs,
    )

module _ (buf : List ℕ) (entry nsegs flags : ℕ) (long : 24 ≤ length buf)
    (magic : le32 (slice buf 0 4) ≡ onx_magic) (entry_at : le64 (slice buf 8 16) ≡ entry)
    (nsegs_at : le32 (slice buf 16 20) ≡ nsegs) (flags_at : le32 (slice buf 20 24) ≡ flags) where
  dispatch_v1 :
      le32 (slice buf 4 8) ≡ 1 → header_from_bytes buf ≡ read_v1 buf onx_magic 1 entry nsegs flags
  unfolding header_from_bytes
  dispatch_v1 e = rw (not_below (length buf) 24 long, magic, e, entry_at, nsegs_at, flags_at)

  dispatch_v2 :
      le32 (slice buf 4 8) ≡ 2 → header_from_bytes buf ≡ read_v2 buf onx_magic 2 entry nsegs flags
  unfolding header_from_bytes
  dispatch_v2 e = rw (not_below (length buf) 24 long, magic, e, entry_at, nsegs_at, flags_at)

-- A version 2 header reads back as it was, with version 2, whatever version it carried before.
pub header_from_bytes-header_to_bytes_v2 :
    (h : OnxHeader)
    → IsHeader onx_max_segs h
    → header_from_bytes (header_to_bytes_v2 h) ≡ some (record h { version = 2 })
unfolding to_le32 to_le64
header_from_bytes-header_to_bytes_v2 h w =
    let buf = (fields 2 h ++ replicate 8 0) ++ (table_v2 h ++ []) in
    ap header_from_bytes (header_to_bytes_v2_layout h w.counted)
    ∙ dispatch_v2 buf h.entry h.nsegs h.flags (omega arith)
        (le32-to_le32 h.magic (omega (arith, w.magic)) ∙ w.magic) (le64-to_le64 h.entry w.entry)
        (le32-to_le32 h.nsegs (omega (arith, w.few))) (le32-to_le32 h.flags w.flags)
        (le32-to_le32 2 (omega arith))
    ∙ read_v2_table h onx_magic 2 h.entry h.flags (fields 2 h ++ replicate 8 0) refl w
    ∙ ap (λ m. some (record h { magic = m; version = 2 })) (sym w.magic)

-- A version 1 header with at most 8 segments reads back as it was, with version 1 and with the
-- compressed sizes, which version 1 does not hold, set to 0.
pub header_from_bytes-header_to_bytes_v1 :
    (h : OnxHeader)
    → IsHeader 8 h
    → header_from_bytes (header_to_bytes_v1 h)
      ≡ some (record h { version = 1; segs = map uncompressed h.segs })
unfolding to_le32 to_le64
header_from_bytes-header_to_bytes_v1 h w =
    let rest = drop (length h.segs * segment_size_v1) (replicate 320 0) in
    let buf = fields 1 h ++ (table_v1 h ++ rest) in
    let counted = w.counted in
    let few = w.few in
    let table =
      length-entries segment_to_bytes_v1 segment_size_v1 length-segment_to_bytes_v1 h.segs in
    let whole = length-append (table_v1 h) rest in
    let left = length-drop (length h.segs * segment_size_v1) (replicate {A = ℕ} 320 0) in
    ap header_from_bytes (header_to_bytes_v1_layout h (omega arith))
    ∙ dispatch_v1 buf h.entry h.nsegs h.flags (omega arith)
        (le32-to_le32 h.magic (omega (arith, w.magic)) ∙ w.magic) (le64-to_le64 h.entry w.entry)
        (le32-to_le32 h.nsegs (omega (arith, w.few))) (le32-to_le32 h.flags w.flags)
        (le32-to_le32 1 (omega arith))
    ∙ read_v1_table h onx_magic 1 h.entry h.flags (fields 1 h) rest refl (omega arith) w
    ∙ ap (λ m. some (record h { magic = m; version = 1; segs = map uncompressed h.segs }))
        (sym w.magic)
