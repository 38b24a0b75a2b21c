-- ===== src/Core/Formats/Header/Table.antt =====
-- A table of fixed-size entries, written entry by entry and read back.
use slipper_kernel.Prelude.{
  ℕ, suc, ◌+◌, ◌*◌, ◌-◌, List, [], ◌∷◌, ◌++◌, Option, some, ◌≡◌, refl, sym, ap, ◌∙◌, arith, All,
  length, map, drop, take-append, drop-append, drop-append_add, drop-drop, append_assoc,
  length-append,
}
use slipper_kernel.Core.Parser.{slice, copy_at}
use slipper_kernel.Core.Formats.Segment.{OnxSegment}
use slipper_kernel.Core.Formats.Header.{read_segs, write_segs}

copy_at-append :
    (pre bytes rest : List ℕ) (off : ℕ)
    → off ≡ length pre
    → copy_at off bytes (pre ++ rest) ≡ (pre ++ bytes) ++ drop (length bytes) rest
copy_at-append pre bytes rest off e =
    rw
      (
        take-append pre rest off e,
        drop-append_add pre rest (off + length bytes) (length bytes) (omega arith),
      )
      (sym (append_assoc pre bytes (drop (length bytes) rest)))

slice-append :
    (pre bytes rest : List ℕ) (off end : ℕ)
    → off ≡ length pre
    → end ≡ off + length bytes
    → slice (pre ++ (bytes ++ rest)) off end ≡ bytes
slice-append pre bytes rest off end e e' =
    rw (drop-append pre (bytes ++ rest) off e) (take-append bytes rest (end - off) (omega arith))

module _ (to : OnxSegment → List ℕ) (size : ℕ)
    (sized : (s : OnxSegment) → length (to s) ≡ size) where
  -- the table's bytes
  pub entries : List OnxSegment → List ℕ
  entries [] = []
  entries (s ∷ rest) = to s ++ entries rest

  pub length-entries : (segs : List OnxSegment) → length (entries segs) ≡ length segs * size
  unfolding entries
  length-entries [] = omega arith
  length-entries (s ∷ rest) =
      omega (arith, length-append (to s) (entries rest), sized s, length-entries rest)

  pub write_segs-append :
      (base i : ℕ) (segs : List OnxSegment) (pre rest : List ℕ)
      → base + i * size ≡ length pre
      → write_segs to base size segs i (pre ++ rest)
        ≡ pre ++ (entries segs ++ drop (length segs * size) rest)
  unfolding write_segs entries
  write_segs-append base i [] pre rest e = let z : 0 * size ≡ 0 = omega arith in rw z
  write_segs-append base i (s ∷ segs) pre rest e =
      let n = length segs * size in
      let grown = length-append pre (to s) in
      let width = sized s in
      let total : length (to s) + n ≡ suc (length segs) * size = omega arith in
      ap (write_segs to base size segs (i + 1)) (copy_at-append pre (to s) rest (base + i * size) e)
      ∙ write_segs-append base (i + 1) segs (pre ++ to s) (drop (length (to s)) rest) (omega arith)
      ∙ rw (drop-drop n (length (to s)) rest, total)
          (append_assoc pre (to s) (entries segs ++ drop (suc (length segs) * size) rest)
            ∙ ap (λ t. pre ++ t) (sym (append_assoc (to s) (entries segs) _)))

  module _ (from : List ℕ → Option OnxSegment) (back : OnxSegment → OnxSegment)
      (Good : OnxSegment → Type 0)
      (read_back : (s : OnxSegment) → Good s → from (to s) ≡ some (back s)) where
    read_segs-cons :
        (base : ℕ) (buf : List ℕ) (i n : ℕ) (s : OnxSegment) (r : List OnxSegment)
        → from (slice buf (base + i * size) (base + i * size + size)) ≡ some s
        → read_segs from base size buf (i + 1) n ≡ some r
        → read_segs from base size buf i (suc n) ≡ some (s ∷ r)
    unfolding read_segs
    read_segs-cons base buf i n s r h h' = rw (h, h')

    pub read_segs-append :
        (base i : ℕ) (segs : List OnxSegment) (pre rest : List ℕ)
        → base + i * size ≡ length pre
        → All Good segs
        → read_segs from base size (pre ++ (entries segs ++ rest)) i (length segs)
          ≡ some (map back segs)
    unfolding entries
    read_segs-append base i [] pre rest e good = unfold read_segs in refl
    read_segs-append base i (s ∷ segs) pre rest e good =
        let off = base + i * size in
        let grown = length-append pre (to s) in
        let width = sized s in
        let tail = entries segs ++ rest in
        let split = ap (λ t. pre ++ t) (append_assoc (to s) (entries segs) rest) in
        read_segs-cons base (pre ++ ((to s ++ entries segs) ++ rest)) i (length segs) (back s)
          (map back segs)
          (ap (λ t. from (slice t off (off + size))) split
            ∙ ap from (slice-append pre (to s) tail off (off + size) e (omega arith))
            ∙ read_back s good.0)
          (ap (λ t. read_segs from base size t (i + 1) (length segs))
              (split ∙ sym (append_assoc pre (to s) tail))
            ∙ read_segs-append base (i + 1) segs (pre ++ to s) rest (omega arith) good.1)
