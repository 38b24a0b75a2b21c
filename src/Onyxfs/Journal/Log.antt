-- ===== src/Onyxfs/Journal/Log.antt =====
-- kernel/src/fs/onyxfs/journal.rs: what a transaction writes, on a disk whose transfers all succeed.
use slipper_kernel.Prelude.{
  ℕ, suc, ◌+◌, ◌-◌, ◌≤◌, ◌<◌, ◌^◌, List, [], ◌∷◌, length, none, ltb, ◌==◌, true, false, ◌≡◌, refl,
  ap, ap₂, arith, take, ◌∙◌, Bool-cases, inl, inr,
}
use slipper_kernel.Core.Errno.{no_space}
use slipper_kernel.Onyxfs.Journal.{
  Disk, Journal, IoResult, ok, err, and_then, same, write_at, write_block, slot, write_entry,
  commit_entry, no_journal, journal_log, journal_commit,
}

-- a disk with these blocks, whose transfers succeed
abbrev pub sound : (ℕ → List ℕ) → Disk
sound f = record { blocks = f; read_fault = λ b. none; write_fault = λ b. none }

abbrev pub journal : ℕ → ℕ → ℕ → (ℕ → List ℕ) → Journal
journal start size head f = record {
  journal_start = start;
  journal_size = size;
  head = head;
  disk = sound f;
}

-- A journal of at least one block that lies behind block 0 and within the numbers of a u32.
unfoldable pub IsArea : ℕ → ℕ → Type 0
IsArea start size = (0 < start) × (0 < size) × (start + size ≤ 2 ^ 32)

-- journal_log of each block in turn, each with its number
unfoldable pub log_all : List (ℕ × List ℕ) → Journal → IoResult Journal
unfolding journal_log and_then same
log_all [] j = ok j
log_all ((b, bytes) ∷ ws) j = and_then same (log_all ws) (journal_log b bytes j)

-- the entries of `ws` in the blocks from `at` on
unfoldable pub put : ℕ → List (ℕ × List ℕ) → (ℕ → List ℕ) → ℕ → List ℕ
unfolding write_at
put at [] f = f
put at ((b, bytes) ∷ ws) f = put (at + 1) ws (write_at at (write_entry b bytes) f)

pub slot_lem : (start size i : ℕ) → IsArea start size → i < size → slot start i ≡ start + i
unfolding IsArea slot
slot_lem start size i (p, q, r) h = omega arith

pub no_journal_lem :
    (start size head : ℕ) (f : ℕ → List ℕ)
    → IsArea start size
    → no_journal (journal start size head f) ≡ false
unfolding IsArea no_journal
no_journal_lem start size head f (p, q, r) = ground arith

pub journal_log_lem :
    (b : ℕ) (bytes : List ℕ) (start size head : ℕ) (f : ℕ → List ℕ)
    → IsArea start size
    → head < size
    → journal_log b bytes (journal start size head f)
      ≡ ok (journal start size (head + 1) (write_at (start + head) (write_entry b bytes) f))
unfolding journal_log and_then write_block
journal_log_lem b bytes start size head f area h =
    let fits : ltb head size ≡ true = ground arith in
    rw (no_journal_lem start size head f area, fits, slot_lem start size head area h) refl

-- On a journal with room for them, journal_log of a list of blocks succeeds, writes one entry for
-- each behind the head, and touches no other block.
pub log_all_lem :
    (ws : List (ℕ × List ℕ)) (start size head : ℕ) (f : ℕ → List ℕ)
    → IsArea start size
    → head + length ws ≤ size
    → log_all ws (journal start size head f)
      ≡ ok (journal start size (head + length ws) (put (start + head) ws f))
unfolding log_all put and_then same
log_all_lem [] start size head f area h =
    let e : head ≡ head + 0 = omega arith in ap (λ (k : ℕ). ok (journal start size k f)) e
log_all_lem ((b, bytes) ∷ ws) start size head f area h =
    let g : ℕ → List ℕ = write_at (start + head) (write_entry b bytes) f in
    let count : head + 1 + length ws ≡ head + suc (length ws) = omega arith in
    let at : start + (head + 1) ≡ start + head + 1 = omega arith in
    rw (journal_log_lem b bytes start size head f area (omega arith)) (
      log_all_lem ws start size (head + 1) g area (omega arith)
      ∙ ap₂ (λ (k from : ℕ). ok (journal start size k (put from ws g))) count at)

pub journal_commit_lem :
    (start size head : ℕ) (f : ℕ → List ℕ)
    → IsArea start size
    → 0 < head
    → head < size
    → journal_commit (journal start size head f)
      ≡ ok (journal start size 0 (write_at (start + head) commit_entry f))
unfolding journal_commit and_then write_block
journal_commit_lem start size head f area some_logged h =
    let fits : ltb head size ≡ true = ground arith in
    let logged : (head == 0) ≡ false = ground arith in
    rw (no_journal_lem start size head f area, logged, fits, slot_lem start size head area h) refl

-- A full journal: nothing is written for the commit.
pub journal_commit-full :
    (start size head : ℕ) (f : ℕ → List ℕ)
    → IsArea start size
    → 0 < head
    → size ≤ head
    → journal_commit (journal start size head f) ≡ ok (journal start size 0 f)
unfolding journal_commit
journal_commit-full start size head f area some_logged h =
    let full : ltb head size ≡ false = ground arith in
    let logged : (head == 0) ≡ false = ground arith in
    rw (no_journal_lem start size head f area, logged, full) refl

journal_log-full :
    (b : ℕ) (bytes : List ℕ) (start size : ℕ) (f : ℕ → List ℕ)
    → IsArea start size
    → journal_log b bytes (journal start size size f) ≡ err no_space (journal start size size f)
unfolding journal_log
journal_log-full b bytes start size f area =
    let full : ltb size size ≡ false = ground arith in
    rw (no_journal_lem start size size f area, full) refl

-- When the list is longer than the room behind the head, journal_log of its blocks ends in NoSpace,
-- with one entry written for each block that had room, and the head at the journal's end.
pub log_all-full :
    (ws : List (ℕ × List ℕ)) (start size head : ℕ) (f : ℕ → List ℕ)
    → IsArea start size
    → head ≤ size
    → size < head + length ws
    → log_all ws (journal start size head f)
      ≡ err no_space (journal start size size (put (start + head) (take (size - head) ws) f))
unfolding log_all put and_then same
log_all-full [] start size head f area h over = absurd (omega arith)
log_all-full ((b, bytes) ∷ ws) start size head f area h over = elim (Bool-cases (ltb head size)) [
  | inl room ↦
      let g : ℕ → List ℕ = write_at (start + head) (write_entry b bytes) f in
      let less : head < size = ground arith in
      let at : start + (head + 1) ≡ start + head + 1 = omega arith in
      let left : size - head ≡ suc (size - (head + 1)) = omega arith in
      rw (journal_log_lem b bytes start size head f area less, left)
        (log_all-full ws start size (head + 1) g area (omega arith) (omega arith)
          ∙ ap
              (λ (from : ℕ).
                err no_space (journal start size size (put from (take (size - (head + 1)) ws) g)))
              at)
  | inr full ↦
      let e : head ≡ size = ground arith in
      let none_left : size - head ≡ 0 = omega arith in
      rw none_left (rw e (rw (journal_log-full b bytes start size f area) refl))
]
