-- ===== src/Onyxfs/Journal.antt =====
-- kernel/src/fs/onyxfs/journal.rs, over read_block and write_block of kernel/src/fs/onyxfs/mod.rs.
-- The disk is a function from block numbers to contents, with the fault that the driver's transfer
-- of each block ends in, if any: read_multi and write_multi of drivers/virtio_req.rs go sector by
-- sector and stop at the first that fails. `Journal` is the part of `G_SB` and the global `G_JOURNAL_HEAD`
-- that the journal reads; an error leaves the writes made before it on the disk.
pub mod Log
pub mod Recover
pub mod Crash
use slipper_kernel.Prelude.{
  ℕ, zero, suc, ◌+◌, ◌*◌, ◌%◌, ◌^◌, List, [], ◌∷◌, ◌++◌, ◌==◌, if◌then◌else◌, ltb, Option, none,
  some, ◌||◌, Bool, true, false, replicate, take, drop,
}
use slipper_kernel.Core.Errno.{Errno, no_space}
use slipper_kernel.Core.Parser.{le32, to_le32, slice}

-- a read that fails behind this many sectors of a block
pub record ReadFault : Type 0 where
  pub errno : Errno
  pub sectors : ℕ

-- a write that fails behind this many sectors, with what the device leaves in the next one
pub record WriteFault : Type 0 where
  pub errno : Errno
  pub sectors : ℕ
  pub torn_sector : List ℕ

pub record Disk : Type 0 where
  pub blocks : ℕ → List ℕ
  pub read_fault : ℕ → Option ReadFault
  pub write_fault : ℕ → Option WriteFault

abbrev pub sector_size : ℕ
sector_size = 512

-- `read_multi` into a buffer, as a failed one leaves the buffer
unfoldable pub read_part : ReadFault → List ℕ → List ℕ → List ℕ
read_part f block buf = take (f.sectors * sector_size) block ++ drop (f.sectors * sector_size) buf

-- `write_multi`, as a failed one leaves the block
unfoldable pub write_part : WriteFault → List ℕ → List ℕ → List ℕ
write_part f bytes block =
    take (f.sectors * sector_size) bytes
    ++ (take sector_size f.torn_sector ++ drop (f.sectors * sector_size + sector_size) block)

pub record Journal : Type 0 where
  pub journal_start : ℕ
  pub journal_size : ℕ
  pub head : ℕ
  pub disk : Disk

-- `KResult<()>` with the state after the call
pub data IoResult {ℓ} (S : Type ℓ) : Type ℓ where
  ok : S → IoResult S
  err : Errno → S → IoResult S

-- `?`
pub and_then {ℓ κ} :
    {S : Type ℓ} {T : Type κ} → (S → T) → (S → IoResult T) → IoResult S → IoResult T
and_then onto f (ok s) = f s
and_then onto f (err e s) = err e (onto s)

pub same {ℓ} : {S : Type ℓ} → S → S
same s = s

-- the blocks after block `b` has been written
pub write_at : ℕ → List ℕ → (ℕ → List ℕ) → ℕ → List ℕ
write_at b bytes blocks x = if x == b then bytes else blocks x

pub write_block : ℕ → List ℕ → Disk → IoResult Disk
unfolding write_at write_part
write_block b bytes d = elim (d.write_fault b) [
  | none ↦ ok (record d { blocks = write_at b bytes d.blocks })
  | some f ↦
      err f.errno (record d { blocks = write_at b (write_part f bytes (d.blocks b)) d.blocks })
]

-- `journal_start + i` on u32
unfoldable pub slot : ℕ → ℕ → ℕ
slot start i = (start + i) % 2 ^ 32

abbrev pub journal_type_commit_start : ℕ
journal_type_commit_start = 0

abbrev pub journal_type_block_write : ℕ
journal_type_block_write = 1

abbrev pub journal_type_commit_end : ℕ
journal_type_commit_end = 2

abbrev pub journal_data_size : ℕ
journal_data_size = 4088

unfoldable pub zeros : ℕ → List ℕ
zeros n = replicate n 0

-- the entry that journal_log makes of the 4096 bytes of a block
unfoldable pub write_entry : ℕ → List ℕ → List ℕ
write_entry block_num bytes =
    to_le32 journal_type_block_write ++ (to_le32 block_num ++ take journal_data_size bytes)

unfoldable pub commit_entry : List ℕ
unfolding zeros
commit_entry = to_le32 journal_type_commit_end ++ zeros 4092

unfoldable pub entry_type : List ℕ → ℕ
entry_type entry = le32 (slice entry 0 4)

unfoldable pub entry_block : List ℕ → ℕ
entry_block entry = le32 (slice entry 4 8)

-- a block whose first 4088 bytes are replaced
unfoldable pub overlay : List ℕ → List ℕ → List ℕ
overlay bytes blk = take journal_data_size bytes ++ drop journal_data_size blk

pub no_journal : Journal → Bool
no_journal j = (j.journal_start == 0) || (j.journal_size == 0)

pub journal_log : ℕ → List ℕ → Journal → IoResult Journal
unfolding no_journal write_block slot write_entry
journal_log block_num bytes j =
    if no_journal j
    then ok j
    else if ltb j.head j.journal_size
    then and_then (λ (d : Disk). record j { disk = d })
        (λ (d : Disk). ok (record j { head = j.head + 1; disk = d }))
        (write_block (slot j.journal_start j.head) (write_entry block_num bytes) j.disk)
    else err no_space j

pub journal_commit : Journal → IoResult Journal
unfolding no_journal write_block slot commit_entry
journal_commit j =
    if no_journal j || (j.head == 0)
    then ok j
    else if ltb j.head j.journal_size
    then and_then (λ (d : Disk). record j { disk = d })
        (λ (d : Disk). ok (record j { head = 0; disk = d }))
        (write_block (slot j.journal_start j.head) commit_entry j.disk)
    else ok (record j { head = 0 })

-- how the scan for a commit_end ends
pub data Scan : Type 0 where
  found_commit : ℕ → Scan
  no_commit : Scan
  failed : Errno → Scan

-- the `match` of the scan at entry `i`; `rest` is the scan from the next entry on
pub scan_entry : ℕ → ℕ → Scan → Scan
scan_entry type i rest =
    if (type == journal_type_commit_start) || (type == journal_type_block_write)
    then rest
    else if type == journal_type_commit_end
    then found_commit i
    else no_commit

-- `while i < journal_size`, with `left` entries to read
pub scan : ℕ → Disk → ℕ → ℕ → Scan
unfolding scan_entry slot entry_type
scan start d i zero = no_commit
scan start d i (suc left) =
    let rest = scan start d (i + 1) left in
    elim (d.read_fault (slot start i)) [
      | none ↦ scan_entry (entry_type (d.blocks (slot start i))) i rest
      | some f ↦ failed f.errno
    ]

-- `let _ = read_block(block_num, &mut blk_buf)`: a failed read leaves the sectors read before it,
-- and behind them the buffer's zeros.
pub read_or_zeros : ℕ → Disk → List ℕ
unfolding read_part zeros
read_or_zeros b d = elim (d.read_fault b) [
  | none ↦ d.blocks b
  | some f ↦ read_part f (d.blocks b) (zeros 4096)
]

-- one round of the replay
pub replay_entry : ℕ → ℕ → Disk → IoResult Disk
unfolding slot entry_type entry_block overlay read_or_zeros write_block
replay_entry start i d = elim (d.read_fault (slot start i)) [
  | some f ↦ err f.errno d
  | none ↦
      let entry = d.blocks (slot start i) in
      if entry_type entry == journal_type_block_write
      then write_block (entry_block entry)
          (overlay (drop 8 entry) (read_or_zeros (entry_block entry) d)) d
      else ok d
]

-- `for j in i..i + left`
pub replay : ℕ → ℕ → ℕ → Disk → IoResult Disk
unfolding replay_entry
replay start i zero d = ok d
replay start i (suc left) d = and_then same (replay start (i + 1) left) (replay_entry start i d)

-- the entries from `i` on zeroed, `left` of them
pub clear : ℕ → ℕ → ℕ → Disk → IoResult Disk
unfolding write_block slot zeros
clear start i zero d = ok d
clear start i (suc left) d =
    and_then same (clear start (i + 1) left) (write_block (slot start i) (zeros 4096) d)

pub recover_from : Scan → Journal → IoResult Journal
unfolding replay clear
recover_from (failed e) j = err e j
recover_from no_commit j = ok (record j { head = 0 })
recover_from (found_commit commit_at) j =
    and_then (λ (d : Disk). record j { disk = d })
      (λ (d : Disk). ok (record j { head = 0; disk = d }))
      (and_then same (clear j.journal_start 0 (commit_at + 1))
        (replay j.journal_start 0 commit_at j.disk))

pub journal_recover : Journal → IoResult Journal
unfolding no_journal scan recover_from
journal_recover j =
    if no_journal j then ok j else recover_from (scan j.journal_start j.disk 0 j.journal_size) j
