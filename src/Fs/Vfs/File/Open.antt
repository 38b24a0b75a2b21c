-- ===== src/Fs/Vfs/File/Open.antt =====
-- kernel/src/fs/vfs/file.rs: what `open` leaves in the table of descriptors.
use slipper_kernel.Prelude.{
  ℕ, zero, suc, ◌^◌, ◌<◌, ◌≡◌, refl, ap, subst, ◌∙◌, arith, List, [], ◌∷◌, length, get_elem?, some,
  true, false,
}
use slipper_kernel.Core.Errno.{Errno, KResult, ok, err}
use slipper_kernel.Fs.Vfs.Fd.{
  Fs, VfsFd, Vfs, vfs_max_fds, table, update_fd, claim, alloc_fd, fd_get, fd_set, fd_check,
  fd_token,
}
use slipper_kernel.Fs.Vfs.Fd.Table.{
  IsVfs, AllocFdOutcome, alloc_fd-AllocFdOutcome, length-table, get_elem?-update_fd,
  table-with_table,
}
use slipper_kernel.Fs.Vfs.Fd.Check.{fd_get_lem, fd_check-fd_token, next_epoch-lt}
use slipper_kernel.Fs.Vfs.Mount.{MountEntry, resolve_mount}
use slipper_kernel.Fs.Vfs.File.{Drivers, open_target, fill_fd, open_with, open_file}

open_file_lem :
    (d : Drivers) (root_fs : Fs) (mounts : List MountEntry) (name : List ℕ) (perms : ℕ) (v w : Vfs)
    (idx : ℕ)
    → alloc_fd perms v ≡ (ok idx, w)
    → open_file d root_fs mounts (47 ∷ name) perms v ≡ (
        let (fs, subpath) = resolve_mount root_fs name mounts in
        fill_fd idx fs w (open_target d root_fs name fs subpath))
unfolding open_file open_with
open_file_lem d root_fs mounts name perms v w idx h = ap (open_with d root_fs mounts name) h

abbrev pub filled : ℕ → ℕ → Fs → VfsFd → VfsFd
filled ino size fs fd = record fd { ino = ino; size = size; fs = fs; pos = 0 }

fill_fd_lem :
    (idx ino size : ℕ) (fs : Fs) (w : Vfs) (fd : VfsFd)
    → idx < vfs_max_fds
    → get_elem? (table w) idx ≡ some fd
    → fd.used ≡ true
    → fd.epoch < 2 ^ 32
    → (token : ℕ) × (w' : Vfs) × (fill_fd idx fs w (ok (ino, size)) ≡ (ok token, w'))
      × (fd_check token w' ≡ ok idx)
      × (fd_get idx w' ≡ filled ino size fs fd)
unfolding fill_fd fd_set
fill_fd_lem idx ino size fs w fd small here used low =
    let w' = fd_set idx ino size fs 0 w in
    let stored : get_elem? (table w') idx ≡ some (filled ino size fs fd) =
      ap (λ (t : List VfsFd). get_elem? t idx)
        (table-with_table (update_fd idx (filled ino size fs) (table w)) w)
      ∙ get_elem?-update_fd (table w) idx (filled ino size fs) fd here in
    (
      fd_token idx (fd_get idx w').epoch,
      w',
      refl,
      fd_check-fd_token idx w' (filled ino size fs fd) small stored used low,
      fd_get_lem idx w' (filled ino size fs fd) stored,
    )

get_elem?-lt : (xs : List VfsFd) (i : ℕ) (fd : VfsFd) → get_elem? xs i ≡ some fd → i < length xs
get_elem?-lt [] i fd h = absurd cc
get_elem?-lt (x ∷ xs) zero fd h = omega arith
get_elem?-lt (x ∷ xs) (suc i) fd h = let ih = get_elem?-lt xs i fd h in omega arith

-- the target that `open` looks up for a path
abbrev pub target : Drivers → Fs → List MountEntry → List ℕ → KResult (ℕ × ℕ)
target d root_fs mounts name =
    let (fs, subpath) = resolve_mount root_fs name mounts in open_target d root_fs name fs subpath

-- When a descriptor is free and the path is found, `open` gives a token that is accepted for that
-- descriptor, which then has the inode and size found, the file system of the path's mount, the
-- permissions asked for, and position 0.
pub open_file_opens :
    (d : Drivers) (root_fs : Fs) (mounts : List MountEntry) (name : List ℕ) (perms idx ino size : ℕ)
    (v w : Vfs)
    → IsVfs v
    → alloc_fd perms v ≡ (ok idx, w)
    → target d root_fs mounts name ≡ ok (ino, size)
    → (token : ℕ) × (w' : Vfs) × (fd : VfsFd) × (open_file d root_fs mounts (47 ∷ name) perms v
        ≡ (ok token, w'))
      × (fd_check token w' ≡ ok idx)
      × (fd_get idx w' ≡ filled ino size (resolve_mount root_fs name mounts).0 (claim perms fd))
unfolding AllocFdOutcome claim
open_file_opens d root_fs mounts name perms idx ino size v w h claimed found =
    let (fd, low, was, clear, now, others, before) =
      subst (AllocFdOutcome perms v) claimed (alloc_fd-AllocFdOutcome perms v h) in
    let fs = (resolve_mount root_fs name mounts).0 in
    let in_table = get_elem?-lt (table v) idx fd was in
    let (token, w', done, valid, entry) =
      fill_fd_lem idx ino size fs w (claim perms fd) (omega (arith, in_table, length-table v h)) now
        refl (next_epoch-lt fd.epoch) in
    (
      token,
      w',
      fd,
      open_file_lem d root_fs mounts name perms v w idx claimed
          ∙ ap (fill_fd idx fs w) found
          ∙ done,
      valid,
      entry,
    )

-- When the path is not found, `open` reports the error but keeps the descriptor that it had claimed:
-- an entry that was free is in use afterwards, and no token for it was given out.
pub open_file_leaks :
    (d : Drivers) (root_fs : Fs) (mounts : List MountEntry) (name : List ℕ) (perms idx : ℕ)
    (e : Errno) (v w : Vfs)
    → IsVfs v
    → alloc_fd perms v ≡ (ok idx, w)
    → target d root_fs mounts name ≡ err e
    → (fd : VfsFd) × (open_file d root_fs mounts (47 ∷ name) perms v ≡ (err e, w))
      × (get_elem? (table v) idx ≡ some fd)
      × (fd.used ≡ false)
      × (get_elem? (table w) idx ≡ some (claim perms fd))
unfolding AllocFdOutcome fill_fd
open_file_leaks d root_fs mounts name perms idx e v w h claimed missing =
    let (fd, low, was, clear, now, others, before) =
      subst (AllocFdOutcome perms v) claimed (alloc_fd-AllocFdOutcome perms v h) in
    let fs = (resolve_mount root_fs name mounts).0 in
    (
      fd,
      open_file_lem d root_fs mounts name perms v w idx claimed ∙ ap (fill_fd idx fs w) missing,
      was,
      clear,
      now,
    )
