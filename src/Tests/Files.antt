-- ===== src/Tests/Files.antt =====
-- kernel/src/fs/vfs on concrete inputs.
use slipper_kernel.Prelude.{
  ℕ, ◌+◌, ◌*◌, ◌^◌, ◌≡◌, refl, arith, List, [], ◌∷◌, replicate, get_elem?, some, true, false,
  bytes_eq, if◌then◌else◌,
}
use slipper_kernel.Core.Errno.{KResult, ok, err, bad_fd, no_ent}
use slipper_kernel.Fs.Vfs.Fd.{
  no_fs, onyx, Vfs, VfsFd, fd_token_idx, fd_token_epoch, alloc_fd, claim, claim_from, fd_get,
  fd_check, fd_check_perm, check_perm, close, lseek, negsuc, table,
}
use slipper_kernel.Fs.Vfs.Fd.Table.{IsVfs}
use slipper_kernel.Fs.Vfs.Fd.Claim.{Allocated, alloc_fd_lem}
use slipper_kernel.Fs.Vfs.Fd.Close.{close_stale}
use slipper_kernel.Fs.Vfs.Fd.Seek.{WhenceOutcome, lseek_lem}
use slipper_kernel.Fs.Vfs.Mount.{
  MountEntry, no_mounts, mount_procfs, mount_ipcfs, resolve_mount, ResolveOutcome,
  resolve_mount_lem,
}
use slipper_kernel.Fs.Vfs.File.{Drivers, open_file, open_target, root_lookup, clamp_size}
use slipper_kernel.Fs.Vfs.File.Open.{filled, open_file_opens, open_file_leaks}

abbrev free_fd : VfsFd
free_fd = record { ino = 0; size = 0; pos = 0; fs = no_fs; used = false; perms = 0; epoch = 0 }

abbrev open_fd : VfsFd
open_fd = record { ino = 9; size = 100; pos = 10; fs = onyx; used = true; perms = 7; epoch = 2 }

-- Descriptor 3 of the process is open.
abbrev vfs : Vfs
vfs = record {
  kernel_boot = false;
  kernel_fds = replicate 16 free_fd;
  proc_fds = free_fd ∷ free_fd ∷ free_fd ∷ open_fd ∷ replicate 12 free_fd;
}

vfs-IsVfs : IsVfs vfs
unfolding IsVfs
vfs-IsVfs = (refl, refl)

abbrev token : ℕ
token = 3 * 2 ^ 32 + 2

alloc_fd_lem_example : Allocated 3 vfs (alloc_fd 3 vfs)
alloc_fd_lem_example = alloc_fd_lem 3 vfs vfs-IsVfs

close_stale_example :
    (fd_check token ((close token vfs).1) ≡ err bad_fd)
    × (fd_check token ((alloc_fd 3 ((close token vfs).1)).1) ≡ err bad_fd)
unfolding fd_check fd_get fd_token_idx fd_token_epoch
close_stale_example = close_stale token 3 3 vfs vfs-IsVfs refl

lseek_lem_example : WhenceOutcome 1 3 open_fd vfs (negsuc 4) (lseek token (negsuc 4) 1 vfs)
unfolding fd_check_perm check_perm fd_check fd_get fd_token_idx fd_token_epoch
lseek_lem_example = lseek_lem token 3 1 (negsuc 4) vfs open_fd refl refl (omega arith)

abbrev mounts : List MountEntry
mounts = mount_ipcfs (mount_procfs no_mounts)

-- `proc/1`
resolve_mount_lem_example :
    ResolveOutcome onyx
      (112 ∷ 114 ∷ 111 ∷ 99 ∷ 47 ∷ 49 ∷ [])
      mounts
      (resolve_mount onyx (112 ∷ 114 ∷ 111 ∷ 99 ∷ 47 ∷ 49 ∷ []) mounts)
resolve_mount_lem_example = resolve_mount_lem onyx (112 ∷ 114 ∷ 111 ∷ 99 ∷ 47 ∷ 49 ∷ []) mounts

-- The one file is `a`, inode 9.
abbrev lookup_a : List ℕ → KResult (ℕ × ℕ)
lookup_a path = if bytes_eq path (97 ∷ []) then ok (9, 100) else err no_ent

abbrev drivers : Drivers
drivers = record {
  proc_lookup = λ p. err no_ent;
  proc_size = λ i. ok 0;
  ipc_lookup = λ p. err no_ent;
  ipc_size = λ i. ok 0;
  onyx_lookup = lookup_a;
  fat32_lookup = λ p. err no_ent;
  read_at = λ f i p n. ok [];
  write_at = λ f i b p. ok 0;
}

abbrev claimed : Vfs
claimed = (alloc_fd 1 vfs).1

open_file_opens_example :
    (t : ℕ) × (w' : Vfs) × (fd : VfsFd) × (open_file drivers onyx no_mounts (47 ∷ 97 ∷ []) 1 vfs
      ≡ (ok t, w'))
    × (fd_check t w' ≡ ok 4)
    × (fd_get 4 w' ≡ filled 9 100 (resolve_mount onyx (97 ∷ []) no_mounts).0 (claim 1 fd))
unfolding alloc_fd claim_from resolve_mount open_target root_lookup clamp_size
open_file_opens_example =
    open_file_opens drivers onyx no_mounts (97 ∷ []) 1 4 9 100 vfs claimed vfs-IsVfs refl refl

open_file_leaks_example :
    (fd : VfsFd) × (open_file drivers onyx no_mounts (47 ∷ 98 ∷ []) 1 vfs ≡ (err no_ent, claimed))
    × (get_elem? (table vfs) 4 ≡ some fd)
    × (fd.used ≡ false)
    × (get_elem? (table claimed) 4 ≡ some (claim 1 fd))
unfolding alloc_fd claim_from resolve_mount open_target root_lookup clamp_size
open_file_leaks_example =
    open_file_leaks drivers onyx no_mounts (98 ∷ []) 1 4 no_ent vfs claimed vfs-IsVfs refl refl
