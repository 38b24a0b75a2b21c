-- ===== src/Fs/Vfs/File.antt =====
-- kernel/src/fs/vfs/file.rs and rw.rs: open, read and write.
-- The file systems stand behind an interface, `Drivers`: what their `lookup`, `stat`, `read` and
-- `write` give now. Their own state is not part of this model.
pub mod Open
use slipper_kernel.Prelude.{
  ℕ, zero, suc, ◌+◌, ◌-◌, ◌%◌, ◌^◌, min, List, [], ◌∷◌, length, Bool, true, false, ltb, ◌==◌,
  if◌then◌else◌,
}
use slipper_kernel.Core.Errno.{KResult, ok, err, inval, perm, no_sys}
use slipper_kernel.Fs.Vfs.Fd.{
  Fs, no_fs, onyx, fat32, proc, ipc, VfsFd, Vfs, table, with_table, update_fd, alloc_fd, fd_get,
  fd_set, fd_token, fd_check_perm, fd_update_pos, perm_read, perm_write,
}
use slipper_kernel.Fs.Vfs.Mount.{MountEntry, resolve_mount}

pub record Drivers : Type 0 where
  -- the inode of a path, and the size of an inode
  pub proc_lookup : List ℕ → KResult ℕ
  pub proc_size : ℕ → KResult ℕ
  pub ipc_lookup : List ℕ → KResult ℕ
  pub ipc_size : ℕ → KResult ℕ
  -- the inode or first cluster of a path, with the size
  pub onyx_lookup : List ℕ → KResult (ℕ × ℕ)
  pub fat32_lookup : List ℕ → KResult (ℕ × ℕ)
  -- the bytes at a position of an inode
  pub read_at : Fs → ℕ → ℕ → ℕ → KResult (List ℕ)
  pub write_at : Fs → ℕ → List ℕ → ℕ → KResult ℕ

-- `st.ino` and `st.size` of `procfs` and `ipcfs`
unfoldable pub with_size : (ℕ → KResult ℕ) → KResult ℕ → KResult (ℕ × ℕ)
with_size size_of (err e) = err e
with_size size_of (ok ino) = elim (size_of ino) [ err e ↦ err e | ok size ↦ ok (ino, size) ]

-- `st.size.min(u32::MAX as u64) as u32`
unfoldable pub clamp_size : KResult (ℕ × ℕ) → KResult (ℕ × ℕ)
clamp_size (err e) = err e
clamp_size (ok (ino, size)) = ok (ino, min size (2 ^ 32 - 1))

unfoldable pub root_lookup : Drivers → List ℕ → Fs → KResult (ℕ × ℕ)
unfolding clamp_size
root_lookup d name onyx = clamp_size (d.onyx_lookup name)
root_lookup d name fat32 = d.fat32_lookup name
root_lookup d name _ = err inval

-- the `match fs` of `open`
unfoldable pub open_target : Drivers → Fs → List ℕ → Fs → List ℕ → KResult (ℕ × ℕ)
unfolding with_size root_lookup
open_target d root_fs name proc subpath = with_size d.proc_size (d.proc_lookup subpath)
open_target d root_fs name ipc subpath = with_size d.ipc_size (d.ipc_lookup subpath)
open_target d root_fs name _ subpath = root_lookup d name root_fs

-- the end of `open`
pub fill_fd : ℕ → Fs → Vfs → KResult (ℕ × ℕ) → KResult ℕ × Vfs
fill_fd idx fs v (err e) = (err e, v)
fill_fd idx fs v (ok (ino, size)) =
    let v' = fd_set idx ino size fs 0 v in (ok (fd_token idx (fd_get idx v').epoch), v')

-- `open` after `alloc_fd`
pub open_with : Drivers → Fs → List MountEntry → List ℕ → KResult ℕ × Vfs → KResult ℕ × Vfs
unfolding open_target fill_fd
open_with d root_fs mounts name (err e, v) = (err e, v)
open_with d root_fs mounts name (ok idx, v) =
    let (fs, subpath) = resolve_mount root_fs name mounts in
    fill_fd idx fs v (open_target d root_fs name fs subpath)

pub open_file : Drivers → Fs → List MountEntry → List ℕ → ℕ → Vfs → KResult ℕ × Vfs
unfolding open_with
open_file d root_fs mounts [] perms v = (err inval, v)
open_file d root_fs mounts (c ∷ name) perms v =
    if c == 47 then open_with d root_fs mounts name (alloc_fd perms v) else (err inval, v)

-- the `match fd.fs` of `read`
pub read_from : Drivers → VfsFd → ℕ → KResult (List ℕ)
read_from d fd to_read = elim fd.fs [ no_fs ↦ err inval | fs ↦ d.read_at fs fd.ino fd.pos to_read ]

-- the end of `read`: the bytes stored, and the position moved past them
pub advance_pos : ℕ → VfsFd → Vfs → KResult (List ℕ) → KResult (List ℕ) × Vfs
advance_pos idx fd v (err e) = (err e, v)
advance_pos idx fd v (ok bytes) = (ok bytes, fd_update_pos idx ((fd.pos + length bytes) % 2 ^ 32) v)

pub read_fd : Drivers → ℕ → ℕ → Vfs → VfsFd → KResult (List ℕ) × Vfs
unfolding read_from advance_pos
read_fd d idx len v fd =
    let to_read = min len (fd.size - fd.pos) in
    if to_read == 0 then (ok [], v) else advance_pos idx fd v (read_from d fd to_read)

pub read : Drivers → ℕ → ℕ → Vfs → KResult (List ℕ) × Vfs
unfolding read_fd
read d token len v = elim (fd_check_perm token perm_read v) [
  | err e ↦ (err e, v)
  | ok idx ↦ read_fd d idx len v (fd_get idx v)
]

-- the `match fd.fs` of `write`
pub write_to : Drivers → VfsFd → List ℕ → KResult ℕ
write_to d fd bytes = elim fd.fs [
  | onyx ↦ d.write_at onyx fd.ino bytes fd.pos
  | proc ↦ err perm
  | ipc ↦ d.write_at ipc fd.ino bytes fd.pos
  | _ ↦ err no_sys
]

-- the end of `write`: the position moves, and the size grows to it where it is smaller
pub grow : ℕ → VfsFd → Vfs → KResult ℕ → KResult ℕ × Vfs
grow idx fd v (err e) = (err e, v)
grow idx fd v (ok written) =
    let new_pos = (fd.pos + written) % 2 ^ 32 in
    let v' = fd_update_pos idx new_pos v in
    let v'' = with_table (update_fd idx (λ f. record f { size = new_pos }) (table v')) v' in
    (ok written, if ltb fd.size new_pos then v'' else v')

pub write : Drivers → ℕ → List ℕ → Vfs → KResult ℕ × Vfs
unfolding write_to grow
write d token bytes v = elim (fd_check_perm token perm_write v) [
  | err e ↦ (err e, v)
  | ok idx ↦ grow idx (fd_get idx v) v (write_to d (fd_get idx v) bytes)
]
