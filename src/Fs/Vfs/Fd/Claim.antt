-- ===== src/Fs/Vfs/Fd/Claim.antt =====
-- kernel/src/fs/vfs/ops.rs: which entry `alloc_fd` hands out, and what it writes there.
use slipper_kernel.Prelude.{
  ℕ, ◌≤◌, ◌<◌, ◌≡◌, ◌≢◌, refl, arith, get_elem?, some, true, false, if◌then◌else◌,
}
use slipper_kernel.Core.Errno.{KResult, ok, err, no_mem}
use slipper_kernel.Fs.Vfs.Fd.{VfsFd, Vfs, vfs_max_fds, table, next_epoch, claim, alloc_fd}
use slipper_kernel.Fs.Vfs.Fd.Table.{IsVfs, AllocFdOutcome, alloc_fd-AllocFdOutcome}

-- The first entry for files: 0 for the kernel, 3 for a process.
abbrev pub lowest : Vfs → ℕ
lowest v = if v.kernel_boot then 0 else 3

-- An entry in use with these permissions and an epoch that is neither 0 nor the one before; the
-- other fields are those of before.
unfoldable pub IsClaimed : ℕ → VfsFd → VfsFd → Type 0
IsClaimed perms old new =
    (new.used ≡ true)
    × (new.perms ≡ perms)
    × (0 < new.epoch)
    × (new.epoch ≢ old.epoch)
    × (new.ino ≡ old.ino)
    × (new.size ≡ old.size)
    × (new.pos ≡ old.pos)
    × (new.fs ≡ old.fs)

-- Every entry from `low` up to `high`, this one not included, is in use.
unfoldable pub AllUsed : ℕ → ℕ → Vfs → Type 0
AllUsed low high v =
    (j : ℕ) (fd : VfsFd) → low ≤ j → j < high → get_elem? (table v) j ≡ some fd → fd.used ≡ true

unfoldable pub Allocated : ℕ → Vfs → KResult ℕ × Vfs → Type 0
Allocated perms v (ok idx, v') =
    (old : VfsFd) × (new : VfsFd) × (lowest v ≤ idx)
    × (get_elem? (table v) idx ≡ some old)
    × (old.used ≡ false)
    × AllUsed (lowest v) idx v
    × (get_elem? (table v') idx ≡ some new)
    × IsClaimed perms old new
    × ((j : ℕ) → j ≢ idx → get_elem? (table v') j ≡ get_elem? (table v) j)
Allocated perms v (err e, v') =
    (e ≡ no_mem) × (table v' ≡ table v) × AllUsed (lowest v) vfs_max_fds v

claim-IsClaimed : (perms : ℕ) (old : VfsFd) → IsClaimed perms old (claim perms old)
unfolding IsClaimed claim next_epoch
claim-IsClaimed perms old = (refl, refl, ground arith, (λ h. ground arith), refl, refl, refl, refl)

Allocated-outcome :
    (perms : ℕ) (v : Vfs) (out : KResult ℕ × Vfs)
    → AllocFdOutcome perms v out
    → Allocated perms v out
unfolding AllocFdOutcome Allocated AllUsed
Allocated-outcome perms v (ok idx, v') (fd, low, here, clear, now, others, before) =
    (fd, claim perms fd, low, here, clear, before, now, claim-IsClaimed perms fd, others)
Allocated-outcome perms v (err e, v') (code, same, all) =
    (code, same, λ j fd low high here. all j fd low here)

-- `alloc_fd` takes the lowest unused entry, of the whole table for the kernel and from entry 3 on
-- for a process, marks it used with the permissions asked for and an epoch that is neither 0 nor the
-- one it had, keeps its other fields, and changes no other entry; it fails, with `NoMem` and with the
-- table in use as it was, only when all those entries are in use (the first three entries of a
-- process do not count).
pub alloc_fd_lem : (perms : ℕ) (v : Vfs) → IsVfs v → Allocated perms v (alloc_fd perms v)
alloc_fd_lem perms v h =
    Allocated-outcome perms v (alloc_fd perms v) (alloc_fd-AllocFdOutcome perms v h)
