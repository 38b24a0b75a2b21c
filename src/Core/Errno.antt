-- ===== src/Core/Errno.antt =====
-- core/src/errno.rs
use Prim.Native.String.{String}
use slipper_kernel.Prelude.{ℕ}

pub data Errno : Type 0 where
  ok_errno no_mem inval no_ent io perm range no_sys busy no_space not_dir is_dir bad_fd exist pipe
        overflow :
      Errno

-- The discriminants are 0, -1, … -15: this is the number below zero.
unfoldable pub negated : Errno → ℕ
negated ok_errno = 0
negated no_mem = 1
negated inval = 2
negated no_ent = 3
negated io = 4
negated perm = 5
negated range = 6
negated no_sys = 7
negated busy = 8
negated no_space = 9
negated not_dir = 10
negated is_dir = 11
negated bad_fd = 12
negated exist = 13
negated pipe = 14
negated overflow = 15

unfoldable pub as_str : Errno → String
as_str ok_errno = "OK"
as_str no_mem = "ENOMEM"
as_str inval = "EINVAL"
as_str no_ent = "ENOENT"
as_str io = "EIO"
as_str perm = "EPERM"
as_str range = "ERANGE"
as_str no_sys = "ENOSYS"
as_str busy = "EBUSY"
as_str no_space = "ENOSPC"
as_str not_dir = "ENOTDIR"
as_str is_dir = "EISDIR"
as_str bad_fd = "EBADF"
as_str exist = "EEXIST"
as_str pipe = "EPIPE"
as_str overflow = "EOVERFLOW"

-- `KResult<T>`
pub data KResult {ℓ} (A : Type ℓ) : Type ℓ where
  ok : A → KResult A
  err : Errno → KResult A
