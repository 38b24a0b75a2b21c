-- ===== src/Fs/Vfs/Fd.antt =====
-- kernel/src/fs/vfs/vnode.rs, ops.rs, dup.rs and seek.rs: the tables of file descriptors.
-- `Vfs` has the two tables that the code chooses from, that of the kernel (`G_KERNEL_FDS`) and that of
-- the running process (`Proc::fds`), and `kernel_boot`, which chooses (`is_kernel_boot`).
pub mod Token
pub mod Table
pub mod Claim
pub mod Check
pub mod Close
pub mod Seek
use slipper_kernel.Prelude.{
  ℕ, zero, suc, ◌+◌, ◌-◌, ◌*◌, ◌/◌, ◌%◌, ◌^◌, List, [], ◌∷◌, ◌++◌, take, drop, get_elem?, Option,
  none, some, Bool, true, false, not, ◌&&◌, ◌||◌, ltb, leb, ◌==◌, if◌then◌else◌, bit_and, bit_or,
}
use slipper_kernel.Core.Errno.{KResult, ok, err, no_mem, bad_fd, perm, inval, range}

abbrev pub vfs_max_fds : ℕ
vfs_max_fds = 16

pub data Fs : Type 0 where
  no_fs onyx fat32 proc ipc : Fs

abbrev pub perm_read : ℕ
perm_read = 1

abbrev pub perm_write : ℕ
perm_write = 2

abbrev pub perm_seek : ℕ
perm_seek = 4

pub record VfsFd : Type 0 where
  pub ino : ℕ
  pub size : ℕ
  pub pos : ℕ
  pub fs : Fs
  pub used : Bool
  pub perms : ℕ
  pub epoch : ℕ

-- `VfsFd::default`
unfoldable pub default_fd : VfsFd
default_fd = record { ino = 0; size = 0; pos = 0; fs = no_fs; used = false; perms = 0; epoch = 0 }

unfoldable pub fd_token : ℕ → ℕ → ℕ
fd_token idx epoch = bit_or (idx * 2 ^ 32 % 2 ^ 64) epoch

unfoldable pub fd_token_idx : ℕ → ℕ
fd_token_idx token = token / 2 ^ 32

unfoldable pub fd_token_epoch : ℕ → ℕ
fd_token_epoch token = token % 2 ^ 32

pub record Vfs : Type 0 where
  pub kernel_boot : Bool
  pub kernel_fds : List VfsFd
  pub proc_fds : List VfsFd

-- the table in use
abbrev pub table : Vfs → List VfsFd
table v = if v.kernel_boot then v.kernel_fds else v.proc_fds

abbrev pub with_table : List VfsFd → Vfs → Vfs
with_table fds v =
    if v.kernel_boot then record v { kernel_fds = fds } else record v { proc_fds = fds }

-- a change of `fds[idx]` in place
pub update_fd : ℕ → (VfsFd → VfsFd) → List VfsFd → List VfsFd
update_fd idx f [] = []
update_fd zero f (fd ∷ rest) = f fd ∷ rest
update_fd (suc idx) f (fd ∷ rest) = fd ∷ update_fd idx f rest

-- `epoch.wrapping_add(1)`, and 1 in place of 0
unfoldable pub next_epoch : ℕ → ℕ
next_epoch e = let e' = (e + 1) % 2 ^ 32 in if e' == 0 then 1 else e'

unfoldable pub claim : ℕ → VfsFd → VfsFd
unfolding next_epoch
claim perms fd = record fd { used = true; perms = perms; epoch = next_epoch fd.epoch }

-- The loop of `alloc_fd`; the list is the table from index `i` on.
unfoldable pub claim_from : ℕ → List VfsFd → ℕ → KResult ℕ × List VfsFd
unfolding claim
claim_from perms [] i = (err no_mem, [])
claim_from perms (fd ∷ rest) i =
    let (r, rest') = claim_from perms rest (i + 1) in
    if not fd.used then (ok i, claim perms fd ∷ rest) else (r, fd ∷ rest')

-- 0 in the kernel; a process's descriptors 0 to 2 are its terminal.
abbrev pub first_fd : Vfs → ℕ
first_fd v = if v.kernel_boot then 0 else 3

unfoldable pub alloc_fd : ℕ → Vfs → KResult ℕ × Vfs
unfolding claim_from
alloc_fd perms v =
    let (r, claimed) = claim_from perms (drop (first_fd v) (table v)) (first_fd v) in
    (r, with_table (take (first_fd v) (table v) ++ claimed) v)

-- Out of range, where the code panics, the answer is an unused entry.
unfoldable pub fd_get : ℕ → Vfs → VfsFd
unfolding default_fd
fd_get idx v = elim (get_elem? (table v) idx) [ none ↦ default_fd | some fd ↦ fd ]

unfoldable pub fd_check : ℕ → Vfs → KResult ℕ
unfolding fd_get
fd_check token v =
    let idx = fd_token_idx token in
    let fd = fd_get idx v in
    if leb vfs_max_fds idx
    then err bad_fd
    else if not fd.used || not (fd.epoch == fd_token_epoch token)
    then err bad_fd
    else ok idx

-- the test of `fd_check_perm`, on the entry
unfoldable pub check_perm : ℕ → Vfs → KResult ℕ → KResult ℕ
unfolding fd_get
check_perm perm_bit v (err e) = err e
check_perm perm_bit v (ok idx) =
    if bit_and (fd_get idx v).perms perm_bit == 0 then err perm else ok idx

unfoldable pub fd_check_perm : ℕ → ℕ → Vfs → KResult ℕ
unfolding fd_check check_perm
fd_check_perm token perm_bit v = check_perm perm_bit v (fd_check token v)

unfoldable pub fd_set : ℕ → ℕ → ℕ → Fs → ℕ → Vfs → Vfs
unfolding update_fd
fd_set idx ino size fs at v =
    with_table
      (update_fd idx (λ fd. record fd { ino = ino; size = size; fs = fs; pos = at }) (table v)) v

pub fd_update_pos : ℕ → ℕ → Vfs → Vfs
unfolding update_fd
fd_update_pos idx at v = with_table (update_fd idx (λ fd. record fd { pos = at }) (table v)) v

pub fd_clear : ℕ → Vfs → Vfs
unfolding update_fd
fd_clear idx v = with_table (update_fd idx (λ fd. record fd { used = false }) (table v)) v

-- `close` of file.rs
pub close : ℕ → Vfs → KResult (Unit {0}) × Vfs
unfolding fd_check fd_clear
close token v = elim (fd_check token v) [ err e ↦ (err e, v) | ok idx ↦ (ok tt, fd_clear idx v) ]

-- the end of `dup`, with the result of `alloc_fd`
pub dup_into : VfsFd → KResult ℕ × Vfs → KResult ℕ × Vfs
unfolding fd_set fd_get
dup_into fd (err e, v) = (err e, v)
dup_into fd (ok idx, v) =
    let v' = fd_set idx fd.ino fd.size fd.fs fd.pos v in
    (ok (fd_token idx (fd_get idx v').epoch), v')

pub dup : ℕ → Vfs → KResult ℕ × Vfs
unfolding fd_check fd_get alloc_fd dup_into
dup token v = elim (fd_check token v) [
  | err e ↦ (err e, v)
  | ok idx ↦ dup_into (fd_get idx v) (alloc_fd (fd_get idx v).perms v)
]

-- what `dup2` stores in the entry
pub overwrite : VfsFd → VfsFd → VfsFd
unfolding claim
overwrite fd old = record (claim fd.perms old) {
  ino = fd.ino;
  size = fd.size;
  fs = fd.fs;
  pos = fd.pos;
}

pub dup2 : ℕ → ℕ → Vfs → KResult ℕ × Vfs
unfolding fd_check fd_get overwrite update_fd
dup2 old_token new_idx v = elim (fd_check old_token v) [
  | err e ↦ (err e, v)
  | ok idx ↦
      let v' = with_table (update_fd new_idx (overwrite (fd_get idx v)) (table v)) v in
      if leb vfs_max_fds new_idx
      then (err bad_fd, v)
      else (ok (fd_token new_idx (fd_get new_idx v').epoch), v')
]

-- an end of a pipe: `ino = !0`, `fs = Fs::Ipc`
abbrev pub set_pipe : ℕ → Vfs → Vfs
set_pipe idx v = fd_set idx (2 ^ 32 - 1) 0 ipc 0 v

pub pipe_ends : ℕ → KResult ℕ × Vfs → KResult (ℕ × ℕ) × Vfs
unfolding fd_set fd_get
pipe_ends r_idx (err e, v) = (err e, v)
pipe_ends r_idx (ok w_idx, v) =
    let v' = set_pipe w_idx (set_pipe r_idx v) in
    (ok (fd_token r_idx (fd_get r_idx v').epoch, fd_token w_idx (fd_get w_idx v').epoch), v')

pub pipe_from : KResult ℕ × Vfs → KResult (ℕ × ℕ) × Vfs
unfolding alloc_fd pipe_ends
pipe_from (err e, v) = (err e, v)
pipe_from (ok r_idx, v) = pipe_ends r_idx (alloc_fd perm_write v)

pub create_pipe : Vfs → KResult (ℕ × ℕ) × Vfs
unfolding alloc_fd pipe_from
create_pipe v = pipe_from (alloc_fd perm_read v)

pub stat : ℕ → Vfs → KResult ℕ
unfolding fd_check fd_get
stat token v = elim (fd_check token v) [ err e ↦ err e | ok idx ↦ ok (fd_get idx v).size ]

-- a signed number
pub data ℤ : Type 0 where
  pos : ℕ → ℤ
  negsuc : ℕ → ℤ

-- the sum as an `i64`, which wraps
unfoldable pub add_i64 : ℕ → ℤ → ℤ
add_i64 a (pos b) = if ltb (a + b) (2 ^ 63) then pos (a + b) else negsuc (2 ^ 64 - 1 - (a + b))
add_i64 a (negsuc b) = if ltb b a then pos (a - b - 1) else negsuc (b - a)

unfoldable pub new_position : VfsFd → ℤ → ℕ → Option ℤ
unfolding add_i64
new_position fd off whence =
    if whence == 0
    then some off
    else if whence == 1
    then some (add_i64 fd.pos off)
    else if whence == 2
    then some (add_i64 fd.size off)
    else none

-- the rest of `lseek`, after the `match`
pub seek_to : ℕ → VfsFd → Vfs → Option ℤ → KResult ℕ × Vfs
unfolding fd_update_pos
seek_to idx fd v none = (err inval, v)
seek_to idx fd v (some (negsuc n)) = (err range, v)
seek_to idx fd v (some (pos n)) =
    if ltb fd.size n then (err range, v) else (ok (n % 2 ^ 32), fd_update_pos idx (n % 2 ^ 32) v)

pub lseek : ℕ → ℤ → ℕ → Vfs → KResult ℕ × Vfs
unfolding fd_check_perm fd_get new_position seek_to
lseek token off whence v = elim (fd_check_perm token perm_seek v) [
  | err e ↦ (err e, v)
  | ok idx ↦ seek_to idx (fd_get idx v) v (new_position (fd_get idx v) off whence)
]
