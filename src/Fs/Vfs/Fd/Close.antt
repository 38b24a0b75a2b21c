-- ===== src/Fs/Vfs/Fd/Close.antt =====
-- kernel/src/fs/vfs/file.rs and ops.rs: the token of a closed descriptor stays refused.
use slipper_kernel.Prelude.{
  ℕ, ◌<◌, ◌≡◌, refl, ap, subst, sym, ◌∙◌, arith, List, length, get_elem?, some, Bool, true, false,
  ◌==◌, Bool-cases, ◌⊎◌, inl, inr,
}
use slipper_kernel.Core.Errno.{KResult, ok, err, bad_fd}
use slipper_kernel.Fs.Vfs.Fd.{
  VfsFd, Vfs, vfs_max_fds, table, update_fd, next_epoch, claim, alloc_fd, fd_get, fd_check,
  fd_token_idx, fd_token_epoch, fd_clear, close,
}
use slipper_kernel.Fs.Vfs.Fd.Table.{
  IsVfs, AllocFdOutcome, alloc_fd-AllocFdOutcome, table-with_table, length-table, get_elem?-some,
  get_elem?-update_fd, length-update_fd,
}
use slipper_kernel.Fs.Vfs.Fd.Check.{
  IsValidToken, fd_get_lem, fd_check_inverse, fd_check_stale, next_epoch_lem,
}

abbrev shut : VfsFd → VfsFd
shut fd = record fd { used = false }

pub close_lem :
    (token idx : ℕ) (v : Vfs) → fd_check token v ≡ ok idx → close token v ≡ (ok tt, fd_clear idx v)
unfolding close
close_lem token idx v h = rw (close, h) refl

pub fd_clear-IsVfs : (idx : ℕ) (v : Vfs) → IsVfs v → IsVfs (fd_clear idx v)
unfolding fd_clear IsVfs
fd_clear-IsVfs idx v (hk, hp) = on v.kernel_boot v.kernel_fds v.proc_fds hk hp
  where
    on :
        (b : Bool) (ks ps : List VfsFd)
        → length ks ≡ vfs_max_fds
        → length ps ≡ vfs_max_fds
        → IsVfs (fd_clear idx (record { kernel_boot = b; kernel_fds = ks; proc_fds = ps }))
    on true ks ps hk hp = (length-update_fd ks idx shut ∙ hk, hp)
    on false ks ps hk hp = (hk, length-update_fd ps idx shut ∙ hp)

table-fd_clear :
    (idx : ℕ) (v : Vfs) (fd : VfsFd)
    → get_elem? (table v) idx ≡ some fd
    → get_elem? (table (fd_clear idx v)) idx ≡ some (shut fd)
unfolding fd_clear
table-fd_clear idx v fd here =
    ap (λ (t : List VfsFd). get_elem? t idx) (table-with_table (update_fd idx shut (table v)) v)
    ∙ get_elem?-update_fd (table v) idx shut fd here

-- what a valid token says of its entry
pub valid_entry :
    (token idx : ℕ) (v : Vfs)
    → IsVfs v
    → fd_check token v ≡ ok idx
    → (fd : VfsFd) × (idx ≡ fd_token_idx token)
      × (idx < vfs_max_fds)
      × (get_elem? (table v) idx ≡ some fd)
      × (fd.used ≡ true)
      × (fd.epoch ≡ fd_token_epoch token)
unfolding IsValidToken
valid_entry token idx v h checked =
    let ((small, used, same), at) = fd_check_inverse token idx v checked in
    let size = length-table v h in
    let (fd, here) = get_elem?-some (table v) idx (omega arith) in
    let got : fd_get (fd_token_idx token) v ≡ fd =
      ap (λ i. fd_get i v) (sym at) ∙ fd_get_lem idx v fd here in
    (
      fd,
      at,
      omega arith,
      here,
      subst (λ (f : VfsFd). f.used ≡ true) got used,
      subst (λ (f : VfsFd). f.epoch ≡ fd_token_epoch token) got same,
    )

entry_stale :
    (perms token : ℕ) (old w : VfsFd) (v : Vfs)
    → get_elem? (table v) (fd_token_idx token) ≡ some w
    → old.epoch ≡ fd_token_epoch token
    → (w ≡ shut old) ⊎ (w ≡ claim perms (shut old))
    → fd_check token v ≡ err bad_fd
unfolding claim fd_token_epoch
entry_stale perms token old w v here same (inl e) =
    fd_check_stale token v w here (inl (ap (λ (f : VfsFd). f.used) e))
entry_stale perms token old w v here same (inr e) =
    let (fresh, small) = next_epoch_lem old.epoch (omega arith) in
    let now : w.epoch ≡ next_epoch old.epoch = ap (λ (f : VfsFd). f.epoch) e in
    fd_check_stale token v w here (inr (λ again. fresh (sym now ∙ again ∙ sym same)))

-- A token that was valid is refused, with `BadFd`, once it has been closed, and stays so after the
-- next descriptor is handed out, even where that one has the same index.
pub close_stale :
    (token idx perms : ℕ) (v : Vfs)
    → IsVfs v
    → fd_check token v ≡ ok idx
    → (fd_check token ((close token v).1) ≡ err bad_fd)
      × (fd_check token ((alloc_fd perms ((close token v).1)).1) ≡ err bad_fd)
unfolding AllocFdOutcome
close_stale token idx perms v h checked =
    let (fd, at, small, here, used, same) = valid_entry token idx v h checked in
    let cleared = table-fd_clear idx v fd here in
    let done : (close token v).1 ≡ fd_clear idx v =
      ap (λ (r : KResult (Unit {0}) × Vfs). r.1) (close_lem token idx v checked) in
    rw done (
      entry_stale perms token fd (shut fd) (fd_clear idx v)
          (subst (λ i. get_elem? (table (fd_clear idx v)) i ≡ some (shut fd)) at cleared) same
          (inl refl),
      after token idx perms fd (fd_clear idx v) at cleared same (alloc_fd perms (fd_clear idx v))
          (alloc_fd-AllocFdOutcome perms (fd_clear idx v) (fd_clear-IsVfs idx v h)),
    )
  where
    after :
        (token idx perms : ℕ) (fd : VfsFd) (v1 : Vfs)
        → idx ≡ fd_token_idx token
        → get_elem? (table v1) idx ≡ some (shut fd)
        → fd.epoch ≡ fd_token_epoch token
        → (out : KResult ℕ × Vfs) → AllocFdOutcome perms v1 out
        → fd_check token (out.1) ≡ err bad_fd
    after token idx perms fd v1 at cleared same (err e, w) (code, unchanged, all) =
        let here = ap (λ (t : List VfsFd). get_elem? t idx) unchanged ∙ cleared in
        entry_stale perms token fd (shut fd) w
          (subst (λ i. get_elem? (table w) i ≡ some (shut fd)) at here) same (inl refl)
    after token idx perms fd v1 at cleared same (ok new, w)
          (fd', low, was, free_before, now, others, before) =
        elim (Bool-cases (idx == new)) [
          | inl e ↦
              let reused : idx ≡ new = ground arith in
              let again : some fd' ≡ some (shut fd) =
                sym was ∙ ap (get_elem? (table v1)) (sym reused) ∙ cleared in
              let slot : fd' ≡ shut fd = cc in
              let here : get_elem? (table w) idx ≡ some (claim perms fd') =
                ap (get_elem? (table w)) reused ∙ now in
              entry_stale perms token fd (claim perms fd') w
                (subst (λ i. get_elem? (table w) i ≡ some (claim perms fd')) at here) same
                (inr (ap (claim perms) slot))
          | inr e ↦
              let here = others idx (ground arith) ∙ cleared in
              entry_stale perms token fd (shut fd) w
                (subst (λ i. get_elem? (table w) i ≡ some (shut fd)) at here) same (inl refl)
        ]
